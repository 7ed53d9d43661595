-- ===== src/Rules/Yara/Parse/Ends.antt =====
-- The loop over the lines of a rule file ends.
use gasha_sandbox.Common.{
  ℕ, zero, suc, ◌+◌, ◌≤◌, ◌<◌, ◌≡◌, refl, inl, inr, ◌||◌, Option, none, some, List, [], ◌∷◌, arith,
  is_nil, length, Bool-cases,
}
use gasha_sandbox.Common.Text.{Text, codes, text_eq, has_prefix, contains_byte}
use gasha_sandbox.Common.Words.{trim_space}
use gasha_sandbox.Rules.Yara.Types.{ExternalYaraRule, Regexps}
use gasha_sandbox.Rules.Yara.Parse.Blocks.{
  Block, Loaded, with_rule, with_error, block_line, parse_body, past_brace, parse_rule_block,
  is_skipped, starts_rule, parse_header, parse_lines, parse_yara_file,
}

-- What a block leaves of `n` lines, where it is one.
abbrev LeavesLess : ℕ → Option (ExternalYaraRule × List Text) → Type 0
LeavesLess n none = Unit
LeavesLess n (some (rule, rest)) = length rest < n

parse_body-LeavesLess :
    (h : Regexps) (lines : List Text) (b : Block) (n : ℕ)
    → length lines ≤ n
    → LeavesLess n (parse_body h lines b)
unfolding parse_body
parse_body-LeavesLess h [] b n l = tt
parse_body-LeavesLess h (raw ∷ lines) b n l =
    elim (Bool-cases (text_eq (trim_space raw) (codes "}"))) [
      | inl e ↦ rw e (omega arith)
      | inr e ↦
          elim (Bool-cases (is_nil (trim_space raw) || has_prefix (trim_space raw) (codes "//"))) [
            | inl s ↦ rw (e, s) (parse_body-LeavesLess h lines b n (omega arith))
            | inr s ↦
                rw (e, s)
                  (parse_body-LeavesLess h lines (block_line h (trim_space raw) b) n (omega arith))
          ]
    ]

length-past_brace : (lines : List Text) → length (past_brace lines) ≤ length lines
unfolding past_brace
length-past_brace [] = omega arith
length-past_brace (l ∷ lines) = elim (Bool-cases (contains_byte b'{' l)) [
  | inl e ↦ rw e (omega arith)
  | inr e ↦ rw e (omega (arith, length-past_brace lines))
]

abbrev pub IsLoaded : Option Loaded → Type 0
IsLoaded p = (out : Loaded) × (p ≡ some out)

with_rule-IsLoaded :
    (r : ExternalYaraRule) (p : Option Loaded) → IsLoaded p → IsLoaded (with_rule r p)
with_rule-IsLoaded r p (out, e) = rw e (_, refl)

with_error-IsLoaded : (n : Text) (p : Option Loaded) → IsLoaded p → IsLoaded (with_error n p)
with_error-IsLoaded n p (out, e) = rw e (_, refl)

parse_rule_block-LeavesLess :
    (h : Regexps) (lines : List Text) → LeavesLess (length lines) (parse_rule_block h lines)
unfolding parse_rule_block
parse_rule_block-LeavesLess h lines =
    parse_body-LeavesLess h (past_brace lines) _ (length lines) (length-past_brace lines)

parse_lines-IsLoaded :
    (h : Regexps) (f : ℕ) (lines : List Text) → length lines < f → IsLoaded (parse_lines h f lines)
unfolding parse_lines
parse_lines-IsLoaded h zero lines b = absurd (omega arith)
parse_lines-IsLoaded h (suc f) [] b = (_, refl)
parse_lines-IsLoaded h (suc f) (l ∷ lines) b = elim (Bool-cases (is_skipped (trim_space l))) [
  | inl e ↦ rw e (parse_lines-IsLoaded h f lines (omega arith))
  | inr e ↦ elim (Bool-cases (starts_rule (trim_space l))) [
    | inr s ↦ rw (e, s) (parse_lines-IsLoaded h f lines (omega arith))
    | inl s ↦
        rw (e, s)
          (block (parse_rule_block h (l ∷ lines))
            (λ rest c. parse_lines-IsLoaded h f rest (omega arith))
            (parse_rule_block-LeavesLess h (l ∷ lines)))
  ]
]
  where
    block :
        (p : Option (ExternalYaraRule × List Text))
        → ((rest : List Text) → length rest ≤ length lines → IsLoaded (parse_lines h f rest))
        → LeavesLess (suc (length lines)) p
        → IsLoaded (elim p as (λ q. Option Loaded) [
          | none ↦ with_error (parse_header l).0 (parse_lines h f lines)
          | some (rule, rest) ↦ with_rule rule (parse_lines h f rest)
        ])
    block none loop less = with_error-IsLoaded (parse_header l).0 _ (loop lines (omega arith))
    block (some (rule, rest)) loop less = with_rule-IsLoaded rule _ (loop rest (omega arith))

-- Every list of lines, whatever they hold, is parsed to rules and errors: the loop ends, and one round
-- to a line is enough.
pub parse_yara_file-IsLoaded :
    (h : Regexps) (lines : List Text) → IsLoaded (parse_yara_file h lines)
unfolding parse_yara_file
parse_yara_file-IsLoaded h lines = parse_lines-IsLoaded h (length lines + 1) lines (omega arith)
