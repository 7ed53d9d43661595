-- ===== src/Rules/Yara/Severities.antt =====
-- The severities of what a scan of memory reports, over the parser of rule files and the matching.
use gasha_sandbox.Common.{
  ℕ, zero, suc, ◌≡◌, subst, inl, inr, Bool, true, false, ◌||◌, Option, none, some, List, [], ◌∷◌,
  is_nil, All, Bool-cases,
}
use gasha_sandbox.Common.Text.{Text, codes, text_eq, has_prefix, member}
use gasha_sandbox.Common.Words.{trim_space}
use gasha_sandbox.Common.Find.{cut}
use gasha_sandbox.Rules.Hit.{RuleHit}
use gasha_sandbox.Rules.Sigma.Severities.{normalise_severity-is_severity}
use gasha_sandbox.Rules.Sigma.Severities.Rated.{
  is_severity, IsRated, AllRated, medium_lem, high_lem, critical_lem, append-AllRated,
  cons-AllRated, nil_rated,
}
use gasha_sandbox.Rules.Yara.Types.{YaraPattern, ExternalYaraRule, Regexps}
use gasha_sandbox.Rules.Yara.Match.{
  non_empty, yara_hit, triggered, rule_hits, match_rules, match_memory,
}
use gasha_sandbox.Rules.Yara.Parse.Strings.{set_meta, meta_of, parse_meta_line, parse_string_line}
use gasha_sandbox.Rules.Yara.Parse.Blocks.{
  Block, BlockSection, no_section, meta_section, strings_section, condition_section, new_rule,
  add_pattern, past_brace, section_line, start_condition, block_line, parse_body, parse_rule_block,
  Loaded, with_rule, with_error, parse_header, parse_lines, parse_yara_file, is_skipped,
  starts_rule,
}
use gasha_sandbox.Rules.Yara.Scan.{Scanner, yara_scan_hit, scan_if, dense_hits, scan_memory}

-- A rule has no severity, or one of the five.
abbrev pub SeverityOk : Text → Type 0
SeverityOk s = is_severity (non_empty s (codes "medium")) ≡ true

empty-SeverityOk : SeverityOk []
unfolding non_empty
empty-SeverityOk = medium_lem

given-SeverityOk : (s : Text) → is_severity s ≡ true → SeverityOk s
unfolding non_empty
given-SeverityOk [] h = medium_lem
given-SeverityOk (c ∷ s) h = h

set_meta-SeverityOk :
    (key val : Text) (rule : ExternalYaraRule)
    → SeverityOk rule.severity
    → SeverityOk (set_meta key val rule).severity
set_meta-SeverityOk key val rule h =
    elim (Bool-cases (member key (codes "description" ∷ codes "desc" ∷ []))) [
      | inl a ↦ rw a h
      | inr a ↦
          elim (Bool-cases (member key (codes "severity" ∷ codes "sev" ∷ codes "level" ∷ []))) [
            | inl b ↦ rw (a, b) (given-SeverityOk _ (normalise_severity-is_severity val))
            | inr b ↦
                elim (Bool-cases (
                  member key (
                    codes "mitre"
                    ∷ codes "mitre_ttp"
                    ∷ codes "attack_id"
                    ∷ codes "technique"
                    ∷ []))) [
                      | inl c ↦ rw (a, b, c) h
                      | inr c ↦ elim (Bool-cases (text_eq key (codes "lemas_family"))) [
                        | inl d ↦ rw (a, b, c, d) h
                        | inr d ↦ rw (a, b, c, d) h
                      ]
                    ]
          ]
    ]

meta_of-SeverityOk :
    (kv : Option (Text × Text)) (rule : ExternalYaraRule)
    → SeverityOk rule.severity
    → SeverityOk (meta_of kv rule).severity
meta_of-SeverityOk none rule h = h
meta_of-SeverityOk (some (key, val)) rule h = set_meta-SeverityOk (trim_space key) _ rule h

add_pattern-SeverityOk :
    (p : Option YaraPattern) (rule : ExternalYaraRule)
    → SeverityOk rule.severity
    → SeverityOk (add_pattern p rule).severity
add_pattern-SeverityOk none rule h = h
add_pattern-SeverityOk (some p) rule h = h

section_line-SeverityOk :
    (h : Regexps) (line : Text) (r : ExternalYaraRule) (s : BlockSection) (cs : List Text)
    → SeverityOk r.severity
    → SeverityOk
        (section_line h line (record { rule = r; section = s; cond_lines = cs })).rule.severity
unfolding section_line parse_meta_line
section_line-SeverityOk h line r no_section cs ok = ok
section_line-SeverityOk h line r meta_section cs ok = meta_of-SeverityOk (cut (codes "=") line) r ok
section_line-SeverityOk h line r strings_section cs ok =
    add_pattern-SeverityOk (parse_string_line h line) r ok
section_line-SeverityOk h line r condition_section cs ok = ok

block_line-SeverityOk :
    (h : Regexps) (line : Text) (b : Block)
    → SeverityOk b.rule.severity
    → SeverityOk (block_line h line b).rule.severity
unfolding block_line start_condition
block_line-SeverityOk h line b ok = elim (Bool-cases (has_prefix line (codes "meta:"))) [
  | inl x ↦ rw x ok
  | inr x ↦ elim (Bool-cases (has_prefix line (codes "strings:"))) [
    | inl y ↦ rw (x, y) ok
    | inr y ↦ elim (Bool-cases (has_prefix line (codes "condition:"))) [
      | inl z ↦ rw (x, y, z) ok
      | inr z ↦ rw (x, y, z) (section_line-SeverityOk h line b.rule b.section b.cond_lines ok)
    ]
  ]
]

abbrev BlockOk : Option (ExternalYaraRule × List Text) → Type 0
BlockOk none = Unit
BlockOk (some (rule, rest)) = SeverityOk rule.severity

parse_body-BlockOk :
    (h : Regexps) (lines : List Text) (b : Block)
    → SeverityOk b.rule.severity
    → BlockOk (parse_body h lines b)
unfolding parse_body
parse_body-BlockOk h [] b ok = tt
parse_body-BlockOk h (raw ∷ lines) b ok = elim (Bool-cases (text_eq (trim_space raw) (codes "}"))) [
  | inl e ↦ rw e ok
  | inr e ↦
      elim (Bool-cases (is_nil (trim_space raw) || has_prefix (trim_space raw) (codes "//"))) [
        | inl s ↦ rw (e, s) (parse_body-BlockOk h lines b ok)
        | inr s ↦
            rw (e, s)
              (parse_body-BlockOk h lines (block_line h (trim_space raw) b)
                (block_line-SeverityOk h (trim_space raw) b ok))
      ]
]

parse_rule_block-BlockOk : (h : Regexps) (lines : List Text) → BlockOk (parse_rule_block h lines)
unfolding parse_rule_block new_rule
parse_rule_block-BlockOk h lines = parse_body-BlockOk h (past_brace lines) _ empty-SeverityOk

-- Every rule that a file gave.
abbrev LoadedOk : Option Loaded → Type 0
LoadedOk none = Unit
LoadedOk (some (rules, errs)) = All (λ r. SeverityOk r.severity) rules

with_rule-LoadedOk :
    (r : ExternalYaraRule) (p : Option Loaded)
    → SeverityOk r.severity
    → LoadedOk p
    → LoadedOk (with_rule r p)
with_rule-LoadedOk r none h ok = tt
with_rule-LoadedOk r (some (rules, errs)) h ok = (h, ok)

with_error-LoadedOk : (n : Text) (p : Option Loaded) → LoadedOk p → LoadedOk (with_error n p)
with_error-LoadedOk n none ok = tt
with_error-LoadedOk n (some (rules, errs)) ok = ok

parse_lines-LoadedOk : (h : Regexps) (f : ℕ) (lines : List Text) → LoadedOk (parse_lines h f lines)
unfolding parse_lines
parse_lines-LoadedOk h zero lines = tt
parse_lines-LoadedOk h (suc f) [] = tt
parse_lines-LoadedOk h (suc f) (l ∷ lines) = elim (Bool-cases (is_skipped (trim_space l))) [
  | inl e ↦ rw e (parse_lines-LoadedOk h f lines)
  | inr e ↦ elim (Bool-cases (starts_rule (trim_space l))) [
    | inr s ↦ rw (e, s) (parse_lines-LoadedOk h f lines)
    | inl s ↦
        rw (e, s)
          (block (parse_rule_block h (l ∷ lines)) (λ rest. parse_lines-LoadedOk h f rest)
            (parse_rule_block-BlockOk h (l ∷ lines)))
  ]
]
  where
    block :
        (p : Option (ExternalYaraRule × List Text))
        → ((rest : List Text) → LoadedOk (parse_lines h f rest))
        → BlockOk p
        → LoadedOk (elim p as (λ q. Option Loaded) [
          | none ↦ with_error (parse_header l).0 (parse_lines h f lines)
          | some (rule, rest) ↦ with_rule rule (parse_lines h f rest)
        ])
    block none loop ok = with_error-LoadedOk (parse_header l).0 _ (loop lines)
    block (some (rule, rest)) loop ok = with_rule-LoadedOk rule _ ok (loop rest)

rule_hits-AllRated :
    (h : Regexps) (buf label : Text) (rules : List ExternalYaraRule)
    → All (λ r. SeverityOk r.severity) rules
    → AllRated (rule_hits h buf label rules)
unfolding rule_hits yara_hit
rule_hits-AllRated h buf label [] ok = nil_rated
rule_hits-AllRated h buf label (rule ∷ rules) ok = elim (Bool-cases (is_nil rule.patterns)) [
  | inl e ↦ rw e (rule_hits-AllRated h buf label rules ok.1)
  | inr e ↦ elim (Bool-cases (triggered h rule buf).0) [
    | inl t ↦ rw (e, t) (cons-AllRated _ _ ok.0 (rule_hits-AllRated h buf label rules ok.1))
    | inr t ↦ rw (e, t) (rule_hits-AllRated h buf label rules ok.1)
  ]
]

scan_if-AllRated : (b : Bool) (r : RuleHit) → IsRated r → AllRated (scan_if b r)
unfolding scan_if
scan_if-AllRated true r h = cons-AllRated r [] h nil_rated
scan_if-AllRated false r h = nil_rated

dense_hits-AllRated :
    (pid : ℕ) (address : Text) (large : Bool) (o : Option Text)
    → AllRated (dense_hits pid address large o)
unfolding dense_hits yara_scan_hit
dense_hits-AllRated pid address large none = nil_rated
dense_hits-AllRated pid address large (some entropy) = scan_if-AllRated _ _ high_lem

scan_memory-AllRated :
    (y : Scanner) (lines errs : List Text) (rules : List ExternalYaraRule) (pid : ℕ)
    (address buf : Text)
    → parse_yara_file y.regexps lines ≡ some (rules, errs)
    → AllRated (scan_memory (record y { external_rules = some rules }) pid address buf)
unfolding scan_memory match_memory match_rules parse_yara_file yara_scan_hit
scan_memory-AllRated y lines errs rules pid address buf parsed =
    append-AllRated _ _
      (append-AllRated _ _
        (append-AllRated _ _ (scan_if-AllRated _ _ critical_lem)
          (dense_hits-AllRated pid address _ _))
        (scan_if-AllRated _ _ critical_lem))
      (rule_hits-AllRated y.regexps _ _ rules
        (subst LoadedOk parsed (parse_lines-LoadedOk y.regexps _ lines)))

-- Every hit of a scan of memory, by a built-in test or by the rules of a file, whatever its lines, has
-- one of the five severities that the comment on `RuleHit` lists.
pub scan_memory-IsRated :
    (y : Scanner) (lines errs : List Text) (rules : List ExternalYaraRule) (pid : ℕ)
    (address buf : Text)
    → parse_yara_file y.regexps lines ≡ some (rules, errs)
    → All IsRated (scan_memory (record y { external_rules = some rules }) pid address buf)
unfolding AllRated
scan_memory-IsRated y lines errs rules pid address buf parsed =
    scan_memory-AllRated y lines errs rules pid address buf parsed
