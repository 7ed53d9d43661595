-- ===== src/Rules/Yara/Parse/Blocks.antt =====
-- pkg/rules/yara_loader.go: rule blocks and files. A position is the list of the lines from there.
use gasha_sandbox.Common.{
  ℕ, zero, suc, ◌+◌, Bool, ◌||◌, Option, none, some, List, [], ◌∷◌, ◌++◌, ◌==◌, if◌then◌else◌,
  is_nil, length,
}
use gasha_sandbox.Common.Text.{Text, codes, text_eq, has_prefix, contains_byte, trim_suffix}
use gasha_sandbox.Common.Words.{fields, trim_space, trim_prefix}
use gasha_sandbox.Common.Find.{cut, trim_right}
use gasha_sandbox.Rules.Yara.Types.{mode_any, YaraPattern, ExternalYaraRule, Regexps}
use gasha_sandbox.Rules.Yara.Parse.Condition.{of_mode, parse_condition_expr}
use gasha_sandbox.Rules.Yara.Parse.Strings.{parse_meta_line, parse_string_line}

abbrev is_blank_or_brace : ℕ → Bool
is_blank_or_brace c = c == b' ' || c == b'{'

abbrev header_parts : Text → Option (Text × Text) → Text × List Text
header_parts after none = (after, [])
header_parts after (some (before, tag_part)) =
    (before, fields (trim_right is_blank_or_brace tag_part))

-- The name and the tags.
unfoldable pub parse_header : Text → Text × List Text
unfolding trim_right cut
parse_header line =
    let after =
      trim_prefix (trim_prefix (trim_prefix (trim_space line) (codes "private ")) (codes "global "))
        (codes "rule ") in
    let parts = header_parts after (cut (codes ":") after) in
    (trim_space (trim_suffix (trim_space parts.0) (codes "{")), parts.1)

unfoldable pub new_rule : Text × List Text → ExternalYaraRule
new_rule (n, tags) = record {
  name = n;
  description = [];
  severity = [];
  mitre_ttp = [];
  lemas_family = [];
  tags = tags;
  patterns = [];
  condition = of_mode mode_any;
}

pub data BlockSection : Type 0 where
  no_section meta_section strings_section condition_section : BlockSection

pub record Block : Type 0 where
  pub rule : ExternalYaraRule
  pub section : BlockSection
  pub cond_lines : List Text

abbrev pub add_pattern : Option YaraPattern → ExternalYaraRule → ExternalYaraRule
add_pattern none rule = rule
add_pattern (some p) rule = record rule { patterns = rule.patterns ++ p ∷ [] }

unfoldable pub section_line : Regexps → Text → Block → Block
unfolding parse_meta_line parse_string_line
section_line h line b = elim b.section [
  | no_section ↦ b
  | meta_section ↦ record b { rule = parse_meta_line line b.rule }
  | strings_section ↦ record b { rule = add_pattern (parse_string_line h line) b.rule }
  | condition_section ↦ record b { cond_lines = b.cond_lines ++ line ∷ [] }
]

-- The first line of the condition, which may stand behind its keyword.
unfoldable pub start_condition : Text → Block → Block
start_condition line b =
    let rest = trim_space (trim_prefix line (codes "condition:")) in
    let lines = if is_nil rest then b.cond_lines else b.cond_lines ++ rest ∷ [] in
    record b { section = condition_section; cond_lines = lines }

-- A line of the block that is neither empty, a comment nor its end.
unfoldable pub block_line : Regexps → Text → Block → Block
unfolding section_line start_condition
block_line h line b =
    if has_prefix line (codes "meta:")
    then record b { section = meta_section }
    else if has_prefix line (codes "strings:")
    then record b { section = strings_section }
    else if has_prefix line (codes "condition:")
    then start_condition line b
    else section_line h line b

abbrev pub finish_block : Block → ExternalYaraRule
finish_block b = record b.rule { condition = parse_condition_expr b.cond_lines }

-- The lines of a block up to its end; `none` where the closing brace is missing.
unfoldable pub parse_body : Regexps → List Text → Block → Option (ExternalYaraRule × List Text)
unfolding block_line parse_condition_expr
parse_body h [] b = none
parse_body h (raw ∷ lines) b =
    let line = trim_space raw in
    let skipped = parse_body h lines b in
    let more = parse_body h lines (block_line h line b) in
    if text_eq line (codes "}")
    then some (finish_block b, lines)
    else if is_nil line || has_prefix line (codes "//")
    then skipped
    else more

unfoldable pub past_brace : List Text → List Text
past_brace [] = []
past_brace (l ∷ lines) = let rest = past_brace lines in if contains_byte b'{' l then lines else rest

abbrev pub first_line : List Text → Text
first_line [] = []
first_line (l ∷ lines) = l

unfoldable pub parse_rule_block : Regexps → List Text → Option (ExternalYaraRule × List Text)
unfolding parse_body past_brace parse_header new_rule
parse_rule_block h lines = parse_body h (past_brace lines) (record {
  rule = new_rule (parse_header (first_line lines));
  section = no_section;
  cond_lines = [];
})

unfoldable pub is_skipped : Text → Bool
is_skipped line =
    is_nil line
    || (has_prefix line (codes "//")
        || (has_prefix line (codes "/*") || has_prefix line (codes "*")))

unfoldable pub starts_rule : Text → Bool
starts_rule line =
    has_prefix line (codes "rule ")
    || (has_prefix line (codes "private rule ") || has_prefix line (codes "global rule "))

-- The rules, and the names of those with no closing brace.
abbrev pub Loaded : Type 0
Loaded = List ExternalYaraRule × List Text

abbrev pub with_rule : ExternalYaraRule → Option Loaded → Option Loaded
with_rule r none = none
with_rule r (some (rules, errs)) = some (r ∷ rules, errs)

abbrev pub with_error : Text → Option Loaded → Option Loaded
with_error n none = none
with_error n (some (rules, errs)) = some (rules, n ∷ errs)

-- The loop of `parseYaraFile`; `none` where the fuel is not enough.
unfoldable pub parse_lines : Regexps → ℕ → List Text → Option Loaded
unfolding parse_rule_block is_skipped starts_rule
parse_lines h zero lines = none
parse_lines h (suc f) [] = some ([], [])
parse_lines h (suc f) (l ∷ lines) =
    let next = parse_lines h f lines in
    let block : Option Loaded = elim (parse_rule_block h (l ∷ lines)) [
      | none ↦ with_error (parse_header l).0 (parse_lines h f lines)
      | some (rule, rest) ↦ with_rule rule (parse_lines h f rest)
    ] in
    if is_skipped (trim_space l) then next else if starts_rule (trim_space l) then block else next

unfoldable pub parse_yara_file : Regexps → List Text → Option Loaded
unfolding parse_lines
parse_yara_file h lines = parse_lines h (length lines + 1) lines
