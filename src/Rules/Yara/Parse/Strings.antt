-- ===== src/Rules/Yara/Parse/Strings.antt =====
-- pkg/rules/yara_loader.go: the lines of the sections "meta" and "strings".
use gasha_sandbox.Common.{
  ℕ, zero, suc, Bool, false, ◌&&◌, ◌||◌, not, Option, none, some, List, [], ◌∷◌, ◌++◌, ◌==◌,
  if◌then◌else◌, length,
}
use gasha_sandbox.Common.Text.{
  Text, codes, text_eq, lower, has_prefix, contains, contains_byte, member,
}
use gasha_sandbox.Common.Words.{fields, trim, trim_space}
use gasha_sandbox.Common.Find.{cut, cut_last, replace_pair, parse_hex_byte}
use gasha_sandbox.Rules.Severity.{normalise_severity}
use gasha_sandbox.Rules.Yara.Types.{
  PatternKind, kind_literal, kind_hex, kind_regex, YaraPattern, ExternalYaraRule, Regexps,
}

abbrev is_quote : ℕ → Bool
is_quote c = c == 34

abbrev pub set_meta : Text → Text → ExternalYaraRule → ExternalYaraRule
set_meta key val rule =
    if member key (codes "description" ∷ codes "desc" ∷ [])
    then record rule { description = val }
    else if member key (codes "severity" ∷ codes "sev" ∷ codes "level" ∷ [])
    then record rule { severity = normalise_severity val }
    else if member key
        (codes "mitre" ∷ codes "mitre_ttp" ∷ codes "attack_id" ∷ codes "technique" ∷ [])
    then record rule { mitre_ttp = val }
    else if text_eq key (codes "lemas_family")
    then record rule { lemas_family = val }
    else rule

abbrev pub meta_of : Option (Text × Text) → ExternalYaraRule → ExternalYaraRule
meta_of none rule = rule
meta_of (some (key, val)) rule = set_meta (trim_space key) (trim is_quote (trim_space val)) rule

unfoldable pub parse_meta_line : Text → ExternalYaraRule → ExternalYaraRule
parse_meta_line line rule = meta_of (cut (codes "=") line) rule

-- The comments of a hex string, a blank for each; every round drops at least two bytes.
abbrev comment_end : Text → Option (Text × Text) → Option Text
comment_end before none = none
comment_end before (some (inner, rest)) = some (before ++ codes " " ++ rest)

abbrev comment_start : Option (Text × Text) → Option Text
comment_start none = none
comment_start (some (before, rest)) = comment_end before (cut (codes "*/") (codes "/*" ++ rest))

unfoldable pub drop_comments : ℕ → Text → Text
drop_comments zero s = s
drop_comments (suc f) s = elim (comment_start (cut (codes "/*") s)) [
  | none ↦ s
  | some t ↦ drop_comments f t
]

abbrev pub has_wildcard : Text → Bool
has_wildcard (a ∷ b ∷ []) = a == b'?' || b == b'?'
has_wildcard _ = false

abbrev pub with_byte : ℕ → ℕ → Option (Text × List ℕ) → Option (Text × List ℕ)
with_byte b m none = none
with_byte b m (some (bytes, mask)) = some (b ∷ bytes, m ∷ mask)

abbrev pub exact_byte : Option ℕ → Option (Text × List ℕ) → Option (Text × List ℕ)
exact_byte none rest = none
exact_byte (some b) rest = with_byte b 255 rest

-- The bytes and the mask; `none` for a field that is no byte.
unfoldable pub hex_fields : List Text → Option (Text × List ℕ)
hex_fields [] = some ([], [])
hex_fields (f ∷ fs) =
    let rest = hex_fields fs in
    if has_prefix f (codes "[")
    then rest
    else if text_eq f (codes "??") || has_wildcard f
    then with_byte 0 0 rest
    else exact_byte (parse_hex_byte f) rest

unfoldable pub parse_hex_string : Text → Option (Text × List ℕ)
unfolding hex_fields drop_comments
parse_hex_string s = hex_fields (fields (drop_comments (length s) s))

unfoldable pub unescape_yara_string : Text → Text
unfolding replace_pair
unescape_yara_string s = replace_pair 92 34 34 (
    replace_pair 92 92 92
      (replace_pair 92 b'r' 13 (replace_pair 92 b't' 9 (replace_pair 92 b'n' 10 s))))

-- The source and the flags of a regular expression, `previous` being the byte before.
unfoldable pub close_slash : ℕ → Text → Option (Text × Text)
close_slash previous [] = none
close_slash previous (c ∷ s) = elim (close_slash c s) [
  | none ↦ if c == b'/' && not (previous == 92) then some ([], s) else none
  | some (a, b) ↦ if c == b'/' && not (previous == 92) then some ([], s) else some (c ∷ a, b)
]

abbrev plain_pattern : Text → PatternKind → YaraPattern
plain_pattern id kind = record {
  id = id;
  kind = kind;
  literal = [];
  re = [];
  nocase = false;
  wide = false;
  hex_mask = [];
}

abbrev regex_of : Regexps → Text → Text → Text → Option YaraPattern
regex_of h id pattern flags =
    let source = if contains_byte b'i' flags then codes "(?i)" ++ pattern else pattern in
    if h.compiles source then some (record (plain_pattern id kind_regex) { re = source }) else none

abbrev regex_parts : Regexps → Text → Option (Text × Text) → Option YaraPattern
regex_parts h id none = none
regex_parts h id (some (pattern, flags)) = regex_of h id pattern flags

-- `rest` less its first slash
unfoldable pub parse_regex_pattern : Regexps → Text → Text → Option YaraPattern
unfolding close_slash
parse_regex_pattern h id rest = regex_parts h id (close_slash b'/' rest)

abbrev hex_of : Text → Option (Text × List ℕ) → Option YaraPattern
hex_of id none = none
hex_of id (some (bytes, mask)) =
    some (record (plain_pattern id kind_hex) { literal = bytes; hex_mask = mask })

abbrev hex_parts : Text → Option (Text × Text) → Option YaraPattern
hex_parts id none = none
hex_parts id (some (inner, rest)) = hex_of id (parse_hex_string inner)

abbrev literal_parts : Text → Option (Text × Text) → Option YaraPattern
literal_parts id none = none
literal_parts id (some (inner, mods)) = some (record (plain_pattern id kind_literal) {
  literal = unescape_yara_string inner;
  nocase = contains (lower mods) (codes "nocase");
  wide = contains (lower mods) (codes "wide");
})

-- By the first byte of what stands behind the equals sign.
unfoldable pub string_value : Regexps → Text → Text → Option YaraPattern
unfolding parse_regex_pattern parse_hex_string unescape_yara_string cut_last
string_value h id [] = none
string_value h id (c ∷ rest) =
    if c == b'/'
    then parse_regex_pattern h id rest
    else if c == b'{'
    then hex_parts id (cut_last b'}' rest)
    else if c == 34 || c == 39
    then literal_parts id (cut_last c rest)
    else none

abbrev string_of : Regexps → Option (Text × Text) → Option YaraPattern
string_of h none = none
string_of h (some (id, rest)) = string_value h (trim_space id) (trim_space rest)

unfoldable pub parse_string_line : Regexps → Text → Option YaraPattern
unfolding string_value cut
parse_string_line h line = string_of h (cut (codes "=") line)
