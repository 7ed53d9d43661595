-- ===== src/Rules/Yara/Match.antt =====
-- pkg/rules/yara_loader.go: the matching of rules. A Go map from names to truth values is the list
-- of its entries, in the order in which the names were first set; Go visits it in an order that it does
-- not fix, which shows in the evidence of a hit only.
pub mod Hex
pub mod Negation
pub mod Boolean
use gasha_sandbox.Common.{
  ℕ, ◌+◌, ◌*◌, Bool, true, false, ◌&&◌, ◌||◌, not, Option, none, some, List, [], ◌∷◌, ◌++◌, ltb,
  leb, ◌==◌, if◌then◌else◌, is_nil, length, take,
}
use gasha_sandbox.Common.Text.{Text, String, codes, text_eq, lower, has_prefix, contains, decimal}
use gasha_sandbox.Common.Words.{trim_space, trim_prefix}
use gasha_sandbox.Common.Ints.{ℤ, pos, less}
use gasha_sandbox.Rules.Hit.{RuleHit}
use gasha_sandbox.Rules.Yara.Types.{
  PatternKind, kind_literal, kind_hex, kind_regex, YaraPattern, CondMode, mode_any, mode_all,
  mode_count, mode_bool_expr, YaraCondition, ExternalYaraRule, Regexps,
}

abbrev pub yara_scan_cap : ℕ
yara_scan_cap = 512 * 1024

-- The pattern at the start of the data, a byte of mask 0 standing for any.
unfoldable pub agrees : Text → Text → List ℕ → Bool
agrees buf [] mask = true
agrees [] (p ∷ ps) mask = false
agrees (d ∷ ds) (p ∷ ps) [] = d == p && agrees ds ps []
agrees (d ∷ ds) (p ∷ ps) (m ∷ mask) = (m == 0 || d == p) && agrees ds ps mask

unfoldable pub match_hex_with_mask : Text → Text → List ℕ → Bool
unfolding agrees
match_hex_with_mask [] pattern mask = agrees [] pattern mask
match_hex_with_mask (d ∷ ds) pattern mask =
    agrees (d ∷ ds) pattern mask || match_hex_with_mask ds pattern mask

unfoldable pub to_utf16le : Text → Text
to_utf16le [] = []
to_utf16le (c ∷ s) = c ∷ 0 ∷ to_utf16le s

unfoldable pub match_literal : YaraPattern → Text → Text → Bool
unfolding to_utf16le
match_literal p buf lower_buf =
    (if p.nocase then contains lower_buf (lower p.literal) else contains buf p.literal)
    || p.wide && contains buf (to_utf16le p.literal)

unfoldable pub match_pattern : Regexps → YaraPattern → Text → Text → Bool
unfolding match_literal match_hex_with_mask
match_pattern h p buf lower_buf = elim p.kind [
  | kind_regex ↦ h.is_match p.re buf
  | kind_hex ↦ match_hex_with_mask buf p.literal p.hex_mask
  | kind_literal ↦ match_literal p buf lower_buf
]

abbrev pub MatchSet : Type 0
MatchSet = List (Text × Bool)

-- `matchSet[id] = ok`
unfoldable pub set_match : Text → Bool → MatchSet → MatchSet
set_match id ok [] = (id, ok) ∷ []
set_match id ok ((j, old) ∷ m) =
    let rest = set_match id ok m in if text_eq j id then (j, ok) ∷ m else (j, old) ∷ rest

-- `matchSet[id]`, which is false where it is no key
unfoldable pub is_matched : MatchSet → Text → Bool
is_matched [] id = false
is_matched ((j, ok) ∷ m) id = if text_eq j id then ok else is_matched m id

unfoldable pub match_all : Regexps → List YaraPattern → Text → Text → MatchSet → MatchSet
unfolding match_pattern set_match
match_all h [] buf lower_buf m = m
match_all h (p ∷ ps) buf lower_buf m =
    match_all h ps buf lower_buf (set_match p.id (match_pattern h p buf lower_buf) m)

unfoldable pub matched : MatchSet → List Text
matched [] = []
matched ((id, ok) ∷ m) = let rest = matched m in if ok then id ∷ rest else rest

-- `strings.Join`
unfoldable pub join : Text → List Text → Text
join sep [] = []
join sep (t ∷ []) = t
join sep (t ∷ u ∷ ts) = t ++ (sep ++ join sep (u ∷ ts))

-- `cur` is the open part.
unfoldable pub split_tokens_from : String → List Text → List Text → List (List Text)
split_tokens_from sep cur [] = cur ∷ []
split_tokens_from sep cur (t ∷ ts) =
    let cut = cur ∷ split_tokens_from sep [] ts in
    let more = split_tokens_from sep (cur ++ t ∷ []) ts in
    if text_eq (lower (trim_space t)) (codes sep) then cut else more

unfoldable pub split_tokens : List Text → String → List (List Text)
unfolding split_tokens_from
split_tokens tokens sep = split_tokens_from sep [] tokens

unfoldable pub named_term : Text → MatchSet → Bool
unfolding is_matched
named_term t m =
    if is_nil t
    then true
    else if has_prefix t (codes "not ")
    then not (is_matched m (trim_prefix t (codes "not ")))
    else is_matched m t

abbrev pub term_holds : List Text → MatchSet → Bool
term_holds [] m = true
term_holds (t ∷ ts) m = named_term (trim_space t) m

abbrev pub all_terms : List (List Text) → MatchSet → Bool
all_terms [] m = true
all_terms (t ∷ ts) m = term_holds t m && all_terms ts m

abbrev pub any_clause : List (List Text) → MatchSet → Bool
any_clause [] m = false
any_clause (c ∷ cs) m = all_terms (split_tokens c "and") m || any_clause cs m

unfoldable pub eval_bool_tokens : List Text → MatchSet → Bool
unfolding split_tokens named_term
eval_bool_tokens tokens m = if is_nil tokens then false else any_clause (split_tokens tokens "or") m

-- The first name that has the prefix and matched.
unfoldable pub first_of_group : Text → MatchSet → Option Text
first_of_group prefix [] = none
first_of_group prefix ((id, ok) ∷ m) =
    let rest = first_of_group prefix m in if ok && has_prefix id prefix then some id else rest

abbrev group_result : Option Text → Bool × Text
group_result none = (false, [])
group_result (some id) = (true, id)

-- Whether the rule fires, and the evidence.
unfoldable pub eval_condition : YaraCondition → List YaraPattern → MatchSet → Bool × Text
unfolding matched eval_bool_tokens first_of_group join
eval_condition cond patterns m =
    let ids = matched m in
    let evidence = join (codes ", ") ids in
    elim cond.mode [
      | mode_all ↦ (length ids == length patterns, evidence)
      | mode_count ↦ (not (less (pos (length ids)) cond.min_count), evidence)
      | mode_bool_expr ↦ (eval_bool_tokens cond.bool_tokens m, evidence)
      | mode_any ↦
          if is_nil cond.group_prefix
          then (not (is_nil ids), evidence)
          else group_result (first_of_group cond.group_prefix m)
    ]

unfoldable pub non_empty : Text → Text → Text
non_empty a b = if is_nil a then b else a

-- The metadata of a hit are not part of the modelled `RuleHit`.
unfoldable pub yara_hit : ExternalYaraRule → Text → Text → RuleHit
unfolding non_empty
yara_hit rule label evidence = record {
  rule_name = rule.name;
  engine = codes "yara-external";
  description = rule.description;
  severity = non_empty rule.severity (codes "medium");
  mitre_ttp = rule.mitre_ttp;
  matched_on = label;
  evidence = codes "Matched: " ++ evidence;
}

abbrev pub triggered : Regexps → ExternalYaraRule → Text → Bool × Text
triggered h rule buf =
    eval_condition rule.condition rule.patterns (match_all h rule.patterns buf (lower buf) [])

unfoldable pub rule_hits : Regexps → Text → Text → List ExternalYaraRule → List RuleHit
unfolding eval_condition match_all yara_hit
rule_hits h buf label [] = []
rule_hits h buf label (rule ∷ rules) =
    let rest = rule_hits h buf label rules in
    let result = triggered h rule buf in
    if is_nil rule.patterns
    then rest
    else if result.0
    then yara_hit rule label result.1 ∷ rest
    else rest

-- `match`: only the start of the data is looked at.
unfoldable pub match_rules : Regexps → List ExternalYaraRule → Text → Text → List RuleHit
unfolding rule_hits
match_rules h rules buf label = rule_hits h (take yara_scan_cap buf) label rules

unfoldable pub match_memory : Regexps → List ExternalYaraRule → ℕ → Text → Text → List RuleHit
unfolding match_rules
match_memory h rules pid address buf =
    match_rules h rules buf (codes "PID " ++ decimal pid ++ codes " @ " ++ address)
