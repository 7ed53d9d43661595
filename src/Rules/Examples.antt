-- ===== src/Rules/Examples.antt =====
-- Concrete rules, conditions and events.
use mathlib.Core.List.{Permᴰ, reverse}
use mathlib.Core.List.Permᴰ
use gasha_sandbox.Common.{
  ℕ, ◌↔◌, drop, ◌≡◌, refl, true, false, ◌&&◌, not, none, some, List, [], ◌∷◌, map, arith, is_nil,
  any, All,
}
use gasha_sandbox.Common.Text.{
  Text, codes, text_eq, lower, lookup, contains, contains_byte, has_prefix, member,
}
use gasha_sandbox.Common.Words.{trim_space, fields, replace_byte, scan_int, upper, trim_prefix}
use gasha_sandbox.Common.Ints.{pos}
use gasha_sandbox.Monitor.Events.{Event, process_create, str}
use gasha_sandbox.Rules.Severity.{normalise_severity}
use gasha_sandbox.Rules.Sigma.Builtin.Base.{Known}
use gasha_sandbox.Rules.Sigma.Builtin.{evaluate_sigma}
use gasha_sandbox.Rules.Sigma.Severities.Rated.{IsRated}
use gasha_sandbox.Rules.Sigma.Severities.{evaluate_sigma-IsRated}
use gasha_sandbox.Rules.Yara.Scan.{Scanner, scan_memory}
use gasha_sandbox.Rules.Yara.Severities.{scan_memory-IsRated}
use gasha_sandbox.Rules.Yara.Types.{ExternalYaraRule, kind_hex, mode_bool_expr, Regexps}
use gasha_sandbox.Common.Find.{parse_hex_byte}
use gasha_sandbox.Rules.Yara.Match.{
  join, rule_hits, MatchSet, match_hex_with_mask, eval_bool_tokens,
}
use gasha_sandbox.Rules.Yara.Match.Hex.{Fits, match_hex_with_mask_iff}
use gasha_sandbox.Rules.Yara.Match.Boolean.{
  Without, Names, print_sum, every_name, eval_bool_tokens-print_sum,
}
use gasha_sandbox.Rules.Yara.Match.Negation.{rule_hits-not}
use gasha_sandbox.Rules.Yara.Parse.Strings.{parse_hex_string}
use gasha_sandbox.Rules.Yara.Parse.HexStrings.{
  HexUnit, IsUnit, byte_of_unit, mask_of_unit, print_units, parse_hex_string-print_units,
}
use gasha_sandbox.Rules.Yara.Parse.Blocks.{parse_yara_file}
use gasha_sandbox.Rules.Yara.Parse.Ends.{IsLoaded, parse_yara_file-IsLoaded}
use gasha_sandbox.Rules.Sigma.Types.{
  SigmaFieldMatcher, SigmaCondExpr, name, wildcard, both, either, negation, keywords,
  CompiledSigmaRule, Host, SigmaRuleFile, RawBlock, text, sequence,
}
use gasha_sandbox.Rules.Sigma.Sources.{logsource_category_map, logsource_event_id_map}
use gasha_sandbox.Rules.Sigma.Fields.{extract_field, field_matcher_matches}
use gasha_sandbox.Rules.Sigma.Eval.{matches, holds, height, matches-holds}
use gasha_sandbox.Rules.Sigma.Scope.{is_unscoped, build_index, evaluate_external, scoped_hits}
use gasha_sandbox.Rules.Sigma.Scope.Index.{evaluate_external-scoped_hits}
use gasha_sandbox.Rules.Sigma.Condition.{
  parse_tokens, parse_cond_expr, is_word, is_open, is_quantifier,
}
use gasha_sandbox.Rules.Sigma.Condition.Total.{IsParsed, parse_tokens-IsParsed}
use gasha_sandbox.Rules.Sigma.Condition.Print.{print_cond, is_proper}
use gasha_sandbox.Rules.Sigma.Condition.RoundTrip.{parse_tokens-print_cond}
use gasha_sandbox.Rules.Sigma.Compile.{plain_matcher}
use gasha_sandbox.Rules.Sigma.Compile.Modifiers.{
  contains_it, stands, pattern_of, compile_field_matcher-place, field_matcher_matches-stands,
}
use gasha_sandbox.Rules.Sigma.Load.{is_event_type, parse_sigma_rule, load_sigma_rules}
use gasha_sandbox.Rules.Sigma.Load.Loaded.{
  is_loaded, parse_sigma_rule-is_loaded, parse_sigma_rule-no_condition,
}
use gasha_sandbox.Rules.Sigma.Load.Scoping.{has_key, parse_sigma_rule-is_unscoped}

abbrev host : Host
host = record {
  print_value = λ v. codes "?";
  print_block = λ b. codes "?";
  regexp_compiles = λ re. true;
  regexp_matches = λ re s. contains s re;
  range_order = reverse;
}

abbrev event : Event
event = record {
  job_id = codes "1";
  timestamp = 9;
  event_type = process_create;
  event_id = 1;
  pid = 4;
  tid = 5;
  category = codes "process";
  fields = (codes "Image", str (codes "C:\\Windows\\whoami.exe")) ∷ [];
  severity = 0;
}

abbrev condition : SigmaCondExpr
condition =
    either (both (name (codes "image")) (negation (either keywords (name (codes "filter")))))
      (wildcard (codes "selection_") (pos 2))

abbrev whoami : CompiledSigmaRule
whoami = record {
  name = codes "Whoami";
  description = [];
  severity = codes "high";
  mitre_ttp = codes "T1033";
  target_categories = [];
  target_event_types = [];
  target_event_ids = 1 ∷ [];
  selector_map =
      (
        codes "image",
        record {
          name = codes "image";
          fields = plain_matcher (codes "Image") (codes "*\\whoami.exe" ∷ []) false ∷ [];
        },
      )
      ∷ [];
  keyword_list = [];
  keywords_all = false;
  cond_expr = condition;
}

backwards : (keys : List ℕ) → Permᴰ (host.range_order keys) keys
backwards keys = Permᴰ.reverse keys

evaluate_external-scoped_hits_example :
    Permᴰ
      (evaluate_external host (build_index (whoami ∷ whoami ∷ [])) event)
      (scoped_hits host event (whoami ∷ whoami ∷ []))
evaluate_external-scoped_hits_example =
    evaluate_external-scoped_hits host (whoami ∷ whoami ∷ []) event backwards

height_test : height condition ≡ 4
unfolding height
height_test = refl

matches-holds_example : matches host whoami event ≡ holds host whoami event condition
matches-holds_example = matches-holds host whoami event (omega (arith, height_test))

is_proper-condition : is_proper condition ≡ true
unfolding is_proper codes text_eq lower is_word is_open is_quantifier scan_int
is_proper-condition = refl

parse_tokens-print_cond_example :
    parse_tokens [] false (print_cond condition) ≡ some (condition, [], false)
parse_tokens-print_cond_example = parse_tokens-print_cond [] false condition is_proper-condition

parse_tokens-IsParsed_example : IsParsed (parse_tokens [] false (codes "(" ∷ codes "not" ∷ []))
parse_tokens-IsParsed_example = parse_tokens-IsParsed [] false (codes "(" ∷ codes "not" ∷ [])

abbrev values : List Text
values = codes "whoami" ∷ []

values_clean : All (λ v. contains_byte b'*' v ≡ false) values
unfolding contains_byte codes
values_clean = (refl, tt)

image_no_bar : contains_byte b'|' (codes "Image") ≡ false
unfolding contains_byte codes
image_no_bar = refl

abbrev image_matcher : SigmaFieldMatcher
image_matcher = plain_matcher (codes "Image") (map (pattern_of contains_it) values) false

field_matcher_matches-stands_example : field_matcher_matches host image_matcher event ≡ (
    not (is_nil (extract_field host (codes "Image") event))
    && any
        (λ v. stands contains_it (lower (extract_field host (codes "Image") event)) (lower v))
        values)
field_matcher_matches-stands_example =
    field_matcher_matches-stands contains_it host (codes "Image") values image_matcher event
      image_no_bar values_clean
      (compile_field_matcher-place contains_it host (codes "Image") values image_no_bar)

abbrev detection : List (Text × RawBlock)
detection = (codes "keywords", sequence (text (codes "mimikatz") ∷ [])) ∷ []

abbrev file : SigmaRuleFile
file = record {
  title = codes "Tool";
  description = [];
  level = codes "high";
  tags = codes "attack.t1003" ∷ [];
  logsource = record { category = codes "zeek"; product = [] };
  detection = some detection;
}

abbrev tool : CompiledSigmaRule
tool = record {
  name = codes "Tool";
  description = [];
  severity = codes "high";
  mitre_ttp = codes "T1003";
  target_categories = codes "network" ∷ [];
  target_event_types = [];
  target_event_ids = [];
  selector_map = [];
  keyword_list = codes "mimikatz" ∷ [];
  keywords_all = false;
  cond_expr = name (codes "<nil>");
}

file_loaded : parse_sigma_rule host file ≡ some tool
unfolding parse_sigma_rule codes parse_cond_expr fields replace_byte trim_space lookup is_word lower
    is_open is_quantifier scan_int normalise_severity has_prefix logsource_category_map member
    contains upper is_event_type trim_prefix contains_byte logsource_event_id_map
file_loaded = refl

parse_sigma_rule-is_loaded_example : is_loaded (parse_sigma_rule host file) ≡ true
unfolding codes
parse_sigma_rule-is_loaded_example = parse_sigma_rule-is_loaded host file

file_has_no_condition : lookup (codes "condition") detection ≡ none
unfolding lookup codes text_eq
file_has_no_condition = refl

tool_has_no_selector : lookup (codes "<nil>") tool.selector_map ≡ none
unfolding lookup
tool_has_no_selector = refl

parse_sigma_rule-no_condition_example : matches host tool event ≡ false
parse_sigma_rule-no_condition_example =
    parse_sigma_rule-no_condition host file detection tool event refl file_has_no_condition
      file_loaded tool_has_no_selector

parse_sigma_rule-is_unscoped_example : is_unscoped tool ≡ (
    not (has_key (lower (codes "zeek")) logsource_event_id_map)
    && (not (has_key (lower (codes "zeek")) logsource_category_map)
        && not (text_eq (lower []) (codes "windows"))))
parse_sigma_rule-is_unscoped_example = parse_sigma_rule-is_unscoped host file tool file_loaded

abbrev buffer : Text
buffer = 77 ∷ 90 ∷ 1 ∷ 0 ∷ []

match_hex_with_mask_iff_example :
    (match_hex_with_mask buffer (90 ∷ 0 ∷ 0 ∷ []) (255 ∷ 0 ∷ 255 ∷ []) ≡ true)
    ↔ ((i : ℕ) × Fits (drop i buffer) (90 ∷ 0 ∷ 0 ∷ []) (255 ∷ 0 ∷ 255 ∷ []))
match_hex_with_mask_iff_example =
    match_hex_with_mask_iff buffer (90 ∷ 0 ∷ 0 ∷ []) (255 ∷ 0 ∷ 255 ∷ [])

abbrev sum : List (List Text)
sum = (codes "$a" ∷ codes "$b" ∷ []) ∷ (codes "$c" ∷ []) ∷ []

abbrev match_set : MatchSet
match_set = (codes "$a", true) ∷ (codes "$b", false) ∷ (codes "$c", true) ∷ []

sum-Names : All Names sum
unfolding codes text_eq trim_space has_prefix lower
sum-Names = ((refl, (refl, (refl, tt))), ((refl, (refl, tt)), tt))

eval_bool_tokens-print_sum_example :
    eval_bool_tokens (print_sum sum) match_set ≡ any (λ c. every_name c match_set) sum
eval_bool_tokens-print_sum_example = eval_bool_tokens-print_sum sum match_set refl sum-Names

no_or : Without "or" (codes "$a" ∷ [])
unfolding codes text_eq trim_space lower
no_or = (refl, tt)

abbrev regexps : Regexps
regexps = record { compiles = λ re. true; is_match = λ re s. contains s re }

abbrev yara_lines : List Text
yara_lines =
    codes "rule a : trojan {"
    ∷ codes "strings:"
    ∷ codes "$a = { 4D ?? }"
    ∷ codes "condition:"
    ∷ codes "not $a"
    ∷ codes "}"
    ∷ []

parse_yara_file-IsLoaded_example : IsLoaded (parse_yara_file regexps yara_lines)
parse_yara_file-IsLoaded_example = parse_yara_file-IsLoaded regexps yara_lines

abbrev negated : ExternalYaraRule
negated = record {
  name = codes "a";
  description = [];
  severity = [];
  mitre_ttp = [];
  lemas_family = [];
  tags = codes "trojan" ∷ [];
  patterns =
      record {
        id = codes "$a";
        kind = kind_hex;
        literal = 77 ∷ 0 ∷ [];
        re = [];
        nocase = false;
        wide = false;
        hex_mask = 255 ∷ 0 ∷ [];
      }
      ∷ [];
  condition = record {
    mode = mode_bool_expr;
    min_count = pos 0;
    group_prefix = [];
    bool_tokens = codes "not" ∷ codes "$a" ∷ [];
  };
}

abbrev yara_rules : List ExternalYaraRule
yara_rules = negated ∷ []

a_is_not_not : text_eq (codes "$a") (codes "not") ≡ false
unfolding codes text_eq
a_is_not_not = refl

rule_hits-not_example :
    rule_hits regexps buffer (codes "file") (negated ∷ [])
    ≡ rule_hits regexps buffer (codes "file") []
rule_hits-not_example =
    rule_hits-not regexps negated [] buffer (codes "file") (codes "$a" ∷ []) refl refl no_or
      (a_is_not_not, tt)

-- What the file above gives.
yara_file_test : parse_yara_file regexps yara_lines ≡ some (yara_rules, [])
unfolding parse_yara_file trim_space codes contains_byte text_eq fields contains parse_hex_byte
    lower join
yara_file_test = refl

abbrev units : List HexUnit
units = some 77 ∷ none ∷ some 255 ∷ []

units-IsUnit : All IsUnit units
units-IsUnit = (omega arith, (omega arith, (omega arith, tt)))

parse_hex_string-print_units_example :
    parse_hex_string (print_units units) ≡ some (map byte_of_unit units, map mask_of_unit units)
parse_hex_string-print_units_example = parse_hex_string-print_units units units-IsUnit

abbrev known : Known
known = record {
  is_dga_domain = λ d. false;
  args_target = λ v. none;
  print_rounded = λ v. codes "0";
}

evaluate_sigma-IsRated_example :
    All IsRated (evaluate_sigma known host (some (load_sigma_rules host (file ∷ []))) event)
evaluate_sigma-IsRated_example = evaluate_sigma-IsRated known host (file ∷ []) event

abbrev scanner : Scanner
scanner = record {
  packed_entropy = λ b. none;
  dense_entropy = λ b. none;
  pe_hits = λ p. [];
  regexps = regexps;
  external_rules = none;
}

scan_memory-IsRated_example :
    All IsRated
      (scan_memory (record scanner { external_rules = some yara_rules }) 4 (codes "0x10") buffer)
scan_memory-IsRated_example =
    scan_memory-IsRated scanner yara_lines [] yara_rules 4 (codes "0x10") buffer yara_file_test
