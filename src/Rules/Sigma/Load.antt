-- ===== src/Rules/Sigma/Load.antt =====
-- pkg/rules/sigma_loader.go: from a rule file that `yaml` has read to a compiled rule.
pub mod Scoping
pub mod Loaded
use gasha_sandbox.Common.{
  ℕ, Bool, true, false, ◌&&◌, ◌||◌, not, Option, none, some, List, [], ◌∷◌, ◌++◌, map,
  if◌then◌else◌, is_nil,
}
use gasha_sandbox.Common.Text.{
  Text, codes, text_eq, lower, has_prefix, contains, contains_byte, member, lookup,
}
use gasha_sandbox.Common.Words.{trim_space, trim_prefix, upper}
use gasha_sandbox.Rules.Severity.{normalise_severity}
use gasha_sandbox.Rules.Sigma.Types.{
  SigmaSelector, SelectorMap, SigmaCondExpr, CompiledSigmaRule, Scalar, nothing, text, printed,
  RawBlock, mapping, sequence, single, SigmaLogsource, SigmaRuleFile, Host, print_scalar,
}
use gasha_sandbox.Rules.Sigma.Sources.{logsource_category_map, logsource_event_id_map}
use gasha_sandbox.Rules.Sigma.Compile.{compile_selector}
use gasha_sandbox.Rules.Sigma.Scope.{ExternalSigmaRules, build_index}
use gasha_sandbox.Rules.Sigma.Condition.{Parsed, parse_cond_expr}

-- The three lists that say what events a rule is for.
pub record Targets : Type 0 where
  pub categories : List Text
  pub event_types : List Text
  pub event_ids : List ℕ

abbrev pub or_nil {ℓ} : {A : Type ℓ} → Option (List A) → List A
or_nil none = []
or_nil (some xs) = xs

abbrev category_names : List Text
category_names =
    codes "network"
    ∷ codes "process"
    ∷ codes "filesystem"
    ∷ codes "registry"
    ∷ codes "api"
    ∷ codes "memory"
    ∷ codes "script"
    ∷ []

unfoldable pub is_event_type : Text → Bool
is_event_type m = contains_byte b'_' m && not (member m category_names)

-- One round of the loop over the mapped names.
abbrev pub add_mapping : Text → Targets → Targets
add_mapping m t =
    if is_event_type m
    then record t { event_types = t.event_types ++ m ∷ [] }
    else record t { categories = t.categories ++ m ∷ [] }

abbrev pub add_mappings : List Text → Targets → Targets
add_mappings [] t = t
add_mappings (m ∷ ms) t = add_mappings ms (add_mapping m t)

abbrev pub windows_default : Text → Targets → Targets
windows_default product t =
    if text_eq (lower product) (codes "windows") && (is_nil t.categories && is_nil t.event_types)
    then record t { categories = codes "process" ∷ codes "api" ∷ codes "registry" ∷ [] }
    else t

unfoldable pub apply_logsource : SigmaLogsource → Targets
apply_logsource ls = windows_default ls.product (
    add_mappings (or_nil (lookup (lower ls.category) logsource_category_map)) (record {
      categories = [];
      event_types = [];
      event_ids = or_nil (lookup (lower ls.category) logsource_event_id_map);
    }))

-- The first technique among the tags.
unfoldable pub add_tags : Text → List Text → Text
add_tags ttp [] = ttp
add_tags ttp (tag ∷ tags) =
    add_tags
      (if has_prefix (lower tag) (codes "attack.t") && is_nil ttp
        then upper (trim_prefix (lower tag) (codes "attack."))
        else ttp)
      tags

-- `fmt.Sprintf("%v", raw.Detection["condition"])`
unfoldable pub print_raw : Host → Option RawBlock → Text
unfolding print_scalar
print_raw h none = codes "<nil>"
print_raw h (some (single v)) = print_scalar v
print_raw h (some (mapping fields)) = h.print_block (mapping fields)
print_raw h (some (sequence vs)) = h.print_block (sequence vs)

unfoldable pub keyword_block : Option RawBlock → List Text
keyword_block (some (sequence vs)) = map print_scalar vs
keyword_block (some (single (text kw))) = kw ∷ []
keyword_block _ = []

abbrev has_block : Option RawBlock → Bool
has_block none = false
has_block (some b) = true

unfoldable pub wants_all : Option RawBlock → Text → Bool
wants_all block cond =
    has_block block
    && (contains (lower cond) (codes "all of keywords") || contains (lower cond) (codes "all of"))

abbrev add_selector : Text → Option SigmaSelector → SelectorMap → SelectorMap
add_selector key none m = m
add_selector key (some sel) m = (key, sel) ∷ m

unfoldable pub compile_selectors : Host → List (Text × RawBlock) → SelectorMap
compile_selectors h [] = []
compile_selectors h ((key, value) ∷ blocks) =
    let rest = compile_selectors h blocks in
    if member key (codes "condition" ∷ codes "keywords" ∷ [])
    then rest
    else add_selector key (compile_selector h key value) rest

abbrev pub keys {ℓ} : {V : Type ℓ} → List (Text × V) → List Text
keys [] = []
keys ((k, v) ∷ m) = k ∷ keys m

-- The rule with its parsed condition.
abbrev pub with_condition :
    SigmaRuleFile → List Text → SelectorMap → Option Parsed → Option CompiledSigmaRule
with_condition raw kws selectors none = none
with_condition raw kws selectors (some (expr, rest, all)) =
    let targets = apply_logsource raw.logsource in
    some (record {
      name = raw.title;
      description = raw.description;
      severity = normalise_severity raw.level;
      mitre_ttp = add_tags [] raw.tags;
      target_categories = targets.categories;
      target_event_types = targets.event_types;
      target_event_ids = targets.event_ids;
      selector_map = selectors;
      keyword_list = kws;
      keywords_all = all;
      cond_expr = expr;
    })

unfoldable pub compile_rule :
    Host → SigmaRuleFile → List (Text × RawBlock) → Option CompiledSigmaRule
unfolding print_raw keyword_block wants_all compile_selectors apply_logsource add_tags
compile_rule h raw detection =
    let cond = trim_space (print_raw h (lookup (codes "condition") detection)) in
    let block = lookup (codes "keywords") detection in
    let selectors = compile_selectors h detection in
    with_condition raw (keyword_block block) selectors
      (parse_cond_expr (keys selectors) (wants_all block cond) cond)

abbrev pub compile_detection :
    Host → SigmaRuleFile → Option (List (Text × RawBlock)) → Option CompiledSigmaRule
compile_detection h raw none = none
compile_detection h raw (some detection) =
    if is_nil raw.title then none else compile_rule h raw detection

-- `parseSigmaFile` from the decoded file on; `none` is "not a Sigma rule".
unfoldable pub parse_sigma_rule : Host → SigmaRuleFile → Option CompiledSigmaRule
unfolding compile_rule
parse_sigma_rule h raw = compile_detection h raw raw.detection

abbrev pub add_loaded : Option CompiledSigmaRule → List CompiledSigmaRule → List CompiledSigmaRule
add_loaded none rules = rules
add_loaded (some r) rules = r ∷ rules

unfoldable pub loaded_rules : Host → List SigmaRuleFile → List CompiledSigmaRule
unfolding parse_sigma_rule
loaded_rules h [] = []
loaded_rules h (raw ∷ raws) = add_loaded (parse_sigma_rule h raw) (loaded_rules h raws)

-- `LoadSigmaRules` from the decoded files of the directory on.
unfoldable pub load_sigma_rules : Host → List SigmaRuleFile → ExternalSigmaRules
unfolding loaded_rules
load_sigma_rules h raws = build_index (loaded_rules h raws)
