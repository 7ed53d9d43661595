-- ===== src/Rules/Sigma/Load/Scoping.antt =====
-- Which rules are restricted to some events.
use gasha_sandbox.Common.{
  ℕ, ◌≡◌, refl, subst, ap, ◌∙◌, inl, inr, Bool, true, false, ◌&&◌, ◌||◌, not, Option, none, some,
  List, [], ◌∷◌, ◌++◌, arith, is_nil, Bool-cases, some_cancel,
}
use gasha_sandbox.Common.Text.{Text, codes, text_eq, lower, lookup}
use gasha_sandbox.Rules.Sigma.Types.{
  RawBlock, SelectorMap, CompiledSigmaRule, SigmaLogsource, SigmaRuleFile, Host,
}
use gasha_sandbox.Rules.Sigma.Sources.{logsource_category_map, logsource_event_id_map}
use gasha_sandbox.Rules.Sigma.Scope.{is_unscoped}
use gasha_sandbox.Rules.Sigma.Condition.{Parsed}
use gasha_sandbox.Rules.Sigma.Load.{
  Targets, or_nil, is_event_type, add_mapping, add_mappings, windows_default, apply_logsource,
  with_condition, compile_detection, compile_rule, parse_sigma_rule,
}

abbrev pub has_key {ℓ} : {V : Type ℓ} → Text → List (Text × V) → Bool
has_key k [] = false
has_key k ((j, v) ∷ m) = text_eq j k || has_key k m

abbrev no_empty_entry {ℓ} : {A : Type ℓ} → List (Text × List A) → Bool
no_empty_entry [] = true
no_empty_entry ((k, xs) ∷ m) = not (is_nil xs) && no_empty_entry m

-- Where no entry is empty, nothing is found exactly for a name that is no key.
lookup-is_nil {ℓ} :
    {A : Type ℓ} (k : Text) (m : List (Text × List A))
    → no_empty_entry m ≡ true
    → is_nil (or_nil (lookup k m)) ≡ not (has_key k m)
unfolding lookup
lookup-is_nil k [] h = refl
lookup-is_nil k ((j, xs) ∷ m) h = elim (Bool-cases (text_eq j k)) [
  | inl e ↦ rw e (ground (arith, h))
  | inr e ↦ rw e (lookup-is_nil k m (ground (arith, h)))
]

category_map_full : no_empty_entry logsource_category_map ≡ true
unfolding logsource_category_map
category_map_full = refl

event_id_map_full : no_empty_entry logsource_event_id_map ≡ true
unfolding logsource_event_id_map
event_id_map_full = refl

abbrev no_names : Targets → Bool
no_names t = is_nil t.categories && is_nil t.event_types

snoc-is_nil {ℓ} : {A : Type ℓ} (xs : List A) (x : A) → is_nil (xs ++ x ∷ []) ≡ false
snoc-is_nil [] x = refl
snoc-is_nil (y ∷ xs) x = refl

add_mapping-no_names : (m : Text) (t : Targets) → no_names (add_mapping m t) ≡ false
add_mapping-no_names m t = elim (Bool-cases (is_event_type m)) [
  | inl e ↦ rw (e, snoc-is_nil t.event_types m) (ground arith)
  | inr e ↦ rw (e, snoc-is_nil t.categories m) refl
]

add_mappings-no_names :
    (ms : List Text) (t : Targets) → no_names (add_mappings ms t) ≡ (no_names t && is_nil ms)
add_mappings-no_names [] t = ground arith
add_mappings-no_names (m ∷ ms) t =
    rw (add_mappings-no_names ms (add_mapping m t), add_mapping-no_names m t) (ground arith)

add_mappings-event_ids :
    (ms : List Text) (t : Targets) → (add_mappings ms t).event_ids ≡ t.event_ids
add_mappings-event_ids [] t = refl
add_mappings-event_ids (m ∷ ms) t = add_mappings-event_ids ms (add_mapping m t) ∙ same
  where
    same : (add_mapping m t).event_ids ≡ t.event_ids
    same = elim (Bool-cases (is_event_type m)) [ inl e ↦ rw e refl | inr e ↦ rw e refl ]

windows_default-no_names :
    (product : Text) (t : Targets)
    → no_names (windows_default product t)
      ≡ (no_names t && not (text_eq (lower product) (codes "windows")))
windows_default-no_names product t = elim (Bool-cases (text_eq (lower product) (codes "windows"))) [
  | inl w ↦ elim (Bool-cases (no_names t)) [
    | inl e ↦ rw (w, e) refl
    | inr e ↦ rw (w, e) (ground (arith, e))
  ]
  | inr w ↦ rw w (ground arith)
]

windows_default-event_ids :
    (product : Text) (t : Targets) → (windows_default product t).event_ids ≡ t.event_ids
windows_default-event_ids product t =
    elim (Bool-cases (text_eq (lower product) (codes "windows") && no_names t)) [
      | inl e ↦ rw e refl
      | inr e ↦ rw e refl
    ]

abbrev names_nothing : Targets → Bool
names_nothing t = is_nil t.event_ids && no_names t

targets-names_nothing :
    (product : Text) (ms : List Text) (ids : List ℕ)
    → names_nothing (
        windows_default product
          (add_mappings ms (record { categories = []; event_types = []; event_ids = ids })))
      ≡ (is_nil ids && (is_nil ms && not (text_eq (lower product) (codes "windows"))))
targets-names_nothing product ms ids =
    let t : Targets =
      add_mappings ms (record { categories = []; event_types = []; event_ids = ids }) in
    let same_ids : (windows_default product t).event_ids ≡ ids =
      windows_default-event_ids product t ∙ add_mappings-event_ids ms _ in
    let no_ids : is_nil (windows_default product t).event_ids ≡ is_nil ids = ap is_nil same_ids in
    let names : no_names t ≡ is_nil ms = add_mappings-no_names ms _ in
    ap (λ b. b && no_names (windows_default product t)) no_ids
    ∙ ap (λ b. is_nil ids && b)
        (windows_default-no_names product t
          ∙ ap (λ b. b && not (text_eq (lower product) (codes "windows"))) names)

apply_logsource-names_nothing :
    (ls : SigmaLogsource)
    → names_nothing (apply_logsource ls) ≡ (
        not (has_key (lower ls.category) logsource_event_id_map)
        && (not (has_key (lower ls.category) logsource_category_map)
            && not (text_eq (lower ls.product) (codes "windows"))))
unfolding apply_logsource
apply_logsource-names_nothing ls =
    targets-names_nothing ls.product (or_nil (lookup (lower ls.category) logsource_category_map))
      (or_nil (lookup (lower ls.category) logsource_event_id_map))
    ∙ (rw
        (
          lookup-is_nil (lower ls.category) logsource_category_map category_map_full,
          lookup-is_nil (lower ls.category) logsource_event_id_map event_id_map_full,
        )
        refl)

with_condition-is_unscoped :
    (raw : SigmaRuleFile) (kws : List Text) (m : SelectorMap) (p : Option Parsed)
    (rule : CompiledSigmaRule)
    → with_condition raw kws m p ≡ some rule
    → is_unscoped rule ≡ names_nothing (apply_logsource raw.logsource)
unfolding is_unscoped
with_condition-is_unscoped raw kws m none rule e = cc
with_condition-is_unscoped raw kws m (some (expr, rest, all)) rule e =
    subst (λ r. is_unscoped r ≡ names_nothing (apply_logsource raw.logsource)) (some_cancel e)
      (ground arith)

-- A loaded rule is for all events exactly when the category of its log source, in lower case, is in
-- neither table and its product is not Windows.
pub parse_sigma_rule-is_unscoped :
    (h : Host) (raw : SigmaRuleFile) (rule : CompiledSigmaRule)
    → parse_sigma_rule h raw ≡ some rule
    → is_unscoped rule ≡ (
        not (has_key (lower raw.logsource.category) logsource_event_id_map)
        && (not (has_key (lower raw.logsource.category) logsource_category_map)
            && not (text_eq (lower raw.logsource.product) (codes "windows"))))
unfolding parse_sigma_rule compile_rule
parse_sigma_rule-is_unscoped h raw rule loaded =
    compile raw.detection loaded ∙ apply_logsource-names_nothing raw.logsource
  where
    compile :
        (d : Option (List (Text × RawBlock)))
        → compile_detection h raw d ≡ some rule
        → is_unscoped rule ≡ names_nothing (apply_logsource raw.logsource)
    compile none e = cc
    compile (some d) e = elim (Bool-cases (is_nil raw.title)) [
      | inl t ↦ cc (rw t at e)
      | inr t ↦ with_condition-is_unscoped raw _ _ _ rule (rw t at e)
    ]
