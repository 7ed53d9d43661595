-- ===== src/Rules/Sigma/Scope.antt =====
-- pkg/rules/sigma_loader.go: the index of the loaded rules and the evaluation of an event. The
-- candidates are visited in the order that the host gives, for Go does not fix it.
pub mod Indexed
pub mod Index
pub mod Visit
use gasha_sandbox.Common.{
  ℕ, suc, ◌+◌, Bool, true, false, ◌&&◌, ◌||◌, not, List, [], ◌∷◌, ◌++◌, ltb, ◌==◌, if◌then◌else◌,
  is_nil, any, update, Option, none, some, get_elem?,
}
use gasha_sandbox.Common.Text.{Text, codes, text_eq, decimal}
use gasha_sandbox.Monitor.Events.{Event, event_type_name}
use gasha_sandbox.Rules.Hit.{RuleHit}
use gasha_sandbox.Rules.Sigma.Types.{CompiledSigmaRule, Host}
use gasha_sandbox.Rules.Sigma.Eval.{matches}

-- `index_by_event_type` gives the rules of an event id, `[]` for one that is no key.
pub record ExternalSigmaRules : Type 0 where
  pub rules : List CompiledSigmaRule
  pub index_by_event_type : ℕ → List ℕ
  pub unscoped : List ℕ

unfoldable pub is_unscoped : CompiledSigmaRule → Bool
is_unscoped r =
    is_nil r.target_event_ids && is_nil r.target_categories && is_nil r.target_event_types

-- `indexByEventType[eid] = append(indexByEventType[eid], idx)` for each id
abbrev pub add_ids : ℕ → List ℕ → (ℕ → List ℕ) → ℕ → List ℕ
add_ids idx [] m = m
add_ids idx (eid ∷ eids) m = add_ids idx eids (update m eid (m eid ++ idx ∷ []))

-- One round of the loop of `buildIndex`.
unfoldable pub add_rule : ℕ → CompiledSigmaRule → ExternalSigmaRules → ExternalSigmaRules
unfolding is_unscoped
add_rule idx r es =
    if is_unscoped r
    then record es { unscoped = es.unscoped ++ idx ∷ [] }
    else record es { index_by_event_type = add_ids idx r.target_event_ids es.index_by_event_type }

unfoldable pub index_from : ℕ → List CompiledSigmaRule → ExternalSigmaRules → ExternalSigmaRules
unfolding add_rule
index_from idx [] es = es
index_from idx (r ∷ rs) es = index_from (suc idx) rs (add_rule idx r es)

unfoldable pub build_index : List CompiledSigmaRule → ExternalSigmaRules
unfolding index_from
build_index rs =
    index_from 0 rs (record { rules = rs; index_by_event_type = λ eid. []; unscoped = [] })

unfoldable pub matches_scope : CompiledSigmaRule → Event → Bool
unfolding is_unscoped
matches_scope r ev =
    is_unscoped r
    || (any (λ eid. ev.event_id == eid) r.target_event_ids
        || (any (λ c. text_eq ev.category c || text_eq (event_type_name ev.event_type) c)
              r.target_categories
            || any (λ t. text_eq (event_type_name ev.event_type) t) r.target_event_types))

-- `candidates[idx] = true` for each index of the list
abbrev pub mark : List ℕ → (ℕ → Bool) → ℕ → Bool
mark [] c = c
mark (i ∷ is) c = mark is (update c i true)

-- The loop over all rules, from index `idx`.
unfoldable pub mark_scopes : Event → ℕ → List CompiledSigmaRule → (ℕ → Bool) → ℕ → Bool
unfolding matches_scope
mark_scopes ev idx [] c = c
mark_scopes ev idx (r ∷ rs) c =
    mark_scopes ev (suc idx) rs
      (if c idx then c else if matches_scope r ev then update c idx true else c)

unfoldable pub candidates : ExternalSigmaRules → Event → ℕ → Bool
unfolding mark_scopes
candidates es ev =
    let always = mark es.unscoped (λ i. false) in
    let indexed =
      if ltb 0 ev.event_id then mark (es.index_by_event_type ev.event_id) always else always in
    mark_scopes ev 0 es.rules indexed

unfoldable pub external_hit : CompiledSigmaRule → Event → RuleHit
external_hit r ev = record {
  rule_name = r.name;
  engine = codes "sigma-external";
  description = r.description;
  severity = r.severity;
  mitre_ttp = r.mitre_ttp;
  matched_on =
      codes "PID " ++ decimal ev.pid ++ codes " EventType:" ++ event_type_name ev.event_type;
  evidence = codes "External Sigma rule matched event data";
}

-- The keys of the candidates among the rules, which are numbered from `idx`.
unfoldable pub candidate_keys : (ℕ → Bool) → ℕ → List CompiledSigmaRule → List ℕ
candidate_keys c idx [] = []
candidate_keys c idx (r ∷ rs) =
    let rest = candidate_keys c (suc idx) rs in if c idx then idx ∷ rest else rest

-- The body of the loop over the candidates.
unfoldable pub visit : Host → Event → Option CompiledSigmaRule → List RuleHit
unfolding external_hit matches
visit h ev none = []
visit h ev (some r) = if matches h r ev then external_hit r ev ∷ [] else []

-- The loop over the candidates, in the order of the keys.
unfoldable pub collect_hits : Host → Event → List CompiledSigmaRule → List ℕ → List RuleHit
unfolding visit
collect_hits h ev rs [] = []
collect_hits h ev rs (idx ∷ keys) = visit h ev (get_elem? rs idx) ++ collect_hits h ev rs keys

-- `Evaluate`
unfoldable pub evaluate_external : Host → ExternalSigmaRules → Event → List RuleHit
unfolding collect_hits candidates candidate_keys
evaluate_external h es ev =
    collect_hits h ev es.rules (h.range_order (candidate_keys (candidates es ev) 0 es.rules))

-- As a specification, with no index: every rule in whose scope the event is, and which matches.
unfoldable pub scoped_hits : Host → Event → List CompiledSigmaRule → List RuleHit
unfolding matches_scope external_hit matches
scoped_hits h ev [] = []
scoped_hits h ev (r ∷ rs) =
    let rest = scoped_hits h ev rs in
    if matches_scope r ev && matches h r ev then external_hit r ev ∷ rest else rest
