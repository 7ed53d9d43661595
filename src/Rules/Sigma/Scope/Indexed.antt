-- ===== src/Rules/Sigma/Scope/Indexed.antt =====
-- What the index of the rules holds: for an event, marks of rules in whose scope it is.
use gasha_sandbox.Common.{
  ℕ, suc, ◌+◌, ◌≡◌, ◌⊎◌, inl, inr, refl, subst, ◌∙◌, Bool, true, false, ◌||◌, some, List, [], ◌∷◌,
  ◌++◌, arith, ltb, ◌==◌, ==_iff, if◌then◌else◌, any, update, get_elem?, Bool-cases,
}
use gasha_sandbox.Monitor.Events.{Event}
use gasha_sandbox.Rules.Sigma.Types.{CompiledSigmaRule}
use gasha_sandbox.Rules.Sigma.Scope.{
  ExternalSigmaRules, is_unscoped, add_ids, add_rule, index_from, build_index, matches_scope, mark,
}

abbrev pub has_index : ℕ → List ℕ → Bool
has_index i is = any (λ j. j == i) is

any-append_one : (i j : ℕ) (is : List ℕ) → has_index i (is ++ j ∷ []) ≡ (has_index i is || j == i)
any-append_one i j [] = ground arith
any-append_one i j (k ∷ is) = ground (arith, any-append_one i j is)

mark_lem : (is : List ℕ) (c : ℕ → Bool) (i : ℕ) → mark is c i ≡ (has_index i is || c i)
mark_lem [] c i = refl
mark_lem (j ∷ is) c i = ground (arith, mark_lem is (update c j true) i)

-- A rule of the list at the index, with a property.
abbrev pub At : (CompiledSigmaRule → Bool) → List CompiledSigmaRule → ℕ → Type 0
At p rs i = (r : CompiledSigmaRule) × (get_elem? rs i ≡ some r) × (p r ≡ true)

-- What the index holds: unscoped rules, and for an event id the rules that name it.
pub record IsIndexed (rs : List CompiledSigmaRule) (es : ExternalSigmaRules) : Type 0 where
  pub unscoped : (i : ℕ) → has_index i es.unscoped ≡ true → At is_unscoped rs i
  pub by_id :
      (e i : ℕ)
      → has_index i (es.index_by_event_type e) ≡ true
      → At (λ r. any (λ k. e == k) r.target_event_ids) rs i

-- After the ids of a rule, an index comes from the map before or is the rule's.
add_ids-cases :
    (idx : ℕ) (ids : List ℕ) (m : ℕ → List ℕ) (e i : ℕ)
    → has_index i (add_ids idx ids m e) ≡ true
    → (has_index i (m e) ≡ true) ⊎ ((idx ≡ i) × (any (λ k. e == k) ids ≡ true))
add_ids-cases idx [] m e i h = inl h
add_ids-cases idx (k ∷ ids) m e i h = elim (add_ids-cases idx ids _ e i h) [
  | inl old ↦ ground (arith, any-append_one i idx (m k), old)
  | inr (same, found) ↦ inr (same, ground arith)
]

add_rule-IsIndexed :
    (rs : List CompiledSigmaRule) (idx : ℕ) (r : CompiledSigmaRule) (es : ExternalSigmaRules)
    → get_elem? rs idx ≡ some r
    → IsIndexed rs es
    → IsIndexed rs (add_rule idx r es)
unfolding add_rule
add_rule-IsIndexed rs idx r es at v = elim (Bool-cases (is_unscoped r)) [
  | inl e ↦ rw e (record {
    unscoped = λ i h. elim (Bool-cases (idx == i)) [
      | inl s ↦ subst (At is_unscoped rs) ((==_iff idx i).0 s) (r, at, e)
      | inr s ↦ v.unscoped i (ground (arith, any-append_one i idx es.unscoped))
    ];
    by_id = v.by_id;
  })
  | inr e ↦ rw e (record {
    unscoped = v.unscoped;
    by_id = λ k i h. elim (add_ids-cases idx r.target_event_ids es.index_by_event_type k i h) [
      | inl old ↦ v.by_id k i old
      | inr (same, found) ↦
          subst (At (λ q. any (λ j. k == j) q.target_event_ids) rs) same (r, at, found)
    ];
  })
]

index_from-IsIndexed :
    (rs : List CompiledSigmaRule) (idx : ℕ) (rest : List CompiledSigmaRule)
    (es : ExternalSigmaRules)
    → ((j : ℕ) (r : CompiledSigmaRule)
        → get_elem? rest j ≡ some r
        → get_elem? rs (idx + j) ≡ some r)
    → IsIndexed rs es
    → IsIndexed rs (index_from idx rest es)
unfolding index_from
index_from-IsIndexed rs idx [] es at v = v
index_from-IsIndexed rs idx (r ∷ rest) es at v =
    index_from-IsIndexed rs (suc idx) rest (add_rule idx r es)
      (λ j q e. subst (λ n. get_elem? rs n ≡ some q) (omega arith) (at (suc j) q e))
      (add_rule-IsIndexed rs idx r es
        (subst (λ n. get_elem? rs n ≡ some r) (omega arith) (at 0 r refl)) v)

pub build_index-IsIndexed : (rs : List CompiledSigmaRule) → IsIndexed rs (build_index rs)
unfolding build_index
build_index-IsIndexed rs =
    index_from-IsIndexed rs 0 rs _ (λ j r e. subst (λ n. get_elem? rs n ≡ some r) (omega arith) e)
      (record { unscoped = λ i h. cc; by_id = λ e i h. cc })

add_rule-rules :
    (idx : ℕ) (r : CompiledSigmaRule) (es : ExternalSigmaRules)
    → (add_rule idx r es).rules ≡ es.rules
unfolding add_rule
add_rule-rules idx r es = elim (Bool-cases (is_unscoped r)) [
  | inl e ↦ rw e refl
  | inr e ↦ rw e refl
]

index_from-rules :
    (idx : ℕ) (rest : List CompiledSigmaRule) (es : ExternalSigmaRules)
    → (index_from idx rest es).rules ≡ es.rules
unfolding index_from
index_from-rules idx [] es = refl
index_from-rules idx (r ∷ rest) es =
    index_from-rules (suc idx) rest (add_rule idx r es) ∙ add_rule-rules idx r es

pub build_index-rules : (rs : List CompiledSigmaRule) → (build_index rs).rules ≡ rs
unfolding build_index
build_index-rules rs = index_from-rules 0 rs _

-- A set of candidates that holds only rules in whose scope the event is.
abbrev pub AllInScope : Event → List CompiledSigmaRule → (ℕ → Bool) → Type 0
AllInScope ev rs c = (i : ℕ) → c i ≡ true → At (λ r. matches_scope r ev) rs i

mark-AllInScope :
    (ev : Event) (rs : List CompiledSigmaRule) (is : List ℕ) (c : ℕ → Bool)
    → ((i : ℕ) → has_index i is ≡ true → At (λ r. matches_scope r ev) rs i)
    → AllInScope ev rs c
    → AllInScope ev rs (mark is c)
mark-AllInScope ev rs is c new old i h = elim (Bool-cases (has_index i is)) [
  | inl e ↦ new i e
  | inr e ↦ old i (ground (arith, mark_lem is c i))
]

abbrev pub indexed_marks : ExternalSigmaRules → Event → ℕ → Bool
indexed_marks es ev =
    if ltb 0 ev.event_id
    then mark (es.index_by_event_type ev.event_id) (mark es.unscoped (λ i. false))
    else mark es.unscoped (λ i. false)

-- The marks that the index gives are in scope.
pub indexed-AllInScope :
    (ev : Event) (rs : List CompiledSigmaRule) (es : ExternalSigmaRules)
    → IsIndexed rs es
    → AllInScope ev rs (indexed_marks es ev)
unfolding matches_scope
indexed-AllInScope ev rs es v = elim (Bool-cases (ltb 0 ev.event_id)) [
  | inl e ↦ rw e (mark-AllInScope ev rs (es.index_by_event_type ev.event_id) _ by_id always)
  | inr e ↦ rw e always
]
  where
    by_id :
        (i : ℕ)
        → has_index i (es.index_by_event_type ev.event_id) ≡ true
        → At (λ r. matches_scope r ev) rs i
    by_id i h = let found = v.by_id ev.event_id i h in (found.0, found.1, ground (arith, found.2))

    always : AllInScope ev rs (mark es.unscoped (λ i. false))
    always =
        mark-AllInScope ev rs es.unscoped (λ i. false)
          (λ i h. let found = v.unscoped i h in (found.0, found.1, ground (arith, found.2)))
          (λ i h. cc)
