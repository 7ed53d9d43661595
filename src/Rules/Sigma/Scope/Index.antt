-- ===== src/Rules/Sigma/Scope/Index.antt =====
-- The index of the rules leads to no rule out of scope, so it changes no result.
use gasha_sandbox.Common.{
  ℕ, zero, suc, ◌+◌, ◌<◌, ◌≡◌, inl, inr, refl, sym, ap, subst, ◌∙◌, Bool, true, false, ◌||◌, some,
  List, [], ◌∷◌, ◌++◌, arith, ◌==◌, ==_refl, if◌then◌else◌, update, get_elem?, Bool-cases,
  some_cancel,
}
use gasha_sandbox.Monitor.Events.{Event}
use gasha_sandbox.Rules.Sigma.Types.{CompiledSigmaRule, Host}
use gasha_sandbox.Rules.Sigma.Scope.{
  build_index, matches_scope, mark_scopes, candidates, candidate_keys, visit, collect_hits,
  external_hit, evaluate_external, scoped_hits,
}
use gasha_sandbox.Rules.Sigma.Scope.Visit.{collect_hits_perm}
use gasha_sandbox.Rules.Sigma.Eval.{matches}
use gasha_sandbox.Rules.Hit.{RuleHit}
use mathlib.Core.List.{Permᴰ}
use gasha_sandbox.Rules.Sigma.Scope.Indexed.{
  At, AllInScope, indexed_marks, indexed-AllInScope, build_index-IsIndexed, build_index-rules,
}

plus_zero : (i : ℕ) → i + 0 ≡ i
plus_zero i = omega arith

zero_plus : (i : ℕ) → 0 + i ≡ i
zero_plus i = omega arith

plus_suc : (i k : ℕ) → i + suc k ≡ suc i + k
plus_suc i k = omega arith

-- One round of the loop over the rules.
abbrev set_if : (ℕ → Bool) → ℕ → Bool → ℕ → Bool
set_if c i m = if c i then c else if m then update c i true else c

set_if_here : (c : ℕ → Bool) (i : ℕ) (m : Bool) → set_if c i m i ≡ (c i || m)
set_if_here c i m = elim (Bool-cases (c i)) [
  | inl e ↦ rw (e, e) refl
  | inr e ↦ elim (Bool-cases m) [ inl t ↦ rw (e, t, ==_refl i) refl | inr t ↦ rw (e, t, e) refl ]
]

set_if_other : (c : ℕ → Bool) (i j : ℕ) (m : Bool) → ((i == j) ≡ false) → set_if c i m j ≡ c j
set_if_other c i j m d = elim (Bool-cases (c i)) [
  | inl e ↦ rw e refl
  | inr e ↦ elim (Bool-cases m) [ inl t ↦ rw (e, t, d) refl | inr t ↦ rw (e, t) refl ]
]

-- The loop leaves what lies before its first index.
mark_scopes_before :
    (ev : Event) (k : ℕ) (rs : List CompiledSigmaRule) (c : ℕ → Bool) (i : ℕ)
    → i < k
    → mark_scopes ev k rs c i ≡ c i
unfolding mark_scopes
mark_scopes_before ev k [] c i b = refl
mark_scopes_before ev k (r ∷ rs) c i b =
    mark_scopes_before ev (suc k) rs (set_if c k (matches_scope r ev)) i (omega arith)
    ∙ set_if_other c k i (matches_scope r ev) (ground arith)

-- The loop over the rules sets a mark exactly where the event is in scope.
mark_scopes_lem :
    (ev : Event) (i : ℕ) (rs : List CompiledSigmaRule) (c : ℕ → Bool)
    → ((j : ℕ) → c (i + j) ≡ true → At (λ r. matches_scope r ev) rs j)
    → (j : ℕ) (r : CompiledSigmaRule) → get_elem? rs j ≡ some r
    → mark_scopes ev i rs c (i + j) ≡ matches_scope r ev
unfolding mark_scopes
mark_scopes_lem ev i [] c sound j r at = cc
mark_scopes_lem ev i (q ∷ rs) c sound zero r at =
    rw
      (
        (plus_zero i),
        mark_scopes_before ev (suc i) rs (set_if c i (matches_scope q ev)) i (omega arith),
        set_if_here c i (matches_scope q ev),
        some_cancel at,
      )
      (elim (Bool-cases (c i)) [
        | inl e ↦
            let found = sound 0 (ap c (plus_zero i) ∙ e) in
            rw e (sym (ap (λ x. matches_scope x ev) (some_cancel (sym at ∙ found.1)) ∙ found.2))
        | inr e ↦ rw e refl
      ])
mark_scopes_lem ev i (q ∷ rs) c sound (suc j) r at =
    ap (mark_scopes ev (suc i) rs (set_if c i (matches_scope q ev))) (plus_suc i j)
    ∙ mark_scopes_lem ev (suc i) rs (set_if c i (matches_scope q ev))
        (λ k e. sound (suc k) (
          ap c (plus_suc i k)
          ∙ (sym (set_if_other c i (suc i + k) (matches_scope q ev) (ground arith)) ∙ e)))
        j r at

hit_if-append :
    (h : Host) (ev : Event) (r : CompiledSigmaRule) (hs : List RuleHit)
    → visit h ev (some r) ++ hs ≡ (if matches h r ev then external_hit r ev ∷ hs else hs)
unfolding visit
hit_if-append h ev r hs = elim (Bool-cases (matches h r ev)) [
  | inl e ↦ rw e refl
  | inr e ↦ rw e refl
]

-- In the order of the rules, the candidates give the hits of the specification.
collect_hits-scoped_hits :
    (h : Host) (ev : Event) (all : List CompiledSigmaRule) (c : ℕ → Bool) (i : ℕ)
    (rs : List CompiledSigmaRule)
    → ((j : ℕ) (r : CompiledSigmaRule) → get_elem? rs j ≡ some r → get_elem? all (i + j) ≡ some r)
    → ((j : ℕ) (r : CompiledSigmaRule) → get_elem? rs j ≡ some r → c (i + j) ≡ matches_scope r ev)
    → collect_hits h ev all (candidate_keys c i rs) ≡ scoped_hits h ev rs
unfolding collect_hits candidate_keys scoped_hits
collect_hits-scoped_hits h ev all c i [] place marks = refl
collect_hits-scoped_hits h ev all c i (r ∷ rs) place marks =
    let here : c i ≡ matches_scope r ev = sym (ap c (plus_zero i)) ∙ marks 0 r refl in
    let at : get_elem? all i ≡ some r = sym (ap (get_elem? all) (plus_zero i)) ∙ place 0 r refl in
    let rest : collect_hits h ev all (candidate_keys c (suc i) rs) ≡ scoped_hits h ev rs =
      collect_hits-scoped_hits h ev all c (suc i) rs
        (λ j q e. ap (get_elem? all) (sym (plus_suc i j)) ∙ place (suc j) q e)
        (λ j q e. ap c (sym (plus_suc i j)) ∙ marks (suc j) q e) in
    rw here (elim (Bool-cases (matches_scope r ev)) [
      | inl e ↦ rw (e, at, rest) (hit_if-append h ev r (scoped_hits h ev rs))
      | inr e ↦ rw (e, rest) refl
    ])

-- Where a map's keys are visited once each, in any order, an event is matched, with the index of the
-- rules, by exactly the rules in whose scope it is and whose condition holds of it: the hits are
-- those of these rules, each once, in some order.
pub evaluate_external-scoped_hits :
    (h : Host) (rs : List CompiledSigmaRule) (ev : Event)
    → ((keys : List ℕ) → Permᴰ (h.range_order keys) keys)
    → Permᴰ (evaluate_external h (build_index rs) ev) (scoped_hits h ev rs)
unfolding evaluate_external candidates
evaluate_external-scoped_hits h rs ev order = rw (build_index-rules rs) (
    subst (λ hits. Permᴰ (collect_hits h ev rs (h.range_order (candidate_keys marked 0 rs))) hits)
      (collect_hits-scoped_hits h ev rs marked 0 rs (λ j r e. ap (get_elem? rs) (zero_plus j) ∙ e)
        marks)
      (collect_hits_perm h ev rs (order (candidate_keys marked 0 rs))))
  where
    sound : AllInScope ev rs (indexed_marks (build_index rs) ev)
    sound = indexed-AllInScope ev rs (build_index rs) (build_index-IsIndexed rs)

    marked : ℕ → Bool
    marked = mark_scopes ev 0 rs (indexed_marks (build_index rs) ev)

    marks :
        (j : ℕ) (r : CompiledSigmaRule)
        → get_elem? rs j ≡ some r
        → marked (0 + j) ≡ matches_scope r ev
    marks =
        mark_scopes_lem ev 0 rs _
          (λ j e. sound j (ap (indexed_marks (build_index rs) ev) (omega arith) ∙ e))
