-- ===== src/Monitor/Correlation/Valid/Chains.antt =====
-- The injection records keep the invariant.
use gasha_sandbox.Common.{
  ℕ, ◌≡◌, ◌≢◌, refl, subst, Option, none, some, arith, ◌==◌, ◌||◌, inl, inr, Bool-cases,
  some_cancel, update-update_cases,
}
use gasha_sandbox.Common.Text.{Text}
use gasha_sandbox.Monitor.Events.{Fields}
use gasha_sandbox.Monitor.Correlation.State.{InjectionState, Engine}
use gasha_sandbox.Monitor.Correlation.Injection.{
  track, extract_target_pid, check_process_injection_windowed, is_prep, is_exec, drop_expired,
  with_prep, set_injection,
}
use gasha_sandbox.Monitor.Correlation.Raises.{exec_alert-Raises}
use gasha_sandbox.Monitor.Correlation.Valid.{IsPrepared, IsValid, Raises-IsValid}

drop_expired-IsPrepared :
    (s t now : ℕ) (o : Option InjectionState)
    → ((st : InjectionState) → o ≡ some st → IsPrepared s t st)
    → (st : InjectionState) → drop_expired now o ≡ some st
    → IsPrepared s t st
drop_expired-IsPrepared s t now none h st e = cc
drop_expired-IsPrepared s t now (some x) h st e = h st (ground arith)

with_prep-IsPrepared :
    (s t now : ℕ) (o : Option InjectionState)
    → t ≢ 0
    → t ≢ s
    → ((st : InjectionState) → o ≡ some st → IsPrepared s t st)
    → IsPrepared s t (with_prep t now o)
with_prep-IsPrepared s t now none hz hs h = record {
  names_target = refl;
  prepared = refl;
  real = hz;
  foreign = hs;
}
with_prep-IsPrepared s t now (some st) hz hs h = record {
  names_target = (h st refl).names_target;
  prepared = refl;
  real = hz;
  foreign = hs;
}

set_injection-IsValid :
    (s t : ℕ) (o : Option InjectionState) (ce : Engine)
    → ((st : InjectionState) → o ≡ some st → IsPrepared s t st)
    → IsValid ce
    → IsValid (set_injection s t o ce)
set_injection-IsValid s t o ce h v = record {
  graph = v.graph;
  chains = λ s' t' st e. elim (update-update_cases ce.injection_state s t o s' t' (some st) e) [
    | inl (es, et, eo) ↦
        subst (λ x. IsPrepared x t' st) es (subst (λ x. IsPrepared s x st) et (h st eo))
    | inr e' ↦ v.chains s' t' st e'
  ];
  fits = v.fits;
}

module _ (source : ℕ) (api : Text) (now : ℕ) (ce : Engine) (v : IsValid ce) where
  track-IsValid :
      (target : ℕ) → target ≢ 0 → target ≢ source → IsValid (track source api target now ce)
  unfolding track
  track-IsValid target hz hs = elim (Bool-cases (is_prep api)) [
    | inl p ↦ rw p (
        set_injection-IsValid source target (some (with_prep target now prior)) ce
          (λ st e.
            subst (λ x. IsPrepared source target x) (some_cancel e)
              (with_prep-IsPrepared source target now prior hz hs kept))
          v)
    | inr n ↦ rw n (elim (Bool-cases (is_exec api)) [
      | inl x ↦ rw x (
          set_injection-IsValid source target none _ (λ st e. cc)
            (Raises-IsValid (exec_alert-Raises source api target now prior ce) v))
      | inr m ↦ rw m (set_injection-IsValid source target prior ce kept v)
    ])
  ]
    where
      prior : Option InjectionState
      prior = drop_expired now (ce.injection_state source target)

      kept : (st : InjectionState) → prior ≡ some st → IsPrepared source target st
      kept = drop_expired-IsPrepared source target now _ (v.chains source target)

  pub check_process_injection_windowed-IsValid :
      (args : Fields) → IsValid (check_process_injection_windowed source api args now ce)
  unfolding check_process_injection_windowed
  check_process_injection_windowed-IsValid args =
      elim (Bool-cases (extract_target_pid args == 0 || extract_target_pid args == source)) [
        | inl skip ↦ rw skip v
        | inr go ↦ rw go (track-IsValid (extract_target_pid args) (ground arith) (ground arith))
      ]
