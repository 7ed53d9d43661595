-- ===== src/Monitor/Correlation/Injection.antt =====
-- `extractTargetPID` and `checkProcessInjectionWindowed`: the injection chain of each pair of a
-- source and a target process.
use gasha_sandbox.Common.{
  ℕ, Bool, true, ◌&&◌, ◌||◌, Option, none, some, update, ◌==◌, if◌then◌else◌,
}
use gasha_sandbox.Common.Text.{Text, codes, utf8, lower, contains, lookup}
use gasha_sandbox.Monitor.Events.{Value, Fields, int, float, sev_high, sev_critical}
use gasha_sandbox.Monitor.Correlation.State.{
  InjectionState, Engine, expired, within_primary_window, emit_alert, confirmed_chain, late_chain,
  no_prior,
}

abbrev target_value : Option Value → ℕ
target_value (some (int n)) = n
target_value (some (float n)) = n
target_value _ = 0

unfoldable pub extract_target_pid : Fields → ℕ
extract_target_pid args = target_value (lookup (codes "target_pid") args)

unfoldable pub is_prep : Text → Bool
is_prep api =
    let name = lower api in
    contains name (codes "writeprocessmemory")
    || contains name (codes "virtualallocex")
    || contains name (codes "ptrace_poketext")

unfoldable pub is_exec : Text → Bool
is_exec api =
    let name = lower api in
    contains name (codes "createremotethread")
    || contains name (codes "ntcreatethread")
    || contains name (codes "ptrace_attach")
    || contains name (codes "ptrace_seize")

-- `ce.injectionState[source][target] = st`; `none` deletes.
abbrev pub set_injection : ℕ → ℕ → Option InjectionState → Engine → Engine
set_injection source target st ce = record ce {
  injection_state = update ce.injection_state source (update (ce.injection_state source) target st);
}

abbrev pub drop_expired : ℕ → Option InjectionState → Option InjectionState
drop_expired now none = none
drop_expired now (some st) = if expired st now then none else some st

abbrev pub with_prep : ℕ → ℕ → Option InjectionState → InjectionState
with_prep target now (some st) = record st { has_alloc = true; last_seen = now }
with_prep target now none = record {
  target_pid = target;
  has_alloc = true;
  first_seen = now;
  last_seen = now;
}

-- The three alerts of the `isExec` branch.
unfoldable pub exec_alert : ℕ → Text → ℕ → ℕ → Option InjectionState → Engine → Engine
exec_alert source api target now none ce =
    emit_alert source (codes "T1055") (codes "Remote Thread Without Prior Allocation")
      (no_prior source api target) sev_high now ce
exec_alert source api target now (some st) ce =
    if st.has_alloc && within_primary_window st now
    then emit_alert source (codes "T1055.001") (utf8 (codes "Process Injection — Confirmed Chain"))
        (confirmed_chain source api target st.first_seen now) sev_critical now ce
    else if st.has_alloc
    then emit_alert source (codes "T1055") (codes "Suspicious Cross-Process API (late)")
        (late_chain source api target st.first_seen now) sev_high now ce
    else emit_alert source (codes "T1055") (codes "Remote Thread Without Prior Allocation")
        (no_prior source api target) sev_high now ce

-- What the handler does for a pair that it tracks.
unfoldable pub track : ℕ → Text → ℕ → ℕ → Engine → Engine
track source api target now ce =
    let prior = drop_expired now (ce.injection_state source target) in
    if is_prep api
    then set_injection source target (some (with_prep target now prior)) ce
    else if is_exec api
    then set_injection source target none (exec_alert source api target now prior ce)
    else set_injection source target prior ce

unfoldable pub check_process_injection_windowed : ℕ → Text → Fields → ℕ → Engine → Engine
check_process_injection_windowed source api args now ce =
    let target = extract_target_pid args in
    if target == 0 || target == source then ce else track source api target now ce
