-- ===== src/Monitor/Correlation/Confined.antt =====
-- What one event may change: the state of its own process, and alerts that carry its tags.
pub mod Events
use gasha_sandbox.Common.{
  ℕ, ◌≤◌, ◌≡◌, ◌≢◌, refl, sym, ap, subst, Bool, true, false, Option, none, some, List, [], ◌∷◌,
  ◌++◌, arith, ◌∙◌, length, update, if◌then◌else◌, ◌==◌, ◌||◌, ◌&&◌, not, ◌⊎◌, inl, inr, Bool-cases,
  Option-cases, ==_iff, ==_refl, is_nil, All, append_assoc, append-nil, All-append,
}
use gasha_sandbox.Common.Text.{Text, codes, text_eq}
use gasha_sandbox.Monitor.Events.{
  EventType, process_create, process_exit, file_write, registry_set, network_connect, network_dns,
  api_call, thread_create, image_load, handle_create, handle_duplicate, powershell_exec, amsi_scan,
  wmi_activity, scheduled_task, service_install, Event, Fields, string_at, bool_of, string_of,
}
use gasha_sandbox.Monitor.Correlation.State.{
  ProcessNode, ProcessKey, InjectionState, Engine, Alert, new_correlation_engine, append_at,
}
use gasha_sandbox.Monitor.Correlation.Nodes.{build_process_node}
use gasha_sandbox.Monitor.Correlation.Persistence.{registry, file}
use gasha_sandbox.Monitor.Correlation.Injection.{
  track, extract_target_pid, check_process_injection_windowed, is_prep, is_exec, drop_expired,
  with_prep, set_injection, exec_alert,
}
use gasha_sandbox.Monitor.Correlation.Dispatch.{
  add_process, on_process_create, delete_process, forget, on_process_exit, on_file_write,
  file_written, key_set, on_registry_set, on_network_connect, on_api_call, load_image,
  on_image_load, on_thread_create, on_network_dns, on_handle, on_script, on_wmi, on_scheduled_task,
  on_service_install, handle, process_event, full_key, build_dest_string, or_else,
}
use gasha_sandbox.Monitor.Correlation.Raises.{
  Raises, Raises-refl, Raises-emit, Raises-if, Raises-alert, Raises-trans, exec_alert-Raises,
  IsTagged, check_privilege_escalation-Raises, check_lolbin_rename-Raises,
  check_persistence_tool_spawn-Raises, check_persistence_to_c2-Raises, check_c2_aftermath-Raises,
  check_reflective_injection-Raises, check_lsass_access-Raises,
}
use gasha_sandbox.Monitor.Correlation.Valid.{IsLive, IsPrepared, IsValid, Raises-IsValid}
use gasha_sandbox.Monitor.Correlation.Notes.{
  SameLists, SameLists-refl, SameLists-trans, Notes, Notes-refl, Notes-Raises, Notes-trans_Raises,
  noted,
}
use gasha_sandbox.Monitor.Correlation.Notes.Handlers.{
  on_file_write-Notes, on_registry_set-Notes, on_network_connect-Notes, on_image_load-Notes,
  on_network_dns-Notes, on_handle-Notes, on_script-Notes, on_wmi-Notes, on_scheduled_task-Notes,
  on_service_install-Notes,
}

pub record IsConfined (pid t : ℕ) (a b : Engine) : Type 0 where
  pub lists : (q : ℕ) → q ≢ pid → SameLists q a b
  pub processes : (q s : ℕ) → q ≢ pid → b.processes q s ≡ a.processes q s
  pub pid_to_key : (q : ℕ) → q ≢ pid → b.pid_to_key q ≡ a.pid_to_key q
  pub injection_state : (q u : ℕ) → q ≢ pid → b.injection_state q u ≡ a.injection_state q u
  pub added : List Alert
  pub appended : b.alerts ≡ a.alerts ++ added
  pub tagged : All (IsTagged pid t a.job_id) added
  pub alerts_cap : b.alerts_cap ≡ a.alerts_cap
  pub job_id : b.job_id ≡ a.job_id

-- A change of the process's own state that raises nothing.
pub quiet :
    (pid t : ℕ) (a b : Engine)
    → ((q : ℕ) → q ≢ pid → SameLists q a b)
    → ((q s : ℕ) → q ≢ pid → b.processes q s ≡ a.processes q s)
    → ((q : ℕ) → q ≢ pid → b.pid_to_key q ≡ a.pid_to_key q)
    → ((q u : ℕ) → q ≢ pid → b.injection_state q u ≡ a.injection_state q u)
    → b.alerts ≡ a.alerts
    → b.alerts_cap ≡ a.alerts_cap
    → b.job_id ≡ a.job_id
    → IsConfined pid t a b
quiet pid t a b l p k i al c j = record {
  lists = l;
  processes = p;
  pid_to_key = k;
  injection_state = i;
  added = [];
  appended = rw (al, append-nil);
  tagged = tt;
  alerts_cap = c;
  job_id = j;
}

module _ {pid t : ℕ} where
  pub IsConfined-refl : (a : Engine) → IsConfined pid t a a
  IsConfined-refl a =
      quiet pid t a a (λ q h. SameLists-refl q a) (λ q s h. refl) (λ q h. refl) (λ q u h. refl) refl
        refl refl

  pub IsConfined-Raises : {a b : Engine} → Raises pid t a b → IsConfined pid t a b
  IsConfined-Raises {a} r = subst (IsConfined pid t a) (sym r.result) (record {
    lists = λ q h. ground arith;
    processes = λ q s h. refl;
    pid_to_key = λ q h. refl;
    injection_state = λ q u h. refl;
    added = r.added;
    appended = refl;
    tagged = r.tagged;
    alerts_cap = refl;
    job_id = refl;
  })

  pub IsConfined-trans :
      {a b c : Engine} → IsConfined pid t a b → IsConfined pid t b c → IsConfined pid t a c
  IsConfined-trans {a} {b} {c} x y = record {
    lists = λ q h. SameLists-trans q a b c (x.lists q h) (y.lists q h);
    processes = λ q s h. y.processes q s h ∙ x.processes q s h;
    pid_to_key = λ q h. y.pid_to_key q h ∙ x.pid_to_key q h;
    injection_state = λ q u h. y.injection_state q u h ∙ x.injection_state q u h;
    added = x.added ++ y.added;
    appended = y.appended ∙ (rw (x.appended, append_assoc) refl);
    tagged =
        All-append (IsTagged pid t a.job_id) x.added y.added x.tagged (rw x.job_id at y.tagged);
    alerts_cap = y.alerts_cap ∙ x.alerts_cap;
    job_id = y.job_id ∙ x.job_id;
  }

  pub IsConfined-Notes : {a b : Engine} → Notes pid t a b → IsConfined pid t a b
  IsConfined-Notes {a} n =
      IsConfined-trans
        (quiet pid t a n.mid n.elsewhere (λ q s h. rw n.processes) (λ q h. rw n.pid_to_key)
          (λ q u h. rw n.injection_state) n.alerts n.alerts_cap n.job_id)
        (IsConfined-Raises n.raised)

module _ (source target now : ℕ) (o : Option InjectionState) (ce : Engine) where
  set_injection-IsConfined : IsConfined source now ce (set_injection source target o ce)
  set_injection-IsConfined =
      quiet source now ce _ (λ q h. ground arith) (λ q s h. refl) (λ q h. refl)
        (λ q u h. ground arith) refl refl refl

module _ (source : ℕ) (api : Text) (now : ℕ) (ce : Engine) where
  track-IsConfined : (target : ℕ) → IsConfined source now ce (track source api target now ce)
  unfolding track
  track-IsConfined target = elim (Bool-cases (is_prep api)) [
    | inl p ↦ rw p (set_injection-IsConfined source target now _ ce)
    | inr n ↦ rw n (elim (Bool-cases (is_exec api)) [
      | inl x ↦ rw x (
          IsConfined-trans (IsConfined-Raises (exec_alert-Raises source api target now _ ce))
            (set_injection-IsConfined source target now none _))
      | inr m ↦ rw m (set_injection-IsConfined source target now _ ce)
    ])
  ]

  pub check_process_injection_windowed-IsConfined :
      (args : Fields)
      → IsConfined source now ce (check_process_injection_windowed source api args now ce)
  unfolding check_process_injection_windowed
  check_process_injection_windowed-IsConfined args =
      elim (Bool-cases (extract_target_pid args == 0 || extract_target_pid args == source)) [
        | inl skip ↦ rw skip (IsConfined-refl ce)
        | inr go ↦ rw go (track-IsConfined (extract_target_pid args))
      ]
