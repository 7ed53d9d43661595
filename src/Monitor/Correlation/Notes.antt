-- ===== src/Monitor/Correlation/Notes.antt =====
-- What an event writes about its own process, apart from the process graph and injections.
pub mod Handlers
use gasha_sandbox.Common.{
  ℕ, ◌≤◌, ◌≡◌, ◌≢◌, refl, sym, ap, subst, Bool, true, false, Option, none, some, List, [], ◌∷◌,
  ◌++◌, arith, ◌∙◌, length, update, if◌then◌else◌, ◌==◌, ◌||◌, ◌&&◌, not, ◌⊎◌, inl, inr, Bool-cases,
  Option-cases, ==_iff, ==_refl, is_nil, All, append_assoc, append-nil, All-append,
}
use gasha_sandbox.Common.Text.{Text, codes, text_eq}
use gasha_sandbox.Monitor.Events.{
  EventType, process_create, process_exit, file_write, registry_set, network_connect, network_dns,
  api_call, thread_create, image_load, handle_create, handle_duplicate, powershell_exec, amsi_scan,
  wmi_activity, scheduled_task, service_install, Event, Fields, string_at, bool_of, string_of,
}
use gasha_sandbox.Monitor.Correlation.State.{
  ProcessNode, ProcessKey, InjectionState, Engine, Alert, new_correlation_engine, append_at,
}
use gasha_sandbox.Monitor.Correlation.Nodes.{build_process_node}
use gasha_sandbox.Monitor.Correlation.Persistence.{registry, file}
use gasha_sandbox.Monitor.Correlation.Injection.{
  track, extract_target_pid, check_process_injection_windowed, is_prep, is_exec, drop_expired,
  with_prep, set_injection, exec_alert,
}
use gasha_sandbox.Monitor.Correlation.Dispatch.{
  add_process, on_process_create, delete_process, forget, on_process_exit, on_file_write,
  file_written, key_set, on_registry_set, on_network_connect, on_api_call, load_image,
  on_image_load, on_thread_create, on_network_dns, on_handle, on_script, on_wmi, on_scheduled_task,
  on_service_install, handle, process_event, full_key, build_dest_string, or_else,
}
use gasha_sandbox.Monitor.Correlation.Raises.{
  Raises, Raises-refl, Raises-emit, Raises-if, Raises-alert, Raises-trans, exec_alert-Raises,
  IsTagged, check_privilege_escalation-Raises, check_lolbin_rename-Raises,
  check_persistence_tool_spawn-Raises, check_persistence_to_c2-Raises, check_c2_aftermath-Raises,
  check_reflective_injection-Raises, check_lsass_access-Raises,
}

-- The lists that the engine keeps for a process.
pub record SameLists (q : ℕ) (a b : Engine) : Type 0 where
  pub file_writes : b.file_writes q ≡ a.file_writes q
  pub reg_writes : b.reg_writes q ≡ a.reg_writes q
  pub net_conns : b.net_conns q ≡ a.net_conns q
  pub api_calls : b.api_calls q ≡ a.api_calls q
  pub dll_loads : b.dll_loads q ≡ a.dll_loads q
  pub dns_queries : b.dns_queries q ≡ a.dns_queries q
  pub handle_access : b.handle_access q ≡ a.handle_access q
  pub script_blocks : b.script_blocks q ≡ a.script_blocks q
  pub wmi_subscriptions : b.wmi_subscriptions q ≡ a.wmi_subscriptions q
  pub scheduled_tasks : b.scheduled_tasks q ≡ a.scheduled_tasks q
  pub services_installed : b.services_installed q ≡ a.services_installed q

pub SameLists-refl : (q : ℕ) (a : Engine) → SameLists q a a
SameLists-refl q a = ground arith

pub SameLists-trans : (q : ℕ) (a b c : Engine) → SameLists q a b → SameLists q b c → SameLists q a c
SameLists-trans q a b c x y = ground arith

-- `b` has other lists for `pid` at most, and alerts raised since.
pub record Notes (pid t : ℕ) (a b : Engine) : Type 0 where
  pub mid : Engine
  pub job_id : mid.job_id ≡ a.job_id
  pub processes : mid.processes ≡ a.processes
  pub pid_to_key : mid.pid_to_key ≡ a.pid_to_key
  pub injection_state : mid.injection_state ≡ a.injection_state
  pub alerts : mid.alerts ≡ a.alerts
  pub alerts_cap : mid.alerts_cap ≡ a.alerts_cap
  pub elsewhere : (q : ℕ) → q ≢ pid → SameLists q a mid
  pub raised : Raises pid t mid b

pub Notes-Raises : {pid t : ℕ} {a b : Engine} → Raises pid t a b → Notes pid t a b
Notes-Raises {a = a} r = record {
  mid = a;
  job_id = refl;
  processes = refl;
  pid_to_key = refl;
  injection_state = refl;
  alerts = refl;
  alerts_cap = refl;
  elsewhere = λ q h. SameLists-refl q a;
  raised = r;
}

pub Notes-refl : {pid t : ℕ} (a : Engine) → Notes pid t a a
Notes-refl a = Notes-Raises (Raises-refl a)

pub Notes-trans_Raises :
    {pid t : ℕ} {a b c : Engine} → Notes pid t a b → Raises pid t b c → Notes pid t a c
Notes-trans_Raises n r = record {
  mid = n.mid;
  job_id = n.job_id;
  processes = n.processes;
  pid_to_key = n.pid_to_key;
  injection_state = n.injection_state;
  alerts = n.alerts;
  alerts_cap = n.alerts_cap;
  elsewhere = n.elsewhere;
  raised = Raises-trans n.raised r;
}

module _ (ev : Event) (ce : Engine) where
  -- A write to a list of the event's process.
  pub noted :
      (mid : Engine)
      → ((q : ℕ) → q ≢ ev.pid → SameLists q ce mid)
      → mid.job_id ≡ ce.job_id
      → mid.processes ≡ ce.processes
      → mid.pid_to_key ≡ ce.pid_to_key
      → mid.injection_state ≡ ce.injection_state
      → mid.alerts ≡ ce.alerts
      → mid.alerts_cap ≡ ce.alerts_cap
      → Notes ev.pid ev.timestamp ce mid
  noted mid h j p k i l c = record {
    mid = mid;
    job_id = j;
    processes = p;
    pid_to_key = k;
    injection_state = i;
    alerts = l;
    alerts_cap = c;
    elsewhere = h;
    raised = Raises-refl mid;
  }
