-- ===== src/Monitor/Correlation/Valid.antt =====
-- The invariant of the correlation engine; what keeps it is in the modules below.
pub mod Chains
pub mod Graph
pub mod Events
use gasha_sandbox.Common.{
  ℕ, ◌≤◌, ◌≡◌, ◌≢◌, refl, subst, Bool, true, false, Option, none, some, List, [], ◌∷◌, ◌++◌, arith,
  length, update, if◌then◌else◌, ◌==◌, ◌||◌, ◌⊎◌, inl, inr, Bool-cases, ◌&&◌, Option-cases, ==_iff,
  ==_refl, some_cancel, update-update_cases, update-cases, ap, sym,
}
use gasha_sandbox.Common.Text.{Text, codes, text_eq}
use gasha_sandbox.Monitor.Events.{
  EventType, process_create, process_exit, file_write, registry_set, network_connect, network_dns,
  api_call, thread_create, image_load, handle_create, handle_duplicate, powershell_exec, amsi_scan,
  wmi_activity, scheduled_task, service_install, Event, Fields, string_at, bool_of, string_of,
}
use gasha_sandbox.Monitor.Correlation.State.{
  ProcessNode, ProcessKey, InjectionState, Engine, new_correlation_engine,
}
use gasha_sandbox.Monitor.Correlation.Nodes.{build_process_node}
use gasha_sandbox.Monitor.Correlation.Injection.{
  track, extract_target_pid, check_process_injection_windowed, is_prep, is_exec, drop_expired,
  with_prep, set_injection, exec_alert,
}
use gasha_sandbox.Monitor.Correlation.Dispatch.{
  add_process, on_process_create, delete_process, forget, on_process_exit, on_file_write,
  on_registry_set, on_network_connect, on_api_call, load_image, on_image_load, on_thread_create,
  on_network_dns, on_handle, on_script, on_wmi, on_scheduled_task, on_service_install, handle,
  process_event, full_key, build_dest_string, or_else,
}
use gasha_sandbox.Monitor.Correlation.Raises.{Raises, exec_alert-Raises}

-- A process id leads to a node of that id in the process graph.
pub record IsLive (processes : ℕ → ℕ → Option ProcessNode) (p : ℕ) (k : ProcessKey) : Type 0 where
  pub keyed : k.pid ≡ p
  pub node : ProcessNode
  pub found : processes k.pid k.spawn_time ≡ some node
  pub named : node.pid ≡ p

-- An injection record names its target, a process other than the source, and has seen a preparation.
pub record IsPrepared (source target : ℕ) (st : InjectionState) : Type 0 where
  pub names_target : st.target_pid ≡ target
  pub prepared : st.has_alloc ≡ true
  pub real : target ≢ 0
  pub foreign : target ≢ source

pub record IsValid (ce : Engine) : Type 0 where
  pub graph : (p : ℕ) (k : ProcessKey) → ce.pid_to_key p ≡ some k → IsLive ce.processes p k
  pub chains :
      (s t : ℕ) (st : InjectionState) → ce.injection_state s t ≡ some st → IsPrepared s t st
  pub fits : length ce.alerts ≤ ce.alerts_cap

pub new_correlation_engine-IsValid :
    (job : Text) (cap : ℕ) → IsValid (new_correlation_engine job cap)
unfolding new_correlation_engine
new_correlation_engine-IsValid job cap = record {
  graph = λ p k e. cc;
  chains = λ s t st e. cc;
  fits = omega arith;
}

-- Alerts leave the invariant alone.
pub Raises-IsValid : {pid t : ℕ} {a b : Engine} → Raises pid t a b → IsValid a → IsValid b
Raises-IsValid r v =
    subst IsValid (sym r.result)
      (record { graph = v.graph; chains = v.chains; fits = r.fits v.fits })
