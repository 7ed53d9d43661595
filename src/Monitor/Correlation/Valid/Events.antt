-- ===== src/Monitor/Correlation/Valid/Events.antt =====
-- Every event keeps the invariant.
use gasha_sandbox.Common.{ℕ, [], ◌==◌, ◌||◌, inl, inr, Bool-cases}
use gasha_sandbox.Common.Text.{text_eq}
use gasha_sandbox.Monitor.Events.{
  EventType, process_create, process_exit, file_write, registry_set, network_connect, network_dns,
  api_call, thread_create, image_load, handle_create, handle_duplicate, powershell_exec, amsi_scan,
  wmi_activity, scheduled_task, service_install, Event, string_of,
}
use gasha_sandbox.Monitor.Correlation.State.{Engine}
use gasha_sandbox.Monitor.Correlation.Nodes.{build_process_node}
use gasha_sandbox.Monitor.Correlation.Injection.{extract_target_pid}
use gasha_sandbox.Monitor.Correlation.Dispatch.{
  on_process_create, on_process_exit, on_api_call, on_thread_create, handle, process_event,
}
use gasha_sandbox.Monitor.Correlation.Raises.{
  check_privilege_escalation-Raises, check_lolbin_rename-Raises,
  check_persistence_tool_spawn-Raises,
}
use gasha_sandbox.Monitor.Correlation.Valid.{IsValid, Raises-IsValid}
use gasha_sandbox.Monitor.Correlation.Notes.{Notes}
use gasha_sandbox.Monitor.Correlation.Notes.Handlers.{
  on_file_write-Notes, on_registry_set-Notes, on_network_connect-Notes, on_image_load-Notes,
  on_network_dns-Notes, on_handle-Notes, on_script-Notes, on_wmi-Notes, on_scheduled_task-Notes,
  on_service_install-Notes,
}
use gasha_sandbox.Monitor.Correlation.Valid.Chains.{check_process_injection_windowed-IsValid}
use gasha_sandbox.Monitor.Correlation.Valid.Graph.{
  add_process-IsValid, delete_process-IsValid, forget-IsValid,
}

Notes-IsValid : {pid t : ℕ} {a b : Engine} → Notes pid t a b → IsValid a → IsValid b
Notes-IsValid n v = Raises-IsValid n.raised (record {
  graph = λ q x e. rw n.processes (v.graph q x (rw n.pid_to_key at e));
  chains = λ s t st e. v.chains s t st (rw n.injection_state at e);
  fits = rw (n.alerts, n.alerts_cap) v.fits;
})

module _ (ev : Event) (ce : Engine) (v : IsValid ce) where
  on_process_create-IsValid : IsValid (on_process_create ev ce)
  unfolding on_process_create build_process_node
  on_process_create-IsValid =
      Raises-IsValid (check_persistence_tool_spawn-Raises _ ev.timestamp _) (
        Raises-IsValid (check_lolbin_rename-Raises _ ev.timestamp _) (
          Raises-IsValid (check_privilege_escalation-Raises _ ev.timestamp _)
            (add_process-IsValid ev ce v)))

  on_process_exit-IsValid : IsValid (on_process_exit ev ce)
  unfolding on_process_exit
  on_process_exit-IsValid = forget-IsValid ev.pid _ (
      delete_process-IsValid (ce.pid_to_key ev.pid) ev.pid ce (λ k e. (v.graph ev.pid k e).keyed) v)

  on_api_call-IsValid : IsValid (on_api_call ev ce)
  unfolding on_api_call
  on_api_call-IsValid = elim (Bool-cases (text_eq (string_of "api_name" ev.fields) [])) [
    | inl e ↦ rw e v
    | inr e ↦ rw e (
        check_process_injection_windowed-IsValid ev.pid _ ev.timestamp _
          (record { graph = v.graph; chains = v.chains; fits = v.fits }) ev.fields)
  ]

  on_thread_create-IsValid : IsValid (on_thread_create ev ce)
  unfolding on_thread_create
  on_thread_create-IsValid =
      elim (Bool-cases
        (extract_target_pid ev.fields == 0 || extract_target_pid ev.fields == ev.pid)) [
          | inl e ↦ rw e v
          | inr e ↦
              rw e (check_process_injection_windowed-IsValid ev.pid _ ev.timestamp ce v ev.fields)
        ]

  handle-IsValid : (kind : EventType) → IsValid (handle kind ev ce)
  unfolding handle
  handle-IsValid process_create = on_process_create-IsValid
  handle-IsValid process_exit = on_process_exit-IsValid
  handle-IsValid file_write = Notes-IsValid (on_file_write-Notes ev ce) v
  handle-IsValid registry_set = Notes-IsValid (on_registry_set-Notes ev ce) v
  handle-IsValid network_connect = Notes-IsValid (on_network_connect-Notes ev ce) v
  handle-IsValid api_call = on_api_call-IsValid
  handle-IsValid image_load = Notes-IsValid (on_image_load-Notes ev ce) v
  handle-IsValid thread_create = on_thread_create-IsValid
  handle-IsValid network_dns = Notes-IsValid (on_network_dns-Notes ev ce) v
  handle-IsValid handle_create = Notes-IsValid (on_handle-Notes ev ce) v
  handle-IsValid handle_duplicate = Notes-IsValid (on_handle-Notes ev ce) v
  handle-IsValid powershell_exec = Notes-IsValid (on_script-Notes ev ce) v
  handle-IsValid amsi_scan = Notes-IsValid (on_script-Notes ev ce) v
  handle-IsValid wmi_activity = Notes-IsValid (on_wmi-Notes ev ce) v
  handle-IsValid scheduled_task = Notes-IsValid (on_scheduled_task-Notes ev ce) v
  handle-IsValid service_install = Notes-IsValid (on_service_install-Notes ev ce) v
  handle-IsValid _ = v

  -- Every event, of any type and with any data, keeps the invariant of the engine: each process id
  -- leads to a node of that id, each injection record names a foreign target and has seen a
  -- preparation call, and the alerts fit their channel.
  pub process_event-IsValid : IsValid (process_event ev ce)
  unfolding process_event
  process_event-IsValid = handle-IsValid ev.event_type
