-- ===== src/Monitor/Correlation/Confined/Events.antt =====
-- Every event is confined to its own process.
use gasha_sandbox.Common.{
  ◌≡◌, refl, Option, none, some, [], arith, ◌==◌, ◌||◌, inl, inr, Bool-cases,
}
use gasha_sandbox.Common.Text.{text_eq}
use gasha_sandbox.Monitor.Events.{
  EventType, process_create, process_exit, file_write, registry_set, network_connect, network_dns,
  api_call, thread_create, image_load, handle_create, handle_duplicate, powershell_exec, amsi_scan,
  wmi_activity, scheduled_task, service_install, Event, string_of,
}
use gasha_sandbox.Monitor.Correlation.State.{ProcessKey, Engine}
use gasha_sandbox.Monitor.Correlation.Nodes.{build_process_node}
use gasha_sandbox.Monitor.Correlation.Injection.{extract_target_pid}
use gasha_sandbox.Monitor.Correlation.Dispatch.{
  add_process, on_process_create, delete_process, forget, on_process_exit, on_api_call,
  on_thread_create, handle, process_event,
}
use gasha_sandbox.Monitor.Correlation.Raises.{
  Raises-trans, check_privilege_escalation-Raises, check_lolbin_rename-Raises,
  check_persistence_tool_spawn-Raises,
}
use gasha_sandbox.Monitor.Correlation.Valid.{IsValid}
use gasha_sandbox.Monitor.Correlation.Notes.Handlers.{
  on_file_write-Notes, on_registry_set-Notes, on_network_connect-Notes, on_image_load-Notes,
  on_network_dns-Notes, on_handle-Notes, on_script-Notes, on_wmi-Notes, on_scheduled_task-Notes,
  on_service_install-Notes,
}
use gasha_sandbox.Monitor.Correlation.Confined.{
  IsConfined, quiet, IsConfined-refl, IsConfined-Raises, IsConfined-trans, IsConfined-Notes,
  check_process_injection_windowed-IsConfined,
}

module _ (ev : Event) (ce : Engine) where
  add_process-IsConfined : IsConfined ev.pid ev.timestamp ce (add_process ev ce)
  unfolding add_process
  add_process-IsConfined =
      quiet ev.pid ev.timestamp ce _ (λ q h. ground arith) (λ q s h. ground arith)
        (λ q h. ground arith) (λ q u h. refl) refl refl refl

  on_process_create-IsConfined : IsConfined ev.pid ev.timestamp ce (on_process_create ev ce)
  unfolding on_process_create build_process_node
  on_process_create-IsConfined = IsConfined-trans add_process-IsConfined (
      IsConfined-Raises (
        Raises-trans (check_privilege_escalation-Raises _ ev.timestamp _) (
          Raises-trans (check_lolbin_rename-Raises _ ev.timestamp _)
            (check_persistence_tool_spawn-Raises _ ev.timestamp _))))

  delete_process-IsConfined :
      (o : Option ProcessKey)
      → ((k : ProcessKey) → o ≡ some k → k.pid ≡ ev.pid)
      → IsConfined ev.pid ev.timestamp ce (delete_process o ev.pid ce)
  delete_process-IsConfined none h = IsConfined-refl ce
  delete_process-IsConfined (some k) h =
      quiet ev.pid ev.timestamp ce _ (λ q n. ground arith) (λ q s n. ground (arith, h k refl))
        (λ q n. ground arith) (λ q u n. refl) refl refl refl

  forget-IsConfined : IsConfined ev.pid ev.timestamp ce (forget ev.pid ce)
  unfolding forget
  forget-IsConfined =
      quiet ev.pid ev.timestamp ce _ (λ q n. ground arith) (λ q s n. refl) (λ q n. refl)
        (λ q u n. ground arith) refl refl refl

module _ (ev : Event) (ce : Engine) (v : IsValid ce) where
  on_process_exit-IsConfined : IsConfined ev.pid ev.timestamp ce (on_process_exit ev ce)
  unfolding on_process_exit
  on_process_exit-IsConfined =
      IsConfined-trans
        (delete_process-IsConfined ev ce (ce.pid_to_key ev.pid) (λ k e. (v.graph ev.pid k e).keyed))
        (forget-IsConfined ev _)

  on_api_call-IsConfined : IsConfined ev.pid ev.timestamp ce (on_api_call ev ce)
  unfolding on_api_call
  on_api_call-IsConfined = elim (Bool-cases (text_eq (string_of "api_name" ev.fields) [])) [
    | inl e ↦ rw e (IsConfined-refl ce)
    | inr e ↦ rw e (
        IsConfined-trans
          (quiet ev.pid ev.timestamp ce _ (λ q n. ground arith) (λ q s n. refl) (λ q n. refl)
            (λ q u n. refl) refl refl refl)
          (check_process_injection_windowed-IsConfined ev.pid _ ev.timestamp _ ev.fields))
  ]

  on_thread_create-IsConfined : IsConfined ev.pid ev.timestamp ce (on_thread_create ev ce)
  unfolding on_thread_create
  on_thread_create-IsConfined =
      elim (Bool-cases
        (extract_target_pid ev.fields == 0 || extract_target_pid ev.fields == ev.pid)) [
          | inl e ↦ rw e (IsConfined-refl ce)
          | inr e ↦
              rw e (check_process_injection_windowed-IsConfined ev.pid _ ev.timestamp ce ev.fields)
        ]

  handle-IsConfined : (kind : EventType) → IsConfined ev.pid ev.timestamp ce (handle kind ev ce)
  unfolding handle
  handle-IsConfined process_create = on_process_create-IsConfined ev ce
  handle-IsConfined process_exit = on_process_exit-IsConfined
  handle-IsConfined file_write = IsConfined-Notes (on_file_write-Notes ev ce)
  handle-IsConfined registry_set = IsConfined-Notes (on_registry_set-Notes ev ce)
  handle-IsConfined network_connect = IsConfined-Notes (on_network_connect-Notes ev ce)
  handle-IsConfined api_call = on_api_call-IsConfined
  handle-IsConfined image_load = IsConfined-Notes (on_image_load-Notes ev ce)
  handle-IsConfined thread_create = on_thread_create-IsConfined
  handle-IsConfined network_dns = IsConfined-Notes (on_network_dns-Notes ev ce)
  handle-IsConfined handle_create = IsConfined-Notes (on_handle-Notes ev ce)
  handle-IsConfined handle_duplicate = IsConfined-Notes (on_handle-Notes ev ce)
  handle-IsConfined powershell_exec = IsConfined-Notes (on_script-Notes ev ce)
  handle-IsConfined amsi_scan = IsConfined-Notes (on_script-Notes ev ce)
  handle-IsConfined wmi_activity = IsConfined-Notes (on_wmi-Notes ev ce)
  handle-IsConfined scheduled_task = IsConfined-Notes (on_scheduled_task-Notes ev ce)
  handle-IsConfined service_install = IsConfined-Notes (on_service_install-Notes ev ce)
  handle-IsConfined _ = IsConfined-refl ce

  -- In an engine that satisfies its invariant, an event changes no list, no graph entry and no
  -- injection record of another process, only appends to the alerts, and each alert that it adds
  -- carries the event's process id and time and the engine's job.
  pub process_event-IsConfined : IsConfined ev.pid ev.timestamp ce (process_event ev ce)
  unfolding process_event
  process_event-IsConfined = handle-IsConfined ev.event_type
