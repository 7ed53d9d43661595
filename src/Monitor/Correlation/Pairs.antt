-- ===== src/Monitor/Correlation/Pairs.antt =====
-- Which events leave the injection record of a pair of processes alone.
use gasha_sandbox.Common.{
  ℕ, ◌≡◌, ◌≢◌, refl, Bool, true, false, [], arith, ◌∙◌, ◌==◌, ◌||◌, ◌&&◌, not, inl, inr, Bool-cases,
}
use gasha_sandbox.Common.Text.{Text, text_eq}
use gasha_sandbox.Monitor.Events.{
  EventType, process_create, process_exit, file_write, registry_set, network_connect, network_dns,
  api_call, thread_create, image_load, handle_create, handle_duplicate, powershell_exec, amsi_scan,
  wmi_activity, scheduled_task, service_install, Event, Fields, string_of,
}
use gasha_sandbox.Monitor.Correlation.State.{Engine}
use gasha_sandbox.Monitor.Correlation.Nodes.{build_process_node}
use gasha_sandbox.Monitor.Correlation.Injection.{
  track, extract_target_pid, check_process_injection_windowed, is_prep, is_exec, drop_expired,
}
use gasha_sandbox.Monitor.Correlation.Dispatch.{
  add_process, on_process_create, on_api_call, on_thread_create, handle, process_event,
}
use gasha_sandbox.Monitor.Correlation.Raises.{
  Raises, exec_alert-Raises, check_privilege_escalation-Raises, check_lolbin_rename-Raises,
  check_persistence_tool_spawn-Raises,
}
use gasha_sandbox.Monitor.Correlation.Valid.{IsValid}
use gasha_sandbox.Monitor.Correlation.Notes.{Notes}
use gasha_sandbox.Monitor.Correlation.Notes.Handlers.{
  on_file_write-Notes, on_registry_set-Notes, on_network_connect-Notes, on_image_load-Notes,
  on_network_dns-Notes, on_handle-Notes, on_script-Notes, on_wmi-Notes, on_scheduled_task-Notes,
  on_service_install-Notes,
}
use gasha_sandbox.Monitor.Correlation.Confined.Events.{process_event-IsConfined}

abbrev is_exit : EventType → Bool
is_exit process_exit = true
is_exit _ = false

abbrev is_injection : EventType → Bool
is_injection api_call = true
is_injection thread_create = true
is_injection _ = false

-- Not by the source, or neither its exit nor an API call or thread creation on the target.
pub leaves_pair : ℕ → ℕ → Event → Bool
leaves_pair source target ev =
    not (ev.pid == source)
    || (not (is_exit ev.event_type)
        && not (is_injection ev.event_type && extract_target_pid ev.fields == target))

Raises-injection_state :
    {pid t : ℕ} {a b : Engine} (s u : ℕ)
    → Raises pid t a b
    → b.injection_state s u ≡ a.injection_state s u
Raises-injection_state s u r = rw r.result

Notes-injection_state :
    {pid t : ℕ} {a b : Engine} (s u : ℕ)
    → Notes pid t a b
    → b.injection_state s u ≡ a.injection_state s u
Notes-injection_state s u n = Raises-injection_state s u n.raised ∙ (rw n.injection_state)

module _ (source : ℕ) (api : Text) (now target : ℕ) (ce : Engine) where
  track-other :
      (u s : ℕ)
      → u ≢ target
      → (track source api u now ce).injection_state s target ≡ ce.injection_state s target
  unfolding track
  track-other u s h = elim (Bool-cases (is_prep api)) [
    | inl p ↦ rw p (ground arith)
    | inr n ↦ rw n (elim (Bool-cases (is_exec api)) [
      | inl x ↦ rw x (
          ground (
            arith,
            Raises-injection_state source target (
                exec_alert-Raises source api u now (drop_expired now (ce.injection_state source u))
                  ce),
            Raises-injection_state s target (
                exec_alert-Raises source api u now (drop_expired now (ce.injection_state source u))
                  ce),
          ))
      | inr m ↦ rw m (ground arith)
    ])
  ]

  windowed-other :
      (args : Fields) (s : ℕ)
      → extract_target_pid args ≢ target
      → (check_process_injection_windowed source api args now ce).injection_state s target
        ≡ ce.injection_state s target
  unfolding check_process_injection_windowed
  windowed-other args s h =
      elim (Bool-cases (extract_target_pid args == 0 || extract_target_pid args == source)) [
        | inl skip ↦ rw skip
        | inr go ↦ rw go (track-other (extract_target_pid args) s h)
      ]

module _ (ev : Event) (ce : Engine) (s u : ℕ) where
  on_process_create-injection_state :
      (on_process_create ev ce).injection_state s u ≡ ce.injection_state s u
  unfolding on_process_create build_process_node add_process
  on_process_create-injection_state =
      Raises-injection_state s u (check_persistence_tool_spawn-Raises _ ev.timestamp _)
      ∙ Raises-injection_state s u (check_lolbin_rename-Raises _ ev.timestamp _)
      ∙ Raises-injection_state s u (check_privilege_escalation-Raises _ ev.timestamp _)

  on_api_call-injection_state :
      extract_target_pid ev.fields ≢ u
      → (on_api_call ev ce).injection_state s u ≡ ce.injection_state s u
  unfolding on_api_call
  on_api_call-injection_state h = elim (Bool-cases (text_eq (string_of "api_name" ev.fields) [])) [
    | inl e ↦ rw e
    | inr e ↦ rw e (windowed-other ev.pid _ ev.timestamp u _ ev.fields s h)
  ]

  on_thread_create-injection_state :
      extract_target_pid ev.fields ≢ u
      → (on_thread_create ev ce).injection_state s u ≡ ce.injection_state s u
  unfolding on_thread_create
  on_thread_create-injection_state h =
      elim (Bool-cases
        (extract_target_pid ev.fields == 0 || extract_target_pid ev.fields == ev.pid)) [
          | inl e ↦ rw e
          | inr e ↦ rw e (windowed-other ev.pid _ ev.timestamp u ce ev.fields s h)
        ]

  handle-injection_state :
      (kind : EventType)
      → is_exit kind ≡ false
      → (is_injection kind && extract_target_pid ev.fields == u) ≡ false
      → (handle kind ev ce).injection_state s u ≡ ce.injection_state s u
  unfolding handle
  handle-injection_state process_create x i = on_process_create-injection_state
  handle-injection_state process_exit x i = cc
  handle-injection_state file_write x i = Notes-injection_state s u (on_file_write-Notes ev ce)
  handle-injection_state registry_set x i = Notes-injection_state s u (on_registry_set-Notes ev ce)
  handle-injection_state network_connect x i =
      Notes-injection_state s u (on_network_connect-Notes ev ce)
  handle-injection_state api_call x i = on_api_call-injection_state (ground arith)
  handle-injection_state image_load x i = Notes-injection_state s u (on_image_load-Notes ev ce)
  handle-injection_state thread_create x i = on_thread_create-injection_state (ground arith)
  handle-injection_state network_dns x i = Notes-injection_state s u (on_network_dns-Notes ev ce)
  handle-injection_state handle_create x i = Notes-injection_state s u (on_handle-Notes ev ce)
  handle-injection_state handle_duplicate x i = Notes-injection_state s u (on_handle-Notes ev ce)
  handle-injection_state powershell_exec x i = Notes-injection_state s u (on_script-Notes ev ce)
  handle-injection_state amsi_scan x i = Notes-injection_state s u (on_script-Notes ev ce)
  handle-injection_state wmi_activity x i = Notes-injection_state s u (on_wmi-Notes ev ce)
  handle-injection_state scheduled_task x i =
      Notes-injection_state s u (on_scheduled_task-Notes ev ce)
  handle-injection_state service_install x i =
      Notes-injection_state s u (on_service_install-Notes ev ce)
  handle-injection_state _ x i = refl

pub process_event-leaves_pair :
    (ev : Event) (ce : Engine) (s u : ℕ)
    → IsValid ce
    → leaves_pair s u ev ≡ true
    → (process_event ev ce).injection_state s u ≡ ce.injection_state s u
unfolding leaves_pair process_event
process_event-leaves_pair ev ce s u v h = elim (Bool-cases (ev.pid == s)) [
  | inl e ↦ handle-injection_state ev ce s u ev.event_type (ground arith) (ground arith)
  | inr e ↦ (process_event-IsConfined ev ce v).injection_state s u (ground arith)
]
