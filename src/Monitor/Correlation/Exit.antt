-- ===== src/Monitor/Correlation/Exit.antt =====
-- What is left of a process after its exit.
use gasha_sandbox.Common.{ℕ, ◌≡◌, refl, Option, none, some, [], arith}
use gasha_sandbox.Monitor.Events.{process_exit, Event}
use gasha_sandbox.Monitor.Correlation.State.{ProcessKey, Engine}
use gasha_sandbox.Monitor.Correlation.Dispatch.{
  delete_process, forget, on_process_exit, handle, process_event,
}

-- Nothing is kept for the process id, and the node that it led to is gone.
pub record IsForgotten (pid : ℕ) (before after : Engine) : Type 0 where
  pub pid_to_key : after.pid_to_key pid ≡ none
  pub node :
      (k : ProcessKey) → before.pid_to_key pid ≡ some k → after.processes k.pid k.spawn_time ≡ none
  pub file_writes : after.file_writes pid ≡ []
  pub reg_writes : after.reg_writes pid ≡ []
  pub net_conns : after.net_conns pid ≡ []
  pub api_calls : after.api_calls pid ≡ []
  pub dll_loads : after.dll_loads pid ≡ []
  pub dns_queries : after.dns_queries pid ≡ []
  pub handle_access : after.handle_access pid ≡ []
  pub script_blocks : after.script_blocks pid ≡ []
  pub injection_state : (u : ℕ) → after.injection_state pid u ≡ none
  pub wmi_subscriptions : after.wmi_subscriptions pid ≡ []
  pub scheduled_tasks : after.scheduled_tasks pid ≡ []
  pub services_installed : after.services_installed pid ≡ []
  pub alerts : after.alerts ≡ before.alerts

exit-IsForgotten :
    (pid : ℕ) (o : Option ProcessKey) (ce : Engine)
    → ce.pid_to_key pid ≡ o
    → IsForgotten pid ce (forget pid (delete_process o pid ce))
unfolding forget
exit-IsForgotten pid none ce h = ground arith
exit-IsForgotten pid (some k) ce h = ground arith

-- An exit event leaves nothing behind for its process id: no list, no injection record, no entry
-- and no node of the process graph that the id led to. It raises no alert.
pub process_event-exit :
    (ev : Event) (ce : Engine)
    → ev.event_type ≡ process_exit
    → IsForgotten ev.pid ce (process_event ev ce)
unfolding process_event on_process_exit handle
process_event-exit ev ce h = rw h (exit-IsForgotten ev.pid (ce.pid_to_key ev.pid) ce refl)
