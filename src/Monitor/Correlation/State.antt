-- ===== src/Monitor/Correlation/State.antt =====
-- The state of `CorrelationEngine`, and `emitAlert`.
-- A Go map from process ids to lists is a function, `[]` for a key that is not there: the engine
-- reads these maps only by index. The mutex makes each `ProcessEvent` one step.
use gasha_sandbox.Common.{
  ℕ, ◌+◌, ◌*◌, Bool, Option, List, [], ◌∷◌, ◌++◌, length, ltb, leb, if◌then◌else◌, none, update,
}
use gasha_sandbox.Common.Text.{Text}

-- `injectionPrimaryWindow` and `injectionMaxWindow`, in nanoseconds.
abbrev pub injection_primary_window : ℕ
injection_primary_window = 10 * 1_000_000_000

abbrev pub injection_max_window : ℕ
injection_max_window = 30 * 1_000_000_000

pub record ProcessKey : Type 0 where
  pub pid : ℕ
  pub spawn_time : ℕ

pub record InjectionState : Type 0 where
  pub target_pid : ℕ
  pub has_alloc : Bool
  pub first_seen : ℕ
  pub last_seen : ℕ

unfoldable pub expired : InjectionState → ℕ → Bool
expired s now = ltb (s.first_seen + injection_max_window) now

unfoldable pub within_primary_window : InjectionState → ℕ → Bool
within_primary_window s now = leb now (s.first_seen + injection_primary_window)

pub record ProcessNode : Type 0 where
  pub pid : ℕ
  pub ppid : ℕ
  pub image_path : Text
  pub command_line : Text
  pub original_name : Text
  pub spawn_time : ℕ
  pub user : Text
  pub integrity : Text
  pub process_guid : Text
  pub logon_id : Text

-- The operands of the `fmt.Sprintf` that writes an alert's `details`, a constructor for each format.
-- Where a format shows the time since the first preparation call, the two times stand here.
pub data Detail : Type 0 where
  confirmed_chain : (source : ℕ) (api : Text) (target first_seen now : ℕ) → Detail
  late_chain : (source : ℕ) (api : Text) (target first_seen now : ℕ) → Detail
  no_prior : (source : ℕ) (api : Text) (target : ℕ) → Detail
  integrity_rise user_rise : (parent child : ProcessNode) → Detail
  renamed : (image_path original_name : Text) → Detail
  tool_spawn : (tool : Text) (pid : ℕ) (command_line : Text) → Detail
  persistence_with_c2 : (pid : ℕ) (path : Text) (conns : List Text) → Detail
  connected_after : (pid : ℕ) (dest item : Text) → Detail
  reflective_load : (pid : ℕ) (image : Text) → Detail
  handle_to : (pid : ℕ) (object_type object_name : Text) → Detail
  wmi_with_c2 : (pid : ℕ) (name : Text) (conns : List Text) → Detail
  wmi_subscription : (pid : ℕ) (consumer query : Text) → Detail
  wmi_method : (pid : ℕ) (method : Text) → Detail
  task : (pid : ℕ) (name : Text) → Detail
  task_with_c2 : (pid : ℕ) (name : Text) (conns : List Text) → Detail
  service : (pid : ℕ) (name image_path : Text) → Detail
  service_with_c2 : (pid : ℕ) (name : Text) (conns : List Text) → Detail

-- The event that `emitAlert` builds; its type and category are always those of an evasion.
pub record Alert : Type 0 where
  pub job_id : Text
  pub timestamp : ℕ
  pub pid : ℕ
  pub severity : ℕ
  pub technique : Text
  pub details : Detail
  pub mitre_ttp : Text

-- `alerts` is the buffered channel: what is in it, oldest first, and its capacity.
pub record Engine : Type 0 where
  pub job_id : Text
  pub processes : ℕ → ℕ → Option ProcessNode
  pub pid_to_key : ℕ → Option ProcessKey
  pub file_writes : ℕ → List Text
  pub reg_writes : ℕ → List Text
  pub net_conns : ℕ → List Text
  pub api_calls : ℕ → List Text
  pub dll_loads : ℕ → List Text
  pub dns_queries : ℕ → List Text
  pub handle_access : ℕ → List Text
  pub script_blocks : ℕ → List Text
  pub injection_state : ℕ → ℕ → Option InjectionState
  pub wmi_subscriptions : ℕ → List Text
  pub scheduled_tasks : ℕ → List Text
  pub services_installed : ℕ → List Text
  pub alerts : List Alert
  pub alerts_cap : ℕ

unfoldable pub new_correlation_engine : Text → ℕ → Engine
new_correlation_engine job_id cap = record {
  job_id = job_id;
  processes = λ _ _. none;
  pid_to_key = λ _. none;
  file_writes = λ _. [];
  reg_writes = λ _. [];
  net_conns = λ _. [];
  api_calls = λ _. [];
  dll_loads = λ _. [];
  dns_queries = λ _. [];
  handle_access = λ _. [];
  script_blocks = λ _. [];
  injection_state = λ _ _. none;
  wmi_subscriptions = λ _. [];
  scheduled_tasks = λ _. [];
  services_installed = λ _. [];
  alerts = [];
  alerts_cap = cap;
}

-- A send that does not block: where the channel is full the alert is dropped.
unfoldable pub send : Alert → Engine → Engine
send a ce =
    if ltb (length ce.alerts) ce.alerts_cap then record ce { alerts = ce.alerts ++ a ∷ [] } else ce

-- `emitAlert`
unfoldable pub emit_alert : ℕ → Text → Text → Detail → ℕ → ℕ → Engine → Engine
unfolding send
emit_alert pid ttp technique details severity t ce =
    send
      (record {
        job_id = ce.job_id;
        timestamp = t;
        pid = pid;
        severity = severity;
        technique = technique;
        details = details;
        mitre_ttp = ttp;
      })
      ce

-- `if test { ce.emitAlert(…) }`
unfoldable pub alert_if : Bool → ℕ → Text → Text → Detail → ℕ → ℕ → Engine → Engine
alert_if test pid ttp technique details severity t ce =
    if test then emit_alert pid ttp technique details severity t ce else ce

-- `m[pid] = append(m[pid], s)`
abbrev pub append_at : (ℕ → List Text) → ℕ → Text → ℕ → List Text
append_at m pid s = update m pid (m pid ++ s ∷ [])
