-- ===== src/Monitor/Events.antt =====
-- pkg/monitor/events.go: the normalised telemetry event.
-- A time is a count of nanoseconds; process ids are not negative.
use gasha_sandbox.Common.{ℕ, Bool, false, Option, none, some, List}
use gasha_sandbox.Common.Text.{String, Text, codes, lookup}

-- The `Event…` constants; `other` is any other text.
pub data EventType : Type 0 where
  process_create process_exit file_write file_delete : EventType
  registry_set registry_delete network_connect network_dns : EventType
  api_call evasion_attempt thread_create image_load : EventType
  handle_create handle_duplicate powershell_exec amsi_scan : EventType
  wmi_activity scheduled_task service_install process_access : EventType
  other : Text → EventType

-- The `Sev…` constants.
abbrev pub sev_info : ℕ
sev_info = 0

abbrev pub sev_low : ℕ
sev_low = 1

abbrev pub sev_medium : ℕ
sev_medium = 2

abbrev pub sev_high : ℕ
sev_high = 3

abbrev pub sev_critical : ℕ
sev_critical = 4

-- A value of `map[string]interface{}`. Of a `float64` the code takes only `int(v)`, which is what
-- `float` holds.
pub data Value : Type 0 where
  str : Text → Value
  int : ℕ → Value
  float : ℕ → Value
  boolean : Bool → Value
  opaque_value : Value

abbrev pub Fields : Type 0
Fields = List (Text × Value)

pub record Event : Type 0 where
  pub job_id : Text
  pub timestamp : ℕ
  pub event_type : EventType
  pub event_id : ℕ
  pub pid : ℕ
  pub tid : ℕ
  pub category : Text
  pub fields : Fields
  pub severity : ℕ

abbrev as_string : Option Value → Option Text
as_string (some (str s)) = some s
as_string _ = none

abbrev or_empty : Option Text → Text
or_empty (some s) = s
or_empty none = codes ""

abbrev as_true : Option Value → Bool
as_true (some (boolean b)) = b
as_true _ = false

-- `v, ok := data[key].(string)`
unfoldable pub string_at : String → Fields → Option Text
string_at key fields = as_string (lookup (codes key) fields)

-- `v, _ := data[key].(string)`
unfoldable pub string_of : String → Fields → Text
unfolding string_at
string_of key fields = or_empty (string_at key fields)

-- `v, _ := data[key].(bool)`
unfoldable pub bool_of : String → Fields → Bool
bool_of key fields = as_true (lookup (codes key) fields)

-- The text that an event's type is.
unfoldable pub event_type_name : EventType → Text
event_type_name process_create = codes "process_create"
event_type_name process_exit = codes "process_exit"
event_type_name file_write = codes "file_write"
event_type_name file_delete = codes "file_delete"
event_type_name registry_set = codes "registry_set"
event_type_name registry_delete = codes "registry_delete"
event_type_name network_connect = codes "network_connect"
event_type_name network_dns = codes "network_dns"
event_type_name api_call = codes "api_call"
event_type_name evasion_attempt = codes "evasion_attempt"
event_type_name thread_create = codes "thread_create"
event_type_name image_load = codes "image_load"
event_type_name handle_create = codes "handle_create"
event_type_name handle_duplicate = codes "handle_duplicate"
event_type_name powershell_exec = codes "powershell_exec"
event_type_name amsi_scan = codes "amsi_scan"
event_type_name wmi_activity = codes "wmi_activity"
event_type_name scheduled_task = codes "scheduled_task"
event_type_name service_install = codes "service_install"
event_type_name process_access = codes "process_access"
event_type_name (other s) = s
