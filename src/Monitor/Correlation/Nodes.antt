-- ===== src/Monitor/Correlation/Nodes.antt =====
-- `buildProcessNode` and the checks that `EventProcessCreate` runs on the new node.
use gasha_sandbox.Common.{
  ℕ, Bool, ◌&&◌, ◌||◌, not, Option, none, some, List, [], ◌∷◌, if◌then◌else◌,
}
use gasha_sandbox.Common.Text.{
  Text, codes, text_eq, lower, has_suffix, contains, trim_suffix, base, ext, member, lookup,
}
use gasha_sandbox.Monitor.Events.{
  Event, Value, int, float, string_at, string_of, sev_high, sev_critical,
}
use gasha_sandbox.Monitor.Correlation.State.{
  alert_if, ProcessNode, Engine, integrity_rise, user_rise, renamed, tool_spawn, emit_alert,
}

abbrev as_int : Option Value → ℕ
as_int (some (int n)) = n
as_int (some (float n)) = n
as_int _ = 0

abbrev first_of_two : Option Text → Text → Text
first_of_two (some s) _ = s
first_of_two none t = t

unfoldable pub build_process_node : Event → ProcessNode
unfolding string_at string_of
build_process_node ev = record {
  pid = ev.pid;
  ppid = as_int (lookup (codes "ppid") ev.fields);
  image_path = string_of "image_path" ev.fields;
  command_line = string_of "cmdline" ev.fields;
  original_name =
      first_of_two (string_at "original_filename" ev.fields)
        (string_of "OriginalFileName" ev.fields);
  spawn_time = ev.timestamp;
  user = string_of "user" ev.fields;
  integrity = string_of "integrity_level" ev.fields;
  process_guid = string_of "process_guid" ev.fields;
  logon_id = string_of "logon_id" ev.fields;
}

-- `ce.processes[ce.pidToKey[pid]]`, where both are there.
unfoldable pub node_of_pid : Engine → ℕ → Option ProcessNode
node_of_pid ce pid = elim (ce.pid_to_key pid) [
  | none ↦ none
  | some key ↦ ce.processes key.pid key.spawn_time
]

abbrev is_nonempty : Text → Bool
is_nonempty s = not (text_eq s [])

unfoldable pub integrity_rises : ProcessNode → ProcessNode → Bool
integrity_rises parent child =
    is_nonempty parent.integrity
    && is_nonempty child.integrity
    && (contains (lower parent.integrity) (codes "medium")
        || contains (lower parent.integrity) (codes "low"))
    && (contains (lower child.integrity) (codes "high")
        || contains (lower child.integrity) (codes "system"))
    && not (contains (lower child.image_path) (codes "consent.exe"))

abbrev is_root : Text → Bool
is_root user = text_eq user (codes "root") || text_eq user (codes "0")

unfoldable pub user_rises : ProcessNode → ProcessNode → Bool
user_rises parent child =
    is_nonempty parent.user
    && is_nonempty child.user
    && not (is_root parent.user)
    && is_root child.user
    && not (has_suffix (lower child.image_path) (codes "/sudo"))
    && not (has_suffix (lower child.image_path) (codes "/su"))

unfoldable pub escalation_alerts : Option ProcessNode → ProcessNode → ℕ → Engine → Engine
escalation_alerts none child t ce = ce
escalation_alerts (some parent) child t ce =
    alert_if (user_rises parent child) child.pid (codes "T1068")
      (codes "Privilege Escalation Detected") (user_rise parent child) sev_high t
      (alert_if (integrity_rises parent child) child.pid (codes "T1068")
        (codes "Privilege Escalation Detected") (integrity_rise parent child) sev_high t ce)

unfoldable pub check_privilege_escalation : ProcessNode → ℕ → Engine → Engine
check_privilege_escalation child t ce = escalation_alerts (node_of_pid ce child.ppid) child t ce

unfoldable pub lolbins : List Text
lolbins =
    codes "cmd"
    ∷ codes "powershell"
    ∷ codes "powershell_ise"
    ∷ codes "wscript"
    ∷ codes "cscript"
    ∷ codes "mshta"
    ∷ codes "regsvr32"
    ∷ codes "rundll32"
    ∷ codes "msiexec"
    ∷ codes "certutil"
    ∷ codes "bitsadmin"
    ∷ codes "wmic"
    ∷ codes "net"
    ∷ codes "nltest"
    ∷ codes "sc"
    ∷ codes "schtasks"
    ∷ codes "at"
    ∷ codes "reg"
    ∷ codes "whoami"
    ∷ codes "ipconfig"
    ∷ codes "netstat"
    ∷ []

-- The base name of a path in lower case, without its extension.
unfoldable pub stem : Text → Text
stem path = let name = lower (base path) in trim_suffix name (ext name)

unfoldable pub check_lolbin_rename : ProcessNode → ℕ → Engine → Engine
unfolding stem
check_lolbin_rename node t ce =
    alert_if
      (is_nonempty node.original_name
        && is_nonempty node.image_path
        && not (text_eq (stem node.image_path) (stem node.original_name))
        && member (stem node.original_name) lolbins)
      node.pid (codes "T1036.003") (codes "LOLBin Rename Detected")
      (renamed node.image_path node.original_name) sev_high t ce

-- The cases of the `switch base`; `wmic.exe` may raise two alerts.
unfoldable pub check_persistence_tool_spawn : ProcessNode → ℕ → Engine → Engine
check_persistence_tool_spawn node t ce =
    let tool = lower (base node.image_path) in
    let cmdl = lower node.command_line in
    let detail = tool_spawn tool node.pid node.command_line in
    if text_eq node.image_path []
    then ce
    else if text_eq tool (codes "schtasks.exe")
    then alert_if (contains cmdl (codes "/create") || contains cmdl (codes "-create")) node.pid
        (codes "T1053.005") (codes "Scheduled Task Created via schtasks.exe") detail sev_high t ce
    else if text_eq tool (codes "sc.exe")
    then alert_if (contains cmdl (codes "create") || contains cmdl (codes "config")) node.pid
        (codes "T1543.003") (codes "Service Created/Modified via sc.exe") detail sev_high t ce
    else if text_eq tool (codes "reg.exe")
    then alert_if
        (contains cmdl (codes "add")
          && (contains cmdl (codes "\\run") || contains cmdl (codes "\\services")))
        node.pid (codes "T1547.001") (codes "Registry Persistence via reg.exe") detail sev_high t ce
    else if text_eq tool (codes "wmic.exe")
    then alert_if (contains cmdl (codes "subscription") || contains cmdl (codes "eventfilter"))
        node.pid (codes "T1547.003") (codes "WMI Subscription via wmic.exe") detail sev_critical t
        (alert_if (contains cmdl (codes "process") && contains cmdl (codes "call create")) node.pid
          (codes "T1047") (codes "WMI Execution via wmic.exe") detail sev_high t ce)
    else if text_eq tool (codes "at.exe")
    then emit_alert node.pid (codes "T1053.002") (codes "Scheduled Task via at.exe (legacy)") detail
        sev_high t ce
    else ce
