-- ===== src/Rules/Sigma/Builtin/System.antt =====
-- pkg/rules/sigma.go: the rules for processes, the registry, files, the network and handles.
use gasha_sandbox.Common.{◌&&◌, ◌||◌, List, [], ◌∷◌, ◌++◌, if◌then◌else◌, is_nil, any}
use gasha_sandbox.Common.Text.{codes, utf8, text_eq, lower, has_suffix, contains, lookup, decimal}
use gasha_sandbox.Monitor.Events.{Event, string_of}
use gasha_sandbox.Rules.Hit.{RuleHit}
use gasha_sandbox.Rules.Sigma.Builtin.Base.{
  Known, builtin_hit, hit_if, in_process, first_with, hit_for, base_from, int_at, port_at,
  suspicious_parents, suspicious_tlds, thread_hit,
}

-- The test of the API call stands in this case.
unfoldable pub process_create_hits : Known → Event → List RuleHit
process_create_hits k ev =
    let image = string_of "Image" ev.fields in
    let cmdline = string_of "CommandLine" ev.fields in
    let parent_image = string_of "ParentImage" ev.fields in
    let lower_cmd = lower cmdline in
    let base_name = base_from [] (lower image) in
    hit_if (text_eq base_name (codes "schtasks.exe") && contains lower_cmd (codes "/create")) (
      builtin_hit (codes "ScheduledTaskCreatedViaCLI")
        (utf8 (
          codes "schtasks.exe invoked with /create — scheduled task persistence via command line."))
        (codes "high") (codes "T1053.005") (in_process ev)
        (codes "Image: " ++ image ++ codes ", CommandLine: " ++ cmdline))
    ++ hit_if
        (text_eq base_name (codes "sc.exe")
          && (contains lower_cmd (codes " create ") || contains lower_cmd (codes " config ")))
        (builtin_hit (codes "ServiceCreatedViaSC")
          (utf8 (
            codes
              "sc.exe used to create or configure a Windows service — common malware persistence technique."))
          (codes "high") (codes "T1543.003") (in_process ev) (codes "CommandLine: " ++ cmdline))
    ++ hit_if
        (text_eq base_name (codes "wmic.exe")
          && (contains lower_cmd (codes "process") && contains lower_cmd (codes "call create")))
        (builtin_hit (codes "WMICProcessCreate")
          (utf8 (
            codes
              "wmic.exe used to spawn a process — common fileless execution and lateral movement vector."))
          (codes "high") (codes "T1047") (in_process ev) (codes "CommandLine: " ++ cmdline))
    ++ hit_if
        ((text_eq base_name (codes "powershell.exe") || text_eq base_name (codes "pwsh.exe"))
          && any (λ sp. has_suffix (lower parent_image) sp) suspicious_parents)
        (builtin_hit (codes "PowerShellFromSuspiciousParent")
          (utf8 (
            codes
              "PowerShell spawned from a suspicious parent process — common macro/script dropper pattern."))
          (codes "critical") (codes "T1059.001") (in_process ev)
          (codes "Parent: " ++ parent_image ++ codes ", CommandLine: " ++ cmdline))
    ++ (if text_eq (string_of "api_name" ev.fields) (codes "CreateRemoteThread")
        then thread_hit ev (k.args_target (lookup (codes "args") ev.fields))
        else [])

unfoldable pub registry_set_hits : Event → List RuleHit
registry_set_hits ev =
    let key = string_of "key" ev.fields in
    hit_if (contains (lower key) (codes "\\currentversion\\run")) (
      builtin_hit (codes "RegistryPersistenceRunKey")
        (utf8 (
          codes
            "Registry write detected in startup auto-run keys indicating local persistence setup."))
        (codes "high") (codes "T1547.001") (key)
        (codes "Key: "
          ++ key
          ++ codes ", Value: "
          ++ string_of "value_name" ev.fields
          ++ codes " -> "
          ++ string_of "value_data" ev.fields))

unfoldable pub file_write_hits : Event → List RuleHit
file_write_hits ev =
    let path = string_of "path" ev.fields in
    hit_if (contains (lower path) (codes "\\start menu\\programs\\startup\\")) (
      builtin_hit (codes "FileDropStartupDir")
        (utf8 (codes "File written inside Windows system startup folders for automatic execution."))
        (codes "high") (codes "T1547.001") (path) (codes "Dropped binary path: " ++ path))

unfoldable pub network_connect_hits : Known → Event → List RuleHit
network_connect_hits k ev =
    let port = lookup (codes "dest_port") ev.fields in
    (builtin_hit (codes "C2NetworkBeaconInitiated")
      (utf8 (codes "Network outbound connection established by analyzed execution target."))
      (codes "medium") (codes "T1071")
      (string_of "dest_ip" ev.fields ++ codes ":" ++ decimal (port_at port))
      (codes "Target Domain: "
        ++ string_of "domain" ev.fields
        ++ codes ", Port: "
        ++ k.print_rounded port))
    ∷ []

unfoldable pub network_dns_hits : Known → Event → List RuleHit
network_dns_hits k ev =
    let given = string_of "domain" ev.fields in
    let domain = if is_nil given then string_of "dns_query" ev.fields else given in
    hit_if (k.is_dga_domain domain) (
      builtin_hit (codes "DGADomainDetected")
        (utf8 (
          codes
            "DNS query to a high-entropy domain name consistent with Domain Generation Algorithm (DGA)."))
        (codes "high") (codes "T1568.002") (in_process ev)
        (codes "Query: " ++ domain ++ codes " (entropy > threshold)"))
    ++ hit_for (first_with (λ tld. has_suffix (lower domain) tld) suspicious_tlds) (λ tld.
      (builtin_hit (codes "SuspiciousTLDDNSQuery")
        (utf8 (
          codes
            "DNS query to a domain with a free/low-reputation TLD commonly used for malware C2."))
        (codes "medium") (codes "T1071.004") (in_process ev)
        (codes "Domain: " ++ domain ++ codes " (TLD: " ++ tld ++ codes ")")))

unfoldable pub handle_create_hits : Event → List RuleHit
handle_create_hits ev =
    let object_type = string_of "object_type" ev.fields in
    let object_name = string_of "object_name" ev.fields in
    let lower_name = lower object_name in
    hit_if (contains lower_name (codes "lsass")) (
      builtin_hit (codes "LSASSHandleOpen")
        (utf8 (codes "Process opened a handle to lsass.exe — possible credential dumping attempt."))
        (codes "critical") (codes "T1003.001") (in_process ev)
        (codes "ObjectType: " ++ object_type ++ codes ", ObjectName: " ++ object_name))
    ++ hit_if
        (text_eq (lower object_type) (codes "mutant")
          || text_eq (lower object_type) (codes "mutex"))
        (builtin_hit (codes "MalwareMutexCreation")
          (utf8 (
            codes
              "Process created a named mutex — common malware singleton/fingerprint mechanism."))
          (codes "medium") (codes "T1480") (in_process ev) (codes "Mutex name: " ++ object_name))
    ++ hit_if
        (contains lower_name (codes "\\pipe\\") || contains lower_name (codes "\\named pipe\\"))
        (builtin_hit (codes "NamedPipeHandleAccess")
          (utf8 (
            codes
              "Process opened a handle to a named pipe — possible inter-process communication or lateral movement channel."))
          (codes "low") (codes "T1559.001") (in_process ev) (codes "Pipe path: " ++ object_name))

unfoldable pub handle_duplicate_hits : Event → List RuleHit
handle_duplicate_hits ev =
    let object_name = string_of "object_name" ev.fields in
    hit_if (contains (lower object_name) (codes "lsass")) (
      builtin_hit (codes "LSASSHandleDuplicated")
        (utf8 (
          codes
            "Handle to lsass.exe was duplicated across processes — elevated credential theft risk."))
        (codes "critical") (codes "T1003.001")
        (in_process ev
          ++ utf8 (codes " → PID ")
          ++ decimal (int_at (lookup (codes "target_pid") ev.fields)))
        (codes "Duplicated handle to: " ++ object_name))
