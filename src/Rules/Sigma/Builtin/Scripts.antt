-- ===== src/Rules/Sigma/Builtin/Scripts.antt =====
-- pkg/rules/sigma.go: the rules for scripts, evasion, WMI, scheduled tasks and services.
use gasha_sandbox.Common.{◌&&◌, ◌||◌, not, List, [], ◌∷◌, ◌++◌, if◌then◌else◌, is_nil}
use gasha_sandbox.Common.Text.{codes, utf8, text_eq, lower, has_prefix, contains}
use gasha_sandbox.Monitor.Events.{Event, string_of}
use gasha_sandbox.Rules.Hit.{RuleHit}
use gasha_sandbox.Rules.Sigma.Builtin.Base.{
  builtin_hit, hit_if, in_process, first_with, hit_for, suspicious_service_paths,
}

unfoldable pub powershell_hits : Event → List RuleHit
powershell_hits ev =
    let script = lower (string_of "script_block" ev.fields) in
    hit_if (contains script (codes "-encodedcommand") || contains script (codes " -enc ")) (
      builtin_hit (codes "PSEncodedCommandExecution")
        (utf8 (
          codes
            "PowerShell executed with an encoded command argument — obfuscated payload delivery."))
        (codes "high") (codes "T1059.001") (in_process ev)
        (codes "Script block contains -EncodedCommand or -enc flag"))
    ++ hit_if
        ((contains script (codes "downloadstring") || contains script (codes "downloadfile"))
          && contains script (codes "http"))
        (builtin_hit (codes "PSDownloadCradle")
          (utf8 (
            codes
              "PowerShell script contains a download cradle — remote payload fetching pattern."))
          (codes "critical") (codes "T1105") (in_process ev)
          (codes "Script block contains HTTP download + execution pattern"))
    ++ hit_if
        (contains script (codes "amsi")
          && (contains script (codes "bypass")
              || (contains script (codes "disable")
                  || (contains script (codes "patch") || contains script (codes "initfailed")))))
        (builtin_hit (codes "PSAMSIBypassAttempt")
          (utf8 (codes "PowerShell script attempts to bypass or disable AMSI scanning."))
          (codes "critical") (codes "T1562.001") (in_process ev)
          (codes "Script block contains AMSI bypass keyword cluster"))

unfoldable pub amsi_scan_hits : Event → List RuleHit
amsi_scan_hits ev =
    let result = string_of "scan_result" ev.fields in
    hit_if
      (not (is_nil result)
        && (not (text_eq result (codes "AMSI_RESULT_CLEAN")) && not (text_eq result (codes "1"))))
      (builtin_hit (codes "AMSIContentDetection")
        (utf8 (codes "AMSI flagged scanned content as potentially malicious.")) (codes "high")
        (codes "T1059.001") (in_process ev ++ codes " App: " ++ string_of "app_name" ev.fields)
        (codes "Content: " ++ string_of "content_name" ev.fields ++ codes ", Result: " ++ result))

unfoldable pub evasion_hits : Event → List RuleHit
evasion_hits ev =
    (builtin_hit (codes "AntiAnalysisEvasionAttempted")
      (utf8 (
        codes
          "Execution target actively checked for sandbox/virtualization hooks or debug environment indicators."))
      (codes "high") (string_of "mitre_ttp" ev.fields) (string_of "technique" ev.fields)
      (string_of "details" ev.fields))
    ∷ []

unfoldable pub wmi_hits : Event → List RuleHit
wmi_hits ev =
    let op = string_of "wmi_operation" ev.fields in
    let method = string_of "wmi_method" ev.fields in
    (if text_eq op (codes "EventSubscription")
      then (builtin_hit (codes "WMIEventSubscriptionPersistence")
          (utf8 (
            codes
              "WMI event subscription created — a fileless persistence mechanism commonly used by APTs and commodity malware."))
          (codes "critical") (codes "T1547.003") (in_process ev)
          (codes "Type: "
            ++ string_of "subscription_type" ev.fields
            ++ codes ", Namespace: "
            ++ string_of "wmi_namespace" ev.fields
            ++ codes ", Consumer: "
            ++ string_of "wmi_consumer" ev.fields
            ++ codes ", Query: "
            ++ string_of "wmi_query" ev.fields))
        ∷ []
      else if text_eq op (codes "MethodExecution")
      then (if contains (lower method) (codes "process") || contains (lower method) (codes "create")
          then (builtin_hit (codes "WMIProcessExecution")
              (utf8 (
                codes
                  "WMI used to create or execute a process — common lateral movement and execution technique."))
              (codes "high") (codes "T1047") (in_process ev)
              (codes "Method: "
                ++ method
                ++ codes ", Namespace: "
                ++ string_of "wmi_namespace" ev.fields))
            ∷ []
          else (builtin_hit (codes "WMIMethodExecution")
              (utf8
                (codes "WMI method execution detected — potential living-off-the-land technique."))
              (codes "medium") (codes "T1047") (in_process ev)
              (codes "Method: "
                ++ method
                ++ codes ", Namespace: "
                ++ string_of "wmi_namespace" ev.fields))
            ∷ [])
      else [])

unfoldable pub scheduled_task_hits : Event → List RuleHit
scheduled_task_hits ev =
    let op = string_of "task_operation" ev.fields in
    let task = string_of "task_name" ev.fields in
    let user = string_of "user_context" ev.fields in
    (if text_eq op (codes "Registered")
      then (builtin_hit (codes "ScheduledTaskCreated")
          (utf8 (
            codes
              "A new scheduled task was registered — frequently used for persistence and privilege escalation."))
          (codes "high") (codes "T1053.005") (in_process ev)
          (codes "Task: " ++ task ++ codes ", UserContext: " ++ user))
        ∷ hit_if
            (contains (lower user) (codes "system") || contains (lower user) (codes "nt authority"))
            (builtin_hit (codes "ScheduledTaskAsSystem")
              (utf8
                (codes "Scheduled task registered to run as SYSTEM — high-privilege persistence."))
              (codes "critical") (codes "T1053.005") (in_process ev ++ codes " Task: " ++ task)
              (codes "UserContext: " ++ user))
      else if text_eq op (codes "Updated")
      then (builtin_hit (codes "ScheduledTaskModified")
          (utf8 (
            codes
              "Existing scheduled task was modified — possible hijacking of a legitimate task for persistence."))
          (codes "high") (codes "T1053.005") (in_process ev)
          (codes "Task: " ++ task ++ codes ", UserContext: " ++ user))
        ∷ []
      else if text_eq op (codes "ActionStarted")
      then hit_if (not (has_prefix (lower task) (codes "\\microsoft\\windows\\"))) (
          builtin_hit (codes "SuspiciousScheduledTaskExecution")
            (utf8 (codes "Non-Microsoft scheduled task executed — verify legitimacy."))
            (codes "medium") (codes "T1053.005") (in_process ev)
            (codes "Task: " ++ task ++ codes ", Action: " ++ string_of "action_name" ev.fields))
      else [])

unfoldable pub service_install_hits : Event → List RuleHit
service_install_hits ev =
    let service = string_of "service_name" ev.fields in
    let image = string_of "service_imagepath" ev.fields in
    let value = string_of "service_value" ev.fields in
    (if text_eq value (codes "ImagePath") || is_nil value
      then (builtin_hit (codes "ServiceInstalled")
          (utf8 (
            codes
              "A new Windows service was installed — common persistence and privilege escalation mechanism."))
          (codes "high") (codes "T1543.003") (in_process ev)
          (codes "Service: "
            ++ service
            ++ codes ", ImagePath: "
            ++ image
            ++ codes ", Key: "
            ++ string_of "service_key" ev.fields))
        ∷ hit_for (first_with (λ p. contains (lower image) p) suspicious_service_paths) (λ p.
          (builtin_hit (codes "ServiceInstalledFromSuspiciousPath")
            (utf8 (
              codes
                "Windows service installed pointing to a user-writable path — strong indicator of malicious service installation."))
            (codes "critical") (codes "T1543.003") (in_process ev ++ codes " Service: " ++ service)
            (codes "ImagePath: " ++ image ++ codes " (suspicious path: " ++ p ++ codes ")")))
      else [])
