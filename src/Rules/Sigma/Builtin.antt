-- ===== src/Rules/Sigma/Builtin.antt =====
-- pkg/rules/sigma.go: the built-in rules by the type of the event, and the correlator over them and the
-- external rules.
pub mod Base
pub mod System
pub mod Scripts
use gasha_sandbox.Common.{
  ℕ, ◌+◌, ◌*◌, ◌/◌, ◌%◌, Bool, true, false, ◌&&◌, ◌||◌, not, Option, none, some, List, [], ◌∷◌,
  ◌++◌, ltb, ◌==◌, if◌then◌else◌, is_nil, any,
}
use gasha_sandbox.Common.Text.{
  Text, codes, text_eq, lower, has_prefix, has_suffix, contains, member, lookup, decimal,
}
use gasha_sandbox.Monitor.Events.{
  Event, EventType, Value, str, int, float, boolean, opaque_value, Fields, string_of,
  process_create, registry_set, file_write, network_connect, network_dns, handle_create,
  handle_duplicate, powershell_exec, amsi_scan, evasion_attempt, wmi_activity, scheduled_task,
  service_install,
}
use gasha_sandbox.Rules.Hit.{RuleHit}
use gasha_sandbox.Rules.Sigma.Types.{Host}
use gasha_sandbox.Rules.Sigma.Scope.{ExternalSigmaRules, evaluate_external}
use gasha_sandbox.Rules.Sigma.Builtin.Base.{Known}
use gasha_sandbox.Rules.Sigma.Builtin.System.{
  process_create_hits, registry_set_hits, file_write_hits, network_connect_hits, network_dns_hits,
  handle_create_hits, handle_duplicate_hits,
}
use gasha_sandbox.Rules.Sigma.Builtin.Scripts.{
  powershell_hits, amsi_scan_hits, evasion_hits, wmi_hits, scheduled_task_hits,
  service_install_hits,
}

unfoldable pub builtin_for : Known → EventType → Event → List RuleHit
unfolding process_create_hits registry_set_hits file_write_hits network_connect_hits
    network_dns_hits handle_create_hits handle_duplicate_hits powershell_hits amsi_scan_hits
    evasion_hits wmi_hits scheduled_task_hits service_install_hits
builtin_for k process_create ev = process_create_hits k ev
builtin_for k registry_set ev = registry_set_hits ev
builtin_for k file_write ev = file_write_hits ev
builtin_for k network_connect ev = network_connect_hits k ev
builtin_for k network_dns ev = network_dns_hits k ev
builtin_for k handle_create ev = handle_create_hits ev
builtin_for k handle_duplicate ev = handle_duplicate_hits ev
builtin_for k powershell_exec ev = powershell_hits ev
builtin_for k amsi_scan ev = amsi_scan_hits ev
builtin_for k evasion_attempt ev = evasion_hits ev
builtin_for k wmi_activity ev = wmi_hits ev
builtin_for k scheduled_task ev = scheduled_task_hits ev
builtin_for k service_install ev = service_install_hits ev
builtin_for k _ ev = []

abbrev pub external_hits : Host → Option ExternalSigmaRules → Event → List RuleHit
external_hits h none ev = []
external_hits h (some es) ev = evaluate_external h es ev

-- `SigmaCorrelator.Evaluate`
unfoldable pub evaluate_sigma : Known → Host → Option ExternalSigmaRules → Event → List RuleHit
unfolding builtin_for
evaluate_sigma k h external ev = builtin_for k ev.event_type ev ++ external_hits h external ev
