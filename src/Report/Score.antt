-- ===== src/Report/Score.antt =====
-- pkg/report/report.go: the indicators, techniques and the score that `GenerateReport` computes.
use gasha_sandbox.Common.{ℕ, ◌+◌, List, [], ◌∷◌, ◌++◌, leb, ltb, if◌then◌else◌, is_nil}
use gasha_sandbox.Common.Text.{Text, codes, text_eq, member, base}
use gasha_sandbox.Monitor.Events.{
  Event, EventType, network_connect, file_write, registry_set, string_of,
}
use gasha_sandbox.Rules.Hit.{RuleHit}
use gasha_sandbox.Storage.Jobs.{Ioc, Ttp}

abbrev ioc : Text → Text → Text → Text → ℕ → Ioc
ioc job kind value context confidence = record {
  job_id = job;
  ioc_type = kind;
  value = value;
  context = context;
  first_seen = 0;
  confidence = confidence;
}

abbrev unless_empty : Text → Ioc → List Ioc
unless_empty s i = if is_nil s then [] else i ∷ []

-- The indicators of an event.
abbrev iocs_of : Text → EventType → Event → List Ioc
iocs_of job network_connect ev =
    unless_empty (string_of "dest_ip" ev.fields)
      (ioc job (codes "ipv4") (string_of "dest_ip" ev.fields) (codes "network") 90)
    ++ unless_empty (string_of "domain" ev.fields)
        (ioc job (codes "domain") (string_of "domain" ev.fields) (codes "network") 90)
iocs_of job file_write ev =
    unless_empty (string_of "path" ev.fields)
      (ioc job (codes "file") (base (string_of "path" ev.fields)) (codes "filesystem") 75)
iocs_of job registry_set ev = unless_empty (string_of "key" ev.fields) (
    ioc job (codes "registry")
      (string_of "key" ev.fields ++ b'\\' ∷ string_of "value_name" ev.fields) (codes "registry") 80)
iocs_of job _ ev = []

unfoldable pub collect_iocs : Text → List Event → List Ioc
collect_iocs job [] = []
collect_iocs job (ev ∷ evs) = iocs_of job ev.event_type ev ++ collect_iocs job evs

unfoldable pub get_tactic_for_ttp : Text → Text
get_tactic_for_ttp ttp =
    if member ttp (codes "T1497" ∷ codes "T1497.001" ∷ codes "T1497.003" ∷ [])
    then codes "Defense Evasion"
    else if member ttp (codes "T1055" ∷ codes "T1055.001" ∷ codes "T1055.002" ∷ [])
    then codes "Privilege Escalation / Defense Evasion"
    else if member ttp (codes "T1547.001" ∷ codes "T1547" ∷ [])
    then codes "Persistence"
    else if member ttp (codes "T1071" ∷ codes "T1071.001" ∷ [])
    then codes "Command and Control"
    else codes "Execution"

unfoldable pub severity_score : Text → ℕ
severity_score s =
    if text_eq s (codes "critical")
    then 35
    else if text_eq s (codes "high")
    then 25
    else if text_eq s (codes "medium")
    then 15
    else 5

-- The loop over the hits: its sum, its counts and its techniques.
unfoldable pub raw_score : List RuleHit → ℕ
raw_score [] = 0
raw_score (h ∷ hs) = severity_score h.severity + raw_score hs

unfoldable pub yara_hits : List RuleHit → ℕ
yara_hits [] = 0
yara_hits (h ∷ hs) = (if text_eq h.engine (codes "yara") then 1 else 0) + yara_hits hs

unfoldable pub sigma_hits : List RuleHit → ℕ
sigma_hits [] = 0
sigma_hits (h ∷ hs) = (if text_eq h.engine (codes "yara") then 0 else 1) + sigma_hits hs

unfoldable pub collect_ttps : Text → List RuleHit → List Ttp
unfolding get_tactic_for_ttp
collect_ttps job [] = []
collect_ttps job (h ∷ hs) =
    let rest = collect_ttps job hs in
    let mapped : Ttp = record {
      job_id = job;
      technique_id = h.mitre_ttp;
      technique_name = h.rule_name;
      tactic = get_tactic_for_ttp h.mitre_ttp;
      evidence_ids = h.matched_on;
      confidence = 85;
      severity = 0;
    } in
    if is_nil h.mitre_ttp then rest else mapped ∷ rest

unfoldable pub threat_score : List RuleHit → ℕ
unfolding raw_score
threat_score hs = if ltb 100 (raw_score hs) then 100 else raw_score hs

unfoldable pub threat_level : ℕ → Text
threat_level score =
    if leb 70 score
    then codes "MALICIOUS"
    else if leb 30 score
    then codes "SUSPICIOUS"
    else codes "CLEAN"

unfoldable pub get_key_behaviors : List RuleHit → List Text
get_key_behaviors hs = or_default (descriptions hs)
  where
    descriptions : List RuleHit → List Text
    descriptions [] = []
    descriptions (h ∷ hs) = h.description ∷ descriptions hs

    or_default : List Text → List Text
    or_default [] = codes "No suspicious behaviors detected" ∷ []
    or_default (d ∷ ds) = d ∷ ds
