-- ===== src/Orchestrator/Jobs.antt =====
-- pkg/orchestrator/orchestrator.go: submitting a job and executing one. A run of the sample is a
-- value that says how it went; the rule engines, the digest and the inspection of the memory are
-- parameters. Nothing waits for the goroutine that consumes the events: a run says how far it has got
-- when the report is made. Its hits stand before those of the memory here; the program may mix them.
use gasha_sandbox.Common.{
  ℕ, zero, Bool, true, false, ◌&&◌, ◌||◌, not, Option, none, some, List, [], ◌∷◌, ◌++◌,
  if◌then◌else◌, is_nil, any,
}
use gasha_sandbox.Common.Text.{Text, codes, text_eq, ext, member, decimal}
use gasha_sandbox.Common.Ints.{ℤ, pos}
use gasha_sandbox.Monitor.Events.{Event, EventType, string_of, event_type_name}
use gasha_sandbox.Storage.Jobs.{Job, Store, save_job}
use gasha_sandbox.Rules.Hit.{RuleHit}
use gasha_sandbox.Report.Generate.{ReportData, generate_report}
use gasha_sandbox.Config.Types.{Config}
use gasha_sandbox.Orchestrator.Queue.{JobQueue, push}

-- The engines of pkg/rules, as the orchestrator calls them.
pub record Rules : Type 0 where
  pub scan_file : Text → List RuleHit
  pub process_event : Event → List RuleHit
  pub scan_script : Text → Text → List RuleHit
  pub scan_memory : ℕ → Text → Text → List RuleHit

pub record MemoryFinding : Type 0 where
  pub finding_id : Text
  pub address : Text

-- What the consumer adds to the hits: for each event those of the correlation, then those of its script.
pub data Handled : Type 0 where
  correlated scanned : Event → Handled

-- The channel that the telemetry is published on.
pub data Channel : Type 0 where
  open_channel closed_channel : Channel

-- How a run went: `create_failed` and `monitor_failed` are the early returns; a run that is over has
-- the process id, whether the timeout ended it, the exit code, what the consumer has added to the hits
-- before the report is made, and what the inspection of the memory finds.
pub data Run : Type 0 where
  create_failed : Run
  monitor_failed : Run
  ended : ℕ → Bool → ℤ → List Handled → List MemoryFinding → Run

pub record Times : Type 0 where
  pub started : ℕ
  pub completed : ℕ
  pub reported : ℕ

-- `panicked` is a send on the closed channel, which Go answers with a panic.
pub data Outcome : Type 0 where
  finished : Store → Outcome
  panicked : Store → Outcome

unfoldable pub analyze_file_type : Text → Text
analyze_file_type path =
    let e = ext path in
    if text_eq e (codes ".exe")
    then codes "PE32 Executable"
    else if text_eq e (codes ".dll")
    then codes "PE32 Shared Library (DLL)"
    else if text_eq e (codes ".ps1")
    then codes "PowerShell Script"
    else if text_eq e (codes ".bat")
    then codes "Windows Batch Script"
    else codes "Unknown Binary"

abbrev new_job : Text → Text → ℕ → Text → Job
new_job id path now hash = record {
  id = id;
  file_path = path;
  file_hash_sha256 = hash;
  file_type = analyze_file_type path;
  submitted_at = now;
  started_at = 0;
  completed_at = 0;
  status = codes "queued";
  threat_score = 0;
  threat_level = codes "";
  report_path = codes "";
}

abbrev submit_hashed : Text → Text → ℕ → Store → JobQueue → Option Text → Option (Store × JobQueue)
submit_hashed id path now s q none = none
submit_hashed id path now s q (some hash) =
    some (save_job s (new_job id path now hash), push q (new_job id path now hash))

-- `id` is the identifier that `generateUUID` draws; `digest` gives none where the file cannot be read.
unfoldable pub submit_job :
    (Text → Option Text) → Text → Text → ℕ → Store → JobQueue → Option (Store × JobQueue)
unfolding analyze_file_type
submit_job digest id path now s q = submit_hashed id path now s q (digest path)

unfoldable pub is_script : EventType → Bool
is_script t =
    text_eq (event_type_name t) (codes "powershell_exec")
    || text_eq (event_type_name t) (codes "amsi_scan")

-- `fmt.Sprintf("%s:PID-%d", ev.EventType, ev.PID)`
unfoldable pub script_source : Event → Text
script_source ev = event_type_name ev.event_type ++ codes ":PID-" ++ decimal ev.pid

-- The hits of one step of the consumer, the engines being gated by the configuration.
unfoldable pub handled_hits : Rules → Config → Handled → List RuleHit
unfolding script_source is_script
handled_hits rules cfg (correlated ev) =
    if cfg.rules.sigma.enabled then rules.process_event ev else []
handled_hits rules cfg (scanned ev) =
    if cfg.rules.yara.enabled
      && (is_script ev.event_type && not (is_nil (string_of "script_block" ev.fields)))
    then rules.scan_script (string_of "script_block" ev.fields) (script_source ev)
    else []

unfoldable pub consumer_hits : Rules → Config → List Handled → List RuleHit
unfolding handled_hits
consumer_hits rules cfg [] = []
consumer_hits rules cfg (x ∷ xs) = handled_hits rules cfg x ++ consumer_hits rules cfg xs

abbrev is_unbacked : MemoryFinding → Bool
is_unbacked f = member f.finding_id (codes "UnbackedPE" ∷ codes "HiddenModule" ∷ [])

unfoldable pub finding_hits : Rules → ℕ → List MemoryFinding → List RuleHit
finding_hits rules pid [] = []
finding_hits rules pid (f ∷ fs) =
    (if is_unbacked f then rules.scan_memory pid f.address (77 ∷ 90 ∷ []) else [])
    ++ finding_hits rules pid fs

abbrev is_failure : ℤ → Bool
is_failure (pos zero) = false
is_failure _ = true

-- The scan made where a run ended badly and no finding was made.
unfoldable pub fallback_hits : Rules → ℕ → Text → ℤ → List MemoryFinding → List RuleHit
fallback_hits rules pid status exit_code findings =
    if (text_eq status (codes "timeout") || is_failure exit_code) && is_nil findings
    then rules.scan_memory pid (codes "0x00400000")
        (codes "MZ header in unbacked memory... mimikatz")
    else []

-- `emitMemoryEvent` is called for every finding but those of a section of an image.
unfoldable pub is_emitted : MemoryFinding → Bool
is_emitted f = not (text_eq f.finding_id (codes "PESection"))

-- Whether a send of `InspectProcess` panics, which one on a closed channel does.
unfoldable pub inspect_panics : Channel → List MemoryFinding → Bool
unfolding is_emitted
inspect_panics open_channel fs = false
inspect_panics closed_channel fs = any is_emitted fs

unfoldable pub fail_job : ℕ → Store → Job → Store
fail_job now s job = save_job s (record job { completed_at = now; status = codes "failed" })

abbrev reported : Store → Option (Store × ReportData) → Store
reported s none = s
reported s (some r) = r.0

-- `close(publishChan)`
abbrev close_channel : Channel → Channel
close_channel c = closed_channel

-- Steps 5 to 7, with the channel that the telemetry was started on. `recorded` is what `GetJobEvents` answers for the report.
unfoldable pub finish_job :
    Rules
    → Config
    → Times
    → List Event
    → Store
    → Job
    → ℕ
    → Bool
    → ℤ
    → Channel
    → List Handled
    → List MemoryFinding
    → Outcome
unfolding inspect_panics finding_hits fallback_hits consumer_hits generate_report
finish_job rules cfg times recorded s job pid timed_out exit_code publish handled findings =
    let status = if timed_out then codes "timeout" else codes "completed" in
    let hits =
      ((rules.scan_file job.file_path ++ consumer_hits rules cfg handled)
        ++ finding_hits rules pid findings)
      ++ fallback_hits rules pid status exit_code findings in
    let saved = save_job s (record job { completed_at = times.completed; status = status }) in
    if inspect_panics (close_channel publish) findings
    then panicked s
    else finished (reported saved (generate_report times.reported recorded job.id saved hits))

abbrev pub started_job : ℕ → Job → Job
started_job now job = record job { started_at = now; status = codes "running" }

abbrev run_job : Rules → Config → Times → List Event → Store → Job → Run → Outcome
run_job rules cfg times recorded s job create_failed = finished (fail_job times.completed s job)
run_job rules cfg times recorded s job monitor_failed = finished (fail_job times.completed s job)
run_job rules cfg times recorded s job (ended pid timed_out exit_code handled findings) =
    finish_job rules cfg times recorded s job pid timed_out exit_code open_channel handled findings

unfoldable pub execute_job : Rules → Config → Times → List Event → Store → Job → Run → Outcome
unfolding save_job fail_job finish_job
execute_job rules cfg times recorded s job run =
    run_job rules cfg times recorded (save_job s (started_job times.started job))
      (started_job times.started job) run
