-- ===== src/Orchestrator/Examples.antt =====
-- Concrete jobs, their runs and their reports.
use gasha_sandbox.Common.{◌≤◌, ◌≡◌, refl, true, false, some, [], ◌∷◌, ◌++◌, inl}
use gasha_sandbox.Common.Text.{Text, codes, text_eq}
use gasha_sandbox.Common.Ints.{pos}
use gasha_sandbox.Storage.Jobs.{Job, Store, stored, save_job, get_job, get_job-save_job}
use gasha_sandbox.Rules.Hit.{RuleHit}
use gasha_sandbox.Report.Score.{threat_score}
use gasha_sandbox.Report.Generate.{ReportData, generate_report}
use gasha_sandbox.Report.Verdict.{verdict_of, threat_score_le, generate_report-get_job}
use gasha_sandbox.Config.Types.{default_config}
use gasha_sandbox.Orchestrator.Jobs.{
  Rules, MemoryFinding, create_failed, ended, Times, finished, panicked, execute_job, started_job,
}
use gasha_sandbox.Orchestrator.Expected.{run_hits}
use gasha_sandbox.Orchestrator.Lifecycle.{
  over, execute_job-failed, execute_job-ended, execute_job-panics,
}

abbrev job : Job
job = record {
  id = 1 ∷ [];
  file_path = codes "/samples/a.exe";
  file_hash_sha256 = codes "00";
  file_type = codes "PE32 Executable";
  submitted_at = 5;
  started_at = 0;
  completed_at = 0;
  status = codes "queued";
  threat_score = 0;
  threat_level = codes "";
  report_path = codes "";
}

abbrev other_job : Job
other_job = record job { id = 2 ∷ [] }

abbrev empty : Store
empty = record { jobs = []; iocs = []; ttps = [] }

abbrev hit : Text → RuleHit
hit severity = record {
  rule_name = codes "Mimikatz";
  engine = codes "yara";
  description = codes "credential dumper";
  severity = severity;
  mitre_ttp = codes "T1003";
  matched_on = codes "file";
  evidence = codes "";
}

abbrev critical : RuleHit
critical = hit (codes "critical")

abbrev high : RuleHit
high = hit (codes "high")

abbrev rules : Rules
rules = record {
  scan_file = λ path. critical ∷ [];
  process_event = λ ev. [];
  scan_script = λ content source. [];
  scan_memory = λ pid address bytes. high ∷ [];
}

abbrev times : Times
times = record { started = 10; completed = 20; reported = 30 }

abbrev finding : MemoryFinding
finding = record { finding_id = codes "RWX"; address = codes "0x1000" }

execute_job-failed_example :
    (t : Store) × (execute_job rules default_config times [] empty job create_failed ≡ finished t)
    × (get_job t job.id
        ≡ some
            (stored (record (started_job 10 job) { completed_at = 20; status = codes "failed" })))
execute_job-failed_example =
    execute_job-failed rules default_config times [] empty job create_failed (inl refl)

-- A section that can be written and run, in an image that is known.
abbrev section : MemoryFinding
section = record { finding_id = codes "PESection"; address = codes "0x1000+.text" }

execute_job-ended_example :
    (t : Store) × (execute_job rules default_config times [] empty job
        (ended 7 true (pos 0) [] (section ∷ []))
      ≡ finished t)
    × (get_job t job.id
        ≡ some (
            stored (
              verdict_of 30
                (run_hits rules default_config job 7 true (pos 0) [] (section ∷ []))
                (stored (over times true job)))))
execute_job-ended_example =
    execute_job-ended rules default_config times [] empty job 7 true (pos 0) [] (section ∷ [])
      (refl, tt)

finding_is_other : text_eq finding.finding_id (codes "PESection") ≡ false
unfolding codes text_eq
finding_is_other = refl

execute_job-panics_example :
    (t : Store) × (execute_job rules default_config times [] empty job
        (ended 7 false (pos 0) [] (section ∷ finding ∷ []))
      ≡ panicked t)
    × (get_job t job.id ≡ some (stored (record job { started_at = 10; status = codes "running" })))
execute_job-panics_example =
    execute_job-panics rules default_config times [] empty job 7 false (pos 0) [] (section ∷ []) []
      finding finding_is_other

found : get_job (save_job empty job) job.id ≡ some (stored job)
found = get_job-save_job empty job

generate_report-get_job_example :
    (r : Store × ReportData) × (generate_report 30 [] job.id
        (save_job empty job)
        (critical ∷ high ∷ [])
      ≡ some r)
    × (get_job r.0 job.id ≡ some (stored (verdict_of 30 (critical ∷ high ∷ []) (stored job))))
generate_report-get_job_example =
    generate_report-get_job 30 [] job.id (save_job empty job) (critical ∷ high ∷ []) (stored job)
      found

threat_score_le_example :
    (threat_score ((critical ∷ []) ++ (high ∷ [])) ≤ 100)
    × (threat_score (critical ∷ []) ≤ threat_score ((critical ∷ []) ++ (high ∷ [])))
threat_score_le_example = threat_score_le (critical ∷ []) (high ∷ [])

get_job-save_job_example : get_job (save_job empty job) (1 ∷ []) ≡ some (stored job)
get_job-save_job_example = get_job-save_job empty job

different : text_eq job.id (2 ∷ []) ≡ false
unfolding text_eq
different = refl
