-- ===== src/Report/Generate.antt =====
-- pkg/report/report.go: `GenerateReport`, up to the files it writes.
use gasha_sandbox.Common.{
  ℕ, ◌+◌, ◌-◌, ◌*◌, ◌/◌, Option, none, some, List, [], ◌∷◌, if◌then◌else◌, length,
}
use gasha_sandbox.Common.Text.{Text, codes, text_eq}
use gasha_sandbox.Monitor.Events.{Event}
use gasha_sandbox.Storage.Jobs.{Job, Ioc, Ttp, Store, save_job, get_job, save_ioc, save_ttp}
use gasha_sandbox.Rules.Hit.{RuleHit}
use gasha_sandbox.Report.Score.{
  collect_iocs, collect_ttps, threat_score, threat_level, yara_hits, sigma_hits,
}

pub record ReportData : Type 0 where
  pub threat_level : Text
  pub threat_score : ℕ
  pub accent_color : Text
  pub glow_color : Text
  pub dash_array : ℕ
  pub file_path : Text
  pub file_type : Text
  pub sha256 : Text
  pub duration : ℕ
  pub summary_text : Text
  pub total_events : ℕ
  pub yara_hits : ℕ
  pub sigma_hits : ℕ
  pub events : List Event
  pub hits : List RuleHit
  pub ttps : List Ttp
  pub iocs : List Ioc

-- One of three texts, by the level.
abbrev by_level : Text → Text → Text → Text → Text
by_level level malicious suspicious clean =
    if text_eq level (codes "MALICIOUS")
    then malicious
    else if text_eq level (codes "SUSPICIOUS")
    then suspicious
    else clean

unfoldable summary_text : Text → Text
summary_text level =
    by_level level
      (codes
        "Critical security alert. The sample demonstrated multiple malicious characteristics including evasion attempts, startup persistence configuration, and connection to unverified domains.")
      (codes
        "Suspicious behavior flagged. The execution environment logged unusual actions such as registry persistence writes and high-entropy packed code modules.")
      (codes
        "No threat signatures triggered. The sample completed execution with standard system calls and appears benign.")

-- `math.Round(score * 201 / 100)`
unfoldable dash_array : ℕ → ℕ
dash_array score = (score * 201 + 50) / 100

abbrev pub save_iocs : Store → List Ioc → Store
save_iocs s [] = s
save_iocs s (i ∷ is) = save_iocs (save_ioc s i) is

abbrev pub save_ttps : Store → List Ttp → Store
save_ttps s [] = s
save_ttps s (t ∷ ts) = save_ttps (save_ttp s t) ts

-- The job as it is saved with the verdict.
unfoldable pub judged : ℕ → List RuleHit → Job → Job
unfolding threat_score threat_level
judged now hits job = record job {
  threat_score = threat_score hits;
  threat_level = threat_level (threat_score hits);
  completed_at = now;
  status = codes "completed";
}

-- The duration is in whole seconds; a clock that was set back gives 0 here.
unfoldable pub report_data : Text → ℕ → List Event → List RuleHit → Job → ReportData
unfolding threat_score threat_level collect_iocs collect_ttps yara_hits sigma_hits summary_text
    dash_array
report_data job_id now events hits job =
    let level = threat_level (threat_score hits) in
    record {
      threat_level = level;
      threat_score = threat_score hits;
      accent_color =
          by_level level (codes "var(--accent-malicious)") (codes "var(--accent-suspicious)")
            (codes "var(--accent-clean)");
      glow_color =
          by_level level (codes "rgba(255, 0, 127, 0.2)") (codes "rgba(255, 153, 0, 0.2)")
            (codes "rgba(0, 242, 254, 0.15)");
      dash_array = dash_array (threat_score hits);
      file_path = job.file_path;
      file_type = job.file_type;
      sha256 = job.file_hash_sha256;
      duration = (now - job.started_at) / 1000000000;
      summary_text = summary_text level;
      total_events = length events;
      yara_hits = yara_hits hits;
      sigma_hits = sigma_hits hits;
      events = events;
      hits = hits;
      ttps = collect_ttps job_id hits;
      iocs = collect_iocs job_id events;
    }

abbrev pub report_for : ℕ → List Event → Text → Store → List RuleHit → Job → Store × ReportData
report_for now events job_id store hits job =
    let saved = save_iocs (save_job store (judged now hits job)) (collect_iocs job_id events) in
    (save_ttps saved (collect_ttps job_id hits), report_data job_id now events hits job)

abbrev generate_for :
    ℕ → List Event → Text → Store → List RuleHit → Option Job → Option (Store × ReportData)
generate_for now events job_id store hits none = none
generate_for now events job_id store hits (some job) =
    some (report_for now events job_id store hits job)

-- `events` is what `GetJobEvents` answers; `none` is the error for a job that is not there.
unfoldable pub generate_report :
    ℕ → List Event → Text → Store → List RuleHit → Option (Store × ReportData)
generate_report now events job_id store hits =
    generate_for now events job_id store hits (get_job store job_id)
