-- ===== src/Report/Verdict.antt =====
-- The verdict of a report, and the job that it leaves in the store.
use mathlib.Core.List.{Permᴰ}
use gasha_sandbox.Common.{
  ℕ, ◌+◌, ◌≤◌, ◌<◌, ◌≡◌, refl, sym, ap, ◌∙◌, some, List, [], ◌∷◌, ◌++◌, arith, ◌*◌, length, ltb,
  leb, if◌then◌else◌, Bool-cases, inl, inr,
}
use gasha_sandbox.Common.Text.{Text, codes, text_eq, text_eq→≡}
use gasha_sandbox.Monitor.Events.{Event}
use gasha_sandbox.Storage.Jobs.{
  Job, Ioc, Ttp, Store, stored, save_job, get_job, save_ioc, save_ttp, get_job-save_job,
  get_job-jobs, get_job-id,
}
use gasha_sandbox.Rules.Hit.{RuleHit}
use gasha_sandbox.Report.Score.{
  severity_score, raw_score, threat_score, threat_level, collect_ttps, collect_iocs,
}
use gasha_sandbox.Report.Generate.{
  ReportData, judged, save_iocs, save_ttps, generate_report, report_for,
}

raw_score_perm : {xs ys : List RuleHit} → Permᴰ xs ys → raw_score xs ≡ raw_score ys
unfolding raw_score
raw_score_perm Permᴰ.nil = refl
raw_score_perm (Permᴰ.cons e p) = rw (e, raw_score_perm p) refl
raw_score_perm (Permᴰ.swap e f) = rw (e, f) (omega arith)
raw_score_perm (Permᴰ.trans p q) = raw_score_perm p ∙ raw_score_perm q

-- The verdict does not depend on the order in which the engines reported their hits.
pub judged_perm :
    (now : ℕ) (job : Job) {xs ys : List RuleHit}
    → Permᴰ xs ys
    → judged now xs job ≡ judged now ys job
unfolding judged threat_score
judged_perm now job p = rw (raw_score_perm p) refl

raw_score-append : (xs ys : List RuleHit) → raw_score (xs ++ ys) ≡ raw_score xs + raw_score ys
unfolding raw_score
raw_score-append [] ys = omega arith
raw_score-append (x ∷ xs) ys = omega (arith, raw_score-append xs ys)

-- The score is at most 100, and further hits never lower it.
pub threat_score_le :
    (xs ys : List RuleHit)
    → (threat_score (xs ++ ys) ≤ 100) × (threat_score xs ≤ threat_score (xs ++ ys))
unfolding threat_score
threat_score_le xs ys = rw (raw_score-append xs ys) (ground arith, ground arith)

-- The level is MALICIOUS from 70 points on, CLEAN below 30 and SUSPICIOUS between.
pub threat_level_lem :
    (hs : List RuleHit)
    → (70 ≤ raw_score hs → threat_level (threat_score hs) ≡ codes "MALICIOUS")
      × (30 ≤ raw_score hs
          → raw_score hs < 70
          → threat_level (threat_score hs) ≡ codes "SUSPICIOUS")
      × (raw_score hs < 30 → threat_level (threat_score hs) ≡ codes "CLEAN")
unfolding threat_level threat_score
threat_level_lem hs = (λ h. ground arith, λ h k. ground arith, λ h. ground arith)

-- As a specification: how many hits have a severity, and what the hits weigh.
abbrev pub rated : Text → List RuleHit → ℕ
rated severity [] = 0
rated severity (h ∷ hs) = (if text_eq h.severity severity then 1 else 0) + rated severity hs

abbrev pub points : List RuleHit → ℕ
points hs =
    5 * length hs
    + 30 * rated (codes "critical") hs
    + 20 * rated (codes "high") hs
    + 10 * rated (codes "medium") hs

severity_score_lem :
    (s : Text)
    → severity_score s
      ≡ 5
        + 30 * (if text_eq s (codes "critical") then 1 else 0)
        + 20 * (if text_eq s (codes "high") then 1 else 0)
        + 10 * (if text_eq s (codes "medium") then 1 else 0)
unfolding severity_score codes text_eq
severity_score_lem s = elim (Bool-cases (text_eq s (codes "critical"))) [
  | inl e ↦ rw (text_eq→≡ s (codes "critical") e) refl
  | inr e ↦ elim (Bool-cases (text_eq s (codes "high"))) [
    | inl f ↦ rw (text_eq→≡ s (codes "high") f) refl
    | inr f ↦ elim (Bool-cases (text_eq s (codes "medium"))) [
      | inl g ↦ rw (text_eq→≡ s (codes "medium") g) refl
      | inr g ↦ rw (e, f, g) refl
    ]
  ]
]

raw_score-points : (hs : List RuleHit) → raw_score hs ≡ points hs
unfolding raw_score
raw_score-points [] = refl
raw_score-points (h ∷ hs) = omega (arith, severity_score_lem h.severity, raw_score-points hs)

-- As a specification: the job with the verdict on it.
abbrev pub verdict_of : ℕ → List RuleHit → Job → Job
verdict_of now hits job = record job {
  threat_score = if leb (points hits) 100 then points hits else 100;
  threat_level =
      if ltb (points hits) 30
      then codes "CLEAN"
      else if ltb (points hits) 70
      then codes "SUSPICIOUS"
      else codes "MALICIOUS";
  completed_at = now;
  status = codes "completed";
}

score_lem : (n p : ℕ) → n ≡ p → (if ltb 100 n then 100 else n) ≡ (if leb p 100 then p else 100)
score_lem n p e = ground arith

level_lem :
    (n p : ℕ)
    → n ≡ p
    → threat_level (if ltb 100 n then 100 else n) ≡ (
        if ltb p 30
        then codes "CLEAN"
        else if ltb p 70
        then codes "SUSPICIOUS"
        else codes "MALICIOUS")
unfolding threat_level
level_lem n p e = ground arith

judged-verdict_of :
    (now : ℕ) (hits : List RuleHit) (job : Job) → judged now hits job ≡ verdict_of now hits job
unfolding judged threat_score
judged-verdict_of now hits job =
    rw
      (
        level_lem (raw_score hits) (points hits) (raw_score-points hits),
        score_lem (raw_score hits) (points hits) (raw_score-points hits),
      )
      refl

save_iocs-jobs : (s : Store) (is : List Ioc) → (save_iocs s is).jobs ≡ s.jobs
unfolding save_ioc
save_iocs-jobs s [] = refl
save_iocs-jobs s (i ∷ is) = save_iocs-jobs (save_ioc s i) is

save_ttps-jobs : (s : Store) (ts : List Ttp) → (save_ttps s ts).jobs ≡ s.jobs
unfolding save_ttp
save_ttps-jobs s [] = refl
save_ttps-jobs s (t ∷ ts) = save_ttps-jobs (save_ttp s t) ts

in_store :
    (now : ℕ) (events : List Event) (job_id : Text) (s : Store) (hits : List RuleHit) (job : Job)
    → job.id ≡ job_id
    → get_job (report_for now events job_id s hits job).0 job_id
      ≡ some (stored (judged now hits job))
unfolding judged
in_store now events job_id s hits job e =
    let saved : Store = save_job s (judged now hits job) in
    let with_iocs : Store = save_iocs saved (collect_iocs job_id events) in
    get_job-jobs (save_ttps with_iocs (collect_ttps job_id hits)) saved job_id (
      save_ttps-jobs with_iocs (collect_ttps job_id hits)
      ∙ save_iocs-jobs saved (collect_iocs job_id events))
    ∙ (ap (get_job saved) (sym e) ∙ get_job-save_job s (judged now hits job))

-- Where the job is in the store, the report is made, and the store then has the job with its verdict:
-- 35 points for a critical hit, 25 for a high one, 15 for a medium one and 5 for any other, at most 100;
-- clean below 30 points, malicious from 70 on and suspicious between; and the status "completed",
-- whatever its status was before.
pub generate_report-get_job :
    (now : ℕ) (events : List Event) (job_id : Text) (s : Store) (hits : List RuleHit) (job : Job)
    → get_job s job_id ≡ some job
    → (r : Store × ReportData) × (generate_report now events job_id s hits ≡ some r)
      × (get_job r.0 job_id ≡ some (stored (verdict_of now hits job)))
unfolding generate_report
generate_report-get_job now events job_id s hits job h = (
  report_for now events job_id s hits job,
  rw h refl,
  in_store now events job_id s hits job (get_job-id s job_id job h)
      ∙ ap (λ j. some (stored j)) (judged-verdict_of now hits job),
)
