-- ===== src/Storage/Jobs.antt =====
-- pkg/storage/sqlite.go: the tables of jobs, indicators and techniques. A table is the list of its
-- rows; the database is taken to answer every statement.
use gasha_sandbox.Common.{
  ℕ, ◌*◌, ◌/◌, ◌≡◌, refl, false, Option, none, some, List, [], ◌∷◌, ◌++◌, if◌then◌else◌, Bool-cases,
  inl, inr, ap, subst, some_cancel,
}
use gasha_sandbox.Common.Text.{Text, text_eq, text_eq_refl, text_eq_iff}

pub record Job : Type 0 where
  pub id : Text
  pub file_path : Text
  pub file_hash_sha256 : Text
  pub file_type : Text
  pub submitted_at : ℕ
  pub started_at : ℕ
  pub completed_at : ℕ
  pub status : Text
  pub threat_score : ℕ
  pub threat_level : Text
  pub report_path : Text

pub record Ioc : Type 0 where
  pub job_id : Text
  pub ioc_type : Text
  pub value : Text
  pub context : Text
  pub first_seen : ℕ
  pub confidence : ℕ

pub record Ttp : Type 0 where
  pub job_id : Text
  pub technique_id : Text
  pub technique_name : Text
  pub tactic : Text
  pub evidence_ids : Text
  pub confidence : ℕ
  pub severity : ℕ

pub record Store : Type 0 where
  pub jobs : List Job
  pub iocs : List Ioc
  pub ttps : List Ttp

-- Formatted by `time.RFC3339` and parsed, a time of nanoseconds keeps its whole seconds.
abbrev pub whole_seconds : ℕ → ℕ
whole_seconds t = t / 1000000000 * 1000000000

abbrev pub stored : Job → Job
stored j = record j {
  submitted_at = whole_seconds j.submitted_at;
  started_at = whole_seconds j.started_at;
  completed_at = whole_seconds j.completed_at;
}

-- The rows with another primary key.
unfoldable without : Text → List Job → List Job
without id [] = []
without id (j ∷ js) = let rest = without id js in if text_eq j.id id then rest else j ∷ rest

unfoldable job_in : Text → List Job → Option Job
job_in id [] = none
job_in id (j ∷ js) = let rest = job_in id js in if text_eq j.id id then some j else rest

-- INSERT OR REPLACE INTO jobs
unfoldable pub save_job : Store → Job → Store
unfolding without
save_job s j = record s { jobs = stored j ∷ without j.id s.jobs }

-- SELECT … FROM jobs WHERE id = ?
unfoldable pub get_job : Store → Text → Option Job
unfolding job_in
get_job s id = job_in id s.jobs

-- INSERT INTO iocs and ttp_mappings
unfoldable pub save_ioc : Store → Ioc → Store
save_ioc s i = record s { iocs = s.iocs ++ i ∷ [] }

unfoldable pub save_ttp : Store → Ttp → Store
save_ttp s t = record s { ttps = s.ttps ++ t ∷ [] }

-- A job that was saved is read back, its times in whole seconds.
pub get_job-save_job : (s : Store) (j : Job) → get_job (save_job s j) j.id ≡ some (stored j)
unfolding get_job save_job
get_job-save_job s j = rw (text_eq_refl j.id) refl

other_rows :
    (id other : Text) (js : List Job)
    → text_eq id other ≡ false
    → job_in other (without id js) ≡ job_in other js
unfolding without job_in
other_rows id other [] h = refl
other_rows id other (j ∷ js) h = elim (Bool-cases (text_eq j.id id)) [
  | inl e ↦ rw (e, (text_eq_iff j.id id).0 e, h) (other_rows id other js h)
  | inr e ↦ rw e (ap (λ r. if text_eq j.id other then some j else r) (other_rows id other js h))
]

-- Saving a job leaves every other job as it is.
pub get_job-save_job_other :
    (s : Store) (j : Job) (id : Text)
    → text_eq j.id id ≡ false
    → get_job (save_job s j) id ≡ get_job s id
unfolding get_job save_job
get_job-save_job_other s j id h = rw h (other_rows j.id id s.jobs h)

-- The job that is found has the id that was asked for.
pub get_job-id : (s : Store) (id : Text) (j : Job) → get_job s id ≡ some j → j.id ≡ id
unfolding get_job
get_job-id s id j h = go s.jobs h
  where
    go : (js : List Job) → job_in id js ≡ some j → j.id ≡ id
    go [] h = cc
    go (k ∷ js) h = elim (Bool-cases (text_eq k.id id)) [
      | inl e ↦ subst (λ j. j.id ≡ id) (some_cancel (rw e at h)) ((text_eq_iff k.id id).0 e)
      | inr e ↦ go js (rw e at h)
    ]

-- A look-up reads the table of jobs only.
pub get_job-jobs : (s t : Store) (id : Text) → s.jobs ≡ t.jobs → get_job s id ≡ get_job t id
unfolding get_job
get_job-jobs s t id e = ap (job_in id) e
