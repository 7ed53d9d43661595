-- ===== src/Orchestrator/Lifecycle.antt =====
-- How a job ends: the status that the store holds after `executeJob`.
use gasha_sandbox.Common.{
  false, All, append-nil, ℕ, ◌≡◌, refl, Bool, some, List, ◌∷◌, ◌++◌, if◌then◌else◌, ◌⊎◌, inl, inr,
}
use gasha_sandbox.Common.Text.{codes, text_eq}
use gasha_sandbox.Common.Ints.{ℤ}
use gasha_sandbox.Monitor.Events.{Event}
use gasha_sandbox.Storage.Jobs.{Job, Store, stored, save_job, get_job, get_job-save_job}
use gasha_sandbox.Report.Verdict.{verdict_of, generate_report-get_job}
use gasha_sandbox.Config.Types.{Config}
use gasha_sandbox.Orchestrator.Jobs.{
  Rules, MemoryFinding, Run, create_failed, monitor_failed, ended, Times, finished, panicked,
  inspect_panics, Handled, fail_job, finish_job, execute_job, started_job,
}
use gasha_sandbox.Orchestrator.Expected.{
  run_hits, IsSection, stand_in, section_hits, section_silent, other_emitted,
  consumer_hits-expected,
}

-- The job as it stands when the report is asked for.
abbrev pub over : Times → Bool → Job → Job
over times timed_out job = record (started_job times.started job) {
  completed_at = times.completed;
  status = if timed_out then codes "timeout" else codes "completed";
}

module _ (rules : Rules) (cfg : Config) (times : Times) (recorded : List Event) (s : Store)
    (job : Job) where
  -- A job whose process or telemetry does not start ends in the store with the status "failed".
  pub execute_job-failed :
      (run : Run)
      → (run ≡ create_failed) ⊎ (run ≡ monitor_failed)
      → (t : Store) × (execute_job rules cfg times recorded s job run ≡ finished t)
        × (get_job t job.id
            ≡ some (
                stored (record (started_job times.started job) {
                  completed_at = times.completed;
                  status = codes "failed";
                })))
  unfolding execute_job fail_job
  execute_job-failed run (inl e) =
      let started : Store = save_job s (started_job times.started job) in
      (
        fail_job times.completed started (started_job times.started job),
        rw e refl,
        get_job-save_job started _,
      )
  execute_job-failed run (inr e) =
      let started : Store = save_job s (started_job times.started job) in
      (
        fail_job times.completed started (started_job times.started job),
        rw e refl,
        get_job-save_job started _,
      )

  -- A run that ends, and in whose memory nothing but sections of images is found, leaves the job with
  -- its verdict over the hits of the file, of what the consumer of the events has handled by then, each
  -- engine where it is enabled, and of the stand-in for the memory, and with the status "completed"
  -- even where the timeout ended it.
  pub execute_job-ended :
      (pid : ℕ) (timed_out : Bool) (exit_code : ℤ) (handled : List Handled)
      (fs : List MemoryFinding)
      → All IsSection fs
      → (t : Store) × (execute_job rules cfg times recorded s job
            (ended pid timed_out exit_code handled fs)
          ≡ finished t)
        × (get_job t job.id
            ≡ some (
                stored (
                  verdict_of times.reported
                    (run_hits rules cfg job pid timed_out exit_code handled fs)
                    (stored (over times timed_out job)))))
  unfolding execute_job finish_job inspect_panics
  execute_job-ended pid timed_out exit_code handled fs sections =
      let started : Store = save_job s (started_job times.started job) in
      let saved : Store = save_job started (over times timed_out job) in
      let r =
        generate_report-get_job times.reported recorded job.id saved
          (run_hits rules cfg job pid timed_out exit_code handled fs)
          (stored (over times timed_out job))
          (get_job-save_job started (over times timed_out job)) in
      (
        r.0.0,
        rw
            (
              section_silent fs sections,
              section_hits rules pid fs sections,
              stand_in rules pid timed_out exit_code fs,
              consumer_hits-expected rules cfg handled,
              append-nil,
              r.1,
            )
            refl,
        r.2,
      )

  -- A run panics where the memory has any finding but a section of an image, because the finding is
  -- sent on the channel that is closed by then; the job stays "running" in the store.
  pub execute_job-panics :
      (pid : ℕ) (timed_out : Bool) (exit_code : ℤ) (handled : List Handled)
      (before after : List MemoryFinding) (f : MemoryFinding)
      → text_eq f.finding_id (codes "PESection") ≡ false
      → (t : Store) × (execute_job rules cfg times recorded s job
            (ended pid timed_out exit_code handled (before ++ f ∷ after))
          ≡ panicked t)
        × (get_job t job.id
            ≡ some (stored (record job { started_at = times.started; status = codes "running" })))
  unfolding execute_job finish_job inspect_panics
  execute_job-panics pid timed_out exit_code handled before after f other = (
    save_job s (started_job times.started job),
    rw (other_emitted before after f other) refl,
    get_job-save_job _ _,
  )
