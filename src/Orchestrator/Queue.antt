-- ===== src/Orchestrator/Queue.antt =====
-- pkg/orchestrator/queue.go: the queue of jobs, whose lock makes each operation one step.
use gasha_sandbox.Common.{
  ℕ, ◌≡◌, refl, Option, none, some, List, [], ◌∷◌, ◌++◌, ap, length, append_assoc, append-nil, sym,
  ◌∙◌,
}
use gasha_sandbox.Storage.Jobs.{Job}

pub record JobQueue : Type 0 where
  pub jobs : List Job

abbrev pub new_job_queue : JobQueue
new_job_queue = record { jobs = [] }

unfoldable pub push : JobQueue → Job → JobQueue
push q job = record { jobs = q.jobs ++ job ∷ [] }

-- `none` waits: the queue is empty and no step is taken.
abbrev pop_from : List Job → Option (Job × JobQueue)
pop_from [] = none
pop_from (job ∷ jobs) = some (job, record { jobs = jobs })

unfoldable pub pop : JobQueue → Option (Job × JobQueue)
pop q = pop_from q.jobs

unfoldable pub queue_length : JobQueue → ℕ
queue_length q = length q.jobs

unfoldable pub push_all : JobQueue → List Job → JobQueue
unfolding push
push_all q [] = q
push_all q (j ∷ js) = push_all (push q j) js

abbrev after : Job → Option (List Job × JobQueue) → Option (List Job × JobQueue)
after j none = none
after j (some (js, q)) = some (j ∷ js, q)

abbrev and_then :
    Option (Job × JobQueue)
    → (JobQueue → Option (List Job × JobQueue))
    → Option (List Job × JobQueue)
and_then none rest = none
and_then (some (j, q)) rest = after j (rest q)

-- As many jobs as there are in the list are taken, or the queue runs dry.
unfoldable pub pop_all : List Job → JobQueue → Option (List Job × JobQueue)
unfolding pop
pop_all [] q = some ([], q)
pop_all (n ∷ ns) q = and_then (pop q) (pop_all ns)

push_all-jobs : (q : JobQueue) (js : List Job) → (push_all q js).jobs ≡ q.jobs ++ js
unfolding push_all push
push_all-jobs q [] = sym (append-nil q.jobs)
push_all-jobs q (j ∷ js) = push_all-jobs (push q j) js ∙ append_assoc q.jobs (j ∷ []) js

pop_all-jobs :
    (js rest : List Job)
    → pop_all js (record { jobs = js ++ rest }) ≡ some (js, record { jobs = rest })
unfolding pop_all pop
pop_all-jobs [] rest = refl
pop_all-jobs (j ∷ js) rest = rw (pop_all-jobs js rest) refl

-- Jobs leave an empty queue in the order in which they were pushed, and it is empty again.
pub pop_all-push_all :
    (js : List Job) → pop_all js (push_all new_job_queue js) ≡ some (js, new_job_queue)
pop_all-push_all js =
    let same : push_all new_job_queue js ≡ record { jobs = js } =
      ap (λ l. record { jobs = l }) (push_all-jobs new_job_queue js) in
    rw same (ap (λ l. pop_all js (record { jobs = l })) (sym (append-nil js)) ∙ pop_all-jobs js [])
