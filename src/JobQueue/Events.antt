-- ===== src/JobQueue/Events.antt =====
-- src/job_queue.ts: the methods, and the callbacks of a job's timer, context and task.
use trueform.Base.{
  ℕ, ◌+◌, Bool, true, false, not, Option, none, some, List, [], ◌∷◌, ◌++◌, length, eqb, get_elem?,
  keep_if, if◌then◌else◌,
}
use trueform.Base.Numbers.{Numbers}
use trueform.JobQueue.Jobs.{
  JobState, queued, running, succeeded, failed, canceled, is_running, JobId, same_id, JobError, Job,
  JobQueue, Entry, write, mark_canceled, mark_succeeded, mark_failed,
}
use trueform.JobQueue.Pump.{pump, finish_job_if_needed}
use trueform.JobQueue.Retention.{prune_terminal_jobs}

pub record JobQueueStats : Type 0 where
  pub queued : ℕ
  pub running : ℕ
  pub succeeded : ℕ
  pub failed : ℕ
  pub canceled : ℕ
  pub retained : ℕ
  pub max_retained : ℕ

-- this.jobs.get(id)
unfoldable pub find : JobId → List Entry → Option ℕ
find id [] = none
find id (e ∷ es) = let rest = find id es in if same_id e.id id then some e.handle else rest

-- this.jobs.set(id, job)
unfoldable pub put : Entry → List Entry → List Entry
put e [] = e ∷ []
put e (d ∷ ds) = let rest = put e ds in if same_id d.id e.id then e ∷ ds else d ∷ rest

-- `Number.isFinite(progress) ? Math.max(0, Math.min(1, progress)) : job.record.progress`
unfoldable pub next_progress : {N : Type 0} → Numbers N → N → N → N
next_progress num progress old =
    if num.is_finite progress then num.max num.zero (num.min num.one progress) else old

abbrev pub count_state : JobState → JobQueueStats → JobQueueStats
count_state queued t = record t { queued = t.queued + 1 }
count_state running t = record t { running = t.running + 1 }
count_state succeeded t = record t { succeeded = t.succeeded + 1 }
count_state failed t = record t { failed = t.failed + 1 }
count_state canceled t = record t { canceled = t.canceled + 1 }

module _ {N T : Type 0} (num : Numbers N) where
  abbrev pub new_job : JobId → ℕ → Option ℕ → Job N T
  new_job id now timeout = record {
    id = id;
    state = queued;
    progress = num.zero;
    created_at = now;
    updated_at = now;
    result = none;
    error = none;
    canceled = false;
    aborted = false;
    in_flight = false;
    settled = false;
    completed_at_ms = none;
    timeout_ms = timeout;
    timer = none;
  }

  -- The record that `enqueue` returns is the one of the new job, whose handle is the old length.
  unfoldable pub enqueue : ℕ → Option ℕ → JobQueue N T → JobQueue N T
  unfolding put
  enqueue now timeout s =
      let id : JobId = record { time = now; counter = s.counter + 1 } in
      let h = length s.heap in
      pump now (record s {
        counter = s.counter + 1;
        heap = s.heap ++ new_job id now timeout ∷ [];
        queue = s.queue ++ h ∷ [];
        jobs = put (record { id = id; handle = h }) s.jobs;
      })

  -- ctx.updateProgress
  abbrev pub update_found : ℕ → ℕ → N → Option (Job N T) → JobQueue N T → JobQueue N T
  update_found now h progress none s = s
  update_found now h progress (some job) s =
      if is_running job.state
      then write h
          (λ j. record j { progress = next_progress num progress j.progress; updated_at = now }) s
      else s

  unfoldable pub update_progress : ℕ → ℕ → N → JobQueue N T → JobQueue N T
  unfolding next_progress
  update_progress now h progress s = update_found now h progress (get_elem? s.heap h) s

module _ {N T : Type 0} where
  -- get
  unfoldable pub look_up : ℕ → JobId → JobQueue N T → JobQueue N T × Option (Job N T)
  unfolding find
  look_up now id s =
      let pruned = prune_terminal_jobs now s in
      (pruned, elim (find id pruned.jobs) [ none ↦ none | some h ↦ get_elem? pruned.heap h ])

  abbrev pub cancel_found : ℕ → ℕ → Option (Job N T) → JobQueue N T → JobQueue N T × Bool
  cancel_found now h none s = (s, false)
  cancel_found now h (some job) s = elim job.state [
    | queued ↦
        let marked = write h (mark_canceled now) s in
        (
          prune_terminal_jobs now
              (record marked { queue = keep_if (λ k. not (eqb k h)) marked.queue }),
          true,
        )
    | running ↦
        (prune_terminal_jobs now (finish_job_if_needed now h (write h (mark_canceled now) s)), true)
    | _ ↦ (s, false)
  ]

  abbrev pub cancel_at : ℕ → Option ℕ → JobQueue N T → JobQueue N T × Bool
  cancel_at now none s = (s, false)
  cancel_at now (some h) s = cancel_found now h (get_elem? s.heap h) s

  unfoldable pub cancel : ℕ → JobId → JobQueue N T → JobQueue N T × Bool
  unfolding find
  cancel now id s = cancel_at now (find id s.jobs) s

  -- How a task or its timeout ends a running job.
  abbrev pub settle_found :
      ℕ → ℕ → (Job N T → Job N T) → Option (Job N T) → JobQueue N T → JobQueue N T
  settle_found now h mark none s = s
  settle_found now h mark (some job) s =
      if is_running job.state
      then prune_terminal_jobs now (finish_job_if_needed now h (write h mark s))
      else s

  unfoldable pub settle : ℕ → ℕ → (Job N T → Job N T) → JobQueue N T → JobQueue N T
  settle now h mark s = settle_found now h mark (get_elem? s.heap h) s

  -- .then((result) => …)
  unfoldable pub task_returns : N → ℕ → ℕ → T → JobQueue N T → JobQueue N T
  unfolding settle
  task_returns one now h result s = settle now h (mark_succeeded one now result) s

  -- .catch((err) => …), of a normalised error
  unfoldable pub task_throws : ℕ → ℕ → JobError N → JobQueue N T → JobQueue N T
  unfolding settle
  task_throws now h error s = settle now h (mark_failed now error) s

  -- The callback of `setTimeout`; `error` is `job_timeout`.
  unfoldable pub timer_fires : ℕ → ℕ → JobError N → JobQueue N T → JobQueue N T
  unfolding settle
  timer_fires now h error s =
      settle now h (λ j. mark_failed now error (record j { canceled = true; aborted = true })) s

  abbrev pub count_job : Option (Job N T) → JobQueueStats → JobQueueStats
  count_job none t = t
  count_job (some job) t = count_state job.state t

  unfoldable pub count_jobs : List (Job N T) → List Entry → JobQueueStats → JobQueueStats
  count_jobs heap [] t = t
  count_jobs heap (e ∷ es) t = count_jobs heap es (count_job (get_elem? heap e.handle) t)

  unfoldable pub get_stats : ℕ → JobQueue N T → JobQueue N T × JobQueueStats
  unfolding count_jobs
  get_stats now s =
      let pruned = prune_terminal_jobs now s in
      (
        pruned,
        count_jobs pruned.heap pruned.jobs (record {
          queued = 0;
          running = 0;
          succeeded = 0;
          failed = 0;
          canceled = 0;
          retained = length pruned.jobs;
          max_retained = pruned.max_retained_jobs;
        }),
      )
