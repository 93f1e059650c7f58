-- ===== src/JobQueue/Tests.antt =====
-- src/job_queue.ts: a queue with one slot, a job that succeeds, and a timer that fires after it.
use trueform.Base.{All, ℕ, ◌≡◌, ◌≢◌, refl, true, false, none, some, [], ◌∷◌, get_elem?}
use trueform.Base.Text.{codes}
use trueform.Params.Tests.{naturals}
use trueform.JobQueue.Jobs.{
  running, Entry, succeeded, is_terminal, Job, JobError, JobQueue, JobQueueOptions, new, modify,
  mark_succeeded,
}
use trueform.JobQueue.Pump.{pump, pump_from, run_next, run_job, start_job, finish_job_if_needed}
use trueform.JobQueue.Retention.{prune_terminal_jobs, drop_expired, is_expired, is_done}
use trueform.JobQueue.Events.{enqueue, task_returns, timer_fires, put, get_stats}
use trueform.JobQueue.Pumping.{IsReady}
use trueform.JobQueue.Steps.{starts, steps, enqueues, times_out, Reachable-IsReady}
use trueform.JobQueue.Stats.{total, IsEntry, stats_add_up}
use mathlib.Core.List.{Memᴰ}
use trueform.JobQueue.Kept.{OneHandle, prune_keeps_unfinished}
use trueform.JobQueue.Final.{ended_job_is_final}
use trueform.JobQueue.Outcomes.{Holds}

abbrev options : JobQueueOptions
options = record {
  max_concurrent = some 1;
  default_timeout_ms = some 100;
  max_retained_jobs = none;
  terminal_retention_ms = none;
}

abbrev empty : JobQueue ℕ ℕ
empty = new options

abbrev one_job : JobQueue ℕ ℕ
one_job = enqueue naturals 10 none empty

abbrev two_jobs : JobQueue ℕ ℕ
two_jobs = enqueue naturals 20 none one_job

abbrev first_done : JobQueue ℕ ℕ
first_done = task_returns 1 30 0 42 two_jobs

abbrev timeout : JobError ℕ
timeout = record { code = codes "job_timeout"; message = codes "Job timed out"; details = none }

abbrev job : Job ℕ ℕ
job = record {
  id = record { time = 10; counter = 1 };
  state = succeeded;
  progress = 1;
  created_at = 10;
  updated_at = 30;
  result = some 42;
  error = none;
  canceled = false;
  aborted = false;
  in_flight = true;
  settled = true;
  completed_at_ms = some 30;
  timeout_ms = none;
  timer = none;
}

second_waits : two_jobs.queue ≡ 1 ∷ []
unfolding enqueue new pump pump_from run_next run_job modify start_job put
second_waits = refl

second_runs : first_done.queue ≡ []
unfolding enqueue new pump pump_from run_next run_job modify start_job put task_returns
    finish_job_if_needed prune_terminal_jobs mark_succeeded drop_expired is_expired is_done
second_runs = refl

job_found : get_elem? first_done.heap 0 ≡ some job
unfolding enqueue new pump pump_from run_next run_job modify start_job put task_returns
    finish_job_if_needed prune_terminal_jobs mark_succeeded drop_expired is_expired is_done
job_found = refl

job_ended : is_terminal job.state ≡ true
unfolding is_terminal
job_ended = refl

Reachable-IsReady_example : IsReady two_jobs
Reachable-IsReady_example =
    Reachable-IsReady naturals options two_jobs
      (steps (steps starts (enqueues 10 none empty)) (enqueues 20 none one_job))

ended_job_is_final_example : Holds job (timer_fires 40 0 timeout first_done).heap 0
ended_job_is_final_example =
    ended_job_is_final naturals first_done (timer_fires 40 0 timeout first_done) 0 job
      (times_out 40 0 timeout first_done) job_found job_ended

first_done_entries : All (IsEntry first_done.heap) first_done.jobs
unfolding enqueue new pump pump_from run_next run_job modify start_job put task_returns
    finish_job_if_needed prune_terminal_jobs mark_succeeded drop_expired is_expired is_done
first_done_entries = ((_, refl), ((_, refl), tt))

stats_add_up_example : total (get_stats 50 first_done).1 ≡ (get_stats 50 first_done).1.retained
stats_add_up_example = stats_add_up 50 first_done first_done_entries

-- A job that is done and one that is running, with room for one.
abbrev waiting_job : Job ℕ ℕ
waiting_job = record job {
  id = record { time = 20; counter = 2 };
  state = running;
  settled = false;
  result = none;
  completed_at_ms = none;
}

abbrev crowded : JobQueue ℕ ℕ
crowded = record {
  counter = 2;
  heap = job ∷ waiting_job ∷ [];
  queue = [];
  jobs = record { id = job.id; handle = 0 } ∷ record { id = waiting_job.id; handle = 1 } ∷ [];
  active = 1;
  max_concurrent = 1;
  default_timeout_ms = none;
  max_retained_jobs = 0;
  terminal_retention_ms = 5;
}

abbrev waiting_entry : Entry
waiting_entry = record { id = waiting_job.id; handle = 1 }

waiting_at : get_elem? crowded.heap 1 ≡ some waiting_job
waiting_at = refl

waiting_not_done : is_done waiting_job ≡ false
unfolding is_done is_terminal
waiting_not_done = refl

false_is_true : false ≢ true
false_is_true e = cc

one_handle : OneHandle waiting_entry crowded.jobs
one_handle = ((λ same. absurd (false_is_true same)), ((λ same. refl), tt))

prune_keeps_unfinished_example : Memᴰ waiting_entry (prune_terminal_jobs 100 crowded).jobs
prune_keeps_unfinished_example =
    prune_keeps_unfinished 100 crowded waiting_entry waiting_job (Memᴰ.tail (Memᴰ.head refl))
      one_handle waiting_at waiting_not_done
