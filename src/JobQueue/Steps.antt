-- ===== src/JobQueue/Steps.antt =====
-- src/job_queue.ts: the queue's reachable states. Methods are called by clients; tasks and timers
-- call back at any time, and any number of times.
use trueform.Base.{ℕ, Option}
use trueform.Base.Numbers.{Numbers}
use trueform.JobQueue.Jobs.{
  JobId, JobError, JobQueue, JobQueueOptions, mark_succeeded, mark_failed, new,
}
use trueform.JobQueue.Events.{
  enqueue, update_progress, look_up, cancel, task_returns, task_throws, timer_fires, get_stats,
}
use trueform.JobQueue.Pumping.{IsReady}
use trueform.JobQueue.Finishing.{mark_succeeded-IsMark, mark_failed-IsMark, timed_out-IsMark}
use trueform.JobQueue.Ready.{
  prune-IsReady, new-IsReady, settle-IsReady, cancel-IsReady, update-IsReady, enqueue-IsReady,
}

-- One call of a method or of a callback.
pub data Step {N T : Type 0} (num : Numbers N) : JobQueue N T → JobQueue N T → Type 0 where
  enqueues :
      (now : ℕ) (timeout : Option ℕ) (s : JobQueue N T) → Step num s (enqueue num now timeout s)
  updates :
      (now h : ℕ) (progress : N) (s : JobQueue N T)
      → Step num s (update_progress num now h progress s)
  looks_up : (now : ℕ) (id : JobId) (s : JobQueue N T) → Step num s (look_up now id s).0
  cancels : (now : ℕ) (id : JobId) (s : JobQueue N T) → Step num s (cancel now id s).0
  returns :
      (now h : ℕ) (result : T) (s : JobQueue N T) → Step num s (task_returns num.one now h result s)
  throws :
      (now h : ℕ) (error : JobError N) (s : JobQueue N T) → Step num s (task_throws now h error s)
  times_out :
      (now h : ℕ) (error : JobError N) (s : JobQueue N T) → Step num s (timer_fires now h error s)
  counts : (now : ℕ) (s : JobQueue N T) → Step num s (get_stats now s).0

pub data Reachable {N T : Type 0} (num : Numbers N) (options : JobQueueOptions)
    : JobQueue N T → Type 0 where
  starts : Reachable num options (new options)
  steps : {s t : JobQueue N T} → Reachable num options s → Step num s t → Reachable num options t

module _ {N T : Type 0} where
  Step-IsReady : (num : Numbers N) (s t : JobQueue N T) → Step num s t → IsReady s → IsReady t
  unfolding look_up get_stats task_returns task_throws timer_fires
  Step-IsReady num _ _ (enqueues now timeout s) r = enqueue-IsReady num now timeout s r
  Step-IsReady num _ _ (updates now h progress s) r = update-IsReady num now h progress s r
  Step-IsReady num _ _ (looks_up now id s) r = prune-IsReady now s r
  Step-IsReady num _ _ (cancels now id s) r = cancel-IsReady now id s r
  Step-IsReady num _ _ (returns now h result s) r =
      settle-IsReady (mark_succeeded num.one now result) now h s
        (mark_succeeded-IsMark num.one now result) r
  Step-IsReady num _ _ (throws now h error s) r =
      settle-IsReady (mark_failed now error) now h s (mark_failed-IsMark now error) r
  Step-IsReady num _ _ (times_out now h error s) r =
      settle-IsReady _ now h s (timed_out-IsMark now error) r
  Step-IsReady num _ _ (counts now s) r = prune-IsReady now s r

  -- In every state that calls and callbacks reach, the count of active jobs is the number of jobs
  -- whose task is awaited and at most the limit, the queue is the queued jobs in the order in which
  -- they were enqueued, each job's flags agree with its state, and a job waits only if every slot is
  -- taken.
  pub Reachable-IsReady :
      (num : Numbers N) (options : JobQueueOptions) (s : JobQueue N T)
      → Reachable num options s
      → IsReady s
  Reachable-IsReady num options s starts = new-IsReady options
  Reachable-IsReady num options t (steps {s = s} before step) =
      Step-IsReady num s t step (Reachable-IsReady num options s before)
