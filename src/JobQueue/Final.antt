-- ===== src/JobQueue/Final.antt =====
-- src/job_queue.ts: a job that has ended keeps its outcome.
use trueform.Base.{
  ℕ, zero, suc, ◌+◌, ◌≡◌, inl, inr, ap, true, Option, some, List, [], ◌∷◌, ◌++◌, get_elem?,
  Bool-cases, Option-cases,
}
use trueform.Base.Numbers.{Numbers}
use trueform.JobQueue.Jobs.{
  is_queued, is_running, is_terminal, Job, JobId, JobQueue, modify, write, mark_canceled,
}
use trueform.JobQueue.Retention.{prune_terminal_jobs}
use trueform.JobQueue.Events.{
  find, enqueue, update_progress, look_up, cancel, settle, task_returns, task_throws, timer_fires,
  get_stats, new_job,
}
use trueform.JobQueue.Steps.{
  Step, enqueues, updates, looks_up, cancels, returns, throws, times_out, counts,
}
use trueform.JobQueue.Ready.{State-cases}
use trueform.JobQueue.Outcomes.{
  Holds-later, Holds, Keeps, Keeps-all, Keeps-both, not_ended, queued_not_ended, running_not_ended,
  pump-Keeps, finish-Keeps,
}

module _ {N T : Type 0} where
  settle-Keeps :
      (mark : Job N T → Job N T) (now h : ℕ) (s : JobQueue N T)
      → Keeps s.heap (settle now h mark s).heap
  unfolding settle prune_terminal_jobs
  settle-Keeps mark now h s = elim (Option-cases (get_elem? s.heap h)) [
    | inl gone ↦ rw gone (Keeps-all s.heap)
    | inr found ↦ rw found.1 (elim (Bool-cases (is_running found.0.state)) [
      | inl active ↦ rw active (
          Keeps-both s.heap (modify h mark s.heap) _
            (not_ended mark h s.heap found.0 found.1 (running_not_ended found.0.state active))
            (finish-Keeps now h (write h mark s)))
      | inr idle ↦ rw idle (Keeps-all s.heap)
    ])
  ]

  cancel-Keeps : (now : ℕ) (id : JobId) (s : JobQueue N T) → Keeps s.heap (cancel now id s).0.heap
  unfolding cancel prune_terminal_jobs
  cancel-Keeps now id s = elim (Option-cases (find id s.jobs)) [
    | inl unknown ↦ rw unknown (Keeps-all s.heap)
    | inr known ↦ rw known.1 (elim (Option-cases (get_elem? s.heap known.0)) [
      | inl gone ↦ rw gone (Keeps-all s.heap)
      | inr found ↦ rw found.1 (elim (State-cases found.0.state) [
        | inl waits ↦ rw waits (
            not_ended (mark_canceled now) known.0 s.heap found.0 found.1
              (queued_not_ended found.0.state (ap is_queued waits)))
        | inr (inl runs) ↦ rw runs (
            Keeps-both s.heap (modify known.0 (mark_canceled now) s.heap) _
              (not_ended (mark_canceled now) known.0 s.heap found.0 found.1
                (running_not_ended found.0.state (ap is_running runs)))
              (finish-Keeps now known.0 (write known.0 (mark_canceled now) s)))
        | inr (inr (inl done)) ↦ rw done (Keeps-all s.heap)
        | inr (inr (inr (inl done))) ↦ rw done (Keeps-all s.heap)
        | inr (inr (inr (inr done))) ↦ rw done (Keeps-all s.heap)
      ])
    ])
  ]

  append-Keeps : (heap : List (Job N T)) (x : Job N T) → Keeps heap (heap ++ x ∷ [])
  unfolding Keeps
  append-Keeps [] x h j g t = cc
  append-Keeps (y ∷ heap) x zero j g t = Keeps-all (y ∷ heap ++ x ∷ []) zero j g t
  append-Keeps (y ∷ heap) x (suc h) j g t =
      Holds-later j y (heap ++ x ∷ []) h (append-Keeps heap x h j g t)

  update-Keeps :
      (num : Numbers N) (now h : ℕ) (progress : N) (s : JobQueue N T)
      → Keeps s.heap (update_progress num now h progress s).heap
  unfolding update_progress
  update-Keeps num now h progress s = elim (Option-cases (get_elem? s.heap h)) [
    | inl gone ↦ rw gone (Keeps-all s.heap)
    | inr found ↦ rw found.1 (elim (Bool-cases (is_running found.0.state)) [
      | inl active ↦
          rw active (not_ended _ h s.heap found.0 found.1 (running_not_ended found.0.state active))
      | inr idle ↦ rw idle (Keeps-all s.heap)
    ])
  ]

  enqueue-Keeps :
      (num : Numbers N) (now : ℕ) (timeout : Option ℕ) (s : JobQueue N T)
      → Keeps s.heap (enqueue num now timeout s).heap
  unfolding enqueue
  enqueue-Keeps num now timeout s =
      Keeps-both s.heap
        (s.heap ++ new_job num (record { time = now; counter = s.counter + 1 }) now timeout ∷ []) _
        (append-Keeps s.heap _) (pump-Keeps now _)

  Step-Keeps : (num : Numbers N) (s t : JobQueue N T) → Step num s t → Keeps s.heap t.heap
  unfolding look_up get_stats task_returns task_throws timer_fires prune_terminal_jobs
  Step-Keeps num _ _ (enqueues now timeout s) = enqueue-Keeps num now timeout s
  Step-Keeps num _ _ (updates now h progress s) = update-Keeps num now h progress s
  Step-Keeps num _ _ (looks_up now id s) = Keeps-all s.heap
  Step-Keeps num _ _ (cancels now id s) = cancel-Keeps now id s
  Step-Keeps num _ _ (returns now h result s) = settle-Keeps _ now h s
  Step-Keeps num _ _ (throws now h error s) = settle-Keeps _ now h s
  Step-Keeps num _ _ (times_out now h error s) = settle-Keeps _ now h s
  Step-Keeps num _ _ (counts now s) = Keeps-all s.heap

  -- A job that has ended in any state has, after any call or callback, the same state, progress,
  -- result and error: neither a late task nor a timer nor a second cancel rewrites it.
  pub ended_job_is_final :
      (num : Numbers N) (s t : JobQueue N T) (h : ℕ) (j : Job N T)
      → Step num s t
      → get_elem? s.heap h ≡ some j
      → is_terminal j.state ≡ true
      → Holds j t.heap h
  unfolding Keeps
  ended_job_is_final num s t h j step found done = Step-Keeps num s t step h j found done
