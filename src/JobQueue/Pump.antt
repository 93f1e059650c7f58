-- ===== src/JobQueue/Pump.antt =====
-- src/job_queue.ts: `pump`, `runJob` and `finishJobIfNeeded`.
use trueform.Base.{
  ℕ, ◌+◌, ◌-◌, Bool, true, false, not, ◌||◌, Option, none, some, List, [], ◌∷◌, ltb, get_elem?,
  if◌then◌else◌,
}
use trueform.JobQueue.Jobs.{running, is_queued, Job, JobQueue, write, positive}

module _ {N T : Type 0} where
  -- `job.timeoutMs ?? this.defaultTimeoutMs`, if it is above 0
  abbrev pub timeout_of : Job N T → Option ℕ → Option ℕ
  timeout_of job default = elim job.timeout_ms [
    | none ↦ positive default
    | some n ↦ positive (some n)
  ]

  -- What `runJob` writes into a job. Its task starts in a later microtask.
  unfoldable pub start_job : ℕ → Option ℕ → Job N T → Job N T
  start_job now default job = record job {
    in_flight = true;
    state = running;
    updated_at = now;
    timer = elim (timeout_of job default) [ none ↦ job.timer | some n ↦ some n ];
  }

  abbrev pub run_found : ℕ → ℕ → Option (Job N T) → JobQueue N T → JobQueue N T
  run_found now h none s = s
  run_found now h (some job) s =
      if is_queued job.state
      then record (write h (start_job now s.default_timeout_ms) s) { active = s.active + 1 }
      else s

  unfoldable pub run_job : ℕ → ℕ → JobQueue N T → JobQueue N T
  run_job now h s = run_found now h (get_elem? s.heap h) s

  abbrev pub is_canceled : Option (Job N T) → Bool
  is_canceled none = false
  is_canceled (some job) = job.canceled

  -- `if (next.canceled) continue; this.runJob(next);`
  unfoldable pub run_next : ℕ → ℕ → JobQueue N T → JobQueue N T
  run_next now h s = if is_canceled (get_elem? s.heap h) then s else run_job now h s

  -- The loop, over the handles that are left in the queue.
  unfoldable pub pump_from : ℕ → List ℕ → JobQueue N T → JobQueue N T
  pump_from now [] s = s
  pump_from now (h ∷ rest) s = elim (ltb s.active s.max_concurrent) [
    | true ↦ pump_from now rest (run_next now h (record s { queue = rest }))
    | false ↦ s
  ]

  unfoldable pub pump : ℕ → JobQueue N T → JobQueue N T
  unfolding pump_from
  pump now s = pump_from now s.queue s

  abbrev pub finish_found : ℕ → ℕ → Option (Job N T) → JobQueue N T → JobQueue N T
  finish_found now h none s = s
  finish_found now h (some job) s =
      if not job.in_flight || job.settled
      then s
      else pump now
          (record (write h (λ j. record j { settled = true }) s) { active = s.active - 1 })

  -- `clearTimeout` first; `Math.max(0, active - 1)` is the subtraction of ℕ.
  unfoldable pub finish_job_if_needed : ℕ → ℕ → JobQueue N T → JobQueue N T
  finish_job_if_needed now h s =
      let cleared = write h (λ j. record j { timer = none }) s in
      finish_found now h (get_elem? cleared.heap h) cleared
