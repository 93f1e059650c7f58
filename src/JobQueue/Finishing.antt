-- ===== src/JobQueue/Finishing.antt =====
-- src/job_queue.ts: a running job that is marked as ended, and `finishJobIfNeeded` on it.
use trueform.Base.{
  ℕ, ◌+◌, ◌-◌, ◌≤◌, ◌≡◌, refl, true, false, none, some, List, get_elem?, count_if, arith, sym, ◌∙◌,
  subst,
}
use trueform.JobQueue.Jobs.{
  is_queued, is_running, is_terminal, Job, JobError, JobQueue, modify, write, is_busy,
  mark_canceled, mark_succeeded, mark_failed,
}
use trueform.JobQueue.Pump.{pump, finish_job_if_needed}
use trueform.JobQueue.Handles.{
  get_elem?-modify_same, count_if-modify, queued_from-modify_same, modify-modify,
}
use trueform.JobQueue.Invariant.{is_sound, is_some, every-get, every-modify, IsConsistent}
use trueform.JobQueue.Pumping.{IsReady, pump-IsReady}

pred_le : (a b : ℕ) → a ≤ b → a - 1 ≤ b
pred_le a b h = omega arith

module _ {N T : Type 0} where
  -- What is written into a job that has ended: the mark, and that its task is no longer awaited.
  abbrev pub ended : (Job N T → Job N T) → Job N T → Job N T
  ended mark j = record (mark j) { timer = none; settled = true }

-- A mark ends a job, and leaves it to `finishJobIfNeeded` to count it out.
pub record IsMark {N T : Type 0} (mark : Job N T → Job N T) : Type 0 where
  pub in_flight : (j : Job N T) → (mark j).in_flight ≡ j.in_flight
  pub settled : (j : Job N T) → (mark j).settled ≡ j.settled
  pub ends : (j : Job N T) → is_terminal (mark j).state ≡ true
  pub timed : (j : Job N T) → is_some (mark j).completed_at_ms ≡ true

module _ {N T : Type 0} where
  pub mark_canceled-IsMark : (now : ℕ) → IsMark {N = N} {T = T} (mark_canceled now)
  unfolding mark_canceled is_terminal
  mark_canceled-IsMark now = record {
    in_flight = λ j. refl;
    settled = λ j. refl;
    ends = λ j. refl;
    timed = λ j. refl;
  }

  pub mark_succeeded-IsMark :
      (one : N) (now : ℕ) (result : T) → IsMark (mark_succeeded one now result)
  unfolding mark_succeeded is_terminal
  mark_succeeded-IsMark one now result = record {
    in_flight = λ j. refl;
    settled = λ j. refl;
    ends = λ j. refl;
    timed = λ j. refl;
  }

  pub mark_failed-IsMark :
      (now : ℕ) (error : JobError N) → IsMark {N = N} {T = T} (mark_failed now error)
  unfolding mark_failed is_terminal
  mark_failed-IsMark now error = record {
    in_flight = λ j. refl;
    settled = λ j. refl;
    ends = λ j. refl;
    timed = λ j. refl;
  }

  pub timed_out-IsMark :
      (now : ℕ) (error : JobError N)
      → IsMark {N = N} {T = T}
          (λ j. mark_failed now error (record j { canceled = true; aborted = true }))
  unfolding mark_failed is_terminal
  timed_out-IsMark now error = record {
    in_flight = λ j. refl;
    settled = λ j. refl;
    ends = λ j. refl;
    timed = λ j. refl;
  }

  running-busy :
      (j : Job N T)
      → is_sound j ≡ true
      → is_running j.state ≡ true
      → (j.in_flight ≡ true) × (j.settled ≡ false)
  unfolding is_sound
  running-busy j s r = ground arith

  terminal_sound :
      (j : Job N T)
      → is_terminal j.state ≡ true
      → is_some j.completed_at_ms ≡ true
      → j.settled ≡ true
      → is_sound j ≡ true
  unfolding is_sound is_terminal
  terminal_sound j t c s = ground arith

  terminal-queued : (j : Job N T) → is_terminal j.state ≡ true → is_queued j.state ≡ false
  unfolding is_terminal
  terminal-queued j t = ground arith

  running-queued : (j : Job N T) → is_running j.state ≡ true → is_queued j.state ≡ false
  running-queued j r = ground arith

  settled-busy : (j : Job N T) → j.settled ≡ true → is_busy j ≡ false
  settled-busy j s = ground arith

  busy_of : (j : Job N T) → j.in_flight ≡ true → j.settled ≡ false → is_busy j ≡ true
  busy_of j i n = ground arith

  finished-count :
      (f : Job N T → Job N T) (h : ℕ) (heap : List (Job N T)) (job : Job N T)
      → get_elem? heap h ≡ some job
      → is_busy job ≡ true
      → is_busy (f job) ≡ false
      → count_if is_busy (modify h f heap) + 1 ≡ count_if is_busy heap
  finished-count f h heap job g on off =
      let changed = count_if-modify f is_busy h heap g in omega (arith, rw (on, off) at changed)

  -- On a busy job the whole call is one write and a pump.
  finish-eq :
      (mark : Job N T → Job N T) (now h : ℕ) (s : JobQueue N T) (job : Job N T)
      → get_elem? s.heap h ≡ some job
      → (mark job).in_flight ≡ true
      → (mark job).settled ≡ false
      → finish_job_if_needed now h (write h mark s)
        ≡ pump now (record (write h (ended mark) s) { active = s.active - 1 })
  unfolding finish_job_if_needed
  finish-eq mark now h s job g i n =
      let clear : Job N T → Job N T = λ j. record j { timer = none } in
      let settle : Job N T → Job N T = λ j. record j { settled = true } in
      let marked = get_elem?-modify_same mark h s.heap g in
      let cleared = get_elem?-modify_same clear h (modify h mark s.heap) marked in
      let once = modify-modify clear mark h s.heap in
      let twice = modify-modify settle (λ j. clear (mark j)) h s.heap in
      rw (cleared, i, n, once, twice) refl

  -- A running job that ends gives its slot back.
  pub finish-IsReady :
      (mark : Job N T → Job N T) (now h : ℕ) (s : JobQueue N T) (job : Job N T)
      → IsMark mark
      → IsConsistent s
      → get_elem? s.heap h ≡ some job
      → is_running job.state ≡ true
      → IsReady (finish_job_if_needed now h (write h mark s))
  finish-IsReady mark now h s job m ok g r =
      let sound = every-get is_sound s.heap h ok.sound g in
      let busy = running-busy job sound r in
      subst IsReady
        (sym (finish-eq mark now h s job g (m.in_flight job ∙ busy.0) (m.settled job ∙ busy.1)))
        (pump-IsReady now _ (record {
          counted = omega (
            arith,
            ok.counted,
            finished-count (ended mark) h s.heap job g (busy_of job busy.0 busy.1)
                (settled-busy (ended mark job) refl),
          );
          bounded = pred_le s.active s.max_concurrent ok.bounded;
          in_order =
              ok.in_order
              ∙ sym (
                  queued_from-modify_same (ended mark) 0 h s.heap g
                    (terminal-queued (mark job) (m.ends job) ∙ sym (running-queued job r)));
          sound =
              every-modify is_sound (ended mark) h s.heap ok.sound g
                (terminal_sound (ended mark job) (m.ends job) (m.timed job) refl);
        }))
