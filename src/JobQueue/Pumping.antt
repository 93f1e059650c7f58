-- ===== src/JobQueue/Pumping.antt =====
-- src/job_queue.ts: `pump` keeps the invariant and leaves no slot idle while a job waits.
use trueform.Base.{
  ℕ, ◌+◌, ◌≤◌, ◌<◌, ◌≡◌, ◌⊎◌, inl, inr, refl, ap, Bool, true, false, some, List, [], ◌∷◌, get_elem?,
  count_if, ltb, arith, Bool-cases, ltb→lt, All, sym, ◌∙◌, subst,
}
use trueform.JobQueue.Jobs.{is_queued, Job, JobQueue, modify, write, is_busy}
use trueform.JobQueue.Pump.{pump, pump_from, run_next, run_job, start_job}
use trueform.JobQueue.Handles.{
  count_if-modify, without, queued_from-modify_off, queued_from-eq-cons, without-above,
}
use trueform.JobQueue.Invariant.{
  is_sound, every-get, every-modify, IsConsistent, queued-start, start_sound,
}

without_first : (h : ℕ) (rest : List ℕ) → All (λ k. h < k) rest → without h (h ∷ rest) ≡ rest
without_first h rest a = ground (arith, without-above h rest a)

suc_le : (a b : ℕ) → a < b → a + 1 ≤ b
suc_le a b h = omega arith

full_eq : (a b : ℕ) → a ≤ b → ltb a b ≡ false → a ≡ b
full_eq a b le e = ground arith

-- What holds after `pump`: a job waits only if every slot is taken.
pub record IsReady {N T : Type 0} (s : JobQueue N T) : Type 0 where
  pub consistent : IsConsistent s
  pub no_idle_slot : (s.queue ≡ []) ⊎ (s.active ≡ s.max_concurrent)

module _ {N T : Type 0} where
  run_next-eq :
      (now h : ℕ) (job : Job N T) (s : JobQueue N T)
      → get_elem? s.heap h ≡ some job
      → is_queued job.state ≡ true
      → job.canceled ≡ false
      → run_next now h s
        ≡ record (write h (start_job now s.default_timeout_ms) s) { active = s.active + 1 }
  unfolding run_next run_job
  run_next-eq now h job s g q c = rw (g, c, q)

  started-count :
      (f : Job N T → Job N T) (h : ℕ) (heap : List (Job N T)) (job : Job N T)
      → get_elem? heap h ≡ some job
      → is_busy job ≡ false
      → is_busy (f job) ≡ true
      → count_if is_busy (modify h f heap) ≡ count_if is_busy heap + 1
  started-count f h heap job g off on =
      let changed = count_if-modify f is_busy h heap g in omega (arith, rw (off, on) at changed)

  -- A job that is taken off the queue starts.
  run_next-IsConsistent :
      (now h : ℕ) (rest : List ℕ) (s : JobQueue N T)
      → IsConsistent s
      → s.queue ≡ h ∷ rest
      → s.active < s.max_concurrent
      → IsConsistent (run_next now h (record s { queue = rest }))
  unfolding start_job
  run_next-IsConsistent now h rest s ok e free =
      let first = queued_from-eq-cons 0 h rest s.heap (sym ok.in_order ∙ e) in
      let same : first.place ≡ h = omega (arith, first.at) in
      let here : get_elem? s.heap h ≡ some first.job = rw same at first.found in
      let sound = every-get is_sound s.heap h ok.sound here in
      let idle = queued-start first.job sound first.waits in
      let busy = start_sound now s.default_timeout_ms first.job sound first.waits in
      let run = run_next-eq now h first.job (record s { queue = rest }) here first.waits idle.0 in
      subst IsConsistent (sym run) (record {
        counted =
            ap (λ n. n + 1) ok.counted
            ∙ sym (
                started-count (start_job now s.default_timeout_ms) h s.heap first.job here idle.1
                  busy.1);
        bounded = suc_le s.active s.max_concurrent free;
        in_order = sym (
            queued_from-modify_off (start_job now s.default_timeout_ms) 0 h h s.heap here refl
              (omega arith)
            ∙ ap (without h) (sym ok.in_order ∙ e)
            ∙ without_first h rest first.later);
        sound =
            every-modify is_sound (start_job now s.default_timeout_ms) h s.heap ok.sound here
              busy.0;
      })

  run_next-queue : (now h : ℕ) (s : JobQueue N T) → (run_next now h s).queue ≡ s.queue
  unfolding run_next run_job
  run_next-queue now h s = ground arith

  pub pump_from-cons :
      (now h : ℕ) (rest : List ℕ) (s : JobQueue N T) {b : Bool}
      → ltb s.active s.max_concurrent ≡ b
      → pump_from now (h ∷ rest) s ≡ (elim b as (λ _. JobQueue N T) [
        | true ↦ pump_from now rest (run_next now h (record s { queue = rest }))
        | false ↦ s
      ])
  unfolding pump_from
  pump_from-cons now h rest s e =
      ap
        (λ b. elim b as (λ _. JobQueue N T) [
          | true ↦ pump_from now rest (run_next now h (record s { queue = rest }))
          | false ↦ s
        ])
        e

  pub pump_from-IsReady :
      (now : ℕ) (waiting : List ℕ) (s : JobQueue N T)
      → IsConsistent s
      → s.queue ≡ waiting
      → IsReady (pump_from now waiting s)
  unfolding pump_from
  pump_from-IsReady now [] s ok e = record { consistent = ok; no_idle_slot = inl e }
  pump_from-IsReady now (h ∷ rest) s ok e = elim (Bool-cases (ltb s.active s.max_concurrent)) [
    | inl free ↦ subst IsReady (sym (pump_from-cons now h rest s free)) (
        pump_from-IsReady now rest (run_next now h (record s { queue = rest }))
          (run_next-IsConsistent now h rest s ok e (ltb→lt s.active s.max_concurrent free))
          (run_next-queue now h (record s { queue = rest })))
    | inr full ↦ subst IsReady (sym (pump_from-cons now h rest s full)) (record {
      consistent = ok;
      no_idle_slot = inr (full_eq s.active s.max_concurrent ok.bounded full);
    })
  ]

  pub pump-IsReady : (now : ℕ) (s : JobQueue N T) → IsConsistent s → IsReady (pump now s)
  unfolding pump
  pump-IsReady now s ok = pump_from-IsReady now s.queue s ok refl
