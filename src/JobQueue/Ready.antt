-- ===== src/JobQueue/Ready.antt =====
-- src/job_queue.ts: each method and callback keeps the invariant of the queue.
use trueform.Base.{
  ℕ, ◌+◌, ◌≡◌, ◌⊎◌, inl, inr, refl, ap, Bool, true, false, Option, some, List, [], ◌∷◌, ◌++◌,
  length, get_elem?, count_if, arith, Bool-cases, Option-cases, sym, ◌∙◌,
}
use trueform.Base.Numbers.{Numbers}
use trueform.JobQueue.Jobs.{
  JobState, queued, running, succeeded, failed, canceled, is_queued, is_running, Job, JobId,
  JobQueue, JobQueueOptions, modify, write, is_busy, mark_canceled, new,
}
use trueform.JobQueue.Retention.{prune_terminal_jobs}
use trueform.JobQueue.Events.{
  find, enqueue, update_progress, cancel, settle, next_progress, new_job,
}
use trueform.JobQueue.Handles.{
  count_if-modify, without, queued_from, queued_from-modify_same, queued_from-modify_off,
  queued_from-append,
}
use trueform.JobQueue.Invariant.{is_sound, every-get, every-modify, every-snoc}
use trueform.JobQueue.Pumping.{IsReady, pump-IsReady}
use trueform.JobQueue.Finishing.{IsMark, finish-IsReady, mark_canceled-IsMark}

count_if-snoc {ℓ} :
    {A : Type ℓ} (p : A → Bool) (xs : List A) (x : A)
    → p x ≡ false
    → count_if p (xs ++ x ∷ []) ≡ count_if p xs
count_if-snoc p [] x e = ground arith
count_if-snoc p (y ∷ xs) x e = ground (arith, count_if-snoc p xs x e)

append_snoc : (xs : List ℕ) (n : ℕ) (h : ℕ) → h ≡ n → xs ++ h ∷ [] ≡ xs ++ n ∷ []
append_snoc xs n h e = ap (λ k. xs ++ k ∷ []) e

pub State-cases :
    (st : JobState)
    → (st ≡ queued) ⊎ (st ≡ running) ⊎ (st ≡ succeeded) ⊎ (st ≡ failed) ⊎ (st ≡ canceled)
State-cases queued = inl refl
State-cases running = inr (inl refl)
State-cases succeeded = inr (inr (inl refl))
State-cases failed = inr (inr (inr (inl refl)))
State-cases canceled = inr (inr (inr (inr refl)))

module _ {N T : Type 0} where
  pub prune-IsReady : (now : ℕ) (s : JobQueue N T) → IsReady s → IsReady (prune_terminal_jobs now s)
  unfolding prune_terminal_jobs
  prune-IsReady now s r = record {
    consistent = record {
      counted = r.consistent.counted;
      bounded = r.consistent.bounded;
      in_order = r.consistent.in_order;
      sound = r.consistent.sound;
    };
    no_idle_slot = r.no_idle_slot;
  }

  pub new-IsReady : (options : JobQueueOptions) → IsReady (new {N = N} {T = T} options)
  unfolding new queued_from
  new-IsReady options = record {
    consistent = record { counted = refl; bounded = omega arith; in_order = refl; sound = refl };
    no_idle_slot = inl refl;
  }

  pub settle-IsReady :
      (mark : Job N T → Job N T) (now h : ℕ) (s : JobQueue N T)
      → IsMark mark
      → IsReady s
      → IsReady (settle now h mark s)
  unfolding settle
  settle-IsReady mark now h s m r = elim (Option-cases (get_elem? s.heap h)) [
    | inl gone ↦ rw gone r
    | inr found ↦ rw found.1 (elim (Bool-cases (is_running found.0.state)) [
      | inl active ↦
          rw active (
            prune-IsReady now _ (finish-IsReady mark now h s found.0 m r.consistent found.1 active))
      | inr idle ↦ rw idle r
    ])
  ]

  idle-busy : (j : Job N T) → is_sound j ≡ true → is_queued j.state ≡ true → is_busy j ≡ false
  unfolding is_sound
  idle-busy j s q = ground arith

  canceled_sound :
      (now : ℕ) (j : Job N T)
      → is_sound j ≡ true
      → is_queued j.state ≡ true
      → (is_sound (mark_canceled now j) ≡ true) × (is_busy (mark_canceled now j) ≡ false)
  unfolding is_sound mark_canceled
  canceled_sound now j s q = ground arith

  count-modify_same :
      (f : Job N T → Job N T) (h : ℕ) (heap : List (Job N T)) (job : Job N T)
      → get_elem? heap h ≡ some job
      → is_busy (f job) ≡ is_busy job
      → count_if is_busy (modify h f heap) ≡ count_if is_busy heap
  count-modify_same f h heap job g e =
      let changed = count_if-modify f is_busy h heap g in omega (arith, rw e at changed)

  dequeue-IsReady :
      (now h : ℕ) (s : JobQueue N T) (job : Job N T)
      → IsReady s
      → get_elem? s.heap h ≡ some job
      → is_queued job.state ≡ true
      → IsReady (record (write h (mark_canceled now) s) { queue = without h s.queue })
  unfolding mark_canceled
  dequeue-IsReady now h s job r g q =
      let ok = r.consistent in
      let sound = every-get is_sound s.heap h ok.sound g in
      let after = canceled_sound now job sound q in
      record {
        consistent = record {
          counted =
              ok.counted
              ∙ sym (
                  count-modify_same (mark_canceled now) h s.heap job g
                    (after.1 ∙ sym (idle-busy job sound q)));
          bounded = ok.bounded;
          in_order =
              ap (without h) ok.in_order
              ∙ sym (queued_from-modify_off (mark_canceled now) 0 h h s.heap g refl (omega arith));
          sound = every-modify is_sound (mark_canceled now) h s.heap ok.sound g after.0;
        };
        no_idle_slot = elim r.no_idle_slot [
          | inl empty ↦ inl (ap (without h) empty)
          | inr full ↦ inr full
        ];
      }

  pub cancel-IsReady :
      (now : ℕ) (id : JobId) (s : JobQueue N T) → IsReady s → IsReady (cancel now id s).0
  unfolding cancel
  cancel-IsReady now id s r = elim (Option-cases (find id s.jobs)) [
    | inl unknown ↦ rw unknown r
    | inr known ↦ rw known.1 (elim (Option-cases (get_elem? s.heap known.0)) [
      | inl gone ↦ rw gone r
      | inr found ↦ rw found.1 (elim (State-cases found.0.state) [
        | inl waits ↦ rw waits (
            prune-IsReady now _
              (dequeue-IsReady now known.0 s found.0 r found.1 (ap is_queued waits)))
        | inr (inl runs) ↦ rw runs (
            prune-IsReady now _ (
              finish-IsReady (mark_canceled now) now known.0 s found.0 (mark_canceled-IsMark now)
                r.consistent found.1 (ap is_running runs)))
        | inr (inr (inl done)) ↦ rw done r
        | inr (inr (inr (inl done))) ↦ rw done r
        | inr (inr (inr (inr done))) ↦ rw done r
      ])
    ])
  ]

  pub update-IsReady :
      (num : Numbers N) (now h : ℕ) (progress : N) (s : JobQueue N T)
      → IsReady s
      → IsReady (update_progress num now h progress s)
  unfolding update_progress is_sound
  update-IsReady num now h progress s r = elim (Option-cases (get_elem? s.heap h)) [
    | inl gone ↦ rw gone r
    | inr found ↦ rw found.1 (elim (Bool-cases (is_running found.0.state)) [
      | inl active ↦ rw active (
          let f : Job N T → Job N T =
            λ j. record j { progress = next_progress num progress j.progress; updated_at = now } in
          record {
            consistent = record {
              counted =
                  r.consistent.counted ∙ sym (count-modify_same f h s.heap found.0 found.1 refl);
              bounded = r.consistent.bounded;
              in_order =
                  r.consistent.in_order ∙ sym (queued_from-modify_same f 0 h s.heap found.1 refl);
              sound =
                  every-modify is_sound f h s.heap r.consistent.sound found.1
                    (every-get is_sound s.heap h r.consistent.sound found.1);
            };
            no_idle_slot = r.no_idle_slot;
          })
      | inr idle ↦ rw idle r
    ])
  ]

  pub enqueue-IsReady :
      (num : Numbers N) (now : ℕ) (timeout : Option ℕ) (s : JobQueue N T)
      → IsReady s
      → IsReady (enqueue num now timeout s)
  unfolding enqueue is_sound
  enqueue-IsReady num now timeout s r =
      let ok = r.consistent in
      let job = new_job num (record { time = now; counter = s.counter + 1 }) now timeout in
      pump-IsReady now _ (record {
        counted = ok.counted ∙ sym (count_if-snoc is_busy s.heap job refl);
        bounded = ok.bounded;
        in_order =
            ap (λ q. q ++ length s.heap ∷ []) ok.in_order
            ∙ append_snoc (queued_from 0 s.heap) (0 + length s.heap) (length s.heap) (omega arith)
            ∙ sym (queued_from-append 0 s.heap job);
        sound = every-snoc is_sound s.heap job ok.sound refl;
      })
