-- ===== src/JobQueue/Outcomes.antt =====
-- src/job_queue.ts: what a client reads of a job that has ended, and that `pump` keeps it.
use trueform.Base.{
  ℕ, zero, suc, ◌≡◌, inl, inr, refl, ap, true, false, not, ◌||◌, none, some, List, [], ◌∷◌,
  get_elem?, ltb, arith, Bool-cases, Option-cases, sym, ◌∙◌, subst,
}
use trueform.JobQueue.Jobs.{JobState, is_queued, is_running, is_terminal, Job, JobQueue, modify}
use trueform.JobQueue.Pump.{pump, pump_from, run_next, run_job, start_job, finish_job_if_needed}
use trueform.JobQueue.Pumping.{pump_from-cons}

-- Two records that a client reads the same outcome from.
pub record SameOutcome {N T : Type 0} (j k : Job N T) : Type 0 where
  pub state : k.state ≡ j.state
  pub progress : k.progress ≡ j.progress
  pub result : k.result ≡ j.result
  pub error : k.error ≡ j.error

pub record Holds {N T : Type 0} (j : Job N T) (heap : List (Job N T)) (h : ℕ) : Type 0 where
  pub job : Job N T
  pub found : get_elem? heap h ≡ some job
  pub same : SameOutcome j job

pub queued_not_ended : (st : JobState) → is_queued st ≡ true → is_terminal st ≡ false
unfolding is_terminal
queued_not_ended st q = ground arith

pub running_not_ended : (st : JobState) → is_running st ≡ true → is_terminal st ≡ false
unfolding is_terminal
running_not_ended st q = ground arith

module _ {N T : Type 0} where
  -- Each job that has ended in the first heap has the same outcome in the second.
  unfoldable pub Keeps : List (Job N T) → List (Job N T) → Type 0
  Keeps before after =
      (h : ℕ) (j : Job N T)
      → get_elem? before h ≡ some j
      → is_terminal j.state ≡ true
      → Holds j after h

  pub Keeps-all : (heap : List (Job N T)) → Keeps heap heap
  unfolding Keeps
  Keeps-all heap h j g t = record {
    job = j;
    found = g;
    same = record { state = refl; progress = refl; result = refl; error = refl };
  }

  pub Keeps-both : (a b c : List (Job N T)) → Keeps a b → Keeps b c → Keeps a c
  unfolding Keeps
  Keeps-both a b c f k h j g t =
      let first = f h j g t in
      let second = k h first.job first.found (ap is_terminal first.same.state ∙ t) in
      record {
        job = second.job;
        found = second.found;
        same = record {
          state = second.same.state ∙ first.same.state;
          progress = second.same.progress ∙ first.same.progress;
          result = second.same.result ∙ first.same.result;
          error = second.same.error ∙ first.same.error;
        };
      }

  pub Holds-later :
      (j x : Job N T) (heap : List (Job N T)) (h : ℕ) → Holds j heap h → Holds j (x ∷ heap) (suc h)
  Holds-later j x heap h k = record { job = k.job; found = k.found; same = k.same }

  -- A write into a job that has not ended, or that keeps the outcome.
  modify-Keeps :
      (f : Job N T → Job N T) (i : ℕ) (heap : List (Job N T))
      → ((j : Job N T)
          → get_elem? heap i ≡ some j
          → is_terminal j.state ≡ true
          → SameOutcome j (f j))
      → Keeps heap (modify i f heap)
  unfolding Keeps modify
  modify-Keeps f i [] ok h j g t = cc
  modify-Keeps f zero (x ∷ heap) ok zero j g t =
      let same : x ≡ j = cc in
      record {
        job = f x;
        found = refl;
        same =
            subst (λ y. SameOutcome y (f x)) same
              (ok x refl (ap (λ y. is_terminal y.state) same ∙ t));
      }
  modify-Keeps f zero (x ∷ heap) ok (suc h) j g t = Keeps-all (f x ∷ heap) (suc h) j g t
  modify-Keeps f (suc i) (x ∷ heap) ok zero j g t = Keeps-all (x ∷ modify i f heap) zero j g t
  modify-Keeps f (suc i) (x ∷ heap) ok (suc h) j g t =
      Holds-later j x (modify i f heap) h (modify-Keeps f i heap ok h j g t)

  pub not_ended :
      (f : Job N T → Job N T) (i : ℕ) (heap : List (Job N T)) (job : Job N T)
      → get_elem? heap i ≡ some job
      → is_terminal job.state ≡ false
      → Keeps heap (modify i f heap)
  not_ended f i heap job g e = modify-Keeps f i heap (λ j found t.
      let same : job ≡ j = cc in
      let both : true ≡ false = sym t ∙ sym (ap (λ y. is_terminal y.state) same) ∙ e in cc)

  run_next-Keeps : (now h : ℕ) (s : JobQueue N T) → Keeps s.heap (run_next now h s).heap
  unfolding run_next run_job
  run_next-Keeps now h s = elim (Option-cases (get_elem? s.heap h)) [
    | inl gone ↦ rw gone (Keeps-all s.heap)
    | inr found ↦ rw found.1 (elim (Bool-cases found.0.canceled) [
      | inl off ↦ rw off (Keeps-all s.heap)
      | inr on ↦ rw on (elim (Bool-cases (is_queued found.0.state)) [
        | inl waits ↦ rw waits (
            not_ended (start_job now s.default_timeout_ms) h s.heap found.0 found.1
              (queued_not_ended found.0.state waits))
        | inr other ↦ rw other (Keeps-all s.heap)
      ])
    ])
  ]

  pump_from-Keeps :
      (now : ℕ) (waiting : List ℕ) (s : JobQueue N T) → Keeps s.heap (pump_from now waiting s).heap
  unfolding pump_from
  pump_from-Keeps now [] s = Keeps-all s.heap
  pump_from-Keeps now (h ∷ rest) s = elim (Bool-cases (ltb s.active s.max_concurrent)) [
    | inl free ↦
        let next = run_next now h (record s { queue = rest }) in
        subst (λ t. Keeps s.heap t.heap) (sym (pump_from-cons now h rest s free))
          (Keeps-both s.heap next.heap (pump_from now rest next).heap
            (run_next-Keeps now h (record s { queue = rest })) (pump_from-Keeps now rest next))
    | inr full ↦
        subst (λ t. Keeps s.heap t.heap) (sym (pump_from-cons now h rest s full)) (Keeps-all s.heap)
  ]

  pub pump-Keeps : (now : ℕ) (s : JobQueue N T) → Keeps s.heap (pump now s).heap
  unfolding pump
  pump-Keeps now s = pump_from-Keeps now s.queue s

  pub finish-Keeps :
      (now h : ℕ) (s : JobQueue N T) → Keeps s.heap (finish_job_if_needed now h s).heap
  unfolding finish_job_if_needed
  finish-Keeps now h s =
      let cleared = modify h (λ j. record j { timer = none }) s.heap in
      let first : Keeps s.heap cleared =
        modify-Keeps (λ j. record j { timer = none }) h s.heap
          (λ j g t. record { state = refl; progress = refl; result = refl; error = refl }) in
      let settled = modify h (λ j. record j { settled = true }) cleared in
      let second : Keeps cleared settled =
        modify-Keeps (λ j. record j { settled = true }) h cleared
          (λ j g t. record { state = refl; progress = refl; result = refl; error = refl }) in
      elim (Option-cases (get_elem? cleared h)) [
        | inl gone ↦ rw gone first
        | inr found ↦ rw found.1 (elim (Bool-cases (not found.0.in_flight || found.0.settled)) [
          | inl out ↦ rw out first
          | inr busy ↦ rw busy (
              Keeps-both s.heap settled _ (Keeps-both s.heap cleared settled first second)
                (pump-Keeps now _))
        ])
      ]
