-- ===== src/JobQueue/Invariant.antt =====
-- src/job_queue.ts: what holds of the queue whenever `pump` is called, and of each job.
use trueform.Base.{
  ℕ, zero, suc, ◌≤◌, ◌≡◌, refl, Bool, true, false, not, ◌&&◌, Option, none, some, List, [], ◌∷◌,
  ◌++◌, get_elem?, every, count_if, arith,
}
use trueform.JobQueue.Jobs.{
  queued, running, succeeded, failed, canceled, is_queued, Job, JobQueue, modify, is_busy,
}
use trueform.JobQueue.Pump.{start_job}
use trueform.JobQueue.Handles.{queued_from}

abbrev pub is_some {ℓ} : {A : Type ℓ} → Option A → Bool
is_some none = false
is_some (some x) = true

every-cons {ℓ} :
    {A : Type ℓ} (p : A → Bool) (x : A) (xs : List A)
    → every p (x ∷ xs) ≡ true
    → (p x ≡ true) × (every p xs ≡ true)
every-cons p x xs e = ground arith

cons-every {ℓ} :
    {A : Type ℓ} (p : A → Bool) (x : A) (xs : List A)
    → p x ≡ true
    → every p xs ≡ true
    → every p (x ∷ xs) ≡ true
cons-every p x xs e r = ground arith

pub every-get {ℓ} :
    {A : Type ℓ} (p : A → Bool) (xs : List A) (i : ℕ) {x : A}
    → every p xs ≡ true
    → get_elem? xs i ≡ some x
    → p x ≡ true
every-get p [] i e g = cc
every-get p (y ∷ xs) zero {x = x} e g =
    let same : y ≡ x = cc in let first = (every-cons p y xs e).0 in cc
every-get p (y ∷ xs) (suc i) e g = every-get p xs i (every-cons p y xs e).1 g

pub every-modify {ℓ} :
    {A : Type ℓ} (p : A → Bool) (f : A → A) (i : ℕ) (xs : List A) {x : A}
    → every p xs ≡ true
    → get_elem? xs i ≡ some x
    → p (f x) ≡ true
    → every p (modify i f xs) ≡ true
unfolding modify
every-modify p f i [] e g q = cc
every-modify p f zero (y ∷ xs) {x = x} e g q =
    let same : y ≡ x = cc in
    let first : p (f y) ≡ true = cc in cons-every p (f y) xs first (every-cons p y xs e).1
every-modify p f (suc i) (y ∷ xs) e g q =
    let both = every-cons p y xs e in
    cons-every p y (modify i f xs) both.0 (every-modify p f i xs both.1 g q)

pub every-snoc {ℓ} :
    {A : Type ℓ} (p : A → Bool) (xs : List A) (x : A)
    → every p xs ≡ true
    → p x ≡ true
    → every p (xs ++ x ∷ []) ≡ true
every-snoc p [] x e q = cons-every p x [] q refl
every-snoc p (y ∷ xs) x e q =
    let both = every-cons p y xs e in
    cons-every p y (xs ++ x ∷ []) both.0 (every-snoc p xs x both.1 q)

module _ {N T : Type 0} where
  -- A queued job has not been started; a running one counts as active; one that has ended does not,
  -- and has the time at which it ended.
  unfoldable pub is_sound : Job N T → Bool
  is_sound j = elim j.state [
    | queued ↦ not j.in_flight && (not j.settled && not j.canceled)
    | running ↦ j.in_flight && (not j.settled && not j.canceled)
    | succeeded ↦ not (is_busy j) && is_some j.completed_at_ms
    | failed ↦ not (is_busy j) && is_some j.completed_at_ms
    | canceled ↦ not (is_busy j) && is_some j.completed_at_ms
  ]

-- The invariant at the calls of `pump`.
pub record IsConsistent {N T : Type 0} (s : JobQueue N T) : Type 0 where
  pub counted : s.active ≡ count_if is_busy s.heap
  pub bounded : s.active ≤ s.max_concurrent
  pub in_order : s.queue ≡ queued_from 0 s.heap
  pub sound : every is_sound s.heap ≡ true

module _ {N T : Type 0} where
  pub queued-start :
      (j : Job N T)
      → is_sound j ≡ true
      → is_queued j.state ≡ true
      → (j.canceled ≡ false) × (is_busy j ≡ false)
  unfolding is_sound
  queued-start j s q = ground arith

  pub start_sound :
      (now : ℕ) (d : Option ℕ) (j : Job N T)
      → is_sound j ≡ true
      → is_queued j.state ≡ true
      → (is_sound (start_job now d j) ≡ true) × (is_busy (start_job now d j) ≡ true)
  unfolding is_sound start_job
  start_sound now d j s q = ground arith
