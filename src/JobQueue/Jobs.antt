-- ===== src/JobQueue/Jobs.antt =====
-- src/job_queue.ts: the job records, the queue's state, and what marks a job.
use trueform.Base.{
  ℕ, zero, suc, Bool, true, false, not, ◌&&◌, Option, none, some, List, [], ◌∷◌, max, eqb, ltb,
  if◌then◌else◌,
}
use trueform.Base.Text.{Str}
use trueform.Base.JsMap.{JsMap}
use trueform.Base.Value.{Value}

pub data JobState : Type 0 where
  queued running succeeded failed canceled : JobState

unfoldable pub is_terminal : JobState → Bool
is_terminal queued = false
is_terminal running = false
is_terminal succeeded = true
is_terminal failed = true
is_terminal canceled = true

abbrev pub is_queued : JobState → Bool
is_queued queued = true
is_queued _ = false

abbrev pub is_running : JobState → Bool
is_running running = true
is_running _ = false

-- `job_${Date.now()}_${counter}`: two such texts are equal exactly if both numbers are.
pub record JobId : Type 0 where
  pub time : ℕ
  pub counter : ℕ

abbrev pub same_id : JobId → JobId → Bool
same_id a b = eqb a.time b.time && eqb a.counter b.counter

pub record JobError (N : Type 0) : Type 0 where
  pub code : Str
  pub message : Str
  pub details : Option (JsMap (Value N))

-- The fields of `JobInternal` and of its `record`. A date is its milliseconds; `aborted` is that of
-- the controller's signal; `timer` is the delay of a timeout that is set and not cleared.
pub record Job (N T : Type 0) : Type 0 where
  pub id : JobId
  pub state : JobState
  pub progress : N
  pub created_at : ℕ
  pub updated_at : ℕ
  pub result : Option T
  pub error : Option (JobError N)
  pub canceled : Bool
  pub aborted : Bool
  pub in_flight : Bool
  pub settled : Bool
  pub completed_at_ms : Option ℕ
  pub timeout_ms : Option ℕ
  pub timer : Option ℕ

pub record JobQueueOptions : Type 0 where
  pub max_concurrent : Option ℕ
  pub default_timeout_ms : Option ℕ
  pub max_retained_jobs : Option ℕ
  pub terminal_retention_ms : Option ℕ

pub record Entry : Type 0 where
  pub id : JobId
  pub handle : ℕ

pub record JobQueue (N T : Type 0) : Type 0 where
  pub counter : ℕ
  pub heap : List (Job N T)
  pub queue : List ℕ
  pub jobs : List Entry
  pub active : ℕ
  pub max_concurrent : ℕ
  pub default_timeout_ms : Option ℕ
  pub max_retained_jobs : ℕ
  pub terminal_retention_ms : ℕ

abbrev pub or_else : Option ℕ → ℕ → ℕ
or_else none d = d
or_else (some n) d = n

abbrev pub positive : Option ℕ → Option ℕ
positive none = none
positive (some n) = if ltb 0 n then some n else none

-- The constructor, for options that are natural numbers.
unfoldable pub new : {N T : Type 0} → JobQueueOptions → JobQueue N T
new options = record {
  counter = 0;
  heap = [];
  queue = [];
  jobs = [];
  active = 0;
  max_concurrent = max 1 (or_else options.max_concurrent 1);
  default_timeout_ms = positive options.default_timeout_ms;
  max_retained_jobs = max 1 (or_else options.max_retained_jobs 512);
  terminal_retention_ms = or_else options.terminal_retention_ms 1_800_000;
}

-- A write through a handle.
unfoldable pub modify {ℓ} : {A : Type ℓ} → ℕ → (A → A) → List A → List A
modify i f [] = []
modify zero f (x ∷ xs) = f x ∷ xs
modify (suc i) f (x ∷ xs) = x ∷ modify i f xs

module _ {N T : Type 0} where
  abbrev pub write : ℕ → (Job N T → Job N T) → JobQueue N T → JobQueue N T
  write h f s = record s { heap = modify h f s.heap }

  unfoldable pub mark_canceled : ℕ → Job N T → Job N T
  mark_canceled now job = record job {
    canceled = true;
    aborted = true;
    state = canceled;
    error = none;
    updated_at = now;
    completed_at_ms = some now;
  }

  -- `one` is the number 1.
  unfoldable pub mark_succeeded : N → ℕ → T → Job N T → Job N T
  mark_succeeded one now result job = record job {
    state = succeeded;
    progress = one;
    result = some result;
    error = none;
    updated_at = now;
    completed_at_ms = some now;
  }

  unfoldable pub mark_failed : ℕ → JobError N → Job N T → Job N T
  mark_failed now error job = record job {
    state = failed;
    error = some error;
    updated_at = now;
    completed_at_ms = some now;
  }

  -- `job.inFlight && !job.settled`
  abbrev pub is_busy : Job N T → Bool
  is_busy job = job.in_flight && not job.settled
