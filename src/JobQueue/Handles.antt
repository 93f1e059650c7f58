-- ===== src/JobQueue/Handles.antt =====
-- src/job_queue.ts: writes through a handle, and the handles of the queued jobs.
use trueform.Base.{
  ℕ, zero, suc, ◌+◌, ◌≤◌, ◌<◌, ◌≡◌, refl, ap, Bool, true, false, not, none, some, List, [], ◌∷◌,
  ◌++◌, length, get_elem?, keep_if, count_if, eqb, if◌then◌else◌, arith, All, All-map, Bool-cases,
  inl, inr,
}
use native.Mathlib.Nat.{le_refl}
use trueform.JobQueue.Jobs.{modify, is_queued, Job}

module _ {ℓ} {A : Type ℓ} (f : A → A) where
  pub get_elem?-modify :
      (i j : ℕ) (xs : List A)
      → get_elem? (modify i f xs) j
        ≡ (elim (get_elem? xs j) [ none ↦ none | some x ↦ some (if eqb i j then f x else x) ])
  unfolding modify
  get_elem?-modify i j [] = refl
  get_elem?-modify zero zero (x ∷ xs) = refl
  get_elem?-modify zero (suc j) (x ∷ xs) = ground arith
  get_elem?-modify (suc i) zero (x ∷ xs) = ground arith
  get_elem?-modify (suc i) (suc j) (x ∷ xs) = ground (arith, get_elem?-modify i j xs)

  pub get_elem?-modify_same :
      (i : ℕ) (xs : List A) {x : A}
      → get_elem? xs i ≡ some x
      → get_elem? (modify i f xs) i ≡ some (f x)
  unfolding modify
  get_elem?-modify_same i [] e = cc
  get_elem?-modify_same zero (x ∷ xs) e = cc
  get_elem?-modify_same (suc i) (x ∷ xs) e = get_elem?-modify_same i xs e

  pub length-modify : (i : ℕ) (xs : List A) → length (modify i f xs) ≡ length xs
  unfolding modify
  length-modify i [] = refl
  length-modify zero (x ∷ xs) = refl
  length-modify (suc i) (x ∷ xs) = ap suc (length-modify i xs)

  -- How a write changes a count.
  pub count_if-modify :
      (p : A → Bool) (i : ℕ) (xs : List A) {x : A}
      → get_elem? xs i ≡ some x
      → count_if p (modify i f xs) + (if p x then 1 else 0)
        ≡ count_if p xs + (if p (f x) then 1 else 0)
  unfolding modify
  count_if-modify p i [] h = cc
  count_if-modify p zero (y ∷ xs) h = ground arith
  count_if-modify p (suc i) (y ∷ xs) h = ground (arith, count_if-modify p i xs h)

-- `this.queue.filter((entry) => entry !== job)`
abbrev pub without : ℕ → List ℕ → List ℕ
without h hs = keep_if (λ k. not (eqb k h)) hs

pub without-above : (h : ℕ) (hs : List ℕ) → All (λ k. h < k) hs → without h hs ≡ hs
without-above h [] a = refl
without-above h (k ∷ hs) a = ground (arith, without-above h hs a.1)

le_of_suc_le : (a b : ℕ) → suc a ≤ b → a ≤ b
le_of_suc_le a b h = omega arith

lt_of_eq : (a b c : ℕ) → a ≡ b → a < c → b < c
lt_of_eq a b c e h = omega arith

module _ {N T : Type 0} where
  -- The handles, from `base` on, of the jobs that are queued.
  unfoldable pub queued_from : ℕ → List (Job N T) → List ℕ
  queued_from base [] = []
  queued_from base (j ∷ js) =
      let rest = queued_from (suc base) js in if is_queued j.state then base ∷ rest else rest

  pub queued_from-above :
      (base : ℕ) (js : List (Job N T)) → All (λ h. base ≤ h) (queued_from base js)
  unfolding queued_from
  queued_from-above base [] = tt
  queued_from-above base (j ∷ js) =
      let later =
        All-map (queued_from (suc base) js) (λ h (le : suc base ≤ h). le_of_suc_le base h le)
          (queued_from-above (suc base) js) in
      elim (Bool-cases (is_queued j.state)) [
        | inl first ↦ rw first (le_refl base, later)
        | inr other ↦ rw other later
      ]

  pub queued_from-append :
      (base : ℕ) (js : List (Job N T)) (j : Job N T)
      → queued_from base (js ++ j ∷ [])
        ≡ queued_from base js ++ (if is_queued j.state then (base + length js) ∷ [] else [])
  unfolding queued_from
  queued_from-append base [] j = ground arith
  queued_from-append base (k ∷ js) j = ground (arith, queued_from-append (suc base) js j)

  -- A write that leaves a job as queued as it was.
  pub queued_from-modify_same :
      (f : Job N T → Job N T) (base i : ℕ) (js : List (Job N T)) {j : Job N T}
      → get_elem? js i ≡ some j
      → is_queued (f j).state ≡ is_queued j.state
      → queued_from base (modify i f js) ≡ queued_from base js
  unfolding queued_from modify
  queued_from-modify_same f base i [] h e = cc
  queued_from-modify_same f base zero (k ∷ js) h e = ground arith
  queued_from-modify_same f base (suc i) (k ∷ js) h e =
      ground (arith, queued_from-modify_same f (suc base) i js h e)

  -- A write after which a job is not queued takes its handle out.
  pub queued_from-modify_off :
      (f : Job N T → Job N T) (base i h : ℕ) (js : List (Job N T)) {j : Job N T}
      → get_elem? js i ≡ some j
      → is_queued (f j).state ≡ false
      → h ≡ base + i
      → queued_from base (modify i f js) ≡ without h (queued_from base js)
  unfolding queued_from modify
  queued_from-modify_off f base i h [] g e p = cc
  queued_from-modify_off f base zero h (k ∷ js) g e p = ground (
    arith,
    without-above h (queued_from (suc base) js) (
        All-map (queued_from (suc base) js)
          (λ n (le : suc base ≤ n). lt_of_eq base h n (omega arith) le)
          (queued_from-above (suc base) js)),
  )
  queued_from-modify_off f base (suc i) h (k ∷ js) g e p =
      ground (arith, queued_from-modify_off f (suc base) i h js g e (omega arith))

-- The first queued job.
pub record First {N T : Type 0} (base h : ℕ) (rest : List ℕ) (js : List (Job N T)) : Type 0 where
  pub place : ℕ
  pub job : Job N T
  pub at : h ≡ base + place
  pub found : get_elem? js place ≡ some job
  pub waits : is_queued job.state ≡ true
  pub later : All (λ k. h < k) rest

later-eq-cons :
    (base h : ℕ) (xs rest : List ℕ)
    → base ∷ xs ≡ h ∷ rest
    → All (λ k. suc base ≤ k) xs
    → All (λ k. h < k) rest
later-eq-cons base h xs rest e a =
    let first : base ≡ h = cc in
    let others : xs ≡ rest = cc in
    rw others at (All-map xs (λ k (le : suc base ≤ k). lt_of_eq base h k first le) a)

module _ {N T : Type 0} where
  First-suc :
      (base h : ℕ) (rest : List ℕ) (k : Job N T) (js : List (Job N T))
      → First (suc base) h rest js
      → First base h rest (k ∷ js)
  First-suc base h rest k js f = record {
    place = suc f.place;
    job = f.job;
    at = omega (arith, f.at);
    found = f.found;
    waits = f.waits;
    later = f.later;
  }

  pub queued_from-eq-cons :
      (base h : ℕ) (rest : List ℕ) (js : List (Job N T))
      → queued_from base js ≡ h ∷ rest
      → First base h rest js
  unfolding queued_from
  queued_from-eq-cons base h rest [] e = cc
  queued_from-eq-cons base h rest (j ∷ js) e = elim (Bool-cases (is_queued j.state)) [
    | inl first ↦
        let here = rw first at e in
        record {
          place = 0;
          job = j;
          at = ground (arith, here);
          found = refl;
          waits = first;
          later =
              later-eq-cons base h (queued_from (suc base) js) rest here
                (queued_from-above (suc base) js);
        }
    | inr other ↦
        First-suc base h rest j js (queued_from-eq-cons (suc base) h rest js (rw other at e))
  ]

pub modify-modify {ℓ} :
    {A : Type ℓ} (f g : A → A) (i : ℕ) (xs : List A)
    → modify i f (modify i g xs) ≡ modify i (λ x. f (g x)) xs
unfolding modify
modify-modify f g i [] = refl
modify-modify f g zero (x ∷ xs) = refl
modify-modify f g (suc i) (x ∷ xs) = rw (modify-modify f g i xs)
