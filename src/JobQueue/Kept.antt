-- ===== src/JobQueue/Kept.antt =====
-- src/job_queue.ts: `pruneTerminalJobs` deletes only jobs that are done.
use mathlib.Core.List.{Memᴰ}
use trueform.Base.{
  ℕ, ◌≡◌, ◌≢◌, refl, sym, ap, ◌∙◌, Bool, true, false, Option, none, some, List, [], ◌∷◌, length,
  get_elem?, keep_if, leb, ltb, All, Bool-cases, inl, inr,
}
use trueform.JobQueue.Jobs.{Job, JobId, same_id, JobQueue, Entry}
use trueform.JobQueue.Stats.{keep_if-All}
use trueform.JobQueue.Retention.{
  delete, Candidate, insert_candidate, sort_candidates, delete_oldest, is_done, is_expired,
  is_expired_job, drop_expired, add_candidate, candidates, prune_terminal_jobs,
}

true_is_false : true ≢ false
true_is_false e = cc

some_injective : {A : Type 0} (x y : A) → some x ≡ some y → x ≡ y
some_injective x y e = cc

keep_if-Memᴰ :
    {A : Type 0} (p : A → Bool) (x : A) (xs : List A)
    → p x ≡ true
    → Memᴰ x xs
    → Memᴰ x (keep_if p xs)
keep_if-Memᴰ p x [] h mem = elim mem [ ]
keep_if-Memᴰ p x (y ∷ ys) h (Memᴰ.head e) = rw (sym e, h) (Memᴰ.head refl)
keep_if-Memᴰ p x (y ∷ ys) h (Memᴰ.tail mem) = elim (Bool-cases (p y)) [
  | inl stays ↦ rw stays (Memᴰ.tail (keep_if-Memᴰ p x ys h mem))
  | inr goes ↦ rw goes (keep_if-Memᴰ p x ys h mem)
]

-- The id of a candidate is not the entry's.
abbrev Other : Entry → Candidate → Type 0
Other e c = same_id e.id c.id ≡ false

delete-Memᴰ :
    (id : JobId) (e : Entry) (es : List Entry)
    → same_id e.id id ≡ false
    → Memᴰ e es
    → Memᴰ e (delete id es)
unfolding delete
delete-Memᴰ id e [] h mem = elim mem [ ]
delete-Memᴰ id e (d ∷ es) h (Memᴰ.head p) = rw (sym p, h) (Memᴰ.head refl)
delete-Memᴰ id e (d ∷ es) h (Memᴰ.tail mem) = elim (Bool-cases (same_id d.id id)) [
  | inl same ↦ rw same mem
  | inr other ↦ rw other (Memᴰ.tail (delete-Memᴰ id e es h mem))
]

delete_oldest-Memᴰ :
    (limit : ℕ) (e : Entry) (cs : List Candidate) (es : List Entry)
    → All (Other e) cs
    → Memᴰ e es
    → Memᴰ e (delete_oldest limit cs es)
unfolding delete_oldest
delete_oldest-Memᴰ limit e [] es h mem = mem
delete_oldest-Memᴰ limit e (c ∷ cs) es h mem = elim (Bool-cases (leb (length es) limit)) [
  | inl few ↦ rw few mem
  | inr many ↦
      rw many (delete_oldest-Memᴰ limit e cs (delete c.id es) h.1 (delete-Memᴰ c.id e es h.0 mem))
]

insert-Other :
    (e : Entry) (c : Candidate) (cs : List Candidate)
    → Other e c
    → All (Other e) cs
    → All (Other e) (insert_candidate c cs)
unfolding insert_candidate
insert-Other e c [] h hs = (h, tt)
insert-Other e c (d ∷ ds) h hs = elim (Bool-cases (leb c.completed_at d.completed_at)) [
  | inl before ↦ rw before (h, hs)
  | inr after ↦ rw after (hs.0, insert-Other e c ds h hs.1)
]

sort-Other :
    (e : Entry) (cs : List Candidate) → All (Other e) cs → All (Other e) (sort_candidates cs)
unfolding sort_candidates
sort-Other e [] h = tt
sort-Other e (c ∷ cs) h = insert-Other e c (sort_candidates cs) h.0 (sort-Other e cs h.1)

-- Entries with the id of the entry have its handle.
abbrev pub OneHandle : Entry → List Entry → Type 0
OneHandle e es = All (λ d. same_id e.id d.id ≡ true → d.handle ≡ e.handle) es

module _ {N T : Type 0} where
  add_candidate-Other :
      (e d : Entry) (o : Option (Job N T)) (cs : List Candidate)
      → ((job : Job N T) → o ≡ some job → same_id e.id d.id ≡ true → is_done job ≡ false)
      → All (Other e) cs
      → All (Other e) (add_candidate d o cs)
  add_candidate-Other e d none cs h hs = hs
  add_candidate-Other e d (some job) cs h hs = elim (Bool-cases (is_done job)) [
    | inr busy ↦ rw busy hs
    | inl done ↦ elim (Bool-cases (same_id e.id d.id)) [
      | inr other ↦ rw done (other, hs)
      | inl same ↦ let busy = h job refl same in absurd (true_is_false (sym done ∙ busy))
    ]
  ]

  candidates-Other :
      (heap : List (Job N T)) (e : Entry) (job : Job N T) (es : List Entry)
      → get_elem? heap e.handle ≡ some job
      → is_done job ≡ false
      → OneHandle e es
      → All (Other e) (candidates heap es)
  unfolding candidates
  candidates-Other heap e job [] at busy one = tt
  candidates-Other heap e job (d ∷ es) at busy one =
      add_candidate-Other e d (get_elem? heap d.handle) (candidates heap es)
        (λ j found same.
          let it : some job ≡ some j = sym at ∙ ap (get_elem? heap) (sym (one.0 same)) ∙ found in
          ap is_done (some_injective j job (sym it)) ∙ busy)
        (candidates-Other heap e job es at busy one.1)

  busy_not_expired :
      (now retention : ℕ) (job : Job N T) (completed : Option ℕ)
      → is_done job ≡ false
      → is_expired_job now retention job completed ≡ false
  busy_not_expired now retention job none busy = refl
  busy_not_expired now retention job (some t) busy = rw busy refl

  drop_expired-Memᴰ :
      (now : ℕ) (s : JobQueue N T) (e : Entry) (job : Job N T)
      → get_elem? s.heap e.handle ≡ some job
      → is_done job ≡ false
      → Memᴰ e s.jobs
      → Memᴰ e (drop_expired now s)
  unfolding drop_expired is_expired
  drop_expired-Memᴰ now s e job at busy mem = elim (Bool-cases (ltb 0 s.terminal_retention_ms)) [
    | inr forever ↦ rw forever mem
    | inl some_time ↦ rw some_time (
        keep_if-Memᴰ _ e s.jobs
          (rw (at, busy_not_expired now s.terminal_retention_ms job job.completed_at_ms busy) refl)
          mem)
  ]

  drop_expired-OneHandle :
      (now : ℕ) (s : JobQueue N T) (e : Entry)
      → OneHandle e s.jobs
      → OneHandle e (drop_expired now s)
  unfolding drop_expired
  drop_expired-OneHandle now s e one = elim (Bool-cases (ltb 0 s.terminal_retention_ms)) [
    | inr forever ↦ rw forever one
    | inl some_time ↦ rw some_time (keep_if-All _ _ s.jobs one)
  ]

  -- A job that has not ended, or whose task still counts as active, stays among the jobs that are
  -- retained, whatever the limits are, if no other job has its id.
  pub prune_keeps_unfinished :
      (now : ℕ) (s : JobQueue N T) (e : Entry) (job : Job N T)
      → Memᴰ e s.jobs
      → OneHandle e s.jobs
      → get_elem? s.heap e.handle ≡ some job
      → is_done job ≡ false
      → Memᴰ e (prune_terminal_jobs now s).jobs
  unfolding prune_terminal_jobs
  prune_keeps_unfinished now s e job mem one at busy =
      let kept = drop_expired now s in
      let stays = drop_expired-Memᴰ now s e job at busy mem in
      elim (Bool-cases (leb (length kept) s.max_retained_jobs)) [
        | inl few ↦ rw few stays
        | inr many ↦ rw many (
            delete_oldest-Memᴰ s.max_retained_jobs e (sort_candidates (candidates s.heap kept)) kept
              (sort-Other e (candidates s.heap kept)
                (candidates-Other s.heap e job kept at busy (drop_expired-OneHandle now s e one)))
              stays)
      ]
