-- ===== src/JobQueue/Stats.antt =====
-- src/job_queue.ts: `getStats` counts each retained job once.
use trueform.Base.{
  ℕ, suc, ◌+◌, ◌≡◌, refl, sym, ap, ◌∙◌, Bool, Option, none, some, List, [], ◌∷◌, length, get_elem?,
  keep_if, leb, ltb, arith, All, Bool-cases, inl, inr,
}
use trueform.JobQueue.Jobs.{
  JobState, queued, running, succeeded, failed, canceled, Job, JobId, same_id, JobQueue, Entry,
}
use trueform.JobQueue.Retention.{
  delete, Candidate, delete_oldest, drop_expired, candidates, sort_candidates, prune_terminal_jobs,
}
use trueform.JobQueue.Events.{JobQueueStats, count_state, count_job, count_jobs, get_stats}

-- The jobs in any state.
abbrev pub total : JobQueueStats → ℕ
total t = t.queued + (t.running + (t.succeeded + (t.failed + t.canceled)))

-- An entry that is a job's.
abbrev pub IsEntry : {N T : Type 0} → List (Job N T) → Entry → Type 0
IsEntry heap e = (job : Job _ _) × (get_elem? heap e.handle ≡ some job)

module _ (P : Entry → Type 0) where
  pub keep_if-All : (p : Entry → Bool) (es : List Entry) → All P es → All P (keep_if p es)
  keep_if-All p [] h = tt
  keep_if-All p (e ∷ es) h = elim (Bool-cases (p e)) [
    | inl stays ↦ rw stays (h.0, keep_if-All p es h.1)
    | inr goes ↦ rw goes (keep_if-All p es h.1)
  ]

  delete-All : (id : JobId) (es : List Entry) → All P es → All P (delete id es)
  unfolding delete
  delete-All id [] h = tt
  delete-All id (e ∷ es) h = elim (Bool-cases (same_id e.id id)) [
    | inl same ↦ rw same h.1
    | inr other ↦ rw other (h.0, delete-All id es h.1)
  ]

  delete_oldest-All :
      (limit : ℕ) (cs : List Candidate) (es : List Entry)
      → All P es
      → All P (delete_oldest limit cs es)
  unfolding delete_oldest
  delete_oldest-All limit [] es h = h
  delete_oldest-All limit (c ∷ cs) es h = elim (Bool-cases (leb (length es) limit)) [
    | inl few ↦ rw few h
    | inr many ↦ rw many (delete_oldest-All limit cs (delete c.id es) (delete-All c.id es h))
  ]

count_state-total : (st : JobState) (t : JobQueueStats) → total (count_state st t) ≡ suc (total t)
count_state-total queued t = omega arith
count_state-total running t = omega arith
count_state-total succeeded t = omega arith
count_state-total failed t = omega arith
count_state-total canceled t = omega arith

count_state-retained :
    (st : JobState) (t : JobQueueStats) → (count_state st t).retained ≡ t.retained
count_state-retained queued t = refl
count_state-retained running t = refl
count_state-retained succeeded t = refl
count_state-retained failed t = refl
count_state-retained canceled t = refl

module _ {N T : Type 0} where
  drop_expired-All :
      (P : Entry → Type 0) (now : ℕ) (s : JobQueue N T) → All P s.jobs → All P (drop_expired now s)
  unfolding drop_expired
  drop_expired-All P now s h = elim (Bool-cases (ltb 0 s.terminal_retention_ms)) [
    | inl some_time ↦ rw some_time (keep_if-All P _ s.jobs h)
    | inr forever ↦ rw forever h
  ]

  prune-All :
      (P : Entry → Type 0) (now : ℕ) (s : JobQueue N T)
      → All P s.jobs
      → All P (prune_terminal_jobs now s).jobs
  unfolding prune_terminal_jobs
  prune-All P now s h =
      let kept = drop_expired now s in
      let all = drop_expired-All P now s h in
      elim (Bool-cases (leb (length kept) s.max_retained_jobs)) [
        | inl few ↦ rw few all
        | inr many ↦ rw many (
            delete_oldest-All P s.max_retained_jobs (sort_candidates (candidates s.heap kept)) kept
              all)
      ]

  count_jobs-total :
      (heap : List (Job N T)) (es : List Entry) (t : JobQueueStats)
      → All (IsEntry heap) es
      → total (count_jobs heap es t) ≡ total t + length es
  unfolding count_jobs
  count_jobs-total heap [] t h = omega arith
  count_jobs-total heap (e ∷ es) t h =
      let (job, found) = h.0 in
      ap (λ o. total (count_jobs heap es (count_job o t))) found
      ∙ count_jobs-total heap es (count_state job.state t) h.1
      ∙ omega (arith, count_state-total job.state t)

  count_job-retained :
      (o : Option (Job N T)) (t : JobQueueStats) → (count_job o t).retained ≡ t.retained
  count_job-retained none t = refl
  count_job-retained (some job) t = count_state-retained job.state t

  count_jobs-retained :
      (heap : List (Job N T)) (es : List Entry) (t : JobQueueStats)
      → (count_jobs heap es t).retained ≡ t.retained
  unfolding count_jobs
  count_jobs-retained heap [] t = refl
  count_jobs-retained heap (e ∷ es) t =
      count_jobs-retained heap es (count_job (get_elem? heap e.handle) t)
      ∙ count_job-retained (get_elem? heap e.handle) t

  -- If each entry of the map is a job's, the five counts of `getStats` add up to the number of jobs
  -- that it reports as retained.
  pub stats_add_up :
      (now : ℕ) (s : JobQueue N T)
      → All (IsEntry s.heap) s.jobs
      → total (get_stats now s).1 ≡ (get_stats now s).1.retained
  unfolding get_stats prune_terminal_jobs
  stats_add_up now s h =
      let jobs = (prune_terminal_jobs now s).jobs in
      count_jobs-total s.heap jobs _ (prune-All (IsEntry s.heap) now s h)
      ∙ omega arith
      ∙ sym (count_jobs-retained s.heap jobs _)
