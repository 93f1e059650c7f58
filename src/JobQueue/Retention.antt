-- ===== src/JobQueue/Retention.antt =====
-- src/job_queue.ts: `pruneTerminalJobs`.
use trueform.Base.{
  ℕ, ◌+◌, Bool, false, not, ◌&&◌, Option, none, some, List, [], ◌∷◌, ltb, leb, get_elem?, keep_if,
  length, if◌then◌else◌,
}
use trueform.JobQueue.Jobs.{Job, JobId, same_id, JobQueue, Entry, is_terminal, is_busy, or_else}

-- this.jobs.delete(id)
unfoldable pub delete : JobId → List Entry → List Entry
delete id [] = []
delete id (e ∷ es) = let rest = delete id es in if same_id e.id id then es else e ∷ rest

pub record Candidate : Type 0 where
  pub id : JobId
  pub completed_at : ℕ

-- `candidates.sort((a, b) => a.completedAt - b.completedAt)`, which is stable.
unfoldable pub insert_candidate : Candidate → List Candidate → List Candidate
insert_candidate c [] = c ∷ []
insert_candidate c (d ∷ ds) =
    let rest = insert_candidate c ds in
    if leb c.completed_at d.completed_at then c ∷ d ∷ ds else d ∷ rest

unfoldable pub sort_candidates : List Candidate → List Candidate
unfolding insert_candidate
sort_candidates [] = []
sort_candidates (c ∷ cs) = insert_candidate c (sort_candidates cs)

-- Deletes candidates until the map is small enough.
unfoldable pub delete_oldest : ℕ → List Candidate → List Entry → List Entry
unfolding delete
delete_oldest limit [] jobs = jobs
delete_oldest limit (c ∷ cs) jobs =
    let rest = delete_oldest limit cs (delete c.id jobs) in
    if leb (length jobs) limit then jobs else rest

module _ {N T : Type 0} where
  -- A terminal job whose task no longer counts as active.
  unfoldable pub is_done : Job N T → Bool
  unfolding is_terminal
  is_done job = is_terminal job.state && not (is_busy job)

  abbrev pub is_expired_job : ℕ → ℕ → Job N T → Option ℕ → Bool
  is_expired_job now retention job none = false
  is_expired_job now retention job (some completed_at) =
      is_done job && not (ltb now (completed_at + retention))

  unfoldable pub is_expired : ℕ → ℕ → Option (Job N T) → Bool
  unfolding is_done
  is_expired now retention none = false
  is_expired now retention (some job) = is_expired_job now retention job job.completed_at_ms

  -- The first loop: done jobs that were completed `retention` milliseconds ago.
  unfoldable pub drop_expired : ℕ → JobQueue N T → List Entry
  unfolding is_expired
  drop_expired now s =
      if ltb 0 s.terminal_retention_ms
      then keep_if (λ e. not (is_expired now s.terminal_retention_ms (get_elem? s.heap e.handle)))
          s.jobs
      else s.jobs

  abbrev pub add_candidate : Entry → Option (Job N T) → List Candidate → List Candidate
  add_candidate e none cs = cs
  add_candidate e (some job) cs =
      if is_done job
      then record { id = e.id; completed_at = or_else job.completed_at_ms 0 } ∷ cs
      else cs

  unfoldable pub candidates : List (Job N T) → List Entry → List Candidate
  unfolding is_done
  candidates heap [] = []
  candidates heap (e ∷ es) = add_candidate e (get_elem? heap e.handle) (candidates heap es)

  unfoldable pub prune_terminal_jobs : ℕ → JobQueue N T → JobQueue N T
  unfolding drop_expired candidates sort_candidates delete_oldest
  prune_terminal_jobs now s =
      let kept = drop_expired now s in
      record s {
        jobs =
            if leb (length kept) s.max_retained_jobs
            then kept
            else delete_oldest s.max_retained_jobs (sort_candidates (candidates s.heap kept)) kept;
      }
