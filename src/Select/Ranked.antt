-- ===== src/Select/Ranked.antt =====
-- src/selectors.ts: what ranking keeps of the candidates.
use Prim.Native.Nat.{Ordering}
use trueform.Base.{inl, inr, Option, some, List, [], ◌∷◌, map, All, Bool-cases}
use trueform.Base.Text.{Str, codes}
use trueform.Base.JsMap.{get}
use trueform.Base.Value.{Value, num, arr, nil, cons}
use trueform.Base.Numbers.{Numbers}
use trueform.Base.Outcome.{Outcome, ok, ◌>>◌}
use trueform.Select.Context.{Selection}
use trueform.Select.Matching.{center_or, selection_center, number_or, require_number}
use trueform.Select.Found.{NonEmpty}
use trueform.Select.Surely.{Surely, Surely->>=, Surely-map, All-keep_if}
use trueform.Select.Resolve.{
  insert_ranked, sort_ranked, keep_best, score_each, best_by, closeness, check_centers, best_from,
  beats, single_or_best, must_match, must_remain, unless_single,
}

abbrev pub Any : {A : Type 0} → A → Type 0
Any a = Unit

module _ {N : Type 0} (num_ops : Numbers N) (collate : Str → Str → Ordering)
    (P : Selection N → Type 0) where
  open num_ops use {zero, sub, less, equal}

  abbrev Scores : List (Selection N × N) → Type 0
  Scores es = All (λ e. P e.0) es

  insert_ranked-All :
      (e : Selection N × N) (es : List (Selection N × N))
      → P e.0
      → Scores es
      → Scores (insert_ranked num_ops collate e es)
  unfolding insert_ranked
  insert_ranked-All e [] p h = (p, tt)
  insert_ranked-All e (x ∷ es) p h = elim (Bool-cases (less zero (sub x.1 e.1))) [
    | inl later ↦ rw later (h.0, insert_ranked-All e es p h.1)
    | inr here ↦ rw here (p, h)
  ]

  sort_ranked-All :
      (es : List (Selection N × N)) → Scores es → Scores (sort_ranked num_ops collate es)
  unfolding sort_ranked
  sort_ranked-All [] h = tt
  sort_ranked-All (e ∷ es) h =
      insert_ranked-All e (sort_ranked num_ops collate es) h.0 (sort_ranked-All es h.1)

  firsts-All : (es : List (Selection N × N)) → Scores es → All P (map (λ e. e.0) es)
  firsts-All [] h = tt
  firsts-All (e ∷ es) h = (h.0, firsts-All es h.1)

  keep_best-All : (es : List (Selection N × N)) → Scores es → All P (keep_best num_ops collate es)
  keep_best-All [] h = tt
  keep_best-All (best ∷ rest) h =
      firsts-All _ (All-keep_if (λ e. P e.0) (λ e. equal e.1 best.1) (best ∷ rest) h)

  score_each-Surely :
      (score : Selection N → Outcome N) (cs : List (Selection N))
      → ((c : Selection N) → Surely Any (score c))
      → All P cs
      → Surely Scores (score_each num_ops collate score cs)
  unfolding score_each
  score_each-Surely score [] total h = tt
  score_each-Surely score (c ∷ cs) total h = Surely->>= Any Scores (score c) _ (total c) (λ n u.
      Surely->>= Scores Scores (score_each num_ops collate score cs) _
        (score_each-Surely score cs total h.1) (λ rest k. (h.0, k)))

  pub best_by-Surely :
      (score : Selection N → Outcome N) (cs : List (Selection N))
      → ((c : Selection N) → Surely Any (score c))
      → All P cs
      → Surely (All P) (best_by num_ops collate score cs)
  unfolding best_by
  best_by-Surely score cs total h =
      Surely->>= Scores (All P) (score_each num_ops collate score cs) _
        (score_each-Surely score cs total h) (λ es k. keep_best-All _ (sort_ranked-All es k))

  best_from-P :
      (best : Selection N) (rest : List (Selection N))
      → P best
      → All P rest
      → P (best_from num_ops collate best rest)
  unfolding best_from
  best_from-P best [] p h = p
  best_from-P best (next ∷ rest) p h = elim (Bool-cases (beats num_ops collate next best)) [
    | inl better ↦ rw better (best_from-P next rest h.0 h.1)
    | inr worse ↦ rw worse (best_from-P best rest p h.1)
  ]

  -- Of a list that is not empty some selection is picked.
  pub single_or_best-Surely :
      (ss : List (Selection N))
      → NonEmpty ss
      → All P ss
      → Surely P (single_or_best num_ops collate ss)
  unfolding single_or_best
  single_or_best-Surely [] full h = absurd full
  single_or_best-Surely (s ∷ []) full h = h.0
  single_or_best-Surely (s ∷ t ∷ ss) full h = best_from-P s (t ∷ ss) h.0 h.1

  pub unless_single-Surely :
      (cs : List (Selection N)) (rank : List (Selection N) → Outcome (List (Selection N)))
      → All P cs
      → Surely (All P) (rank cs)
      → Surely (All P) (unless_single num_ops collate cs rank)
  unless_single-Surely [] rank h k = tt
  unless_single-Surely (s ∷ []) rank h k = h
  unless_single-Surely (s ∷ t ∷ ss) rank h k = k

  pub must_match-Surely :
      (cs : List (Selection N)) → All P cs → Surely (All P) (must_match num_ops collate cs)
  must_match-Surely [] h = tt
  must_match-Surely (s ∷ ss) h = h

  pub must_remain-Surely :
      (cs : List (Selection N))
      → All P cs
      → Surely (λ ss. NonEmpty ss × All P ss) (must_remain num_ops collate cs)
  must_remain-Surely [] h = tt
  must_remain-Surely (s ∷ ss) h = (tt, h)

module _ {N : Type 0} (num_ops : Numbers N) (collate : Str → Str → Ordering) where
  All-Any : (cs : List (Selection N)) → All Any cs
  All-Any [] = tt
  All-Any (c ∷ cs) = (tt, All-Any cs)

  center_or-Surely : (v : Option (Value N)) → Surely Any (center_or v)
  center_or-Surely (some (arr (cons (num x) (cons (num y) (cons (num z) nil))))) = tt
  center_or-Surely _ = tt

  pub center-Surely : (s : Selection N) → Surely Any (selection_center s)
  unfolding selection_center
  center-Surely s = center_or-Surely (get (codes "center") s.meta)

  number_or-Surely : (key : Str) (v : Option (Value N)) → Surely Any (number_or num_ops key v)
  number_or-Surely key (some (num n)) = elim (Bool-cases (num_ops.equal n n)) [
    | inl number ↦ rw number tt
    | inr not_a_number ↦ rw not_a_number tt
  ]
  number_or-Surely key _ = tt

  pub number-Surely : (key : Str) (s : Selection N) → Surely Any (require_number num_ops s key)
  unfolding require_number
  number-Surely key s = number_or-Surely key (get key s.meta)

  pub centers-Surely : (cs : List (Selection N)) → Surely Any (check_centers num_ops collate cs)
  unfolding check_centers
  centers-Surely [] = tt
  centers-Surely (c ∷ cs) =
      Surely->>= Any Any (selection_center c) _ (center-Surely c) (λ t u. centers-Surely cs)

  pub closeness-Surely :
      (target : N × N × N) (c : Selection N) → Surely Any (closeness num_ops collate target c)
  unfolding closeness
  closeness-Surely target c =
      Surely->>= Any Any (selection_center c) _ (center-Surely c) (λ t u. tt)

  pub checked-Surely :
      (score : Selection N → Outcome N) (cs : List (Selection N))
      → ((c : Selection N) → Surely Any (score c))
      → Surely Any (score_each num_ops collate score cs >> ok tt)
  checked-Surely score cs total =
      Surely->>= Any Any (score_each num_ops collate score cs) _
        (Surely-map _ Any _ (λ es k. tt)
          (score_each-Surely num_ops collate Any score cs total (All-Any cs)))
        (λ es u. tt)
