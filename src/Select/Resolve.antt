-- ===== src/Select/Resolve.antt =====
-- src/selectors.ts: `resolveSelector`, with the ranking of the candidates.
use Prim.Native.Nat.{Ordering}
use trueform.Base.{
  Bool, true, false, not, ◌&&◌, Option, none, some, List, [], ◌∷◌, map, keep_if, if◌then◌else◌,
}
use trueform.Base.Text.{Str, codes}
use trueform.Base.JsMap.{get}
use trueform.Base.Value.{Value, num, arr, nil, cons}
use trueform.Base.Numbers.{Numbers}
use trueform.Base.Outcome.{
  Outcome, ok, err, ◌>>=◌, ◌>>◌, selector_empty, selector_empty_after_rank, selector_ambiguous,
}
use trueform.Kernel.{SelectionKind, face, edge, solid}
use trueform.Ir.Selectors.{
  Selector, selector_face, selector_edge, selector_solid, selector_named, RankRule, max_area, min_z,
  max_z, closest_to, Rules, no_rules, rule,
}
use trueform.Select.Context.{Selection, ResolutionContext}
use trueform.Select.Matching.{matching, require_number, selection_center}
use trueform.Select.Picking.{same_kind}
use trueform.Select.Named.{resolve_named_set}

-- `collate a b` is the order of `a.localeCompare(b)`.
module _ {N : Type 0} (num_ops : Numbers N) (collate : Str → Str → Ordering) where
  open num_ops use {zero, sub, mul, add, neg, less, equal, sqrt, is_finite}

  abbrev pub Ranked : Type 0
  Ranked = Selection N × N

  unfoldable pub insert_ranked : Ranked → List Ranked → List Ranked
  insert_ranked e [] = e ∷ []
  insert_ranked e (x ∷ xs) =
      let rest = insert_ranked e xs in if less zero (sub x.1 e.1) then x ∷ rest else e ∷ x ∷ xs

  -- scored.sort((a, b) => b.score - a.score)
  unfoldable pub sort_ranked : List Ranked → List Ranked
  unfolding insert_ranked
  sort_ranked [] = []
  sort_ranked (e ∷ es) = insert_ranked e (sort_ranked es)

  abbrev pub keep_best : List Ranked → List (Selection N)
  keep_best [] = []
  keep_best (best ∷ rest) = map (λ e. e.0) (keep_if (λ e. equal e.1 best.1) (best ∷ rest))

  -- The score of each candidate, or the first error.
  unfoldable pub score_each : (Selection N → Outcome N) → List (Selection N) → Outcome (List Ranked)
  score_each score [] = ok []
  score_each score (c ∷ cs) = score c >>= λ n. score_each score cs >>= λ rest. ok ((c, n) ∷ rest)

  unfoldable pub best_by :
      (Selection N → Outcome N) → List (Selection N) → Outcome (List (Selection N))
  unfolding score_each sort_ranked
  best_by score candidates =
      score_each score candidates >>= λ scored. ok (keep_best (sort_ranked scored))

  unfoldable pub distance : N × N × N → N × N × N → N
  distance (ax, ay, az) (bx, by, bz) =
      let dx = sub ax bx in
      let dy = sub ay by in
      let dz = sub az bz in sqrt (add (add (mul dx dx) (mul dy dy)) (mul dz dz))

  -- The score of `rank.closestTo` for the center of the target.
  unfoldable pub closeness : N × N × N → Selection N → Outcome N
  unfolding distance selection_center
  closeness target c = selection_center c >>= λ center. ok (neg (distance center target))

  unfoldable pub check_centers : List (Selection N) → Outcome {0} Unit
  unfolding selection_center
  check_centers [] = ok tt
  check_centers (c ∷ cs) = selection_center c >> check_centers cs

  abbrev pub number_of_value : Option (Value N) → N
  number_of_value (some (num n)) = if is_finite n then n else zero
  number_of_value _ = zero

  abbrev pub safe_triple : N → N → N → N × N × N
  safe_triple x y z =
      if is_finite x && is_finite y && is_finite z then (x, y, z) else (zero, zero, zero)

  abbrev pub safe_center : Option (Value N) → N × N × N
  safe_center (some (arr (cons (num x) (cons (num y) (cons (num z) nil))))) = safe_triple x y z
  safe_center _ = (zero, zero, zero)

  abbrev pub face_area : SelectionKind → Selection N → N
  face_area face s = number_of_value (get (codes "area") s.meta)
  face_area _ s = zero

  pub record CandidateKey : Type 0 where
    pub area : N
    pub center : N × N × N

  unfoldable pub candidate_key : Selection N → CandidateKey
  unfolding get
  candidate_key s = record {
    area = face_area s.kind s;
    center = safe_center (get (codes "center") s.meta);
  }

  abbrev pub is_gt : Ordering → Bool
  is_gt o = elim o [ Ordering.gt ↦ true | _ ↦ false ]

  -- compareCandidates(a, b) > 0
  unfoldable pub beats : Selection N → Selection N → Bool
  unfolding candidate_key
  beats a b =
      let p = candidate_key a in
      let q = candidate_key b in
      if not (equal p.area q.area)
      then less zero (sub p.area q.area)
      else if not (equal p.center.2 q.center.2)
      then less zero (sub p.center.2 q.center.2)
      else if not (equal p.center.1 q.center.1)
      then less zero (sub p.center.1 q.center.1)
      else if not (equal p.center.0 q.center.0)
      then less zero (sub p.center.0 q.center.0)
      else is_gt (collate a.id b.id)

  -- The loop of `pickBestCandidate` from the best so far.
  unfoldable pub best_from : Selection N → List (Selection N) → Selection N
  unfolding beats
  best_from best [] = best
  best_from best (next ∷ rest) = best_from (if beats next best then next else best) rest

  unfoldable pub pick_best_candidate : List (Selection N) → Option (Selection N)
  unfolding best_from
  pick_best_candidate [] = none
  pick_best_candidate (s ∷ ss) = some (best_from s ss)

  abbrev pub preferred : Option (Selection N) → Outcome (Selection N)
  preferred none = err selector_ambiguous
  preferred (some s) = ok s

  -- The end of `resolveSelector`.
  unfoldable pub single_or_best : List (Selection N) → Outcome (Selection N)
  unfolding pick_best_candidate
  single_or_best (s ∷ []) = ok s
  single_or_best ranked = preferred (pick_best_candidate ranked)

  abbrev pub must_match : List (Selection N) → Outcome (List (Selection N))
  must_match [] = err selector_empty
  must_match (s ∷ ss) = ok (s ∷ ss)

  abbrev pub must_remain : List (Selection N) → Outcome (List (Selection N))
  must_remain [] = err selector_empty_after_rank
  must_remain (s ∷ ss) = ok (s ∷ ss)

  -- `rankOnce` leaves a single candidate alone.
  abbrev pub unless_single :
      List (Selection N)
      → (List (Selection N) → Outcome (List (Selection N)))
      → Outcome (List (Selection N))
  unless_single [] rank = ok []
  unless_single (s ∷ []) rank = ok (s ∷ [])
  unless_single (s ∷ t ∷ ss) rank = rank (s ∷ t ∷ ss)

  abbrev pub is_single : List (Selection N) → Bool
  is_single (s ∷ []) = true
  is_single _ = false

  unfoldable mutual
    unfolding single_or_best best_by closeness check_centers require_number selection_center
        matching resolve_named_set

    -- resolveSelectorSet
    pub resolve_selector_set : ResolutionContext N → Selector → Outcome (List (Selection N))
    resolve_selector_set ctx (selector_face predicates rank) =
        matching (λ s. same_kind s.kind face) predicates ctx.selections
        >>= must_match
        >>= (λ cs. apply_ranking ctx rank cs)
        >>= must_remain
    resolve_selector_set ctx (selector_edge predicates rank) =
        matching (λ s. same_kind s.kind edge) predicates ctx.selections
        >>= must_match
        >>= (λ cs. apply_ranking ctx rank cs)
        >>= must_remain
    resolve_selector_set ctx (selector_solid predicates rank) =
        matching (λ s. same_kind s.kind solid) predicates ctx.selections
        >>= must_match
        >>= (λ cs. apply_ranking ctx rank cs)
        >>= must_remain
    resolve_selector_set ctx (selector_named name) = resolve_named_set collate ctx name

    -- With no rule nothing is validated, and the candidates stay.
    pub apply_ranking :
        ResolutionContext N → Rules → List (Selection N) → Outcome (List (Selection N))
    apply_ranking ctx no_rules candidates = ok candidates
    apply_ranking ctx (rule r rules) candidates =
        validate_rule ctx r candidates
        >> (validate_rules ctx rules candidates
            >> (rank_once ctx r candidates >>= λ current.
                if is_single current then ok current else rank_by ctx rules current))

    -- The rest of the loop of `applyRanking`.
    pub rank_by : ResolutionContext N → Rules → List (Selection N) → Outcome (List (Selection N))
    rank_by ctx no_rules candidates = ok candidates
    rank_by ctx (rule r rules) candidates = rank_once ctx r candidates >>= λ current.
        if is_single current then ok current else rank_by ctx rules current

    pub validate_rules : ResolutionContext N → Rules → List (Selection N) → Outcome {0} Unit
    validate_rules ctx no_rules candidates = ok tt
    validate_rules ctx (rule r rules) candidates =
        validate_rule ctx r candidates >> validate_rules ctx rules candidates

    pub validate_rule : ResolutionContext N → RankRule → List (Selection N) → Outcome {0} Unit
    validate_rule ctx (closest_to target) candidates =
        resolve_selector_set ctx target
        >>= single_or_best
        >>= selection_center
        >> check_centers candidates
    validate_rule ctx max_area candidates =
        score_each (λ c. require_number num_ops c (codes "area")) candidates >> ok tt
    validate_rule ctx min_z candidates =
        score_each (λ c. require_number num_ops c (codes "centerZ")) candidates >> ok tt
    validate_rule ctx max_z candidates =
        score_each (λ c. require_number num_ops c (codes "centerZ")) candidates >> ok tt

    pub rank_once :
        ResolutionContext N → RankRule → List (Selection N) → Outcome (List (Selection N))
    rank_once ctx (closest_to target) candidates = unless_single candidates (λ cs.
        resolve_selector_set ctx target >>= single_or_best >>= selection_center >>= λ center.
        best_by (closeness center) cs)
    rank_once ctx max_area candidates =
        unless_single candidates (best_by (λ c. require_number num_ops c (codes "area")))
    rank_once ctx min_z candidates =
        unless_single candidates
          (best_by (λ c. require_number num_ops c (codes "centerZ") >>= λ z. ok (neg z)))
    rank_once ctx max_z candidates =
        unless_single candidates (best_by (λ c. require_number num_ops c (codes "centerZ")))

  unfoldable pub resolve_selector : ResolutionContext N → Selector → Outcome (Selection N)
  unfolding resolve_selector_set single_or_best
  resolve_selector ctx selector = resolve_selector_set ctx selector >>= single_or_best
