-- ===== src/Execute/Build/Resume.antt =====
-- src/executor.ts: an incremental build is the full build.
use trueform.Base.{
  ℕ, zero, suc, ◌≤◌, ◌≡◌, refl, sym, ap, ◌∙◌, Option, none, some, List, [], ◌∷◌, ◌++◌, foldl,
  length, take, drop, take-append-drop, length-take, Bool-cases, inl, inr, arith, All, append-nil,
  append_assoc, subst,
}
use trueform.Base.Text.{Str}
use trueform.Base.JsMap.{JsMap, get}
use trueform.Kernel.{KernelResult, BackendCapabilities}
use trueform.Execute.Merge.{FeatureStep, empty_result, merge_results, reconstruct_state_from_steps}
use trueform.Execute.Build.{
  Result, ok, ◌>>=◌, Attempt, returns, throws, Progress, executed, >>=-congr, >>=_assoc, >>=-eq-ok,
  build_feature, build_from, supports,
}

module _ {N : Type 0} where
  abbrev pub start : Progress N
  start = record { current = empty_result; steps = [] }

  abbrev merge_steps : KernelResult N → List (FeatureStep N) → KernelResult N
  merge_steps = foldl (λ current step. merge_results current step.result)

  -- `q` is `p` after `count` more steps.
  record Extends (p q : Progress N) (count : ℕ) : Type 0 where
    new : List (FeatureStep N)
    steps : q.steps ≡ p.steps ++ new
    current : q.current ≡ merge_steps p.current new
    size : length new ≡ count

ok_inj : {N : Type 0} {p q : Progress N} → ◌≡◌ {A = Result N (Progress N)} (ok p) (ok q) → p ≡ q
ok_inj h = cc

take-prefix {ℓ} :
    {A : Type ℓ} (xs ys zs : List A) (k : ℕ) → zs ≡ xs ++ ys → length xs ≡ k → take k zs ≡ xs
take-prefix [] ys zs zero e l = refl
take-prefix [] ys zs (suc k) e l = absurd (omega arith)
take-prefix (x ∷ xs) ys zs zero e l = absurd (omega arith)
take-prefix (x ∷ xs) ys [] (suc k) e l = cc
take-prefix (x ∷ xs) ys (z ∷ zs) (suc k) e l = cc (take-prefix xs ys zs k (cc) (omega arith))

-- A state on the way of a run is read off the steps of the end.
mid-eq :
    {N : Type 0} (mid q : Progress N) (k m : ℕ)
    → Extends start mid k
    → Extends mid q m
    → mid ≡ record { current = reconstruct_state_from_steps q.steps k; steps = take k q.steps }
unfolding reconstruct_state_from_steps
mid-eq mid q k m a b =
    let size : length mid.steps ≡ k = omega (arith, ap length a.steps, a.size) in
    let prefix = take-prefix mid.steps b.new q.steps k b.steps size in
    let current = a.current ∙ ap (merge_steps empty_result) (sym a.steps ∙ sym prefix) in
    λ i. record { current = current i; steps = sym prefix i }

module _ {N F : Type 0} (kind : F → Str) (caps : Option BackendCapabilities)
    (execute : F → KernelResult N → Attempt N (KernelResult N)) where
  abbrev pub run : JsMap F → List Str → Progress N → Result N (Progress N)
  run = build_from kind caps execute

  pub build_from-append :
      (features : JsMap F) (xs ys : List Str) (p : Progress N)
      → run features (xs ++ ys) p ≡ (run features xs p >>= run features ys)
  unfolding build_from
  build_from-append features [] ys p = refl
  build_from-append features (x ∷ xs) ys p =
      let r = build_feature kind caps execute x (get x features) p in
      >>=-congr r (build_from-append features xs ys)
      ∙ sym (>>=_assoc r (run features xs) (run features ys))

  pub build_from-congr :
      (features features' : JsMap F) (xs : List Str) (p : Progress N)
      → All (λ id. get id features ≡ get id features') xs
      → run features xs p ≡ run features' xs p
  unfolding build_from
  build_from-congr features features' [] p h = refl
  build_from-congr features features' (x ∷ xs) p h = rw h.0 (
      >>=-congr (build_feature kind caps execute x (get x features') p)
        (λ q. build_from-congr features features' xs q h.1))

  abbrev after : Str → Progress N → KernelResult N → Progress N
  after id p r = record {
    current = merge_results p.current r;
    steps = p.steps ++ record { feature_id = id; result = r } ∷ [];
  }

  executed-eq-ok :
      (id : Str) (p : Progress N) (a : Attempt N (KernelResult N)) {q : Progress N}
      → executed kind caps execute id p a ≡ ok q
      → (r : KernelResult N) × (q ≡ after id p r)
  executed-eq-ok id p (returns r) h = (r, cc)
  executed-eq-ok id p (throws e) h = cc

  build_feature-eq-ok :
      (id : Str) (feature : Option F) (p : Progress N) {q : Progress N}
      → build_feature kind caps execute id feature p ≡ ok q
      → (r : KernelResult N) × (q ≡ after id p r)
  build_feature-eq-ok id none p h = cc
  build_feature-eq-ok id (some feature) p h = elim (Bool-cases (supports caps (kind feature))) [
    | inl good ↦ executed-eq-ok id p (execute feature p.current) (rw good at h)
    | inr bad ↦ cc (rw bad at h)
  ]

  -- A successful run adds one step for each id, and merges the results in order.
  run-Extends :
      (features : JsMap F) (xs : List Str) (p q : Progress N)
      → run features xs p ≡ ok q
      → Extends p q (length xs)
  unfolding build_from
  run-Extends features [] p q h = record {
    new = [];
    steps = sym (append-nil q.steps) ∙ ap (λ (r : Progress N). r.steps ++ []) (sym (ok_inj h));
    current = ap (λ (r : Progress N). r.current) (sym (ok_inj h));
    size = refl;
  }
  run-Extends features (x ∷ xs) p q h =
      let (mid, first, rest) =
        >>=-eq-ok (build_feature kind caps execute x (get x features) p) (run features xs) h in
      let (r, e) = build_feature-eq-ok x (get x features) p first in
      let tail = run-Extends features xs mid q rest in
      record {
        new = record { feature_id = x; result = r } ∷ tail.new;
        steps =
            tail.steps
            ∙ rw e (append_assoc p.steps (record { feature_id = x; result = r } ∷ []) tail.new);
        current = tail.current ∙ rw e;
        size = omega (arith, tail.size);
      }

  -- The first `k` steps of a successful run are those of the run over the first `k` ids, and
  -- `reconstructStateFromSteps` is the state that it reached.
  pub run-take :
      (features : JsMap F) (order : List Str) (k : ℕ) (q : Progress N)
      → run features order start ≡ ok q
      → k ≤ length order
      → run features (take k order) start
        ≡ ok (record { current = reconstruct_state_from_steps q.steps k; steps = take k q.steps })
  run-take features order k q h le =
      let whole =
        sym (build_from-append features (take k order) (drop k order) start)
        ∙ ap (λ l. run features l start) (take-append-drop k order)
        ∙ h in
      let (mid, first, rest) =
        >>=-eq-ok (run features (take k order) start) (run features (drop k order)) whole in
      let a = run-Extends features (take k order) start mid first in
      let b = run-Extends features (drop k order) mid q rest in
      first
      ∙ ap ok (
          mid-eq mid q k (length (drop k order))
            (subst (Extends start mid) (omega (arith, length-take k order)) a) b)
