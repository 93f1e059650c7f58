-- ===== src/Prepare/Errors.antt =====
-- src/compiler.ts: the errors of a compilation.
use trueform.Base.{
  ◌<◌, ◌≡◌, ◌⊎◌, inl, inr, refl, ap, ◌∙◌, true, List, [], ◌∷◌, arith, Bool-cases, length, eqb,
}
use trueform.Base.Text.{Str, ==_iff}
use trueform.Base.JsMap.{keys, has}
use trueform.Base.Value.{Fields}
use trueform.Base.Outcome.{CompileError, Outcome, cycle, ok, err, ◌>>=◌}
use trueform.Ir.Features.{IntentFeature}
use trueform.Ir.Parts.{IntentPart}
use trueform.Graph.Topo.{Graph, kahn, check_features, topo_sort_deterministic}
use trueform.Graph.Topo.Counts.{occ, occ_pos_iff-has}
use trueform.Graph.Topo.Complete.{IsClosed, occ-result-le_nodes}
use trueform.Graph.Features.{features_by_id}
use trueform.Graph.Dependencies.{build_dependency_graph}
use trueform.Graph.Join.{graph_joins_features, has-by_id, has_of_occ}
use trueform.Prepare.{CompileResult, compile_normalized_part}

-- An order, or the error of a cycle.
abbrev OrderedOrCycle : Outcome (List Str) → Type 0
OrderedOrCycle (ok order) = Unit
OrderedOrCycle (err (cycle missing)) = Unit
OrderedOrCycle (err e) = ⊥

pos_of_has : (t : Str) (xs : List Str) → has t xs ≡ true → 0 < occ t xs
pos_of_has t xs h = (occ_pos_iff-has t xs).0 h

check_features-ok :
    (ids rest : List Str)
    → ((t : Str) → has t rest ≡ true → has t ids ≡ true)
    → check_features ids rest ≡ ok tt
unfolding check_features has
check_features-ok ids [] h = refl
check_features-ok ids (x ∷ rest) h =
    rw (
      h x (ground (arith, ==_iff x x)),
      check_features-ok ids rest (λ t q. h t (ground (arith, q))),
    )

sort-OrderedOrCycle :
    (ids : List Str) (g : Graph)
    → IsClosed g
    → ((t : Str) → has t g.nodes ≡ true → has t ids ≡ true)
    → OrderedOrCycle (topo_sort_deterministic ids g)
unfolding topo_sort_deterministic
sort-OrderedOrCycle ids g closed known =
    let checked : check_features ids (kahn g).result ≡ ok tt =
      check_features-ok ids (kahn g).result (λ t h. known t (
        has_of_occ t g.nodes (
          omega (
            arith,
            (occ_pos_iff-has t g.nodes).1,
            occ-result-le_nodes g closed t,
            pos_of_has t (kahn g).result h,
          )))) in
    rw checked (elim (Bool-cases (eqb (length (kahn g).result) (length g.nodes))) [
      | inl all ↦ rw all tt
      | inr some_left ↦ rw some_left tt
    ])

Outcome-cases {ℓ} :
    {A : Type ℓ} (o : Outcome A) → ((e : CompileError) × (o ≡ err e)) ⊎ ((a : A) × (o ≡ ok a))
Outcome-cases (err e) = inl (e, refl)
Outcome-cases (ok a) = inr (a, refl)

cycle_of :
    {A B : Type 0} (r : Outcome (List Str)) (f : List Str → A) (k : A → B) (e : CompileError)
    → OrderedOrCycle r
    → (r >>= (λ order. ok (f order)) >>= λ a. ok (k a)) ≡ err e
    → (missing : List Str) × (e ≡ cycle missing)
cycle_of (ok order) f k e h q = cc
cycle_of (err (cycle missing)) f k e h q = (missing, cc)
cycle_of _ f k e h q = absurd h

-- A compilation of a normalized part that fails has the error of its dependency graph, or reports a
-- cycle.
pub compile_fails_on_graph_or_cycle :
    {N : Type 0} (number_text : N → Str) (fields_of : IntentFeature N → Fields N)
    (part : IntentPart N) (e : CompileError)
    → compile_normalized_part number_text fields_of part ≡ err e
    → (build_dependency_graph part.features ≡ err e) ⊎ ((missing : List Str) × (e ≡ cycle missing))
unfolding compile_normalized_part
compile_fails_on_graph_or_cycle number_text fields_of part e h =
    elim (Outcome-cases (build_dependency_graph part.features)) [
      | inl (problem, failed) ↦
          let same : ◌≡◌ {A = Outcome CompileResult} (err problem) (err e) = rw failed at h in
          let one : problem ≡ e = cc in inl (failed ∙ ap err one)
      | inr (g, built) ↦
          let (nodes, closed) = graph_joins_features part.features g built in
          let known =
            λ (t : Str) (q : has t g.nodes ≡ true). has-by_id t part.features ∙ (rw nodes at q) in
          inr (
            cycle_of (topo_sort_deterministic (keys (features_by_id part.features)) g) _ _ e
              (sort-OrderedOrCycle (keys (features_by_id part.features)) g closed known)
              (rw built at h))
    ]
