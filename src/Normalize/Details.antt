-- ===== src/Normalize/Details.antt =====
-- src/ir_normalize.ts: holes, edge treatments, boolean operations and patterns.
use trueform.Base.Outcome.{ok}
use trueform.Params.Expressions.{Run, done, ◌>>>◌}
use trueform.Normalize.Selectors.{Normalizing, normalize_selector, map?}
use trueform.Normalize.Scalars.{optional, each, scalar, normalize_point2, normalize_depth}
use trueform.Ir.Scalars.{length, angle, count, Point2D}
use trueform.Ir.Details.{
  HoleCounterbore, HoleCountersink, Hole, Fillet, VariableFilletEntry, VariableFillet, Chamfer,
  VariableChamferEntry, VariableChamfer, BooleanOp, PatternLinear, PatternCircular,
}

unfoldable pub counterbore :
    {N : Type 0} → Normalizing N → HoleCounterbore N → Run (HoleCounterbore N)
counterbore c f = scalar c length f.diameter >>> λ new_diameter.
    scalar c length f.depth >>> λ new_depth.
    done (ok (record f { diameter = new_diameter; depth = new_depth }))

unfoldable pub countersink :
    {N : Type 0} → Normalizing N → HoleCountersink N → Run (HoleCountersink N)
countersink c f = scalar c length f.diameter >>> λ new_diameter.
    scalar c angle f.angle >>> λ new_angle.
    done (ok (record f { diameter = new_diameter; angle = new_angle }))

unfoldable pub fillet_entry :
    {N : Type 0} → Normalizing N → VariableFilletEntry N → Run (VariableFilletEntry N)
fillet_entry c f = scalar c length f.radius >>> λ new_radius.
    done (ok (record f { edge = normalize_selector c f.edge; radius = new_radius }))

unfoldable pub chamfer_entry :
    {N : Type 0} → Normalizing N → VariableChamferEntry N → Run (VariableChamferEntry N)
chamfer_entry c f = scalar c length f.distance >>> λ new_distance.
    done (ok (record f { edge = normalize_selector c f.edge; distance = new_distance }))

unfoldable pub count_pair : {N : Type 0} → Normalizing N → Point2D N → Run (Point2D N)
count_pair c p = scalar c count p.0 >>> λ x. scalar c count p.1 >>> λ y. done (ok (x, y))

unfoldable pub normalize_hole : {N : Type 0} → Normalizing N → Hole N → Run (Hole N)
normalize_hole c f = scalar c length f.diameter >>> λ new_diameter.
    normalize_depth c f.depth >>> λ new_depth.
    optional (normalize_point2 c) f.position >>> λ new_position.
    optional (counterbore c) f.counterbore >>> λ new_counterbore.
    optional (countersink c) f.countersink >>> λ new_countersink. done (
      ok (record f {
        on_face = normalize_selector c f.on_face;
        diameter = new_diameter;
        depth = new_depth;
        position = new_position;
        counterbore = new_counterbore;
        countersink = new_countersink;
      }))

unfoldable pub normalize_fillet : {N : Type 0} → Normalizing N → Fillet N → Run (Fillet N)
normalize_fillet c f = scalar c length f.radius >>> λ new_radius.
    done (ok (record f { edges = normalize_selector c f.edges; radius = new_radius }))

unfoldable pub normalize_variable_fillet :
    {N : Type 0} → Normalizing N → VariableFillet N → Run (VariableFillet N)
normalize_variable_fillet c f = each (fillet_entry c) f.entries >>> λ new_entries.
    done (ok (record f { source = normalize_selector c f.source; entries = new_entries }))

unfoldable pub normalize_chamfer : {N : Type 0} → Normalizing N → Chamfer N → Run (Chamfer N)
normalize_chamfer c f = scalar c length f.distance >>> λ new_distance.
    done (ok (record f { edges = normalize_selector c f.edges; distance = new_distance }))

unfoldable pub normalize_variable_chamfer :
    {N : Type 0} → Normalizing N → VariableChamfer N → Run (VariableChamfer N)
normalize_variable_chamfer c f = each (chamfer_entry c) f.entries >>> λ new_entries.
    done (ok (record f { source = normalize_selector c f.source; entries = new_entries }))

unfoldable pub normalize_boolean_op : {N : Type 0} → Normalizing N → BooleanOp → BooleanOp
normalize_boolean_op c f = record f {
  left = normalize_selector c f.left;
  right = normalize_selector c f.right;
}

unfoldable pub normalize_pattern_linear :
    {N : Type 0} → Normalizing N → PatternLinear N → Run (PatternLinear N)
normalize_pattern_linear c f = normalize_point2 c f.spacing >>> λ new_spacing.
    count_pair c f.count >>> λ new_count. done (
      ok (record f {
        origin = normalize_selector c f.origin;
        source = map? (normalize_selector c) f.source;
        spacing = new_spacing;
        count = new_count;
      }))

unfoldable pub normalize_pattern_circular :
    {N : Type 0} → Normalizing N → PatternCircular N → Run (PatternCircular N)
normalize_pattern_circular c f = scalar c count f.count >>> λ new_count. done (
    ok (record f {
      origin = normalize_selector c f.origin;
      source = map? (normalize_selector c) f.source;
      count = new_count;
    }))
