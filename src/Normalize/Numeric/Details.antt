-- ===== src/Normalize/Numeric/Details.antt =====
-- src/ir_normalize.ts: the features of Ir/Details with numbers.
use trueform.Base.{◌≡◌, refl, All}
use trueform.Normalize.Selectors.{Normalizing}
use trueform.Normalize.Scalars.{optional, each, scalar, normalize_point2, normalize_depth}
use trueform.Normalize.Numeric.{Yields, Each, Yields->>>, optional-Yields, each-Yields}
use trueform.Ir.Scalars.{length, angle, count, Point2D}
use trueform.Ir.Details.{
  HoleCounterbore, HoleCountersink, Hole, Fillet, VariableFilletEntry, VariableFillet, Chamfer,
  VariableChamferEntry, VariableChamfer, PatternLinear, PatternCircular,
}
use trueform.Normalize.Numeric.Scalars.{
  IsNumber, NumericPoint2, NumericDepth, scalar-Yields, normalize_point2-Yields,
  normalize_depth-Yields,
}
use trueform.Normalize.Details.{
  counterbore, countersink, fillet_entry, chamfer_entry, count_pair, normalize_hole,
  normalize_fillet, normalize_variable_fillet, normalize_chamfer, normalize_variable_chamfer,
  normalize_pattern_linear, normalize_pattern_circular,
}

unfoldable pub NumericHoleCounterbore : {N : Type 0} → HoleCounterbore N → Type 0
NumericHoleCounterbore p = IsNumber p.diameter × IsNumber p.depth

pub counterbore-Yields :
    {N : Type 0} (c : Normalizing N) (x : HoleCounterbore N)
    → Yields NumericHoleCounterbore (counterbore c x)
unfolding Yields NumericHoleCounterbore counterbore
counterbore-Yields c p =
    Yields->>> IsNumber NumericHoleCounterbore (scalar c length p.diameter) _
      (scalar-Yields c length p.diameter)
      (λ new_diameter diameter_h.
        Yields->>> IsNumber NumericHoleCounterbore (scalar c length p.depth) _
          (scalar-Yields c length p.depth) (λ new_depth depth_h. (diameter_h, depth_h)))

unfoldable pub NumericHoleCountersink : {N : Type 0} → HoleCountersink N → Type 0
NumericHoleCountersink p = IsNumber p.diameter × IsNumber p.angle

pub countersink-Yields :
    {N : Type 0} (c : Normalizing N) (x : HoleCountersink N)
    → Yields NumericHoleCountersink (countersink c x)
unfolding Yields NumericHoleCountersink countersink
countersink-Yields c p =
    Yields->>> IsNumber NumericHoleCountersink (scalar c length p.diameter) _
      (scalar-Yields c length p.diameter)
      (λ new_diameter diameter_h.
        Yields->>> IsNumber NumericHoleCountersink (scalar c angle p.angle) _
          (scalar-Yields c angle p.angle) (λ new_angle angle_h. (diameter_h, angle_h)))

unfoldable pub NumericVariableFilletEntry : {N : Type 0} → VariableFilletEntry N → Type 0
NumericVariableFilletEntry p = IsNumber p.radius

pub fillet_entry-Yields :
    {N : Type 0} (c : Normalizing N) (x : VariableFilletEntry N)
    → Yields NumericVariableFilletEntry (fillet_entry c x)
unfolding Yields NumericVariableFilletEntry fillet_entry
fillet_entry-Yields c p =
    Yields->>> IsNumber NumericVariableFilletEntry (scalar c length p.radius) _
      (scalar-Yields c length p.radius) (λ new_radius radius_h. radius_h)

unfoldable pub NumericVariableChamferEntry : {N : Type 0} → VariableChamferEntry N → Type 0
NumericVariableChamferEntry p = IsNumber p.distance

pub chamfer_entry-Yields :
    {N : Type 0} (c : Normalizing N) (x : VariableChamferEntry N)
    → Yields NumericVariableChamferEntry (chamfer_entry c x)
unfolding Yields NumericVariableChamferEntry chamfer_entry
chamfer_entry-Yields c p =
    Yields->>> IsNumber NumericVariableChamferEntry (scalar c length p.distance) _
      (scalar-Yields c length p.distance) (λ new_distance distance_h. distance_h)

pub count_pair-Yields :
    {N : Type 0} (c : Normalizing N) (x : Point2D N) → Yields NumericPoint2 (count_pair c x)
unfolding Yields count_pair
count_pair-Yields c p =
    Yields->>> IsNumber NumericPoint2 (scalar c count p.0) _ (scalar-Yields c count p.0) (λ x x_h.
      Yields->>> IsNumber NumericPoint2 (scalar c count p.1) _ (scalar-Yields c count p.1)
        (λ y y_h. (x_h, y_h)))

unfoldable pub NumericHole : {N : Type 0} → Hole N → Type 0
NumericHole f =
    IsNumber f.diameter
    × NumericDepth f.depth
    × Each NumericPoint2 f.position
    × Each NumericHoleCounterbore f.counterbore
    × Each NumericHoleCountersink f.countersink

pub normalize_hole-Yields :
    {N : Type 0} (c : Normalizing N) (f : Hole N)
    → Yields (λ (g : Hole N). (g.base ≡ f.base) × NumericHole g) (normalize_hole c f)
unfolding Yields NumericHole normalize_hole
normalize_hole-Yields {N} c f =
    Yields->>> IsNumber (λ (g : Hole N). (g.base ≡ f.base) × NumericHole g)
      (scalar c length f.diameter) _ (scalar-Yields c length f.diameter)
      (λ new_diameter diameter_h.
        Yields->>> NumericDepth (λ (g : Hole N). (g.base ≡ f.base) × NumericHole g)
          (normalize_depth c f.depth) _ (normalize_depth-Yields c f.depth)
          (λ new_depth depth_h.
            Yields->>> (Each NumericPoint2) (λ (g : Hole N). (g.base ≡ f.base) × NumericHole g)
              (optional (normalize_point2 c) f.position) _
              (optional-Yields NumericPoint2 (normalize_point2 c) (normalize_point2-Yields c)
                f.position)
              (λ new_position position_h.
                Yields->>> (Each NumericHoleCounterbore)
                  (λ (g : Hole N). (g.base ≡ f.base) × NumericHole g)
                  (optional (counterbore c) f.counterbore) _
                  (optional-Yields NumericHoleCounterbore (counterbore c) (counterbore-Yields c)
                    f.counterbore)
                  (λ new_counterbore counterbore_h.
                    Yields->>> (Each NumericHoleCountersink)
                      (λ (g : Hole N). (g.base ≡ f.base) × NumericHole g)
                      (optional (countersink c) f.countersink) _
                      (optional-Yields NumericHoleCountersink (countersink c) (countersink-Yields c)
                        f.countersink)
                      (λ new_countersink countersink_h.
                        (refl, (diameter_h, depth_h, position_h, counterbore_h, countersink_h)))))))

unfoldable pub NumericFillet : {N : Type 0} → Fillet N → Type 0
NumericFillet f = IsNumber f.radius

pub normalize_fillet-Yields :
    {N : Type 0} (c : Normalizing N) (f : Fillet N)
    → Yields (λ (g : Fillet N). (g.base ≡ f.base) × NumericFillet g) (normalize_fillet c f)
unfolding Yields NumericFillet normalize_fillet
normalize_fillet-Yields {N} c f =
    Yields->>> IsNumber (λ (g : Fillet N). (g.base ≡ f.base) × NumericFillet g)
      (scalar c length f.radius) _ (scalar-Yields c length f.radius)
      (λ new_radius radius_h. (refl, radius_h))

unfoldable pub NumericVariableFillet : {N : Type 0} → VariableFillet N → Type 0
NumericVariableFillet f = All NumericVariableFilletEntry f.entries

pub normalize_variable_fillet-Yields :
    {N : Type 0} (c : Normalizing N) (f : VariableFillet N)
    → Yields
        (λ (g : VariableFillet N). (g.base ≡ f.base) × NumericVariableFillet g)
        (normalize_variable_fillet c f)
unfolding Yields NumericVariableFillet normalize_variable_fillet
normalize_variable_fillet-Yields {N} c f =
    Yields->>> (All NumericVariableFilletEntry)
      (λ (g : VariableFillet N). (g.base ≡ f.base) × NumericVariableFillet g)
      (each (fillet_entry c) f.entries) _
      (each-Yields NumericVariableFilletEntry (fillet_entry c) (fillet_entry-Yields c) f.entries)
      (λ new_entries entries_h. (refl, entries_h))

unfoldable pub NumericChamfer : {N : Type 0} → Chamfer N → Type 0
NumericChamfer f = IsNumber f.distance

pub normalize_chamfer-Yields :
    {N : Type 0} (c : Normalizing N) (f : Chamfer N)
    → Yields (λ (g : Chamfer N). (g.base ≡ f.base) × NumericChamfer g) (normalize_chamfer c f)
unfolding Yields NumericChamfer normalize_chamfer
normalize_chamfer-Yields {N} c f =
    Yields->>> IsNumber (λ (g : Chamfer N). (g.base ≡ f.base) × NumericChamfer g)
      (scalar c length f.distance) _ (scalar-Yields c length f.distance)
      (λ new_distance distance_h. (refl, distance_h))

unfoldable pub NumericVariableChamfer : {N : Type 0} → VariableChamfer N → Type 0
NumericVariableChamfer f = All NumericVariableChamferEntry f.entries

pub normalize_variable_chamfer-Yields :
    {N : Type 0} (c : Normalizing N) (f : VariableChamfer N)
    → Yields
        (λ (g : VariableChamfer N). (g.base ≡ f.base) × NumericVariableChamfer g)
        (normalize_variable_chamfer c f)
unfolding Yields NumericVariableChamfer normalize_variable_chamfer
normalize_variable_chamfer-Yields {N} c f =
    Yields->>> (All NumericVariableChamferEntry)
      (λ (g : VariableChamfer N). (g.base ≡ f.base) × NumericVariableChamfer g)
      (each (chamfer_entry c) f.entries) _
      (each-Yields NumericVariableChamferEntry (chamfer_entry c) (chamfer_entry-Yields c) f.entries)
      (λ new_entries entries_h. (refl, entries_h))

unfoldable pub NumericPatternLinear : {N : Type 0} → PatternLinear N → Type 0
NumericPatternLinear f = NumericPoint2 f.spacing × NumericPoint2 f.count

pub normalize_pattern_linear-Yields :
    {N : Type 0} (c : Normalizing N) (f : PatternLinear N)
    → Yields
        (λ (g : PatternLinear N). (g.base ≡ f.base) × NumericPatternLinear g)
        (normalize_pattern_linear c f)
unfolding Yields NumericPatternLinear normalize_pattern_linear
normalize_pattern_linear-Yields {N} c f =
    Yields->>> NumericPoint2 (λ (g : PatternLinear N). (g.base ≡ f.base) × NumericPatternLinear g)
      (normalize_point2 c f.spacing) _ (normalize_point2-Yields c f.spacing)
      (λ new_spacing spacing_h.
        Yields->>> NumericPoint2
          (λ (g : PatternLinear N). (g.base ≡ f.base) × NumericPatternLinear g)
          (count_pair c f.count) _ (count_pair-Yields c f.count)
          (λ new_count count_h. (refl, (spacing_h, count_h))))

unfoldable pub NumericPatternCircular : {N : Type 0} → PatternCircular N → Type 0
NumericPatternCircular f = IsNumber f.count

pub normalize_pattern_circular-Yields :
    {N : Type 0} (c : Normalizing N) (f : PatternCircular N)
    → Yields
        (λ (g : PatternCircular N). (g.base ≡ f.base) × NumericPatternCircular g)
        (normalize_pattern_circular c f)
unfolding Yields NumericPatternCircular normalize_pattern_circular
normalize_pattern_circular-Yields {N} c f =
    Yields->>> IsNumber (λ (g : PatternCircular N). (g.base ≡ f.base) × NumericPatternCircular g)
      (scalar c count f.count) _ (scalar-Yields c count f.count)
      (λ new_count count_h. (refl, count_h))
