-- ===== src/Normalize/Numeric/Sketches.antt =====
-- src/ir_normalize.ts: the constraints of a sketch, and a sketch with numbers.
use trueform.Base.{◌≡◌, refl, Option, none, some, List, All}
use trueform.Params.Expressions.{done}
use trueform.Normalize.Selectors.{Normalizing}
use trueform.Normalize.Scalars.{optional, each, scalar, triple}
use trueform.Normalize.Numeric.{Yields, Each, Yields->>>, optional-Yields, each-Yields}
use trueform.Ir.Scalars.{length, angle}
use trueform.Base.Text.{Str}
use trueform.Ir.Sketches.{SketchConstraint, SketchEntity}
use trueform.Ir.Bodies.{Sketch2D}
use trueform.Normalize.Numeric.Scalars.{Any, Yields-Any, IsNumber, scalar-Yields, triple-Yields}
use trueform.Normalize.Sketches.{
  normalize_sketch_profile, normalize_sketch_entity, normalize_sketch_constraint, solved_entities,
  normalize_sketch2d,
}
use trueform.Normalize.Numeric.Profiles.{NumericSketchProfile, normalize_sketch_profile-Yields}
use trueform.Normalize.Numeric.Entities.{NumericEntity, normalize_sketch_entity-Yields}

-- The solver returns numbers when the entities and constraints that it is given are numbers.
abbrev pub NumericConstraint : {N : Type 0} → SketchConstraint N → Type 0
NumericConstraint (SketchConstraint.distance id a b size) = IsNumber size
NumericConstraint (SketchConstraint.angle id a b size) = IsNumber size
NumericConstraint (SketchConstraint.radius id curve size) = IsNumber size
NumericConstraint (SketchConstraint.fix_point id point x y) = Each IsNumber x × Each IsNumber y
NumericConstraint _ = Unit

unfoldable pub SolvesNumbers : {N : Type 0} → Normalizing N → Type 0
SolvesNumbers {N} c =
    (id : Str) (entities : List (SketchEntity N)) (constraints : List (SketchConstraint N))
    → All NumericEntity entities
    → All NumericConstraint constraints
    → Yields (All NumericEntity) (done (c.solve id entities constraints))

pub normalize_sketch_constraint-Yields :
    {N : Type 0} (c : Normalizing N) (x : SketchConstraint N)
    → Yields NumericConstraint (normalize_sketch_constraint c x)
unfolding Yields normalize_sketch_constraint
normalize_sketch_constraint-Yields c (SketchConstraint.distance id a b size) =
    Yields->>> IsNumber NumericConstraint (scalar c length size) _ (scalar-Yields c length size)
      (λ new_size size_h. size_h)
normalize_sketch_constraint-Yields c (SketchConstraint.angle id a b size) =
    Yields->>> IsNumber NumericConstraint (scalar c angle size) _ (scalar-Yields c angle size)
      (λ new_size size_h. size_h)
normalize_sketch_constraint-Yields c (SketchConstraint.radius id curve size) =
    Yields->>> IsNumber NumericConstraint (scalar c length size) _ (scalar-Yields c length size)
      (λ new_size size_h. size_h)
normalize_sketch_constraint-Yields c (SketchConstraint.fix_point id point x y) =
    Yields->>> (Each IsNumber) NumericConstraint (optional (scalar c length) x) _
      (optional-Yields IsNumber (scalar c length) (scalar-Yields c length) x)
      (λ new_x x_h.
        Yields->>> (Each IsNumber) NumericConstraint (optional (scalar c length) y) _
          (optional-Yields IsNumber (scalar c length) (scalar-Yields c length) y)
          (λ new_y y_h. (x_h, y_h)))
normalize_sketch_constraint-Yields c (SketchConstraint.coincident id a b) = tt
normalize_sketch_constraint-Yields c (SketchConstraint.horizontal id line) = tt
normalize_sketch_constraint-Yields c (SketchConstraint.vertical id line) = tt
normalize_sketch_constraint-Yields c (SketchConstraint.parallel id a b) = tt
normalize_sketch_constraint-Yields c (SketchConstraint.perpendicular id a b) = tt
normalize_sketch_constraint-Yields c (SketchConstraint.equal_length id a b) = tt
normalize_sketch_constraint-Yields c (SketchConstraint.tangent id a b) = tt
normalize_sketch_constraint-Yields c (SketchConstraint.concentric id a b) = tt
normalize_sketch_constraint-Yields c (SketchConstraint.point_on_line id point line) = tt
normalize_sketch_constraint-Yields c (SketchConstraint.collinear id a b) = tt
normalize_sketch_constraint-Yields c (SketchConstraint.midpoint id point line) = tt
normalize_sketch_constraint-Yields c (SketchConstraint.symmetry id a b axis) = tt

pub solved_entities-Yields :
    {N : Type 0} (c : Normalizing N) (id : Str) (entities : Option (List (SketchEntity N)))
    (constraints : Option (List (SketchConstraint N)))
    → SolvesNumbers c
    → Each (All NumericEntity) entities
    → Yields (Each (All NumericEntity)) (solved_entities c id entities constraints)
unfolding Yields solved_entities SolvesNumbers
solved_entities-Yields c id entities none solves h = h
solved_entities-Yields c id none (some constraints) solves h =
    Yields->>> (All NumericConstraint) (Each (All NumericEntity))
      (each (normalize_sketch_constraint c) constraints) _
      (each-Yields NumericConstraint (normalize_sketch_constraint c)
        (normalize_sketch_constraint-Yields c) constraints)
      (λ cs cs_h. tt)
solved_entities-Yields c id (some entities) (some constraints) solves h =
    Yields->>> (All NumericConstraint) (Each (All NumericEntity))
      (each (normalize_sketch_constraint c) constraints) _
      (each-Yields NumericConstraint (normalize_sketch_constraint c)
        (normalize_sketch_constraint-Yields c) constraints)
      (λ cs cs_h.
        Yields->>> (All NumericEntity) (Each (All NumericEntity)) (done (c.solve id entities cs)) _
          (solves id entities cs h cs_h) (λ es es_h. es_h))

unfoldable pub NumericSketch2D : {N : Type 0} → Sketch2D N → Type 0
NumericSketch2D f = All NumericSketchProfile f.profiles × Each (All NumericEntity) f.entities

pub normalize_sketch2d-Yields :
    {N : Type 0} (c : Normalizing N) (f : Sketch2D N)
    → SolvesNumbers c
    → Yields NumericSketch2D (normalize_sketch2d c f)
unfolding Yields NumericSketch2D normalize_sketch2d
normalize_sketch2d-Yields c f solves =
    Yields->>> (All NumericSketchProfile) NumericSketch2D
      (each (normalize_sketch_profile c) f.profiles) _
      (each-Yields NumericSketchProfile (normalize_sketch_profile c)
        (normalize_sketch_profile-Yields c) f.profiles)
      (λ new_profiles profiles_h.
        Yields->>> (Each (All NumericEntity)) NumericSketch2D
          (optional (each (normalize_sketch_entity c)) f.entities) _
          (optional-Yields (All NumericEntity) (each (normalize_sketch_entity c))
            (each-Yields NumericEntity (normalize_sketch_entity c)
              (normalize_sketch_entity-Yields c))
            f.entities)
          (λ new_entities entities_h.
            Yields->>> (Each Any) NumericSketch2D (optional (triple c) f.origin) _
              (optional-Yields Any (triple c) (triple-Yields c) f.origin)
              (λ new_origin origin_h.
                Yields->>> (Each (All NumericEntity)) NumericSketch2D
                  (solved_entities c f.base.id new_entities f.constraints) _
                  (solved_entities-Yields c f.base.id new_entities f.constraints solves entities_h)
                  (λ solved solved_h. (profiles_h, solved_h)))))

pub normalize_sketch2d_keeps_base :
    {N : Type 0} (c : Normalizing N) (f : Sketch2D N)
    → Yields (λ g. g.base ≡ f.base) (normalize_sketch2d c f)
unfolding Yields normalize_sketch2d
normalize_sketch2d_keeps_base c f =
    Yields->>> (All NumericSketchProfile) (λ g. g.base ≡ f.base)
      (each (normalize_sketch_profile c) f.profiles) _
      (each-Yields NumericSketchProfile (normalize_sketch_profile c)
        (normalize_sketch_profile-Yields c) f.profiles)
      (λ new_profiles profiles_h.
        Yields->>> (Each (All NumericEntity)) (λ g. g.base ≡ f.base)
          (optional (each (normalize_sketch_entity c)) f.entities) _
          (optional-Yields (All NumericEntity) (each (normalize_sketch_entity c))
            (each-Yields NumericEntity (normalize_sketch_entity c)
              (normalize_sketch_entity-Yields c))
            f.entities)
          (λ new_entities entities_h.
            Yields->>> (Each Any) (λ g. g.base ≡ f.base) (optional (triple c) f.origin) _
              (optional-Yields Any (triple c) (triple-Yields c) f.origin)
              (λ new_origin origin_h.
                Yields->>> Any (λ g. g.base ≡ f.base)
                  (solved_entities c f.base.id new_entities f.constraints) _
                  (Yields-Any (solved_entities c f.base.id new_entities f.constraints))
                  (λ solved solved_h. refl))))
