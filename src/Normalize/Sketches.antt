-- ===== src/Normalize/Sketches.antt =====
-- src/ir_normalize.ts: profiles, the entities and the constraints of a sketch.
use trueform.Base.{Option, none, some, List}
use trueform.Base.Text.{Str}
use trueform.Base.Outcome.{ok, err, sketch_constraint_entities_required}
use trueform.Ir.Scalars.{length, angle, count}
use trueform.Ir.Sketches.{
  Profile, rectangle, circle, poly, sketch_loop, ProfileRef, inline_profile, profile_ref,
  SketchProfile, SketchConstraint, SketchRectangle, by_center, by_corner, SketchEntity, sketch_line,
  sketch_arc, sketch_circle, sketch_ellipse, sketch_rectangle, sketch_slot, sketch_polygon,
  sketch_spline, sketch_point,
}
use trueform.Ir.Bodies.{Sketch2D}
use trueform.Params.Expressions.{Run, done, ◌>>>◌}
use trueform.Normalize.Selectors.{Normalizing, plane_or_datum, map?}
use trueform.Normalize.Scalars.{optional, each, scalar, normalize_point2, normalize_point3, triple}

unfoldable pub normalize_profile : {N : Type 0} → Normalizing N → Profile N → Run (Profile N)
normalize_profile c (rectangle width height middle) = scalar c length width >>> λ w.
    scalar c length height >>> λ h.
    optional (normalize_point3 c) middle >>> λ m. done (ok (rectangle w h m))
normalize_profile c (circle size middle) = scalar c length size >>> λ r.
    optional (normalize_point3 c) middle >>> λ m. done (ok (circle r m))
normalize_profile c (poly sides size middle rotation) = scalar c count sides >>> λ n.
    scalar c length size >>> λ r. optional (normalize_point3 c) middle >>> λ m.
    optional (scalar c angle) rotation >>> λ turn. done (ok (poly n r m turn))
normalize_profile c (sketch_loop path holes open_path) =
    done (ok (sketch_loop path holes open_path))

unfoldable pub normalize_profile_ref :
    {N : Type 0} → Normalizing N → ProfileRef N → Run (ProfileRef N)
normalize_profile_ref c (profile_ref name) = done (ok (profile_ref name))
normalize_profile_ref c (inline_profile p) =
    normalize_profile c p >>> λ q. done (ok (inline_profile q))

unfoldable pub normalize_sketch_profile :
    {N : Type 0} → Normalizing N → SketchProfile N → Run (SketchProfile N)
normalize_sketch_profile c entry =
    normalize_profile c entry.profile >>> λ p. done (ok (record entry { profile = p }))

unfoldable pub normalize_rectangle :
    {N : Type 0} → Normalizing N → SketchRectangle N → Run (SketchRectangle N)
normalize_rectangle c (by_center base middle width height rotation) =
    normalize_point2 c middle >>> λ m. scalar c length width >>> λ w.
    scalar c length height >>> λ h.
    optional (scalar c angle) rotation >>> λ turn. done (ok (by_center base m w h turn))
normalize_rectangle c (by_corner base corner width height rotation) =
    normalize_point2 c corner >>> λ m. scalar c length width >>> λ w.
    scalar c length height >>> λ h.
    optional (scalar c angle) rotation >>> λ turn. done (ok (by_corner base m w h turn))

unfoldable pub normalize_sketch_entity :
    {N : Type 0} → Normalizing N → SketchEntity N → Run (SketchEntity N)
normalize_sketch_entity c (sketch_line e) = normalize_point2 c e.start >>> λ a.
    normalize_point2 c e.end >>> λ b. done (ok (sketch_line (record e { start = a; end = b })))
normalize_sketch_entity c (sketch_arc e) = normalize_point2 c e.start >>> λ a.
    normalize_point2 c e.end >>> λ b. normalize_point2 c e.center >>> λ m.
    done (ok (sketch_arc (record e { start = a; end = b; center = m })))
normalize_sketch_entity c (sketch_circle e) = normalize_point2 c e.center >>> λ m.
    scalar c length e.radius >>> λ r.
    done (ok (sketch_circle (record e { center = m; radius = r })))
normalize_sketch_entity c (sketch_ellipse e) = normalize_point2 c e.center >>> λ m.
    scalar c length e.radius_x >>> λ x. scalar c length e.radius_y >>> λ y.
    optional (scalar c angle) e.rotation >>> λ turn.
    done
      (ok (sketch_ellipse (record e { center = m; radius_x = x; radius_y = y; rotation = turn })))
normalize_sketch_entity c (sketch_rectangle e) =
    normalize_rectangle c e >>> λ r. done (ok (sketch_rectangle r))
normalize_sketch_entity c (sketch_slot e) = normalize_point2 c e.center >>> λ m.
    scalar c length e.length >>> λ l. scalar c length e.width >>> λ w.
    optional (scalar c angle) e.rotation >>> λ turn.
    done (ok (sketch_slot (record e { center = m; length = l; width = w; rotation = turn })))
normalize_sketch_entity c (sketch_polygon e) = normalize_point2 c e.center >>> λ m.
    scalar c length e.radius >>> λ r. scalar c count e.sides >>> λ n.
    optional (scalar c angle) e.rotation >>> λ turn.
    done (ok (sketch_polygon (record e { center = m; radius = r; sides = n; rotation = turn })))
normalize_sketch_entity c (sketch_spline e) = each (normalize_point2 c) e.points >>> λ ps.
    optional (scalar c count) e.degree >>> λ d.
    done (ok (sketch_spline (record e { points = ps; degree = d })))
normalize_sketch_entity c (sketch_point e) =
    normalize_point2 c e.point >>> λ p. done (ok (sketch_point (record e { point = p })))

-- A reference to a point is its entity and handle, so it is its own normal form.
unfoldable pub normalize_sketch_constraint :
    {N : Type 0} → Normalizing N → SketchConstraint N → Run (SketchConstraint N)
normalize_sketch_constraint c (SketchConstraint.distance id a b size) =
    scalar c length size >>> λ s. done (ok (SketchConstraint.distance id a b s))
normalize_sketch_constraint c (SketchConstraint.angle id a b size) =
    scalar c angle size >>> λ s. done (ok (SketchConstraint.angle id a b s))
normalize_sketch_constraint c (SketchConstraint.radius id curve size) =
    scalar c length size >>> λ s. done (ok (SketchConstraint.radius id curve s))
normalize_sketch_constraint c (SketchConstraint.fix_point id point x y) =
    optional (scalar c length) x >>> λ new_x. optional (scalar c length) y >>> λ new_y.
    done (ok (SketchConstraint.fix_point id point new_x new_y))
normalize_sketch_constraint c other = done (ok other)

-- The entities of a sketch after the constraints that it may have.
unfoldable pub solved_entities :
    {N : Type 0}
    → Normalizing N
    → Str
    → Option (List (SketchEntity N))
    → Option (List (SketchConstraint N))
    → Run (Option (List (SketchEntity N)))
solved_entities c id entities none = done (ok entities)
solved_entities c id none (some constraints) =
    each (normalize_sketch_constraint c) constraints >>> λ new_constraints.
    done (err (sketch_constraint_entities_required id))
solved_entities c id (some entities) (some constraints) =
    each (normalize_sketch_constraint c) constraints >>> λ new_constraints.
    done (c.solve id entities new_constraints) >>> λ solved. done (ok (some solved))

unfoldable pub normalize_sketch2d : {N : Type 0} → Normalizing N → Sketch2D N → Run (Sketch2D N)
normalize_sketch2d c f = each (normalize_sketch_profile c) f.profiles >>> λ new_profiles.
    optional (each (normalize_sketch_entity c)) f.entities >>> λ new_entities.
    optional (triple c) f.origin >>> λ new_origin.
    solved_entities c f.base.id new_entities f.constraints >>> λ solved. done (
      ok (record f {
        plane = map? (plane_or_datum c) f.plane;
        origin = new_origin;
        entities = solved;
        constraints = none;
        profiles = new_profiles;
      }))
