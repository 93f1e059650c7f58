-- ===== src/Normalize/Numeric/Bodies.antt =====
-- src/ir_normalize.ts: the features of Ir/Bodies with numbers.
use trueform.Base.{◌≡◌, refl, All}
use trueform.Normalize.Selectors.{Normalizing}
use trueform.Normalize.Scalars.{
  optional, each, scalar, normalize_point3, triple, normalize_axis_spec, normalize_extrude_axis,
  normalize_depth, normalize_angle,
}
use trueform.Normalize.Numeric.{Yields, Each, Yields->>>, optional-Yields, each-Yields}
use trueform.Ir.Scalars.{length}
use trueform.Ir.Bodies.{DatumPlane, DatumAxis, Extrude, Plane, Surface, Revolve, Loft}
use trueform.Normalize.Sketches.{normalize_profile_ref}
use trueform.Normalize.Numeric.Profiles.{NumericProfileRef, normalize_profile_ref-Yields}
use trueform.Normalize.Numeric.Scalars.{
  Any, IsNumber, NumericPoint3, NumericAxis, NumericExtrudeAxis, NumericDepth, NumericAngle,
  scalar-Yields, normalize_point3-Yields, triple-Yields, normalize_axis_spec-Yields,
  normalize_extrude_axis-Yields, normalize_depth-Yields, normalize_angle-Yields,
}
use trueform.Normalize.Bodies.{
  normalize_datum_plane, normalize_datum_axis, normalize_extrude, normalize_plane,
  normalize_surface, normalize_revolve, normalize_loft,
}

unfoldable pub NumericDatumPlane : {N : Type 0} → DatumPlane N → Type 0
NumericDatumPlane f = NumericAxis f.normal × Each NumericAxis f.x_axis

pub normalize_datum_plane-Yields :
    {N : Type 0} (c : Normalizing N) (f : DatumPlane N)
    → Yields
        (λ (g : DatumPlane N). (g.base ≡ f.base) × NumericDatumPlane g)
        (normalize_datum_plane c f)
unfolding Yields NumericDatumPlane normalize_datum_plane
normalize_datum_plane-Yields {N} c f =
    Yields->>> NumericAxis (λ (g : DatumPlane N). (g.base ≡ f.base) × NumericDatumPlane g)
      (normalize_axis_spec c f.normal) _ (normalize_axis_spec-Yields c f.normal)
      (λ new_normal normal_h.
        Yields->>> (Each Any) (λ (g : DatumPlane N). (g.base ≡ f.base) × NumericDatumPlane g)
          (optional (triple c) f.origin) _
          (optional-Yields Any (triple c) (triple-Yields c) f.origin)
          (λ new_origin origin_h.
            Yields->>> (Each NumericAxis)
              (λ (g : DatumPlane N). (g.base ≡ f.base) × NumericDatumPlane g)
              (optional (normalize_axis_spec c) f.x_axis) _
              (optional-Yields NumericAxis (normalize_axis_spec c) (normalize_axis_spec-Yields c)
                f.x_axis)
              (λ new_x_axis x_axis_h. (refl, (normal_h, x_axis_h)))))

unfoldable pub NumericDatumAxis : {N : Type 0} → DatumAxis N → Type 0
NumericDatumAxis f = NumericAxis f.direction

pub normalize_datum_axis-Yields :
    {N : Type 0} (c : Normalizing N) (f : DatumAxis N)
    → Yields
        (λ (g : DatumAxis N). (g.base ≡ f.base) × NumericDatumAxis g)
        (normalize_datum_axis c f)
unfolding Yields NumericDatumAxis normalize_datum_axis
normalize_datum_axis-Yields {N} c f =
    Yields->>> NumericAxis (λ (g : DatumAxis N). (g.base ≡ f.base) × NumericDatumAxis g)
      (normalize_axis_spec c f.direction) _ (normalize_axis_spec-Yields c f.direction)
      (λ new_direction direction_h.
        Yields->>> (Each Any) (λ (g : DatumAxis N). (g.base ≡ f.base) × NumericDatumAxis g)
          (optional (triple c) f.origin) _
          (optional-Yields Any (triple c) (triple-Yields c) f.origin)
          (λ new_origin origin_h. (refl, direction_h)))

unfoldable pub NumericExtrude : {N : Type 0} → Extrude N → Type 0
NumericExtrude f =
    NumericProfileRef f.profile × NumericDepth f.depth × Each NumericExtrudeAxis f.axis

pub normalize_extrude-Yields :
    {N : Type 0} (c : Normalizing N) (f : Extrude N)
    → Yields
        (λ (g : Extrude N). ((g.base ≡ f.base) × (g.mode ≡ f.mode)) × NumericExtrude g)
        (normalize_extrude c f)
unfolding Yields NumericExtrude normalize_extrude
normalize_extrude-Yields {N} c f =
    Yields->>> NumericProfileRef
      (λ (g : Extrude N). ((g.base ≡ f.base) × (g.mode ≡ f.mode)) × NumericExtrude g)
      (normalize_profile_ref c f.profile) _ (normalize_profile_ref-Yields c f.profile)
      (λ new_profile profile_h.
        Yields->>> NumericDepth
          (λ (g : Extrude N). ((g.base ≡ f.base) × (g.mode ≡ f.mode)) × NumericExtrude g)
          (normalize_depth c f.depth) _ (normalize_depth-Yields c f.depth)
          (λ new_depth depth_h.
            Yields->>> (Each NumericExtrudeAxis)
              (λ (g : Extrude N). ((g.base ≡ f.base) × (g.mode ≡ f.mode)) × NumericExtrude g)
              (optional (normalize_extrude_axis c) f.axis) _
              (optional-Yields NumericExtrudeAxis (normalize_extrude_axis c)
                (normalize_extrude_axis-Yields c) f.axis)
              (λ new_axis axis_h. ((refl, refl), (profile_h, depth_h, axis_h)))))

unfoldable pub NumericPlane : {N : Type 0} → Plane N → Type 0
NumericPlane f = IsNumber f.width × IsNumber f.height × Each NumericPoint3 f.origin

pub normalize_plane-Yields :
    {N : Type 0} (c : Normalizing N) (f : Plane N)
    → Yields (λ (g : Plane N). (g.base ≡ f.base) × NumericPlane g) (normalize_plane c f)
unfolding Yields NumericPlane normalize_plane
normalize_plane-Yields {N} c f =
    Yields->>> IsNumber (λ (g : Plane N). (g.base ≡ f.base) × NumericPlane g)
      (scalar c length f.width) _ (scalar-Yields c length f.width)
      (λ new_width width_h.
        Yields->>> IsNumber (λ (g : Plane N). (g.base ≡ f.base) × NumericPlane g)
          (scalar c length f.height) _ (scalar-Yields c length f.height)
          (λ new_height height_h.
            Yields->>> (Each NumericPoint3) (λ (g : Plane N). (g.base ≡ f.base) × NumericPlane g)
              (optional (normalize_point3 c) f.origin) _
              (optional-Yields NumericPoint3 (normalize_point3 c) (normalize_point3-Yields c)
                f.origin)
              (λ new_origin origin_h. (refl, (width_h, height_h, origin_h)))))

unfoldable pub NumericSurface : {N : Type 0} → Surface N → Type 0
NumericSurface f = NumericProfileRef f.profile

pub normalize_surface-Yields :
    {N : Type 0} (c : Normalizing N) (f : Surface N)
    → Yields (λ (g : Surface N). (g.base ≡ f.base) × NumericSurface g) (normalize_surface c f)
unfolding Yields NumericSurface normalize_surface
normalize_surface-Yields {N} c f =
    Yields->>> NumericProfileRef (λ (g : Surface N). (g.base ≡ f.base) × NumericSurface g)
      (normalize_profile_ref c f.profile) _ (normalize_profile_ref-Yields c f.profile)
      (λ new_profile profile_h. (refl, profile_h))

unfoldable pub NumericRevolve : {N : Type 0} → Revolve N → Type 0
NumericRevolve f = NumericProfileRef f.profile × Each NumericAngle f.angle

pub normalize_revolve-Yields :
    {N : Type 0} (c : Normalizing N) (f : Revolve N)
    → Yields
        (λ (g : Revolve N). ((g.base ≡ f.base) × (g.mode ≡ f.mode)) × NumericRevolve g)
        (normalize_revolve c f)
unfolding Yields NumericRevolve normalize_revolve
normalize_revolve-Yields {N} c f =
    Yields->>> NumericProfileRef
      (λ (g : Revolve N). ((g.base ≡ f.base) × (g.mode ≡ f.mode)) × NumericRevolve g)
      (normalize_profile_ref c f.profile) _ (normalize_profile_ref-Yields c f.profile)
      (λ new_profile profile_h.
        Yields->>> (Each NumericAngle)
          (λ (g : Revolve N). ((g.base ≡ f.base) × (g.mode ≡ f.mode)) × NumericRevolve g)
          (optional (normalize_angle c) f.angle) _
          (optional-Yields NumericAngle (normalize_angle c) (normalize_angle-Yields c) f.angle)
          (λ new_angle angle_h. ((refl, refl), (profile_h, angle_h))))

unfoldable pub NumericLoft : {N : Type 0} → Loft N → Type 0
NumericLoft f = All NumericProfileRef f.profiles

pub normalize_loft-Yields :
    {N : Type 0} (c : Normalizing N) (f : Loft N)
    → Yields
        (λ (g : Loft N). ((g.base ≡ f.base) × (g.mode ≡ f.mode)) × NumericLoft g)
        (normalize_loft c f)
unfolding Yields NumericLoft normalize_loft
normalize_loft-Yields {N} c f =
    Yields->>> (All NumericProfileRef)
      (λ (g : Loft N). ((g.base ≡ f.base) × (g.mode ≡ f.mode)) × NumericLoft g)
      (each (normalize_profile_ref c) f.profiles) _
      (each-Yields NumericProfileRef (normalize_profile_ref c) (normalize_profile_ref-Yields c)
        f.profiles)
      (λ new_profiles profiles_h. ((refl, refl), profiles_h))
