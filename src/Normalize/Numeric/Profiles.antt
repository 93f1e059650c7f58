-- ===== src/Normalize/Numeric/Profiles.antt =====
-- src/ir_normalize.ts: profiles of numbers.
use trueform.Normalize.Selectors.{Normalizing}
use trueform.Normalize.Scalars.{optional, scalar, normalize_point3}
use trueform.Normalize.Numeric.{Yields, Each, Yields->>>, optional-Yields}
use trueform.Ir.Scalars.{length, angle, count}
use trueform.Ir.Sketches.{
  Profile, rectangle, circle, poly, sketch_loop, ProfileRef, inline_profile, profile_ref,
  SketchProfile,
}
use trueform.Normalize.Numeric.Scalars.{
  IsNumber, NumericPoint3, scalar-Yields, normalize_point3-Yields,
}
use trueform.Normalize.Sketches.{normalize_profile, normalize_profile_ref, normalize_sketch_profile}

unfoldable pub NumericProfile : {N : Type 0} → Profile N → Type 0
NumericProfile (rectangle width height middle) =
    IsNumber width × IsNumber height × Each NumericPoint3 middle
NumericProfile (circle size middle) = IsNumber size × Each NumericPoint3 middle
NumericProfile (poly sides size middle rotation) =
    IsNumber sides × IsNumber size × Each NumericPoint3 middle × Each IsNumber rotation
NumericProfile (sketch_loop path holes open_path) = Unit

pub normalize_profile-Yields :
    {N : Type 0} (c : Normalizing N) (x : Profile N) → Yields NumericProfile (normalize_profile c x)
unfolding Yields NumericProfile normalize_profile
normalize_profile-Yields c (rectangle width height middle) =
    Yields->>> IsNumber NumericProfile (scalar c length width) _ (scalar-Yields c length width)
      (λ new_width width_h.
        Yields->>> IsNumber NumericProfile (scalar c length height) _
          (scalar-Yields c length height)
          (λ new_height height_h.
            Yields->>> (Each NumericPoint3) NumericProfile (optional (normalize_point3 c) middle) _
              (optional-Yields NumericPoint3 (normalize_point3 c) (normalize_point3-Yields c)
                middle)
              (λ new_middle middle_h. (width_h, height_h, middle_h))))
normalize_profile-Yields c (circle size middle) =
    Yields->>> IsNumber NumericProfile (scalar c length size) _ (scalar-Yields c length size)
      (λ new_size size_h.
        Yields->>> (Each NumericPoint3) NumericProfile (optional (normalize_point3 c) middle) _
          (optional-Yields NumericPoint3 (normalize_point3 c) (normalize_point3-Yields c) middle)
          (λ new_middle middle_h. (size_h, middle_h)))
normalize_profile-Yields c (poly sides size middle rotation) =
    Yields->>> IsNumber NumericProfile (scalar c count sides) _ (scalar-Yields c count sides)
      (λ new_sides sides_h.
        Yields->>> IsNumber NumericProfile (scalar c length size) _ (scalar-Yields c length size)
          (λ new_size size_h.
            Yields->>> (Each NumericPoint3) NumericProfile (optional (normalize_point3 c) middle) _
              (optional-Yields NumericPoint3 (normalize_point3 c) (normalize_point3-Yields c)
                middle)
              (λ new_middle middle_h.
                Yields->>> (Each IsNumber) NumericProfile (optional (scalar c angle) rotation) _
                  (optional-Yields IsNumber (scalar c angle) (scalar-Yields c angle) rotation)
                  (λ new_rotation rotation_h. (sides_h, size_h, middle_h, rotation_h)))))
normalize_profile-Yields c (sketch_loop path holes open_path) = tt

unfoldable pub NumericProfileRef : {N : Type 0} → ProfileRef N → Type 0
NumericProfileRef (profile_ref name) = Unit
NumericProfileRef (inline_profile p) = NumericProfile p

pub normalize_profile_ref-Yields :
    {N : Type 0} (c : Normalizing N) (x : ProfileRef N)
    → Yields NumericProfileRef (normalize_profile_ref c x)
unfolding Yields NumericProfileRef normalize_profile_ref
normalize_profile_ref-Yields c (profile_ref name) = tt
normalize_profile_ref-Yields c (inline_profile p) =
    Yields->>> NumericProfile NumericProfileRef (normalize_profile c p) _
      (normalize_profile-Yields c p) (λ new_p p_h. p_h)

unfoldable pub NumericSketchProfile : {N : Type 0} → SketchProfile N → Type 0
NumericSketchProfile p = NumericProfile p.profile

pub normalize_sketch_profile-Yields :
    {N : Type 0} (c : Normalizing N) (x : SketchProfile N)
    → Yields NumericSketchProfile (normalize_sketch_profile c x)
unfolding Yields NumericSketchProfile normalize_sketch_profile
normalize_sketch_profile-Yields c p =
    Yields->>> NumericProfile NumericSketchProfile (normalize_profile c p.profile) _
      (normalize_profile-Yields c p.profile) (λ new_profile profile_h. profile_h)
