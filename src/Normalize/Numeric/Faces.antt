-- ===== src/Normalize/Numeric/Faces.antt =====
-- src/ir_normalize.ts: the features of Ir/Faces with numbers.
use trueform.Base.{◌≡◌, refl}
use trueform.Normalize.Selectors.{Normalizing}
use trueform.Normalize.Scalars.{optional, scalar, normalize_point3, normalize_axis_spec}
use trueform.Normalize.Numeric.{Yields, Each, Yields->>>, optional-Yields}
use trueform.Ir.Scalars.{length, angle, count}
use trueform.Ir.Faces.{MoveFace, ExtendSurface, Knit, Draft, Thicken, Thread}
use trueform.Normalize.Numeric.Scalars.{
  IsNumber, NumericPoint3, NumericAxis, scalar-Yields, normalize_point3-Yields,
  normalize_axis_spec-Yields,
}
use trueform.Normalize.Faces.{
  normalize_move_face, normalize_extend_surface, normalize_knit, normalize_draft, normalize_thicken,
  normalize_thread,
}

unfoldable pub NumericMoveFace : {N : Type 0} → MoveFace N → Type 0
NumericMoveFace f =
    Each NumericPoint3 f.translation
    × Each NumericAxis f.rotation_axis
    × Each IsNumber f.rotation_angle
    × Each IsNumber f.scale
    × Each NumericPoint3 f.origin

pub normalize_move_face-Yields :
    {N : Type 0} (c : Normalizing N) (f : MoveFace N)
    → Yields (λ (g : MoveFace N). (g.base ≡ f.base) × NumericMoveFace g) (normalize_move_face c f)
unfolding Yields NumericMoveFace normalize_move_face
normalize_move_face-Yields {N} c f =
    Yields->>> (Each NumericPoint3) (λ (g : MoveFace N). (g.base ≡ f.base) × NumericMoveFace g)
      (optional (normalize_point3 c) f.translation) _
      (optional-Yields NumericPoint3 (normalize_point3 c) (normalize_point3-Yields c) f.translation)
      (λ new_translation translation_h.
        Yields->>> (Each NumericAxis) (λ (g : MoveFace N). (g.base ≡ f.base) × NumericMoveFace g)
          (optional (normalize_axis_spec c) f.rotation_axis) _
          (optional-Yields NumericAxis (normalize_axis_spec c) (normalize_axis_spec-Yields c)
            f.rotation_axis)
          (λ new_rotation_axis rotation_axis_h.
            Yields->>> (Each IsNumber) (λ (g : MoveFace N). (g.base ≡ f.base) × NumericMoveFace g)
              (optional (scalar c angle) f.rotation_angle) _
              (optional-Yields IsNumber (scalar c angle) (scalar-Yields c angle) f.rotation_angle)
              (λ new_rotation_angle rotation_angle_h.
                Yields->>> (Each IsNumber)
                  (λ (g : MoveFace N). (g.base ≡ f.base) × NumericMoveFace g)
                  (optional (scalar c count) f.scale) _
                  (optional-Yields IsNumber (scalar c count) (scalar-Yields c count) f.scale)
                  (λ new_scale scale_h.
                    Yields->>> (Each NumericPoint3)
                      (λ (g : MoveFace N). (g.base ≡ f.base) × NumericMoveFace g)
                      (optional (normalize_point3 c) f.origin) _
                      (optional-Yields NumericPoint3 (normalize_point3 c)
                        (normalize_point3-Yields c) f.origin)
                      (λ new_origin origin_h. (
                        refl,
                        (translation_h, rotation_axis_h, rotation_angle_h, scale_h, origin_h),
                      ))))))

unfoldable pub NumericExtendSurface : {N : Type 0} → ExtendSurface N → Type 0
NumericExtendSurface f = IsNumber f.distance

pub normalize_extend_surface-Yields :
    {N : Type 0} (c : Normalizing N) (f : ExtendSurface N)
    → Yields
        (λ (g : ExtendSurface N). (g.base ≡ f.base) × NumericExtendSurface g)
        (normalize_extend_surface c f)
unfolding Yields NumericExtendSurface normalize_extend_surface
normalize_extend_surface-Yields {N} c f =
    Yields->>> IsNumber (λ (g : ExtendSurface N). (g.base ≡ f.base) × NumericExtendSurface g)
      (scalar c length f.distance) _ (scalar-Yields c length f.distance)
      (λ new_distance distance_h. (refl, distance_h))

unfoldable pub NumericKnit : {N : Type 0} → Knit N → Type 0
NumericKnit f = Each IsNumber f.tolerance

pub normalize_knit-Yields :
    {N : Type 0} (c : Normalizing N) (f : Knit N)
    → Yields (λ (g : Knit N). (g.base ≡ f.base) × NumericKnit g) (normalize_knit c f)
unfolding Yields NumericKnit normalize_knit
normalize_knit-Yields {N} c f =
    Yields->>> (Each IsNumber) (λ (g : Knit N). (g.base ≡ f.base) × NumericKnit g)
      (optional (scalar c length) f.tolerance) _
      (optional-Yields IsNumber (scalar c length) (scalar-Yields c length) f.tolerance)
      (λ new_tolerance tolerance_h. (refl, tolerance_h))

unfoldable pub NumericDraft : {N : Type 0} → Draft N → Type 0
NumericDraft f = NumericAxis f.pull_direction × IsNumber f.angle

pub normalize_draft-Yields :
    {N : Type 0} (c : Normalizing N) (f : Draft N)
    → Yields (λ (g : Draft N). (g.base ≡ f.base) × NumericDraft g) (normalize_draft c f)
unfolding Yields NumericDraft normalize_draft
normalize_draft-Yields {N} c f =
    Yields->>> NumericAxis (λ (g : Draft N). (g.base ≡ f.base) × NumericDraft g)
      (normalize_axis_spec c f.pull_direction) _ (normalize_axis_spec-Yields c f.pull_direction)
      (λ new_pull_direction pull_direction_h.
        Yields->>> IsNumber (λ (g : Draft N). (g.base ≡ f.base) × NumericDraft g)
          (scalar c angle f.angle) _ (scalar-Yields c angle f.angle)
          (λ new_angle angle_h. (refl, (pull_direction_h, angle_h))))

unfoldable pub NumericThicken : {N : Type 0} → Thicken N → Type 0
NumericThicken f = IsNumber f.thickness

pub normalize_thicken-Yields :
    {N : Type 0} (c : Normalizing N) (f : Thicken N)
    → Yields (λ (g : Thicken N). (g.base ≡ f.base) × NumericThicken g) (normalize_thicken c f)
unfolding Yields NumericThicken normalize_thicken
normalize_thicken-Yields {N} c f =
    Yields->>> IsNumber (λ (g : Thicken N). (g.base ≡ f.base) × NumericThicken g)
      (scalar c length f.thickness) _ (scalar-Yields c length f.thickness)
      (λ new_thickness thickness_h. (refl, thickness_h))

unfoldable pub NumericThread : {N : Type 0} → Thread N → Type 0
NumericThread f =
    NumericAxis f.axis
    × Each NumericPoint3 f.origin
    × IsNumber f.length
    × IsNumber f.major_diameter
    × Each IsNumber f.minor_diameter
    × IsNumber f.pitch
    × Each IsNumber f.segments_per_turn
    × Each IsNumber f.profile_angle
    × Each IsNumber f.crest_flat
    × Each IsNumber f.root_flat

pub normalize_thread-Yields :
    {N : Type 0} (c : Normalizing N) (f : Thread N)
    → Yields (λ (g : Thread N). (g.base ≡ f.base) × NumericThread g) (normalize_thread c f)
unfolding Yields NumericThread normalize_thread
normalize_thread-Yields {N} c f =
    Yields->>> NumericAxis (λ (g : Thread N). (g.base ≡ f.base) × NumericThread g)
      (normalize_axis_spec c f.axis) _ (normalize_axis_spec-Yields c f.axis)
      (λ new_axis axis_h.
        Yields->>> (Each NumericPoint3) (λ (g : Thread N). (g.base ≡ f.base) × NumericThread g)
          (optional (normalize_point3 c) f.origin) _
          (optional-Yields NumericPoint3 (normalize_point3 c) (normalize_point3-Yields c) f.origin)
          (λ new_origin origin_h.
            Yields->>> IsNumber (λ (g : Thread N). (g.base ≡ f.base) × NumericThread g)
              (scalar c length f.length) _ (scalar-Yields c length f.length)
              (λ new_length length_h.
                Yields->>> IsNumber (λ (g : Thread N). (g.base ≡ f.base) × NumericThread g)
                  (scalar c length f.major_diameter) _ (scalar-Yields c length f.major_diameter)
                  (λ new_major_diameter major_diameter_h.
                    Yields->>> (Each IsNumber)
                      (λ (g : Thread N). (g.base ≡ f.base) × NumericThread g)
                      (optional (scalar c length) f.minor_diameter) _
                      (optional-Yields IsNumber (scalar c length) (scalar-Yields c length)
                        f.minor_diameter)
                      (λ new_minor_diameter minor_diameter_h.
                        Yields->>> IsNumber (λ (g : Thread N). (g.base ≡ f.base) × NumericThread g)
                          (scalar c length f.pitch) _ (scalar-Yields c length f.pitch)
                          (λ new_pitch pitch_h.
                            Yields->>> (Each IsNumber)
                              (λ (g : Thread N). (g.base ≡ f.base) × NumericThread g)
                              (optional (scalar c count) f.segments_per_turn) _
                              (optional-Yields IsNumber (scalar c count) (scalar-Yields c count)
                                f.segments_per_turn)
                              (λ new_segments_per_turn segments_per_turn_h.
                                Yields->>> (Each IsNumber)
                                  (λ (g : Thread N). (g.base ≡ f.base) × NumericThread g)
                                  (optional (scalar c angle) f.profile_angle) _
                                  (optional-Yields IsNumber (scalar c angle) (scalar-Yields c angle)
                                    f.profile_angle)
                                  (λ new_profile_angle profile_angle_h.
                                    Yields->>> (Each IsNumber)
                                      (λ (g : Thread N). (g.base ≡ f.base) × NumericThread g)
                                      (optional (scalar c length) f.crest_flat) _
                                      (optional-Yields IsNumber (scalar c length)
                                        (scalar-Yields c length) f.crest_flat)
                                      (λ new_crest_flat crest_flat_h.
                                        Yields->>> (Each IsNumber)
                                          (λ (g : Thread N). (g.base ≡ f.base) × NumericThread g)
                                          (optional (scalar c length) f.root_flat) _
                                          (optional-Yields IsNumber (scalar c length)
                                            (scalar-Yields c length) f.root_flat)
                                          (λ new_root_flat root_flat_h. (
                                            refl,
                                            (
                                              axis_h, origin_h, length_h, major_diameter_h,
                                              minor_diameter_h, pitch_h, segments_per_turn_h,
                                              profile_angle_h, crest_flat_h, root_flat_h,
                                            ),
                                          )))))))))))
