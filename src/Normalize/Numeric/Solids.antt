-- ===== src/Normalize/Numeric/Solids.antt =====
-- src/ir_normalize.ts: solids that are swept, moved or hollow, with numbers.
use trueform.Base.{◌≡◌, refl}
use trueform.Normalize.Selectors.{Normalizing}
use trueform.Normalize.Scalars.{optional, scalar, normalize_point3, normalize_axis_spec}
use trueform.Normalize.Numeric.{Yields, Each, Yields->>>, optional-Yields}
use trueform.Ir.Scalars.{length, angle, count}
use trueform.Ir.Bodies.{Sweep, Shell, Pipe, PipeSweep, HexTubeSweep, MoveBody}
use trueform.Normalize.Sketches.{normalize_profile_ref}
use trueform.Normalize.Paths.{normalize_path}
use trueform.Normalize.Numeric.Profiles.{NumericProfileRef, normalize_profile_ref-Yields}
use trueform.Normalize.Numeric.Paths.{NumericPath, normalize_path-Yields}
use trueform.Normalize.Numeric.Scalars.{
  IsNumber, NumericPoint3, NumericAxis, scalar-Yields, normalize_point3-Yields,
  normalize_axis_spec-Yields,
}
use trueform.Normalize.Bodies.{
  normalize_sweep, normalize_move_body, normalize_shell, normalize_pipe, normalize_pipe_sweep,
  normalize_hex_tube_sweep,
}

unfoldable pub NumericSweep : {N : Type 0} → Sweep N → Type 0
NumericSweep f = NumericProfileRef f.profile × NumericPath f.path

pub normalize_sweep-Yields :
    {N : Type 0} (c : Normalizing N) (f : Sweep N)
    → Yields
        (λ (g : Sweep N). ((g.base ≡ f.base) × (g.mode ≡ f.mode)) × NumericSweep g)
        (normalize_sweep c f)
unfolding Yields NumericSweep normalize_sweep
normalize_sweep-Yields {N} c f =
    Yields->>> NumericProfileRef
      (λ (g : Sweep N). ((g.base ≡ f.base) × (g.mode ≡ f.mode)) × NumericSweep g)
      (normalize_profile_ref c f.profile) _ (normalize_profile_ref-Yields c f.profile)
      (λ new_profile profile_h.
        Yields->>> NumericPath
          (λ (g : Sweep N). ((g.base ≡ f.base) × (g.mode ≡ f.mode)) × NumericSweep g)
          (normalize_path c f.path) _ (normalize_path-Yields c f.path)
          (λ new_path path_h. ((refl, refl), (profile_h, path_h))))

unfoldable pub NumericMoveBody : {N : Type 0} → MoveBody N → Type 0
NumericMoveBody f =
    Each NumericPoint3 f.translation
    × Each NumericAxis f.rotation_axis
    × Each IsNumber f.rotation_angle
    × Each IsNumber f.scale
    × Each NumericPoint3 f.origin

pub normalize_move_body-Yields :
    {N : Type 0} (c : Normalizing N) (f : MoveBody N)
    → Yields (λ (g : MoveBody N). (g.base ≡ f.base) × NumericMoveBody g) (normalize_move_body c f)
unfolding Yields NumericMoveBody normalize_move_body
normalize_move_body-Yields {N} c f =
    Yields->>> (Each NumericPoint3) (λ (g : MoveBody N). (g.base ≡ f.base) × NumericMoveBody g)
      (optional (normalize_point3 c) f.translation) _
      (optional-Yields NumericPoint3 (normalize_point3 c) (normalize_point3-Yields c) f.translation)
      (λ new_translation translation_h.
        Yields->>> (Each NumericAxis) (λ (g : MoveBody N). (g.base ≡ f.base) × NumericMoveBody g)
          (optional (normalize_axis_spec c) f.rotation_axis) _
          (optional-Yields NumericAxis (normalize_axis_spec c) (normalize_axis_spec-Yields c)
            f.rotation_axis)
          (λ new_rotation_axis rotation_axis_h.
            Yields->>> (Each IsNumber) (λ (g : MoveBody N). (g.base ≡ f.base) × NumericMoveBody g)
              (optional (scalar c angle) f.rotation_angle) _
              (optional-Yields IsNumber (scalar c angle) (scalar-Yields c angle) f.rotation_angle)
              (λ new_rotation_angle rotation_angle_h.
                Yields->>> (Each IsNumber)
                  (λ (g : MoveBody N). (g.base ≡ f.base) × NumericMoveBody g)
                  (optional (scalar c count) f.scale) _
                  (optional-Yields IsNumber (scalar c count) (scalar-Yields c count) f.scale)
                  (λ new_scale scale_h.
                    Yields->>> (Each NumericPoint3)
                      (λ (g : MoveBody N). (g.base ≡ f.base) × NumericMoveBody g)
                      (optional (normalize_point3 c) f.origin) _
                      (optional-Yields NumericPoint3 (normalize_point3 c)
                        (normalize_point3-Yields c) f.origin)
                      (λ new_origin origin_h. (
                        refl,
                        (translation_h, rotation_axis_h, rotation_angle_h, scale_h, origin_h),
                      ))))))

unfoldable pub NumericShell : {N : Type 0} → Shell N → Type 0
NumericShell f = IsNumber f.thickness

pub normalize_shell-Yields :
    {N : Type 0} (c : Normalizing N) (f : Shell N)
    → Yields (λ (g : Shell N). (g.base ≡ f.base) × NumericShell g) (normalize_shell c f)
unfolding Yields NumericShell normalize_shell
normalize_shell-Yields {N} c f =
    Yields->>> IsNumber (λ (g : Shell N). (g.base ≡ f.base) × NumericShell g)
      (scalar c length f.thickness) _ (scalar-Yields c length f.thickness)
      (λ new_thickness thickness_h. (refl, thickness_h))

unfoldable pub NumericPipe : {N : Type 0} → Pipe N → Type 0
NumericPipe f =
    IsNumber f.length
    × IsNumber f.outer_diameter
    × Each IsNumber f.inner_diameter
    × Each NumericPoint3 f.origin

pub normalize_pipe-Yields :
    {N : Type 0} (c : Normalizing N) (f : Pipe N)
    → Yields (λ (g : Pipe N). (g.base ≡ f.base) × NumericPipe g) (normalize_pipe c f)
unfolding Yields NumericPipe normalize_pipe
normalize_pipe-Yields {N} c f =
    Yields->>> IsNumber (λ (g : Pipe N). (g.base ≡ f.base) × NumericPipe g)
      (scalar c length f.length) _ (scalar-Yields c length f.length)
      (λ new_length length_h.
        Yields->>> IsNumber (λ (g : Pipe N). (g.base ≡ f.base) × NumericPipe g)
          (scalar c length f.outer_diameter) _ (scalar-Yields c length f.outer_diameter)
          (λ new_outer_diameter outer_diameter_h.
            Yields->>> (Each IsNumber) (λ (g : Pipe N). (g.base ≡ f.base) × NumericPipe g)
              (optional (scalar c length) f.inner_diameter) _
              (optional-Yields IsNumber (scalar c length) (scalar-Yields c length) f.inner_diameter)
              (λ new_inner_diameter inner_diameter_h.
                Yields->>> (Each NumericPoint3) (λ (g : Pipe N). (g.base ≡ f.base) × NumericPipe g)
                  (optional (normalize_point3 c) f.origin) _
                  (optional-Yields NumericPoint3 (normalize_point3 c) (normalize_point3-Yields c)
                    f.origin)
                  (λ new_origin origin_h.
                    (refl, (length_h, outer_diameter_h, inner_diameter_h, origin_h))))))

unfoldable pub NumericPipeSweep : {N : Type 0} → PipeSweep N → Type 0
NumericPipeSweep f = NumericPath f.path × IsNumber f.outer_diameter × Each IsNumber f.inner_diameter

pub normalize_pipe_sweep-Yields :
    {N : Type 0} (c : Normalizing N) (f : PipeSweep N)
    → Yields
        (λ (g : PipeSweep N). ((g.base ≡ f.base) × (g.mode ≡ f.mode)) × NumericPipeSweep g)
        (normalize_pipe_sweep c f)
unfolding Yields NumericPipeSweep normalize_pipe_sweep
normalize_pipe_sweep-Yields {N} c f =
    Yields->>> NumericPath
      (λ (g : PipeSweep N). ((g.base ≡ f.base) × (g.mode ≡ f.mode)) × NumericPipeSweep g)
      (normalize_path c f.path) _ (normalize_path-Yields c f.path)
      (λ new_path path_h.
        Yields->>> IsNumber
          (λ (g : PipeSweep N). ((g.base ≡ f.base) × (g.mode ≡ f.mode)) × NumericPipeSweep g)
          (scalar c length f.outer_diameter) _ (scalar-Yields c length f.outer_diameter)
          (λ new_outer_diameter outer_diameter_h.
            Yields->>> (Each IsNumber)
              (λ (g : PipeSweep N). ((g.base ≡ f.base) × (g.mode ≡ f.mode)) × NumericPipeSweep g)
              (optional (scalar c length) f.inner_diameter) _
              (optional-Yields IsNumber (scalar c length) (scalar-Yields c length) f.inner_diameter)
              (λ new_inner_diameter inner_diameter_h.
                ((refl, refl), (path_h, outer_diameter_h, inner_diameter_h)))))

unfoldable pub NumericHexTubeSweep : {N : Type 0} → HexTubeSweep N → Type 0
NumericHexTubeSweep f =
    NumericPath f.path × IsNumber f.outer_across_flats × Each IsNumber f.inner_across_flats

pub normalize_hex_tube_sweep-Yields :
    {N : Type 0} (c : Normalizing N) (f : HexTubeSweep N)
    → Yields
        (λ (g : HexTubeSweep N). ((g.base ≡ f.base) × (g.mode ≡ f.mode)) × NumericHexTubeSweep g)
        (normalize_hex_tube_sweep c f)
unfolding Yields NumericHexTubeSweep normalize_hex_tube_sweep
normalize_hex_tube_sweep-Yields {N} c f =
    Yields->>> NumericPath
      (λ (g : HexTubeSweep N). ((g.base ≡ f.base) × (g.mode ≡ f.mode)) × NumericHexTubeSweep g)
      (normalize_path c f.path) _ (normalize_path-Yields c f.path)
      (λ new_path path_h.
        Yields->>> IsNumber
          (λ (g : HexTubeSweep N). ((g.base ≡ f.base) × (g.mode ≡ f.mode)) × NumericHexTubeSweep g)
          (scalar c length f.outer_across_flats) _ (scalar-Yields c length f.outer_across_flats)
          (λ new_outer_across_flats outer_across_flats_h.
            Yields->>> (Each IsNumber)
              (λ (g : HexTubeSweep N).
                ((g.base ≡ f.base) × (g.mode ≡ f.mode)) × NumericHexTubeSweep g)
              (optional (scalar c length) f.inner_across_flats) _
              (optional-Yields IsNumber (scalar c length) (scalar-Yields c length)
                f.inner_across_flats)
              (λ new_inner_across_flats inner_across_flats_h.
                ((refl, refl), (path_h, outer_across_flats_h, inner_across_flats_h)))))
