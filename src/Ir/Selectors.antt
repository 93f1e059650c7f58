-- ===== src/Ir/Selectors.antt =====
-- src/ir.ts: selectors, and the references that stand on them.
use mathlib.Core.Option.{Option}
use mathlib.Core.List.{List}
use trueform.Base.Text.{Str}
use trueform.Ir.Scalars.{AxisDirection, PointLocator, DatumModifier}

pub data Predicate : Type 0 where
  pred_normal : (value : AxisDirection) → Predicate
  pred_planar : Predicate
  pred_created_by : (feature_id : Str) → Predicate
  pred_role : (value : Str) → Predicate

-- `FaceQuery`, `EdgeQuery` and `SolidQuery` hold predicates and a ranking; `NamedOutput` is a name.
-- A rule of the ranking may hold a selector.
mutual
  pub data Selector : Type 0 where
    selector_face : (predicates : List Predicate) (rank : Rules) → Selector
    selector_edge : (predicates : List Predicate) (rank : Rules) → Selector
    selector_solid : (predicates : List Predicate) (rank : Rules) → Selector
    selector_named : (name : Str) → Selector

  pub data RankRule : Type 0 where
    max_area min_z max_z : RankRule
    closest_to : (target : Selector) → RankRule

  pub data Rules : Type 0 where
    no_rules : Rules
    rule : RankRule → Rules → Rules

pub data PlaneRef : Type 0 where
  on_selector : Selector → PlaneRef
  plane_datum : (ref : Str) → PlaneRef

pub data GeometryRef : Type 0 where
  ref_surface : (selector : Selector) → GeometryRef
  ref_frame : (selector : Selector) → GeometryRef
  ref_edge : (selector : Selector) → GeometryRef
  ref_axis : (selector : Selector) → GeometryRef
  ref_point : (selector : Selector) (locator : Option PointLocator) → GeometryRef

pub record DatumRef : Type 0 where
  pub datum : Str
  pub modifiers : Option (List DatumModifier)
