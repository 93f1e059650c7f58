-- ===== src/Select/Matching.antt =====
-- src/selectors.ts: the metadata that predicates and rankings read.
use trueform.Base.{Bool, true, false, Option, some, List, [], ◌∷◌, if◌then◌else◌}
use trueform.Base.Text.{Str, codes, ◌==◌}
use trueform.Base.JsMap.{get}
use trueform.Base.Value.{Value, bool, num, str, arr, nil, cons}
use trueform.Base.Numbers.{Numbers}
use trueform.Base.Outcome.{Outcome, ok, err, ◌>>=◌, selector_meta_missing}
use trueform.Ir.Scalars.{AxisDirection, plus_x, minus_x, plus_y, minus_y, plus_z, minus_z}
use trueform.Ir.Selectors.{Predicate, pred_normal, pred_planar, pred_created_by, pred_role}
use trueform.Select.Context.{Selection}

abbrev pub axis_text : AxisDirection → Str
axis_text plus_x = codes "+X"
axis_text minus_x = codes "-X"
axis_text plus_y = codes "+Y"
axis_text minus_y = codes "-Y"
axis_text plus_z = codes "+Z"
axis_text minus_z = codes "-Z"

abbrev pub string_or : {N : Type 0} → Str → Option (Value N) → Outcome Str
string_or key (some (str s)) = ok s
string_or key _ = err (selector_meta_missing key)

unfoldable pub require_string : {N : Type 0} → Selection N → Str → Outcome Str
unfolding get
require_string selection key = string_or key (get key selection.meta)

abbrev pub bool_or : {N : Type 0} → Str → Option (Value N) → Outcome Bool
bool_or key (some (bool b)) = ok b
bool_or key _ = err (selector_meta_missing key)

unfoldable pub require_bool : {N : Type 0} → Selection N → Str → Outcome Bool
unfolding get
require_bool selection key = bool_or key (get key selection.meta)

unfoldable pub predicate_matches : {N : Type 0} → Predicate → Selection N → Outcome Bool
unfolding require_string require_bool ◌==◌
predicate_matches pred_planar selection = require_bool selection (codes "planar")
predicate_matches (pred_normal value) selection =
    require_string selection (codes "normal") >>= λ s. ok (s == axis_text value)
predicate_matches (pred_created_by id) selection =
    require_string selection (codes "createdBy") >>= λ s. ok (s == id)
predicate_matches (pred_role value) selection =
    require_string selection (codes "role") >>= λ s. ok (s == value)

-- selector.predicates.every(...)
unfoldable pub matches_every : {N : Type 0} → List Predicate → Selection N → Outcome Bool
unfolding predicate_matches
matches_every [] selection = ok true
matches_every (p ∷ ps) selection =
    predicate_matches p selection >>= λ b. if b then matches_every ps selection else ok false

-- The filter of `resolveSelectorSet`, with the test of the kind.
unfoldable pub matching :
    {N : Type 0}
    → (Selection N → Bool)
    → List Predicate
    → List (Selection N)
    → Outcome (List (Selection N))
unfolding matches_every
matching of_kind predicates [] = ok []
matching of_kind predicates (s ∷ ss) =
    (if of_kind s then matches_every predicates s else ok false) >>= λ b.
    matching of_kind predicates ss >>= λ rest. ok (if b then s ∷ rest else rest)

module _ {N : Type 0} (num_ops : Numbers N) where
  abbrev pub number_or : Str → Option (Value N) → Outcome N
  number_or key (some (num n)) = if num_ops.equal n n then ok n else err (selector_meta_missing key)
  number_or key _ = err (selector_meta_missing key)

  -- A number that is not NaN.
  unfoldable pub require_number : Selection N → Str → Outcome N
  unfolding get
  require_number selection key = number_or key (get key selection.meta)

abbrev pub center_or : {N : Type 0} → Option (Value N) → Outcome (N × N × N)
center_or (some (arr (cons (num x) (cons (num y) (cons (num z) nil))))) = ok (x, y, z)
center_or _ = err (selector_meta_missing (codes "center"))

unfoldable pub selection_center : {N : Type 0} → Selection N → Outcome (N × N × N)
unfolding get
selection_center selection = center_or (get (codes "center") selection.meta)
