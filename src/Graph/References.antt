-- ===== src/Graph/References.antt =====
-- src/graph.ts: the text of a named selector.
use trueform.Base.{
  ℕ, ◌+◌, ◌≡◌, refl, Bool, true, false, not, ◌&&◌, ◌||◌, Option, none, some, List, [], ◌∷◌, ◌++◌,
  map, eqb, leb, any_of, every, if◌then◌else◌,
}
use trueform.Base.Text.{Str, codes, ◌==◌}
use trueform.Base.JsMap.{has}
use trueform.Base.Strings.{trim}

-- /[,\n;]/
abbrev pub is_separator : ℕ → Bool
is_separator c = eqb c 44 || eqb c 10 || eqb c 59

abbrev starts_separator : Str → Bool
starts_separator [] = false
starts_separator (c ∷ s) = is_separator c

abbrev cons_unit : ℕ → List Str → List Str
cons_unit c [] = (c ∷ []) ∷ []
cons_unit c (p ∷ ps) = (c ∷ p) ∷ ps

-- value.split(/[\n,;]+/g): a run of separators is one.
unfoldable pub split_runs : Str → List Str
split_runs [] = [] ∷ []
split_runs (c ∷ s) =
    let rest = split_runs s in
    if is_separator c then (if starts_separator s then rest else [] ∷ rest) else cons_unit c rest

abbrev pub is_empty_text : Str → Bool
is_empty_text [] = true
is_empty_text (c ∷ s) = false

-- The loop over the raw names; `seen` and `entries` hold the same names.
unfoldable pub collect_names : List Str → List Str → List Str
collect_names entries [] = entries
collect_names entries (raw ∷ rest) =
    let normalized = trim raw in
    let skipped = collect_names entries rest in
    let added = collect_names (entries ++ normalized ∷ []) rest in
    if is_empty_text normalized || has normalized entries then skipped else added

abbrev or_whole : Str → List Str → List Str
or_whole value [] = value ∷ []
or_whole value (e ∷ es) = e ∷ es

unfoldable pub parse_named_selector_references : Str → List Str
unfolding split_runs collect_names
parse_named_selector_references value =
    if any_of is_separator value
    then or_whole value (collect_names [] (split_runs value))
    else value ∷ []

-- The letter that a pattern with the flag `i` reads in a code unit.
abbrev pub fold_case : ℕ → ℕ
fold_case c = if leb 65 c && leb c 90 then c + 32 else c

-- What follows a prefix.
abbrev pub after_prefix : Str → Str → Option Str
after_prefix [] s = some s
after_prefix (p ∷ ps) [] = none
after_prefix (p ∷ ps) (c ∷ s) =
    let rest = after_prefix ps s in if eqb (fold_case c) p then rest else none

abbrev first_of : Option Str → Option Str → Option Str
first_of none o = o
first_of (some s) o = some s

-- What follows /^(edge|face|solid|surface):/i
unfoldable pub kind_body : Str → Option Str
kind_body s = first_of (after_prefix (codes "edge:") s) (
    first_of (after_prefix (codes "face:") s)
      (first_of (after_prefix (codes "solid:") s) (after_prefix (codes "surface:") s)))

abbrev is_some_text : Option Str → Bool
is_some_text none = false
is_some_text (some s) = true

unfoldable pub is_implicit_selection_reference : Str → Bool
unfolding kind_body
is_implicit_selection_reference value = is_some_text (kind_body (trim value))

abbrev pub is_digit : ℕ → Bool
is_digit c = leb 48 c && leb c 57

abbrev pub is_number_body : Option Str → Bool
is_number_body none = false
is_number_body (some s) = not (is_empty_text s) && every is_digit s

-- /^(edge|face|solid|surface):\d+$/i
unfoldable pub is_legacy_transient_selection_reference : Str → Bool
unfolding kind_body
is_legacy_transient_selection_reference value = is_number_body (kind_body (trim value))

-- A text cut at the first place of a code unit.
pub record Cut : Type 0 where
  pub before : Str
  pub after : Str

abbrev grow : ℕ → Option Cut → Option Cut
grow c none = none
grow c (some k) = some (record { before = c ∷ k.before; after = k.after })

-- indexOf and two slices
abbrev pub cut_at : ℕ → Str → Option Cut
cut_at u [] = none
cut_at u (c ∷ s) =
    let rest = cut_at u s in
    if eqb c u then some (record { before = []; after = s }) else grow c rest

-- The units that `.` does not match.
abbrev pub is_line_end : ℕ → Bool
is_line_end c = eqb c 10 || eqb c 13 || (eqb c 0x2028 || eqb c 0x2029)

pub record StableReference : Type 0 where
  pub owner_token : Str
  pub created_by_token : Str

abbrev named_creator : Str → Option Cut → Option StableReference
named_creator owner none = none
named_creator owner (some slot) =
    if is_empty_text slot.before
    then none
    else some (record { owner_token = owner; created_by_token = slot.before })

abbrev after_owner : Option Cut → Option StableReference
after_owner none = none
after_owner (some k) =
    if is_empty_text k.before then none else named_creator k.before (cut_at 46 k.after)

abbrev parse_body : Option Str → Option StableReference
parse_body none = none
parse_body (some body) = if any_of is_line_end body then none else after_owner (cut_at 126 body)

-- The `kind` of the result is not used. An empty body has no `~`.
unfoldable pub parse_stable_selection_reference : Str → Option StableReference
unfolding kind_body
parse_stable_selection_reference value = parse_body (kind_body (trim value))

-- [A-Za-z0-9_-]
abbrev is_token_unit : ℕ → Bool
is_token_unit c =
    (leb 65 c && leb c 90)
    || (leb 97 c && leb c 122)
    || (leb 48 c && leb c 57)
    || (eqb c 95 || eqb c 45)

abbrev starts_other : Str → Bool
starts_other [] = false
starts_other (c ∷ s) = not (is_token_unit c)

-- Each run of other units is a dot, so the second `replace` of the source changes nothing.
unfoldable pub dot_runs : Str → Str
dot_runs [] = []
dot_runs (c ∷ s) =
    let rest = dot_runs s in
    if is_token_unit c then c ∷ rest else if starts_other s then rest else 46 ∷ rest

abbrev drop_first_dot : Str → Str
drop_first_dot [] = []
drop_first_dot (c ∷ s) = if eqb c 46 then s else c ∷ s

abbrev drop_last_dot : Str → Str
drop_last_dot [] = []
drop_last_dot (c ∷ []) = if eqb c 46 then [] else c ∷ []
drop_last_dot (c ∷ d ∷ s) = c ∷ drop_last_dot (d ∷ s)

unfoldable pub normalize_selection_reference_token : Str → Str
unfolding dot_runs
normalize_selection_reference_token value = drop_last_dot (drop_first_dot (dot_runs (trim value)))

-- `toLowerCase` of a code unit, where the result is ASCII: U+212A is the Kelvin sign.
abbrev lower_unit : ℕ → ℕ
lower_unit c = if eqb c 0x212a then 107 else fold_case c

unfoldable pub is_canonical_plane_alias : Str → Bool
is_canonical_plane_alias value = has (map lower_unit (trim value)) (
    codes "top" ∷ codes "bottom" ∷ codes "front" ∷ codes "back" ∷ codes "right" ∷ codes "left" ∷ [])

references_of_list :
    parse_named_selector_references (codes "body; top,body") ≡ codes "body" ∷ codes "top" ∷ []
unfolding parse_named_selector_references trim has ◌==◌
references_of_list = refl

stable_reference :
    parse_stable_selection_reference (codes "Face:body~base.1")
    ≡ some (record { owner_token = codes "body"; created_by_token = codes "base" })
unfolding parse_stable_selection_reference trim
stable_reference = refl
