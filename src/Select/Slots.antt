-- ===== src/Select/Slots.antt =====
-- src/selection_slots.ts, and the slots that src/selectors.ts parses.
use trueform.Base.{
  ℕ, ◌≡◌, refl, Bool, true, not, ◌&&◌, ◌||◌, Option, none, some, List, [], ◌∷◌, eqb, any_of, every,
  if◌then◌else◌,
}
use trueform.Base.Text.{Str, codes, ◌==◌}
use trueform.Base.Strings.{trim}
use trueform.Graph.References.{is_empty_text, is_digit, is_line_end}

-- What follows a prefix.
unfoldable pub after_text : Str → Str → Option Str
after_text [] s = some s
after_text (p ∷ ps) [] = none
after_text (p ∷ ps) (c ∷ s) = let rest = after_text ps s in if eqb c p then rest else none

abbrev pub grow_text : ℕ → Option Str → Option Str
grow_text c none = none
grow_text c (some s) = some (c ∷ s)

-- What precedes a suffix.
unfoldable pub before_text : Str → Str → Option Str
unfolding ◌==◌
before_text suffix [] = if suffix == [] then some [] else none
before_text suffix (c ∷ s) =
    let rest = before_text suffix s in if suffix == c ∷ s then some [] else grow_text c rest

-- s.includes(part)
unfoldable pub includes_text : Str → Str → Bool
unfolding after_text
includes_text part [] = is_empty_text part
includes_text part (c ∷ s) =
    let rest = includes_text part s in
    elim (after_text part (c ∷ s)) [ some r ↦ true | none ↦ rest ]

pub record Indexed : Type 0 where
  pub stem : Str
  pub index : Str

abbrev pub grow_stem : ℕ → Option Indexed → Option Indexed
grow_stem c none = none
grow_stem c (some r) = some (record { stem = c ∷ r.stem; index = r.index })

abbrev pub or_here : ℕ → Str → Option Indexed → Option Indexed
or_here c s (some r) = grow_stem c (some r)
or_here c s none =
    if eqb c 46 && not (is_empty_text s) && every is_digit s
    then some (record { stem = []; index = s })
    else none

-- The groups of /(.*)\.(\d+)$/s: the last dot is one with digits after it.
unfoldable pub trailing_index : Str → Option Indexed
trailing_index [] = none
trailing_index (c ∷ s) = or_here c s (trailing_index s)

-- The groups of /^(.*)<suffix>\.(\d+)$/ for a suffix without line ends.
abbrev pub in_one_line : Str → Option Str → Option Indexed
in_one_line index none = none
in_one_line index (some stem) =
    if any_of is_line_end stem then none else some (record { stem = stem; index = index })

abbrev pub without_suffix : Str → Option Indexed → Option Indexed
without_suffix suffix none = none
without_suffix suffix (some r) = in_one_line r.index (before_text suffix r.stem)

unfoldable pub indexed_slot : Str → Str → Option Indexed
unfolding before_text trailing_index
indexed_slot suffix s = without_suffix suffix (trailing_index s)

pub record SplitBranchSlot : Type 0 where
  pub source_slot : Str
  pub branch : Str

abbrev pub branch_slot : Option Indexed → Option SplitBranchSlot
branch_slot none = none
branch_slot (some r) =
    if is_empty_text (trim r.stem) || is_empty_text (trim r.index)
    then none
    else some (record { source_slot = trim r.stem; branch = trim r.index })

abbrev pub branch_body : Option Str → Option SplitBranchSlot
branch_body none = none
branch_body (some body) = branch_slot (indexed_slot (codes ".branch") body)

-- /^split\.(.+)\.branch\.(\d+)$/ on the trimmed slot: an empty first group is refused below as well.
unfoldable pub parse_split_branch_slot : Str → Option SplitBranchSlot
unfolding after_text indexed_slot trim
parse_split_branch_slot slot = branch_body (after_text (codes "split.") (trim slot))

abbrev pub source_or : Str → Option SplitBranchSlot → Str
source_or slot none = trim slot
source_or slot (some r) = r.source_slot

unfoldable pub semantic_base_slot : Str → Str
unfolding parse_split_branch_slot
semantic_base_slot slot = source_or slot (parse_split_branch_slot slot)

pub data Relation : Type 0 where
  bound join : Relation

pub data ParsedSelectionSlot : Type 0 where
  boundary : (root : Str) (relation : Relation) (target : Str) → ParsedSelectionSlot
  seam : (root : Str) → ParsedSelectionSlot
  end_point : (root index : Str) → ParsedSelectionSlot
  edge : (root index : Str) → ParsedSelectionSlot
  other : (root : Str) → ParsedSelectionSlot

pub record Boundary : Type 0 where
  pub root : Str
  pub relation : Relation
  pub target : Str

abbrev pub grow_root : ℕ → Boundary → Boundary
grow_root c b = record { root = c ∷ b.root; relation = b.relation; target = b.target }

abbrev pub boundary_with : Relation → Option Str → Option Boundary
boundary_with r none = none
boundary_with r (some target) =
    if is_empty_text target
    then none
    else some (record { root = []; relation = r; target = target })

abbrev pub first_boundary : Option Boundary → Option Boundary → Option Boundary
first_boundary none o = o
first_boundary (some b) o = some b

abbrev pub later_boundary : ℕ → Option Boundary → Option Boundary → Option Boundary
later_boundary c none here = here
later_boundary c (some b) here = some (grow_root c b)

-- The groups of /(.*)\.(bound|join)\.(.+)$/s: the last place that matches.
unfoldable pub find_boundary : Str → Option Boundary
unfolding after_text
find_boundary [] = none
find_boundary (c ∷ s) = later_boundary c (find_boundary s) (
    first_boundary (boundary_with bound (after_text (codes ".bound.") (c ∷ s)))
      (boundary_with join (after_text (codes ".join.") (c ∷ s))))

-- What precedes `.seam`, or `.seam.part.` and digits.
unfoldable pub seam_root : Str → Option Str
unfolding before_text indexed_slot
seam_root s = elim (before_text (codes ".seam") s) [
  | some root ↦ some root
  | none ↦ elim (indexed_slot (codes ".seam.part") s) [ none ↦ none | some r ↦ some r.stem ]
]

abbrev pub slot_by_edge : Str → Option Indexed → ParsedSelectionSlot
slot_by_edge s none = other s
slot_by_edge s (some r) = edge r.stem r.index

abbrev pub slot_by_end : Str → Option Indexed → ParsedSelectionSlot
slot_by_end s none = slot_by_edge s (indexed_slot (codes ".edge") s)
slot_by_end s (some r) = end_point r.stem r.index

abbrev pub slot_by_seam : Str → Option Str → ParsedSelectionSlot
slot_by_seam s none = slot_by_end s (indexed_slot (codes ".end") s)
slot_by_seam s (some root) = seam root

abbrev pub slot_by_boundary : Str → Option Boundary → ParsedSelectionSlot
slot_by_boundary s none = slot_by_seam s (seam_root s)
slot_by_boundary s (some b) = boundary b.root b.relation b.target

-- No pattern matches a slot with a line end.
unfoldable pub parse_selection_slot : Str → ParsedSelectionSlot
unfolding find_boundary seam_root trim
parse_selection_slot slot =
    let trimmed = trim slot in
    if any_of is_line_end trimmed
    then other trimmed
    else slot_by_boundary trimmed (find_boundary trimmed)

pub record LegacyDuplicateSlot : Type 0 where
  pub base_slot : Str
  pub index : Str

abbrev pub duplicate_of : Option Indexed → Option LegacyDuplicateSlot
duplicate_of none = none
duplicate_of (some r) =
    if is_empty_text (trim r.stem) || is_empty_text (trim r.index)
    then none
    else some (record { base_slot = trim r.stem; index = trim r.index })

-- The parts of a slot that is not a duplicate.
abbrev pub slot_words : List Str
slot_words =
    codes ".branch."
    ∷ codes ".part."
    ∷ codes ".bound."
    ∷ codes ".join."
    ∷ codes ".seam"
    ∷ codes ".end."
    ∷ codes ".edge."
    ∷ []

unfoldable pub parse_legacy_duplicate_slot : Str → Option LegacyDuplicateSlot
unfolding includes_text indexed_slot trim
parse_legacy_duplicate_slot slot =
    let trimmed = trim slot in
    if any_of (λ word. includes_text word trimmed) slot_words
    then none
    else duplicate_of (indexed_slot [] trimmed)

branch_slot_parsed :
    parse_split_branch_slot (codes " split.side.1.branch.2 ")
    ≡ some (record { source_slot = codes "side.1"; branch = codes "2" })
unfolding parse_split_branch_slot
branch_slot_parsed = refl

bound_slot :
    parse_selection_slot (codes "a.join.b.bound.c.d")
    ≡ boundary (codes "a.join.b") bound (codes "c.d")
unfolding parse_selection_slot
bound_slot = refl

seam_slot : parse_selection_slot (codes "side.1.seam.part.3") ≡ seam (codes "side.1")
unfolding parse_selection_slot
seam_slot = refl
