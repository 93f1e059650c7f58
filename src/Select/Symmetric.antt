-- ===== src/Select/Symmetric.antt =====
-- src/selection_semantics.ts: the two faces beside an edge, in either order.
use trueform.Base.{
  ◌≡◌, refl, sym, ap, ◌∙◌, ◌||◌, Option, none, some, List, [], ◌∷◌, ◌++◌, if◌then◌else◌, Bool-cases,
  inl, inr,
}
use trueform.Base.Text.{Str, ◌==◌, ==_iff, ==-comm}
use trueform.Base.JsMap.{has}
use trueform.Base.Value.{Value, Values, str, arr, nil, cons}
use trueform.Base.Strings.{trim}
use trueform.Graph.Topo.{sort}
use trueform.Graph.References.{is_empty_text}
use trueform.Hash.Order.{insert_swap}
use trueform.Select.Semantics.{
  collect_slots, normalize_adjacent_face_slots, describe_sorted,
  describe_semantic_edge_from_adjacent_faces,
}

-- What a trimmed slot adds to the slots.
abbrev with_slot : Str → List Str → List Str
with_slot s ss = if is_empty_text s || has s ss then ss else ss ++ s ∷ []

sort-with_slot :
    (a b : Str) → sort (with_slot b (with_slot a [])) ≡ sort (with_slot a (with_slot b []))
unfolding has sort
sort-with_slot [] [] = refl
sort-with_slot [] (y ∷ b) = refl
sort-with_slot (x ∷ a) [] = refl
sort-with_slot (x ∷ a) (y ∷ b) = elim (Bool-cases ((x ∷ a) == (y ∷ b))) [
  | inl same ↦
      rw (same, ==-comm (y ∷ b) (x ∷ a), same)
        (ap (λ (s : Str). sort (s ∷ [])) ((==_iff (x ∷ a) (y ∷ b)).0 same))
  | inr differ ↦ rw (differ, ==-comm (y ∷ b) (x ∷ a), differ) (insert_swap (x ∷ a) (y ∷ b) [])
]

-- The slot of an entry, if it is a string.
abbrev entry : {N : Type 0} → Value N → Option Str
entry (str s) = some (trim s)
entry _ = none

abbrev with_entry : Option Str → List Str → List Str
with_entry none ss = ss
with_entry (some s) ss = with_slot s ss

collect_one :
    {N : Type 0} (x : Value N) (xs : Values N) (ss : List Str)
    → collect_slots (cons x xs) ss ≡ collect_slots xs (with_entry (entry x) ss)
unfolding collect_slots
collect_one (str s) xs ss = refl
collect_one _ xs ss = refl

collect_two :
    {N : Type 0} (a b : Value N)
    → collect_slots (cons a (cons b nil)) [] ≡ with_entry (entry b) (with_entry (entry a) [])
unfolding collect_slots
collect_two a b = collect_one a (cons b nil) [] ∙ collect_one b nil (with_entry (entry a) [])

sort-with_entry :
    (a b : Option Str)
    → sort (with_entry b (with_entry a [])) ≡ sort (with_entry a (with_entry b []))
sort-with_entry none none = refl
sort-with_entry none (some b) = refl
sort-with_entry (some a) none = refl
sort-with_entry (some a) (some b) = sort-with_slot a b

-- The semantic edge of two faces does not depend on the order in which they are listed.
pub edge_of_faces_symmetric :
    {N : Type 0} (a b : Value N)
    → describe_semantic_edge_from_adjacent_faces (some (arr (cons a (cons b nil))))
      ≡ describe_semantic_edge_from_adjacent_faces (some (arr (cons b (cons a nil))))
unfolding describe_semantic_edge_from_adjacent_faces normalize_adjacent_face_slots
edge_of_faces_symmetric a b =
    ap (λ (ss : List Str). describe_sorted (sort ss)) (collect_two a b)
    ∙ ap describe_sorted (sort-with_entry (entry a) (entry b))
    ∙ ap (λ (ss : List Str). describe_sorted (sort ss)) (sym (collect_two b a))
