-- ===== src/Select/Signature.antt =====
-- src/selectors.ts: the signature of an edge of a boolean is read back.
use mathlib.Core.List.{reverse, reverse-reverse}
use trueform.Base.{
  ℕ, ◌≡◌, refl, ap, ◌∙◌, Bool, true, false, not, ◌&&◌, some, List, [], ◌∷◌, ◌++◌, every, eqb,
  Bool-cases, inl, inr, arith,
}
use trueform.Base.Text.{Str, codes, ◌==◌}
use trueform.Base.Value.{str}
use trueform.Base.Strings.{is_space, trim_start, trim}
use trueform.Graph.References.{is_empty_text}
use trueform.Hash.{join}
use trueform.Select.Slots.{Relation, bound, semantic_base_slot}
use trueform.Select.Semantics.{relation_text}
use trueform.Select.BooleanEdges.{
  parse_relation, split_bars, full, of_parts, parse_boolean_edge_selection_signature,
  build_boolean_edge_selection_signature,
}
use trueform.Select.Plain.{every-append, every-reverse, base_slot-IsOnly}

-- No white space and no bar.
unfoldable pub is_plain : ℕ → Bool
unfolding is_space
is_plain c = not (is_space c) && not (eqb c 124)

-- A slot with no white space and no bar.
pub record IsPlainSlot (s : Str) : Type 0 where
  pub plain : every is_plain s ≡ true
  pub filled : is_empty_text s ≡ false

-- No white space.
is_solid : ℕ → Bool
is_solid c = not (is_space c)

solid_of_plain : (s : Str) → every is_plain s ≡ true → every is_solid s ≡ true
unfolding is_plain is_solid
solid_of_plain [] h = refl
solid_of_plain (c ∷ s) h = ground (arith, h, solid_of_plain s)

trim_start_solid : (s : Str) → every is_solid s ≡ true → trim_start s ≡ s
unfolding trim_start is_solid
trim_start_solid [] h = refl
trim_start_solid (c ∷ s) h = elim (Bool-cases (is_space c)) [
  | inl space ↦ let wrong : false ≡ true = rw space at h in cc
  | inr other ↦ rw other refl
]

trim_solid : (s : Str) → every is_solid s ≡ true → trim s ≡ s
unfolding trim
trim_solid s h =
    ap (λ (t : Str). reverse (trim_start (reverse t))) (trim_start_solid s h)
    ∙ ap (λ (t : Str). reverse t) (trim_start_solid (reverse s) (every-reverse is_solid s h))
    ∙ reverse-reverse s

bar-solid : every is_solid (codes "|") ≡ true
unfolding is_solid is_space
bar-solid = refl

split_bars_last : (s : Str) → every is_plain s ≡ true → split_bars s ≡ s ∷ []
unfolding split_bars is_plain
split_bars_last [] h = refl
split_bars_last (c ∷ s) h = ground (arith, h, split_bars_last s)

split_bars-append :
    (s t : Str) → every is_plain s ≡ true → split_bars (s ++ codes "|" ++ t) ≡ s ∷ split_bars t
unfolding split_bars is_plain
split_bars-append [] t h = refl
split_bars-append (c ∷ s) t h = ground (arith, h, split_bars-append s t)

-- The parts between bars.
abbrev ArePlain : List Str → Type 0
ArePlain [] = Unit
ArePlain (s ∷ ss) = (every is_plain s ≡ true) × ArePlain ss

split_bars-join :
    (s : Str) (ss : List Str) → ArePlain (s ∷ ss) → split_bars (join (codes "|") (s ∷ ss)) ≡ s ∷ ss
unfolding join
split_bars-join s [] h = split_bars_last s h.0
split_bars-join s (t ∷ ss) h =
    split_bars-append s (join (codes "|") (t ∷ ss)) h.0
    ∙ ap (λ (ts : List Str). s ∷ ts) (split_bars-join t ss h.1)

relation-parsed : (r : Relation) → parse_relation (relation_text r) ≡ some r
unfolding parse_relation
relation-parsed bound = refl
relation-parsed Relation.join = refl

relation-plain : (r : Relation) → every is_plain (relation_text r) ≡ true
unfolding is_plain
relation-plain bound = refl
relation-plain Relation.join = refl

version-plain : every is_plain (codes "boolean.edge.v1") ≡ true
unfolding is_plain
version-plain = refl

full_plain : (s : Str) → is_empty_text s ≡ false → full s ≡ some s
full_plain s h = rw h refl

join-solid :
    (s : Str) (ss : List Str)
    → ArePlain (s ∷ ss)
    → every is_solid (join (codes "|") (s ∷ ss)) ≡ true
unfolding join
join-solid s [] h = solid_of_plain s h.0
join-solid s (t ∷ ss) h =
    every-append is_solid (s ++ codes "|") (join (codes "|") (t ∷ ss))
      (every-append is_solid s (codes "|") (solid_of_plain s h.0) bar-solid) (join-solid t ss h.1)

parts-of :
    (r : Relation) (root target base_root base_target : Str)
    → is_empty_text root ≡ false
    → is_empty_text target ≡ false
    → is_empty_text base_root ≡ false
    → is_empty_text base_target ≡ false
    → of_parts
        (codes "boolean.edge.v1" ∷ relation_text r ∷ root ∷ target ∷ base_root ∷ base_target ∷ [])
      ≡ some (record {
        relation = r;
        root_slot = root;
        target_slot = target;
        base_root_slot = base_root;
        base_target_slot = base_target;
      })
unfolding of_parts ◌==◌
parts-of r root target base_root base_target h k l m = rw (relation-parsed r, h, k, l, m) refl

-- The signature that is built for a boundary slot whose root and target have no white space and no bar
-- is read back as the relation, the root, the target and the base slots of the two.
pub signature_round_trip :
    (N : Type 0) (root : Str) (r : Relation) (target : Str)
    → IsPlainSlot root
    → IsPlainSlot target
    → parse_boolean_edge_selection_signature {N = N}
        (some (str (build_boolean_edge_selection_signature root r target)))
      ≡ some (record {
        relation = r;
        root_slot = root;
        target_slot = target;
        base_root_slot = semantic_base_slot root;
        base_target_slot = semantic_base_slot target;
      })
unfolding parse_boolean_edge_selection_signature build_boolean_edge_selection_signature
signature_round_trip N root r target a b =
    let (root_only, root_full) =
      base_slot-IsOnly is_plain root a.plain
        (ap is_empty_text (trim_solid root (solid_of_plain root a.plain)) ∙ a.filled) in
    let (target_only, target_full) =
      base_slot-IsOnly is_plain target b.plain
        (ap is_empty_text (trim_solid target (solid_of_plain target b.plain)) ∙ b.filled) in
    let rest =
      relation_text r ∷ root ∷ target ∷ semantic_base_slot root ∷ semantic_base_slot target ∷ [] in
    let plain : ArePlain (codes "boolean.edge.v1" ∷ rest) =
      (version-plain, (relation-plain r, (a.plain, (b.plain, (root_only, (target_only, tt)))))) in
    let whole = join (codes "|") (codes "boolean.edge.v1" ∷ rest) in
    let trimmed : trim whole ≡ whole =
      trim_solid whole (join-solid (codes "boolean.edge.v1") rest plain) in
    ap (λ (s : Str). of_parts (split_bars s)) trimmed
    ∙ ap of_parts (split_bars-join (codes "boolean.edge.v1") rest plain)
    ∙ parts-of r root target (semantic_base_slot root) (semantic_base_slot target) a.filled b.filled
        root_full target_full
