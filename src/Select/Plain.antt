-- ===== src/Select/Plain.antt =====
-- src/selection_slots.ts: what the base slot keeps of the code units of a slot.
use mathlib.Core.List.{reverse, reverse-cons}
use trueform.Base.{
  ℕ, ◌≡◌, refl, sym, Bool, true, false, not, ◌&&◌, Option, none, some, List, [], ◌∷◌, ◌++◌, every,
  eqb, Bool-cases, inl, inr, arith, subst, any_of,
}
use trueform.Base.Text.{Str, codes, ◌==◌}
use trueform.Base.Strings.{trim_start, trim}
use trueform.Graph.References.{is_empty_text, is_line_end, is_digit}
use trueform.Select.Slots.{
  after_text, before_text, trailing_index, indexed_slot, Indexed, SplitBranchSlot,
  parse_split_branch_slot, semantic_base_slot, grow_text, or_here, in_one_line, without_suffix,
  branch_slot, branch_body, source_or,
}
use trueform.Select.Found.{Each}

pub every-append {ℓ} :
    {A : Type ℓ} (p : A → Bool) (xs ys : List A)
    → every p xs ≡ true
    → every p ys ≡ true
    → every p (xs ++ ys) ≡ true
every-append p [] ys h k = k
every-append p (x ∷ xs) ys h k = ground (arith, every-append p xs ys)

pub every-reverse {ℓ} :
    {A : Type ℓ} (p : A → Bool) (xs : List A) → every p xs ≡ true → every p (reverse xs) ≡ true
every-reverse p [] h = refl
every-reverse p (x ∷ xs) h =
    subst (λ ys. every p ys ≡ true) (sym (reverse-cons x xs))
      (every-append p (reverse xs) (x ∷ []) (every-reverse p xs (ground (arith, h)))
        (ground (arith, h)))

module _ (p : ℕ → Bool) where
  abbrev pub IsOnly : Str → Type 0
  IsOnly s = every p s ≡ true

  trim_start-IsOnly : (s : Str) → IsOnly s → IsOnly (trim_start s)
  unfolding trim_start
  trim_start-IsOnly [] h = refl
  trim_start-IsOnly (c ∷ s) h = ground (arith, trim_start-IsOnly s)

  pub trim-IsOnly : (s : Str) → IsOnly s → IsOnly (trim s)
  unfolding trim
  trim-IsOnly s h =
      every-reverse p _ (trim_start-IsOnly _ (every-reverse p _ (trim_start-IsOnly s h)))

  after_text-Each : (ps s : Str) → IsOnly s → Each IsOnly (after_text ps s)
  unfolding after_text
  after_text-Each [] s h = h
  after_text-Each (q ∷ ps) [] h = tt
  after_text-Each (q ∷ ps) (c ∷ s) h = elim (Bool-cases (eqb c q)) [
    | inl same ↦ rw same (after_text-Each ps s (ground (arith, h)))
    | inr differ ↦ rw differ tt
  ]

  grow_text-Each :
      (c : ℕ) (o : Option Str) → p c ≡ true → Each IsOnly o → Each IsOnly (grow_text c o)
  grow_text-Each c none h k = tt
  grow_text-Each c (some s) h k = ground (arith, h, k)

  before_text-Each : (suffix s : Str) → IsOnly s → Each IsOnly (before_text suffix s)
  unfolding before_text
  before_text-Each suffix [] h = elim (Bool-cases (suffix == [])) [
    | inl same ↦ rw same refl
    | inr differ ↦ rw differ tt
  ]
  before_text-Each suffix (c ∷ s) h = elim (Bool-cases (suffix == c ∷ s)) [
    | inl same ↦ rw same refl
    | inr differ ↦ rw differ (
        grow_text-Each c (before_text suffix s) (ground (arith, h))
          (before_text-Each suffix s (ground (arith, h))))
  ]

  abbrev HasStem : Indexed → Type 0
  HasStem r = IsOnly r.stem

  or_here-Each :
      (c : ℕ) (s : Str) (o : Option Indexed)
      → p c ≡ true
      → Each HasStem o
      → Each HasStem (or_here c s o)
  or_here-Each c s (some r) h k = ground (arith, h, k)
  or_here-Each c s none h k =
      elim (Bool-cases (eqb c 46 && not (is_empty_text s) && every is_digit s)) [
        | inl here ↦ rw here refl
        | inr no_digits ↦ rw no_digits tt
      ]

  trailing_index-Each : (s : Str) → IsOnly s → Each HasStem (trailing_index s)
  unfolding trailing_index
  trailing_index-Each [] h = tt
  trailing_index-Each (c ∷ s) h =
      or_here-Each c s (trailing_index s) (ground (arith, h))
        (trailing_index-Each s (ground (arith, h)))

  in_one_line-Each :
      (index : Str) (o : Option Str) → Each IsOnly o → Each HasStem (in_one_line index o)
  in_one_line-Each index none h = tt
  in_one_line-Each index (some stem) h = elim (Bool-cases (any_of is_line_end stem)) [
    | inl broken ↦ rw broken tt
    | inr whole ↦ rw whole h
  ]

  without_suffix-Each :
      (suffix : Str) (o : Option Indexed) → Each HasStem o → Each HasStem (without_suffix suffix o)
  without_suffix-Each suffix none h = tt
  without_suffix-Each suffix (some r) h =
      in_one_line-Each r.index (before_text suffix r.stem) (before_text-Each suffix r.stem h)

  -- The source slot is not empty, and has no other units.
  abbrev IsSource : SplitBranchSlot → Type 0
  IsSource r = IsOnly r.source_slot × (is_empty_text r.source_slot ≡ false)

  branch_slot-Each : (o : Option Indexed) → Each HasStem o → Each IsSource (branch_slot o)
  branch_slot-Each none h = tt
  branch_slot-Each (some r) h = elim (Bool-cases (is_empty_text (trim r.stem))) [
    | inl empty ↦ rw empty tt
    | inr full ↦ elim (Bool-cases (is_empty_text (trim r.index))) [
      | inl no_index ↦ rw (full, no_index) tt
      | inr index ↦ rw (full, index) (trim-IsOnly r.stem h, full)
    ]
  ]

  branch_body-Each : (o : Option Str) → Each IsOnly o → Each IsSource (branch_body o)
  branch_body-Each none h = tt
  branch_body-Each (some body) h = branch_slot-Each (indexed_slot (codes ".branch") body) (
      unfold indexed_slot in
      without_suffix-Each (codes ".branch") (trailing_index body) (trailing_index-Each body h))

  source_or-IsOnly :
      (slot : Str) (o : Option SplitBranchSlot)
      → Each IsSource o
      → IsOnly slot
      → is_empty_text (trim slot) ≡ false
      → IsOnly (source_or slot o) × (is_empty_text (source_or slot o) ≡ false)
  source_or-IsOnly slot none h only full = (trim-IsOnly slot only, full)
  source_or-IsOnly slot (some r) h only full = h

  -- The base slot of a slot that is not blank is not empty, and has only units that the slot has.
  pub base_slot-IsOnly :
      (slot : Str)
      → IsOnly slot
      → is_empty_text (trim slot) ≡ false
      → IsOnly (semantic_base_slot slot) × (is_empty_text (semantic_base_slot slot) ≡ false)
  unfolding semantic_base_slot parse_split_branch_slot
  base_slot-IsOnly slot only full =
      source_or-IsOnly slot _
        (branch_body-Each _ (after_text-Each (codes "split.") (trim slot) (trim-IsOnly slot only)))
        only full
