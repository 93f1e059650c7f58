-- ===== src/Hash/Order.antt =====
-- src/hash.ts: the order in which the fields of an object were written.
use trueform.Base.{
  ◌≡◌, ◌≢◌, refl, ap, ◌∙◌, fun_ext, Option, none, some, List, [], ◌∷◌, ◌++◌, map, arith,
}
use trueform.Base.Text.{Str, codes, ==_iff, str_lt_trans, str_lt_total, str_lt_irrefl}
use trueform.Base.JsMap.{JsMap, get, keys}
use trueform.Base.Value.{Value, Values, Fields, arr, obj, nil, cons, end, field}
use trueform.Graph.Topo.{insert, sort}
use trueform.Hash.{
  stable_stringify, item_texts, field_texts, object_text, entry, join, hash_value, json_string,
  shown,
}

-- The same value, but for the order of the fields at any depth. Fields that change places have
-- different names.
mutual
  pub data SameValue {N : Type 0} : Value N → Value N → Type 0 where
    same : (x : Value N) → SameValue x x
    array : {xs ys : Values N} → SameItems xs ys → SameValue (arr xs) (arr ys)
    object : {fs gs : Fields N} → SameFields fs gs → SameValue (obj fs) (obj gs)

  pub data SameItems {N : Type 0} : Values N → Values N → Type 0 where
    no_items : SameItems nil nil
    item :
        {x y : Value N} {xs ys : Values N}
        → SameValue x y
        → SameItems xs ys
        → SameItems (cons x xs) (cons y ys)

  pub data SameFields {N : Type 0} : Fields N → Fields N → Type 0 where
    no_fields : SameFields end end
    one :
        (k : Str) {x y : Value N} {fs gs : Fields N}
        → SameValue x y
        → SameFields fs gs
        → SameFields (field k x fs) (field k y gs)
    swap :
        (k j : Str) (x y : Value N) (fs : Fields N)
        → k ≢ j
        → SameFields (field k x (field j y fs)) (field j y (field k x fs))
    chain : {fs gs hs : Fields N} → SameFields fs gs → SameFields gs hs → SameFields fs hs

pub insert_swap : (k j : Str) (xs : List Str) → insert k (insert j xs) ≡ insert j (insert k xs)
unfolding insert
insert_swap k j [] = ground (arith, str_lt_total k j, str_lt_trans k j k, str_lt_irrefl k)
insert_swap k j (x ∷ xs) = ground (
  arith,
  insert_swap k j xs,
  str_lt_total k j,
  str_lt_trans k j k,
  str_lt_irrefl k,
  str_lt_trans k x j,
  str_lt_trans j x k,
  str_lt_trans x k j,
  str_lt_trans x j k,
  str_lt_trans k j x,
  str_lt_trans j k x,
  str_lt_total x j,
  str_lt_total x k,
)

-- Two maps with the same keys in order, and the same values.
abbrev Alike : JsMap (Option Str) → JsMap (Option Str) → Type 0
Alike m n = (sort (keys m) ≡ sort (keys n)) × ((k : Str) → get k m ≡ get k n)

Alike-cons :
    (k : Str) (t : Option Str) (m n : JsMap (Option Str))
    → Alike m n
    → Alike ((k, t) ∷ m) ((k, t) ∷ n)
unfolding sort get
Alike-cons k t m n (order, at) = (ap (insert k) order, λ j. ground (arith, at j))

Alike-swap :
    (k j : Str) (s t : Option Str) (m : JsMap (Option Str))
    → k ≢ j
    → Alike ((k, s) ∷ (j, t) ∷ m) ((j, t) ∷ (k, s) ∷ m)
unfolding sort get
Alike-swap k j s t m differ =
    (insert_swap k j (sort (keys m)), λ i. ground (arith, differ, ==_iff k i, ==_iff j i))

entry-Alike : (m n : JsMap (Option Str)) → ((k : Str) → get k m ≡ get k n) → entry m ≡ entry n
unfolding entry
entry-Alike m n at = fun_ext (λ k.
    ap
      (λ (t : Option (Option Str)).
        json_string k ++ codes ":" ++ shown (elim t [ none ↦ none | some s ↦ s ]))
      (at k))

object_text-Alike : (m n : JsMap (Option Str)) → Alike m n → object_text m ≡ object_text n
unfolding object_text
object_text-Alike m n (order, at) =
    ap (λ (ts : List Str). codes "{" ++ join (codes ",") ts ++ codes "}")
      (ap (map (entry m)) order
        ∙ ap (λ (f : Str → Str). map f (sort (keys n))) (entry-Alike m n at))

module _ {N : Type 0} (number_text : N → Str) where
  mutual
    unfolding stable_stringify

    text_of_same :
        {x y : Value N}
        → SameValue x y
        → stable_stringify number_text x ≡ stable_stringify number_text y
    text_of_same (same x) = refl
    text_of_same (array h) =
        ap (λ (ts : List Str). some (codes "[" ++ join (codes ",") ts ++ codes "]"))
          (texts_of_same h)
    text_of_same (object h) = ap some (object_text-Alike _ _ (Alike-of_same h))

    texts_of_same :
        {xs ys : Values N} → SameItems xs ys → item_texts number_text xs ≡ item_texts number_text ys
    texts_of_same no_items = refl
    texts_of_same (item h k) = rw (text_of_same h, texts_of_same k) refl

    Alike-of_same :
        {fs gs : Fields N}
        → SameFields fs gs
        → Alike (field_texts number_text fs) (field_texts number_text gs)
    Alike-of_same no_fields = (refl, λ k. refl)
    Alike-of_same (one k h r) = rw (text_of_same h) (Alike-cons k _ _ _ (Alike-of_same r))
    Alike-of_same (swap k j x y fs differ) = Alike-swap k j _ _ _ differ
    Alike-of_same (chain h r) =
        let (order, at) = Alike-of_same h in
        let (order', at') = Alike-of_same r in (order ∙ order', λ k. at k ∙ at' k)

  -- Values that differ only in the order of the fields of their objects, at any depth, have the same
  -- hash.
  pub hash_ignores_field_order :
      (x y : Value N) → SameValue x y → hash_value number_text x ≡ hash_value number_text y
  unfolding hash_value
  hash_ignores_field_order x y h = rw (text_of_same h) refl
