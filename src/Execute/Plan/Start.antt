-- ===== src/Execute/Plan/Start.antt =====
-- src/executor.ts: where an incremental plan starts.
use trueform.Base.{
  ◌≤◌, ◌<◌, ◌≡◌, ◌≢◌, true, false, not, ◌&&◌, List, [], ◌∷◌, foldl, length, take, if◌then◌else◌,
  Bool-cases, inl, inr, arith, All, All-map, All-map_two, All-take,
}
use trueform.Base.Text.{Str, ◌==◌, ==_iff, ==-self}
use trueform.Base.JsMap.{JsMap, get, has, add, has-add}
use trueform.Graph.Topo.{Graph}
use trueform.Execute.Closure.{is_empty, downstream_closure}
use trueform.Execute.Closure.Reach.{seed, downstream_closure_iff}
use trueform.Execute.Plan.{find_start, changed_ids, hash_differs}

pub find_start-le : (d order : List Str) → find_start d order ≤ length order
unfolding find_start
find_start-le d [] = omega arith
find_start-le d (id ∷ order) = ground (arith, find_start-le d order)

-- No id before the start is downstream.
pub find_start_before :
    (d order : List Str)
    → All (λ id. (not (is_empty id) && has id d) ≡ false) (take (find_start d order) order)
unfolding find_start
find_start_before d [] = tt
find_start_before d (id ∷ order) = elim (Bool-cases (not (is_empty id) && has id d)) [
  | inl hit ↦ rw hit tt
  | inr miss ↦ rw miss (miss, find_start_before d order)
]

abbrev add_if : JsMap Str → JsMap Str → List Str → Str → List Str
add_if old new changed id =
    if hash_differs (get id old) (get id new) then add id changed else changed

module _ (old new : JsMap Str) (t : Str) where
  changed_grows :
      (order changed : List Str)
      → has t changed ≡ true
      → has t (foldl (add_if old new) changed order) ≡ true
  changed_grows [] changed h = h
  changed_grows (id ∷ order) changed h =
      changed_grows order (add_if old new changed id) (ground (arith, has-add id t changed))

  changed_adds :
      (order changed : List Str)
      → has t order ≡ true
      → hash_differs (get t old) (get t new) ≡ true
      → has t (foldl (add_if old new) changed order) ≡ true
  unfolding has
  changed_adds [] changed h d = cc
  changed_adds (id ∷ order) changed h d = elim (Bool-cases (id == t)) [
    | inl same ↦
        changed_grows order (add_if old new changed id)
          (ground (arith, ==_iff id t, has-add id t changed))
    | inr other ↦ changed_adds order (add_if old new changed id) (ground arith) d
  ]

All-has_self : (xs : List Str) → All (λ id. has id xs ≡ true) xs
unfolding has
All-has_self [] = tt
All-has_self (x ∷ xs) = (rw (==-self x), All-map xs (λ y h. ground arith) (All-has_self xs))

-- An id that is not downstream of the changed ids kept its hash.
same_hash_of_not_downstream :
    (old new : JsMap Str) (order requested : List Str) (g : Graph) (t : Str)
    → has t order ≡ true
    → is_empty t ≡ false
    → has t (downstream_closure (changed_ids old new order requested) g) ≡ false
    → hash_differs (get t old) (get t new) ≡ false
unfolding changed_ids
same_hash_of_not_downstream old new order requested g t here full out =
    elim (Bool-cases (hash_differs (get t old) (get t new))) [
      | inr same ↦ same
      | inl differs ↦
          let reached =
            (downstream_closure_iff (changed_ids old new order requested) g t).1
              (seed t (changed_adds old new t order requested here differs) full) in
          ground (arith, reached)
    ]

-- All ids before the start of an incremental build kept their hashes.
pub prefix_keeps_hashes :
    (old new : JsMap Str) (order requested : List Str) (g : Graph)
    → All (λ id. is_empty id ≡ false) order
    → All
        (λ id. hash_differs (get id old) (get id new) ≡ false)
        (take (find_start (downstream_closure (changed_ids old new order requested) g) order) order)
prefix_keeps_hashes old new order requested g full =
    let d = downstream_closure (changed_ids old new order requested) g in
    let k = find_start d order in
    let kept : All
        (λ id.
          (not (is_empty id) && has id d) ≡ false → hash_differs (get id old) (get id new) ≡ false)
        order =
      All-map_two order
        (λ id (h : has id order ≡ true) (f : is_empty id ≡ false)
            (o : (not (is_empty id) && has id d) ≡ false).
          same_hash_of_not_downstream old new order requested g id h f (ground arith))
        (All-has_self order) full in
    All-map_two (take k order) (λ id f out. f out)
      (All-take
        (λ id.
          (not (is_empty id) && has id d) ≡ false → hash_differs (get id old) (get id new) ≡ false)
        k order kept)
      (find_start_before d order)

-- The ids that are requested stay among the changed ones.
pub changed_ids-ne-nil :
    (old new : JsMap Str) (order requested : List Str)
    → 0 < length requested
    → changed_ids old new order requested ≢ []
unfolding changed_ids has
changed_ids-ne-nil old new order [] h e = omega arith
changed_ids-ne-nil old new order (r ∷ requested) h e =
    let kept = changed_grows old new r order (r ∷ requested) (rw (==-self r)) in cc (e, kept)
