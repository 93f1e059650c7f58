-- ===== src/Hash/Tests.antt =====
-- src/hash.ts: runs of the definitions on small values.
use trueform.Base.{ℕ, ◌≢◌, arith, ◌≡◌, refl, some, [], true}
use trueform.Base.Text.{codes, str_lt, ◌==◌}
use trueform.Base.Value.{Value, null, undefined, num, arr, obj, nil, cons, end, field, bool}
use trueform.Hash.{stable_stringify, hash_value, fnv, hash_text, offset_basis}
use trueform.Hash.Order.{object, swap, hash_ignores_field_order}
use trueform.Hash.Digits.{read_hash, IsHash, hash_round_trip, hash_value-IsHash}
use trueform.Hash.Change.{one_unit_changes_hash}

abbrev one : ℕ
one = 1

fields_in_order :
    stable_stringify
      (λ n. codes "1")
      (obj (
        field
          (codes "b")
          (num one)
          (field (codes "a") (arr (cons undefined (cons (bool true) nil))) end)))
    ≡ some (codes "{\"a\":[,true],\"b\":1}")
unfolding stable_stringify str_lt ◌==◌
fields_in_order = refl

-- The hash of "a", from the published test vectors of FNV-1a.
hash_of_a : hash_text (fnv offset_basis (codes "a")) ≡ codes "haf63dc4c8601ec8c"
unfolding hash_text fnv
hash_of_a = refl

abbrev a_first : Value ℕ
a_first = obj (field (codes "a") (num one) (field (codes "b") null end))

abbrev b_first : Value ℕ
b_first = obj (field (codes "b") null (field (codes "a") (num one) end))

names_differ : codes "a" ≢ codes "b"
names_differ e = ground (arith, e)

hash_ignores_field_order_example :
    hash_value (λ n. codes "1") a_first ≡ hash_value (λ n. codes "1") b_first
hash_ignores_field_order_example =
    hash_ignores_field_order (λ n. codes "1") a_first b_first
      (object (swap (codes "a") (codes "b") (num one) null end names_differ))

hash_round_trip_example :
    read_hash (hash_text (fnv offset_basis (codes "a"))) ≡ some (fnv offset_basis (codes "a"))
hash_round_trip_example = hash_round_trip (codes "a")

abbrev null_value : Value ℕ
null_value = null

null_hashed :
    hash_value {N = ℕ} (λ n. codes "1") null ≡ some (hash_text (fnv offset_basis (codes "null")))
unfolding hash_value
null_hashed = refl

hash_value-IsHash_example : IsHash (hash_text (fnv offset_basis (codes "null")))
hash_value-IsHash_example = hash_value-IsHash (λ n. codes "1") null_value null_hashed

one_unit_changes_hash_example :
    hash_text (fnv offset_basis (codes "face.2")) ≢ hash_text (fnv offset_basis (codes "face.3"))
one_unit_changes_hash_example =
    one_unit_changes_hash (codes "face.") [] 50 51 tt (omega arith) (omega arith) (omega arith)
