-- ===== src/Hash/Digits.antt =====
-- src/hash.ts: the digits of a hash.
use trueform.Base.{
  ℕ, zero, suc, ◌+◌, ◌-◌, ◌*◌, ◌/◌, ◌%◌, ◌≤◌, ◌<◌, ◌≡◌, refl, ap, ◌∙◌, Bool, true, ◌&&◌, ◌||◌,
  Option, none, some, [], ◌∷◌, ◌++◌, arith, ltb, leb, eqb, if◌then◌else◌, length, length-append,
  every, subst,
}
use mathlib.Core.Option
use trueform.Base.Text.{Str}
use trueform.Base.Value.{Value}
use trueform.Hash.{
  word, fnv, fnv_step, hex_digit, to_hex, zeros, pad_start, hash_text, hash_value, offset_basis,
  stable_stringify,
}

abbrev pub is_hex_digit : ℕ → Bool
is_hex_digit c = (leb 48 c && leb c 57) || (leb 97 c && leb c 102)

abbrev pub digit_value : ℕ → ℕ
digit_value c = if ltb c 58 then c - 48 else c - 87

-- The number that hexadecimal digits stand for, after a number that was read.
unfoldable pub read_hex : ℕ → Str → ℕ
read_hex n [] = n
read_hex n (c ∷ s) = read_hex (n * 16 + digit_value c) s

-- Reads a hash: the letter h, then digits.
unfoldable pub read_hash : Str → Option ℕ
unfolding read_hex
read_hash [] = none
read_hash (c ∷ s) = if eqb c 104 then some (read_hex 0 s) else none

-- A hash is the letter h and sixteen lower-case hexadecimal digits.
abbrev pub IsHash : Str → Type 0
IsHash [] = ⊥
IsHash (c ∷ s) = (c ≡ 104) × (length s ≡ 16) × (every is_hex_digit s ≡ true)

read_hex-append : (n : ℕ) (s t : Str) → read_hex n (s ++ t) ≡ read_hex (read_hex n s) t
unfolding read_hex
read_hex-append n [] t = refl
read_hex-append n (c ∷ s) t = read_hex-append (n * 16 + digit_value c) s t

read_hex-zeros : (k : ℕ) → read_hex 0 (zeros k) ≡ 0
unfolding read_hex zeros
read_hex-zeros zero = refl
read_hex-zeros (suc k) = read_hex-zeros k

every-append :
    (s t : Str)
    → every is_hex_digit s ≡ true
    → every is_hex_digit t ≡ true
    → every is_hex_digit (s ++ t) ≡ true
every-append [] t p q = q
every-append (c ∷ s) t p q = ground (arith, every-append s t)

digit_lem : (d : ℕ) → d < 16 → (digit_value (hex_digit d) ≡ d) × (is_hex_digit (hex_digit d) ≡ true)
unfolding hex_digit
digit_lem d h = ground arith

power16 : ℕ → ℕ
power16 zero = 1
power16 (suc k) = 16 * power16 k

read-to_hex : (fuel n : ℕ) → n < power16 fuel → read_hex 0 (to_hex fuel n) ≡ n
unfolding to_hex read_hex power16
read-to_hex zero n h = omega arith
read-to_hex (suc fuel) n h = ground (
  arith,
  digit_lem n,
  digit_lem (n % 16),
  read-to_hex fuel (n / 16),
  read_hex-append 0 (to_hex fuel (n / 16)) (hex_digit (n % 16) ∷ []),
)

to_hex-shape :
    (fuel n : ℕ) → (length (to_hex fuel n) ≤ fuel) × (every is_hex_digit (to_hex fuel n) ≡ true)
unfolding to_hex
to_hex-shape zero n = (omega arith, refl)
to_hex-shape (suc fuel) n = ground (
  arith,
  digit_lem n,
  digit_lem (n % 16),
  to_hex-shape fuel (n / 16),
  length-append {0} (to_hex fuel (n / 16)) (hex_digit (n % 16) ∷ []),
  every-append (to_hex fuel (n / 16)) (hex_digit (n % 16) ∷ []),
)

zeros-shape : (k : ℕ) → (length (zeros k) ≡ k) × (every is_hex_digit (zeros k) ≡ true)
unfolding zeros
zeros-shape zero = (refl, refl)
zeros-shape (suc k) = ground (arith, zeros-shape k)

pub hash_text-IsHash : (n : ℕ) → IsHash (hash_text n)
unfolding hash_text pad_start
hash_text-IsHash n =
    let digits = to_hex 16 n in
    let padding = zeros (16 - length digits) in
    let (short, hex) = to_hex-shape 16 n in
    let (wide, zero_hex) = zeros-shape (16 - length digits) in
    (
      refl,
      omega (arith, length-append {0} padding digits),
      every-append padding digits zero_hex hex,
    )

read-hash_text : (n : ℕ) → n < word → read_hash (hash_text n) ≡ some n
unfolding hash_text pad_start read_hash power16
read-hash_text n h =
    let digits = to_hex 16 n in
    let padding = zeros (16 - length digits) in
    ap some (
      read_hex-append 0 padding digits
      ∙ ap (λ (m : ℕ). read_hex m digits) (read_hex-zeros (16 - length digits))
      ∙ read-to_hex 16 n h)

pub fnv-lt-word : (n : ℕ) (s : Str) → n < word → fnv n s < word
unfolding fnv fnv_step
fnv-lt-word n [] h = h
fnv-lt-word n (c ∷ s) h = fnv-lt-word (fnv_step n c) s (omega arith)

-- From the text of a hash, the 64-bit number is read back that the loop over the value's text ends
-- with.
pub hash_round_trip :
    (text : Str) → read_hash (hash_text (fnv offset_basis text)) ≡ some (fnv offset_basis text)
hash_round_trip text =
    read-hash_text (fnv offset_basis text) (fnv-lt-word offset_basis text (omega arith))

module _ {N : Type 0} (number_text : N → Str) where
  of_text :
      (text : Option Str) {h : Str}
      → Option.map (λ (t : Str). hash_text (fnv offset_basis t)) text ≡ some h
      → IsHash h
  of_text none e = cc
  of_text (some t) {h} e =
      subst IsHash (ap (λ (o : Option Str). elim o [ none ↦ h | some x ↦ x ]) e)
        (hash_text-IsHash (fnv offset_basis t))

  -- The hash of a value, where it has one, is the letter h and sixteen lower-case hexadecimal digits.
  pub hash_value-IsHash : (x : Value N) {h : Str} → hash_value number_text x ≡ some h → IsHash h
  unfolding hash_value
  hash_value-IsHash x e = of_text (stable_stringify number_text x) e
