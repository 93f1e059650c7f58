-- ===== src/Hash/Words.antt =====
-- src/hash.ts: exclusive or and the multiplication by the prime, on 64-bit words.
use Prim.Native.Nat.{bit_xor, bit_xor-bitwise, digits, differ}
use trueform.Base.{ℕ, zero, suc, ◌+◌, ◌*◌, ◌/◌, ◌%◌, ◌≤◌, ◌<◌, ◌≡◌, refl, arith}
use trueform.Hash.{fnv_step, fnv_prime, word}

-- The digits of an exclusive or, on fuel.
abbrev xor_digits : ℕ → ℕ → ℕ → ℕ
xor_digits fuel a b = digits (λ x. x) differ fuel a b

differ_left : (x y z : ℕ) → x < 2 → y < 2 → z < 2 → differ x z ≡ differ y z → x ≡ y
differ_left zero zero z p q r e = refl
differ_left zero (suc zero) zero p q r e = cc
differ_left zero (suc zero) (suc zero) p q r e = cc
differ_left (suc zero) zero zero p q r e = cc
differ_left (suc zero) zero (suc zero) p q r e = cc
differ_left (suc zero) (suc zero) z p q r e = refl
differ_left (suc (suc x)) y z p q r e = absurd (omega arith)
differ_left x (suc (suc y)) z p q r e = absurd (omega arith)
differ_left x y (suc (suc z)) p q r e = absurd (omega arith)

differ_right : (x y z : ℕ) → x < 2 → y < 2 → z < 2 → differ x y ≡ differ x z → y ≡ z
differ_right zero y z p q r e = e
differ_right (suc zero) zero zero p q r e = refl
differ_right (suc zero) zero (suc zero) p q r e = cc
differ_right (suc zero) (suc zero) zero p q r e = cc
differ_right (suc zero) (suc zero) (suc zero) p q r e = refl
differ_right (suc (suc x)) y z p q r e = absurd (omega arith)
differ_right x (suc (suc y)) z p q r e = absurd (omega arith)
differ_right x y (suc (suc z)) p q r e = absurd (omega arith)

differ-lt_two : (x y : ℕ) → x < 2 → y < 2 → differ x y < 2
differ-lt_two zero y p q = q
differ-lt_two (suc zero) zero p q = omega arith
differ-lt_two (suc zero) (suc zero) p q = omega arith
differ-lt_two (suc (suc x)) y p q = absurd (omega arith)
differ-lt_two x (suc (suc y)) p q = absurd (omega arith)

xor_digits_zero : (n b : ℕ) → xor_digits n 0 b ≡ b
xor_digits_zero zero b = refl
xor_digits_zero (suc n) b = refl

xor_digits_halve :
    (n a b : ℕ)
    → a ≤ suc n
    → xor_digits (suc n) a b ≡ xor_digits n (a / 2) (b / 2) * 2 + differ (a % 2) (b % 2)
xor_digits_halve n zero b h = omega (arith, xor_digits_zero n (b / 2))
xor_digits_halve n (suc a) b h = refl

-- On enough fuel the result and one argument determine the other.
xor_digits_left : (n a c b : ℕ) → a ≤ n → c ≤ n → xor_digits n a b ≡ xor_digits n c b → a ≡ c
xor_digits_left zero a c b p q e = omega arith
xor_digits_left (suc n) a c b p q e =
    let here = differ_left (a % 2) (c % 2) (b % 2) (omega arith) (omega arith) (omega arith) in
    let above = xor_digits_left n (a / 2) (c / 2) (b / 2) (omega arith) (omega arith) in
    ground (
      arith,
      e,
      xor_digits_halve n a b p,
      xor_digits_halve n c b q,
      here,
      above,
      differ-lt_two (a % 2) (b % 2),
      differ-lt_two (c % 2) (b % 2),
    )

xor_digits_right : (n a b c : ℕ) → a ≤ n → xor_digits n a b ≡ xor_digits n a c → b ≡ c
xor_digits_right zero a b c p e = omega arith
xor_digits_right (suc n) a b c p e = ground (
  arith,
  e,
  xor_digits_halve n a b p,
  xor_digits_halve n a c p,
  differ_right (a % 2) (b % 2) (c % 2),
  xor_digits_right n (a / 2) (b / 2) (c / 2),
  differ-lt_two (a % 2) (b % 2),
  differ-lt_two (a % 2) (c % 2),
)

-- More fuel changes nothing.
xor_digits_fuel : (n m a b : ℕ) → a ≤ n → n ≤ m → xor_digits n a b ≡ xor_digits m a b
xor_digits_fuel zero m a b p q = ground (arith, xor_digits_zero m b)
xor_digits_fuel (suc n) zero a b p q = absurd (omega arith)
xor_digits_fuel (suc n) (suc m) a b p q = omega (
  arith,
  xor_digits_halve n a b p,
  xor_digits_halve m a b (omega arith),
  xor_digits_fuel n m (a / 2) (b / 2) (omega arith) (omega arith),
)

abbrev power2 : ℕ → ℕ
power2 zero = 1
power2 (suc k) = 2 * power2 k

xor_digits-lt : (k n a b : ℕ) → a ≤ n → a < power2 k → b < power2 k → xor_digits n a b < power2 k
xor_digits-lt k zero a b p q r = r
xor_digits-lt zero (suc n) zero b p q r = r
xor_digits-lt zero (suc n) (suc a) b p q r = absurd (omega arith)
xor_digits-lt (suc k) (suc n) a b p q r = omega (
  arith,
  xor_digits_halve n a b p,
  xor_digits-lt k n (a / 2) (b / 2) (omega arith) (omega arith) (omega arith),
  differ-lt_two (a % 2) (b % 2) (omega arith) (omega arith),
)

xor-digits : (a b : ℕ) → bit_xor a b ≡ xor_digits a a b
xor-digits a b = bit_xor-bitwise a b

pub xor_left : (a c b : ℕ) → bit_xor a b ≡ bit_xor c b → a ≡ c
xor_left a c b e = xor_digits_left (a + c) a c b (omega arith) (omega arith) (
    omega (
      arith,
      e,
      xor-digits a b,
      xor-digits c b,
      xor_digits_fuel a (a + c) a b (omega arith) (omega arith),
      xor_digits_fuel c (a + c) c b (omega arith) (omega arith),
    ))

pub xor_right : (a b c : ℕ) → bit_xor a b ≡ bit_xor a c → b ≡ c
xor_right a b c e =
    xor_digits_right a a b c (omega arith) (omega (arith, e, xor-digits a b, xor-digits a c))

pub xor-lt_word : (a b : ℕ) → a < word → b < word → bit_xor a b < word
xor-lt_word a b p q = rw (xor-digits a b) (xor_digits-lt 64 a a b (omega arith) p q)

-- The prime is odd: it can be divided out modulo 2^64.
pub times_prime_lem :
    (x y : ℕ) → x < word → y < word → x * fnv_prime % word ≡ y * fnv_prime % word → x ≡ y
times_prime_lem x y p q e = omega arith

pub fnv_step_left :
    (h k c : ℕ) → h < word → k < word → c < word → fnv_step h c ≡ fnv_step k c → h ≡ k
unfolding fnv_step
fnv_step_left h k c p q r e =
    xor_left h k c (times_prime_lem _ _ (xor-lt_word h c p r) (xor-lt_word k c q r) e)

pub fnv_step_right :
    (h c d : ℕ) → h < word → c < word → d < word → fnv_step h c ≡ fnv_step h d → c ≡ d
unfolding fnv_step
fnv_step_right h c d p q r e =
    xor_right h c d (times_prime_lem _ _ (xor-lt_word h c p q) (xor-lt_word h d p r) e)
