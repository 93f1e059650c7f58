-- ===== src/Hash/Change.antt =====
-- src/hash.ts: what one change of a text does to its hash.
use trueform.Base.{ℕ, ◌<◌, ◌≡◌, ◌≢◌, refl, sym, ap, ◌∙◌, [], ◌∷◌, ◌++◌, arith, All}
use trueform.Base.Text.{Str}
use trueform.Hash.{word, fnv, fnv_step, hash_text, offset_basis}
use trueform.Hash.Digits.{read_hash, hash_round_trip, fnv-lt-word}
use trueform.Hash.Words.{fnv_step_left, fnv_step_right}

-- A 16-bit code unit.
abbrev pub IsUnit : ℕ → Type 0
IsUnit c = c < 65536

fnv-append : (h : ℕ) (s t : Str) → fnv h (s ++ t) ≡ fnv (fnv h s) t
unfolding fnv
fnv-append h [] t = refl
fnv-append h (c ∷ s) t = fnv-append (fnv_step h c) s t

fnv_step-lt-word : (h c : ℕ) → fnv_step h c < word
unfolding fnv_step
fnv_step-lt-word h c = omega arith

fnv_left : (h k : ℕ) (s : Str) → h < word → k < word → All IsUnit s → fnv h s ≡ fnv k s → h ≡ k
unfolding fnv
fnv_left h k [] p q u e = e
fnv_left h k (c ∷ s) p q u e =
    fnv_step_left h k c p q (omega arith)
      (fnv_left (fnv_step h c) (fnv_step k c) s (fnv_step-lt-word h c) (fnv_step-lt-word k c) u.1 e)

-- Two texts of 16-bit code units that differ in exactly one unit have different hashes.
pub one_unit_changes_hash :
    (before after : Str) (c d : ℕ)
    → All IsUnit after
    → IsUnit c
    → IsUnit d
    → c ≢ d
    → hash_text (fnv offset_basis (before ++ c ∷ after))
      ≢ hash_text (fnv offset_basis (before ++ d ∷ after))
unfolding fnv
one_unit_changes_hash before after c d units p q differ e =
    let h = fnv offset_basis before in
    let read =
      sym (hash_round_trip (before ++ c ∷ after))
      ∙ ap read_hash e
      ∙ hash_round_trip (before ++ d ∷ after) in
    let ends : fnv offset_basis (before ++ c ∷ after) ≡ fnv offset_basis (before ++ d ∷ after) =
      cc in
    let split =
      sym (fnv-append offset_basis before (c ∷ after))
      ∙ ends
      ∙ fnv-append offset_basis before (d ∷ after) in
    let low = fnv-lt-word offset_basis before (omega arith) in
    let steps =
      fnv_left (fnv_step h c) (fnv_step h d) after (fnv_step-lt-word h c) (fnv_step-lt-word h d)
        units split in
    differ (fnv_step_right h c d low (omega arith) (omega arith) steps)
