-- ===== src/Base/Strings.antt =====
-- The methods of JavaScript's `String` that the program calls.
use Prim.Native.Nat.{ℕ}
use mathlib.Core.Path.{◌≡◌, refl}
use mathlib.Core.Bool.{Bool, ◌&&◌, ◌||◌}
use mathlib.Core.List.{[], ◌∷◌, reverse}
use trueform.Base.Tests.{eqb, leb, if◌then◌else◌}
use trueform.Base.Text.{Str, codes}

-- The code units of WhiteSpace and LineTerminator.
unfoldable pub is_space : ℕ → Bool
is_space c =
    (leb 9 c && leb c 13)
    || (eqb c 32 || eqb c 160 || eqb c 0x1680 || (leb 0x2000 c && leb c 0x200a))
    || (eqb c 0x2028
        || eqb c 0x2029
        || eqb c 0x202f
        || eqb c 0x205f
        || eqb c 0x3000
        || eqb c 0xfeff)

unfoldable pub trim_start : Str → Str
unfolding is_space
trim_start [] = []
trim_start (c ∷ s) = let rest = trim_start s in if is_space c then rest else c ∷ s

-- s.trim()
unfoldable pub trim : Str → Str
unfolding trim_start
trim s = reverse (trim_start (reverse (trim_start s)))

trim_sides : trim (codes "  a b  ") ≡ codes "a b"
unfolding trim
trim_sides = refl
