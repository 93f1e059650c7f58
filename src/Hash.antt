-- ===== src/Hash.antt =====
-- src/hash.ts: the text of a value with its fields in order, and the 64-bit hash of that text.
pub mod Order
pub mod Digits
pub mod Words
pub mod Change
pub mod Tests
use Prim.Native.Nat.{bit_xor}
use trueform.Base.{
  ℕ, zero, suc, ◌+◌, ◌-◌, ◌*◌, ◌/◌, ◌%◌, ◌^◌, Bool, true, false, ◌&&◌, ◌||◌, Option, none, some,
  List, [], ◌∷◌, ◌++◌, map, ltb, leb, eqb, if◌then◌else◌, length,
}
use mathlib.Core.Option
use trueform.Base.Text.{Str, codes}
use trueform.Base.JsMap.{JsMap, get, keys}
use trueform.Graph.Topo.{sort}
use trueform.Base.Value.{
  Value, Values, Fields, undefined, null, bool, num, str, arr, obj, nil, cons, end, field,
}

-- A digit of `toString(16)`.
unfoldable pub hex_digit : ℕ → ℕ
hex_digit d = if ltb d 10 then 48 + d else 87 + d

-- `\u` and the four digits of a code unit.
unfoldable pub unicode_escape : ℕ → Str
unfolding hex_digit
unicode_escape c =
    codes "\\u"
    ++ hex_digit (c / 4096)
      ∷ hex_digit (c / 256 % 16)
      ∷ hex_digit (c / 16 % 16)
      ∷ hex_digit (c % 16)
      ∷ []

abbrev is_lead : ℕ → Bool
is_lead c = leb 0xd800 c && leb c 0xdbff

abbrev is_trail : ℕ → Bool
is_trail c = leb 0xdc00 c && leb c 0xdfff

-- JSON.stringify on a code unit that is no surrogate.
unfoldable pub escape_unit : ℕ → Str
unfolding unicode_escape
escape_unit c =
    if eqb c 34
    then codes "\\\""
    else if eqb c 92
    then codes "\\\\"
    else if eqb c 8
    then codes "\\b"
    else if eqb c 12
    then codes "\\f"
    else if eqb c 10
    then codes "\\n"
    else if eqb c 13
    then codes "\\r"
    else if eqb c 9
    then codes "\\t"
    else if ltb c 32
    then unicode_escape c
    else c ∷ []

-- A surrogate that has no partner is escaped.
unfoldable pub escape : Str → Str
unfolding escape_unit
escape [] = []
escape (c ∷ []) = if is_lead c || is_trail c then unicode_escape c else escape_unit c
escape (c ∷ d ∷ s) =
    let pair = c ∷ d ∷ escape s in
    let rest = escape (d ∷ s) in
    if is_lead c && is_trail d
    then pair
    else (if is_lead c || is_trail c then unicode_escape c else escape_unit c) ++ rest

-- JSON.stringify of a string.
unfoldable pub json_string : Str → Str
unfolding escape
json_string s = codes "\"" ++ escape s ++ codes "\""

-- xs.join(sep)
unfoldable pub join : Str → List Str → Str
join sep [] = []
join sep (x ∷ []) = x
join sep (x ∷ y ∷ ys) = x ++ sep ++ join sep (y ∷ ys)

-- `${x}`, and an entry of `join`, where x may be `undefined`.
abbrev pub shown : Option Str → Str
shown none = codes "undefined"
shown (some s) = s

abbrev pub joined : Option Str → Str
joined none = []
joined (some s) = s

-- `obj[k]` as text.
abbrev pub member : JsMap (Option Str) → Str → Str
member texts k = shown (elim (get k texts) [ none ↦ none | some t ↦ t ])

-- `${JSON.stringify(k)}:${...}`
unfoldable pub entry : JsMap (Option Str) → Str → Str
unfolding json_string get
entry texts k = json_string k ++ codes ":" ++ member texts k

unfoldable pub object_text : JsMap (Option Str) → Str
unfolding entry sort join
object_text texts =
    codes "{" ++ join (codes ",") (map (entry texts) (sort (keys texts))) ++ codes "}"

abbrev pub bool_text : Bool → Str
bool_text true = codes "true"
bool_text false = codes "false"

-- `number_text` is JSON.stringify of a number. The result is `undefined` for `undefined`.
module _ {N : Type 0} (number_text : N → Str) where
  unfoldable mutual
    unfolding object_text json_string join

    pub stable_stringify : Value N → Option Str
    stable_stringify undefined = none
    stable_stringify null = some (codes "null")
    stable_stringify (bool b) = some (bool_text b)
    stable_stringify (num n) = some (number_text n)
    stable_stringify (str s) = some (json_string s)
    stable_stringify (arr xs) = some (codes "[" ++ join (codes ",") (item_texts xs) ++ codes "]")
    stable_stringify (obj fs) = some (object_text (field_texts fs))

    pub item_texts : Values N → List Str
    item_texts nil = []
    item_texts (cons x xs) = joined (stable_stringify x) ∷ item_texts xs

    pub field_texts : Fields N → JsMap (Option Str)
    field_texts end = []
    field_texts (field k x fs) = (k, stable_stringify x) ∷ field_texts fs

abbrev pub offset_basis : ℕ
offset_basis = 0xcbf29ce484222325

abbrev pub fnv_prime : ℕ
fnv_prime = 0x100000001b3

abbrev pub word : ℕ
word = 0x10000000000000000

-- A round of the loop: `& mask` is the rest by 2^64.
unfoldable pub fnv_step : ℕ → ℕ → ℕ
fnv_step hash unit = bit_xor hash unit * fnv_prime % word

unfoldable pub fnv : ℕ → Str → ℕ
unfolding fnv_step
fnv hash [] = hash
fnv hash (c ∷ s) = fnv (fnv_step hash c) s

-- n.toString(16), on fuel: each round divides by 16.
unfoldable pub to_hex : ℕ → ℕ → Str
unfolding hex_digit
to_hex zero n = []
to_hex (suc fuel) n =
    let higher = to_hex fuel (n / 16) in
    if ltb n 16 then hex_digit n ∷ [] else higher ++ hex_digit (n % 16) ∷ []

unfoldable pub zeros : ℕ → Str
zeros zero = []
zeros (suc n) = 48 ∷ zeros n

-- s.padStart(width, "0")
unfoldable pub pad_start : ℕ → Str → Str
unfolding zeros
pad_start width s = zeros (width - length s) ++ s

-- A number below 2^64 has sixteen digits at most.
unfoldable pub hash_text : ℕ → Str
unfolding pad_start to_hex
hash_text hash = 104 ∷ pad_start 16 (to_hex 16 hash)

module _ {N : Type 0} (number_text : N → Str) where
  -- `none`: the text is `undefined`, and reading its length throws.
  unfoldable pub hash_value : Value N → Option Str
  unfolding stable_stringify fnv hash_text
  hash_value value =
      Option.map (λ text. hash_text (fnv offset_basis text)) (stable_stringify number_text value)
