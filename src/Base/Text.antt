-- ===== src/Base/Text.antt =====
-- Go strings and byte slices as lists of bytes, with the functions of package strings that the
-- program uses.
use Prim.Native.Nat.{ℕ, zero, suc, ◌+◌, ◌/◌, ◌%◌}
use Prim.Native.Char.{code}
use Prim.Native.String.{String}
use mathlib.Core.Path.{◌≡◌, refl}
use mathlib.Core.Logic.{ite}
use mathlib.Core.Bool.{Bool, true, false, ◌&&◌, ◌||◌}
use mathlib.Core.Option.{Option, none, some}
use mathlib.Core.List.{List, [], ◌∷◌, reverse}
use native.Mathlib.Decide.{ℕ_discrete}
use rdma_demo.Base.Tests.{ltb, leb, ◌==◌, if◌then◌else◌}

abbrev pub Str : Type 0
Str = List ℕ

-- The bytes of an ASCII literal of the source.
abbrev pub codes : String → Str
codes String.[] = []
codes (String.◌∷◌ c s) = code c ∷ codes s

unfoldable pub Str-discrete : Discrete Str
unfolding ℕ_discrete
Str-discrete = hlevel ℕ_discrete

Str-discrete_test : ite (Str-discrete (codes "ab") (codes "ac")) true false ≡ false
unfolding Str-discrete
Str-discrete_test = refl

abbrev pub str_eq : Str → Str → Bool
str_eq a b = ite (Str-discrete a b) true false

abbrev pub is_empty {ℓ} : {A : Type ℓ} → List A → Bool
is_empty [] = true
is_empty (x ∷ xs) = false

-- strings.IndexByte, `none` for -1
unfoldable pub index_byte : Str → ℕ → Option ℕ
index_byte [] c = none
index_byte (b ∷ s) c =
    if b == c then some 0 else elim (index_byte s c) [ none ↦ none | some i ↦ some (suc i) ]

-- strings.HasPrefix
unfoldable pub has_prefix : Str → Str → Bool
has_prefix s [] = true
has_prefix [] (p ∷ ps) = false
has_prefix (b ∷ s) (p ∷ ps) = b == p && has_prefix s ps

-- The order of Go strings: bytes, the first difference decides.
unfoldable pub str_lt : Str → Str → Bool
str_lt s [] = false
str_lt [] (b ∷ t) = true
str_lt (a ∷ s) (b ∷ t) = ltb a b || (a == b && str_lt s t)

-- unicode.IsSpace, by the UTF-8 form of the code point
unfoldable pub is_space1 : ℕ → Bool
is_space1 a = (leb 0x09 a && leb a 0x0d) || a == 0x20

unfoldable pub is_space2 : ℕ → ℕ → Bool
is_space2 a b = a == 0xc2 && (b == 0x85 || b == 0xa0)

unfoldable pub is_space3 : ℕ → ℕ → ℕ → Bool
is_space3 a b c =
    (a == 0xe1 && b == 0x9a && c == 0x80)
    || (a == 0xe2
        && b == 0x80
        && ((leb 0x80 c && leb c 0x8a) || c == 0xa8 || c == 0xa9 || c == 0xaf))
    || (a == 0xe2 && b == 0x81 && c == 0x9f)
    || (a == 0xe3 && b == 0x80 && c == 0x80)

-- Drops leading white space; the tests say which two and which three bytes are a space.
unfoldable pub trim_by : (ℕ → ℕ → Bool) → (ℕ → ℕ → ℕ → Bool) → Str → Str
unfolding is_space1
trim_by two three [] = []
trim_by two three (a ∷ []) = if is_space1 a then [] else a ∷ []
trim_by two three (a ∷ b ∷ []) =
    let rest = trim_by two three (b ∷ []) in
    if is_space1 a then rest else if two a b then [] else a ∷ b ∷ []
trim_by two three (a ∷ b ∷ c ∷ s) =
    let rest1 = trim_by two three (b ∷ c ∷ s) in
    let rest2 = trim_by two three (c ∷ s) in
    let rest3 = trim_by two three s in
    if is_space1 a
    then rest1
    else if two a b
    then rest2
    else if three a b c
    then rest3
    else a ∷ b ∷ c ∷ s

-- strings.TrimSpace: from the front, then from the back on the reversed bytes
unfoldable pub trim_space : Str → Str
unfolding trim_by is_space2 is_space3
trim_space s = reverse (
    trim_by (λ a b. is_space2 b a) (λ a b c. is_space3 c b a)
      (reverse (trim_by is_space2 is_space3 s)))

-- encoding/hex
hex_digit : ℕ → ℕ
hex_digit n = if ltb n 10 then n + 48 else n + 87

unfoldable pub hex_encode : Str → Str
unfolding hex_digit
hex_encode [] = []
hex_encode (b ∷ s) = hex_digit (b / 16) ∷ hex_digit (b % 16) ∷ hex_encode s

-- strconv.FormatUint and Itoa in base 10; the fuel is more than the number of digits
digits_onto : ℕ → ℕ → Str → Str
digits_onto zero n acc = acc
digits_onto (suc f) n acc =
    let acc' = (48 + n % 10) ∷ acc in
    let rest = digits_onto f (n / 10) acc' in if ltb n 10 then acc' else rest

unfoldable pub decimal : ℕ → Str
unfolding digits_onto
decimal n = digits_onto (suc n) n []

decimal_test : decimal 1203 ≡ codes "1203"
unfolding decimal
decimal_test = refl

trim_space_test : trim_space (codes "  a b\n") ≡ codes "a b"
unfolding trim_space
trim_space_test = refl

hex_encode_test : hex_encode (0x0f ∷ 0xa0 ∷ []) ≡ codes "0fa0"
unfolding hex_encode
hex_encode_test = refl
