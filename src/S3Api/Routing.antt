-- ===== src/S3Api/Routing.antt =====
-- internal/inmems3/s3api/handler.go: SplitBucketAndKey and the max-keys parameter, with what they use
-- of net/url and strconv
use rdma_demo.Base.{
  ℕ, zero, suc, ◌+◌, ◌-◌, ◌*◌, Bool, true, false, ◌&&◌, Option, none, some, [], ◌∷◌, take, drop,
  ltb, leb, ◌==◌, if◌then◌else◌,
}
use rdma_demo.Base.Int.{ℤ, pos, negsuc, half_range}
use rdma_demo.Base.Text.{Str, is_empty, index_byte}

abbrev pub slash : ℕ
slash = 0x2f

abbrev pub percent : ℕ
percent = 0x25

-- strings.TrimPrefix(path, "/")
unfoldable pub trim_slash : Str → Str
trim_slash [] = []
trim_slash (c ∷ cs) = if c == slash then cs else c ∷ cs

-- strings.SplitN(s, "/", 2): the first part, and the second if there is one
unfoldable pub split_slash : Str → Str × Option Str
split_slash s = elim (index_byte s slash) [
  | none ↦ (s, none)
  | some i ↦ (take i s, some (drop (suc i) s))
]

unfoldable pub hex_value : ℕ → Option ℕ
hex_value c =
    if leb 0x30 c && leb c 0x39
    then some (c - 0x30)
    else if leb 0x61 c && leb c 0x66
    then some (c - 0x61 + 10)
    else if leb 0x41 c && leb c 0x46
    then some (c - 0x41 + 10)
    else none

-- What the decoder of percent escapes has read: nothing, a `%`, or a `%` and a digit.
pub data Escape : Type 0 where
  plain opened : Escape
  half : ℕ → Escape

abbrev pub prepend : ℕ → Option Str → Option Str
prepend c none = none
prepend c (some s) = some (c ∷ s)

unfoldable pub unescape : Escape → Str → Option Str
unescape plain [] = some []
unescape opened [] = none
unescape (half h) [] = none
unescape plain (c ∷ cs) = elim (c == percent) [
  | true ↦ unescape opened cs
  | false ↦ prepend c (unescape plain cs)
]
unescape opened (c ∷ cs) = elim (hex_value c) [ none ↦ none | some h ↦ unescape (half h) cs ]
unescape (half h) (c ∷ cs) = elim (hex_value c) [
  | none ↦ none
  | some l ↦ prepend (h * 16 + l) (unescape plain cs)
]

-- url.PathUnescape
abbrev pub path_unescape : Str → Option Str
path_unescape s = unescape plain s

pub data PathError : Type 0 where
  missing_bucket invalid_bucket_path invalid_key_path : PathError

pub data SplitPath : Type 0 where
  at_path : Str → Str → SplitPath
  bad_path : PathError → SplitPath

-- SplitBucketAndKey once the bucket is decoded.
unfoldable pub split_key : Str → Option Str → SplitPath
split_key bucket none = at_path bucket []
split_key bucket (some part) = elim (path_unescape part) [
  | none ↦ bad_path invalid_key_path
  | some key ↦ at_path bucket key
]

unfoldable pub split_parts : Str × Option Str → SplitPath
unfolding split_key
split_parts (first, rest) = elim (path_unescape first) [
  | none ↦ bad_path invalid_bucket_path
  | some bucket ↦ if is_empty bucket then bad_path missing_bucket else split_key bucket rest
]

unfoldable pub split_bucket_and_key : Str → SplitPath
unfolding split_parts split_slash trim_slash
split_bucket_and_key path =
    let trimmed = trim_slash path in
    if is_empty trimmed then bad_path missing_bucket else split_parts (split_slash trimmed)

unfoldable pub parse_digits : ℕ → Str → Option ℕ
parse_digits n [] = some n
parse_digits n (c ∷ cs) = elim (leb 0x30 c && leb c 0x39) [
  | true ↦ parse_digits (n * 10 + (c - 0x30)) cs
  | false ↦ none
]

abbrev pub signed : Bool → Option ℕ → Option ℤ
signed negative none = none
signed true (some zero) = some (pos 0)
signed true (some (suc n)) = if leb (suc n) half_range then some (negsuc n) else none
signed false (some n) = if ltb n half_range then some (pos n) else none

-- strconv.Atoi
unfoldable pub atoi : Str → Option ℤ
unfolding parse_digits
atoi [] = none
atoi (c ∷ []) = signed false (parse_digits 0 (c ∷ []))
atoi (c ∷ d ∷ ds) =
    if c == 0x2d
    then signed true (parse_digits 0 (d ∷ ds))
    else if c == 0x2b
    then signed false (parse_digits 0 (d ∷ ds))
    else signed false (parse_digits 0 (c ∷ d ∷ ds))

-- maxKeys of handleBucket: 1000, or the parameter if it is a positive int
unfoldable pub max_keys_of : Str → ℕ
unfolding atoi
max_keys_of q = elim (atoi q) [ some (pos (suc n)) ↦ suc n | _ ↦ 1000 ]
