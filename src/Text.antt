-- ===== src/Text.antt =====
-- What the program uses of Go's packages strings, strconv and net on texts, which are lists of
-- bytes. The functions follow the documented behaviour on ASCII texts.
pub mod Decimal
pub mod Contains
pub mod Fields
use keenetic_dns.Prelude.{
  ℕ, zero, suc, ◌+◌, ◌-◌, ◌*◌, ◌/◌, ◌%◌, ◌^◌, Option, none, some, Bool, true, false, not, ◌&&◌,
  ◌||◌, List, [], ◌∷◌, ◌++◌, length, map, drop, ltb, leb, ◌==◌, if◌then◌else◌, ◌>>=◌, Bytes,
  bytes_beq, ℤ, pos, negsuc, sub_ℕ,
}
use mathlib.Core.List.{reverse}

-- The loop of `strconv.Itoa`: each round puts the last digit in front. A number of 64 bits has at
-- most 20 digits.
pub digits : ℕ → ℕ → Bytes → Bytes
digits zero n out = out
digits (suc fuel) n out =
    let out' = (b'0' + n % 10) ∷ out in
    let rest = digits fuel (n / 10) out' in if ltb n 10 then out' else rest

unfoldable pub itoa : ℕ → Bytes
unfolding digits
itoa n = digits 20 n []

unfoldable pub is_digit : ℕ → Bool
is_digit c = leb b'0' c && leb c b'9'

-- The value of a run of decimal digits behind the value `n`.
pub decimal : Bytes → ℕ → Option ℕ
decimal [] n = some n
decimal (c ∷ s) n = let rest = decimal s (n * 10 + (c - b'0')) in if is_digit c then rest else none

-- The digits of `strconv.Atoi`; there must be one.
pub unsigned : Bytes → Option ℕ
unfolding decimal is_digit
unsigned [] = none
unsigned (c ∷ s) = decimal (c ∷ s) 0

-- `strconv.Atoi`: an optional sign and digits, in the range of an `int`; `none` is its error.
unfoldable pub atoi : Bytes → Option ℤ
unfolding unsigned
atoi [] = none
atoi (c ∷ s) =
    if c == b'-'
    then (do n ← unsigned s; if leb n (2 ^ 63) then some (sub_ℕ 0 n) else none)
    else (do
      n ← if c == b'+' then unsigned s else unsigned (c ∷ s)
      if ltb n (2 ^ 63) then some (pos n) else none)

-- `strings.IndexByte`, as the texts before and behind the first such byte.
unfoldable pub cut_at : ℕ → Bytes → Option (Bytes × Bytes)
cut_at sep [] = none
cut_at sep (c ∷ s) =
    let rest = cut_at sep s in
    if c == sep then some ([], s) else (do (a, b) ← rest; some (c ∷ a, b))

-- `strings.HasPrefix` and `strings.HasSuffix`
unfoldable pub has_prefix : Bytes → Bytes → Bool
has_prefix s [] = true
has_prefix [] (p ∷ ps) = false
has_prefix (c ∷ s) (p ∷ ps) = c == p && has_prefix s ps

unfoldable pub has_suffix : Bytes → Bytes → Bool
has_suffix s suffix =
    leb (length suffix) (length s) && bytes_beq (drop (length s - length suffix) s) suffix

-- `strings.TrimLeft(s, ".")`, `strings.TrimRight(s, ".")`
unfoldable pub trim_left : ℕ → Bytes → Bytes
trim_left x [] = []
trim_left x (c ∷ s) = let rest = trim_left x s in if c == x then rest else c ∷ s

unfoldable pub trim_right : ℕ → Bytes → Bytes
unfolding trim_left
trim_right x s = reverse (trim_left x (reverse s))

-- `strings.TrimSpace`
unfoldable pub is_space : ℕ → Bool
is_space c = c == b' ' || (leb 9 c && leb c 13)

unfoldable pub trim_front : Bytes → Bytes
trim_front [] = []
trim_front (c ∷ s) = let rest = trim_front s in if is_space c then rest else c ∷ s

unfoldable pub trim_space : Bytes → Bytes
trim_space s = reverse (trim_front (reverse (trim_front s)))

-- `strings.ToLower`
unfoldable pub to_lower : Bytes → Bytes
to_lower s = map (λ c. if leb b'A' c && leb c b'Z' then c + 32 else c) s

-- `strings.Contains`
unfoldable pub contains : Bytes → Bytes → Bool
contains [] part = has_prefix [] part
contains (c ∷ s) part = let rest = contains s part in if has_prefix (c ∷ s) part then true else rest

-- `strings.Split`, for a separator of one byte: a byte stands in the first of the parts, and the
-- separator begins a new one.
abbrev pub in_first : ℕ → List Bytes → List Bytes
in_first c [] = (c ∷ []) ∷ []
in_first c (part ∷ parts) = (c ∷ part) ∷ parts

unfoldable pub split : ℕ → Bytes → List Bytes
split sep [] = [] ∷ []
split sep (c ∷ s) = let rest = split sep s in if c == sep then [] ∷ rest else in_first c rest

abbrev pub is_empty : Bytes → Bool
is_empty s = length s == 0
