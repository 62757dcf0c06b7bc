-- ===== src/Stream/Cursor.antt =====
-- internal/stream/cursor.go, and the cursor that `Append` of internal/stream/buffered.go makes: a
-- `uint64`, kept as a number below 2 ^ 64. Texts are the lists of their bytes.
pub mod Bits
pub mod Order
pub mod Text
use Prim.Native.Nat.{bit_or}
use keenetic_dns.Prelude.{
  ℕ, zero, suc, ◌+◌, ◌-◌, ◌*◌, ◌/◌, ◌%◌, ◌^◌, Option, none, some, Bool, ◌&&◌, List, [], ◌∷◌, ◌++◌,
  ltb, leb, if◌then◌else◌, ◌>>=◌, Bytes,
}

abbrev pub Cursor : Type 0
Cursor = ℕ

-- `uint64(i)` for an `int32` given by its bit pattern: the sign is extended.
pub sign_extend : ℕ → ℕ
sign_extend i = if ltb i (2 ^ 31) then i else 2 ^ 64 - 2 ^ 32 + i

-- `Cursor((uint64(time.Now().UnixMilli()) << 32) | uint64(s.index))`: what the shift moves beyond
-- bit 63 is lost.
pub make_cursor : ℕ → ℕ → Cursor
unfolding sign_extend
make_cursor millis index = bit_or (millis % 2 ^ 32 * 2 ^ 32) (sign_extend index)

-- The digit that `%x` prints for a value below 16.
pub hex_digit : ℕ → ℕ
hex_digit d = if ltb d 10 then b'0' + d else b'a' + (d - 10)

-- The lowest `k` hexadecimal digits of `n`, the highest first.
pub hex_digits : ℕ → ℕ → Bytes
unfolding hex_digit
hex_digits zero n = []
hex_digits (suc k) n = hex_digits k (n / 16) ++ hex_digit (n % 16) ∷ []

-- `fmt.Sprintf("%016x", uint64(c))`: a value of 64 bits has at most 16 digits.
pub to_string : Cursor → Bytes
to_string c = hex_digits 16 c

-- The value of a digit for `strconv.ParseUint` in base 16; both cases of letters are digits.
pub digit_value : ℕ → Option ℕ
digit_value c =
    if leb b'0' c && leb c b'9'
    then some (c - b'0')
    else if leb b'a' c && leb c b'f'
    then some (c - b'a' + 10)
    else if leb b'A' c && leb c b'F'
    then some (c - b'A' + 10)
    else none

-- The loop of `strconv.ParseUint(s, 16, 64)`: a value that would not fit 64 bits is refused.
pub parse_digits : Bytes → ℕ → Option ℕ
parse_digits [] n = some n
parse_digits (c ∷ s) n = do
  d ← digit_value c
  if leb (2 ^ 60) n then none else parse_digits s (n * 16 + d)

-- `ParseCursor`; `none` is its error.
pub parse_cursor : Bytes → Option Cursor
parse_cursor [] = none
parse_cursor (c ∷ s) = parse_digits (c ∷ s) 0
