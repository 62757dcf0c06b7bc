-- ===== src/Types.antt =====
-- dns-server/internal/types.go: addresses with a prefix, DNS records and routes.
pub mod AddressText
pub mod Record
pub mod Ttl
use keenetic_dns.Prelude.{
  ℕ, zero, suc, ◌+◌, ◌-◌, ◌*◌, ◌≡◌, ◌↔◌, Option, none, some, Bool, true, false, not, ◌&&◌, ◌||◌,
  List, [], ◌∷◌, ◌++◌, length, drop, take, ltb, leb, ◌==◌, if◌then◌else◌, ◌>>=◌, Bytes, bytes_beq,
  bytes_beq_iff, Eq, ℤ, pos, negsuc, arith, ==_iff,
}
use mathlib.Core.List.{reverse}
use keenetic_dns.Text.{itoa, atoi, cut_at, is_digit}

-- `IPv4`, an array of five bytes: the address and the length of its prefix.
pub record IPv4 : Type 0 where
  pub a : ℕ
  pub b : ℕ
  pub c : ℕ
  pub d : ℕ
  pub prefix : ℕ

abbrev pub ipv4_beq : IPv4 → IPv4 → Bool
ipv4_beq x y = x.a == y.a && x.b == y.b && x.c == y.c && x.d == y.d && x.prefix == y.prefix

pub ipv4_beq_iff : (x y : IPv4) → (ipv4_beq x y ≡ true) ↔ (x ≡ y)
ipv4_beq_iff x y = ground arith

instance abbrev pub ipv4_eq : Eq IPv4
ipv4_eq = record { beq = ipv4_beq; beq_iff = ipv4_beq_iff }

-- What a call that may fail does: it returns a value, or an error, or it panics.
pub data Outcome {ℓ} (A : Type ℓ) : Type ℓ where
  returns : A → Outcome A
  fails : Outcome A
  panics : Outcome A

-- The first 12 of the 16 bytes in which package net keeps an IPv4 address.
abbrev pub v4_in_v6 : Bytes
v4_in_v6 = 0 ∷ 0 ∷ 0 ∷ 0 ∷ 0 ∷ 0 ∷ 0 ∷ 0 ∷ 0 ∷ 0 ∷ 255 ∷ 255 ∷ []

-- `net.IP.To4`: four bytes stay, the 16 bytes of an IPv4-mapped address give their last four.
pub to4 : Bytes → Option Bytes
to4 ip =
    if length ip == 4
    then some ip
    else if length ip == 16 && bytes_beq (take 12 ip) v4_in_v6
    then some (drop 12 ip)
    else none

-- The copy into the array behind the checks of `newIPv4`.
pub copy_bytes : Option Bytes → ℕ → Outcome IPv4
copy_bytes (some (a ∷ b ∷ c ∷ d ∷ [])) prefix =
    returns (record { a = a; b = b; c = c; d = d; prefix = prefix })
copy_bytes _ prefix = panics

-- `newIPv4`; a nil `ip` is `none`.
unfoldable pub new_ipv4_prefix : Option Bytes → ℤ → Outcome IPv4
new_ipv4_prefix ip (negsuc n) = panics
new_ipv4_prefix ip (pos prefix) =
    let four = ip >>= to4 in if leb prefix 32 then copy_bytes four prefix else panics

-- `NewIPv4`
unfoldable pub new_ipv4 : Option Bytes → Outcome IPv4
unfolding new_ipv4_prefix
new_ipv4 ip = new_ipv4_prefix (ip >>= to4) (pos 32)

-- The dotted decimals of `net.ParseIP`: `val` is the value of the current field and `len` its number
-- of digits, `fields` the fields before it, the last first.
unfoldable pub parse_fields : Bytes → ℕ → ℕ → List ℕ → Option Bytes
unfolding is_digit
parse_fields [] val len fields =
    if len == 0 || not (length fields == 3) then none else some (reverse (val ∷ fields))
parse_fields (c ∷ s) val len fields =
    let val' = val * 10 + (c - b'0') in
    let more = parse_fields s val' (len + 1) fields in
    let next = parse_fields s 0 0 (val ∷ fields) in
    if is_digit c
    then (if (len == 1 && val == 0) || ltb 255 val' then none else more)
    else if c == b'.'
    then (if len == 0 || length fields == 3 then none else next)
    else none

-- Which notation a text is in: the first of these bytes decides.
pub data Notation : Type 0 where
  dotted colons neither : Notation

unfoldable pub notation : Bytes → Notation
notation [] = neither
notation (c ∷ s) =
    let rest = notation s in
    if c == b'.' then dotted else if c == b':' then colons else if c == b'%' then neither else rest

module _ (parse_ipv6 : Bytes → Option Bytes) where
  -- `net.ParseIP`: 16 bytes, or nil. The colon notation is a parameter here.
  unfoldable pub parse_ip : Bytes → Option Bytes
  unfolding notation parse_fields
  parse_ip s = elim (notation s) [
    | dotted ↦ (do four ← parse_fields s 0 0 []; some (v4_in_v6 ++ four))
    | colons ↦ parse_ipv6 s
    | neither ↦ none
  ]

  -- `ParseIPv4`
  unfoldable pub parse_ipv4 : Bytes → Outcome IPv4
  parse_ipv4 s = elim (cut_at b'/' s) [
    | none ↦ new_ipv4_prefix (parse_ip s) (pos 32)
    | some (address, bits) ↦ elim (atoi bits) [
      | none ↦ fails
      | some prefix ↦ new_ipv4_prefix (parse_ip address) prefix
    ]
  ]

-- `IPv4.HasPrefix`
unfoldable pub has_prefix : IPv4 → Bool
has_prefix ip = ltb ip.prefix 32

-- `net.IP(ip[:4]).String()`
unfoldable pub dotted_text : IPv4 → Bytes
dotted_text ip = itoa ip.a ++ b'.' ∷ (itoa ip.b ++ b'.' ∷ (itoa ip.c ++ b'.' ∷ itoa ip.d))

-- `IPv4.String`, which is also what `MarshalText` writes.
unfoldable pub to_string : IPv4 → Bytes
unfolding dotted_text
to_string ip = if ip.prefix == 32 then dotted_text ip else dotted_text ip ++ b'/' ∷ itoa ip.prefix
