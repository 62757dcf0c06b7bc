-- ===== src/Types/AddressText.antt =====
-- An address is read back from its text, and what `ParseIPv4` does with other texts.
use mathlib.Core.List.{reverse}
use native.Mathlib.Decide.{dec_lt, ℕ_discrete}
use keenetic_dns.Prelude.{
  ℕ, ◌+◌, ◌*◌, ◌/◌, ◌%◌, ◌≤◌, ◌<◌, ◌≡◌, ◌≢◌, ◌⊎◌, ◌↔◌, inl, inr, refl, sym, ap, ◌∙◌, Option, none,
  some, List, [], ◌∷◌, ◌++◌, le→leb, ==-true, ==-false, append-nil, lt→ltb, ltb-false, arith,
  length, ◌>>=◌, Bytes, ℤ, pos, negsuc, Option-cases, All, All-append,
}
use keenetic_dns.Text.{itoa, atoi, cut_at}
use keenetic_dns.Text.Decimal.{itoa_cases, atoi-itoa}
use keenetic_dns.Types.{
  IPv4, returns, fails, panics, parse_fields, notation, dotted, parse_ip, parse_ipv4, to_string,
  dotted_text, new_ipv4, new_ipv4_prefix, v4_in_v6, copy_bytes, to4,
}

-- The bytes are bytes, and the prefix is one of an IPv4 network.
pub record IsAddress (ip : IPv4) : Type 0 where
  pub a_in : ip.a < 256
  pub b_in : ip.b < 256
  pub c_in : ip.c < 256
  pub d_in : ip.d < 256
  pub prefix_in : ip.prefix ≤ 32

digit_step :
    (d val len : ℕ) (s : Bytes) (fields : List ℕ)
    → d < 10
    → val * 10 + d < 256
    → (len ≢ 1) ⊎ (val ≢ 0)
    → parse_fields ((b'0' + d) ∷ s) val len fields ≡ parse_fields s (val * 10 + d) (len + 1) fields
unfolding parse_fields
digit_step d val len s fields h small lead = ground arith

-- Reading an octet up to the rest of the text; the number of its digits stays open.
octet :
    (n : ℕ) (s : Bytes) (fields : List ℕ)
    → n < 256
    → (len : ℕ) × (len ≢ 0) × (parse_fields (itoa n ++ s) 0 0 fields ≡ parse_fields s n len fields)
octet n s fields h = rw (itoa_cases n (omega arith)) (elim (dec_lt n 10) [
  | yes p ↦ rw (lt→ltb n 10 p) (
    0 + 1,
    omega arith,
    digit_step n 0 0 s fields p (omega arith) (inl (omega arith))
        ∙ ap (λ v. parse_fields s v (0 + 1) fields) {y = n} (omega arith),
  )
  | no p ↦ rw (ltb-false n 10 (omega arith)) (elim (dec_lt n 100) [
    | yes q ↦ rw (lt→ltb n 100 q) (
      0 + 1 + 1,
      omega arith,
      digit_step (n / 10) 0 0 ((b'0' + n % 10) ∷ s) fields (omega arith) (omega arith)
            (inl (omega arith))
          ∙ digit_step (n % 10) (0 * 10 + n / 10) (0 + 1) s fields (omega arith) (omega arith)
              (inr (omega arith))
          ∙ ap (λ v. parse_fields s v (0 + 1 + 1) fields) {y = n} (omega arith),
    )
    | no q ↦ rw (ltb-false n 100 (omega arith)) (
      0 + 1 + 1 + 1,
      omega arith,
      digit_step (n / 100) 0 0 _ fields (omega arith) (omega arith) (inl (omega arith))
          ∙ digit_step (n / 10 % 10) (0 * 10 + n / 100) (0 + 1) _ fields (omega arith) (omega arith)
              (inr (omega arith))
          ∙ digit_step (n % 10) ((0 * 10 + n / 100) * 10 + n / 10 % 10) (0 + 1 + 1) s fields
              (omega arith) (omega arith) (inl (omega arith))
          ∙ ap (λ v. parse_fields s v (0 + 1 + 1 + 1) fields) {y = n} (omega arith),
    )
  ])
])

dot :
    (n len : ℕ) (s : Bytes) (fields : List ℕ)
    → len ≢ 0
    → length fields < 3
    → parse_fields (b'.' ∷ s) n len fields ≡ parse_fields s 0 0 (n ∷ fields)
unfolding parse_fields
dot n len s fields some_digit few = ground arith

finish :
    (n len : ℕ) (fields : List ℕ)
    → len ≢ 0
    → length fields ≡ 3
    → parse_fields [] n len fields ≡ some (reverse (n ∷ fields))
unfolding parse_fields
finish n len fields some_digit three = ground arith

octet_dot :
    (n : ℕ) (s : Bytes) (fields : List ℕ)
    → n < 256
    → length fields < 3
    → parse_fields (itoa n ++ b'.' ∷ s) 0 0 fields ≡ parse_fields s 0 0 (n ∷ fields)
octet_dot n s fields h few =
    let (len, some_digit, read) = octet n (b'.' ∷ s) fields h in
    read ∙ dot n len s fields some_digit few

octet_end :
    (n : ℕ) (fields : List ℕ)
    → n < 256
    → length fields ≡ 3
    → parse_fields (itoa n) 0 0 fields ≡ some (reverse (n ∷ fields))
octet_end n fields h three =
    let (len, some_digit, read) = octet n [] fields h in
    ap (λ s. parse_fields s 0 0 fields) (sym (append-nil (itoa n)))
    ∙ read
    ∙ finish n len fields some_digit three

parse_fields-dotted_text :
    (ip : IPv4)
    → IsAddress ip
    → parse_fields (dotted_text ip) 0 0 [] ≡ some (ip.a ∷ ip.b ∷ ip.c ∷ ip.d ∷ [])
unfolding dotted_text
parse_fields-dotted_text ip v =
    octet_dot ip.a _ [] v.a_in (omega arith)
    ∙ octet_dot ip.b _ (ip.a ∷ []) v.b_in (omega arith)
    ∙ octet_dot ip.c _ (ip.b ∷ ip.a ∷ []) v.c_in (omega arith)
    ∙ octet_end ip.d (ip.c ∷ ip.b ∷ ip.a ∷ []) v.d_in refl

notation_octet : (n : ℕ) (s : Bytes) → n < 256 → notation (itoa n ++ b'.' ∷ s) ≡ dotted
unfolding notation
notation_octet n s h = rw (itoa_cases n (omega arith)) (elim (dec_lt n 10) [
  | yes p ↦ rw (lt→ltb n 10 p) (ground arith)
  | no p ↦ rw (ltb-false n 10 (omega arith)) (elim (dec_lt n 100) [
    | yes q ↦ rw (lt→ltb n 100 q) (ground arith)
    | no q ↦ rw (ltb-false n 100 (omega arith)) (ground arith)
  ])
])

parse_ip-dotted_text :
    (parse_ipv6 : Bytes → Option Bytes) (ip : IPv4)
    → IsAddress ip
    → parse_ip parse_ipv6 (dotted_text ip) ≡ some (v4_in_v6 ++ ip.a ∷ ip.b ∷ ip.c ∷ ip.d ∷ [])
unfolding parse_ip
parse_ip-dotted_text parse_ipv6 ip v = rw (parse_ip, is_dotted, parse_fields-dotted_text ip v)
  where
    is_dotted : notation (dotted_text ip) ≡ dotted
    is_dotted = unfold dotted_text in notation_octet ip.a _ v.a_in

-- No byte of a text is a slash.
abbrev NoSlash : Bytes → Type 0
NoSlash = All (λ c. c ≢ b'/')

itoa-NoSlash : (n : ℕ) → n < 256 → NoSlash (itoa n)
itoa-NoSlash n h = rw (itoa_cases n (omega arith)) (elim (dec_lt n 10) [
  | yes p ↦ rw (lt→ltb n 10 p) (omega arith)
  | no p ↦ rw (ltb-false n 10 (omega arith)) (elim (dec_lt n 100) [
    | yes q ↦ rw (lt→ltb n 100 q) (omega arith)
    | no q ↦ rw (ltb-false n 100 (omega arith)) (omega arith)
  ])
])

dotted_text-NoSlash : (ip : IPv4) → IsAddress ip → NoSlash (dotted_text ip)
unfolding dotted_text
dotted_text-NoSlash ip v = join (itoa ip.a) _ (itoa-NoSlash ip.a v.a_in) (
    join (itoa ip.b) _ (itoa-NoSlash ip.b v.b_in)
      (join (itoa ip.c) _ (itoa-NoSlash ip.c v.c_in) (itoa-NoSlash ip.d v.d_in)))
  where
    join : (s t : Bytes) → NoSlash s → NoSlash t → NoSlash (s ++ b'.' ∷ t)
    join s t hs ht = All-append (λ c. c ≢ b'/') s (b'.' ∷ t) hs (omega arith, ht)

cut_at-none : (s : Bytes) → NoSlash s → cut_at b'/' s ≡ none
unfolding cut_at
cut_at-none [] h = refl
cut_at-none (c ∷ s) h = ground (arith, cut_at-none s h.1)

cut_at_slash : (s t : Bytes) → NoSlash s → cut_at b'/' (s ++ b'/' ∷ t) ≡ some (s, t)
unfolding cut_at
cut_at_slash [] t h = ground arith
cut_at_slash (c ∷ s) t h = ground (arith, cut_at_slash s t h.1)

new_ipv4_prefix_four :
    (ip : IPv4)
    → ip.prefix ≤ 32
    → new_ipv4_prefix (some (v4_in_v6 ++ ip.a ∷ ip.b ∷ ip.c ∷ ip.d ∷ [])) (pos ip.prefix)
      ≡ returns ip
unfolding new_ipv4_prefix copy_bytes to4
new_ipv4_prefix_four ip h = rw (le→leb ip.prefix 32 h)

parse_ipv4_whole :
    (parse_ipv6 : Bytes → Option Bytes) (s : Bytes)
    → cut_at b'/' s ≡ none
    → parse_ipv4 parse_ipv6 s ≡ new_ipv4_prefix (parse_ip parse_ipv6 s) (pos 32)
unfolding parse_ipv4
parse_ipv4_whole parse_ipv6 s e = rw (parse_ipv4, e)

parse_ipv4_cut :
    (parse_ipv6 : Bytes → Option Bytes) (s address bits : Bytes) (n : ℤ)
    → cut_at b'/' s ≡ some (address, bits)
    → atoi bits ≡ some n
    → parse_ipv4 parse_ipv6 s ≡ new_ipv4_prefix (parse_ip parse_ipv6 address) n
unfolding parse_ipv4
parse_ipv4_cut parse_ipv6 s address bits n e f = rw (parse_ipv4, e, f)

-- Every address with a prefix of at most 32 is read back from its text, with the prefix behind a
-- slash or, for 32, left out.
pub parse_ipv4-to_string :
    (parse_ipv6 : Bytes → Option Bytes) (ip : IPv4)
    → IsAddress ip
    → parse_ipv4 parse_ipv6 (to_string ip) ≡ returns ip
unfolding to_string
parse_ipv4-to_string parse_ipv6 ip v = elim (ℕ_discrete ip.prefix 32) [
  | yes e ↦ rw (==-true ip.prefix 32 e) (
      parse_ipv4_whole parse_ipv6 (dotted_text ip) (cut_at-none _ (dotted_text-NoSlash ip v))
      ∙ read (pos 32)
      ∙ ap (λ n. new_ipv4_prefix four (pos n)) (sym e)
      ∙ new_ipv4_prefix_four ip v.prefix_in)
  | no ne ↦ rw (==-false ip.prefix 32 ne) (
      parse_ipv4_cut parse_ipv6 _ (dotted_text ip) (itoa ip.prefix) (pos ip.prefix)
        (cut_at_slash (dotted_text ip) (itoa ip.prefix) (dotted_text-NoSlash ip v))
        (atoi-itoa ip.prefix (omega (arith, v.prefix_in)))
      ∙ read (pos ip.prefix)
      ∙ new_ipv4_prefix_four ip v.prefix_in)
]
  where
    four : Option Bytes
    four = some (v4_in_v6 ++ ip.a ∷ ip.b ∷ ip.c ∷ ip.d ∷ [])

    read :
        (n : ℤ) → new_ipv4_prefix (parse_ip parse_ipv6 (dotted_text ip)) n ≡ new_ipv4_prefix four n
    read n = ap (λ x. new_ipv4_prefix x n) (parse_ip-dotted_text parse_ipv6 ip v)

copy_bytes-ne_fails : (ip : Option Bytes) (n : ℕ) → copy_bytes ip n ≢ fails
unfolding copy_bytes
copy_bytes-ne_fails (some (a ∷ b ∷ c ∷ d ∷ [])) n = ground arith
copy_bytes-ne_fails _ n = ground arith

new_ipv4_prefix-ne_fails : (ip : Option Bytes) (prefix : ℤ) → new_ipv4_prefix ip prefix ≢ fails
unfolding new_ipv4_prefix
new_ipv4_prefix-ne_fails ip (negsuc n) = ground arith
new_ipv4_prefix-ne_fails ip (pos n) = ground (arith, copy_bytes-ne_fails (ip >>= to4) n)

-- `ParseIPv4` returns its error exactly for a text with a slash behind which no number stands.
pub parse_ipv4_fails_iff :
    (parse_ipv6 : Bytes → Option Bytes) (s : Bytes)
    → (parse_ipv4 parse_ipv6 s ≡ fails) ↔ (
        (address : Bytes) × (bits : Bytes) × (cut_at b'/' s ≡ some (address, bits))
        × (atoi bits ≡ none))
unfolding parse_ipv4
parse_ipv4_fails_iff parse_ipv6 s = (to, from)
  where
    to :
        parse_ipv4 parse_ipv6 s ≡ fails
        → (address : Bytes) × (bits : Bytes) × (cut_at b'/' s ≡ some (address, bits))
          × (atoi bits ≡ none)
    to h = elim (Option-cases (cut_at b'/' s)) [
      | inl e ↦ absurd (new_ipv4_prefix-ne_fails _ _ (rw (parse_ipv4, e) at h))
      | inr ((address, bits), e) ↦ elim (Option-cases (atoi bits)) [
        | inl f ↦ (address, bits, e, f)
        | inr (n, f) ↦ absurd (new_ipv4_prefix-ne_fails _ _ (rw (parse_ipv4, e, f) at h))
      ]
    ]

    from :
        (address : Bytes) × (bits : Bytes) × (cut_at b'/' s ≡ some (address, bits))
          × (atoi bits ≡ none)
        → parse_ipv4 parse_ipv6 s ≡ fails
    from (address, bits, e, f) = rw (parse_ipv4, e, f)

-- A text with no slash that `net.ParseIP` refuses makes `ParseIPv4` panic instead.
pub parse_ipv4_panics :
    (parse_ipv6 : Bytes → Option Bytes) (s : Bytes)
    → cut_at b'/' s ≡ none
    → parse_ip parse_ipv6 s ≡ none
    → parse_ipv4 parse_ipv6 s ≡ panics
unfolding parse_ipv4
parse_ipv4_panics parse_ipv6 s h k =
    rw (parse_ipv4, h, k) (unfold new_ipv4_prefix copy_bytes in refl)

-- `NewIPv4` of four bytes.
pub new_ipv4-four :
    (x y z w : ℕ)
    → new_ipv4 (some (x ∷ y ∷ z ∷ w ∷ []))
      ≡ returns (record { a = x; b = y; c = z; d = w; prefix = 32 })
unfolding new_ipv4 new_ipv4_prefix to4 copy_bytes
new_ipv4-four x y z w = refl
