-- ===== src/Stream/Cursor/Text.antt =====
-- A cursor is read back from its text.
use keenetic_dns.Prelude.{
  ℕ, zero, suc, ◌+◌, ◌*◌, ◌/◌, ◌%◌, ◌^◌, ◌<◌, ◌≡◌, refl, sym, ap, ◌∙◌, none, some, some-bind,
  Bool-cases, leb, if◌then◌else◌, inl, inr, [], ◌∷◌, ◌++◌, arith, leb-false, append-nil,
  append_assoc, length, length-append, Bytes,
}
use native.Mathlib.Nat.{pow-suc}
use keenetic_dns.Stream.Cursor.{
  hex_digit, hex_digits, to_string, digit_value, parse_digits, parse_cursor,
}

digit_value-hex_digit : (d : ℕ) → d < 16 → digit_value (hex_digit d) ≡ some d
unfolding digit_value hex_digit
digit_value-hex_digit d h = ground arith

parse_digits_step :
    (m d : ℕ) (rest : Bytes)
    → d < 16
    → m < 2 ^ 60
    → parse_digits (hex_digit d ∷ rest) m ≡ parse_digits rest (m * 16 + d)
unfolding parse_digits
parse_digits_step m d rest h small = rw (digit_value-hex_digit d h, leb-false (2 ^ 60) m small)

-- Reading the digits of `n` behind the value `acc`.
parse_digits-hex_digits :
    (k n acc : ℕ) (rest : Bytes)
    → n < 16 ^ k
    → acc * 16 ^ k + n < 2 ^ 64
    → parse_digits (hex_digits k n ++ rest) acc ≡ parse_digits rest (acc * 16 ^ k + n)
unfolding hex_digits
parse_digits-hex_digits zero n acc rest h fits =
    ap (parse_digits rest) {x = acc} {y = acc * 1 + n} (omega arith)
parse_digits-hex_digits (suc k) n acc rest h fits = rw append_assoc (
    parse_digits-hex_digits k (n / 16) acc _ (omega (arith, pow-suc 16 k)) (omega (arith, more))
    ∙ parse_digits_step (acc * 16 ^ k + n / 16) (n % 16) rest (omega arith) (omega (arith, more))
    ∙ ap (parse_digits rest) {y = acc * 16 ^ suc k + n} (omega (arith, more)))
  where
    more : acc * 16 ^ suc k ≡ acc * 16 ^ k * 16
    more = omega (arith, ap (λ (t : ℕ). acc * t) (pow-suc 16 k))

length-hex_digits : (k n : ℕ) → length (hex_digits k n) ≡ k
unfolding hex_digits
length-hex_digits zero n = refl
length-hex_digits (suc k) n = omega (
  arith,
  length-append (hex_digits k (n / 16)) (hex_digit (n % 16) ∷ []),
  length-hex_digits k (n / 16),
)

parse_cursor-eq_parse_digits : (s : Bytes) → 0 < length s → parse_cursor s ≡ parse_digits s 0
unfolding parse_cursor
parse_cursor-eq_parse_digits [] h = elim h [ ]
parse_cursor-eq_parse_digits (c ∷ s) h = refl

-- Every cursor of 64 bits is read back from its text, which has 16 digits.
pub parse_cursor-to_string :
    (c : ℕ) → c < 2 ^ 64 → (parse_cursor (to_string c) ≡ some c) × (length (to_string c) ≡ 16)
unfolding to_string
parse_cursor-to_string c h = (
  parse_cursor-eq_parse_digits _ (omega (arith, length-hex_digits 16 c))
      ∙ ap (λ s. parse_digits s 0) (sym (append-nil (hex_digits 16 c)))
      ∙ parse_digits-hex_digits 16 c 0 [] h (omega arith)
      ∙ last,
  length-hex_digits 16 c,
)
  where
    last : parse_digits [] (0 * 16 ^ 16 + c) ≡ some c
    last = unfold parse_digits in ap some (omega arith)

digit_value_below : (c d : ℕ) → digit_value c ≡ some d → d < 16
unfolding digit_value
digit_value_below c d e = ground arith

parse_digits_below : (s : Bytes) (n c : ℕ) → n < 2 ^ 64 → parse_digits s n ≡ some c → c < 2 ^ 64
unfolding parse_digits
parse_digits_below [] n c h e = ground arith
parse_digits_below (d ∷ s) n c h e =
    let (x, good, rest) = some-bind (digit_value d) _ e in
    elim (Bool-cases (leb (2 ^ 60) n)) [
      | inl big ↦ absurd (let no : none ≡ some c = sym (rw big refl) ∙ rest in cc)
      | inr small ↦
          parse_digits_below s (n * 16 + x) c (ground (arith, digit_value_below d x good)) (
            let same : parse_digits s (n * 16 + x)
                ≡ (if leb (2 ^ 60) n then none else parse_digits s (n * 16 + x)) =
              rw small refl in
            same ∙ rest)
    ]

-- A cursor that is read from a text has 64 bits.
pub parse_cursor_below : (s : Bytes) (c : ℕ) → parse_cursor s ≡ some c → c < 2 ^ 64
unfolding parse_cursor
parse_cursor_below [] c e = cc
parse_cursor_below (d ∷ s) c e = parse_digits_below (d ∷ s) 0 c (omega arith) e
