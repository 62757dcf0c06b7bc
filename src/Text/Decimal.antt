-- ===== src/Text/Decimal.antt =====
-- Decimal numbers are read back from their print.
use native.Mathlib.Decide.{dec_lt}
use keenetic_dns.Prelude.{
  ℕ, zero, suc, ◌+◌, ◌*◌, ◌/◌, ◌%◌, ◌^◌, ◌<◌, ◌≡◌, sym, ap, ◌∙◌, some, [], ◌∷◌, arith, ltb, lt→ltb,
  ltb-false, if◌then◌else◌, Bytes, pos,
}
use native.Mathlib.Nat.{pow-suc}
use keenetic_dns.Text.{digits, itoa, is_digit, decimal, atoi}

-- Below 1000 the print is short enough to be written out.
pub itoa_cases :
    (n : ℕ)
    → n < 1000
    → itoa n ≡ (
        if ltb n 10
        then (b'0' + n) ∷ []
        else if ltb n 100
        then (b'0' + n / 10) ∷ (b'0' + n % 10) ∷ []
        else (b'0' + n / 100) ∷ (b'0' + n / 10 % 10) ∷ (b'0' + n % 10) ∷ [])
unfolding itoa
itoa_cases n h = ground arith

decimal_step : (d n : ℕ) (s : Bytes) → d < 10 → decimal ((b'0' + d) ∷ s) n ≡ decimal s (n * 10 + d)
unfolding decimal is_digit
decimal_step d n s h = ground arith

-- Reading the digits of `n` in front of `out` gives `n`, and goes on with `out`.
pub decimal-digits :
    (fuel n : ℕ) (out : Bytes) → n < 10 ^ fuel → decimal (digits fuel n out) 0 ≡ decimal out n
unfolding digits
decimal-digits zero n out h = ap (decimal out) {y = n} (omega arith)
decimal-digits (suc fuel) n out h = elim (dec_lt n 10) [
  | yes p ↦
      rw (lt→ltb n 10 p)
        (decimal_step (n % 10) 0 out (omega arith) ∙ ap (decimal out) {y = n} (omega arith))
  | no p ↦ rw (ltb-false n 10 (omega arith)) (
      decimal-digits fuel (n / 10) ((b'0' + n % 10) ∷ out) (omega (arith, pow-suc 10 fuel))
      ∙ decimal_step (n % 10) (n / 10) out (omega arith)
      ∙ ap (decimal out) {y = n} (omega arith))
]

-- A small number is read back by `Atoi`.
pub atoi-itoa : (n : ℕ) → n < 1000 → atoi (itoa n) ≡ some (pos n)
unfolding atoi decimal is_digit
atoi-itoa n h = rw (itoa_cases n h) (ground arith)

decimal-itoa : (n : ℕ) → n < 10 ^ 20 → decimal (itoa n) 0 ≡ some n
unfolding itoa decimal
decimal-itoa n h = decimal-digits 20 n [] h

-- Different numbers have different prints.
pub itoa_injective : (m n : ℕ) → m < 10 ^ 20 → n < 10 ^ 20 → itoa m ≡ itoa n → m ≡ n
itoa_injective m n h k e =
    let same : some m ≡ some n =
      sym (decimal-itoa m h) ∙ ap (λ s. decimal s 0) e ∙ decimal-itoa n k in
    cc

pub itoa_nonempty : (n : ℕ) → 0 < n → n < 10 ^ 20 → [] ≡ itoa n → 0 ≡ n
unfolding decimal
itoa_nonempty n h k e =
    let same : some 0 ≡ some n = ap (λ s. decimal s 0) e ∙ decimal-itoa n k in cc
