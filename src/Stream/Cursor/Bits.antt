-- ===== src/Stream/Cursor/Bits.antt =====
-- The parts of a cursor: `|` of a shifted number with one that fits below it is their sum.
use Prim.Native.Nat.{bit_or, digits, bit_or-bitwise}
use native.Mathlib.Nat.{pow-suc}
use keenetic_dns.Prelude.{
  ℕ, zero, suc, ◌+◌, ◌*◌, ◌/◌, ◌%◌, ◌^◌, ◌≤◌, ◌<◌, max, ◌≡◌, refl, ap, arith, lt→ltb,
}
use keenetic_dns.Stream.Cursor.{make_cursor}

-- What `bit_or` stands for, with the bound on the digits apart from the number.
abbrev or_digits : ℕ → ℕ → ℕ → ℕ
or_digits n a b = digits (λ b. b) max n a b

or_digits_bound : (n m a b : ℕ) → a ≤ n → a ≤ m → or_digits n a b ≡ or_digits m a b
or_digits_bound zero zero a b p q = refl
or_digits_bound zero (suc m) zero b p q = refl
or_digits_bound zero (suc m) (suc a) b p q = absurd (omega arith)
or_digits_bound (suc n) zero zero b p q = refl
or_digits_bound (suc n) zero (suc a) b p q = absurd (omega arith)
or_digits_bound (suc n) (suc m) zero b p q = refl
or_digits_bound (suc n) (suc m) (suc a) b p q =
    omega (arith, or_digits_bound n m (suc a / 2) (b / 2) (omega arith) (omega arith))

lowest_bit : (a b : ℕ) → bit_or a b ≡ bit_or (a / 2) (b / 2) * 2 + max (a % 2) (b % 2)
lowest_bit zero b = omega (arith, bit_or-bitwise 0 b, bit_or-bitwise 0 (b / 2))
lowest_bit (suc a) b = omega (
  arith,
  bit_or-bitwise (suc a) b,
  bit_or-bitwise (suc a / 2) (b / 2),
  or_digits_bound a (suc a / 2) (suc a / 2) (b / 2) (omega arith) (omega arith),
)

-- The bound `n` carries the induction.
bit_or_nothing : (n a : ℕ) → a ≤ n → bit_or a 0 ≡ a
bit_or_nothing n zero h = refl
bit_or_nothing zero (suc a) h = absurd (omega arith)
bit_or_nothing (suc n) (suc a) h =
    omega (arith, lowest_bit (suc a) 0, bit_or_nothing n (suc a / 2) (omega arith))

pub bit_or_shifted : (k a b : ℕ) → b < 2 ^ k → bit_or (a * 2 ^ k) b ≡ a * 2 ^ k + b
bit_or_shifted zero a zero h = omega (arith, bit_or_nothing (a * 1) (a * 1) (omega arith))
bit_or_shifted zero a (suc b) h = absurd (omega arith)
bit_or_shifted (suc k) a b h =
    let twice : a * 2 ^ suc k ≡ a * 2 ^ k * 2 =
      omega (arith, ap (λ (t : ℕ). a * t) (pow-suc 2 k)) in
    let bits : b < 2 ^ k * 2 = omega (arith, pow-suc 2 k) in
    rw twice
      (ground (arith, lowest_bit (a * 2 ^ k * 2) b, bit_or_shifted k a (b / 2) (omega arith)))

-- As long as the index is below 2 ^ 31, a cursor is the time, cut to 32 bits, over the index.
pub make_cursor_lem :
    (millis index : ℕ)
    → index < 2 ^ 31
    → make_cursor millis index ≡ millis % 2 ^ 32 * 2 ^ 32 + index
unfolding make_cursor
make_cursor_lem millis index h =
    rw (lt→ltb index (2 ^ 31) h) (bit_or_shifted 32 (millis % 2 ^ 32) index (omega arith))
