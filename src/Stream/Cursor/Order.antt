-- ===== src/Stream/Cursor/Order.antt =====
-- When the cursors of a stream rise, and when they do not.
use keenetic_dns.Prelude.{ℕ, ◌+◌, ◌/◌, ◌^◌, ◌≤◌, ◌<◌, ◌≡◌, arith}
use keenetic_dns.Stream.Cursor.{make_cursor}
use keenetic_dns.Stream.Cursor.Bits.{make_cursor_lem}

-- A later append with a higher index has a higher cursor, if both times lie in one period of 2 ^ 32
-- milliseconds and neither index has reached 2 ^ 31.
pub make_cursor_rises :
    (t u i j : ℕ)
    → t ≤ u
    → t / 2 ^ 32 ≡ u / 2 ^ 32
    → i < j
    → j < 2 ^ 31
    → make_cursor t i < make_cursor u j
make_cursor_rises t u i j later period next small =
    omega (arith, make_cursor_lem t i (omega arith), make_cursor_lem u j small)

-- Across the end of a period the cursors fall: the later append has the lower cursor, whatever the
-- indices are, as long as they are below 2 ^ 31 and the times are less than 2 ^ 32 milliseconds apart.
pub make_cursor_falls :
    (t u i j : ℕ)
    → u < t + 2 ^ 32
    → t / 2 ^ 32 < u / 2 ^ 32
    → i < 2 ^ 31
    → j < 2 ^ 31
    → make_cursor u j < make_cursor t i
make_cursor_falls t u i j near period p q =
    omega (arith, make_cursor_lem t i p, make_cursor_lem u j q)

-- A cursor fits 64 bits.
pub make_cursor-lt : (t i : ℕ) → i < 2 ^ 31 → make_cursor t i < 2 ^ 64
make_cursor-lt t i h = omega (arith, make_cursor_lem t i h)
