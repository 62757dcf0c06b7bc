-- ===== src/Types/Ttl.antt =====
-- `DNSRecord.TTL` of dns-server/internal/types.go: how long a record is still valid, in whole seconds.
use keenetic_dns.Prelude.{
  ℕ, suc, ◌+◌, ◌-◌, ◌%◌, ◌^◌, ◌≤◌, ◌<◌, ◌≡◌, ◌≢◌, refl, ap, min, leb, le→leb, leb-false, ltb-false,
  lt→ltb, ◌==◌, ==-false, if◌then◌else◌, ℤ, pos, negsuc, arith, Bytes,
}
use native.Mathlib.Decide.{dec_lt}
use keenetic_dns.Types.{IPv4}
use keenetic_dns.Types.Record.{DnsRecord, expired}

-- `time.Second`
abbrev pub second : ℕ
second = 1000000000

-- `time.Until`: a difference that 64 bits do not hold is the largest or the smallest duration.
unfoldable pub until : ℕ → ℕ → ℤ
until now t =
    if leb now t then pos (min (t - now) (2 ^ 63 - 1)) else negsuc (min (now - t - 1) (2 ^ 63 - 1))

-- `Duration.Truncate`: towards zero, to a multiple of `d`.
unfoldable pub truncate : ℕ → ℤ → ℤ
truncate d (pos n) = pos (n - n % d)
truncate d (negsuc k) = let n = suc k - suc k % d in if n == 0 then pos 0 else negsuc (n - 1)

-- `TTL` at the time `now`
unfoldable pub ttl : ℕ → DnsRecord → ℤ
ttl now r = if expired now 0 r then pos 0 else truncate second (until now r.expires)

-- `NewDNSRecord`
abbrev pub new_dns_record : Bytes → IPv4 → ℕ → DnsRecord
new_dns_record domain ip expires = record { ip = ip; domain = domain; expires = expires }

-- The TTL of a record that expires within 292 years is the time that is left, rounded down to whole
-- seconds, and 0 when it has expired.
pub ttl_rounds :
    (now : ℕ) (r : DnsRecord)
    → r.expires ≢ 0
    → r.expires < now + 2 ^ 63
    → (t : ℕ) × (ttl now r ≡ pos t)
      × (t % second ≡ 0)
      × (t ≤ r.expires - now)
      × (r.expires - now < t + second)
unfolding ttl expired until truncate
ttl_rounds now r timed near = elim (dec_lt r.expires now) [
  | yes p ↦ (
    0,
    rw (ttl, expired, ==-false r.expires 0 timed, lt→ltb (r.expires + 0) now (omega arith)) refl,
    refl,
    omega arith,
    omega arith,
  )
  | no p ↦
      let n = r.expires - now in
      (
        n - n % second,
        rw
            (
              ttl,
              expired,
              ==-false r.expires 0 timed,
              ltb-false (r.expires + 0) now (omega arith),
              until,
              le→leb now r.expires (omega arith),
              truncate,
            )
            (ap (λ m. pos (m - m % second)) {x = min n (2 ^ 63 - 1)} {y = n} (omega arith)),
        omega arith,
        omega arith,
        omega arith,
      )
]

-- A record that never expires has a TTL of 292 years in the past, as long as the clock is more than
-- 292 years behind the zero time.
ttl_never :
    (now : ℕ) (r : DnsRecord)
    → r.expires ≡ 0
    → 2 ^ 63 < now
    → ttl now r ≡ negsuc 9223372035999999999
unfolding ttl expired until truncate
ttl_never now r zero_time late =
    let saturated : min (now - 0 - 1) (2 ^ 63 - 1) ≡ 2 ^ 63 - 1 = omega arith in
    rw (ttl, expired, zero_time, until, leb-false now 0 (omega arith), saturated, truncate) refl
