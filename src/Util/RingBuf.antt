-- ===== src/Util/RingBuf.antt =====
-- internal/util/ring_buf.go: the ring buffer behind every stream. A method that changes the buffer
-- returns the new one; `none` is a Go panic (an index out of range, or `%` by a capacity of 0).
-- The state keeps Go's fields; `end` starts at -1, so it is an integer with a sign.
pub mod Inv
pub mod Reads
pub mod History
use keenetic_dns.Prelude.{
  ℕ, zero, suc, ◌+◌, ◌%◌, Option, none, some, ◌||◌, List, [], ◌∷◌, length, get_elem?, set,
  replicate, ltb, leb, ◌==◌, if◌then◌else◌, ◌>>=◌, min, ℤ, pos, negsuc, ◌+ℤ◌, ltb_ℤ, rem_ℤ,
}

pub record RingBuf {ℓ} (A : Type ℓ) : Type ℓ where
  pub start : ℕ
  pub end : ℤ
  pub size : ℕ
  pub buf : List A

-- `Iterator` takes a step of 0 for 1.
pub normal_step : ℤ → ℤ
normal_step (pos zero) = pos 1
normal_step step = step

module _ {ℓ} {A : Type ℓ} where
  -- `cap(s.buf)`: the buffer is never resliced.
  abbrev pub capacity : RingBuf A → ℕ
  capacity s = length s.buf

  -- `make([]T, capacity)` fills the buffer with the zero value of T.
  pub new_ring_buf : A → ℕ → RingBuf A
  new_ring_buf zero_value cap = record {
    start = 0;
    end = negsuc 0;
    size = 0;
    buf = replicate cap zero_value;
  }

  -- `buf[i] = item`
  pub store : List A → ℤ → A → Option (List A)
  store buf (negsuc i) item = none
  store buf (pos i) item = if ltb i (length buf) then some (set buf i item) else none

  -- `buf[k % cap(buf)]`
  pub slot : List A → ℕ → Option A
  slot buf k = if length buf == 0 then none else get_elem? buf (k % length buf)

  -- The two writes of `Add` behind the assignments to `start` and `size`.
  pub put_at_end : RingBuf A → A → Option (RingBuf A)
  unfolding store
  put_at_end s item = do
    let next = rem_ℤ (s.end +ℤ pos 1) (capacity s)
    buf ← store s.buf next item
    some (record s { end = next; buf = buf })

  pub add : RingBuf A → A → Option (RingBuf A)
  unfolding put_at_end
  add s item =
      if s.size == capacity s
      then (if capacity s == 0
          then none
          else put_at_end (record s { start = (s.start + 1) % capacity s }) item)
      else put_at_end (record s { size = s.size + 1 }) item

  pub get : RingBuf A → ℕ → Option A
  unfolding slot
  get s i = slot s.buf (s.start + i)

  -- `for i := 0; i < count; i++ { res[i] = s.buf[(from+i)%capacity] }`
  pub copy_from : List A → ℕ → ℕ → Option (List A)
  unfolding slot
  copy_from buf from zero = some []
  copy_from buf from (suc n) = do
    x ← slot buf from
    rest ← copy_from buf (from + 1) n
    some (x ∷ rest)

  -- `nil` and the empty slice are one list.
  pub slice : RingBuf A → ℤ → ℤ → Option (List A)
  unfolding copy_from
  slice s (negsuc _) count = some []
  slice s (pos from) (negsuc _) = some []
  slice s (pos from) (pos count) =
      if s.size == 0 || count == 0 || leb s.size from
      then some []
      else copy_from s.buf (s.start + from) (min count s.size)

  pub values : RingBuf A → Option (List A)
  unfolding slice
  values s = slice s (pos 0) (pos s.size)

  -- The items that the loop of `Iterator` yields when nobody breaks off, from the index `i` on.
  -- Every round is at another index below `size`, so `size` rounds are enough.
  pub iterate : RingBuf A → ℕ → ℤ → ℤ → Option (List A)
  unfolding slot
  iterate s zero i step = some []
  iterate s (suc fuel) (negsuc i) step = some []
  iterate s (suc fuel) (pos i) step =
      let rest = iterate s fuel (pos i +ℤ step) step in
      if ltb i s.size then (do x ← slot s.buf (s.start + i); xs ← rest; some (x ∷ xs)) else some []

  pub iterator : RingBuf A → ℤ → ℤ → Option (List A)
  unfolding iterate normal_step
  iterator s from step = iterate s s.size from (normal_step step)
