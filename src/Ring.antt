-- ===== src/Ring.antt =====
-- src/spsc-ring.c: the ring of request pointers between the sampling and the policy thread.
-- A function that updates `*rbuf` returns the new ring. `assert(rbuf)` has no counterpart, since a
-- ring is passed by value here.
pub mod Bounds
pub mod Window
pub mod Queue
pub mod Refine
pub mod Entries
mod Tests
use hemem.Prelude.{
  ℕ, Bool, true, false, not, ◌&&◌, Option, none, some, List, ltb, leb, ◌==◌, if◌then◌else◌, Ptr,
  get_or, set, assert, ◌>>=◌, ◌>>◌, add64, sub64,
}

-- `struct ring_buf_t`. An entry of `buffer` is a pointer.
pub record RingBuf : Type 0 where
  pub buffer : List Ptr
  pub head : ℕ
  pub tail : ℕ
  pub capacity : ℕ

-- `if (++i == capacity) i = 0;`
abbrev pub wrap : ℕ → ℕ → ℕ
wrap capacity i = let i' = add64 i 1 in if i' == capacity then 0 else i'

unfoldable pub full : RingBuf → Bool
full r = wrap r.capacity r.head == r.tail

unfoldable pub empty : RingBuf → Bool
unfolding full
empty r = not (full r) && (r.head == r.tail)

unfoldable pub advance_pointer : RingBuf → RingBuf
unfolding full
advance_pointer r =
    let r' = if full r then record r { tail = wrap r.capacity r.tail } else r in
    record r' { head = wrap r'.capacity r'.head }

unfoldable pub retreat_pointer : RingBuf → RingBuf
retreat_pointer r = record r { tail = wrap r.capacity r.tail }

unfoldable pub reset : RingBuf → RingBuf
reset r = record r { head = 0; tail = 0 }

-- The buffer is what `malloc` returned, so it is not NULL; its content is not initialised.
unfoldable pub init : List Ptr → ℕ → Option RingBuf
unfolding reset empty
init buffer size = do
  assert (ltb 0 size)
  let r = reset (record { buffer = buffer; head = 0; tail = 0; capacity = size })
  assert (empty r)
  some r

unfoldable pub size : RingBuf → ℕ
unfolding full
size r =
    if not (full r)
    then (if leb r.tail r.head then sub64 r.head r.tail else sub64 (add64 r.capacity r.head) r.tail)
    else r.capacity

unfoldable pub capacity : RingBuf → ℕ
capacity r = r.capacity

unfoldable pub put : RingBuf → Ptr → RingBuf
unfolding advance_pointer
put r value = advance_pointer (record r { buffer = set r.buffer r.head value })

-- The status is true for 0 and false for -1.
unfoldable pub put2 : RingBuf → Ptr → Bool × RingBuf
unfolding full put
put2 r value =
    if not (full r)
    then (true, advance_pointer (record r { buffer = set r.buffer r.head value }))
    else (false, r)

unfoldable pub get : RingBuf → Ptr × RingBuf
unfolding empty retreat_pointer
get r = if not (empty r) then (get_or r.buffer r.tail none, retreat_pointer r) else (none, r)
