-- ===== src/Ring/Bounds.antt =====
-- The invariant of `struct ring_buf_t`: both indices lie inside the buffer.
use hemem.Prelude.{ℕ, ◌<◌, ◌≤◌, ◌^◌, ◌≡◌, some, List, Ptr, arith, length, length-set}
use hemem.Ring.{RingBuf, wrap, init, put, put2, get}

pub record IsValid (r : RingBuf) : Type 0 where
  pub storage : r.capacity ≤ length r.buffer
  pub small : r.capacity < 2 ^ 64
  pub head_in : r.head < r.capacity
  pub tail_in : r.tail < r.capacity

pub wrap-lt : (c i : ℕ) → i < c → c < 2 ^ 64 → wrap c i < c
wrap-lt c i h s = ground arith

-- A ring that `ring_buf_init` returns is valid and empty.
pub init-IsValid :
    (b : List Ptr) (n : ℕ) {r : RingBuf} → n ≤ length b → n < 2 ^ 64 → init b n ≡ some r → IsValid r
unfolding init
init-IsValid b n h s e = ground arith

pub put-IsValid : (r : RingBuf) (p : Ptr) → IsValid r → IsValid (put r p)
unfolding put
put-IsValid r p v = ground (arith, length-set r.buffer r.head p)

pub put2-IsValid : (r : RingBuf) (p : Ptr) → IsValid r → IsValid (put2 r p).1
unfolding put2
put2-IsValid r p v = ground (arith, length-set r.buffer r.head p)

pub get-IsValid : (r : RingBuf) → IsValid r → IsValid (get r).1
unfolding get
get-IsValid r v = ground arith
