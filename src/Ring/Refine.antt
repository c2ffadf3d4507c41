-- ===== src/Ring/Refine.antt =====
-- A valid ring behaves as the queue of its entries.
use hemem.Prelude.{
  ℕ, zero, suc, ◌+◌, ◌≤◌, ◌≡◌, refl, ap, inl, inr, ◌∙◌, true, false, none, List, [], ◌∷◌, ◌++◌, Ptr,
  arith, if◌then◌else◌, length, get_or, set, get_or-set_self, Bool-cases,
}
use hemem.Ring.{RingBuf, wrap, full, size, put, put2, get}
use hemem.Ring.Bounds.{IsValid, put-IsValid, put2-IsValid, get-IsValid}
use hemem.Ring.Queue
use hemem.Ring.Queue.{Op, Reply, done, status, got, is_full, rest, first}
use hemem.Ring.Window.{dist, window, contents, length-window, window-set_out, window-snoc}

-- A call of the ring, with what it returns.
unfoldable pub step : RingBuf → Op → Reply × RingBuf
step r (Op.put p) = (done, put r p)
step r (Op.put2 p) = let (ok, r') = put2 r p in (status ok, r')
step r Op.get = let (p, r') = get r in (got p, r')

unfoldable pub run : RingBuf → List Op → List Reply
run r [] = []
run r (op ∷ ops) = let (reply, r') = step r op in reply ∷ run r' ops

pub step-IsValid : (r : RingBuf) (op : Op) → IsValid r → IsValid (step r op).1
unfolding step
step-IsValid r (Op.put p) v = put-IsValid r p v
step-IsValid r (Op.put2 p) v = put2-IsValid r p v
step-IsValid r Op.get v = get-IsValid r v

pub capacity-step : (r : RingBuf) (op : Op) → (step r op).1.capacity ≡ r.capacity
unfolding step put put2 get
capacity-step r (Op.put p) = ground arith
capacity-step r (Op.put2 p) = ground arith
capacity-step r Op.get = ground arith

pub length-contents : (r : RingBuf) → length (contents r) ≡ dist r.capacity r.tail r.head
length-contents r = length-window r.capacity r.buffer r.tail (dist r.capacity r.tail r.head)

-- The test of the code agrees with the count of entries.
pub full-eq-is_full : (r : RingBuf) → IsValid r → full r ≡ is_full r.capacity (contents r)
unfolding full
full-eq-is_full r v = ground (arith, length-contents r)

-- The slots from the oldest entry up to and with the one that a put has just written.
put_slots :
    (r : RingBuf) (p : Ptr)
    → IsValid r
    → window r.capacity (set r.buffer r.head p) r.tail (suc (dist r.capacity r.tail r.head))
      ≡ contents r ++ p ∷ []
put_slots r p v =
    window-snoc capacity (set buffer head p) head d tail tail_in head_in small refl
    ∙ ap₂' (window-set_out capacity buffer p head d tail tail_in head_in small (omega arith))
        (get_or-set_self buffer head p none (omega arith))
  where
    open r use {buffer, capacity, head, tail}
    open v use {head_in, tail_in, small, storage}

    d : ℕ
    d = dist capacity tail head

    ap₂' : {a b : List Ptr} {x y : Ptr} → a ≡ b → x ≡ y → a ++ x ∷ [] ≡ b ++ y ∷ []
    ap₂' e f = rw (e, f)

contents-advance_room :
    (r : RingBuf) (b : List Ptr)
    → IsValid r
    → full r ≡ false
    → contents (record r { buffer = b; head = wrap r.capacity r.head })
      ≡ window r.capacity b r.tail (suc (dist r.capacity r.tail r.head))
unfolding full
contents-advance_room r b v room =
    let e : dist r.capacity r.tail (wrap r.capacity r.head) ≡ suc (dist r.capacity r.tail r.head) =
      ground arith in
    rw e

contents-advance_full :
    (r : RingBuf) (b : List Ptr)
    → IsValid r
    → full r ≡ true
    → contents
        (record r { buffer = b; head = wrap r.capacity r.head; tail = wrap r.capacity r.tail })
      ≡ rest (window r.capacity b r.tail (suc (dist r.capacity r.tail r.head)))
unfolding full
contents-advance_full r b v crowded =
    let e : dist r.capacity (wrap r.capacity r.tail) (wrap r.capacity r.head)
        ≡ dist r.capacity r.tail r.head =
      ground arith in
    rw e

pub contents-put :
    (r : RingBuf) (p : Ptr)
    → IsValid r
    → contents (put r p) ≡ (if full r then rest (contents r ++ p ∷ []) else contents r ++ p ∷ [])
unfolding put
contents-put r p v = elim (Bool-cases (full r)) [
  | inl crowded ↦
      rw crowded
        (contents-advance_full r (set r.buffer r.head p) v crowded ∙ ap rest (put_slots r p v))
  | inr room ↦ rw room (contents-advance_room r (set r.buffer r.head p) v room ∙ put_slots r p v)
]

put2-eq-put : (r : RingBuf) (p : Ptr) → put2 r p ≡ (if full r then (false, r) else (true, put r p))
unfolding put2 put
put2-eq-put r p = ground arith

-- A ring of two slots or more that is not empty by count is not empty by its test.
get-empty :
    (r : RingBuf)
    → IsValid r
    → 2 ≤ r.capacity
    → dist r.capacity r.tail r.head ≡ 0
    → get r ≡ (none, r)
unfolding get
get-empty r v two e = ground arith

get-entry :
    (r : RingBuf) (k : ℕ)
    → IsValid r
    → dist r.capacity r.tail r.head ≡ suc k
    → get r ≡ (get_or r.buffer r.tail none, record r { tail = wrap r.capacity r.tail })
unfolding get
get-entry r k v e = ground arith

pub contents-get :
    (r : RingBuf) (k : ℕ)
    → IsValid r
    → 2 ≤ r.capacity
    → dist r.capacity r.tail r.head ≡ k
    → ((get r).0 ≡ first (contents r)) × (contents (get r).1 ≡ rest (contents r))
contents-get r zero v two e = rw (get-empty r v two e) (rw e (refl, refl))
contents-get r (suc k) v two e =
    let near : dist r.capacity (wrap r.capacity r.tail) r.head ≡ k = ground arith in
    rw (get-entry r k v e) (rw (e, near) (refl, refl))

-- One call of a valid ring of at least two slots returns what the queue returns, and leaves the
-- ring holding the queue's entries.
pub step_refines :
    (r : RingBuf) (op : Op)
    → IsValid r
    → 2 ≤ r.capacity
    → let (reply, r') = step r op in (reply, contents r') ≡ Queue.step r.capacity (contents r) op
unfolding step Queue.step
step_refines r (Op.put p) v two = rw (contents-put r p v, full-eq-is_full r v)
step_refines r (Op.put2 p) v two =
    ground (arith, put2-eq-put r p, contents-put r p v, full-eq-is_full r v)
step_refines r Op.get v two = ground (arith, contents-get r _ v two refl)

-- No sequence of calls tells a valid ring of at least two slots from the queue of its entries.
pub run_refines :
    (ops : List Op) (r : RingBuf)
    → IsValid r
    → 2 ≤ r.capacity
    → run r ops ≡ Queue.run r.capacity (contents r) ops
unfolding run Queue.run
run_refines [] r v two = refl
run_refines (op ∷ ops) r v two = rw (
  run_refines ops (step r op).1 (step-IsValid r op v) (rw (capacity-step r op) two),
  ← step_refines r op v two,
  capacity-step r op,
)

-- `ring_buf_size` counts the entries of a ring that is not full, and gives the capacity, one more
-- than the entries, for a ring that is full.
pub size_lem :
    (r : RingBuf)
    → IsValid r
    → size r
      ≡ (if is_full r.capacity (contents r) then length (contents r) + 1 else length (contents r))
unfolding size full
size_lem r v = ground (arith, length-contents r)
