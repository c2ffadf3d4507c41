-- ===== src/Ring/Queue.antt =====
-- What a ring of the given capacity promises: a queue of pointers, oldest first, that holds one
-- entry fewer than the capacity.
use hemem.Prelude.{
  ℕ, ◌+◌, Bool, true, false, none, List, [], ◌∷◌, ◌++◌, Ptr, ◌==◌, if◌then◌else◌, length,
}

pub data Op : Type 0 where
  put put2 : Ptr → Op
  get : Op

-- The status of `put2`, and what `get` returns.
pub data Reply : Type 0 where
  done : Reply
  status : Bool → Reply
  got : Ptr → Reply

abbrev pub is_full : ℕ → List Ptr → Bool
is_full cap q = length q + 1 == cap

abbrev pub rest : List Ptr → List Ptr
rest [] = []
rest (x ∷ q) = q

abbrev pub first : List Ptr → Ptr
first [] = none
first (x ∷ q) = x

-- A put into a full queue drops the oldest entry.
unfoldable pub step : ℕ → List Ptr → Op → Reply × List Ptr
step cap q (put p) = (done, if is_full cap q then rest (q ++ p ∷ []) else q ++ p ∷ [])
step cap q (put2 p) = if is_full cap q then (status false, q) else (status true, q ++ p ∷ [])
step cap q get = (got (first q), rest q)

unfoldable pub run : ℕ → List Ptr → List Op → List Reply
unfolding step
run cap q [] = []
run cap q (op ∷ ops) = let (r, q') = step cap q op in r ∷ run cap q' ops
