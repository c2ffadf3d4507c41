-- ===== src/Ring/Window.antt =====
-- The entries of a ring, oldest first, as a window of its buffer.
use hemem.Prelude.{
  ℕ, zero, suc, ◌+◌, ◌-◌, ◌<◌, ◌≤◌, ◌^◌, ◌≡◌, refl, ◌≢◌, ap, none, List, [], ◌∷◌, ◌++◌, Ptr, arith,
  leb, if◌then◌else◌, length, get_or, set, get_or-set_ne,
}
use hemem.Ring.{RingBuf, wrap}

-- How many steps lead from index `h` to index `i`.
abbrev pub dist : ℕ → ℕ → ℕ → ℕ
dist cap h i = if leb h i then i - h else cap + i - h

module _ (cap : ℕ) where
  abbrev pub window : List Ptr → ℕ → ℕ → List Ptr
  window buf h zero = []
  window buf h (suc n) = get_or buf h none ∷ window buf (wrap cap h) n

abbrev pub contents : RingBuf → List Ptr
contents r = window r.capacity r.buffer r.tail (dist r.capacity r.tail r.head)

pub length-window : (cap : ℕ) (buf : List Ptr) (h n : ℕ) → length (window cap buf h n) ≡ n
length-window cap buf h zero = refl
length-window cap buf h (suc n) = ap suc (length-window cap buf (wrap cap h) n)

-- One step brings an index that differs nearer by one.
pub dist-wrap :
    (cap h i : ℕ)
    → h < cap
    → i < cap
    → cap < 2 ^ 64
    → h ≢ i
    → suc (dist cap (wrap cap h) i) ≡ dist cap h i
dist-wrap cap h i p q s ne = ground arith

-- A write at or past the end of a window leaves it.
pub window-set_out :
    (cap : ℕ) (buf : List Ptr) (x : Ptr) (i n h : ℕ)
    → h < cap
    → i < cap
    → cap < 2 ^ 64
    → n ≤ dist cap h i
    → window cap (set buf i x) h n ≡ window cap buf h n
window-set_out cap buf x i zero h p q s far = refl
window-set_out cap buf x i (suc n) h p q s far =
    let ne : i ≢ h = ground arith in
    ground (
      arith,
      get_or-set_ne buf x none ne,
      dist-wrap cap h i p q s,
      window-set_out cap buf x i n (wrap cap h),
    )

-- The entry just past a window, put behind it, gives the longer window.
pub window-snoc :
    (cap : ℕ) (buf : List Ptr) (i n h : ℕ)
    → h < cap
    → i < cap
    → cap < 2 ^ 64
    → dist cap h i ≡ n
    → window cap buf h (suc n) ≡ window cap buf h n ++ (get_or buf i none ∷ [])
window-snoc cap buf i zero h p q s e = ap (λ k. get_or buf k none ∷ []) (ground arith)
window-snoc cap buf i (suc n) h p q s e =
    ap (λ l. get_or buf h none ∷ l)
      (window-snoc cap buf i n (wrap cap h) (ground arith) q s
        (ground (arith, dist-wrap cap h i p q s)))
