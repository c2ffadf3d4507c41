-- ===== src/Fifo/Seg.antt =====
-- Stretches of a doubly linked list: what the links of its pages say, and how they change.
use hemem.Prelude.{
  ℕ, ◌≡◌, Bool, true, false, none, some, List, [], ◌∷◌, ◌++◌, arith, if◌then◌else◌, Ptr, same_ptr,
  elem, Distinct, head_or, last_or,
}
use hemem.Fifo.{Link}

abbrev pub mk : Ptr → Ptr → Ptr → Link
mk n p l = record { next = n; prev = p; list = l }

abbrev pub unlinked : Link
unlinked = mk none none none

-- The pages of `xs` are linked in this order on list `l`, between the pages `pr` and `nx`.
abbrev pub Seg : (ℕ → Link) → ℕ → Ptr → List ℕ → Ptr → Type 0
Seg g l pr [] nx = Unit
Seg g l pr (x ∷ xs) nx = (g x ≡ mk (head_or xs nx) pr (some l)) × Seg g l (some x) xs nx

abbrev pub is_head : ℕ → List ℕ → Bool
is_head q xs = same_ptr (head_or xs none) (some q)

abbrev pub is_last : ℕ → List ℕ → Bool
is_last q xs = same_ptr (last_or xs none) (some q)

-- The last page of a stretch is one of its pages.
last-ne :
    (x y : ℕ) (xs : List ℕ) (d : Ptr)
    → elem x (y ∷ xs) ≡ false
    → same_ptr (last_or (y ∷ xs) d) (some x) ≡ false
last-ne x y [] d h = ground arith
last-ne x y (z ∷ xs) d h = last-ne x z xs (some y) (ground arith)

module _ (l : ℕ) where
  pub Seg-list :
      (g : ℕ → Link) (pr : Ptr) (xs : List ℕ) (nx : Ptr) (q : ℕ)
      → Seg g l pr xs nx
      → elem q xs ≡ true
      → (g q).list ≡ some l
  Seg-list g pr [] nx q s m = cc
  Seg-list g pr (x ∷ xs) nx q s m = ground (arith, Seg-list g (some x) xs nx q s.1)

  pub Seg-frame :
      (f g : ℕ → Link) (pr : Ptr) (xs : List ℕ) (nx : Ptr)
      → Seg g l pr xs nx
      → ((q : ℕ) → elem q xs ≡ true → f q ≡ g q)
      → Seg f l pr xs nx
  Seg-frame f g pr [] nx s h = tt
  Seg-frame f g pr (x ∷ xs) nx s h =
      (ground (arith, h x), Seg-frame f g (some x) xs nx s.1 (λ q m. h q (ground arith)))

  pub Seg-append :
      (g : ℕ → Link) (pr : Ptr) (xs ys : List ℕ) (nx : Ptr)
      → Seg g l pr xs (head_or ys nx)
      → Seg g l (last_or xs pr) ys nx
      → Seg g l pr (xs ++ ys) nx
  Seg-append g pr [] ys nx s t = t
  Seg-append g pr (x ∷ []) ys nx s t = (s.0, t)
  Seg-append g pr (x ∷ y ∷ xs) ys nx s t = (s.0, Seg-append g (some x) (y ∷ xs) ys nx s.1 t)

  pub Seg-split :
      (g : ℕ → Link) (pr : Ptr) (xs ys : List ℕ) (nx : Ptr)
      → Seg g l pr (xs ++ ys) nx
      → Seg g l pr xs (head_or ys nx) × Seg g l (last_or xs pr) ys nx
  Seg-split g pr [] ys nx s = (tt, s)
  Seg-split g pr (x ∷ []) ys nx s = ((s.0, tt), s.1)
  Seg-split g pr (x ∷ y ∷ xs) ys nx s =
      let r = Seg-split g (some x) (y ∷ xs) ys nx s.1 in ((s.0, r.0), r.1)

  -- The last page of a stretch gets another successor.
  pub Seg-set_next :
      (f g : ℕ → Link) (pr : Ptr) (xs : List ℕ) (nx nx' : Ptr)
      → Seg g l pr xs nx
      → Distinct xs
      → ((q : ℕ)
          → elem q xs ≡ true
          → f q ≡ (if is_last q xs then record (g q) { next = nx' } else g q))
      → Seg f l pr xs nx'
  Seg-set_next f g pr [] nx nx' s d h = tt
  Seg-set_next f g pr (x ∷ []) nx nx' s d h = (ground (arith, h x), tt)
  Seg-set_next f g pr (x ∷ y ∷ xs) nx nx' s d h = (
    ground (arith, h x, last-ne x y xs none d.0),
    Seg-set_next f g (some x) (y ∷ xs) nx nx' s.1 d.1 (λ q m. h q (ground arith)),
  )

  -- The first page of a stretch gets another predecessor.
  pub Seg-set_prev :
      (f g : ℕ → Link) (pr pr' : Ptr) (xs : List ℕ) (nx : Ptr)
      → Seg g l pr xs nx
      → Distinct xs
      → ((q : ℕ)
          → elem q xs ≡ true
          → f q ≡ (if is_head q xs then record (g q) { prev = pr' } else g q))
      → Seg f l pr' xs nx
  Seg-set_prev f g pr pr' [] nx s d h = tt
  Seg-set_prev f g pr pr' (x ∷ xs) nx s d h =
      (ground (arith, h x), Seg-frame f g (some x) xs nx s.1 (λ q m. ground (arith, h q)))
