-- ===== src/Fifo/Unlink.antt =====
-- `page_list_remove_page` and `dequeue_fifo` take a page off its list.
use hemem.Prelude.{
  ltb, ℕ, ◌≡◌, ◌≢◌, ◌⊎◌, refl, ap, true, false, none, some, List, [], ◌∷◌, ◌++◌, arith, ◌==◌,
  if◌then◌else◌, Ptr, same_ptr, elem, Distinct, head_or, last_or, length, update, elem-append,
  Returns, mono, Bool-cases, inl, inr, ==_refl, eq_of_==, length-append, last_or-append,
}
use hemem.Fifo.{Store, dequeue_fifo, page_list_remove_page, next_page}
use hemem.Fifo.Seg.{Seg, Seg-list, Seg-frame, Seg-set_prev, Seg-set_next, Seg-split, Seg-append, mk}
use hemem.Fifo.Removed.{Removed, remove-Removed, dequeue-Removed}
use hemem.Fifo.Rep.{IsFifo, Rep, elem-list, Distinct-split}

-- The ends of a stretch are among its pages.
pub head-elem :
    (q : ℕ) (xs : List ℕ) → same_ptr (head_or xs none) (some q) ≡ true → elem q xs ≡ true
head-elem q [] h = cc
head-elem q (x ∷ xs) h = ground arith

pub last-elem :
    (q : ℕ) (xs : List ℕ) (d : Ptr)
    → same_ptr (last_or xs d) (some q) ≡ true
    → (elem q xs ≡ true) ⊎ (same_ptr d (some q) ≡ true)
last-elem q [] d h = inr h
last-elem q (x ∷ xs) d h = ground (arith, last-elem q xs (some x) h)

elem-ne : (q p : ℕ) (xs : List ℕ) → elem q xs ≡ true → elem p xs ≡ false → (q == p) ≡ false
elem-ne q p [] h k = cc
elem-ne q p (x ∷ xs) h k = ground (arith, elem-ne q p xs)

head_after :
    (p : ℕ) (ys zs : List ℕ)
    → elem p ys ≡ false
    → (if same_ptr (head_or (ys ++ p ∷ zs) none) (some p)
        then head_or zs none
        else head_or (ys ++ p ∷ zs) none)
      ≡ head_or (ys ++ zs) none
head_after p [] zs h = rw (==_refl p)
head_after p (y ∷ ys) zs h = ground arith

last_after :
    (p : ℕ) (ys zs : List ℕ)
    → elem p zs ≡ false
    → (if same_ptr (last_or (ys ++ p ∷ zs) none) (some p)
        then last_or ys none
        else last_or (ys ++ p ∷ zs) none)
      ≡ last_or (ys ++ zs) none
last_after p ys [] h = rw (last_or-append ys (p ∷ []) none, last_or-append ys [] none, ==_refl p)
last_after p ys (z ∷ zs) h =
    rw (last_or-append ys (p ∷ z ∷ zs) none, last_or-append ys (z ∷ zs) none)
      (ground (arith, last-elem p zs (some z)))

module _ {s : Store} {L : ℕ → List ℕ} (p l : ℕ) (ys zs : List ℕ) (r : Rep s L)
    (at_p : L l ≡ ys ++ p ∷ zs) where
  split-Distinct :
      Distinct ys
      × Distinct zs
      × (elem p ys ≡ false)
      × (elem p zs ≡ false)
      × ((q : ℕ) → elem q ys ≡ true → elem q zs ≡ false)
      × Distinct (ys ++ zs)
  split-Distinct = Distinct-split p ys zs (rw at_p at (r.shape l).distinct)

  pub split-Seg :
      Seg s.link l none ys (some p)
      × (s.link p ≡ mk (head_or zs none) (last_or ys none) (some l))
      × Seg s.link l (some p) zs none
  split-Seg =
      let parts = Seg-split l s.link none ys (p ∷ zs) none (rw at_p at (r.shape l).seg) in
      (parts.0, parts.1.0, parts.1.1)

  pub next_ne : same_ptr (head_or zs none) (some p) ≡ false
  next_ne = ground (arith, head-elem p zs, split-Distinct.3)

  prev_ne : same_ptr (last_or ys none) (some p) ≡ false
  prev_ne = ground (arith, last-elem p ys none, split-Distinct.2)

  next_ne_prev : (q : ℕ) → head_or zs none ≡ some q → same_ptr (last_or ys none) (some q) ≡ false
  next_ne_prev q e = ground (arith, head-elem q zs, last-elem q ys none, split-Distinct.4 q)

  count_pos : ltb 0 (s.fifo l).numentries ≡ true
  count_pos = ground (arith, (r.shape l).count, ap length at_p, length-append ys (p ∷ zs))

  module _ {s' : Store} (cut : Removed p l s s') where
    removed-Seg : Seg s'.link l none (ys ++ zs) none
    removed-Seg =
        Seg-append l s'.link none ys zs none
          (Seg-set_next l s'.link s.link none ys (some p) (head_or zs none) split-Seg.0
            split-Distinct.0
            (λ q m. ground (
              arith,
              cut.link q,
              split-Seg.1,
              elem-ne q p ys m split-Distinct.2,
              head-elem q zs,
              split-Distinct.4 q m,
            )))
          (Seg-set_prev l s'.link s.link (some p) (last_or ys none) zs none split-Seg.2
            split-Distinct.1
            (λ q m. ground (
              arith,
              cut.link q,
              split-Seg.1,
              elem-ne q p zs m split-Distinct.3,
              last-elem q ys none,
              split-Distinct.4 q,
            )))

    removed_front : IsFifo s' l (ys ++ zs)
    removed_front = record {
      first =
          rw (cut.first, (r.shape l).first, split-Seg.1, at_p)
            (head_after p ys zs split-Distinct.2);
      last =
          rw (cut.last, (r.shape l).last, split-Seg.1, at_p) (last_after p ys zs split-Distinct.3);
      count = ground (
        arith,
        cut.count,
        (r.shape l).count,
        ap length at_p,
        length-append ys zs,
        length-append ys (p ∷ zs),
      );
      small = omega (
        arith,
        (r.shape l).small,
        ap length at_p,
        length-append ys zs,
        length-append ys (p ∷ zs),
      );
      distinct = split-Distinct.5;
      seg = removed-Seg;
    }

    -- A page on another list, or on none, keeps its links, and the rest of the list its membership.
    untouched : (q : ℕ) → (s.link q).list ≢ some l → s'.link q ≡ s.link q
    untouched q other = ground (
      arith,
      cut.link q,
      split-Seg.1,
      head-elem q zs,
      last-elem q ys none,
      Seg-list l s.link none ys (some p) q split-Seg.0,
      Seg-list l s.link (some p) zs none q split-Seg.2,
    )

    removed_list : (q : ℕ) → (s'.link q).list ≡ (if q == p then none else (s.link q).list)
    removed_list q = ground (arith, cut.link q)

    removed_other : (k : ℕ) → (k == l) ≡ false → IsFifo s' k (L k)
    removed_other k ne = record {
      first = ground (arith, cut.other k ne, (r.shape k).first);
      last = ground (arith, cut.other k ne, (r.shape k).last);
      count = ground (arith, cut.other k ne, (r.shape k).count);
      small = (r.shape k).small;
      distinct = (r.shape k).distinct;
      seg =
          Seg-frame k s'.link s.link none (L k) none (r.shape k).seg
            (λ q m. ground (arith, elem-list r q k m, untouched q));
    }

    removed-Rep : Rep s' (update L l (ys ++ zs))
    removed-Rep = record {
      shape = λ k. elim (Bool-cases (k == l)) [
        | inl e ↦ rw e (rw (eq_of_== k l e) removed_front)
        | inr ne ↦ rw ne (removed_other k ne)
      ];
      owned = λ q k h. elim (Bool-cases (k == l)) [
        | inl e ↦ rw e (
            ground (
              arith,
              removed_list q,
              r.owned q l,
              ap (λ xs. elem q xs) at_p,
              elem-append q ys (p ∷ zs),
              elem-append q ys zs,
            ))
        | inr ne ↦ rw ne (ground (arith, removed_list q, r.owned q k))
      ];
      loose = λ q h. ground (arith, cut.link q, removed_list q, untouched q, r.loose q);
    }

first_of_cons : (p : ℕ) (ys zs : List ℕ) → (f : ℕ) × (head_or (ys ++ p ∷ zs) none ≡ some f)
first_of_cons p [] zs = (p, refl)
first_of_cons p (y ∷ ys) zs = (y, refl)

last_or-some : (ys : List ℕ) (d : ℕ) → same_ptr (last_or ys (some d)) none ≡ false
last_or-some [] d = refl
last_or-some (y ∷ ys) d = last_or-some ys y

-- The last page is the first one exactly when no page came in after it.
sole :
    (p : ℕ) (ys : List ℕ)
    → elem p ys ≡ false
    → same_ptr (head_or (ys ++ p ∷ []) none) (some p) ≡ same_ptr (last_or ys none) none
sole p [] h = ==_refl p
sole p (y ∷ ys) h = ground (arith, last_or-some ys y)

-- Page `p` is on no list, and every other page is where it was.
abbrev pub TakenOff : ℕ → Store → Store → Type 0
TakenOff p s s' = (q : ℕ) → (s'.link q).list ≡ (if q == p then none else (s.link q).list)

module _ {s : Store} {L : ℕ → List ℕ} (p l : ℕ) (r : Rep s L) where
  -- `page_list_remove_page` on a page of the list: no assertion fails, the page is on no list
  -- afterwards, and the rest of its list and all other lists keep their order.
  pub page_list_remove_page_refines :
      (ys zs : List ℕ)
      → L l ≡ ys ++ p ∷ zs
      → Returns
          (λ s'. Rep s' (update L l (ys ++ zs)) × TakenOff p s s')
          (page_list_remove_page l p s)
  page_list_remove_page_refines ys zs at_p =
      let (f, some_first) = first_of_cons p ys zs in
      mono
        (remove-Removed p l s (head_or zs none) (last_or ys none) f (split-Seg p l ys zs r at_p).1
          (rw ((r.shape l).first, at_p) some_first) (next_ne p l ys zs r at_p)
          (prev_ne p l ys zs r at_p) (next_ne_prev p l ys zs r at_p) (count_pos p l ys zs r at_p))
        (λ s' cut. (removed-Rep p l ys zs r at_p cut, removed_list p l ys zs r at_p cut))

  -- `dequeue_fifo` on a list that is not empty returns the page that came in first and takes it
  -- off; no assertion fails, and the other pages keep their order.
  pub dequeue_fifo_refines :
      (ys : List ℕ)
      → L l ≡ ys ++ p ∷ []
      → Returns
          (λ (o, s'). (o ≡ some p) × Rep s' (update L l (ys ++ [])) × TakenOff p s s')
          (dequeue_fifo l s)
  dequeue_fifo_refines ys at_p =
      mono
        (dequeue-Removed p l s (last_or ys none) (split-Seg p l ys [] r at_p).1
          (rw ((r.shape l).last, at_p, last_or-append ys (p ∷ []) none) refl)
          (prev_ne p l ys [] r at_p)
          (rw ((r.shape l).first, at_p) (sole p ys (split-Distinct p l ys [] r at_p).2))
          (count_pos p l ys [] r at_p))
        (λ (o, s') (e, cut).
          (e, removed-Rep p l ys [] r at_p cut, removed_list p l ys [] r at_p cut))

-- `dequeue_fifo` on an empty list returns NULL and changes nothing.
pub dequeue_fifo_empty :
    {s : Store} {L : ℕ → List ℕ} (l : ℕ) → Rep s L → L l ≡ [] → dequeue_fifo l s ≡ some (none, s)
unfolding dequeue_fifo
dequeue_fifo_empty l r e = rw ((r.shape l).last, e) refl

-- `next_page` goes from a page to the one that came in after it, and from NULL to the page that
-- came in first.
pub next_page_refines :
    {s : Store} {L : ℕ → List ℕ} (p l : ℕ) (ys zs : List ℕ)
    → Rep s L
    → L l ≡ ys ++ p ∷ zs
    → (next_page l (some p) s ≡ some (last_or ys none))
      × (next_page l none s ≡ some (last_or (L l) none))
unfolding next_page
next_page_refines p l ys zs r at_p =
    let e = (split-Seg p l ys zs r at_p).1 in (simp (e, ==_refl), ap some (r.shape l).last)
