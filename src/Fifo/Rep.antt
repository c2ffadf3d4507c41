-- ===== src/Fifo/Rep.antt =====
-- The representation invariant: what the memory says when its lists stand for the sequences `L`,
-- each from the page that came in last to the one that came in first.
use hemem.Prelude.{
  ℕ, ◌<◌, ◌^◌, ◌≡◌, refl, true, false, none, some, List, [], ◌∷◌, ◌++◌, arith, elem, Distinct,
  head_or, last_or, length, elem-append,
}
use hemem.Fifo.{Store}
use hemem.Fifo.Seg.{Seg, Seg-list, unlinked}

pub record IsFifo (s : Store) (l : ℕ) (xs : List ℕ) : Type 0 where
  pub first : (s.fifo l).first ≡ head_or xs none
  pub last : (s.fifo l).last ≡ last_or xs none
  pub count : (s.fifo l).numentries ≡ length xs
  pub small : length xs < 2 ^ 64
  pub distinct : Distinct xs
  pub seg : Seg s.link l none xs none

pub record Rep (s : Store) (L : ℕ → List ℕ) : Type 0 where
  pub shape : (l : ℕ) → IsFifo s l (L l)
  pub owned : (q l : ℕ) → (s.link q).list ≡ some l → elem q (L l) ≡ true
  pub loose : (q : ℕ) → (s.link q).list ≡ none → s.link q ≡ unlinked

module _ {s : Store} {L : ℕ → List ℕ} (r : Rep s L) where
  pub elem-list : (q l : ℕ) → elem q (L l) ≡ true → (s.link q).list ≡ some l
  elem-list q l m = Seg-list l s.link none (L l) none q (r.shape l).seg m

  pub elem_of_unlinked : (q l : ℕ) → (s.link q).list ≡ none → elem q (L l) ≡ false
  elem_of_unlinked q l e = ground (arith, elem-list q l)

pub Distinct-split :
    (p : ℕ) (ys zs : List ℕ)
    → Distinct (ys ++ p ∷ zs)
    → Distinct ys
      × Distinct zs
      × (elem p ys ≡ false)
      × (elem p zs ≡ false)
      × ((q : ℕ) → elem q ys ≡ true → elem q zs ≡ false)
      × Distinct (ys ++ zs)
Distinct-split p [] zs d = (tt, d.1, refl, d.0, λ q m. cc, d.1)
Distinct-split p (y ∷ ys) zs d =
    let ih = Distinct-split p ys zs d.1 in
    (
      (ground (arith, elem-append y ys (p ∷ zs)), ih.0),
      ih.1,
      ground (arith, elem-append y ys (p ∷ zs)),
      ih.3,
      λ q m. ground (arith, ih.4 q, elem-append y ys (p ∷ zs)),
      (ground (arith, elem-append y ys (p ∷ zs), elem-append y ys zs), ih.5),
    )
