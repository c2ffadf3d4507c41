-- ===== src/Fifo/Insert.antt =====
-- `enqueue_fifo` puts a page that is on no list at the front of a list.
use hemem.Prelude.{
  ℕ, suc, ◌+◌, ◌<◌, ◌^◌, ◌≡◌, true, false, none, some, List, [], ◌∷◌, arith, ◌==◌, if◌then◌else◌,
  same_ptr, elem, head_or, last_or, length, update, Returns, returns, mono, Bool-cases, inl, inr,
  ==_refl, eq_of_==,
}
use hemem.Fifo.{Store, enqueue_fifo}
use hemem.Fifo.Seg.{Seg, Seg-frame, Seg-set_prev, unlinked, mk}
use hemem.Fifo.Rep.{IsFifo, Rep, elem-list, elem_of_unlinked}

-- What the call changes, pointwise.
record Inserted (p l : ℕ) (s s' : Store) : Type 0 where
  link :
      (q : ℕ)
      → s'.link q ≡ (
          if q == p
          then mk (s.fifo l).first none (some l)
          else if same_ptr (s.fifo l).first (some q)
          then record (s.link q) { prev = some p }
          else s.link q)
  first : (s'.fifo l).first ≡ some p
  last : (s'.fifo l).last ≡ (if same_ptr (s.fifo l).first none then some p else (s.fifo l).last)
  count : (s'.fifo l).numentries ≡ ((s.fifo l).numentries + 1)
  other : (k : ℕ) → (k == l) ≡ false → s'.fifo k ≡ s.fifo k

module _ (p l : ℕ) (s : Store) (fresh : s.link p ≡ unlinked) where
  insert_empty :
      (s.fifo l).first ≡ none
      → (s.fifo l).last ≡ none
      → (s.fifo l).numentries ≡ 0
      → Returns (Inserted p l s) (enqueue_fifo l p s)
  unfolding enqueue_fifo
  insert_empty a b c =
      rw (fresh, a, b, c, ==_refl, ==_refl)
        (returns (record {
          link = λ q. ground arith;
          first = ground arith;
          last = ground arith;
          count = ground arith;
          other = λ k ne. ground arith;
        }))

  insert_cons :
      (x : ℕ)
      → (s.fifo l).first ≡ some x
      → (s.link x).prev ≡ none
      → (x == p) ≡ false
      → (s.fifo l).numentries + 1 < 2 ^ 64
      → Returns (Inserted p l s) (enqueue_fifo l p s)
  unfolding enqueue_fifo
  insert_cons x a b ne c =
      rw (fresh, a, ==_refl, ne, b, ==_refl)
        (returns (record {
          link = λ q. ground arith;
          first = ground arith;
          last = ground arith;
          count = ground arith;
          other = λ k ne. ground arith;
        }))

first_list :
    {s : Store} {L : ℕ → List ℕ} (r : Rep s L) (l q : ℕ)
    → (s.fifo l).first ≡ some q
    → (s.link q).list ≡ some l
first_list {s} {L} r l q e = elem-list r q l (go (L l) (r.shape l).first)
  where
    go : (xs : List ℕ) → (s.fifo l).first ≡ head_or xs none → elem q xs ≡ true
    go [] a = cc
    go (x ∷ xs) a = ground arith

module _ {s s' : Store} {L : ℕ → List ℕ} (p l : ℕ) (r : Rep s L) (free : (s.link p).list ≡ none)
    (ins : Inserted p l s s') where
  inserted-Seg : Seg s'.link l none (p ∷ L l) none
  inserted-Seg = (
    ground (arith, ins.link p, (r.shape l).first, ==_refl p),
    Seg-set_prev l s'.link s.link none (some p) (L l) none (r.shape l).seg (r.shape l).distinct
        (λ q m. ground (arith, ins.link q, (r.shape l).first, elem-list r q l m)),
  )

  inserted_last : (s'.fifo l).last ≡ last_or (L l) (some p)
  inserted_last = go (L l) (r.shape l).first (r.shape l).last
    where
      go :
          (xs : List ℕ)
          → (s.fifo l).first ≡ head_or xs none
          → (s.fifo l).last ≡ last_or xs none
          → (s'.fifo l).last ≡ last_or xs (some p)
      go [] a b = ground (arith, ins.last)
      go (x ∷ xs) a b = ground (arith, ins.last)

  inserted_front : suc (length (L l)) < 2 ^ 64 → IsFifo s' l (p ∷ L l)
  inserted_front room = record {
    first = ins.first;
    last = inserted_last;
    count = ground (arith, ins.count, (r.shape l).count);
    small = room;
    distinct = (elem_of_unlinked r p l free, (r.shape l).distinct);
    seg = inserted-Seg;
  }

  inserted_other : (k : ℕ) → (k == l) ≡ false → IsFifo s' k (L k)
  inserted_other k ne = record {
    first = ground (arith, ins.other k ne, (r.shape k).first);
    last = ground (arith, ins.other k ne, (r.shape k).last);
    count = ground (arith, ins.other k ne, (r.shape k).count);
    small = (r.shape k).small;
    distinct = (r.shape k).distinct;
    seg =
        Seg-frame k s'.link s.link none (L k) none (r.shape k).seg
          (λ q m. ground (arith, ins.link q, elem-list r q k m, first_list r l q));
  }

  inserted-Rep : suc (length (L l)) < 2 ^ 64 → Rep s' (update L l (p ∷ L l))
  inserted-Rep room = record {
    shape = λ k. elim (Bool-cases (k == l)) [
      | inl e ↦ rw e (rw (eq_of_== k l e) (inserted_front room))
      | inr ne ↦ rw ne (inserted_other k ne)
    ];
    owned = λ q k h. ground (arith, ins.link q, r.owned q k, r.owned q l);
    loose = λ q h. ground (arith, ins.link q, r.loose q, first_list r l q);
  }

-- Page `p` is on list `l`, and every other page is where it was.
abbrev pub PutOn : ℕ → ℕ → Store → Store → Type 0
PutOn p l s s' = (q : ℕ) → (s'.link q).list ≡ (if q == p then some l else (s.link q).list)

-- `enqueue_fifo` on a page that is on no list: no assertion fails, the page comes first on its
-- list, no other page moves, and the memory stands for the sequences so changed.
pub enqueue_fifo_refines :
    {s : Store} {L : ℕ → List ℕ} (p l : ℕ)
    → Rep s L
    → (s.link p).list ≡ none
    → suc (length (L l)) < 2 ^ 64
    → Returns (λ s'. Rep s' (update L l (p ∷ L l)) × PutOn p l s s') (enqueue_fifo l p s)
enqueue_fifo_refines {s} {L} p l r free room = mono inserted done
  where
    done : (s' : Store) → Inserted p l s s' → Rep s' (update L l (p ∷ L l)) × PutOn p l s s'
    done s' ins = (inserted-Rep p l r free ins room, λ q. ground (arith, ins.link q))

    inserted : Returns (Inserted p l s) (enqueue_fifo l p s)
    inserted = go (L l) (r.shape l) room
      where
        go :
            (xs : List ℕ)
            → IsFifo s l xs
            → suc (length xs) < 2 ^ 64
            → Returns (Inserted p l s) (enqueue_fifo l p s)
        go [] a _ = insert_empty p l s (r.loose p free) a.first a.last a.count
        go (x ∷ xs) a below =
            insert_cons p l s (r.loose p free) x a.first (ground (arith, a.seg.0))
              (ground (arith, a.seg.0)) (ground (arith, a.count))
