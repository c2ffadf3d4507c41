-- ===== src/Fifo/Removed.antt =====
-- What `page_list_remove_page` and `dequeue_fifo` change in the memory, link by link.
use hemem.Prelude.{
  ltb, ℕ, ◌-◌, ◌≡◌, refl, true, false, none, some, arith, ◌==◌, if◌then◌else◌, Ptr, same_ptr,
  Returns, returns, ==_refl,
}
use hemem.Fifo.{Store, dequeue_fifo, page_list_remove_page}
use hemem.Fifo.Seg.{unlinked, mk}

-- What either call changes, pointwise.
pub record Removed (p l : ℕ) (s s' : Store) : Type 0 where
  pub link :
      (q : ℕ)
      → s'.link q ≡ (
          if q == p
          then unlinked
          else if same_ptr (s.link p).prev (some q)
          then record (s.link q) { next = (s.link p).next }
          else if same_ptr (s.link p).next (some q)
          then record (s.link q) { prev = (s.link p).prev }
          else s.link q)
  pub first :
      (s'.fifo l).first
      ≡ (if same_ptr (s.fifo l).first (some p) then (s.link p).next else (s.fifo l).first)
  pub last :
      (s'.fifo l).last
      ≡ (if same_ptr (s.fifo l).last (some p) then (s.link p).prev else (s.fifo l).last)
  pub count : (s'.fifo l).numentries ≡ (s.fifo l).numentries - 1
  pub other : (k : ℕ) → (k == l) ≡ false → s'.fifo k ≡ s.fifo k

module _ (p l : ℕ) (s : Store) where
  pub remove-Removed :
      (n b : Ptr) (f : ℕ)
      → s.link p ≡ mk n b (some l)
      → (s.fifo l).first ≡ some f
      → same_ptr n (some p) ≡ false
      → same_ptr b (some p) ≡ false
      → ((q : ℕ) → n ≡ some q → same_ptr b (some q) ≡ false)
      → ltb 0 (s.fifo l).numentries ≡ true
      → Returns (Removed p l s) (page_list_remove_page l p s)
  unfolding page_list_remove_page
  remove-Removed none none f e a np bp apart pos =
      simp (a, e, ==_refl, pos)
        (returns (record {
          link = λ q. ground (arith, apart q);
          first = ground arith;
          last = ground arith;
          count = ground arith;
          other = λ k ne. ground arith;
        }))
  remove-Removed none (some b) f e a np bp apart pos =
      simp (a, e, ==_refl, pos)
        (returns (record {
          link = λ q. ground (arith, apart q);
          first = ground arith;
          last = ground arith;
          count = ground arith;
          other = λ k ne. ground arith;
        }))
  remove-Removed (some n) none f e a np bp apart pos =
      let away : (p == n) ≡ false = ground arith in
      simp (a, e, ==_refl, pos, away)
        (returns (record {
          link = λ q. ground (arith, apart q);
          first = ground arith;
          last = ground arith;
          count = ground arith;
          other = λ k ne. ground arith;
        }))
  remove-Removed (some n) (some b) f e a np bp apart pos =
      let away : (p == n) ≡ false = ground arith in
      let two : (b == n) ≡ false = ground (arith, apart n) in
      simp (a, e, ==_refl, pos, away, two)
        (returns (record {
          link = λ q. ground (arith, apart q);
          first = ground arith;
          last = ground arith;
          count = ground arith;
          other = λ k ne. ground arith;
        }))

  pub dequeue-Removed :
      (b : Ptr)
      → s.link p ≡ mk none b (some l)
      → (s.fifo l).last ≡ some p
      → same_ptr b (some p) ≡ false
      → same_ptr (s.fifo l).first (some p) ≡ same_ptr b none
      → ltb 0 (s.fifo l).numentries ≡ true
      → Returns (λ (o, s'). (o ≡ some p) × Removed p l s s') (dequeue_fifo l s)
  unfolding dequeue_fifo
  dequeue-Removed none e a bp sole pos =
      simp (a, e, ==_refl, pos)
        (returns (
          refl,
          record {
            link = λ q. ground arith;
            first = ground arith;
            last = ground arith;
            count = ground arith;
            other = λ k ne. ground arith;
          },
        ))
  dequeue-Removed (some b) e a bp sole pos =
      simp (a, e, ==_refl, pos)
        (returns (
          refl,
          record {
            link = λ q. ground arith;
            first = ground arith;
            last = ground arith;
            count = ground arith;
            other = λ k ne. ground arith;
          },
        ))
