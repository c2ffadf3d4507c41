-- ===== src/Simple/Give.antt =====
-- About `simple_pagefault`, which gives out a page.
use hemem.Prelude.{
  ℕ, ◌+◌, ◌<◌, ◌≡◌, refl, ap, ◌∙◌, Bool, Bool-cases, inl, inr, true, false, not, none, some, ltb,
  ◌∷◌, Ptr, arith, ◌==◌, if◌then◌else◌, Returns, returns, bind, check, add64, eq_of_==,
}
use hemem.Fifo.Moves.{IsWell, entries, entries-pos, Dequeued}
use hemem.Memory.Page.{page_size}
use hemem.Memory.Kernel.{Env}
use hemem.Memory.State.{State, set_store}
use hemem.Pebs.Lists.{list_of}
use hemem.Pebs.Invariant.Steps.{Relinked, page-Relinked, dequeue_lem, TakenFrom}
use hemem.Simple.{
  simple_dram_free, simple_nvm_free, simple_pagefault, simple_choose, give_fast, give_slow,
}
use hemem.Simple.Invariant.{free_of, counter, agrees, SimpleInv, Gave}

module _ {e : Env} {s : State e.table.Table} (inv : SimpleInv e s) where
  free_page_idle :
      (d : Bool) (p : ℕ)
      → list_of s p ≡ some (free_of d)
      → ((s.page p).present ≡ false) × ((s.page p).in_dram ≡ d)
  free_page_idle d p on = (ground (arith, inv.busy p), ground (arith, inv.tier p (free_of d) on))

  Gave-Inv :
      (d : Bool) (p : ℕ) (s' : State e.table.Table)
      → IsWell s'.store
      → ((k : ℕ)
          → entries s.store k
            ≡ (if k == free_of d then entries s'.store k + 1 else entries s'.store k))
      → Gave d p s s'
      → SimpleInv e s'
  Gave-Inv d p s' w count g =
      let (idle, mine) = free_page_idle d p g.was in
      record {
        well = w;
        used = λ c. if agrees d c then p ∷ inv.used c else inv.used c;
        distinct = λ c. elim (Bool-cases (agrees d c)) [
          | inl same ↦ rw same (ground (arith, inv.in_use c p, idle), inv.distinct c)
          | inr other ↦ rw other (inv.distinct c)
        ];
        in_use = λ c q. elim (Bool-cases (agrees d c)) [
          | inl same ↦ rw same (ground (arith, inv.in_use c q, g.page q, eq_of_== q p, mine, same))
          | inr other ↦
              rw other (ground (arith, inv.in_use c q, g.page q, eq_of_== q p, mine, other, idle))
        ];
        busy = λ q h. ground (arith, g.page q, g.place q, inv.busy q);
        tier = λ q l h. ground (arith, g.page q, g.place q, inv.tier q l);
        bytes = λ c. elim (Bool-cases (agrees d c)) [
          | inl same ↦ rw same (omega (arith, rw same at (g.bytes c), inv.bytes c))
          | inr other ↦ rw other (omega (arith, rw other at (g.bytes c), inv.bytes c))
        ];
        fits = λ c. elim (Bool-cases (agrees d c)) [
          | inl same ↦
              let at_d : (free_of c == free_of d) ≡ true = ground (arith, same) in
              rw same (omega (arith, inv.fits c, rw at_d at (count (free_of c))))
          | inr other ↦
              let off_d : (free_of c == free_of d) ≡ false = ground (arith, other) in
              rw other (omega (arith, inv.fits c, rw off_d at (count (free_of c))))
        ];
        small = inv.small;
      }

  -- The counter does not wrap.
  count_up :
      (d : Bool) (p : ℕ)
      → list_of s p ≡ some (free_of d)
      → add64 (counter d s) page_size ≡ counter d s + page_size
  count_up d p on =
      omega (arith, inv.bytes d, inv.fits d, inv.small d, entries-pos (free_of d) p inv.well on)

  Gave-both :
      (d : Bool) (p : ℕ) (s1 s' : State e.table.Table)
      → Relinked s s1
      → Dequeued p (free_of d) s.store s1.store
      → s'.store ≡ s1.store
      → ((q : ℕ)
          → s'.page q ≡ (if q == p then record (s1.page p) { present = true } else s1.page q))
      → ((c : Bool) → counter c s' ≡ counter c s + (if agrees d c then page_size else 0))
      → SimpleInv e s' × Gave d p s s'
  Gave-both d p s1 s' same gone store page bytes =
      let g : Gave d p s s' = record {
        was = gone.was;
        page = λ q. elim (Bool-cases (q == p)) [
          | inl is ↦ page q ∙ rw (is, eq_of_== q p is, page-Relinked s s1 p same) refl
          | inr ne ↦ page q ∙ rw (ne, page-Relinked s s1 q same) refl
        ];
        place = λ q. rw store (gone.moved.place q);
        bytes = bytes;
      } in
      (Gave-Inv d p s' (rw store gone.moved.well) (λ k. rw store (gone.count k)) g, g)

  give_fast_lem :
      (p : ℕ) (s1 : State e.table.Table)
      → Relinked s s1
      → Dequeued p simple_dram_free s.store s1.store
      → Returns (λ (q, s'). SimpleInv e s' × Gave true q s s') (give_fast p s1)
  give_fast_lem p s1 same gone =
      let simple : s1.simple ≡ s.simple = ap (λ (t : State e.table.Table). t.simple) same in
      check (not (s1.page p).present)
        (ground (arith, (free_page_idle true p gone.was).0, page-Relinked s s1 p same))
        (returns (
          Gave-both true p s1 _ same gone refl (λ q. refl)
            (λ c. rw simple (ground (arith, count_up true p gone.was)))))

  give_slow_lem :
      (p : ℕ) (s1 : State e.table.Table)
      → Relinked s s1
      → Dequeued p simple_nvm_free s.store s1.store
      → Returns (λ (q, s'). SimpleInv e s' × Gave false q s s') (give_slow (some p) s1)
  give_slow_lem p s1 same gone =
      let simple : s1.simple ≡ s.simple = ap (λ (t : State e.table.Table). t.simple) same in
      check (not (s1.page p).present)
        (ground (arith, (free_page_idle false p gone.was).0, page-Relinked s s1 p same))
        (returns (
          Gave-both false p s1 _ same gone refl (λ q. refl)
            (λ c. rw simple (ground (arith, count_up false p gone.was)))))

  -- A page is given out while one is free in either tier: no assertion fails, the page was free, it
  -- is of DRAM if that has a free page, and the invariant holds again.
  pub simple_pagefault_lem :
      0 < entries s.store simple_dram_free + entries s.store simple_nvm_free
      → Returns
          (λ (p, s'). SimpleInv e s' × Gave (ltb 0 (entries s.store simple_dram_free)) p s s')
          (simple_pagefault e s)
  unfolding simple_pagefault
  simple_pagefault_lem some_free = bind (dequeue_lem simple_dram_free s inv.well) go
    where
      slow :
          (r : Ptr × State e.table.Table)
          → entries s.store simple_dram_free ≡ 0
          → TakenFrom simple_nvm_free s r
          → Returns (λ (p, s'). SimpleInv e s' × Gave false p s s') (give_slow r.0 r.1)
      slow (none, s1) zip (same, taken) = absurd (omega (arith, some_free, taken.1))
      slow (some p, s1) zip (same, gone) = give_slow_lem p s1 same gone

      go :
          (r : Ptr × State e.table.Table)
          → TakenFrom simple_dram_free s r
          → Returns
              (λ (p, s'). SimpleInv e s' × Gave (ltb 0 (entries s.store simple_dram_free)) p s s')
              (simple_choose e r.0 r.1)
      go (none, s1) (same, taken) =
          let zip : ltb 0 (entries s.store simple_dram_free) ≡ false = ground (arith, taken.1) in
          let old : s1 ≡ s = same ∙ ap (λ m. set_store s m) taken.0 in
          rw (zip, old)
            (check (ltb s.simple.slowmem e.nvmsize)
              (ground (arith, inv.bytes false, inv.fits false, some_free, taken.1))
              (bind (dequeue_lem simple_nvm_free s inv.well) λ r t. slow r taken.1 t))
      go (some p, s1) (same, gone) =
          let more : ltb 0 (entries s.store simple_dram_free) ≡ true =
            ground (arith, gone.count simple_dram_free) in
          rw more (give_fast_lem p s1 same gone)
