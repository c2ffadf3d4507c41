-- ===== src/Pebs/Invariant/Passing.antt =====
-- What a round of the migration loop leaves as it is.
use hemem.Prelude.{
  ℕ, ◌+◌, ◌≡◌, sym, ap, ◌∙◌, Bool-cases, inl, inr, ◌⊎◌, false, none, some, Ptr, ◌==◌, if◌then◌else◌,
  arith, eq_of_==,
}
use hemem.Fifo.Moves.{entries, Enqueued}
use hemem.Memory.State.{State, Pebs}
use hemem.Pebs.Lists.{
  list_of, dram_hot_list, dram_cold_list, dram_free_list, nvm_hot_list, nvm_free_list,
}
use hemem.Pebs.Invariant.Steps.{Relinked, page-Relinked}
use hemem.Pebs.Invariant.Cursor.{Cursors}
use hemem.Pebs.Invariant.Onward.{Onward, Raised, label, stock}

-- What a round of the loop leaves as it is.
pub record Passed {Table : Type 0} (s s' : State Table) : Type 0 where
  pub labels : (q : ℕ) → label (s'.page q) ≡ label (s.page q)
  pub nvm_hot : (q : ℕ) → list_of s' q ≡ some nvm_hot_list → list_of s q ≡ some nvm_hot_list
  pub dram_cold : (q : ℕ) → list_of s' q ≡ some dram_cold_list → list_of s q ≡ some dram_cold_list
  -- a page on a hot list was on one
  pub hot_from :
      (q : ℕ)
      → list_of s' q ≡ some dram_hot_list
      → (list_of s q ≡ some dram_hot_list) ⊎ (list_of s q ≡ some nvm_hot_list)
  pub stock : stock s' ≡ stock s
  -- only where the walk over the hot list of NVM stands differs
  pub pebs : s'.pebs ≡ record (s.pebs) { cur_cool_in_nvm = s'.pebs.cur_cool_in_nvm }
  pub cursors : Cursors s → Cursors s'

-- The round so far: page `p` was taken off the hot list of NVM, and the walk over it moved on.
pub record Left {Table : Type 0} (s : State Table) (p : ℕ) (s2 : State Table) : Type 0 where
  pub was : list_of s p ≡ some nvm_hot_list
  pub page : (q : ℕ) → s2.page q ≡ s.page q
  pub place : (q : ℕ) → list_of s2 q ≡ (if q == p then none else list_of s q)
  pub count :
      (k : ℕ)
      → entries s.store k
        ≡ (if k == nvm_hot_list then entries s2.store k + 1 else entries s2.store k)
  pub pebs : s2.pebs ≡ record (s.pebs) { cur_cool_in_nvm = s2.pebs.cur_cool_in_nvm }
  pub cursors : Cursors s → Cursors s2

module _ {Table : Type 0} (s : State Table) (p : ℕ) (s2 s' : State Table) (l : Left s p s2) where
  after-pebs :
      s'.pebs ≡ s2.pebs → s'.pebs ≡ record (s.pebs) { cur_cool_in_nvm = s'.pebs.cur_cool_in_nvm }
  after-pebs same =
      same
      ∙ l.pebs
      ∙ ap (λ (x : Ptr). record (s.pebs) { cur_cool_in_nvm = x })
          (sym (ap (λ (b : Pebs). b.cur_cool_in_nvm) same))

  pub Onward-Passed :
      Onward s2 s'
      → stock s' ≡ stock s2
      → ((q : ℕ)
          → (q == p) ≡ false
          → list_of s' q ≡ some dram_hot_list
          → list_of s2 q ≡ some dram_hot_list)
      → Passed s s'
  Onward-Passed o free new = record {
    hot_from = λ q h. elim (Bool-cases (q == p)) [
      | inl is ↦ inr (ground (arith, eq_of_== q p is, l.was))
      | inr ne ↦ inl (ground (arith, new q ne h, l.place q))
    ];
    labels = λ q. o.labels q ∙ ap label (l.page q);
    nvm_hot = λ q h. ground (arith, o.nvm_hot q h, l.place q);
    dram_cold = λ q h. ground (arith, o.dram_cold q h, l.place q);
    stock = free ∙ ground (arith, l.count dram_free_list, l.count nvm_free_list);
    pebs = after-pebs o.pebs;
    cursors = λ c.
        let c2 = l.cursors c in
        record {
          fast = λ q h.
              o.dram_hot q (c2.fast q (sym (ap (λ (b : Pebs). b.cur_cool_in_dram) o.pebs) ∙ h));
          slow = λ q h.
              o.still_hot q (c2.slow q (sym (ap (λ (b : Pebs). b.cur_cool_in_nvm) o.pebs) ∙ h));
        };
  }

  pub Raised-Passed : Raised p s2 s' → Passed s s'
  Raised-Passed r = Onward-Passed r.onward r.stock r.only_new

  -- The page is back on the hot list of NVM.
  pub Back-Passed : Relinked s2 s' → Enqueued p nvm_hot_list s2.store s'.store → Passed s s'
  Back-Passed same into =
      let b : s'.pebs ≡ s2.pebs = ap (λ (t : State Table). t.pebs) same in
      record {
        labels = λ q. ap label (page-Relinked s2 s' q same ∙ l.page q);
        hot_from = λ q h. inl (ground (arith, into.moved.place q, l.place q));
        nvm_hot = λ q h. ground (arith, into.moved.place q, l.place q, l.was, eq_of_== q p);
        dram_cold = λ q h. ground (arith, into.moved.place q, l.place q);
        stock = ground (
          arith,
          into.count dram_free_list,
          into.count nvm_free_list,
          l.count dram_free_list,
          l.count nvm_free_list,
        );
        pebs = after-pebs b;
        cursors = λ c.
            let c2 = l.cursors c in
            record {
              fast = λ q h. ground (
                arith,
                into.moved.place q,
                c2.fast q (sym (ap (λ (b : Pebs). b.cur_cool_in_dram) b) ∙ h),
                l.place q,
                l.was,
              );
              slow = λ q h. ground (
                arith,
                into.moved.place q,
                c2.slow q (sym (ap (λ (b : Pebs). b.cur_cool_in_nvm) b) ∙ h),
              );
            };
      }
