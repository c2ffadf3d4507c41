-- ===== src/Pebs/Invariant/Cursor.antt =====
-- Where the cooling walks stand: on pages of the hot lists.
use hemem.Prelude.{
  ℕ, ◌≡◌, refl, sym, ap, ◌∙◌, Bool-cases, inl, inr, true, false, some, none, Ptr, same_ptr, arith,
  Returns, returns, bind, mono, check, subst,
}
use hemem.Fifo.Moves.{IsWell, next_page-ne}
use hemem.Memory.State.{State}
use hemem.Pebs.Lists.{dram_hot_list, nvm_hot_list, list_of}
use hemem.Pebs.Scan.{set_pebs}
use hemem.Pebs.Cool.{advance_dram, advance_nvm, update_current_cool_page}

same_ptr-eq : (p : ℕ) (o : Ptr) → same_ptr (some p) o ≡ true → o ≡ some p
same_ptr-eq p none h = cc
same_ptr-eq p (some q) h = ground arith

module _ {Table : Type 0} where
  pub record Cursors (s : State Table) : Type 0 where
    pub fast : (p : ℕ) → s.pebs.cur_cool_in_dram ≡ some p → list_of s p ≡ some dram_hot_list
    pub slow : (p : ℕ) → s.pebs.cur_cool_in_nvm ≡ some p → list_of s p ≡ some nvm_hot_list

  -- Only the two cursors differ, and neither is at page `p`.
  pub record Aside (p : ℕ) (s s' : State Table) : Type 0 where
    pub cursors : Cursors s'
    pub off_dram : same_ptr (some p) s'.pebs.cur_cool_in_dram ≡ false
    pub off_nvm : same_ptr (some p) s'.pebs.cur_cool_in_nvm ≡ false
    pub rest :
        s'
        ≡ set_pebs s (record (s.pebs) {
          cur_cool_in_dram = s'.pebs.cur_cool_in_dram;
          cur_cool_in_nvm = s'.pebs.cur_cool_in_nvm;
        })

  module _ (p : ℕ) (s : State Table) (w : IsWell s.store) (c : Cursors s) where
    advance_dram_lem :
        Returns
          (λ s'.
            Cursors s'
            × (same_ptr (some p) s'.pebs.cur_cool_in_dram ≡ false)
            × (s' ≡ set_pebs s (record (s.pebs) { cur_cool_in_dram = s'.pebs.cur_cool_in_dram })))
          (advance_dram p s)
    advance_dram_lem = elim (Bool-cases (same_ptr (some p) s.pebs.cur_cool_in_dram)) [
      | inr away ↦ rw away (returns (c, away, refl))
      | inl here ↦
          let at_l : list_of s p ≡ some dram_hot_list = c.fast p (same_ptr-eq p _ here) in
          rw here (
            check (same_ptr (list_of s p) (some dram_hot_list)) (rw at_l refl) (
              bind (next_page-ne dram_hot_list p w at_l)
                λ o (ne, on). returns (record { fast = on; slow = c.slow }, ne, refl)))
    ]

    advance_nvm_lem :
        Returns
          (λ s'.
            Cursors s'
            × (same_ptr (some p) s'.pebs.cur_cool_in_nvm ≡ false)
            × (s' ≡ set_pebs s (record (s.pebs) { cur_cool_in_nvm = s'.pebs.cur_cool_in_nvm })))
          (advance_nvm p s)
    advance_nvm_lem = elim (Bool-cases (same_ptr (some p) s.pebs.cur_cool_in_nvm)) [
      | inr away ↦ rw away (returns (c, away, refl))
      | inl here ↦
          let at_l : list_of s p ≡ some nvm_hot_list = c.slow p (same_ptr-eq p _ here) in
          rw here (
            check (same_ptr (list_of s p) (some nvm_hot_list)) (rw at_l refl) (
              bind (next_page-ne nvm_hot_list p w at_l)
                λ o (ne, on). returns (record { fast = c.fast; slow = on }, ne, refl)))
    ]

  -- `update_current_cool_page`: no assertion fails, and only the cursors move, off page `p`.
  pub update_current_cool_page_lem :
      (p : ℕ) (s : State Table)
      → IsWell s.store
      → Cursors s
      → Returns (Aside p s) (update_current_cool_page p s)
  unfolding update_current_cool_page
  update_current_cool_page_lem p s w c = bind (advance_dram_lem p s w c) λ s1 (c1, off1, same1).
      mono
        (advance_nvm_lem p s1 (subst IsWell (sym (ap (λ (t : State Table). t.store) same1)) w) c1)
        λ s2 (c2, off2, same2). record {
          cursors = c2;
          off_dram = rw (ap (λ (t : State Table). t.pebs.cur_cool_in_dram) same2) off1;
          off_nvm = off2;
          rest =
              same2
              ∙ ap
                  (λ (t : State Table).
                    set_pebs t (record (t.pebs) { cur_cool_in_nvm = s2.pebs.cur_cool_in_nvm }))
                  same1
              ∙ ap
                  (λ (x : Ptr). set_pebs s (record (s.pebs) {
                    cur_cool_in_dram = x;
                    cur_cool_in_nvm = s2.pebs.cur_cool_in_nvm;
                  }))
                  (sym (ap (λ (t : State Table). t.pebs.cur_cool_in_dram) same2));
        }
