-- ===== src/Pebs/Invariant/Walk.antt =====
-- The whole of `partial_cool`, and both walks of an iteration of the policy thread.
use hemem.Prelude.{
  ℕ, ◌≡◌, refl, sym, ap, ◌∙◌, Bool, inl, inr, true, false, not, some, none, head_or, Ptr, arith,
  Returns, returns, bind, ◌⊎◌,
}
use hemem.Memory.Kernel.{Env}
use hemem.Memory.State.{State, Pebs}
use hemem.Pebs.Lists.{list_of, home}
use hemem.Pebs.Scan.{set_pebs}
use hemem.Pebs.Invariant.{Inv}
use hemem.Pebs.Policy.{cool_both}
use hemem.Pebs.Invariant.Cursor.{Cursors}
use hemem.Pebs.Invariant.Draining.{ring-Inv}
use hemem.Pebs.Invariant.Cooled.{
  same_clock, Stays-Cools, Cools-Stays, Walking, Cooled, Cooled-Fresh, Fresh, Stays, Cools,
}
use hemem.Pebs.Invariant.Visits.{partial_cool_lem}
use hemem.Pebs.Invariant.Tours.{Rep-IsFifo, Toured, Toured-pebs, split_at, first_tour, second_tour}

module _ {Table : Type 0} where
  -- What both walks leave: the fate of the pages of each hot list and of all pages, where the next
  -- walks go on, and that of the variables of the policy only those of the walks differ.
  pub record BothCooled (s s' : State Table) : Type 0 where
    pub fate : (q : ℕ) → Stays q s s' ⊎ (Cools true q s s' ⊎ Cools false q s s')
    pub fast : Toured true s s'
    pub slow : Toured false s s'
    pub cursors : Cursors s'
    pub pebs :
        Walking
          (record (s.pebs) {
            cur_cool_in_dram = s'.pebs.cur_cool_in_dram;
            cur_cool_in_nvm = s'.pebs.cur_cool_in_nvm;
          })
          s'.pebs

  Cooled-other :
      (dram : Bool) (s s' : State Table) (q : ℕ)
      → Cooled dram s s'
      → list_of s q ≡ some (home (not dram) true)
      → list_of s' q ≡ some (home (not dram) true)
  Cooled-other dram s s' q c at_l = elim (c.fate q) [
    | inl (l, _) ↦ l ∙ at_l
    | inr (h, _, _, _) ↦ absurd (ground (arith, h, at_l))
  ]

  both_fate :
      (s s1 s2 : State Table)
      → s1.pebs.global_clock ≡ s.pebs.global_clock
      → (q : ℕ) → Stays q s s1 ⊎ Cools true q s s1
      → Stays q s1 s2 ⊎ Cools false q s1 s2
      → Stays q s s2 ⊎ (Cools true q s s2 ⊎ Cools false q s s2)
  both_fate s s1 s2 w q (inl x) (inl y) = inl (y.0 ∙ x.0, y.1 ∙ x.1)
  both_fate s s1 s2 w q (inl x) (inr y) = inr (inr (Stays-Cools false q s s1 s2 w x y))
  both_fate s s1 s2 w q (inr x) (inl y) = inr (inl (Cools-Stays true q s s1 s2 x y))
  both_fate s s1 s2 w q (inr x) (inr y) = absurd (ground (arith, y.0, x.1))

module _ {e : Env} {n : ℕ} where
  -- Both walks of an iteration, when no page of a hot list has missed 64 coolings: no assertion
  -- fails and no shift is too far. A tier that needs no cooling keeps all its pages where and as
  -- they are. Of a tier that needs it, the next 8192 pages of the hot list are visited, from the
  -- cursor towards the start of the list; a visited page goes to the cold list, with its flag
  -- cleared, when its flag is off or fewer than 8 reads are left of its counts, halved once for
  -- each cooling that it missed, and stays where and as it was otherwise; the pages of the hot list that are not visited stay as they were. All other
  -- pages stay too, the cursors are on the hot lists, the rings, clocks and counters are as they
  -- were, and the invariant holds again.
  pub cool_both_lem :
      (s : State e.table.Table)
      → Inv e n s
      → Cursors s
      → Fresh true s
      → Fresh false s
      → Returns (λ s'. Inv e n s' × BothCooled s s') (cool_both e s)
  unfolding cool_both
  cool_both_lem s inv c fast slow =
      let L = inv.well.seqs in
      let r = inv.well.rep in
      let (xs, zs, ahead, at_d) = split_at true s.pebs.cur_cool_in_dram L s r c.fast in
      let (xs', zs', ahead', at_n) = split_at false s.pebs.cur_cool_in_nvm L s r c.slow in
      bind (partial_cool_lem true s.pebs.cur_cool_in_dram xs zs L s inv fast r ahead at_d)
        λ (d, s1) (inv1, c1, on1, (j1, ys, st)).
          let b : Pebs = record (s1.pebs) { cur_cool_in_dram = d } in
          let nvm : b.cur_cool_in_nvm ≡ head_or zs' none =
            ap (λ (b : Pebs). b.cur_cool_in_nvm) c1.pebs ∙ at_n in
          bind
            (partial_cool_lem false b.cur_cool_in_nvm xs' zs' st.seqs (set_pebs s1 b)
              (ring-Inv b s1 inv1) (Cooled-Fresh true false s s1 c1 slow) st.rep
              (st.others _ refl refl ∙ ahead') nvm)
            λ (o, s2) (inv2, c2, on2, (j2, ys', _)).
              let at_d' : s2.pebs.cur_cool_in_dram ≡ d =
                ap (λ (b : Pebs). b.cur_cool_in_dram) c2.pebs in
              returns (
                ring-Inv _ s2 inv2,
                record {
                  fate = λ q.
                      both_fate s (set_pebs s1 b) s2 (same_clock s s1 c1.pebs) q (c1.fate q)
                        (c2.fate q);
                  fast =
                      Toured-pebs true s s2 _
                        (first_tour s s1 b s2 c1 c2 xs zs (Rep-IsFifo _ r ahead) at_d j1);
                  slow = Toured-pebs false s s2 _ (
                      second_tour s s1 b s2 c1 c2 xs' zs' (Rep-IsFifo _ r ahead') at_n
                        (same_clock s s1 c1.pebs) st.need j2);
                  cursors = record {
                    fast =
                        λ q is. Cooled-other false (set_pebs s1 b) s2 q c2 (on1 q (sym at_d' ∙ is));
                    slow = on2;
                  };
                  pebs =
                      ap (λ (y : Pebs). record y { cur_cool_in_nvm = o }) c2.pebs
                      ∙ ap
                          (λ (y : Pebs). record y {
                            cur_cool_in_dram = d;
                            cur_cool_in_nvm = o;
                            need_cool_dram = s2.pebs.need_cool_dram;
                            need_cool_nvm = s2.pebs.need_cool_nvm;
                            start_dram_page = s2.pebs.start_dram_page;
                            start_nvm_page = s2.pebs.start_nvm_page;
                          })
                          c1.pebs
                      ∙ ap
                          (λ (y : Ptr). record (s.pebs) {
                            cur_cool_in_dram = y;
                            cur_cool_in_nvm = o;
                            need_cool_dram = s2.pebs.need_cool_dram;
                            need_cool_nvm = s2.pebs.need_cool_nvm;
                            start_dram_page = s2.pebs.start_dram_page;
                            start_nvm_page = s2.pebs.start_nvm_page;
                          })
                          (sym at_d');
                },
              )
