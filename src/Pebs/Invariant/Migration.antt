-- ===== src/Pebs/Invariant/Migration.antt =====
-- One round of the migration loop of the policy thread.
use hemem.Prelude.{
  ℕ, ◌+◌, ◌<◌, ◌≡◌, refl, ap, ◌∙◌, Bool-cases, inl, inr, true, false, none, some, Ptr, ltb, ◌==◌,
  arith, if◌then◌else◌, Returns, returns, bind, mono,
}
use hemem.Fifo.Moves.{entries}
use hemem.Memory.Page.{hugepage_size, total}
use hemem.Memory.Kernel.{Env, Serves}
use hemem.Memory.State.{State, Pebs}
use hemem.Pebs.Lists.{
  list_of, dram_hot_list, dram_free_list, nvm_hot_list, nvm_cold_list, nvm_free_list, set_hot,
}
use hemem.Pebs.Scan.{hot_read_threshold}
use hemem.Pebs.Policy.{Next, continue, stop, out, leave_nvm, decide_hot, migrate_hot, migrate_one}
use hemem.Pebs.Invariant.{Inv}
use hemem.Pebs.Invariant.Steps.{page-Relinked}
use hemem.Pebs.Invariant.Onward.{Onward-trans, set_hot-Onward, put-Onward}
use hemem.Pebs.Invariant.Passing.{Passed, Left, Onward-Passed, Raised-Passed, Back-Passed}
use hemem.Pebs.Invariant.Leaving.{
  leave-same, leave-pebs, leave-Cursors, InvOff-same, set_hot-InvOff,
}
use hemem.Pebs.Invariant.Off.{
  InvOff, Inv-InvOff, InvOff-Inv, Took, dequeue_held, enqueue_held, nobody,
}
use hemem.Pebs.Invariant.Moving.{Fits-put}
use hemem.Pebs.Invariant.Raising.{Movable, Movable-less, Tried, only}
use hemem.Pebs.Invariant.Trying.{try_move_lem}

-- How a round ends, by what it ends with.
abbrev pub Migrated : (e : Env) → ℕ → State e.table.Table → Next e.table.Table → Type 0
Migrated e n s (stop s') = (s' ≡ s) × (entries s.store nvm_hot_list ≡ 0)
Migrated e n s (out s') =
    Inv e n s'
    × (p : ℕ) × (list_of s p ≡ some nvm_hot_list)
    × (list_of s' p ≡ some nvm_hot_list)
    × Passed s s'
Migrated e n s (continue m s') =
    Inv e n s'
    × (p : ℕ) × (list_of s p ≡ some nvm_hot_list)
    × (if ltb (total (s.page p).accesses) hot_read_threshold
        then (m ≡ 0) × (list_of s' p ≡ some nvm_cold_list) × ((s'.page p).hot ≡ false)
        else (m ≡ hugepage_size)
          × (list_of s' p ≡ some dram_hot_list)
          × ((s'.page p).in_dram ≡ true))
    × Passed s s'
    × (entries s.store nvm_hot_list ≡ entries s'.store nvm_hot_list + 1)

module _ {e : Env} (serves : Serves e.os) {n : ℕ} {s : State e.table.Table} (inv : Inv e n s)
    (m : Movable s)
    (stock : 0 < entries s.store dram_free_list + entries s.store nvm_free_list) where
  Tried-Migrated :
      (p : ℕ) (s2 : State e.table.Table)
      → list_of s p ≡ some nvm_hot_list
      → ltb (total (s.page p).accesses) hot_read_threshold ≡ false
      → Left s p s2
      → (r : Next e.table.Table) → Tried e n p s2 r
      → Migrated e n s r
  Tried-Migrated p s2 was warm left (continue k s') (inv', at_l, tier, moved, up) = (
    inv',
    p,
    was,
    rw warm (moved, at_l, tier),
    Raised-Passed s p s2 s' left up,
    ground (arith, up.hot, left.count nvm_hot_list),
  )
  Tried-Migrated p s2 was warm left (stop s') t = absurd t
  Tried-Migrated p s2 was warm left (out s') (inv', same, back) =
      (inv', p, was, ground (arith, back.moved.place p), Back-Passed s p s2 s' left same back)

  round :
      (p : ℕ) (s2 : State e.table.Table)
      → Left s p s2
      → InvOff e n 1 (only p) s2
      → 0 < entries s2.store dram_free_list + entries s2.store nvm_free_list
      → Returns (Migrated e n s) (decide_hot e p s2)
  round p s2 left inv2 room =
      let was = left.was in
      let page = left.page in
      let place = left.place in
      let f = inv.fits p in
      let fr = inv2.framed p (ground arith) in
      elim (Bool-cases (ltb (total (s2.page p).accesses) hot_read_threshold)) [
        | inl cooled ↦ rw cooled (
            let inv3 = set_hot-InvOff p false (ground arith) inv2 in
            let f3 = inv3.framed p (ground arith) in
            bind
              (enqueue_held nvm_cold_list p (omega arith) (omega arith) inv3 (ground arith) (
                Fits-put e nvm_cold_list ((set_hot p false s2).page p) (omega arith)
                  (ground (arith, page p, f.tier nvm_hot_list was))
                  (λ h. ground (arith, page p, f.tier nvm_hot_list was))
                  (λ h. absurd (ground arith)) f3.0 f3.1))
              λ s3 (same3, into, inv4).
                let old : ltb (total (s.page p).accesses) hot_read_threshold ≡ true =
                  rw (page p) at cooled in
                returns (
                  InvOff-Inv inv4 (λ q. ground arith),
                  p,
                  was,
                  rw old (
                    refl,
                    ground (arith, into.moved.place p),
                    ground (arith, page-Relinked (set_hot p false s2) s3 p same3),
                  ),
                  Onward-Passed s p s2 s3 left
                      (Onward-trans s2 (set_hot p false s2) s3 (set_hot-Onward p false s2) (
                        put-Onward p nvm_cold_list (set_hot p false s2) s3
                          (inv2.loose p (ground arith)) refl refl same3 into))
                      (ground (arith, into.count dram_free_list, into.count nvm_free_list))
                      (λ q ne h. ground (arith, into.moved.place q)),
                  ground (arith, into.count nvm_hot_list, left.count nvm_hot_list),
                ))
        | inr warm ↦ rw warm (
            mono
              (try_move_lem serves p s2 inv2
                (record {
                  slow = rw (page p) (f.tier nvm_hot_list was);
                  mapped = rw (page p) (m.hot_mapped p was);
                  aligned = rw (page p) (m.hot_aligned p was);
                  idle = rw (page p) f.idle;
                  hot = λ h. ground (arith, page p, f.live, was);
                })
                (Movable-less p s s2 m page place) room)
              (Tried-Migrated p s2 was (rw (page p) at warm) left))
      ]

  -- One round of the migration loop while a page is free in DRAM or in NVM, the pages that may move
  -- have addresses, no cold DRAM page is enforced and the kernel serves its calls: no assertion
  -- fails, and the invariant holds again, so that no page is lost. The round stops only when the hot
  -- list of NVM is empty, and changes nothing then. A page of that list whose counts are below the
  -- threshold goes to the cold list of NVM and counts no bytes; any other one either ends in DRAM on
  -- the hot list and counts as one huge page, or is back on the hot list of NVM and the loop is left.
  -- All pages keep their addresses and clocks, as many pages are free as before, no page came to the
  -- hot list of NVM or the cold list of DRAM, and the cooling walks stand on the hot lists if they
  -- did.
  pub migrate_one_lem : Returns (Migrated e n s) (migrate_one e s)
  unfolding migrate_one
  migrate_one_lem = bind (dequeue_held nvm_hot_list (omega arith) (Inv-InvOff inv)) go
    where
      go :
          (r : Ptr × State e.table.Table)
          → Took e n 0 nobody s nvm_hot_list r
          → Returns (Migrated e n s) (migrate_hot e r.0 r.1)
      go (none, s1) (same, empty) = returns (same, empty)
      go (some p, s1) (same, out1, inv1) =
          let s2 = leave_nvm e p s1 in
          let same2 = leave-same e p s1 in
          let page : (q : ℕ) → s2.page q ≡ s.page q =
            λ q. ap (λ f. f q) same2.1 ∙ page-Relinked s s1 q same in
          let place : (q : ℕ) → list_of s2 q ≡ (if q == p then none else list_of s q) =
            λ q. ap (λ t. (t.link q).list) same2.0 ∙ out1.moved.place q in
          let room : 0 < entries s2.store dram_free_list + entries s2.store nvm_free_list =
            rw same2.0
              (ground (arith, out1.count dram_free_list, out1.count nvm_free_list, stock)) in
          let left : Left s p s2 = record {
            was = out1.was;
            page = page;
            place = place;
            count = λ k. rw same2.0 (out1.count k);
            pebs =
                leave-pebs e p s1
                ∙ ap (λ (b : Pebs). record b { cur_cool_in_nvm = s2.pebs.cur_cool_in_nvm })
                    (ap (λ (t : State e.table.Table). t.pebs) same);
            cursors = λ c. leave-Cursors e p s s1 inv1.well c same out1;
          } in
          round p s2 left (InvOff-same same2 inv1) room
