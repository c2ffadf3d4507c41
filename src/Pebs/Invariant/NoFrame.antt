-- ===== src/Pebs/Invariant/NoFrame.antt =====
-- A round of the migration loop when no page is free.
use hemem.Prelude.{
  ℕ, ◌+◌, ◌<◌, ◌≡◌, refl, ap, ◌∙◌, true, false, none, some, Ptr, ltb, ◌==◌, arith, update, fails,
  if◌then◌else◌, Option,
}
use hemem.Fifo.Moves.{entries}
use hemem.Memory.Page.{total}
use hemem.Memory.Kernel.{Env, Serves}
use hemem.Memory.State.{State}
use hemem.Pebs.Lists.{list_of, dram_cold_list, dram_free_list, nvm_hot_list, nvm_free_list}
use hemem.Pebs.Scan.{hot_read_threshold}
use hemem.Pebs.Policy.{
  Next, leave_nvm, use_frame, make_frame, demote, migrate_hot, migrate_one, try_move,
}
use hemem.Pebs.Invariant.{Inv}
use hemem.Pebs.Invariant.Steps.{page-Relinked}
use hemem.Pebs.Invariant.Off.{InvOff, Inv-InvOff, Took, dequeue_held, nobody}
use hemem.Pebs.Invariant.Raising.{Movable, Movable-less, only}
use hemem.Pebs.Invariant.Trying.{cold_page_held}
use hemem.Pebs.Invariant.Leaving.{leave-same, InvOff-same}

module _ {e : Env} (serves : Serves e.os) {n : ℕ} (p : ℕ) (s : State e.table.Table)
    (inv : InvOff e n 1 (only p) s) (m : Movable s)
    (full : entries s.store dram_free_list + entries s.store nvm_free_list ≡ 0)
    (some_cold : 0 < entries s.store dram_cold_list) where
  -- The cold page that is to go down finds no frame in NVM.
  stuck_cold :
      (retry : State e.table.Table → Option (Next e.table.Table)) (r : Ptr × State e.table.Table)
      → Took e n 1 (only p) s dram_cold_list r
      → make_frame e retry p r.0 r.1 ≡ none
  stuck_cold retry (none, s1) (same, empty) = absurd (omega arith)
  stuck_cold retry (some cp, s1) (same, out1, inv1) =
      let none_left : entries s1.store nvm_free_list ≡ 0 =
        ground (arith, out1.count nvm_free_list, full) in
      fails (dequeue_held nvm_free_list (omega arith) inv1) go
    where
      go :
          (r : Ptr × State e.table.Table)
          → Took e n 2 (update (only p) cp true) s1 nvm_free_list r
          → demote e retry cp r.0 r.1 ≡ none
      go (none, s2) took = refl
      go (some np, s2) (same2, out2, inv2) =
          absurd (ground (arith, out2.count nvm_free_list, out1.count nvm_free_list, full))

  stuck_try : try_move e 2 p s ≡ none
  unfolding try_move
  stuck_try = fails (dequeue_held dram_free_list (omega arith) inv) go
    where
      go :
          (r : Ptr × State e.table.Table)
          → Took e n 1 (only p) s dram_free_list r
          → use_frame e (try_move e 1 p) p r.0 r.1 ≡ none
      go (none, s1) (same, empty) =
          rw same (fails (cold_page_held serves p s inv m) (stuck_cold (try_move e 1 p)))
      go (some np, s1) (same, out1, inv1) = absurd (ground (arith, out1.count dram_free_list, full))

-- A round of the migration loop fails when no page is free in either tier, a page is on the hot
-- list of NVM, all pages there are still hot by their counts, and a page is on the cold list of
-- DRAM: the assertion that a free NVM page is found does not hold.
pub migrate_one_no_frame :
    {e : Env} {n : ℕ} {s : State e.table.Table}
    → Serves e.os
    → Inv e n s
    → Movable s
    → entries s.store dram_free_list + entries s.store nvm_free_list ≡ 0
    → 0 < entries s.store dram_cold_list
    → 0 < entries s.store nvm_hot_list
    → ((q : ℕ)
        → list_of s q ≡ some nvm_hot_list
        → ltb (total (s.page q).accesses) hot_read_threshold ≡ false)
    → migrate_one e s ≡ none
unfolding migrate_one
migrate_one_no_frame {e} {n} {s} serves inv m full some_cold some_hot warm =
    fails (dequeue_held nvm_hot_list (omega arith) (Inv-InvOff inv)) go
  where
    go :
        (r : Ptr × State e.table.Table)
        → Took e n 0 nobody s nvm_hot_list r
        → migrate_hot e r.0 r.1 ≡ none
    go (none, s1) (same, empty) = absurd (omega arith)
    go (some p, s1) (same, out1, inv1) =
        let s2 = leave_nvm e p s1 in
        let same2 = leave-same e p s1 in
        let page : (q : ℕ) → s2.page q ≡ s.page q =
          λ q. ap (λ f. f q) same2.1 ∙ page-Relinked s s1 q same in
        let place : (q : ℕ) → list_of s2 q ≡ (if q == p then none else list_of s q) =
          λ q. ap (λ t. (t.link q).list) same2.0 ∙ out1.moved.place q in
        let hot : ltb (total (s2.page p).accesses) hot_read_threshold ≡ false =
          rw (page p) (warm p out1.was) in
        rw hot (
          stuck_try serves p s2 (InvOff-same same2 inv1) (Movable-less p s s2 m page place)
            (rw same2.0 (ground (arith, out1.count dram_free_list, out1.count nvm_free_list, full)))
            (rw same2.0 (ground (arith, out1.count dram_cold_list, some_cold))))
