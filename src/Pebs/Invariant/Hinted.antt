-- ===== src/Pebs/Invariant/Hinted.antt =====
-- A hinted allocation with priority 1.
use hemem.Prelude.{
  ℕ, ◌<◌, ◌≡◌, ◌≢◌, ap, true, false, not, none, some, ◌==◌, ==_refl, ◌==ℤ◌, pos, negsuc, arith, Ptr,
  Returns, returns, bind, check,
}
use hemem.Fifo.Moves.{entries}
use hemem.Memory.Kernel.{Env}
use hemem.Memory.State.{State, set_page}
use hemem.Pebs.Lists.{list_of, dram_hot_list, dram_free_list}
use hemem.Pebs.Heat.{make_hot}
use hemem.Pebs.Alloc.{hinted_page, user_hinted_dram_pebs_allocate_page}
use hemem.Pebs.Invariant.{Inv}
use hemem.Pebs.Invariant.Steps.{page-Relinked, enqueue_lem, entries-le-listed}
use hemem.Pebs.Invariant.Off.{Took, Inv-InvOff, dequeue_held, nobody}

-- Page `p` is on the hot list of DRAM without being hot, and once it has an address, a request to
-- make it hot fails.
abbrev pub Misplaced : {Table : Type 0} → ℕ × State Table → Type 0
Misplaced (p, s) =
    (list_of s p ≡ some dram_hot_list)
    × ((s.page p).hot ≡ false)
    × ((va : ℕ) → va ≢ 0 → make_hot p (set_page s p (record (s.page p) { va = va })) ≡ none)

make_hot_misplaced :
    {Table : Type 0} (p va : ℕ) (s : State Table)
    → va ≢ 0
    → list_of s p ≡ some dram_hot_list
    → (s.page p).hot ≡ false
    → (s.page p).in_dram ≡ true
    → make_hot p (set_page s p (record (s.page p) { va = va })) ≡ none
unfolding make_hot
make_hot_misplaced p va s nz at_l cold fast =
    let z : (va == 0) ≡ false = ground arith in simp (==_refl, z, at_l, cold, fast)

module _ {e : Env} {n : ℕ} {s : State e.table.Table} (inv : Inv e n s)
    (some_free : 0 < entries s.store dram_free_list)
    (urgent : (s.hint.priority ==ℤ pos 1) ≡ true) where
  -- A hinted allocation with priority 1 while DRAM has a free page succeeds, but puts the page on
  -- the hot list of DRAM without marking it as hot: after the fault has given it an address, the
  -- first request to make it hot fails an assertion.
  pub hinted_page-Misplaced : Returns Misplaced (user_hinted_dram_pebs_allocate_page e s)
  unfolding user_hinted_dram_pebs_allocate_page make_hot
  hinted_page-Misplaced = bind (dequeue_held dram_free_list (omega arith) (Inv-InvOff inv)) go
    where
      go :
          (r : Ptr × State e.table.Table)
          → Took e n 0 nobody s dram_free_list r
          → Returns Misplaced (hinted_page e r.0 r.1)
      go (none, s1) (same, empty) = absurd (omega arith)
      go (some p, s1) (same, out, inv1) =
          let f = inv.fits p in
          let pg = page-Relinked s s1 p same in
          let hint : s1.hint ≡ s.hint = ap (λ t. t.hint) same in
          let lucky : (s1.hint.priority ==ℤ pos 1) ≡ true = rw hint urgent in
          check (s1.page p).in_dram (ground (arith, pg, f.tier dram_free_list out.was)) (
            check (not (s1.page p).present) (ground (arith, pg, f.live, out.was)) (
              rw lucky (
                bind
                  (enqueue_lem dram_hot_list p _ inv1.well (inv1.loose p (ground arith)) (
                    omega (
                      arith,
                      inv1.count,
                      inv1.small,
                      entries-le-listed dram_hot_list s1.store (omega arith),
                    )))
                  λ s2 (same2, into).
                    let cold : (s2.page p).hot ≡ false =
                      ground (arith, page-Relinked _ s2 p same2, pg, f.live, f.idle, out.was) in
                    let fast : (s2.page p).in_dram ≡ true =
                      ground
                        (arith, page-Relinked _ s2 p same2, pg, f.tier dram_free_list out.was) in
                    let at_l : list_of s2 p ≡ some dram_hot_list =
                      ground (arith, into.moved.place p) in
                    returns (
                      at_l,
                      cold,
                      λ va nz.
                          make_hot_misplaced p va
                            (record s2 {
                              hint = record (s2.hint) { tier = negsuc 0; priority = negsuc 0 };
                            })
                            nz at_l cold fast,
                    ))))
