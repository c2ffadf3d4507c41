-- ===== src/Pebs/Invariant/Remove.antt =====
-- `pebs_remove_page` keeps the invariant, and puts the page in the ring of freed pages.
use hemem.Prelude.{
  ℕ, ◌≡◌, refl, Bool-cases, inl, inr, eq_of_==, false, some, ◌++◌, ◌∷◌, [], ◌==◌, arith,
}
use hemem.Ring
use hemem.Ring.Bounds.{IsValid, put-IsValid}
use hemem.Ring.Window.{contents}
use hemem.Ring.Refine.{contents-put}
use hemem.Memory.Page.{no_counts}
use hemem.Memory.Kernel.{Env}
use hemem.Memory.State.{State}
use hemem.Pebs.Alloc.{pebs_remove_page, remove_request, remove_clear}
use hemem.Pebs.Invariant.{Inv}

module _ {e : Env} {n : ℕ} {s : State e.table.Table} (p : ℕ) where
  pub remove-Inv : Inv e n s → Inv e n (pebs_remove_page p s)
  unfolding pebs_remove_page remove_request remove_clear
  remove-Inv inv = record {
    well = inv.well;
    count = inv.count;
    small = inv.small;
    fits = λ q. elim (Bool-cases (q == p)) [
      | inl is ↦
          let f = inv.fits p in
          rw (is, eq_of_== q p is)
            (record {
              known = f.known;
              tier = f.tier;
              live = λ h. ground arith;
              idle = λ h. ground arith;
              placed = f.placed;
              huge = f.huge;
            })
      | inr ne ↦ rw ne (inv.fits q)
    ];
    apart = λ q r a b d o. inv.apart q r a b (ground arith) (ground arith);
  }

  -- `pebs_remove_page` of a page while the ring of freed pages has room: the page's address is the
  -- last entry of the ring now and the others stay; the page is not in use and not hot, and its
  -- counts are zero; it stays on the list that it is on, and no other page changes; the invariant
  -- of the lists holds again, and the ring stays valid.
  pub pebs_remove_page_lem :
      Inv e n s
      → IsValid s.pebs.free_page_ring
      → Ring.full s.pebs.free_page_ring ≡ false
      → let s' = pebs_remove_page p s in
        Inv e n s'
        × IsValid s'.pebs.free_page_ring
        × (contents s'.pebs.free_page_ring ≡ contents s.pebs.free_page_ring ++ some p ∷ [])
        × (s'.page p ≡ record (s.page p) {
          present = false;
          hot = false;
          accesses = no_counts;
          tot_accesses = no_counts;
        })
        × ((q : ℕ) → (q == p) ≡ false → s'.page q ≡ s.page q)
        × (s'.store ≡ s.store)
  unfolding pebs_remove_page remove_request remove_clear
  pebs_remove_page_lem inv valid room = (
    remove-Inv inv,
    put-IsValid s.pebs.free_page_ring (some p) valid,
    ground (arith, contents-put s.pebs.free_page_ring (some p) valid),
    ground arith,
    λ q other. ground arith,
    refl,
  )
