-- ===== src/Lru/Sorted.antt =====
-- What each of the three scans of src/policies/lru.c does to the lists of a tier.
use hemem.Prelude.{
  ℕ, ◌+◌, ◌%◌, ◌<◌, ◌≤◌, ◌^◌, ◌≡◌, refl, sym, fun_ext, subst, true, List, [], arith, length, elem,
  ◌==◌, Returns,
}
use mathlib.Core.List.{append-nil}
use hemem.Fifo.Rep.{Rep}
use hemem.Memory.Page.{Page, hugepage_size}
use hemem.Memory.Kernel.{Env}
use hemem.Memory.State.{State}
use hemem.Lru.Scan.{
  max_vas, shrink_page, expand_page, check_page, shrink_caches, expand_caches, check_writes,
}
use hemem.Lru.Route.{
  Route, Shows, shrink_route, expand_route, check_route, shrink_page_lem, expand_page_lem,
  check_page_lem,
}
use hemem.Lru.Partition.{Sorting, while_pages_lem, for_pages_lem}

module _ {Table : Type 0} where
  -- The lists stand for `L`, and a scan of list `from` can note all its pages.
  pub record Scannable (from : ℕ) (L : ℕ → List ℕ) (s : State Table) : Type 0 where
    pub rep : Rep s.store L
    pub aligned : (q : ℕ) → elem q (L from) ≡ true → ((s.page q).va % hugepage_size == 0) ≡ true
    pub room : length s.lru.vas + length (L from) ≤ max_vas
    pub small : (k : ℕ) → length (L from) + length (L k) < 2 ^ 64

  -- Every page of list `from` went to the list of its route, in front of what was there and in the
  -- order that the pages had, and is changed as its route says; the addresses to be cleared are
  -- noted; nothing else changed but the list of calls.
  abbrev pub Sorts : (Page → Route) → ℕ → (ℕ → List ℕ) → State Table → State Table → Type 0
  Sorts route from L s s' = Sorting route s.page from L s [] (L from) s'

  start :
      (route : Page → Route) (from : ℕ) (L : ℕ → List ℕ) (s : State Table)
      → Rep s.store L
      → Sorting route s.page from L s (L from) [] s
  start route from L s rep = record {
    rep = subst (Rep s.store) (fun_ext (λ k. ground arith)) rep;
    page = λ q. refl;
    vas = sym (append-nil s.lru.vas);
    rest = refl;
  }

module _ (e : Env) (bits : ℕ → ℕ) (shows : Shows e.os bits) (active inactive written : ℕ)
    (L : ℕ → List ℕ) (s : State e.table.Table) where
  -- `shrink_caches` while the bits in the page table stand still and `vas` has room: the loop ends,
  -- no assertion fails, and the sequence of the active list is split, in order, into the pages that
  -- were written (to the front of the written list), those that were only accessed (they are the
  -- active list now) and the others (to the front of the inactive list, their count of accesses
  -- reset); the addresses of the pages of the first two kinds are noted, and no other list and no
  -- other page changes.
  pub shrink_caches_lem :
      Scannable active L s
      → Returns
          (Sorts (shrink_route bits active inactive written) active L s)
          (shrink_caches e active inactive written s)
  unfolding shrink_caches
  shrink_caches_lem g =
      let route = shrink_route bits active inactive written in
      while_pages_lem e route s.page (shrink_page e active inactive written)
        (shrink_page_lem e bits shows active inactive written) active L s g.aligned g.room g.small
        (g.rep.shape active).distinct _ (L active) [] s (sym (g.rep.shape active).count)
        (sym (append-nil (L active))) (start route active L s g.rep)

  -- `expand_caches` in the same way: of the inactive list, the pages that were written go to the
  -- written list, those that were only accessed go to the active list if four scans in a row have
  -- seen them accessed before and stay with one more access counted if not, and the others stay with
  -- the count reset.
  pub expand_caches_lem :
      Scannable inactive L s
      → Returns
          (Sorts (expand_route bits active inactive written) inactive L s)
          (expand_caches e active inactive written s)
  unfolding expand_caches
  expand_caches_lem g =
      let route = expand_route bits active inactive written in
      for_pages_lem e route s.page (expand_page e active inactive written)
        (expand_page_lem e bits shows active inactive written) inactive L s g.aligned g.room g.small
        (g.rep.shape inactive).distinct _ (L inactive) [] s (sym (g.rep.shape inactive).count)
        (sym (append-nil (L inactive))) (start route inactive L s g.rep)

  -- `check_writes` in the same way: of the written list, the pages that were written again stay,
  -- those that were only accessed go to the active list, and the others to the inactive list.
  pub check_writes_lem :
      Scannable written L s
      → Returns
          (Sorts (check_route bits active inactive written) written L s)
          (check_writes e active inactive written s)
  unfolding check_writes
  check_writes_lem g =
      let route = check_route bits active inactive written in
      for_pages_lem e route s.page (check_page e active inactive written)
        (check_page_lem e bits shows active inactive written) written L s g.aligned g.room g.small
        (g.rep.shape written).distinct _ (L written) [] s (sym (g.rep.shape written).count)
        (sym (append-nil (L written))) (start route written L s g.rep)
