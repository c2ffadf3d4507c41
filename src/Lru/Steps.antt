-- ===== src/Lru/Steps.antt =====
-- The three scans of src/policies/lru.c on the lists of one tier, by what the next scan needs to
-- know: the places of the pages, the numbers of entries, and how many addresses are noted.
use hemem.Prelude.{
  ℕ, ◌+◌, ◌%◌, ◌<◌, ◌≤◌, ◌^◌, ◌≡◌, Bool, true, false, is_null, arith, length, ◌==◌, ◌||◌, Returns,
  mono,
}
use hemem.Fifo.Rep.{elem-list}
use hemem.Fifo.Moves.{IsWell, entries}
use hemem.Memory.Page.{Page, hugepage_size}
use hemem.Memory.Kernel.{Env}
use hemem.Memory.State.{State}
use hemem.Pebs.Lists.{list_of}
use hemem.Lru.Scan.{max_vas, shrink_caches, expand_caches, check_writes}
use hemem.Lru.Route.{Route, Shows, shrink_route, expand_route, check_route}
use hemem.Lru.Sorted.{Scannable, Sorts, shrink_caches_lem, expand_caches_lem, check_writes_lem}
use hemem.Lru.Shift.{
  Shifted, Sorts-Shifted, total_kept, other_kept, vas_one, vas_two, vas_all, AllAligned,
  vas-AllAligned,
}

abbrev pub among : ℕ → ℕ → ℕ → ℕ → Bool
among k a i w = (k == a) || ((k == i) || (k == w))

module _ {Table : Type 0} where
  -- Every listed page has an address of a huge page.
  abbrev pub Aligned : State Table → Type 0
  Aligned s = (q : ℕ) → is_null (list_of s q) ≡ false → ((s.page q).va % hugepage_size == 0) ≡ true

  -- What a scan of list `from` of the tier with the lists `a`, `i` and `w` leaves.
  pub record Scanned (route : Page → Route) (a i w from : ℕ) (s s' : State Table) : Type 0 where
    pub shifted : Shifted route from s s'
    pub aligned : Aligned s'
    pub noted : AllAligned s.lru.vas → AllAligned s'.lru.vas
    pub total :
        entries s'.store a + entries s'.store i + entries s'.store w
        ≡ entries s.store a + entries s.store i + entries s.store w
    pub other : (k : ℕ) → among k a i w ≡ false → entries s'.store k ≡ entries s.store k

  -- The tier's lists are three, and no list is so long that a count could wrap.
  pub record Tier (a i w : ℕ) (s : State Table) : Type 0 where
    pub ai : (a == i) ≡ false
    pub aw : (a == w) ≡ false
    pub iw : (i == w) ≡ false
    pub well : IsWell s.store
    pub lined : Aligned s
    pub small :
        (k : ℕ)
        → entries s.store a + entries s.store i + entries s.store w + entries s.store k < 2 ^ 64

module _ (e : Env) (bits : ℕ → ℕ) (shows : Shows e.os bits) (a i w : ℕ) (s : State e.table.Table)
    (t : Tier a i w s) where
  scannable :
      (from : ℕ)
      → among from a i w ≡ true
      → length s.lru.vas + entries s.store from ≤ max_vas
      → Scannable from t.well.seqs s
  scannable from own room =
      let r = t.well.rep in
      record {
        rep = r;
        aligned = λ q m. t.lined q (ground (arith, elem-list r q from m));
        room = omega (arith, (r.shape from).count);
        small = λ k. ground (arith, (r.shape from).count, (r.shape k).count, t.small k);
      }

  -- A route keeps to the three lists, and keeps the address.
  scanned :
      (route : Page → Route) (from : ℕ) (s' : State e.table.Table)
      → ((x : Page) → among (route x).list a i w ≡ true)
      → ((x : Page) → (route x).page.va ≡ x.va)
      → among from a i w ≡ true
      → Sorts route from t.well.seqs s s'
      → Scanned route a i w from s s'
  scanned route from s' into keeps own h =
      let L = t.well.seqs in
      let r = t.well.rep in
      let sh = Sorts-Shifted route from L s s' r h in
      record {
        shifted = sh;
        aligned = λ q on. ground (arith, sh.page q, sh.place q, keeps (s.page q), t.lined q);
        noted =
            vas-AllAligned route from L s s' r h
              (λ q m. t.lined q (ground (arith, elem-list r q from m)));
        total = total_kept route from L s s' r h a i w t.ai t.aw t.iw into own;
        other = λ k out. other_kept route from L s s' r h a i w t.ai t.aw t.iw into k own out;
      }

  pub check_step :
      length s.lru.vas + entries s.store w ≤ max_vas
      → Returns
          (λ s'.
            Scanned (check_route bits a i w) a i w w s s'
            × (length s'.lru.vas ≤ length s.lru.vas + entries s'.store w))
          (check_writes e a i w s)
  check_step room =
      let L = t.well.seqs in
      let route = check_route bits a i w in
      mono (check_writes_lem e bits shows a i w L s (scannable w (ground arith) room)) λ s' h. (
        scanned route w s' (λ x. ground arith) (λ x. ground arith) (ground arith) h,
        vas_one route w L s s' t.well.rep h w (λ x n. ground arith),
      )

  pub shrink_step :
      length s.lru.vas + entries s.store a ≤ max_vas
      → Returns
          (λ s'.
            Scanned (shrink_route bits a i w) a i w a s s'
            × (length s'.lru.vas + entries s.store w
                ≤ length s.lru.vas + entries s'.store a + entries s'.store w))
          (shrink_caches e a i w s)
  shrink_step room =
      let L = t.well.seqs in
      let route = shrink_route bits a i w in
      mono (shrink_caches_lem e bits shows a i w L s (scannable a (ground arith) room)) λ s' h. (
        scanned route a s' (λ x. ground arith) (λ x. ground arith) (ground arith) h,
        vas_two route a L s s' t.well.rep h a w t.aw (λ x n. ground arith) (ground arith)
            (ground (arith, t.aw)),
      )

  pub expand_step :
      length s.lru.vas + entries s.store i ≤ max_vas
      → Returns
          (λ s'.
            Scanned (expand_route bits a i w) a i w i s s'
            × (length s'.lru.vas ≤ length s.lru.vas + entries s.store i))
          (expand_caches e a i w s)
  expand_step room =
      let L = t.well.seqs in
      let route = expand_route bits a i w in
      mono (expand_caches_lem e bits shows a i w L s (scannable i (ground arith) room)) λ s' h. (
        scanned route i s' (λ x. ground arith) (λ x. ground arith) (ground arith) h,
        vas_all route i L s s' t.well.rep h,
      )
