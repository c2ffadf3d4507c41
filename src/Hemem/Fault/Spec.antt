-- ===== src/Hemem/Fault/Spec.antt =====
-- What a page fault does, on top of any policy that keeps its laws.
use hemem.Prelude.{
  ℕ, suc, ◌%◌, ◌≡◌, ◌≢◌, refl, ap, ◌∙◌, Bool, true, false, none, some, ◌∷◌, arith, ◌==◌,
  if◌then◌else◌, Returns, ==_refl, returns, bind, add64,
}
use hemem.Memory.Page.{hugepage_size, hugep, pt_to_pagesize}
use hemem.Memory.Kernel.{Env, Serves, mmap_fixed, uffd_register}
use hemem.Memory.State.{State, Stats, set_internal, set_page}
use hemem.Hemem.Pages.{add_page}
use hemem.Hemem.Policy.{Policy, Laws, Given}
use hemem.Hemem.Tracked.{Tracked}
use hemem.Hemem.Fault.{new_address, map_frame, handle_missing_fault}

-- Page `p`, which was not in use, is mapped at `boundary` and tracked there; no other page and no
-- other address changed. The kernel was asked to map the page's frame, then to register it.
pub record Mapped (e : Env) (boundary p : ℕ) (s s' : State e.table.Table) : Type 0 where
  pub fresh : (s.page p).present ≡ false
  pub find :
      (va : ℕ)
      → e.table.find s'.pages va ≡ (if va == boundary then some p else e.table.find s.pages va)
  pub page :
      (q : ℕ)
      → s'.page q ≡ (
          if q == p
          then new_address e boundary (record (s.page p) { present = true })
          else s.page q)
  pub calls :
      s'.calls
      ≡ uffd_register boundary hugepage_size
        ∷ mmap_fixed boundary hugepage_size
            (if (s.page p).in_dram then e.dramfd else e.nvmfd)
            (s.page p).devdax_offset
        ∷ s.calls
  pub allocated : s'.stats.mem_allocated ≡ add64 s.stats.mem_allocated hugepage_size
  pub counted : s'.stats.pages_allocated ≡ add64 s.stats.pages_allocated 1

module _ (e : Env) (serves : Serves e.os) {policy : Policy e} (laws : Laws e policy) where
  abbrev S : Type 0
  S = State e.table.Table

  pub Mapped-Tracked :
      (boundary p : ℕ) (s s' : S)
      → Tracked e s
      → Mapped e boundary p s s'
      → boundary ≢ 0
      → boundary % hugepage_size ≡ 0
      → e.table.find s.pages boundary ≡ none
      → Tracked e s'
  Mapped-Tracked boundary p s s' t m nonnull aligned new = record {
    held = λ va q nz h. ground (arith, m.find va, m.page q, m.fresh, t.held va q nz);
    known =
        λ q h. ground (arith, m.page q, m.find (s'.page q).va, t.known q, t.held (s.page q).va q);
    mapped = λ q h. ground (arith, m.page q, t.mapped q);
    aligned = λ q h. ground (arith, m.page q, t.aligned q);
  }

  abbrev pub after_map : ℕ → ℕ → S → S
  after_map boundary p s = record (set_page s p (new_address e boundary (s.page p))) {
    stats = record (s.stats) { memsets = add64 s.stats.memsets 1 };
    calls =
        uffd_register boundary hugepage_size
        ∷ mmap_fixed boundary hugepage_size (if (s.page p).in_dram then e.dramfd else e.nvmfd)
            (s.page p).devdax_offset
        ∷ s.calls;
  }

  pub map_frame_lem :
      (insist : Bool) (boundary p : ℕ) (s : S)
      → (boundary == 0) ≡ false
      → (boundary % hugepage_size == 0) ≡ true
      → (s.page p).pt ≡ hugep
      → map_frame e insist boundary p s ≡ some (after_map boundary p s)
  unfolding map_frame pt_to_pagesize
  map_frame_lem true boundary p s nonnull aligned huge =
      simp (nonnull, aligned, huge, serves, ==_refl)
  map_frame_lem false boundary p s nonnull aligned huge =
      simp (nonnull, aligned, huge, serves, ==_refl)

  pub add_page_lem :
      (p : ℕ) (s : S)
      → e.table.find s.pages (s.page p).va ≡ none
      → add_page e p s ≡ some (record s { pages = e.table.add s.pages (s.page p).va p })
  unfolding add_page
  add_page_lem p s new = simp (new)

  -- The state after the page that the policy gave is mapped and tracked.
  pub record Finished (boundary p : ℕ) (s s' : S) : Type 0 where
    pub store : s'.store ≡ s.store
    pub pebs : s'.pebs ≡ s.pebs
    pub hint : s'.hint ≡ s.hint
    pub lru : s'.lru ≡ s.lru
    pub simple : s'.simple ≡ s.simple
    pub page :
        (q : ℕ) → s'.page q ≡ (if q == p then new_address e boundary (s.page p) else s.page q)
    pub pages : s'.pages ≡ e.table.add s.pages boundary p
    pub calls : s'.calls ≡ (after_map boundary p s).calls
    pub allocated : s'.stats.mem_allocated ≡ add64 s.stats.mem_allocated hugepage_size
    pub counted : s'.stats.pages_allocated ≡ add64 s.stats.pages_allocated 1

  -- Both invariants hold again, and a page is mapped at the boundary.
  abbrev pub Filled : ℕ → ℕ → ℕ → S → S → Type 0
  Filled f r boundary s s' = laws.Good f r s' × Tracked e s' × (p : ℕ) × Mapped e boundary p s s'

  pub finish_lem :
      (f r boundary p : ℕ) (b : Bool) (s s1 s' : S)
      → laws.Good f r s1
      → Given p (set_internal s b) s1
      → Finished boundary p s1 s'
      → Tracked e s
      → boundary ≢ 0
      → boundary % hugepage_size ≡ 0
      → e.table.find s.pages boundary ≡ none
      → Filled f r boundary s s'
  finish_lem f r boundary p b s s1 s' good g d t nonnull aligned new =
      let isn : e.table.find s1.pages boundary ≡ none = rw g.pages new in
      let m : Mapped e boundary p s s' = record {
        fresh = g.fresh;
        find = λ va.
            ground (arith, d.pages, g.pages, isn, e.table.find-add s1.pages boundary p va isn);
        page = λ q. ground (arith, d.page q, g.page q, g.page p);
        calls = ground (arith, d.calls, g.calls, g.page p);
        allocated = d.allocated ∙ ap (λ (x : Stats). add64 x.mem_allocated hugepage_size) g.stats;
        counted = d.counted ∙ ap (λ (x : Stats). add64 x.pages_allocated 1) g.stats;
      } in
      (
        laws.settle f r s1 s' good (record {
          store = d.store;
          pebs = d.pebs;
          hint = d.hint;
          lru = d.lru;
          simple = d.simple;
          page = λ q. ground (arith, d.page q);
        }),
        Mapped-Tracked boundary p s s' t m nonnull aligned new,
        p,
        m,
      )

  -- A page fault at the boundary of a page that is not tracked, while the policy has a page to
  -- give and the kernel serves its calls: no assertion fails; a page that was not in use is mapped
  -- at the boundary and found there from then on; no other page and no other entry of the table
  -- changes; the kernel is asked to map the page's frame on the device of its tier, and after that
  -- to register it; the counts grow by the page; both invariants hold again.
  pub handle_missing_fault_lem :
      (f r boundary : ℕ) (s : S)
      → laws.Good (suc f) r s
      → Tracked e s
      → boundary ≢ 0
      → boundary % hugepage_size ≡ 0
      → e.table.find s.pages boundary ≡ none
      → Returns
          (λ s'. laws.Good f r s' × Tracked e s' × (p : ℕ) × Mapped e boundary p s s')
          (handle_missing_fault e policy boundary s)
  unfolding handle_missing_fault pt_to_pagesize
  handle_missing_fault_lem f r boundary s good t nonnull aligned new =
      let z : (boundary == 0) ≡ false = ground arith in
      let al : (boundary % hugepage_size == 0) ≡ true = ground arith in
      simp (z) (
        bind
          (laws.pagefault_lem f r (set_internal s true) (
            laws.settle (suc f) r s (set_internal s true) good (record {
              store = refl;
              pebs = refl;
              hint = refl;
              lru = refl;
              simple = refl;
              page = λ q. refl;
            })))
          λ (p, s1) (good1, g).
            let h = laws.huge f r p s1 good1 (ground (arith, g.page p)) in
            let isn : e.table.find s1.pages boundary ≡ none = rw g.pages new in
            simp (map_frame_lem true boundary p s1 z al h, h, add_page_lem, isn, ==_refl)
              (returns (
                finish_lem f r boundary p true s s1 _ good1 g
                  (record {
                    store = refl;
                    pebs = refl;
                    hint = refl;
                    lru = refl;
                    simple = refl;
                    page = λ q. ground (arith, h);
                    pages = refl;
                    calls = refl;
                    allocated = refl;
                    counted = refl;
                  })
                  t nonnull aligned new)))
