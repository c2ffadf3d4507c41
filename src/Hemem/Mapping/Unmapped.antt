-- ===== src/Hemem/Mapping/Unmapped.antt =====
-- What giving back one page of a mapping does, on top of any policy that keeps its laws.
use hemem.Prelude.{
  ℕ, suc, ◌+◌, ◌%◌, ◌<◌, ◌^◌, ◌≡◌, ◌≢◌, refl, ap, ◌∙◌, true, false, none, some, Ptr, arith, ◌==◌,
  if◌then◌else◌, Returns, returns, bind,
}
use hemem.Memory.Page.{hugepage_size, pt_to_pagesize}
use hemem.Memory.Kernel.{Env}
use hemem.Memory.State.{State}
use hemem.Hemem.Pages.{remove_page}
use hemem.Hemem.Policy.{Policy, Laws, Returned}
use hemem.Hemem.Tracked.{Tracked}
use hemem.Hemem.Mapping.{unmap_page}

-- Page `p` at `boundary` is no longer tracked nor in use; nothing else is lost.
pub record Unmapped (e : Env) (boundary p : ℕ) (s s' : State e.table.Table) : Type 0 where
  pub find :
      (va : ℕ)
      → va ≢ 0
      → e.table.find s'.pages va ≡ (if va == boundary then none else e.table.find s.pages va)
  pub page : (q : ℕ) → (q == p) ≡ false → s'.page q ≡ s.page q
  pub gone : (s'.page p).present ≡ false

module _ (e : Env) {policy : Policy e} (laws : Laws e policy) where
  abbrev S : Type 0
  S = State e.table.Table

  pub untracked :
      (va : ℕ) (s : S)
      → Tracked e s
      → va ≢ 0
      → va % hugepage_size ≢ 0
      → e.table.find s.pages va ≡ none
  untracked va s t nz out = go (e.table.find s.pages va) refl
    where
      go : (o : Ptr) → e.table.find s.pages va ≡ o → o ≡ none
      go none h = refl
      go (some q) h = absurd (ground (arith, t.held va q nz h, t.aligned q))

  -- Without page `p`, which is at `boundary`, the table finds what it found elsewhere.
  find-removed :
      (boundary p va : ℕ) (s : S)
      → Tracked e s
      → va ≢ 0
      → (s.page p).va ≡ boundary
      → e.table.find s.pages boundary ≡ some p
      → e.table.find (e.table.del s.pages p) va
        ≡ (if va == boundary then none else e.table.find s.pages va)
  find-removed boundary p va s t nz at_b found = go (e.table.find s.pages va) refl
    where
      go :
          (o : Ptr)
          → e.table.find s.pages va ≡ o
          → e.table.find (e.table.del s.pages p) va
            ≡ (if va == boundary then none else e.table.find s.pages va)
      go none h = ground (arith, e.table.find-del s.pages p va, h, found)
      go (some q) h = ground (arith, e.table.find-del s.pages p va, h, found, t.held va q nz h)

  Unmapped-Tracked :
      (boundary p : ℕ) (s s' : S)
      → Tracked e s
      → (s.page p).va ≡ boundary
      → (s.page p).present ≡ true
      → Unmapped e boundary p s s'
      → Tracked e s'
  Unmapped-Tracked boundary p s s' t at_b live m = record {
    held = λ va q nz h.
        let old : e.table.find s.pages va ≡ some q = ground (arith, m.find va nz) in
        ground (arith, m.find va nz, m.page q, m.gone, t.held va q nz old, live, at_b);
    known = λ q h. ground (
      arith,
      m.page q,
      m.gone,
      t.known q,
      t.mapped q,
      m.find (s.page q).va,
      t.known p live,
      at_b,
    );
    mapped = λ q h. ground (arith, m.page q, m.gone, t.mapped q);
    aligned = λ q h. ground (arith, m.page q, m.gone, t.aligned q);
  }

  pub unmap_page_lem :
      (f r boundary p : ℕ) (s : S)
      → laws.Good f (suc r) s
      → Tracked e s
      → boundary ≢ 0
      → boundary + hugepage_size < 2 ^ 64
      → e.table.find s.pages boundary ≡ some p
      → Returns
          (λ (b, s').
            (b ≡ boundary + hugepage_size)
            × (laws.Good f r s' × Tracked e s' × Unmapped e boundary p s s'))
          (unmap_page e policy (some p) boundary s)
  unfolding unmap_page remove_page pt_to_pagesize
  unmap_page_lem f r boundary p s good t nz room found =
      let live = t.held boundary p nz found in
      let h = laws.huge f (suc r) p s good live.0 in
      let off : (s1 : S) → Returned p (remove_page e p s) s1 → Unmapped e boundary p s s1 = λ s1 g.
        record {
          find = λ va nz'.
              ap (λ x. e.table.find x va) g.pages ∙ find-removed boundary p va s t nz' live.1 found;
          page = λ q other. g.page q other;
          gone = g.gone;
        } in
      bind
        (laws.remove_page_lem f r p (remove_page e p s)
          (laws.settle f (suc r) s (remove_page e p s) good (record {
            store = refl;
            pebs = refl;
            hint = refl;
            lru = refl;
            simple = refl;
            page = λ q. refl;
          }))
          live.0)
        λ s1 (good1, g).
          simp (g.type, h)
            (returns (
              omega arith,
              (
                laws.settle f r s1 _ good1 (record {
                  store = refl;
                  pebs = refl;
                  hint = refl;
                  lru = refl;
                  simple = refl;
                  page = λ q. refl;
                }),
                Unmapped-Tracked boundary p s _ t live.1 live.0
                    (record { find = (off s1 g).find; page = g.page; gone = g.gone }),
                record { find = (off s1 g).find; page = g.page; gone = g.gone },
              ),
            ))
