-- ===== src/Hemem/Mapping/Populate.antt =====
-- What populating a mapping does, page by page, on top of any policy that keeps its laws.
use hemem.Prelude.{
  ℕ, suc, zero, ◌+◌, ◌*◌, ◌-◌, ◌%◌, ◌<◌, ◌≤◌, ◌^◌, ◌≡◌, ◌≢◌, refl, Bool-cases, inl, inr, true,
  false, none, some, subst, arith, ltb, ◌==◌, ==_refl, Returns, returns, bind, mono, add64,
}
use hemem.Memory.Page.{hugepage_size, pt_to_pagesize}
use hemem.Memory.Kernel.{Env, Serves}
use hemem.Memory.State.{State}
use hemem.Hemem.Policy.{Policy, Laws}
use hemem.Hemem.Tracked.{Tracked}
use hemem.Hemem.Fault.Spec.{Mapped, Filled, map_frame_lem, add_page_lem, finish_lem}
use hemem.Hemem.Mapping.{rounds, populate_page, populate_loop, hemem_mmap_populate}

-- From `first` up to `end` every page boundary is tracked now, by a page that was not in use; no
-- other address and no page in use changed.
pub record Populated (e : Env) (first end : ℕ) (s s' : State e.table.Table) : Type 0 where
  pub inside :
      (va : ℕ)
      → first ≤ va
      → va < end
      → va % hugepage_size ≡ 0
      → (p : ℕ) × (e.table.find s'.pages va ≡ some p) × ((s.page p).present ≡ false)
  pub outside :
      (va : ℕ)
      → (first ≤ va → va < end → va % hugepage_size ≢ 0)
      → e.table.find s'.pages va ≡ e.table.find s.pages va
  pub kept : (q : ℕ) → (s.page q).present ≡ true → s'.page q ≡ s.page q
  pub allocated : s'.stats.mem_allocated ≡ add64 s.stats.mem_allocated (end - first)

module _ (e : Env) (serves : Serves e.os) {policy : Policy e} (laws : Laws e policy) where
  abbrev S : Type 0
  S = State e.table.Table

  abbrev Fill : ℕ → ℕ → ℕ → S → S → Type 0
  Fill = Filled e serves laws

  abbrev Result : ℕ → ℕ → ℕ → ℕ → S → S → Type 0
  Result f r first end s s' = laws.Good f r s' × Tracked e s' × Populated e first end s s'

  pub populate_page_lem :
      (f r boundary : ℕ) (s : S)
      → laws.Good (suc f) r s
      → Tracked e s
      → boundary ≢ 0
      → boundary % hugepage_size ≡ 0
      → boundary + hugepage_size < 2 ^ 64
      → e.table.find s.pages boundary ≡ none
      → Returns
          (λ (b, s'). (b ≡ boundary + hugepage_size) × Fill f r boundary s s')
          (populate_page e policy boundary s)
  unfolding populate_page pt_to_pagesize
  populate_page_lem f r boundary s good t nonnull aligned room new =
      let z : (boundary == 0) ≡ false = ground arith in
      let al : (boundary % hugepage_size == 0) ≡ true = ground arith in
      bind (laws.pagefault_lem f r s good) λ (p, s1) (good1, g).
        let h = laws.huge f r p s1 good1 (ground (arith, g.page p)) in
        let isn : e.table.find s1.pages boundary ≡ none = rw g.pages new in
        simp
          (
            map_frame_lem e serves laws false boundary p s1 z al h,
            h,
            add_page_lem e serves laws,
            isn,
            ==_refl,
          )
          (returns (
            omega arith,
            finish_lem e serves laws f r boundary p s.internal_call s s1 _ good1 g
                (record {
                  store = refl;
                  pebs = refl;
                  hint = refl;
                  lru = refl;
                  simple = refl;
                  page = λ q. ground (arith, h);
                  pages = refl;
                  calls = refl;
                  allocated = refl;
                  counted = refl;
                })
                t nonnull aligned new,
          ))

  Populated-none :
      (first end : ℕ) (s : S)
      → end ≡ first
      → s.stats.mem_allocated < 2 ^ 64
      → Populated e first end s s
  Populated-none first end s is fine = record {
    inside = λ va lo hi al. absurd (omega arith);
    outside = λ va out. refl;
    kept = λ q h. refl;
    allocated = omega arith;
  }

  -- The first page and the rest.
  Populated-step :
      (first p end : ℕ) (s s1 s2 : S)
      → Tracked e s
      → Tracked e s1
      → Mapped e first p s s1
      → first % hugepage_size ≡ 0
      → first + hugepage_size ≤ end
      → end < 2 ^ 64
      → Populated e (first + hugepage_size) end s1 s2
      → Populated e first end s s2
  Populated-step first p end s s1 s2 t t1 m aligned more small rest = record {
    inside = λ va lo hi al. elim (Bool-cases (va == first)) [
      | inl is ↦ (p, ground (arith, rest.outside va, m.find va), m.fresh)
      | inr ne ↦
          let other : va ≢ first = ground arith in
          let (q, found, free) = rest.inside va (omega arith) hi al in
          (q, found, ground (arith, m.page q))
    ];
    outside =
        λ va out. ground (arith, rest.outside va (λ a b. out (omega arith) b), m.find va, out);
    kept = λ q h. ground (arith, m.page q, m.fresh, rest.kept q);
    allocated = omega (arith, rest.allocated, m.allocated);
  }

  populate_loop_lem :
      (k f r fuel first end : ℕ) (s : S)
      → laws.Good (k + f) r s
      → Tracked e s
      → first ≢ 0
      → first % hugepage_size ≡ 0
      → end ≡ first + k * hugepage_size
      → end < 2 ^ 64
      → k ≤ fuel
      → ((va : ℕ) → first ≤ va → va < end → e.table.find s.pages va ≡ none)
      → s.stats.mem_allocated < 2 ^ 64
      → Returns (Result f r first end s) (populate_loop e policy fuel end first s)
  unfolding populate_loop
  populate_loop_lem zero f r zero first end s good t nz al is small enough new fine =
      let stop : ltb first end ≡ false = ground arith in
      rw (stop, populate_loop)
        (returns (
          subst (λ x. laws.Good x r s) (omega arith) good,
          t,
          Populated-none first end s (omega arith) fine,
        ))
  populate_loop_lem zero f r (suc fuel) first end s good t nz al is small enough new fine =
      let stop : ltb first end ≡ false = ground arith in
      rw (stop, populate_loop)
        (returns (
          subst (λ x. laws.Good x r s) (omega arith) good,
          t,
          Populated-none first end s (omega arith) fine,
        ))
  populate_loop_lem (suc k) f r zero first end s good t nz al is small enough new fine =
      absurd (omega arith)
  populate_loop_lem (suc k) f r (suc fuel) first end s good t nz al is small enough new fine =
      let lt : ltb first end ≡ true = ground arith in
      rw (lt, populate_loop)
        (bind
          (populate_page_lem (k + f) r first s (subst (λ x. laws.Good x r s) (omega arith) good) t
            nz al (omega arith) (new first (omega arith) (omega arith)))
          λ (b, s1) (next, (good1, t1, p, m)). rw next (
            mono
              (populate_loop_lem k f r fuel (first + hugepage_size) end s1 good1 t1 (omega arith)
                (omega arith) (omega arith) small (omega arith)
                (λ va a b. ground (arith, m.find va, new va)) (omega (arith, m.allocated)))
              λ s2 (good2, t2, rest).
                (good2, t2, Populated-step first p end s s1 s2 t t1 m al (omega arith) small rest)))

  -- `hemem_mmap_populate` of a region of `k` whole pages that starts at a page boundary other than
  -- 0, ends below `2 ^ 64` and holds no tracked address, while the policy has `k` pages to give and
  -- the kernel serves its calls: the loop ends and no assertion fails; afterwards every page
  -- boundary of the region is tracked, by a page that was not in use before; no other address and
  -- no page in use changed; the bytes allocated grow by the length; both invariants hold again.
  pub hemem_mmap_populate_lem :
      (k f r addr length : ℕ) (s : S)
      → laws.Good (k + f) r s
      → Tracked e s
      → addr ≢ 0
      → addr % hugepage_size ≡ 0
      → length ≡ k * hugepage_size
      → length ≢ 0
      → addr + length < 2 ^ 64
      → ((va : ℕ) → addr ≤ va → va < addr + length → e.table.find s.pages va ≡ none)
      → s.stats.mem_allocated < 2 ^ 64
      → Returns
          (λ s'. laws.Good f r s' × Tracked e s' × Populated e addr (addr + length) s s')
          (hemem_mmap_populate e policy addr length s)
  unfolding hemem_mmap_populate
  hemem_mmap_populate_lem k f r addr length s good t nz al is some_pages small new fine =
      let z : (addr == 0) ≡ false = ground arith in
      let l : (length == 0) ≡ false = ground arith in
      let ends : add64 addr length ≡ addr + length = omega arith in
      rw (z, l, ends)
        (populate_loop_lem k f r (rounds length) addr (addr + length) s good t nz al (omega arith)
          small (omega arith) new fine)
