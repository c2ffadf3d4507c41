-- ===== src/Hemem/Mapping/Unmap.antt =====
-- What unmapping a region does, on top of any policy that keeps its laws.
use hemem.Prelude.{
  ℕ, suc, zero, ◌+◌, ◌*◌, ◌%◌, ◌<◌, ◌≤◌, ◌^◌, ◌≡◌, ◌≢◌, refl, ◌∙◌, Bool-cases, inl, inr, true,
  false, none, some, List, Ptr, subst, arith, ltb, ◌==◌, Returns, returns, bind, mono, ◌>>=◌, add64,
}
use hemem.Memory.Page.{hugepage_size, basepage_size}
use hemem.Memory.Kernel.{Env, Call, munmap}
use hemem.Memory.State.{State, set_internal}
use hemem.Hemem.Pages.{find_page}
use hemem.Hemem.Policy.{Policy, Laws}
use hemem.Hemem.Tracked.{Tracked}
use hemem.Hemem.Mapping.Unmapped.{Unmapped, untracked, unmap_page_lem}
use hemem.Hemem.Mapping.{rounds, unmap_page, unmap_loop, hemem_munmap}

-- From `first` up to `end` no address is tracked now; the others are tracked as before, and the
-- pages still in use are as they were.
pub record Cleared (e : Env) (first end : ℕ) (s s' : State e.table.Table) : Type 0 where
  pub inside : (va : ℕ) → first ≤ va → va < end → e.table.find s'.pages va ≡ none
  pub below : (va : ℕ) → va ≢ 0 → va < first → e.table.find s'.pages va ≡ e.table.find s.pages va
  pub above : (va : ℕ) → va ≢ 0 → end ≤ va → e.table.find s'.pages va ≡ e.table.find s.pages va
  pub kept : (q : ℕ) → (s'.page q).present ≡ true → s'.page q ≡ s.page q

module _ (e : Env) {policy : Policy e} (laws : Laws e policy) where
  abbrev S : Type 0
  S = State e.table.Table

  abbrev Result : ℕ → ℕ → ℕ → ℕ → S → S → Type 0
  Result f r first end s s' =
      ((room : ℕ) × (r ≤ room) × laws.Good f room s') × Tracked e s' × Cleared e first end s s'

  Cleared-none : (first end : ℕ) (s : S) → end ≤ first → Cleared e first end s s
  Cleared-none first end s over = record {
    inside = λ va lo hi. absurd (omega arith);
    below = λ va nz lt. refl;
    above = λ va nz le. refl;
    kept = λ q h. refl;
  }

  -- A round that finds no page, and the rest.
  Cleared-skip :
      (first end : ℕ) (s s' : S)
      → Tracked e s
      → first ≢ 0
      → first % basepage_size ≡ 0
      → e.table.find s.pages first ≡ none
      → Cleared e (first + basepage_size) end s s'
      → Cleared e first end s s'
  Cleared-skip first end s s' t nz al none_here rest = record {
    inside = λ va lo hi. elim (Bool-cases (ltb va (first + basepage_size))) [
      | inl near ↦ rest.below va (omega arith) (ground arith) ∙ (elim (Bool-cases (va == first)) [
        | inl is ↦ subst (λ x. e.table.find s.pages x ≡ none) (ground arith) none_here
        | inr ne ↦
            let other : va ≢ first = ground arith in
            let close : va < first + basepage_size = ground arith in
            untracked e laws va s t (omega arith) (omega arith)
      ])
      | inr far ↦ rest.inside va (ground arith) hi
    ];
    below = λ va nz' lt. rest.below va nz' (omega arith);
    above = rest.above;
    kept = rest.kept;
  }

  -- A round that gives a page back, and the rest.
  Cleared-page :
      (first end p : ℕ) (s s1 s' : S)
      → Tracked e s
      → Tracked e s1
      → first ≢ 0
      → first < end
      → e.table.find s.pages first ≡ some p
      → Unmapped e first p s s1
      → Cleared e (first + hugepage_size) end s1 s'
      → Cleared e first end s s'
  Cleared-page first end p s s1 s' t t1 nz lt found m rest =
      let al : first % hugepage_size ≡ 0 = ground (arith, t.held first p nz found, t.aligned p) in
      record {
        inside = λ va lo hi. elim (Bool-cases (ltb va (first + hugepage_size))) [
          | inl near ↦
              rest.below va (omega arith) (ground arith) ∙ (elim (Bool-cases (va == first)) [
                | inl is ↦ ground (arith, m.find va)
                | inr ne ↦
                    let other : va ≢ first = ground arith in
                    let close : va < first + hugepage_size = ground arith in
                    untracked e laws va s1 t1 (omega arith) (omega arith)
              ])
          | inr far ↦ rest.inside va (ground arith) hi
        ];
        below = λ va nz' lt'. ground (arith, rest.below va nz' (omega arith), m.find va nz');
        above = λ va nz' le. ground (arith, rest.above va nz' le, m.find va nz');
        kept = λ q h. ground (arith, rest.kept q h, m.gone, m.page q);
      }

  -- What one round needs of the rounds after it.
  abbrev Next : ℕ → ℕ → ℕ → ℕ → Type 0
  Next fuel f r end =
      (room first : ℕ) (s : S)
      → laws.Good f room s
      → r ≤ room
      → end + r * hugepage_size ≤ first + room * hugepage_size
      → Tracked e s
      → first ≢ 0
      → first % basepage_size ≡ 0
      → end ≤ first + fuel * basepage_size
      → Returns (Result f r first end s) (unmap_loop e policy fuel end first s)

  unmap_round_lem :
      (fuel f r room first end : ℕ) (s : S) (o : Ptr)
      → Next fuel f r end
      → e.table.find s.pages first ≡ o
      → first < end
      → laws.Good f room s
      → r ≤ room
      → end + r * hugepage_size ≤ first + room * hugepage_size
      → Tracked e s
      → first ≢ 0
      → first % basepage_size ≡ 0
      → end ≤ first + suc fuel * basepage_size
      → end + hugepage_size ≤ 2 ^ 64
      → Returns
          (Result f r first end s)
          (unmap_page e policy o first s >>= λ (b, s). unmap_loop e policy fuel end b s)
  unfolding unmap_page
  unmap_round_lem fuel f r room first end s none next h lt good has fits t nz al enough small =
      let e1 : add64 first basepage_size ≡ first + basepage_size = omega arith in
      rw e1 (
        mono
          (next room (first + basepage_size) s good has (omega arith) t (omega arith) (omega arith)
            (omega arith))
          λ s' (g, t', rest). (g, t', Cleared-skip first end s s' t nz al h rest))
  unmap_round_lem fuel f r zero first end s (some p) next h lt good has fits t nz al enough small =
      absurd (omega arith)
  unmap_round_lem fuel f r (suc room) first end s (some p) next h lt good has fits t nz al enough
        small =
      bind (unmap_page_lem e laws f room first p s good t nz (omega arith) h) λ (b, s1) (is, rem).
        let (good1, t1, m) = rem in
        rw is (
          mono
            (next room (first + hugepage_size) s1 good1 (omega arith) (omega arith) t1 (omega arith)
              (omega arith) (omega arith))
            λ s' (g, t', rest). (g, t', Cleared-page first end p s s1 s' t t1 nz lt h m rest))

  unmap_loop_lem : (fuel f r end : ℕ) → end + hugepage_size ≤ 2 ^ 64 → Next fuel f r end
  unfolding unmap_loop find_page
  unmap_loop_lem zero f r end small room first s good has fits t nz al enough =
      let stop : ltb first end ≡ false = ground arith in
      rw (stop, unmap_loop) (returns ((room, has, good), t, Cleared-none first end s (omega arith)))
  unmap_loop_lem (suc fuel) f r end small room first s good has fits t nz al enough =
      elim (Bool-cases (ltb first end)) [
        | inr stop ↦
            rw (stop, unmap_loop)
              (returns ((room, has, good), t, Cleared-none first end s (ground arith)))
        | inl lt ↦
            rw (lt, unmap_loop)
              (unmap_round_lem fuel f r room first end s (e.table.find s.pages first)
                (unmap_loop_lem fuel f r end small) refl (ground arith) good has fits t nz al enough
                small)
      ]

  -- `hemem_munmap` of a region that starts at a base page other than 0 and ends at least a page
  -- below `2 ^ 64`, while the policy can take back as many pages as fit in the region: the loop ends
  -- and no assertion fails, whatever the kernel answers, and that answer is returned; no address in
  -- the region is tracked any more; the addresses outside are tracked as before, and the pages
  -- still in use are as they were; both invariants hold again, with room for `r` pages left.
  pub hemem_munmap_lem :
      (f r room addr length : ℕ) (s : S)
      → laws.Good f room s
      → r ≤ room
      → length + r * hugepage_size ≤ room * hugepage_size
      → Tracked e s
      → addr ≢ 0
      → addr % basepage_size ≡ 0
      → addr + length + hugepage_size ≤ 2 ^ 64
      → Returns
          (λ (reply, s').
            ((before : List Call) × (reply ≡ e.os before (munmap addr length)))
            × Result f r addr (addr + length) s s')
          (hemem_munmap e policy addr length s)
  unfolding hemem_munmap
  hemem_munmap_lem f r room addr length s good has fits t nz al small =
      let ends : add64 addr length ≡ addr + length = omega arith in
      rw ends (
        bind
          (unmap_loop_lem (rounds length) f r (addr + length) (omega arith) room addr
            (set_internal s true)
            (laws.settle f room s (set_internal s true) good (record {
              store = refl;
              pebs = refl;
              hint = refl;
              lru = refl;
              simple = refl;
              page = λ q. refl;
            }))
            has (omega arith)
            (record { held = t.held; known = t.known; mapped = t.mapped; aligned = t.aligned }) nz
            al (omega arith))
          λ s1 ((room1, has1, good1), t1, c). returns (
            (s1.calls, refl),
            (
              (
                room1,
                has1,
                laws.settle f room1 s1 _ good1 (record {
                  store = refl;
                  pebs = refl;
                  hint = refl;
                  lru = refl;
                  simple = refl;
                  page = λ q. refl;
                }),
              ),
              record { held = t1.held; known = t1.known; mapped = t1.mapped; aligned = t1.aligned },
              record { inside = c.inside; below = c.below; above = c.above; kept = c.kept },
            ),
          ))
