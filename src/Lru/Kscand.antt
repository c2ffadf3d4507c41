-- ===== src/Lru/Kscand.antt =====
-- A whole iteration of the scanning thread of src/policies/lru.c.
use hemem.Prelude.{
  ℕ, ◌+◌, ◌<◌, ◌≤◌, ◌^◌, ◌≡◌, refl, sym, ap, ◌∙◌, true, false, List, [], ◌∷◌, Ptr, subst, arith,
  Returns, returns, bind, mono,
}
use hemem.Fifo.Moves.{IsWell, entries}
use hemem.Memory.Page.{Page}
use hemem.Memory.Kernel.{Call, ok, Env, Os, uffd_clear_flag, uffd_tlbflush}
use hemem.Memory.State.{State, Lru}
use hemem.Pebs.Lists.{list_of}
use hemem.Lru.Scan.{max_vas, hemem_clear_bits, clear_all, hemem_tlb_shootdown, kscand_iteration}
use hemem.Lru.Route.{Route, Shows, shrink_route, expand_route, check_route}
use hemem.Lru.Shift.{Shifted, AllAligned}
use hemem.Lru.Journey.{hop, journey, verdict, Rescored, journey-verdict, journey-Rescored}
use hemem.Lru.Steps.{among, Aligned, Tier, Scanned, check_step, shrink_step, expand_step}

-- The kernel shows bits that stand still, and clears bits and flushes when asked.
pub record Obeys (os : Os) (bits : ℕ → ℕ) : Type 0 where
  pub shows : Shows os bits
  pub clears : (before : List Call) (va : ℕ) → os before (uffd_clear_flag va) ≡ ok 0
  pub flushes : (before : List Call) (va len : ℕ) → os before (uffd_tlbflush va len) ≡ ok 0

module _ {Table : Type 0} where
  -- `n` pages are on the three lists of DRAM and `m` on those of NVM, few enough that no count wraps.
  pub record Fleet (n m : ℕ) (s : State Table) : Type 0 where
    pub well : IsWell s.store
    pub lined : Aligned s
    pub fast : entries s.store 0 + entries s.store 1 + entries s.store 2 ≡ n
    pub slow : entries s.store 4 + entries s.store 5 + entries s.store 6 ≡ m
    pub few : n + m < 2 ^ 63
    pub others :
        (k : ℕ) → among k 0 1 2 ≡ false → among k 4 5 6 ≡ false → n + m + entries s.store k < 2 ^ 64

  module _ (n m : ℕ) (s : State Table) (f : Fleet n m s) where
    Fleet-fast : Tier 0 1 2 s
    Fleet-fast = record {
      ai = refl;
      aw = refl;
      iw = refl;
      well = f.well;
      lined = f.lined;
      small = λ k. ground (arith, f.others k, f.fast, f.slow, f.few);
    }

    Fleet-slow : Tier 4 5 6 s
    Fleet-slow = record {
      ai = refl;
      aw = refl;
      iw = refl;
      well = f.well;
      lined = f.lined;
      small = λ k. ground (arith, f.others k, f.fast, f.slow, f.few);
    }

    fast-Fleet :
        (route : Page → Route) (from : ℕ) (s' : State Table)
        → Scanned route 0 1 2 from s s'
        → Fleet n m s'
    fast-Fleet route from s' h = record {
      well = h.shifted.well;
      lined = h.aligned;
      fast = h.total ∙ f.fast;
      slow = ground (arith, h.other 4, h.other 5, h.other 6, f.slow);
      few = f.few;
      others = λ k a b. ground (arith, h.other k, f.others k);
    }

    slow-Fleet :
        (route : Page → Route) (from : ℕ) (s' : State Table)
        → Scanned route 4 5 6 from s s'
        → Fleet n m s'
    slow-Fleet route from s' h = record {
      well = h.shifted.well;
      lined = h.aligned;
      fast = ground (arith, h.other 0, h.other 1, h.other 2, f.fast);
      slow = h.total ∙ f.slow;
      few = f.few;
      others = λ k a b. ground (arith, h.other k, f.others k);
    }

module _ {Table : Type 0} where
  abbrev seen_at : State Table → ℕ → Ptr × Page
  seen_at s q = (list_of s q, s.page q)

  Shifted-hop :
      (route : Page → Route) (from : ℕ) (s s' : State Table) (q : ℕ)
      → Shifted route from s s'
      → seen_at s' q ≡ hop route from (seen_at s q)
  unfolding hop
  Shifted-hop route from s s' q h = ground (arith, h.place q, h.page q)

  -- Only the memory of pages, the variables of the policy and the list of calls change.
  abbrev pub Framed : State Table → State Table → Type 0
  Framed s s' = s' ≡ record s { store = s'.store; page = s'.page; lru = s'.lru; calls = s'.calls }

  Framed-trans : (s t u : State Table) → Framed s t → Framed t u → Framed s u
  Framed-trans s t u a b =
      b
      ∙ ap
          (λ (x : State Table). record x {
            store = u.store;
            page = u.page;
            lru = u.lru;
            calls = u.calls;
          })
          a

  Shifted-Framed :
      (route : Page → Route) (from : ℕ) (s s' : State Table) → Shifted route from s s' → Framed s s'
  Shifted-Framed route from s s' h =
      h.rest
      ∙ ap (λ (x : Lru). record s { store = s'.store; page = s'.page; lru = x; calls = s'.calls })
          (sym (ap (λ (t : State Table). t.lru) h.rest))

  -- The state after an iteration.
  pub record Swept (bits : ℕ → ℕ) (s s' : State Table) : Type 0 where
    pub well : IsWell s'.store
    pub place : (q : ℕ) → list_of s' q ≡ verdict bits (list_of s q) (s.page q)
    pub page : (q : ℕ) → Rescored (s.page q) (s'.page q)
    pub over : s'.lru.in_kscand ≡ false
    pub rest : Framed s s'

module _ (e : Env) (bits : ℕ → ℕ) (os : Obeys e.os bits) where
  abbrev S : Type 0
  S = State e.table.Table

  -- Only the list of calls changes.
  clear_all_lem :
      (vas : List ℕ) (s : S)
      → AllAligned vas
      → Returns (λ s'. s' ≡ record s { calls = s'.calls }) (clear_all e vas s)
  unfolding clear_all hemem_clear_bits
  clear_all_lem [] s al = returns refl
  clear_all_lem (va ∷ vas) s al = simp (al.0, os.clears) (mono (clear_all_lem vas _ al.1) λ s' h. h)

  -- The six scans and the calls behind them, put together.
  swept_lem :
      (s0 s1 s2 s3 s4 s5 s6 s7 : S)
      → Shifted (check_route bits 0 1 2) 2 s0 s1
      → Shifted (check_route bits 4 5 6) 6 s1 s2
      → Shifted (shrink_route bits 0 1 2) 0 s2 s3
      → Shifted (shrink_route bits 4 5 6) 4 s3 s4
      → Shifted (expand_route bits 0 1 2) 1 s4 s5
      → Shifted (expand_route bits 4 5 6) 5 s5 s6
      → s7 ≡ record s6 { calls = s7.calls }
      → (c : List Call)
      → Swept bits s0 (record s7 { lru = record (s7.lru) { in_kscand = false }; calls = c })
  swept_lem s0 s1 s2 s3 s4 s5 s6 s7 h1 h2 h3 h4 h5 h6 same c =
      let way : (q : ℕ) → seen_at s7 q ≡ journey bits (seen_at s0 q) = λ q.
        ap (λ (t : S). seen_at t q) same
        ∙ Shifted-hop (expand_route bits 4 5 6) 5 s5 s6 q h6
        ∙ ap (hop (expand_route bits 4 5 6) 5) (
            Shifted-hop (expand_route bits 0 1 2) 1 s4 s5 q h5
            ∙ ap (hop (expand_route bits 0 1 2) 1) (
                Shifted-hop (shrink_route bits 4 5 6) 4 s3 s4 q h4
                ∙ ap (hop (shrink_route bits 4 5 6) 4) (
                    Shifted-hop (shrink_route bits 0 1 2) 0 s2 s3 q h3
                    ∙ ap (hop (shrink_route bits 0 1 2) 0) (
                        Shifted-hop (check_route bits 4 5 6) 6 s1 s2 q h2
                        ∙ ap (hop (check_route bits 4 5 6) 6)
                            (Shifted-hop (check_route bits 0 1 2) 2 s0 s1 q h1))))) in
      record {
        well = subst IsWell (sym (ap (λ (t : S). t.store) same)) h6.well;
        place = λ q.
            ap (λ (p : Ptr × Page). p.0) (way q) ∙ journey-verdict bits (list_of s0 q) (s0.page q);
        page = λ q.
            subst (Rescored (s0.page q)) (sym (ap (λ (p : Ptr × Page). p.1) (way q)))
              (journey-Rescored bits (list_of s0 q) (s0.page q));
        over = refl;
        rest = Framed-trans s0 s1 _ (Shifted-Framed _ _ s0 s1 h1) (
            Framed-trans s1 s2 _ (Shifted-Framed _ _ s1 s2 h2) (
              Framed-trans s2 s3 _ (Shifted-Framed _ _ s2 s3 h3) (
                Framed-trans s3 s4 _ (Shifted-Framed _ _ s3 s4 h4) (
                  Framed-trans s4 s5 _ (Shifted-Framed _ _ s4 s5 h5) (
                    Framed-trans s5 s6 _ (Shifted-Framed _ _ s5 s6 h6) (
                      ap
                        (λ (t : S). record t {
                          store = s7.store;
                          page = s7.page;
                          lru = record (s7.lru) { in_kscand = false };
                          calls = c;
                        })
                        same))))));
      }

  -- An iteration of `lru_kscand`, while the bits in the page table stand still, the listed pages
  -- have addresses of huge pages, and the six lists that are scanned have at most MAX_VAS pages: it
  -- ends, no assertion fails, and every page of the three lists of a tier ends on the list that its
  -- bits say: on the written list if it was written; on the active list if it was only accessed,
  -- except that a page that was inactive stays so until it has been seen accessed four times
  -- before; on the inactive list if it was not accessed. Every other page stays where it was; of a
  -- page only `written` and `naccesses` change, and the lists are well linked.
  pub kscand_iteration_lem :
      (n m : ℕ) (s : S)
      → Fleet n m s
      → n + m ≤ max_vas
      → Returns (Swept bits s) (kscand_iteration e s)
  unfolding kscand_iteration hemem_tlb_shootdown
  kscand_iteration_lem n m s f room =
      let s0 : S = record s { lru = record (s.lru) { in_kscand = true; vas = [] } } in
      let f0 : Fleet n m s0 = record {
        well = f.well;
        lined = f.lined;
        fast = f.fast;
        slow = f.slow;
        few = f.few;
        others = f.others;
      } in
      bind (check_step e bits os.shows 0 1 2 s0 (Fleet-fast n m s0 f0) (omega (arith, f0.fast)))
        λ s1 (h1, v1).
          let f1 = fast-Fleet n m s0 f0 _ _ s1 h1 in
          bind
            (check_step e bits os.shows 4 5 6 s1 (Fleet-slow n m s1 f1)
              (omega (arith, f1.fast, f1.slow)))
            λ s2 (h2, v2).
              let f2 = slow-Fleet n m s1 f1 _ _ s2 h2 in
              bind
                (shrink_step e bits os.shows 0 1 2 s2 (Fleet-fast n m s2 f2)
                  (omega (arith, f2.fast, f2.slow, h2.other 2 refl)))
                λ s3 (h3, v3).
                  let f3 = fast-Fleet n m s2 f2 _ _ s3 h3 in
                  bind
                    (shrink_step e bits os.shows 4 5 6 s3 (Fleet-slow n m s3 f3)
                      (omega (arith, f3.fast, f3.slow, h2.other 2 refl, h3.other 6 refl)))
                    λ s4 (h4, v4).
                      let f4 = slow-Fleet n m s3 f3 _ _ s4 h4 in
                      bind
                        (expand_step e bits os.shows 0 1 2 s4 (Fleet-fast n m s4 f4) (
                          omega (
                            arith,
                            f4.fast,
                            f4.slow,
                            h2.other 2 refl,
                            h3.other 6 refl,
                            h4.other 0 refl,
                            h4.other 2 refl,
                            h4.other 1 refl,
                          )))
                        λ s5 (h5, v5).
                          let f5 = fast-Fleet n m s4 f4 _ _ s5 h5 in
                          bind
                            (expand_step e bits os.shows 4 5 6 s5 (Fleet-slow n m s5 f5) (
                              omega (
                                arith,
                                f4.fast,
                                f5.fast,
                                f5.slow,
                                h2.other 2 refl,
                                h3.other 6 refl,
                                h4.other 0 refl,
                                h4.other 2 refl,
                                h4.other 1 refl,
                                h5.other 4 refl,
                                h5.other 5 refl,
                                h5.other 6 refl,
                              )))
                            λ s6 (h6, v6).
                              bind
                                (clear_all_lem s6.lru.vas s6 (
                                  h6.noted
                                    (h5.noted (h4.noted (h3.noted (h2.noted (h1.noted tt)))))))
                                λ s7 same. simp os.flushes (
                                  returns (
                                    let w =
                                      swept_lem s0 s1 s2 s3 s4 s5 s6 s7 h1.shifted h2.shifted
                                        h3.shifted h4.shifted h5.shifted h6.shifted same _ in
                                    record {
                                      well = w.well;
                                      place = w.place;
                                      page = w.page;
                                      over = w.over;
                                      rest = w.rest;
                                    }))
