-- ===== src/Pebs/Invariant/HeardRun.antt =====
-- The missed coolings and the clock of a sample, and a whole sample.
use hemem.Prelude.{
  ℕ, ◌+◌, ◌<◌, ◌^◌, ◌/◌, ◌≡◌, refl, ap, ◌∙◌, Bool, true, false, ◌||◌, some, ltb, ◌==◌, ==_refl,
  arith, add64, if◌then◌else◌, Returns, returns,
}
use hemem.Ring
use hemem.Memory.Page.{Page, PbufType, dramread, nvmread, total, shift, count_of, count_up}
use hemem.Memory.State.{State, Pebs, set_page}
use hemem.Pebs.Scan.{count_access, counted, request, catch_up, advance_clock, scan_page}
use hemem.Pebs.Invariant.Sampling.{late}
use hemem.Pebs.Invariant.Heard.{hits, warms, cools, crowded, Heard}
use hemem.Pebs.Invariant.Asking.{total_lem, hits_dram, hits_nvm, request_lem}

module _ {Table : Type 0} where
  -- What `advance_clock` does.
  record Advanced (b : Bool) (t t' : State Table) : Type 0 where
    page : t'.page ≡ t.page
    hot_ring : t'.pebs.hot_ring ≡ t.pebs.hot_ring
    cold_ring : t'.pebs.cold_ring ≡ t.pebs.cold_ring
    free_ring : t'.pebs.free_page_ring ≡ t.pebs.free_page_ring
    clock : t'.pebs.global_clock ≡ (if b then add64 t.pebs.global_clock 1 else t.pebs.global_clock)
    cool_dram : t'.pebs.need_cool_dram ≡ (b || t.pebs.need_cool_dram)
    cool_nvm : t'.pebs.need_cool_nvm ≡ (b || t.pebs.need_cool_nvm)

  advance_lem :
      (j : PbufType) (p : ℕ) (b : Bool) (t : State Table)
      → ltb 24 (count_of j (t.page p).accesses) ≡ b
      → Advanced b t (advance_clock j p t)
  unfolding advance_clock
  advance_lem j p true t is = rw is (record {
    page = refl;
    hot_ring = refl;
    cold_ring = refl;
    free_ring = refl;
    clock = refl;
    cool_dram = refl;
    cool_nvm = refl;
  })
  advance_lem j p false t is = rw is (record {
    page = refl;
    hot_ring = refl;
    cold_ring = refl;
    free_ring = refl;
    clock = refl;
    cool_dram = refl;
    cool_nvm = refl;
  })

  -- The state before the clock advances.
  record Caught (j : PbufType) (p : ℕ) (s v : State Table) : Type 0 where
    dram : (v.page p).accesses.dram ≡ hits j dramread (s.page p) / 2 ^ late p s
    nvm : (v.page p).accesses.nvm ≡ hits j nvmread (s.page p) / 2 ^ late p s
    caught_up : (v.page p).local_clock ≡ s.pebs.global_clock
    hot_ring :
        v.pebs.hot_ring
        ≡ (if warms (s.page p) then Ring.put s.pebs.hot_ring (some p) else s.pebs.hot_ring)
    cold_ring :
        v.pebs.cold_ring
        ≡ (if cools (s.page p) then Ring.put s.pebs.cold_ring (some p) else s.pebs.cold_ring)
    pending :
        (v.page p).ring_present ≡ ((s.page p).ring_present || warms (s.page p) || cools (s.page p))
    others : (q : ℕ) → (q == p) ≡ false → v.page q ≡ s.page q
    clock : v.pebs.global_clock ≡ s.pebs.global_clock
    cool_dram : v.pebs.need_cool_dram ≡ s.pebs.need_cool_dram
    cool_nvm : v.pebs.need_cool_nvm ≡ s.pebs.need_cool_nvm
    free_ring : v.pebs.free_page_ring ≡ s.pebs.free_page_ring

  -- The page with its counts made up for.
  abbrev caught : ℕ → State Table → State Table
  caught p u = set_page u p (record (u.page p) {
    accesses = record {
      dram = (u.page p).accesses.dram / 2 ^ late p u;
      nvm = (u.page p).accesses.nvm / 2 ^ late p u;
    };
    local_clock = u.pebs.global_clock;
  })

  crowded_lem :
      (j : PbufType) (p : ℕ) (s v : State Table)
      → Caught j p s v
      → ltb 24 (count_of j (v.page p).accesses) ≡ crowded j p s
  crowded_lem dramread p s v c = ap (λ n. ltb 24 n) c.dram
  crowded_lem nvmread p s v c = ap (λ n. ltb 24 n) c.nvm

  Caught-Heard :
      (j : PbufType) (p : ℕ) (s v : State Table)
      → Caught j p s v
      → Heard j p s (advance_clock j p v)
  Caught-Heard j p s v c =
      let a = advance_lem j p (crowded j p s) v (crowded_lem j p s v c) in
      record {
        dram = rw a.page c.dram;
        nvm = rw a.page c.nvm;
        caught_up = rw a.page c.caught_up;
        hot_ring = a.hot_ring ∙ c.hot_ring;
        cold_ring = a.cold_ring ∙ c.cold_ring;
        pending = rw a.page c.pending;
        clock = a.clock ∙ rw c.clock refl;
        cool_dram = a.cool_dram ∙ rw c.cool_dram refl;
        cool_nvm = a.cool_nvm ∙ rw c.cool_nvm refl;
        free_ring = a.free_ring ∙ c.free_ring;
        others = λ q ne. rw a.page (c.others q ne);
      }

  caught_lem :
      (i : ℕ) (j : PbufType) (p : ℕ) (s : State Table)
      → (s.page p).accesses.dram + (s.page p).accesses.nvm + 1 < 2 ^ 64
      → late p s < 64
      → (ltb (late p (counted i j p s)) 64 ≡ true) × Caught j p s (caught p (counted i j p s))
  caught_lem i j p s small fresh =
      let t = count_access j p s in
      let here : t.page p ≡ record (s.page p) {
        accesses = count_up j (s.page p).accesses;
        tot_accesses = count_up j (s.page p).tot_accesses;
      } =
        rw ==_refl refl in
      let n = (s.page p).accesses.dram + (s.page p).accesses.nvm + 1 in
      let a =
        request_lem p n t
          (ap (λ (x : Page). total x.accesses) here ∙ total_lem j (s.page p) small) in
      let clock : (request p t).pebs.global_clock ≡ s.pebs.global_clock =
        ap (λ (b : Pebs). b.global_clock) a.rest in
      let local : ((request p t).page p).local_clock ≡ (s.page p).local_clock =
        ap (λ (x : Page). x.local_clock) (a.here) ∙ ap (λ (x : Page). x.local_clock) here in
      let ok : ltb (late p (request p t)) 64 ≡ true = rw (clock, local) (ground arith) in
      let dram : ((request p t).page p).accesses.dram ≡ hits j dramread (s.page p) =
        ap (λ (x : Page). x.accesses.dram) (a.here)
        ∙ ap (λ (x : Page). x.accesses.dram) here
        ∙ hits_dram j (s.page p) small in
      let nvm : ((request p t).page p).accesses.nvm ≡ hits j nvmread (s.page p) =
        ap (λ (x : Page). x.accesses.nvm) (a.here)
        ∙ ap (λ (x : Page). x.accesses.nvm) here
        ∙ hits_nvm j (s.page p) small in
      (
        ok,
        record {
          dram = rw (==_refl, dram, clock, local) refl;
          nvm = rw (==_refl, nvm, clock, local) refl;
          caught_up = rw ==_refl clock;
          hot_ring = a.hot_ring ∙ rw ==_refl refl;
          cold_ring = a.cold_ring ∙ rw ==_refl refl;
          pending = rw ==_refl (a.pending ∙ rw ==_refl refl);
          others = λ q ne. rw ne (a.others q ne ∙ rw ne refl);
          clock = clock;
          cool_dram = ap (λ (b : Pebs). b.need_cool_dram) a.rest;
          cool_nvm = ap (λ (b : Pebs). b.need_cool_nvm) a.rest;
          free_ring = ap (λ (b : Pebs). b.free_page_ring) a.rest;
        },
      )

  pub scan_page-Heard :
      (i : ℕ) (j : PbufType) (p : ℕ) (s : State Table)
      → (s.page p).accesses.dram + (s.page p).accesses.nvm + 1 < 2 ^ 64
      → late p s < 64
      → Returns (Heard j p s) (scan_page i j p s)
  unfolding scan_page catch_up shift
  scan_page-Heard i j p s small fresh =
      let (ok, c) = caught_lem i j p s small fresh in
      rw ok (returns (Caught-Heard j p s (caught p (counted i j p s)) c))
