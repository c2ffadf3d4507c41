-- ===== src/Pebs/Invariant/Sampling.antt =====
-- One record of the sampling thread changes counts, requests and clocks, and nothing else.
use hemem.Prelude.{
  ℕ, ◌<◌, ◌≡◌, refl, ◌∙◌, Bool, true, false, not, ◌&&◌, ltb, leb, arith, sub64, if◌then◌else◌,
  Returns, returns, bind,
}
use hemem.Memory.Page.{Page, PbufType, total, shift, count_of}
use hemem.Memory.Kernel.{Env}
use hemem.Memory.State.{State, Pebs, set_page}
use hemem.Pebs.Heat.{make_hot_request, make_cold_request}
use hemem.Pebs.Scan.{
  set_pebs, count_access, counted, request, catch_up, advance_clock, scan_page, hot_read_threshold,
  pebs_cooling_threshold,
}
use hemem.Pebs.Invariant.{Inv}

-- The pages are where they were, as far as placement is concerned.
pub record Sampled {Table : Type 0} (s s' : State Table) : Type 0 where
  pub store : s'.store ≡ s.store
  pub pages : s'.pages ≡ s.pages
  pub calls : s'.calls ≡ s.calls
  pub va : (q : ℕ) → (s'.page q).va ≡ (s.page q).va
  pub frame : (q : ℕ) → (s'.page q).devdax_offset ≡ (s.page q).devdax_offset
  pub tier : (q : ℕ) → (s'.page q).in_dram ≡ (s.page q).in_dram
  pub type : (q : ℕ) → (s'.page q).pt ≡ (s.page q).pt
  pub live : (q : ℕ) → (s'.page q).present ≡ (s.page q).present
  pub heat : (q : ℕ) → (s'.page q).hot ≡ (s.page q).hot

module _ {Table : Type 0} where
  pub Sampled-trans : {s s' s'' : State Table} → Sampled s s' → Sampled s' s'' → Sampled s s''
  Sampled-trans a b = record {
    store = b.store ∙ a.store;
    pages = b.pages ∙ a.pages;
    calls = b.calls ∙ a.calls;
    va = λ q. b.va q ∙ a.va q;
    frame = λ q. b.frame q ∙ a.frame q;
    tier = λ q. b.tier q ∙ a.tier q;
    type = λ q. b.type q ∙ a.type q;
    live = λ q. b.live q ∙ a.live q;
    heat = λ q. b.heat q ∙ a.heat q;
  }

  -- A page with the same placement takes the place of page `p`.
  Sampled-page :
      (s : State Table) (p : ℕ) (x : Page)
      → x ≡ record (s.page p) {
        accesses = x.accesses;
        tot_accesses = x.tot_accesses;
        ring_present = x.ring_present;
        local_clock = x.local_clock;
      }
      → Sampled s (set_page s p x)
  Sampled-page s p x same = record {
    store = refl;
    pages = refl;
    calls = refl;
    va = λ q. ground (arith, same);
    frame = λ q. ground (arith, same);
    tier = λ q. ground (arith, same);
    type = λ q. ground (arith, same);
    live = λ q. ground (arith, same);
    heat = λ q. ground (arith, same);
  }

  pub Sampled-pebs : (s : State Table) (x : Pebs) → Sampled s (set_pebs s x)
  Sampled-pebs s x = record {
    store = refl;
    pages = refl;
    calls = refl;
    va = λ q. refl;
    frame = λ q. refl;
    tier = λ q. refl;
    type = λ q. refl;
    live = λ q. refl;
    heat = λ q. refl;
  }

  Sampled-if :
      {s x y : State Table} (b : Bool) → Sampled s x → Sampled s y → Sampled s (if b then x else y)
  Sampled-if true a c = a
  Sampled-if false a c = c

  Sampled-request : (p : ℕ) (s : State Table) → Sampled s (request p s)
  unfolding request make_hot_request make_cold_request
  Sampled-request p s =
      let marked = Sampled-page s p (record (s.page p) { ring_present = true }) refl in
      let same = Sampled-pebs s s.pebs in
      Sampled-if (leb hot_read_threshold (total (s.page p).accesses))
        (Sampled-if (not (s.page p).hot && not (s.page p).ring_present)
          (Sampled-trans marked (Sampled-pebs _ _)) same)
        (Sampled-if ((s.page p).hot && not (s.page p).ring_present)
          (Sampled-trans marked (Sampled-pebs _ _)) same)

  Sampled-clock : (j : PbufType) (p : ℕ) (s : State Table) → Sampled s (advance_clock j p s)
  unfolding advance_clock
  Sampled-clock j p s =
      Sampled-if (ltb pebs_cooling_threshold (count_of j (s.page p).accesses)) (Sampled-pebs _ _)
        (Sampled-pebs s s.pebs)

  -- How many coolings page `p` has missed.
  abbrev pub late : ℕ → State Table → ℕ
  late p s = sub64 s.pebs.global_clock (s.page p).local_clock

  catch_up_lem : (p : ℕ) (s : State Table) → late p s < 64 → Returns (Sampled s) (catch_up p s)
  unfolding catch_up shift
  catch_up_lem p s few =
      let ok : ltb (late p s) 64 ≡ true = ground arith in
      simp (ok) (returns (Sampled-page s p _ refl))

  late-request :
      (j : PbufType) (p : ℕ) (s : State Table) → late p (request p (count_access j p s)) ≡ late p s
  unfolding request make_hot_request make_cold_request
  late-request j p s = ground arith

  Sampled-counted : (i : ℕ) (j : PbufType) (p : ℕ) (s : State Table) → Sampled s (counted i j p s)
  Sampled-counted i j p s =
      Sampled-trans (Sampled-page s p _ refl)
        (Sampled-trans (Sampled-request p (count_access j p s)) (Sampled-pebs _ _))

  pub scan_page_lem :
      (i : ℕ) (j : PbufType) (p : ℕ) (s : State Table)
      → late p s < 64
      → Returns (Sampled s) (scan_page i j p s)
  unfolding scan_page
  scan_page_lem i j p s few =
      bind (catch_up_lem p (counted i j p s) (rw (late-request j p s) few)) λ s1 a.
        returns (Sampled-trans (Sampled-counted i j p s) (Sampled-trans a (Sampled-clock j p s1)))

-- The invariant of the lists does not read what a sample changes.
pub Sampled-Inv :
    {e : Env} {n : ℕ} (s s' : State e.table.Table) → Inv e n s → Sampled s s' → Inv e n s'
Sampled-Inv s s' inv c = record {
  well = rw c.store inv.well;
  count = rw c.store inv.count;
  small = inv.small;
  fits = λ q.
      let f = inv.fits q in
      rw c.store (record {
        known = f.known;
        tier = rw (c.tier q) f.tier;
        live = rw (c.tier q, c.heat q, c.live q) f.live;
        idle = rw (c.heat q, c.live q) f.idle;
        placed = rw (c.tier q, c.frame q, c.type q) f.placed;
        huge = rw (c.type q) f.huge;
      });
  apart = λ q r a b d o.
      inv.apart q r (ground (arith, c.store)) (ground (arith, c.store))
        (ground (arith, c.tier q, c.tier r)) (ground (arith, c.frame q, c.frame r));
}
