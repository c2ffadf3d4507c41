-- ===== src/Pebs/Invariant/Scanning.antt =====
-- One record of the sampling thread.
use hemem.Prelude.{
  ℕ, ◌+◌, ◌<◌, ◌^◌, ◌-◌, ◌%◌, ◌≡◌, refl, ap, Bool-cases, inl, inr, none, some, Ptr, ◌==◌,
  if◌then◌else◌, Returns, returns, bind, mono, both,
}
use hemem.Memory.Page.{PbufType}
use hemem.Memory.Kernel.{Env}
use hemem.Memory.State.{State, Pebs}
use hemem.Hemem.Pages.{get_hemem_page, find_page}
use hemem.Pebs.Scan.{
  set_pebs, Record, sample, throttle, unthrottle, unknown, count_hemem, scan_found, scan_record,
}
use hemem.Pebs.Invariant.{Inv}
use hemem.Pebs.Invariant.Sampling.{
  late, Sampled, Sampled-trans, Sampled-pebs, Sampled-Inv, scan_page_lem,
}
use hemem.Pebs.Invariant.Heard.{Heard, Unheard}
use hemem.Pebs.Invariant.HeardRun.{scan_page-Heard}

module _ {Table : Type 0} where
  -- What is heard of the page of a sample, if there is one.
  abbrev pub Told : PbufType → Ptr → State Table → State Table → Type 0
  Told j none s s' = Unheard s s'
  Told j (some p) s s' = Heard j p s s'

  -- A tracked page that has an address.
  abbrev with_address : Ptr → State Table → Ptr
  with_address none s = none
  with_address (some p) s = if (s.page p).va == 0 then none else some p

  counters :
      (s : State Table) (b : Pebs)
      → b ≡ record (s.pebs) {
        hemem_pages_cnt = b.hemem_pages_cnt;
        other_pages_cnt = b.other_pages_cnt;
        total_pages_cnt = b.total_pages_cnt;
        zero_pages_cnt = b.zero_pages_cnt;
        throttle_cnt = b.throttle_cnt;
        unthrottle_cnt = b.unthrottle_cnt;
      }
      → Unheard s (set_pebs s b)
  counters s b is = record {
    page = refl;
    hot_ring = ap (λ (b : Pebs). b.hot_ring) is;
    cold_ring = ap (λ (b : Pebs). b.cold_ring) is;
    free_ring = ap (λ (b : Pebs). b.free_page_ring) is;
    clock = ap (λ (b : Pebs). b.global_clock) is;
    cool_dram = ap (λ (b : Pebs). b.need_cool_dram) is;
    cool_nvm = ap (λ (b : Pebs). b.need_cool_nvm) is;
  }

  Heard-count :
      (j : PbufType) (p : ℕ) (s s1 : State Table) → Heard j p s s1 → Heard j p s (count_hemem s1)
  Heard-count j p s s1 h = record {
    dram = h.dram;
    nvm = h.nvm;
    caught_up = h.caught_up;
    hot_ring = h.hot_ring;
    cold_ring = h.cold_ring;
    pending = h.pending;
    clock = h.clock;
    cool_dram = h.cool_dram;
    cool_nvm = h.cool_nvm;
    free_ring = h.free_ring;
    others = h.others;
  }

  found_lem :
      (i : ℕ) (j : PbufType) (o : Ptr) (s : State Table)
      → ((p : ℕ) → with_address o s ≡ some p → late p s < 64)
      → ((p : ℕ)
          → with_address o s ≡ some p
          → (s.page p).accesses.dram + (s.page p).accesses.nvm + 1 < 2 ^ 64)
      → Returns (λ s'. Sampled s s' × Told j (with_address o s) s s') (scan_found i j o s)
  unfolding scan_found
  found_lem i j none s few small = returns (Sampled-pebs s _, counters s _ refl)
  found_lem i j (some p) s few small = elim (Bool-cases ((s.page p).va == 0)) [
    | inl is ↦ rw (is, scan_found) (returns (Sampled-pebs s _, counters s _ refl))
    | inr nz ↦
        rw (nz, scan_found)
          (bind
            (both (scan_page_lem i j p s (few p (rw nz refl)))
              (scan_page-Heard i j p s (small p (rw nz refl)) (few p (rw nz refl))))
            λ s1 (a, h). returns (Sampled-trans a (Sampled-pebs s1 _), Heard-count j p s s1 h))
  ]

module _ (e : Env) where
  -- The page that a record is about: the tracked one at the huge page of a sampled address.
  abbrev pub target : Record → State e.table.Table → Ptr
  target (sample addr) s =
      if addr == 0 then none else with_address (e.table.find s.pages (addr - addr % 2097152)) s
  target throttle s = none
  target unthrottle s = none
  target unknown s = none

  -- One record of the sampling thread, of any kind, when its page, if it has one, has missed fewer
  -- than 64 coolings and has counts below `2 ^ 64`: nothing fails. A sample in a tracked page counts
  -- as a read and the counts are halved for each cooling that the page missed; with 8 reads or more,
  -- before that halving, a page that is not hot is asked for in the hot ring, with fewer a hot one in
  -- the cold ring, neither while a request is pending; with more than 24 reads of the kind left the
  -- clock advances and both tiers are to be cooled. Any other record changes no page, request or
  -- clock. In each case the lists, the table of pages and the calls stay as they are, and so do the
  -- address, the frame, the tier, the size, the use and the heat of every page; the invariant of the
  -- lists holds again.
  pub scan_record_lem :
      (n i : ℕ) (j : PbufType) (r : Record) (s : State e.table.Table)
      → Inv e n s
      → ((p : ℕ) → target r s ≡ some p → late p s < 64)
      → ((p : ℕ)
          → target r s ≡ some p
          → (s.page p).accesses.dram + (s.page p).accesses.nvm + 1 < 2 ^ 64)
      → Returns (λ s'. Inv e n s' × Sampled s s' × Told j (target r s) s s') (scan_record e i j r s)
  unfolding scan_record get_hemem_page find_page
  scan_record_lem n i j r s inv few small =
      mono (go r few small) λ s' (c, t). (Sampled-Inv s s' inv c, c, t)
    where
      go :
          (r : Record)
          → ((p : ℕ) → target r s ≡ some p → late p s < 64)
          → ((p : ℕ)
              → target r s ≡ some p
              → (s.page p).accesses.dram + (s.page p).accesses.nvm + 1 < 2 ^ 64)
          → Returns (λ s'. Sampled s s' × Told j (target r s) s s') (scan_record e i j r s)
      go (sample addr) few small = elim (Bool-cases (addr == 0)) [
        | inl is ↦ rw (is, scan_record) (returns (Sampled-pebs s _, counters s _ refl))
        | inr nz ↦
            rw (nz, scan_record)
              (found_lem i j (e.table.find s.pages (addr - addr % 2097152)) s (rw nz at few)
                (rw nz at small))
      ]
      go throttle few small = returns (Sampled-pebs s _, counters s _ refl)
      go unthrottle few small = returns (Sampled-pebs s _, counters s _ refl)
      go unknown few small = returns (Sampled-pebs s s.pebs, counters s s.pebs refl)
