-- ===== src/Pebs/Invariant/Asking.antt =====
-- The count and the request of a sample.
use hemem.Prelude.{
  ℕ, ◌+◌, ◌<◌, ◌^◌, ◌≡◌, refl, Bool-cases, inl, inr, true, false, not, ◌&&◌, ◌||◌, some, ltb, leb,
  ◌==◌, ==_refl, arith, if◌then◌else◌,
}
use hemem.Ring
use hemem.Memory.Page.{Page, PbufType, dramread, nvmread, total, count_up}
use hemem.Memory.State.{State}
use hemem.Pebs.Heat.{make_hot_request, make_cold_request}
use hemem.Pebs.Scan.{request}
use hemem.Pebs.Invariant.Heard.{hits}

pub total_lem :
    (j : PbufType) (x : Page)
    → x.accesses.dram + x.accesses.nvm + 1 < 2 ^ 64
    → total (count_up j x.accesses) ≡ x.accesses.dram + x.accesses.nvm + 1
total_lem dramread x h = omega arith
total_lem nvmread x h = omega arith

pub hits_dram :
    (j : PbufType) (x : Page)
    → x.accesses.dram + x.accesses.nvm + 1 < 2 ^ 64
    → (count_up j x.accesses).dram ≡ hits j dramread x
hits_dram dramread x h = omega arith
hits_dram nvmread x h = refl

pub hits_nvm :
    (j : PbufType) (x : Page)
    → x.accesses.dram + x.accesses.nvm + 1 < 2 ^ 64
    → (count_up j x.accesses).nvm ≡ hits j nvmread x
hits_nvm dramread x h = refl
hits_nvm nvmread x h = omega arith

module _ {Table : Type 0} where
  -- What `request` does for a page with `n` reads.
  pub record Asked (p n : ℕ) (t t' : State Table) : Type 0 where
    pub hot_ring : t'.pebs.hot_ring ≡ (
        if leb 8 n && not (t.page p).hot && not (t.page p).ring_present
        then Ring.put t.pebs.hot_ring (some p)
        else t.pebs.hot_ring)
    pub cold_ring : t'.pebs.cold_ring ≡ (
        if ltb n 8 && (t.page p).hot && not (t.page p).ring_present
        then Ring.put t.pebs.cold_ring (some p)
        else t.pebs.cold_ring)
    pub rest :
        t'.pebs ≡ record (t.pebs) { hot_ring = t'.pebs.hot_ring; cold_ring = t'.pebs.cold_ring }
    pub pending : (t'.page p).ring_present ≡ (
        (t.page p).ring_present
        || (leb 8 n && not (t.page p).hot && not (t.page p).ring_present)
        || (ltb n 8 && (t.page p).hot && not (t.page p).ring_present))
    pub here : t'.page p ≡ record (t.page p) { ring_present = (t'.page p).ring_present }
    pub others : (q : ℕ) → (q == p) ≡ false → t'.page q ≡ t.page q

  pub request_lem :
      (p n : ℕ) (t : State Table) → total (t.page p).accesses ≡ n → Asked p n t (request p t)
  unfolding request make_hot_request make_cold_request
  request_lem p n t is = elim (Bool-cases (leb 8 n)) [
    | inl many ↦
        let few : ltb n 8 ≡ false = ground arith in
        elim (Bool-cases (not (t.page p).hot && not (t.page p).ring_present)) [
          | inl asks ↦
              rw (is, many, asks)
                (record {
                  hot_ring = rw (many, asks) refl;
                  cold_ring = rw few refl;
                  rest = refl;
                  pending = rw (many, asks, ==_refl) (ground arith);
                  here = rw ==_refl refl;
                  others = λ q ne. rw ne refl;
                })
          | inr quiet ↦
              rw (is, many, quiet)
                (record {
                  hot_ring = rw (many, quiet) refl;
                  cold_ring = rw few refl;
                  rest = refl;
                  pending = rw (many, quiet, few) (ground arith);
                  here = refl;
                  others = λ q ne. refl;
                })
        ]
    | inr less ↦
        let few : ltb n 8 ≡ true = ground arith in
        elim (Bool-cases ((t.page p).hot && not (t.page p).ring_present)) [
          | inl asks ↦
              rw (is, less, asks)
                (record {
                  hot_ring = rw less refl;
                  cold_ring = rw (few, asks) refl;
                  rest = refl;
                  pending = rw (few, asks, ==_refl) (ground arith);
                  here = rw ==_refl refl;
                  others = λ q ne. rw ne refl;
                })
          | inr quiet ↦
              rw (is, less, quiet)
                (record {
                  hot_ring = rw less refl;
                  cold_ring = rw (few, quiet) refl;
                  rest = refl;
                  pending = rw (less, few, quiet) (ground arith);
                  here = refl;
                  others = λ q ne. refl;
                })
        ]
  ]
