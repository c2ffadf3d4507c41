-- ===== src/Pebs/Invariant/Heard.antt =====
-- What a sample in a page of the program tells the policy.
use hemem.Prelude.{
  ℕ, ◌+◌, ◌^◌, ◌/◌, ◌≡◌, Bool, false, not, ◌&&◌, ◌||◌, some, ltb, leb, ◌==◌, add64, if◌then◌else◌,
}
use hemem.Ring
use hemem.Memory.Page.{Page, PbufType, dramread, nvmread}
use hemem.Memory.State.{State}
use hemem.Pebs.Invariant.Sampling.{late}

-- The reads of kind `k` that are counted for a page once one of kind `j` has come.
abbrev pub hits : PbufType → PbufType → Page → ℕ
hits dramread dramread x = x.accesses.dram + 1
hits dramread nvmread x = x.accesses.nvm
hits nvmread dramread x = x.accesses.dram
hits nvmread nvmread x = x.accesses.nvm + 1

-- With the new read, 8 or more make a cold page hot, and fewer make a hot one cold, unless a request
-- is pending.
abbrev pub warms : Page → Bool
warms x = leb 8 (x.accesses.dram + x.accesses.nvm + 1) && not x.hot && not x.ring_present

abbrev pub cools : Page → Bool
cools x = ltb (x.accesses.dram + x.accesses.nvm + 1) 8 && x.hot && not x.ring_present

module _ {Table : Type 0} where
  -- More than 24 reads of the kind `j` are left once the coolings that the page missed are made up.
  abbrev pub crowded : PbufType → ℕ → State Table → Bool
  crowded j p s = ltb 24 (hits j j (s.page p) / 2 ^ late p s)

  -- A read of kind `j` in page `p`.
  pub record Heard (j : PbufType) (p : ℕ) (s s' : State Table) : Type 0 where
    -- the counts are halved once for each cooling that the page missed
    pub dram : (s'.page p).accesses.dram ≡ hits j dramread (s.page p) / 2 ^ late p s
    pub nvm : (s'.page p).accesses.nvm ≡ hits j nvmread (s.page p) / 2 ^ late p s
    pub caught_up : (s'.page p).local_clock ≡ s.pebs.global_clock
    -- a page with the wrong heat is asked for once
    pub hot_ring :
        s'.pebs.hot_ring
        ≡ (if warms (s.page p) then Ring.put s.pebs.hot_ring (some p) else s.pebs.hot_ring)
    pub cold_ring :
        s'.pebs.cold_ring
        ≡ (if cools (s.page p) then Ring.put s.pebs.cold_ring (some p) else s.pebs.cold_ring)
    pub pending :
        (s'.page p).ring_present ≡ ((s.page p).ring_present || warms (s.page p) || cools (s.page p))
    -- a crowded page starts a cooling of both tiers
    pub clock :
        s'.pebs.global_clock
        ≡ (if crowded j p s then add64 s.pebs.global_clock 1 else s.pebs.global_clock)
    pub cool_dram : s'.pebs.need_cool_dram ≡ (crowded j p s || s.pebs.need_cool_dram)
    pub cool_nvm : s'.pebs.need_cool_nvm ≡ (crowded j p s || s.pebs.need_cool_nvm)
    -- nothing else of the policy's
    pub free_ring : s'.pebs.free_page_ring ≡ s.pebs.free_page_ring
    pub others : (q : ℕ) → (q == p) ≡ false → s'.page q ≡ s.page q

  -- No page, request or clock is touched.
  pub record Unheard (s s' : State Table) : Type 0 where
    pub page : s'.page ≡ s.page
    pub hot_ring : s'.pebs.hot_ring ≡ s.pebs.hot_ring
    pub cold_ring : s'.pebs.cold_ring ≡ s.pebs.cold_ring
    pub free_ring : s'.pebs.free_page_ring ≡ s.pebs.free_page_ring
    pub clock : s'.pebs.global_clock ≡ s.pebs.global_clock
    pub cool_dram : s'.pebs.need_cool_dram ≡ s.pebs.need_cool_dram
    pub cool_nvm : s'.pebs.need_cool_nvm ≡ s.pebs.need_cool_nvm
