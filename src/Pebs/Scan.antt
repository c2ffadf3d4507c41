-- ===== src/Pebs/Scan.antt =====
-- src/pebs.c: what `pebs_scan_thread` does with one record of a sample buffer. The buffers are the
-- kernel's; a record enters as an event, with the core and the kind of its buffer.
use hemem.Prelude.{
  ℕ, ◌-◌, ◌%◌, true, not, ◌&&◌, Option, none, some, Ptr, ltb, leb, ◌==◌, if◌then◌else◌, update,
  ◌>>=◌, add64, sub64,
}
use hemem.Memory.Page.{PbufType, count_of, count_up, total, shift, hugepage_size}
use hemem.Memory.Kernel.{Env}
use hemem.Memory.State.{State, Pebs, set_page}
use hemem.Hemem.Pages.{get_hemem_page}
use hemem.Pebs.Heat.{make_hot_request, make_cold_request}

abbrev pub hot_read_threshold : ℕ
hot_read_threshold = 8

abbrev pub pebs_cooling_threshold : ℕ
pebs_cooling_threshold = 24

-- `ph->type`, with the address of a sample
pub data Record : Type 0 where
  sample : ℕ → Record
  throttle unthrottle unknown : Record

-- `addr & HUGE_PFN_MASK`
abbrev pub huge_pfn : ℕ → ℕ
huge_pfn addr = addr - addr % hugepage_size

module _ {Table : Type 0} where
  abbrev pub set_pebs : State Table → Pebs → State Table
  set_pebs s b = record s { pebs = b }

  -- `accesses[j]++` and the same for `tot_accesses`
  abbrev pub count_access : PbufType → ℕ → State Table → State Table
  count_access j p s = set_page s p (record (s.page p) {
    accesses = count_up j (s.page p).accesses;
    tot_accesses = count_up j (s.page p).tot_accesses;
  })

  -- The request for the page's list, if its count asks for another one and none is pending.
  unfoldable pub request : ℕ → State Table → State Table
  request p s =
      if leb hot_read_threshold (total (s.page p).accesses)
      then (if not (s.page p).hot && not (s.page p).ring_present then make_hot_request p s else s)
      else (if (s.page p).hot && not (s.page p).ring_present then make_cold_request p s else s)

  -- Both counts are halved once for each cooling that the page has missed.
  unfoldable pub catch_up : ℕ → State Table → Option (State Table)
  catch_up p s = do
    let late = sub64 s.pebs.global_clock (s.page p).local_clock
    d ← shift (s.page p).accesses.dram late
    n ← shift (s.page p).accesses.nvm late
    some (
        set_page s p (record (s.page p) {
          accesses = record { dram = d; nvm = n };
          local_clock = s.pebs.global_clock;
        }))

  unfoldable pub advance_clock : PbufType → ℕ → State Table → State Table
  advance_clock j p s =
      if ltb pebs_cooling_threshold (count_of j (s.page p).accesses)
      then set_pebs s (record (s.pebs) {
        global_clock = add64 s.pebs.global_clock 1;
        cools = add64 s.pebs.cools 1;
        need_cool_dram = true;
        need_cool_nvm = true;
      })
      else s

  -- The counts and the request of a sample in page `p`.
  abbrev pub counted : ℕ → PbufType → ℕ → State Table → State Table
  counted i j p s =
      let s = request p (count_access j p s) in
      set_pebs s (record (s.pebs) {
        accesses_cnt = count_up j s.pebs.accesses_cnt;
        core_accesses_cnt =
            update s.pebs.core_accesses_cnt i (add64 (s.pebs.core_accesses_cnt i) 1);
      })

  -- A sample in a tracked page with an address.
  unfoldable pub scan_page : ℕ → PbufType → ℕ → State Table → Option (State Table)
  scan_page i j p s = do s ← catch_up p (counted i j p s); some (advance_clock j p s)

  abbrev pub count_hemem : State Table → State Table
  count_hemem s = set_pebs s (record (s.pebs) {
    hemem_pages_cnt = add64 s.pebs.hemem_pages_cnt 1;
    total_pages_cnt = add64 s.pebs.total_pages_cnt 1;
  })

  abbrev pub count_other : State Table → State Table
  count_other s = set_pebs s (record (s.pebs) {
    other_pages_cnt = add64 s.pebs.other_pages_cnt 1;
    total_pages_cnt = add64 s.pebs.total_pages_cnt 1;
  })

  unfoldable pub scan_found : ℕ → PbufType → Ptr → State Table → Option (State Table)
  unfolding scan_page
  scan_found i j none s = some (count_other s)
  scan_found i j (some p) s =
      if (s.page p).va == 0
      then some (count_hemem s)
      else do s ← scan_page i j p s; some (count_hemem s)

module _ (e : Env) where
  unfoldable pub scan_record :
      ℕ → PbufType → Record → State e.table.Table → Option (State e.table.Table)
  unfolding scan_found
  scan_record i j (sample addr) s =
      if addr == 0
      then some (set_pebs s (record (s.pebs) { zero_pages_cnt = add64 s.pebs.zero_pages_cnt 1 }))
      else scan_found i j (get_hemem_page e (huge_pfn addr) s) s
  scan_record i j throttle s =
      some (set_pebs s (record (s.pebs) { throttle_cnt = add64 s.pebs.throttle_cnt 1 }))
  scan_record i j unthrottle s =
      some (set_pebs s (record (s.pebs) { unthrottle_cnt = add64 s.pebs.unthrottle_cnt 1 }))
  scan_record i j unknown s = some s
