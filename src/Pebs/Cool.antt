-- ===== src/Pebs/Cool.antt =====
-- src/pebs.c: cooling in place. Each call walks over at most `COOLING_PAGES` pages of a hot list,
-- from where the last call stopped, and moves those that are no longer hot to the cold list.
use hemem.Prelude.{
  ℕ, zero, suc, Bool, true, false, not, Option, none, some, Ptr, is_null, ltb, if◌then◌else◌,
  same_ptr, assert, ◌>>=◌, ◌>>◌, add64, sub64,
}
use hemem.Fifo.{next_page}
use hemem.Memory.Page.{shift}
use hemem.Memory.State.{State}
use hemem.Pebs.Lists.{dram_hot_list, nvm_hot_list, enqueue, remove, list_of, set_hot}
use hemem.Pebs.Scan.{set_pebs, hot_read_threshold}

abbrev pub cooling_pages : ℕ
cooling_pages = 8192

module _ {Table : Type 0} where
  abbrev pub need_cool : Bool → State Table → Bool
  need_cool dram s = if dram then s.pebs.need_cool_dram else s.pebs.need_cool_nvm

  abbrev pub start_page : Bool → State Table → Ptr
  start_page dram s = if dram then s.pebs.start_dram_page else s.pebs.start_nvm_page

  abbrev pub set_start : Bool → Ptr → State Table → State Table
  set_start true p s = set_pebs s (record (s.pebs) { start_dram_page = p })
  set_start false p s = set_pebs s (record (s.pebs) { start_nvm_page = p })

  -- The round is complete: the page from which it set out is reached again.
  abbrev pub end_round : Bool → State Table → State Table
  end_round true s = set_pebs s (record (s.pebs) { start_dram_page = none; need_cool_dram = false })
  end_round false s = set_pebs s (record (s.pebs) { start_nvm_page = none; need_cool_nvm = false })

  -- The counts of a page as they are once the coolings that it missed are made up for.
  unfoldable pub cooled_total : ℕ → State Table → Option ℕ
  unfolding shift
  cooled_total p s = do
    let late = sub64 s.pebs.global_clock (s.page p).local_clock
    d ← shift (s.page p).accesses.dram late
    n ← shift (s.page p).accesses.nvm late
    some (add64 d n)

  -- One round of the loop at page `p`: where the walk goes on, and the new state.
  unfoldable pub cool_page : ℕ → ℕ → Bool → ℕ → State Table → Option (Ptr × State Table)
  unfolding cooled_total
  cool_page hot cold dram p s = do
    assert (if dram then (s.page p).in_dram else not (s.page p).in_dram)
    n ← cooled_total p s
    let s = if ltb n hot_read_threshold then set_hot p false s else s
    let s = if same_ptr (some p) (start_page dram s) then end_round dram s else s
    if not (s.page p).hot
        then (do
          let next = (s.store.link p).next
          s ← remove hot p s
          s ← enqueue cold p s
          some (next, s))
        else some (some p, s)

  unfoldable pub cool_loop : ℕ → ℕ → ℕ → Bool → Ptr → State Table → Option (Ptr × State Table)
  unfolding cool_page
  cool_loop zero hot cold dram current s = some (current, s)
  cool_loop (suc i) hot cold dram current s = do
    o ← next_page hot current s.store
    elim o [
      | none ↦ some (current, s)
      | some p ↦ do (current, s) ← cool_page hot cold dram p s; cool_loop i hot cold dram current s
    ]

  unfoldable pub partial_cool : ℕ → ℕ → Bool → Ptr → State Table → Option (Ptr × State Table)
  partial_cool hot cold dram current s =
      if not (need_cool dram s)
      then some (current, s)
      else let s =
          if is_null (start_page dram s) then set_start dram (s.store.fifo hot).last s else s in
        cool_loop cooling_pages hot cold dram current s

  abbrev pub advance_dram : ℕ → State Table → Option (State Table)
  advance_dram p s =
      if same_ptr (some p) s.pebs.cur_cool_in_dram
      then (do
        assert (same_ptr (list_of s p) (some dram_hot_list))
        o ← next_page dram_hot_list (some p) s.store
        some (set_pebs s (record (s.pebs) { cur_cool_in_dram = o })))
      else some s

  abbrev pub advance_nvm : ℕ → State Table → Option (State Table)
  advance_nvm p s =
      if same_ptr (some p) s.pebs.cur_cool_in_nvm
      then (do
        assert (same_ptr (list_of s p) (some nvm_hot_list))
        o ← next_page nvm_hot_list (some p) s.store
        some (set_pebs s (record (s.pebs) { cur_cool_in_nvm = o })))
      else some s

  -- A page that is about to leave its list is not where the next walk goes on.
  unfoldable pub update_current_cool_page : ℕ → State Table → Option (State Table)
  update_current_cool_page p s = do s ← advance_dram p s; advance_nvm p s
