-- ===== src/Pebs/Heat.antt =====
-- src/pebs.c: moving a page between the hot and the cold list of its tier, and the requests for it.
use hemem.Prelude.{
  ℕ, Bool, true, false, not, Option, some, ◌==◌, if◌then◌else◌, same_ptr, assert, ◌>>=◌, ◌>>◌,
}
use hemem.Ring
use hemem.Memory.State.{State}
use hemem.Pebs.Lists.{
  dram_hot_list, dram_cold_list, nvm_hot_list, nvm_cold_list, enqueue, remove, list_of, set_hot,
  set_ring_present,
}

module _ {Table : Type 0} where
  unfoldable pub make_hot_request : ℕ → State Table → State Table
  make_hot_request p s =
      let s = set_ring_present p true s in
      record s { pebs = record (s.pebs) { hot_ring = Ring.put s.pebs.hot_ring (some p) } }

  unfoldable pub make_cold_request : ℕ → State Table → State Table
  make_cold_request p s =
      let s = set_ring_present p true s in
      record s { pebs = record (s.pebs) { cold_ring = Ring.put s.pebs.cold_ring (some p) } }

  -- The page is on the list where it belongs already.
  abbrev pub stay : ℕ → ℕ → State Table → Option (State Table)
  stay l p s = do assert (same_ptr (list_of s p) (some l)); some s

  -- The page changes its list and its `hot` flag.
  abbrev pub change : ℕ → ℕ → Bool → ℕ → State Table → Option (State Table)
  change l l' h p s = do
    assert (same_ptr (list_of s p) (some l))
    s ← remove l p s
    enqueue l' p (set_hot p h s)

  unfoldable pub make_hot : ℕ → State Table → Option (State Table)
  make_hot p s = do
    assert (not ((s.page p).va == 0))
    if (s.page p).hot
        then (if (s.page p).in_dram then stay dram_hot_list p s else stay nvm_hot_list p s)
        else (if (s.page p).in_dram
            then change dram_cold_list dram_hot_list true p s
            else change nvm_cold_list nvm_hot_list true p s)

  unfoldable pub make_cold : ℕ → State Table → Option (State Table)
  make_cold p s = do
    assert (not ((s.page p).va == 0))
    if not (s.page p).hot
        then (if (s.page p).in_dram then stay dram_cold_list p s else stay nvm_cold_list p s)
        else (if (s.page p).in_dram
            then change dram_hot_list dram_cold_list false p s
            else change nvm_hot_list nvm_cold_list false p s)
