-- ===== src/Hemem/Pages.antt =====
-- src/hemem.c: the table of tracked pages, by virtual address.
use hemem.Prelude.{ℕ, Option, some, Ptr, is_null, assert, ◌>>◌}
use hemem.Memory.Kernel.{Env}
use hemem.Memory.State.{State}

module _ (e : Env) where
  unfoldable pub add_page : ℕ → State e.table.Table → Option (State e.table.Table)
  add_page page s = do
    assert (is_null (e.table.find s.pages (s.page page).va))
    some (record s { pages = e.table.add s.pages (s.page page).va page })

  unfoldable pub remove_page : ℕ → State e.table.Table → State e.table.Table
  remove_page page s = record s { pages = e.table.del s.pages page }

  unfoldable pub find_page : ℕ → State e.table.Table → Ptr
  find_page va s = e.table.find s.pages va

  unfoldable pub get_hemem_page : ℕ → State e.table.Table → Ptr
  unfolding find_page
  get_hemem_page va s = find_page va s
