-- ===== src/Pebs/Lists.antt =====
-- src/pebs.c: the six lists, and the list functions of src/fifo.c on the global state.
use hemem.Prelude.{ℕ, Bool, Option, some, Ptr, ltb, ◌>>=◌, if◌then◌else◌}
use hemem.Fifo.{enqueue_fifo, dequeue_fifo, page_list_remove_page}
use hemem.Memory.State.{State, set_store, set_page}

abbrev pub dram_hot_list : ℕ
dram_hot_list = 0

abbrev pub dram_cold_list : ℕ
dram_cold_list = 1

abbrev pub dram_free_list : ℕ
dram_free_list = 2

abbrev pub nvm_hot_list : ℕ
nvm_hot_list = 3

abbrev pub nvm_cold_list : ℕ
nvm_cold_list = 4

abbrev pub nvm_free_list : ℕ
nvm_free_list = 5

-- The free list of a tier, and the list of an allocated page.
abbrev pub free_list_of : Bool → ℕ
free_list_of in_dram = if in_dram then dram_free_list else nvm_free_list

abbrev pub home : Bool → Bool → ℕ
home in_dram hot =
    if in_dram
    then (if hot then dram_hot_list else dram_cold_list)
    else (if hot then nvm_hot_list else nvm_cold_list)

abbrev pub is_dram_list : ℕ → Bool
is_dram_list l = ltb l nvm_hot_list

module _ {Table : Type 0} where
  unfoldable pub enqueue : ℕ → ℕ → State Table → Option (State Table)
  enqueue l p s = do m ← enqueue_fifo l p s.store; some (set_store s m)

  unfoldable pub dequeue : ℕ → State Table → Option (Ptr × State Table)
  dequeue l s = do (o, m) ← dequeue_fifo l s.store; some (o, set_store s m)

  unfoldable pub remove : ℕ → ℕ → State Table → Option (State Table)
  remove l p s = do m ← page_list_remove_page l p s.store; some (set_store s m)

  abbrev pub list_of : State Table → ℕ → Ptr
  list_of s p = (s.store.link p).list

  abbrev pub set_hot : ℕ → Bool → State Table → State Table
  set_hot p b s = set_page s p (record (s.page p) { hot = b })

  abbrev pub set_ring_present : ℕ → Bool → State Table → State Table
  set_ring_present p b s = set_page s p (record (s.page p) { ring_present = b })
