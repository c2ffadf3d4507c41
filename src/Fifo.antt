-- ===== src/Fifo.antt =====
-- src/fifo.c: the doubly linked lists of pages. The list fields of `struct hemem_page` (`next`,
-- `prev`, `list`) are kept in a `Link` beside the page's other fields, and a `struct fifo_list` is
-- named by its address. The lock of a list is held from the first to the last statement of each
-- function, so a call is one step. `none` is a failed `assert`.
pub mod Seg
pub mod Rep
pub mod Insert
pub mod Removed
pub mod Unlink
pub mod Moves
mod Tests
use hemem.Prelude.{
  ℕ, ◌-◌, Bool, Option, none, some, ltb, ◌==◌, if◌then◌else◌, Ptr, is_null, same_ptr, update,
  assert, ◌>>=◌, ◌>>◌, add64,
}

pub record Link : Type 0 where
  pub next : Ptr
  pub prev : Ptr
  pub list : Ptr

-- `struct fifo_list`
pub record FifoList : Type 0 where
  pub first : Ptr
  pub last : Ptr
  pub numentries : ℕ

-- The memory that the functions work on: the links of every page, and every list.
pub record Store : Type 0 where
  pub link : ℕ → Link
  pub fifo : ℕ → FifoList

abbrev pub set_link : Store → ℕ → Link → Store
set_link s p x = record s { link = update s.link p x }

abbrev pub set_fifo : Store → ℕ → FifoList → Store
set_fifo s l x = record s { fifo = update s.fifo l x }

-- The `if` of `enqueue_fifo` on `queue->first`.
unfoldable pub link_first : Ptr → ℕ → ℕ → Store → Option Store
link_first (some f) l entry s = do
  assert (is_null (s.link f).prev)
  some (set_link s f (record (s.link f) { prev = some entry }))
link_first none l entry s = do
  assert (is_null (s.fifo l).last)
  assert ((s.fifo l).numentries == 0)
  some (set_fifo s l (record (s.fifo l) { last = some entry }))

unfoldable pub enqueue_fifo : ℕ → ℕ → Store → Option Store
unfolding link_first
enqueue_fifo l entry s = do
  assert (is_null (s.link entry).prev)
  let s = set_link s entry (record (s.link entry) { next = (s.fifo l).first })
  s ← link_first (s.fifo l).first l entry s
  let s = set_fifo s l (record (s.fifo l) { first = some entry })
  let s = set_link s entry (record (s.link entry) { list = some l })
  some (set_fifo s l (record (s.fifo l) { numentries = add64 (s.fifo l).numentries 1 }))

-- `queue->last = ret->prev` and the `if` behind it.
unfoldable pub drop_last : Ptr → ℕ → Store → Store
drop_last (some b) l s =
    let s = set_fifo s l (record (s.fifo l) { last = some b }) in
    set_link s b (record (s.link b) { next = none })
drop_last none l s = set_fifo s l (record (s.fifo l) { last = none; first = none })

unfoldable pub dequeue_entry : Ptr → ℕ → Store → Option (Ptr × Store)
unfolding drop_last
dequeue_entry none l s = some (none, s)
dequeue_entry (some ret) l s = do
  let s = drop_last (s.link ret).prev l s
  let s = set_link s ret (record { next = none; prev = none; list = none })
  assert (ltb 0 (s.fifo l).numentries)
  some (some ret, set_fifo s l (record (s.fifo l) { numentries = (s.fifo l).numentries - 1 }))

unfoldable pub dequeue_fifo : ℕ → Store → Option (Ptr × Store)
unfolding dequeue_entry
dequeue_fifo l s = dequeue_entry (s.fifo l).last l s

-- `if (list->first == page) list->first = page->next;`, and the same for `last` and `prev`
abbrev pub move_ends : ℕ → ℕ → Store → Store
move_ends l page s = set_fifo s l (record (s.fifo l) {
  first = if same_ptr (s.fifo l).first (some page) then (s.link page).next else (s.fifo l).first;
  last = if same_ptr (s.fifo l).last (some page) then (s.link page).prev else (s.fifo l).last;
})

-- `if (page->next != NULL) page->next->prev = page->prev;`
unfoldable pub set_prev : Ptr → Ptr → Store → Store
set_prev none v s = s
set_prev (some p) v s = set_link s p (record (s.link p) { prev = v })

-- `if (page->prev != NULL) page->prev->next = page->next;`
unfoldable pub set_next : Ptr → Ptr → Store → Store
set_next none v s = s
set_next (some p) v s = set_link s p (record (s.link p) { next = v })

unfoldable pub page_list_remove_page : ℕ → ℕ → Store → Option Store
unfolding set_prev set_next
page_list_remove_page l page s =
    if is_null (s.fifo l).first
    then (do assert (is_null (s.fifo l).last); assert ((s.fifo l).numentries == 0); some s)
    else do
      let s = move_ends l page s
      let s = set_prev (s.link page).next (s.link page).prev s
      let s = set_next (s.link page).prev (s.link page).next s
      assert (ltb 0 (s.fifo l).numentries)
      let s = set_fifo s l (record (s.fifo l) { numentries = (s.fifo l).numentries - 1 })
      some (set_link s page (record { next = none; prev = none; list = none }))

unfoldable pub next_page : ℕ → Ptr → Store → Option Ptr
next_page l none s = some (s.fifo l).last
next_page l (some page) s = do
  assert (same_ptr (s.link page).list (some l))
  some (s.link page).prev
