-- ===== src/Memory/Kernel.antt =====
-- What HeMem asks of the kernel, of the userfaultfd device and of uthash. None of these is the
-- program's own code, so they are parameters: the kernel answers a call as it likes, given all the
-- calls before it, and the hash table is a type with the laws of its documentation.
use hemem.Prelude.{ℕ, ◌≡◌, Bool, Option, none, some, List, Ptr, ◌==◌, if◌then◌else◌, same_ptr}

pub data Call : Type 0 where
  -- libc_mmap with MAP_FIXED: address, length, file, offset
  mmap_fixed : ℕ → ℕ → ℕ → ℕ → Call
  -- libc_mmap of a new region: address, length, protection, flags, file, offset
  mmap_region : ℕ → ℕ → ℕ → ℕ → ℕ → ℕ → Call
  munmap : ℕ → ℕ → Call
  -- UFFDIO_REGISTER: start and length
  uffd_register : ℕ → ℕ → Call
  -- UFFDIO_WRITEPROTECT: start, length, and whether writes are stopped
  uffd_writeprotect : ℕ → ℕ → Bool → Call
  -- UFFDIO_DMA_COPY: source, destination, length
  uffd_dma_copy : ℕ → ℕ → ℕ → Call
  -- UFFDIO_WAKE: start and length
  uffd_wake : ℕ → ℕ → Call
  -- UFFDIO_CR3, which tells the page table's root
  uffd_cr3 : Call
  -- UFFDIO_GET_FLAG and UFFDIO_CLEAR_FLAG: the address whose accessed and dirty bits are meant
  uffd_get_flag : ℕ → Call
  uffd_clear_flag : ℕ → Call
  -- UFFDIO_TLBFLUSH: start and length
  uffd_tlbflush : ℕ → ℕ → Call

pub data Errno : Type 0 where
  ebadf enoent eagain other : Errno

pub data Reply : Type 0 where
  ok : ℕ → Reply
  fail : Errno → Reply

-- What is read of a reply where the code goes on only after a success.
abbrev pub answer : Reply → Option ℕ
answer (ok v) = some v
answer (fail _) = none

-- The answer to a call, after the calls in the list, the latest first.
abbrev pub Os : Type 0
Os = List Call → Call → Reply

-- What a reply tells.
abbrev pub told : Reply → ℕ
told (ok v) = v
told (fail _) = 0

-- What a call returns when it succeeds and tells `v`: a fixed mapping its address, an ioctl that
-- only acts 0. A mapping without MAP_FIXED tells an address that the kernel chooses, and UFFDIO_CR3
-- the root that it writes in its argument.
abbrev pub result : ℕ → Call → ℕ
result v (mmap_fixed addr len fd off) = addr
result v (mmap_region addr len prot flags fd off) = v
result v (munmap a b) = 0
result v (uffd_register a b) = 0
result v (uffd_writeprotect a b w) = 0
result v (uffd_dma_copy a b n) = 0
result v (uffd_wake a b) = 0
result v uffd_cr3 = v
result v (uffd_get_flag a) = 0
result v (uffd_clear_flag a) = 0
result v (uffd_tlbflush a b) = 0

-- A kernel on which every call succeeds.
abbrev pub Serves : Os → Type 0
Serves os = (before : List Call) (c : Call) → os before c ≡ ok (result (told (os before c)) c)

-- `HASH_FIND`, `HASH_ADD` and `HASH_DEL` on `pages`, keyed by the address `va` of a page.
pub record PageTable : Type 1 where
  pub Table : Type 0
  pub empty : Table
  pub find : Table → ℕ → Ptr
  pub add : Table → ℕ → ℕ → Table
  pub del : Table → ℕ → Table
  pub find-empty : (k : ℕ) → find empty k ≡ none
  pub find-add :
      (t : Table) (k page q : ℕ)
      → find t k ≡ none
      → find (add t k page) q ≡ (if q == k then some page else find t q)
  pub find-del :
      (t : Table) (page q : ℕ)
      → find (del t page) q ≡ (if same_ptr (find t q) (some page) then none else find t q)

-- The machine: sizes and places of the two devices, the kernel and the hash table.
pub record Env : Type 1 where
  pub dramsize : ℕ
  pub nvmsize : ℕ
  pub dramoffset : ℕ
  pub nvmoffset : ℕ
  pub dramfd : ℕ
  pub nvmfd : ℕ
  pub dram_devdax_mmap : ℕ
  pub nvm_devdax_mmap : ℕ
  pub os : Os
  pub table : PageTable
