-- ===== src/Simple/Invariant.antt =====
-- What holds of the pages, free lists and counters of src/policies/simple.c between its calls.
use hemem.Prelude.{
  ℕ, ◌+◌, ◌*◌, ◌<◌, ◌≤◌, ◌^◌, ◌≡◌, Bool, true, not, none, some, List, ◌==◌, ◌&&◌, if◌then◌else◌,
  length, elem, Distinct,
}
use hemem.Fifo.Moves.{IsWell, entries}
use hemem.Memory.Page.{Page, page_size}
use hemem.Memory.Kernel.{Env}
use hemem.Memory.State.{State}
use hemem.Pebs.Lists.{list_of}
use hemem.Simple.{simple_dram_free, simple_nvm_free}

abbrev pub free_of : Bool → ℕ
free_of d = if d then simple_dram_free else simple_nvm_free

abbrev pub counter : {Table : Type 0} → Bool → State Table → ℕ
counter d s = if d then s.simple.fastmem else s.simple.slowmem

abbrev pub in_tier : Bool → Page → Bool
in_tier d x = x.present && (if d then x.in_dram else not x.in_dram)

-- The pages in use of each tier are those of a list without repetition; they are on no list, and
-- the counters count their bytes. The free ones are on the list of their tier, and both together
-- fit the device.
pub record SimpleInv (e : Env) (s : State e.table.Table) : Type 0 where
  pub well : IsWell s.store
  pub used : Bool → List ℕ
  pub distinct : (d : Bool) → Distinct (used d)
  pub in_use : (d : Bool) (q : ℕ) → elem q (used d) ≡ in_tier d (s.page q)
  pub busy : (q : ℕ) → (s.page q).present ≡ true → list_of s q ≡ none
  pub tier : (q l : ℕ) → list_of s q ≡ some l → l ≡ free_of (s.page q).in_dram
  pub bytes : (d : Bool) → counter d s ≡ length (used d) * page_size
  pub fits :
      (d : Bool)
      → (length (used d) + entries s.store (free_of d)) * page_size
        ≤ (if d then e.dramsize else e.nvmsize)
  pub small : (d : Bool) → (if d then e.dramsize else e.nvmsize) < 2 ^ 64

abbrev pub agrees : Bool → Bool → Bool
agrees d c = if d then c else not c

-- Page `p` of tier `d` is in use and was not, its bytes are counted, and no other page changed.
pub record Gave {Table : Type 0} (d : Bool) (p : ℕ) (s s' : State Table) : Type 0 where
  pub was : list_of s p ≡ some (free_of d)
  pub page :
      (q : ℕ) → s'.page q ≡ (if q == p then record (s.page q) { present = true } else s.page q)
  pub place : (q : ℕ) → list_of s' q ≡ (if q == p then none else list_of s q)
  pub bytes : (c : Bool) → counter c s' ≡ counter c s + (if agrees d c then page_size else 0)
