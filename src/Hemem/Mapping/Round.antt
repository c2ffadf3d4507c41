-- ===== src/Hemem/Mapping/Round.antt =====
-- `PAGE_ROUND_UP` rounds up to a multiple of the page size.
use hemem.Prelude.{ℕ, ◌+◌, ◌*◌, ◌%◌, ◌≤◌, ◌^◌, ◌≡◌, arith}
use hemem.Memory.Page.{hugepage_size}
use hemem.Hemem.Mapping.{page_round_up}

-- `PAGE_ROUND_UP` of a length that leaves room below `2 ^ 64` is the least multiple of the page
-- size that is not below the length.
pub page_round_up_lem :
    (x : ℕ)
    → x + hugepage_size ≤ 2 ^ 64
    → (page_round_up x % hugepage_size ≡ 0)
      × (x ≤ page_round_up x)
      × ((m : ℕ) → x ≤ m * hugepage_size → page_round_up x ≤ m * hugepage_size)
unfolding page_round_up
page_round_up_lem x room = (omega arith, omega arith, λ m h. omega arith)
