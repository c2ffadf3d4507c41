-- ===== src/Hemem/Tracked.antt =====
-- The invariant of the table of pages: the pages in use are those it finds, each under its own
-- address, a multiple of the page size.
use hemem.Prelude.{ℕ, ◌%◌, ◌≡◌, ◌≢◌, true, some}
use hemem.Memory.Page.{hugepage_size}
use hemem.Memory.Kernel.{Env}
use hemem.Memory.State.{State}

module _ (e : Env) where
  pub record Tracked (s : State e.table.Table) : Type 0 where
    pub held :
        (va p : ℕ)
        → va ≢ 0
        → e.table.find s.pages va ≡ some p
        → ((s.page p).present ≡ true) × ((s.page p).va ≡ va)
    pub known : (p : ℕ) → (s.page p).present ≡ true → e.table.find s.pages (s.page p).va ≡ some p
    pub mapped : (p : ℕ) → (s.page p).present ≡ true → (s.page p).va ≢ 0
    pub aligned : (p : ℕ) → (s.page p).present ≡ true → (s.page p).va % hugepage_size ≡ 0
