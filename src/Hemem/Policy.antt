-- ===== src/Hemem/Policy.antt =====
-- The functions of a placement policy that src/hemem.h names `pagefault` and `mmgr_remove`, as an
-- interface, with what src/hemem.c relies on.
use hemem.Prelude.{ℕ, suc, ◌≡◌, true, false, Option, ◌==◌, if◌then◌else◌, Returns}
use hemem.Memory.Page.{hugep}
use hemem.Memory.Kernel.{Env}
use hemem.Memory.State.{State}

-- `remove_page` is `none` also where the code waits for another thread to make room.
pub record Policy (e : Env) : Type 0 where
  pub pagefault : State e.table.Table → Option (ℕ × State e.table.Table)
  pub remove_page : ℕ → State e.table.Table → Option (State e.table.Table)

module _ {Table : Type 0} where
  -- Page `p` was not in use and is in use now; no other page changed, and no variable of
  -- src/hemem.c.
  pub record Given (p : ℕ) (s s' : State Table) : Type 0 where
    pub fresh : (s.page p).present ≡ false
    pub page :
        (q : ℕ) → s'.page q ≡ (if q == p then record (s.page p) { present = true } else s.page q)
    pub pages : s'.pages ≡ s.pages
    pub stats : s'.stats ≡ s.stats
    pub calls : s'.calls ≡ s.calls
    pub cr3_set : s'.cr3_set ≡ s.cr3_set

  -- Page `p` is no longer in use; no other page changed, and no variable of src/hemem.c.
  pub record Returned (p : ℕ) (s s' : State Table) : Type 0 where
    pub gone : (s'.page p).present ≡ false
    pub type : (s'.page p).pt ≡ (s.page p).pt
    pub page : (q : ℕ) → (q == p) ≡ false → s'.page q ≡ s.page q
    pub pages : s'.pages ≡ s.pages
    pub stats : s'.stats ≡ s.stats
    pub calls : s'.calls ≡ s.calls

  -- Nothing changed that a policy owns.
  pub record Settled (s s' : State Table) : Type 0 where
    pub store : s'.store ≡ s.store
    pub pebs : s'.pebs ≡ s.pebs
    pub lru : s'.lru ≡ s.lru
    pub simple : s'.simple ≡ s.simple
    pub hint : s'.hint ≡ s.hint
    pub page :
        (q : ℕ)
        → s'.page q ≡ record (s.page q) {
          va = (s'.page q).va;
          migrating = (s'.page q).migrating;
          migrations_up = (s'.page q).migrations_up;
          migrations_down = (s'.page q).migrations_down;
        }

-- `Good f r s`: the policy can give `f` pages and take back `r` pages.
pub record Laws (e : Env) (policy : Policy e) : Type 1 where
  pub Good : ℕ → ℕ → State e.table.Table → Type 0
  pub pagefault_lem :
      (f r : ℕ) (s : State e.table.Table)
      → Good (suc f) r s
      → Returns (λ (p, s'). Good f r s' × Given p s s') (policy.pagefault s)
  pub remove_page_lem :
      (f r p : ℕ) (s : State e.table.Table)
      → Good f (suc r) s
      → (s.page p).present ≡ true
      → Returns (λ s'. Good f r s' × Returned p s s') (policy.remove_page p s)
  pub settle : (f r : ℕ) (s s' : State e.table.Table) → Good f r s → Settled s s' → Good f r s'
  pub huge :
      (f r p : ℕ) (s : State e.table.Table)
      → Good f r s
      → (s.page p).present ≡ true
      → (s.page p).pt ≡ hugep
