-- ===== src/Lru/Interface.antt =====
-- The policy of src/policies/lru.c as the policy that src/hemem.c calls (ALLOC_LRU in src/hemem.h),
-- and `lru_init` without the threads.
use hemem.Prelude.{
  ℕ, suc, none, some, ◌+◌, ◌/◌, ◌≤◌, ◌≡◌, refl, ap, ◌∙◌, true, false, Option, Ptr, arith, is_null,
  ◌>>=◌, Returns, mono,
}
use hemem.Fifo.Moves.{entries}
use hemem.Memory.Page.{Page, hugep, page_size}
use hemem.Memory.Kernel.{Env}
use hemem.Memory.State.{State}
use hemem.Hemem.Policy.{Policy, Laws, Given, Returned, Settled}
use hemem.Pebs.Lists.{list_of}
use hemem.Pebs.Init.{add_frames}
use hemem.Lru.Lists.{lru_dram_free_list, lru_nvm_free_list}
use hemem.Lru.Policy.{lru_allocate_page, lru_remove_page}
use hemem.Lru.Invariant.{LruInv, LruFits}
use hemem.Lru.Give.{lru_allocate_page_lem, lru_remove_page_lem}

module _ (e : Env) where
  abbrev S : Type 0
  S = State e.table.Table

  unfoldable pub lru_init : S → Option S
  lru_init s = do
    let fast = e.dramsize / page_size
    let slow = e.nvmsize / page_size
    s ← add_frames true lru_dram_free_list e.dramoffset 0 fast 0 s
    add_frames false lru_nvm_free_list e.nvmoffset fast slow 0 s

  -- `lru_pagefault` is `lru_allocate_page` under the global lock.
  abbrev pub lru_policy : Policy e
  lru_policy = record { pagefault = lru_allocate_page; remove_page = lru_remove_page }

  -- `free` pages are free, and no scan is running.
  pub record LruReady (free room : ℕ) (s : S) : Type 0 where
    pub total : ℕ
    pub inv : LruInv e total s
    pub stock : free ≤ entries s.store lru_dram_free_list + entries s.store lru_nvm_free_list
    pub quiet : s.lru.in_kscand ≡ false

  pub pagefault_Ready :
      (f r : ℕ) (s : S)
      → LruReady (suc f) r s
      → Returns (λ (p, s'). LruReady f r s' × Given p s s') (lru_allocate_page s)
  pagefault_Ready f r s g =
      mono (lru_allocate_page_lem g.inv (omega (arith, g.stock))) λ (p, s') (inv, a). (
        record {
          total = g.total;
          inv = inv;
          stock = ground (
            arith,
            g.stock,
            a.now.count lru_dram_free_list,
            a.now.count lru_nvm_free_list,
            a.was,
          );
          quiet = ap (λ t. t.lru.in_kscand) a.now.rest ∙ g.quiet;
        },
        record {
          fresh = a.unused;
          page = a.now.page;
          pages = ap (λ t. t.pages) a.now.rest;
          stats = ap (λ t. t.stats) a.now.rest;
          calls = ap (λ t. t.calls) a.now.rest;
          cr3_set = ap (λ t. t.cr3_set) a.now.rest;
        },
      )

  pub remove_Ready :
      (f r p : ℕ) (s : S)
      → LruReady f (suc r) s
      → (s.page p).present ≡ true
      → Returns (λ s'. LruReady f r s' × Returned p s s') (lru_remove_page p s)
  remove_Ready f r p s g live =
      mono (lru_remove_page_lem g.inv p g.quiet ((g.inv.fits p).live live)) λ s' (inv, c). (
        record {
          total = g.total;
          inv = inv;
          stock = ground (
            arith,
            g.stock,
            c.count lru_dram_free_list,
            c.count lru_nvm_free_list,
            (g.inv.fits p).used lru_dram_free_list,
            (g.inv.fits p).used lru_nvm_free_list,
          );
          quiet = ap (λ t. t.lru.in_kscand) c.rest ∙ g.quiet;
        },
        record {
          gone = ground (arith, c.page p);
          type = ground (arith, c.page p);
          page = λ q o. ground (arith, c.page q);
          pages = ap (λ t. t.pages) c.rest;
          stats = ap (λ t. t.stats) c.rest;
          calls = ap (λ t. t.calls) c.rest;
        },
      )

  Settled-LruFits :
      (l : Ptr) (pg pg' : Page)
      → pg' ≡ record pg {
        va = pg'.va;
        migrating = pg'.migrating;
        migrations_up = pg'.migrations_up;
        migrations_down = pg'.migrations_down;
      }
      → LruFits e l pg
      → LruFits e l pg'
  Settled-LruFits l pg pg' same f = rw same (record {
    known = f.known;
    tier = f.tier;
    live = f.live;
    used = f.used;
    placed = f.placed;
    huge = f.huge;
  })

  pub Settled-LruReady : (f r : ℕ) (s s' : S) → LruReady f r s → Settled s s' → LruReady f r s'
  Settled-LruReady f r s s' g c = record {
    total = g.total;
    inv = record {
      well = rw c.store g.inv.well;
      count = rw c.store g.inv.count;
      small = g.inv.small;
      fits = λ q.
          rw c.store
            (Settled-LruFits (list_of s q) (s.page q) (s'.page q) (c.page q) (g.inv.fits q));
      apart = λ q r a b d o.
          g.inv.apart q r (ground (arith, c.store)) (ground (arith, c.store))
            (ground (arith, c.page q, c.page r)) (ground (arith, c.page q, c.page r));
    };
    stock = rw c.store g.stock;
    quiet = rw c.lru g.quiet;
  }

  pub LruReady-huge :
      (f r p : ℕ) (s : S) → LruReady f r s → (s.page p).present ≡ true → (s.page p).pt ≡ hugep
  LruReady-huge f r p s g live = go (list_of s p) refl ((g.inv.fits p).live live)
    where
      go : (l : Ptr) → list_of s p ≡ l → is_null l ≡ false → (s.page p).pt ≡ hugep
      go none at_l on = absurd (ground arith)
      go (some l) at_l on = (g.inv.fits p).huge l at_l

  -- What src/hemem.c relies on holds of this policy too.
  unfoldable pub lru_laws : Laws e lru_policy
  lru_laws = record {
    Good = LruReady;
    pagefault_lem = pagefault_Ready;
    remove_page_lem = remove_Ready;
    settle = Settled-LruReady;
    huge = LruReady-huge;
  }
