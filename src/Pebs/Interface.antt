-- ===== src/Pebs/Interface.antt =====
-- The policy of src/pebs.c as the policy that src/hemem.c calls (ALLOC_HEMEM in src/hemem.h).
use hemem.Prelude.{
  ℕ, Ptr, suc, ◌+◌, ◌<◌, ◌≤◌, ◌≡◌, refl, sym, subst, ap, ◌∙◌, true, false, not, Option, some, arith,
  pos, ◌==ℤ◌, assert, ◌>>◌, Returns, returns, mono, check,
}
use hemem.Ring
use hemem.Ring.Bounds.{IsValid, put-IsValid}
use hemem.Ring.Window.{dist}
use hemem.Fifo.Moves.{entries}
use hemem.Memory.Page.{Page, hugep}
use hemem.Memory.Kernel.{Env}
use hemem.Memory.State.{State, Pebs}
use hemem.Hemem.Policy.{Policy, Laws, Given, Returned, Settled}
use hemem.Pebs.Lists.{list_of, dram_free_list, nvm_free_list}
use hemem.Pebs.Alloc.{pebs_pagefault, pebs_remove_page, remove_request, remove_clear}
use hemem.Pebs.Invariant.{Inv, Fits}
use hemem.Pebs.Invariant.Remove.{remove-Inv}
use hemem.Pebs.Invariant.Alloc.{Allocated, pebs_allocate_page_lem}

module _ (e : Env) where
  abbrev S : Type 0
  S = State e.table.Table

  -- `pebs_remove_page` waits while the ring is full.
  unfoldable pub wait_remove : ℕ → S → Option S
  wait_remove p s = do assert (not (Ring.full s.pebs.free_page_ring)); some (pebs_remove_page p s)

  abbrev pub policy : Policy e
  policy = record { pagefault = pebs_pagefault e; remove_page = wait_remove }

  abbrev Space : Pebs → ℕ → Type 0
  Space x room =
      dist x.free_page_ring.capacity x.free_page_ring.tail x.free_page_ring.head + room
      < x.free_page_ring.capacity

  -- No hint is pending, `free` pages are free, and the ring of freed pages has room for `room`.
  pub record Ready (free room : ℕ) (s : S) : Type 0 where
    pub total : ℕ
    pub inv : Inv e total s
    pub stock : free ≤ entries s.store dram_free_list + entries s.store nvm_free_list
    pub unhinted : (s.hint.tier ==ℤ pos 0) ≡ false
    pub ring : IsValid s.pebs.free_page_ring
    pub space : Space s.pebs room

  Allocated-Given : (p : ℕ) (s s' : S) → Allocated s p s' → Given p s s'
  Allocated-Given p s s' a = record {
    fresh = a.unused;
    page = a.now.page;
    pages = ap (λ t. t.pages) a.now.rest;
    stats = ap (λ t. t.stats) a.now.rest;
    calls = ap (λ t. t.calls) a.now.rest;
    cr3_set = ap (λ t. t.cr3_set) a.now.rest;
  }

  pub pebs_pagefault_lem :
      (f r : ℕ) (s : S)
      → Ready (suc f) r s
      → Returns (λ (p, s'). Ready f r s' × Given p s s') (pebs_pagefault e s)
  unfolding pebs_pagefault
  pebs_pagefault_lem f r s g = rw (g.unhinted) (
      mono (pebs_allocate_page_lem g.inv (omega (arith, g.stock))) λ (p, s') (inv, a). (
        record {
          total = g.total;
          inv = inv;
          stock =
              ground (arith, g.stock, a.now.count dram_free_list, a.now.count nvm_free_list, a.was);
          unhinted = ap (λ t. t.hint.tier ==ℤ pos 0) a.now.rest ∙ g.unhinted;
          ring =
              subst (λ (x : Pebs). IsValid x.free_page_ring) (sym (ap (λ t. t.pebs) a.now.rest))
                g.ring;
          space = subst (λ (x : Pebs). Space x r) (sym (ap (λ t. t.pebs) a.now.rest)) g.space;
        },
        Allocated-Given p s s' a,
      ))

  Settled-Fits :
      (l : Ptr) (pg pg' : Page)
      → pg' ≡ record pg {
        va = pg'.va;
        migrating = pg'.migrating;
        migrations_up = pg'.migrations_up;
        migrations_down = pg'.migrations_down;
      }
      → Fits e l pg
      → Fits e l pg'
  Settled-Fits l pg pg' same f = rw same (record {
    known = f.known;
    tier = f.tier;
    live = f.live;
    idle = f.idle;
    placed = f.placed;
    huge = f.huge;
  })

  Settled-Inv : (s s' : S) (n : ℕ) → Inv e n s → Settled s s' → Inv e n s'
  Settled-Inv s s' n inv c = record {
    well = rw c.store inv.well;
    count = rw c.store inv.count;
    small = inv.small;
    fits =
        λ q. rw c.store (Settled-Fits (list_of s q) (s.page q) (s'.page q) (c.page q) (inv.fits q));
    apart = λ q r a b d o.
        inv.apart q r (ground (arith, c.store)) (ground (arith, c.store))
          (ground (arith, c.page q, c.page r)) (ground (arith, c.page q, c.page r));
  }

  pub Settled-Ready : (f r : ℕ) (s s' : S) → Ready f r s → Settled s s' → Ready f r s'
  Settled-Ready f r s s' g c = record {
    total = g.total;
    inv = Settled-Inv s s' g.total g.inv c;
    stock = rw c.store g.stock;
    unhinted = rw c.hint g.unhinted;
    ring = rw c.pebs g.ring;
    space = rw c.pebs g.space;
  }

  pub Ready-huge :
      (f r p : ℕ) (s : S) → Ready f r s → (s.page p).present ≡ true → (s.page p).pt ≡ hugep
  Ready-huge f r p s g live = (g.inv.fits p).huge _ ((g.inv.fits p).live live)

  remove-Ready :
      (f r p : ℕ) (s : S)
      → Ready f (suc r) s
      → Ring.full s.pebs.free_page_ring ≡ false
      → Ready f r (pebs_remove_page p s)
  unfolding pebs_remove_page remove_request remove_clear Ring.put Ring.full
  remove-Ready f r p s g room = record {
    total = g.total;
    inv = remove-Inv p g.inv;
    stock = g.stock;
    unhinted = g.unhinted;
    ring = put-IsValid s.pebs.free_page_ring (some p) g.ring;
    space = ground (arith, g.space, g.ring);
  }

  remove-Returned : (p : ℕ) (s : S) → Returned p s (pebs_remove_page p s)
  unfolding pebs_remove_page remove_request remove_clear
  remove-Returned p s = record {
    gone = ground arith;
    type = ground arith;
    page = λ q o. ground arith;
    pages = refl;
    stats = refl;
    calls = refl;
  }

  has_room : (f r : ℕ) (s : S) → Ready f (suc r) s → Ring.full s.pebs.free_page_ring ≡ false
  unfolding Ring.full
  has_room f r s g = ground (arith, g.space, g.ring)

  pub wait_remove_lem :
      (f r p : ℕ) (s : S)
      → Ready f (suc r) s
      → (s.page p).present ≡ true
      → Returns (λ s'. Ready f r s' × Returned p s s') (wait_remove p s)
  unfolding wait_remove
  wait_remove_lem f r p s g live =
      let room = has_room f r s g in
      check (not (Ring.full s.pebs.free_page_ring)) (rw room refl)
        (returns (remove-Ready f r p s g room, remove-Returned p s))

  unfoldable pub pebs_laws : Laws e policy
  pebs_laws = record {
    Good = Ready;
    pagefault_lem = pebs_pagefault_lem;
    remove_page_lem = wait_remove_lem;
    settle = Settled-Ready;
    huge = Ready-huge;
  }
