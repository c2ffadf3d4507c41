-- ===== src/Pebs/Invariant/Exchange.antt =====
-- The exchange of frames between a page that migrates and a free page keeps the invariant.
use hemem.Prelude.{
  ℕ, ◌≡◌, refl, Bool, Bool-cases, inl, inr, true, false, not, ◌==◌, eq_of_==, if◌then◌else◌, arith,
}
use hemem.Memory.Page.{Page, PageType, hugep, no_counts, pt_to_pagesize}
use hemem.Memory.Kernel.{Env}
use hemem.Memory.State.{State}
use hemem.Hemem.Migrate.Spec.{OnDevice}
use hemem.Pebs.Invariant.{Placed}
use hemem.Pebs.Invariant.Off.{InvOff, kept}

-- Page `p` is in tier `d` now, in the frame that page `np` had, and `np` is cleared and has the
-- frame of `p`; the lists, the table, the hints, the policy's variables and the other pages are as
-- they were.
pub record Exchanged {Table : Type 0} (d : Bool) (p np : ℕ) (s s' : State Table) : Type 0 where
  pub store : s'.store ≡ s.store
  pub pebs : s'.pebs ≡ s.pebs
  pub hint : s'.hint ≡ s.hint
  pub pages : s'.pages ≡ s.pages
  pub others : (q : ℕ) → (q == p) ≡ false → (q == np) ≡ false → s'.page q ≡ s.page q
  pub moved : s'.page p ≡ record (s.page p) {
    migrating = false;
    in_dram = d;
    devdax_offset = (s.page np).devdax_offset;
    migrations_up = (s'.page p).migrations_up;
    migrations_down = (s'.page p).migrations_down;
  }
  pub freed : s'.page np ≡ record (s.page np) {
    devdax_offset = (s.page p).devdax_offset;
    in_dram = not d;
    present = false;
    hot = false;
    accesses = no_counts;
    tot_accesses = no_counts;
  }

-- A placed page has its frame on the device of its tier.
pub Placed-frame :
    (e : Env) (pg : Page) (d : Bool) (t : PageType)
    → Placed e pg
    → d ≡ pg.in_dram
    → t ≡ pg.pt
    → OnDevice pg.devdax_offset
        (if d then e.dramoffset else e.nvmoffset)
        (if d then e.dramsize else e.nvmsize)
        (pt_to_pagesize t)
Placed-frame e pg d t on tier type = rw (tier, type) on

module _ {e : Env} {n k : ℕ} {off : ℕ → Bool} {s : State e.table.Table} (p np : ℕ) (d : Bool)
    (inv : InvOff e n k off s) (off_p : off p ≡ true) (off_np : off np ≡ true)
    (differ : (p == np) ≡ false) (from : (s.page p).in_dram ≡ not d)
    (into : (s.page np).in_dram ≡ d) where
  abbrev swap : ℕ → ℕ
  swap q = if q == p then np else if q == np then p else q

  -- A page has now the frame of the page that it is swapped with.
  frame-swap :
      (s' : State e.table.Table) (q : ℕ)
      → Exchanged d p np s s'
      → ((s'.page q).in_dram ≡ (s.page (swap q)).in_dram)
        × ((s'.page q).devdax_offset ≡ (s.page (swap q)).devdax_offset)
  frame-swap s' q x = elim (Bool-cases (q == p)) [
    | inl is ↦ rw (is, eq_of_== q p is) (ground (arith, x.moved, into), ground (arith, x.moved))
    | inr ne ↦ elim (Bool-cases (q == np)) [
      | inl is ↦
          rw (ne, is, eq_of_== q np is) (ground (arith, x.freed, from), ground (arith, x.freed))
      | inr other ↦ rw (ne, other, x.others q ne other) (refl, refl)
    ]
  ]

  kept-swap :
      (s' : State e.table.Table) (q : ℕ)
      → Exchanged d p np s s'
      → kept off s' q ≡ true
      → kept off s (swap q) ≡ true
  kept-swap s' q x h = ground (arith, x.store, off_p, off_np)

  framed-exchange :
      (s' : State e.table.Table) (q : ℕ)
      → Exchanged d p np s s'
      → off q ≡ true
      → Placed e (s'.page q) × ((s'.page q).pt ≡ hugep)
  framed-exchange s' q x h = elim (Bool-cases (q == p)) [
    | inl is ↦
        let f = inv.framed np off_np in
        let t = (inv.framed p off_p).1 in
        rw (eq_of_== q p is, x.moved)
          (Placed-frame e (s.page np) d (s.page p).pt f.0 (ground arith) (ground (arith, f.1)), t)
    | inr ne ↦ elim (Bool-cases (q == np)) [
      | inl is ↦
          let f = inv.framed p off_p in
          let t = (inv.framed np off_np).1 in
          rw (eq_of_== q np is, x.freed)
            (
              Placed-frame e (s.page p) (not d) (s.page np).pt f.0 (ground arith)
                  (ground (arith, f.1)),
              t,
            )
      | inr other ↦ rw (x.others q ne other) (inv.framed q h)
    ]
  ]

  pub Exchanged-InvOff : (s' : State e.table.Table) → Exchanged d p np s s' → InvOff e n k off s'
  Exchanged-InvOff s' x = record {
    well = rw x.store inv.well;
    count = rw x.store inv.count;
    small = inv.small;
    fits = λ q h.
        let a : (q == p) ≡ false = ground arith in
        let b : (q == np) ≡ false = ground arith in rw (x.store, x.others q a b) (inv.fits q h);
    loose = λ q h. rw x.store (inv.loose q h);
    framed = λ q h. framed-exchange s' q x h;
    apart = λ q r a b t o.
        let same : swap q ≡ swap r =
          inv.apart (swap q) (swap r) (kept-swap s' q x a) (kept-swap s' r x b)
            (ground (arith, (frame-swap s' q x).0, (frame-swap s' r x).0))
            (ground (arith, (frame-swap s' q x).1, (frame-swap s' r x).1)) in
        ground (arith, same);
  }
