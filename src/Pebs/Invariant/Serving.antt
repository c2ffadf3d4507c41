-- ===== src/Pebs/Invariant/Serving.antt =====
-- The requests of the sampling thread, as the policy thread serves them.
use hemem.Prelude.{
  ℕ, ◌≡◌, ◌≢◌, refl, ap, Bool, Bool-cases, inl, inr, true, false, Option, some, same_ptr, ◌==◌,
  ◌&&◌, if◌then◌else◌, arith, ==_refl, eq_of_==, Returns, returns, bind, check,
}
use hemem.Memory.Page.{Page}
use hemem.Memory.Kernel.{Env}
use hemem.Memory.State.{State}
use hemem.Pebs.Lists.{list_of, free_list_of, home, set_ring_present}
use hemem.Pebs.Policy.{serve}
use hemem.Pebs.Invariant.{Inv}
use hemem.Pebs.Invariant.Change.{Changed}
use hemem.Pebs.Invariant.Cursor.{Cursors, update_current_cool_page_lem}
use hemem.Pebs.Invariant.Freeing.{Walked, Walked-trans, Aside-Inv}

-- `make` gives a page in use, with an address, the heat `h`.
abbrev pub Makes :
    (e : Env) → ℕ → Bool → (ℕ → State e.table.Table → Option (State e.table.Table)) → Type 0
Makes e n h make =
    (p : ℕ) (s : State e.table.Table)
    → Inv e n s
    → (s.page p).present ≡ true
    → (s.page p).va ≢ 0
    → Returns (λ s'. Inv e n s' × Changed p h s s') (make p s)

-- The page has the heat `h` and no request is pending.
abbrev pub answered : Bool → Page → Page
answered h x = record x { ring_present = false; hot = h }

module _ {Table : Type 0} where
  -- A request may be served: the page is in use and has an address, or is on its free list again.
  pub record Servable (p : ℕ) (s : State Table) : Type 0 where
    pub mapped : (s.page p).present ≡ true → (s.page p).va ≢ 0
    pub freed : (s.page p).present ≡ false → list_of s p ≡ some (free_list_of (s.page p).in_dram)

  pub record Served (h : Bool) (p : ℕ) (s s' : State Table) : Type 0 where
    pub cursors : Cursors s'
    pub page :
        (q : ℕ)
        → s'.page q ≡ (if (q == p) && (s.page p).present then answered h (s.page q) else s.page q)
    pub place :
        (q : ℕ)
        → list_of s' q ≡ (
            if (q == p) && (s.page p).present
            then some (home (s.page p).in_dram h)
            else list_of s q)
    pub pebs : Walked s.pebs s'.pebs

module _ {e : Env} {n : ℕ} where
  -- The invariant of the lists does not read whether a request is pending.
  pending-Inv :
      (p : ℕ) (b : Bool) (s : State e.table.Table) → Inv e n s → Inv e n (set_ring_present p b s)
  pending-Inv p b s inv = record {
    well = inv.well;
    count = inv.count;
    small = inv.small;
    fits = λ q. elim (Bool-cases (q == p)) [
      | inl is ↦
          let f = inv.fits p in
          rw (is, eq_of_== q p is)
            (record {
              known = f.known;
              tier = f.tier;
              live = f.live;
              idle = f.idle;
              placed = f.placed;
              huge = f.huge;
            })
      | inr ne ↦ rw ne (inv.fits q)
    ];
    apart = λ q r a c d o. inv.apart q r a c (ground arith) (ground arith);
  }

module _ {e : Env} {n : ℕ} (h : Bool)
    (make : ℕ → State e.table.Table → Option (State e.table.Table)) (makes : Makes e n h make) where
  pub serve_lem :
      (p : ℕ) (s : State e.table.Table)
      → Inv e n s
      → Cursors s
      → Servable p s
      → Returns
          (λ (served, s'). (served ≡ (s.page p).present) × Inv e n s' × Served h p s s')
          (serve make p s)
  unfolding Changed
  serve_lem p s inv c ask = elim (Bool-cases (s.page p).present) [
    | inr gone ↦ rw gone (
        check (same_ptr (list_of s p) (some (free_list_of (s.page p).in_dram)))
          (rw (ask.freed gone) (ground arith))
          (returns (
            refl,
            inv,
            record {
              cursors = c;
              page = λ q. ground arith;
              place = λ q. ground arith;
              pebs = refl;
            },
          )))
    | inl live ↦ rw live (
        bind (update_current_cool_page_lem p s inv.well c) λ s1 a.
          let inv1 = Aside-Inv p s s1 inv a in
          let pg : s1.page p ≡ s.page p = ap (λ (t : State e.table.Table). t.page p) a.rest in
          let s2 : State e.table.Table = set_ring_present p false s1 in
          let live1 : (s1.page p).present ≡ true = ground arith in
          bind
            (makes p s2 (pending-Inv p false s1 inv1) (simp ==_refl live1)
              (simp (==_refl, pg) (ask.mapped live)))
            λ s3 (inv3, r).
              let b : s3.pebs ≡ s1.pebs = ap (λ (t : State e.table.Table). t.pebs) r.rest in
              let links = ap (λ (t : State e.table.Table). t.store) a.rest in
              let pages = ap (λ (t : State e.table.Table). t.page) a.rest in
              returns (
                refl,
                inv3,
                record {
                  cursors = record {
                    fast = λ q on. ground (arith, r.place q, b, a.cursors.fast q, a.off_dram);
                    slow = λ q on. ground (arith, r.place q, b, a.cursors.slow q, a.off_nvm);
                  };
                  page = λ q.
                      ground (arith, r.page q, ap (λ f. f q) pages, pg, eq_of_== q p, ==_refl p);
                  place = λ q.
                      ground (arith, r.place q, ap (λ m. (m.link q).list) links, pg, ==_refl p);
                  pebs =
                      Walked-trans s.pebs s1.pebs s3.pebs
                        (ap (λ (t : State e.table.Table). t.pebs) a.rest) b;
                },
              ))
  ]
