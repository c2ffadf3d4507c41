-- ===== src/Pebs/Invariant/ExchangeRun.antt =====
-- The two exchanges of frames do what `Exchanged` says, and none of their assertions fails.
use hemem.Prelude.{
  ℕ, ◌%◌, ◌≡◌, ◌≢◌, refl, sym, ◌∙◌, ap, Bool, true, false, some, ◌∷◌, ◌==◌, ==_refl, Option, ◌>>=◌,
  if◌then◌else◌, arith, Returns, returns,
}
use hemem.Memory.Page.{hugepage_size, pt_to_pagesize}
use hemem.Memory.Kernel.{Env, Serves, uffd_writeprotect}
use hemem.Memory.State.{State}
use hemem.Hemem.Migrate.Spec.{hemem_wp_page_lem, hemem_migrate_up_lem, hemem_migrate_down_lem}
use hemem.Hemem.Migrate.{hemem_wp_page, hemem_migrate_down}
use hemem.Pebs.Migrate.{
  set_migrating, take_frame, pebs_migrate_up, pebs_migrate_down, exchange_up, exchange_down,
}
use hemem.Pebs.Invariant.Off.{InvOff}
use hemem.Pebs.Invariant.Exchange.{Exchanged, Exchanged-InvOff, Placed-frame}

module _ {e : Env} (serves : Serves e.os) {n k : ℕ} {off : ℕ → Bool} {s : State e.table.Table}
    (p np : ℕ) (inv : InvOff e n k off s) (off_p : off p ≡ true) (off_np : off np ≡ true)
    (differ : (p == np) ≡ false) (mapped : (s.page p).va ≢ 0)
    (aligned : (s.page p).va % hugepage_size ≡ 0) where
  abbrev S : Type 0
  S = State e.table.Table

  abbrev protected : S
  protected = record (set_migrating p true s) {
    internal_call = false;
    calls =
        let t = set_migrating p true s in
        uffd_writeprotect (t.page p).va (pt_to_pagesize (t.page p).pt) true ∷ s.calls;
  }

  pub exchange_up_lem :
      (s.page p).in_dram ≡ false
      → (s.page np).in_dram ≡ true
      → Returns (λ s'. Exchanged true p np s s' × InvOff e n k off s') (exchange_up e p np s)
  unfolding exchange_up pebs_migrate_up
  exchange_up_lem slow fast =
      let nz : ((s.page p).va == 0) ≡ false = ground arith in
      let al : ((s.page p).va % hugepage_size == 0) ≡ true = ground arith in
      let here =
        Placed-frame e (s.page p) false (s.page p).pt (inv.framed p off_p).0 (sym slow) refl in
      let there =
        Placed-frame e (s.page np) true (s.page p).pt (inv.framed np off_np).0 (sym fast)
          ((inv.framed p off_p).1 ∙ sym (inv.framed np off_np).1) in
      let not_same : (np == p) ≡ false = ground (arith, differ) in
      let close : (s' : S)
          → Exchanged true p np s s'
          → Exchanged true p np s s' × InvOff e n k off s' =
        λ s' x. (x, Exchanged-InvOff p np true inv off_p off_np differ slow fast s' x) in
      simp
        (
          hemem_wp_page_lem e serves p true (set_migrating p true s) (rw ==_refl nz)
              (rw ==_refl al),
          hemem_migrate_up_lem e serves p (s.page np).devdax_offset protected (rw ==_refl slow)
              (rw ==_refl al) (rw ==_refl here) (rw ==_refl there),
        )
        (returns (
          close _ (record {
            store = refl;
            pebs = refl;
            hint = refl;
            pages = refl;
            others = λ q a b. rw (a, b) refl;
            moved = rw (differ, ==_refl) refl;
            freed = rw (==_refl, not_same) refl;
          })))

  -- What `pebs_migrate_down` does with a page that is not enforced.
  abbrev moving_down : Option S
  moving_down = do
    s1 ← hemem_wp_page e p true (set_migrating p true s)
    s2 ← hemem_migrate_down e p (s.page np).devdax_offset s1
    some (set_migrating p false s2)

  unenforced :
      (s.page p).enforced ≡ false
      → exchange_down e p np s
        ≡ (moving_down >>= λ s1. some (take_frame np (s.page p).devdax_offset true s1))
  unfolding exchange_down pebs_migrate_down
  unenforced free =
      ap
        (λ b. (if b then some s else moving_down) >>= λ s1.
          some (take_frame np (s.page p).devdax_offset true s1))
        free

  pub exchange_down_lem :
      (s.page p).enforced ≡ false
      → (s.page p).in_dram ≡ true
      → (s.page np).in_dram ≡ false
      → Returns (λ s'. Exchanged false p np s s' × InvOff e n k off s') (exchange_down e p np s)
  exchange_down_lem free fast slow =
      let nz : ((s.page p).va == 0) ≡ false = ground arith in
      let al : ((s.page p).va % hugepage_size == 0) ≡ true = ground arith in
      let here =
        Placed-frame e (s.page p) true (s.page p).pt (inv.framed p off_p).0 (sym fast) refl in
      let there =
        Placed-frame e (s.page np) false (s.page p).pt (inv.framed np off_np).0 (sym slow)
          ((inv.framed p off_p).1 ∙ sym (inv.framed np off_np).1) in
      let not_same : (np == p) ≡ false = ground (arith, differ) in
      let close : (s' : S)
          → Exchanged false p np s s'
          → Exchanged false p np s s' × InvOff e n k off s' =
        λ s' x. (x, Exchanged-InvOff p np false inv off_p off_np differ fast slow s' x) in
      simp
        (
          unenforced free,
          hemem_wp_page_lem e serves p true (set_migrating p true s) (rw ==_refl nz)
              (rw ==_refl al),
          hemem_migrate_down_lem e serves p (s.page np).devdax_offset protected (rw ==_refl fast)
              (rw ==_refl al) (rw ==_refl here) (rw ==_refl there),
        )
        (returns (
          close _ (record {
            store = refl;
            pebs = refl;
            hint = refl;
            pages = refl;
            others = λ q a b. rw (a, b) refl;
            moved = rw (differ, ==_refl) refl;
            freed = rw (==_refl, not_same) refl;
          })))
