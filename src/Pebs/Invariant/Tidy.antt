-- ===== src/Pebs/Invariant/Tidy.antt =====
-- The state between the loops of an iteration of `pebs_policy_thread`.
use hemem.Prelude.{
  ℕ, ◌%◌, ◌<◌, ◌≡◌, ◌≢◌, refl, ◌∙◌, Bool, Bool-cases, inl, inr, true, false, none, some, List, [],
  Ptr, arith, ◌||◌, ◌⊎◌, is_null,
}
use hemem.Ring.{RingBuf}
use hemem.Ring.Entries.{Holding}
use hemem.Fifo.Moves.{entries-pos}
use hemem.Memory.Page.{hugepage_size}
use hemem.Memory.Kernel.{Env}
use hemem.Memory.State.{State, Pebs}
use hemem.Pebs.Lists.{list_of, home, free_list_of, dram_free_list, nvm_free_list}
use hemem.Pebs.Invariant.{Inv}
use hemem.Pebs.Invariant.Cursor.{Cursors}
use hemem.Pebs.Invariant.Draining.{holds, GivenBack, Drained}
use hemem.Pebs.Invariant.Answered.{Answered}
use hemem.Pebs.Invariant.Cooled.{late}
use hemem.Pebs.Invariant.Loop.{Ready}

-- Pages in use have addresses and are not enforced, other pages are free, and one is.
pub record Tidy (e : Env) (n : ℕ) (s : State e.table.Table) : Type 0 where
  pub inv : Inv e n s
  pub cursors : Cursors s
  pub idle :
      (q : ℕ)
      → (s.page q).present ≡ false
      → (list_of s q ≡ none) ⊎ (list_of s q ≡ some (free_list_of (s.page q).in_dram))
  pub mapped : (q : ℕ) → (s.page q).present ≡ true → (s.page q).va ≢ 0
  pub aligned : (q : ℕ) → (s.page q).present ≡ true → (s.page q).va % hugepage_size ≡ 0
  pub loose : (q : ℕ) → (s.page q).present ≡ true → (s.page q).enforced ≡ false
  pub room : (f : ℕ) × (list_of s f ≡ some (free_list_of (s.page f).in_dram))

-- No page that is hot, or that the entries ask for, has missed 64 coolings or more.
abbrev pub Warm : {Table : Type 0} → List Ptr → State Table → Type 0
Warm xs s = (q : ℕ) → ((s.page q).hot || holds q xs) ≡ true → late q s < 64

-- A state in which an iteration starts, with the entries of the three rings. The pages that are
-- listed and not in use are those of the ring of freed pages and those on the free lists.
pub record Runnable (e : Env) (n : ℕ) (gs hs cs : List Ptr) (s : State e.table.Table) : Type 0 where
  pub inv : Inv e n s
  pub cursors : Cursors s
  pub free_ring : Holding gs s.pebs.free_page_ring
  pub hot_ring : Holding hs s.pebs.hot_ring
  pub cold_ring : Holding cs s.pebs.cold_ring
  pub given : GivenBack gs s
  pub idle :
      (q : ℕ)
      → holds q gs ≡ false
      → (s.page q).present ≡ false
      → (list_of s q ≡ none) ⊎ (list_of s q ≡ some (free_list_of (s.page q).in_dram))
  -- the requests are for pages on a list
  pub known : (q : ℕ) → (holds q hs || holds q cs) ≡ true → is_null (list_of s q) ≡ false
  pub mapped : (q : ℕ) → (s.page q).present ≡ true → (s.page q).va ≢ 0
  pub aligned : (q : ℕ) → (s.page q).present ≡ true → (s.page q).va % hugepage_size ≡ 0
  pub loose : (q : ℕ) → (s.page q).present ≡ true → (s.page q).enforced ≡ false
  pub warm : Warm hs s
  pub room : (f : ℕ) × (list_of s f ≡ some (free_list_of (s.page f).in_dram))

module _ {e : Env} {n : ℕ} where
  pub Drained-Tidy :
      (gs hs cs : List Ptr) (s s1 : State e.table.Table)
      → Runnable e n gs hs cs s
      → Inv e n s1
      → Drained gs s s1
      → Tidy e n s1
  Drained-Tidy gs hs cs s s1 r inv d = record {
    inv = inv;
    cursors = d.cursors;
    idle = λ q gone. elim (Bool-cases (holds q gs)) [
      | inl given ↦ inr (rw (d.page q) (d.place q ∙ rw given refl))
      | inr other ↦ rw (d.page q, d.place q, other) (r.idle q other (rw (d.page q) at gone))
    ];
    mapped = λ q live. rw (d.page q) (r.mapped q (rw (d.page q) at live));
    aligned = λ q live. rw (d.page q) (r.aligned q (rw (d.page q) at live));
    loose = λ q live. rw (d.page q) (r.loose q (rw (d.page q) at live));
    room = (
      r.room.0,
      let f = r.room.0 in
          rw (d.page f, d.place f)
            (elim (Bool-cases (holds f gs)) [
              | inl given ↦ rw given refl
              | inr other ↦ rw other r.room.1
            ]),
    );
  }

  -- A page on a free list is not in use, one on another list is.
  free-idle :
      (f : ℕ) (s : State e.table.Table)
      → Inv e n s
      → list_of s f ≡ some (free_list_of (s.page f).in_dram)
      → (s.page f).present ≡ false
  free-idle f s inv on = ground (arith, (inv.fits f).live)

  in_use :
      (q : ℕ) (d h : Bool) (s : State e.table.Table)
      → Tidy e n s
      → list_of s q ≡ some (home d h)
      → (s.page q).present ≡ true
  in_use q d h s t on = elim (Bool-cases (s.page q).present) [
    | inl live ↦ live
    | inr gone ↦ absurd (elim (t.idle q gone) [
      | inl nil ↦ ground (arith, nil, on)
      | inr is ↦ ground (arith, is, on)
    ])
  ]

  is_hot :
      (q : ℕ) (d : Bool) (s : State e.table.Table)
      → Tidy e n s
      → list_of s q ≡ some (home d true)
      → (s.page q).hot ≡ true
  is_hot q d s t on =
      let at_home = (t.inv.fits q).live (in_use q d true s t on) in ground (arith, at_home, on)

  pub Answered-Tidy :
      {ring : Pebs → RingBuf} {with_ring : Pebs → RingBuf → Pebs} {h : Bool} {xs : List Ptr} {k : ℕ}
      (s s1 : State e.table.Table)
      → Tidy e n s
      → Inv e n s1
      → Answered ring with_ring h xs k s s1
      → Tidy e n s1
  Answered-Tidy s s1 t inv a = record {
    inv = inv;
    cursors = a.cursors;
    idle = λ q gone.
        let old : (s.page q).present ≡ false = rw (a.page q) at gone in
        let (pg, pl) = a.still q (ground (arith, old)) in rw (pg, pl) (t.idle q old);
    mapped = λ q live. rw (a.page q) (t.mapped q (rw (a.page q) at live));
    aligned = λ q live. rw (a.page q) (t.aligned q (rw (a.page q) at live));
    loose = λ q live. rw (a.page q) (t.loose q (rw (a.page q) at live));
    room = (
      t.room.0,
      let f = t.room.0 in
          let (pg, pl) = a.still f (ground (arith, free-idle f s t.inv t.room.1)) in
          rw (pg, pl) t.room.1,
    );
  }

  pub Tidy-Ready : (s : State e.table.Table) → Tidy e n s → Warm [] s → Ready e n s
  Tidy-Ready s t w = record {
    inv = t.inv;
    cursors = t.cursors;
    movable = record {
      hot_mapped = λ q h. t.mapped q (in_use q false true s t h);
      hot_aligned = λ q h. t.aligned q (in_use q false true s t h);
      cold_mapped = λ q h. t.mapped q (in_use q true false s t h);
      cold_aligned = λ q h. t.aligned q (in_use q true false s t h);
      unenforced = λ q h. t.loose q (in_use q true false s t h);
    };
    fast = λ q h. w q (ground (arith, is_hot q true s t h));
    slow = λ q h. w q (ground (arith, is_hot q false s t h));
    room =
        let (f, on) = t.room in
        elim (Bool-cases (s.page f).in_dram) [
          | inl fast ↦
              let some_free = entries-pos dram_free_list f t.inv.well (rw fast at on) in
              omega (arith, some_free)
          | inr slow ↦
              let some_free = entries-pos nvm_free_list f t.inv.well (rw slow at on) in
              omega (arith, some_free)
        ];
  }
