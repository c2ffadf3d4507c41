-- ===== src/Pebs/Invariant/Raising.antt =====
-- A free page of DRAM takes a hot page of NVM up, and what the policy thread relies on for it.
use hemem.Prelude.{
  ℕ, ◌%◌, ◌<◌, ◌≡◌, ◌≢◌, refl, ◌∙◌, Bool, true, false, none, some, Ptr, ◌==◌, if◌then◌else◌, arith,
  update, ◌>>=◌, Returns, returns, bind,
}
use hemem.Fifo.Moves.{entries, Enqueued}
use hemem.Memory.Page.{Page, hugepage_size, pt_to_pagesize}
use hemem.Memory.Kernel.{Env, Serves}
use hemem.Memory.State.{State}
use hemem.Pebs.Lists.{
  list_of, dram_hot_list, dram_cold_list, dram_free_list, nvm_hot_list, nvm_free_list,
}
use hemem.Pebs.Policy.{Next, continue, stop, out, use_frame, move_up, try_move}
use hemem.Pebs.Invariant.{Inv}
use hemem.Pebs.Invariant.Onward.{Raised, Onward-trans, take-Onward}
use hemem.Pebs.Invariant.Steps.{Relinked, page-Relinked}
use hemem.Pebs.Invariant.Off.{InvOff, InvOff-Inv, Took, dequeue_held}
use hemem.Pebs.Invariant.Moving.{move_up_lem}

-- What the policy thread relies on beyond the invariant: the pages that it may move have an
-- address, a multiple of the page size, and none of the cold ones in DRAM is enforced.
pub record Movable {Table : Type 0} (s : State Table) : Type 0 where
  pub hot_mapped : (q : ℕ) → list_of s q ≡ some nvm_hot_list → (s.page q).va ≢ 0
  pub hot_aligned : (q : ℕ) → list_of s q ≡ some nvm_hot_list → (s.page q).va % hugepage_size ≡ 0
  pub cold_mapped : (q : ℕ) → list_of s q ≡ some dram_cold_list → (s.page q).va ≢ 0
  pub cold_aligned : (q : ℕ) → list_of s q ≡ some dram_cold_list → (s.page q).va % hugepage_size ≡ 0
  pub unenforced : (q : ℕ) → list_of s q ≡ some dram_cold_list → (s.page q).enforced ≡ false

-- So it is once a page has been taken off its list.
pub Movable-less :
    {Table : Type 0} (p : ℕ) (s s' : State Table)
    → Movable s
    → ((q : ℕ) → s'.page q ≡ s.page q)
    → ((q : ℕ) → list_of s' q ≡ (if q == p then none else list_of s q))
    → Movable s'
Movable-less p s s' m page place = record {
  hot_mapped = λ q h. rw (page q) (m.hot_mapped q (ground (arith, place q)));
  hot_aligned = λ q h. rw (page q) (m.hot_aligned q (ground (arith, place q)));
  cold_mapped = λ q h. rw (page q) (m.cold_mapped q (ground (arith, place q)));
  cold_aligned = λ q h. rw (page q) (m.cold_aligned q (ground (arith, place q)));
  unenforced = λ q h. rw (page q) (m.unenforced q (ground (arith, place q)));
}

-- A page that the thread took off the hot list of NVM.
pub record Lifted (pg : Page) : Type 0 where
  pub slow : pg.in_dram ≡ false
  pub mapped : pg.va ≢ 0
  pub aligned : pg.va % hugepage_size ≡ 0
  pub idle : pg.hot ≡ true → pg.present ≡ true
  pub hot : pg.present ≡ true → pg.hot ≡ true

-- The page is in DRAM and hot, and a page's bytes were moved.
abbrev pub Ascended : (e : Env) → ℕ → ℕ → State e.table.Table → Next e.table.Table → Type 0
Ascended e n p s (continue m s') =
    Inv e n s'
    × (list_of s' p ≡ some dram_hot_list)
    × ((s'.page p).in_dram ≡ true)
    × (m ≡ hugepage_size)
    × Raised p s s'
Ascended e n p s (stop s') = ⊥
Ascended e n p s (out s') = ⊥

-- So it is, or the page is back where it was.
abbrev pub Tried : (e : Env) → ℕ → ℕ → State e.table.Table → Next e.table.Table → Type 0
Tried e n p s (continue m s') = Ascended e n p s (continue m s')
Tried e n p s (stop s') = ⊥
Tried e n p s (out s') = Inv e n s' × Relinked s s' × Enqueued p nvm_hot_list s.store s'.store

pub Ascended-Tried :
    (e : Env) (n p : ℕ) (s : State e.table.Table) (r : Next e.table.Table)
    → Ascended e n p s r
    → Tried e n p s r
Ascended-Tried e n p s (continue m s') u = u
Ascended-Tried e n p s (stop s') u = u
Ascended-Tried e n p s (out s') u = absurd u

-- After steps that keep what `Raised` says.
pub Ascended-after :
    (e : Env) (n p : ℕ) (s s1 : State e.table.Table)
    → Raised p s s1
    → (r : Next e.table.Table) → Ascended e n p s1 r
    → Ascended e n p s r
Ascended-after e n p s s1 a (continue m s') (inv, at_l, tier, moved, b) = (
  inv,
  at_l,
  tier,
  moved,
  record {
    only_new = λ q ne h. a.only_new q ne (b.only_new q ne h);
    onward = Onward-trans s s1 s' a.onward b.onward;
    stock = b.stock ∙ a.stock;
    hot = b.hot ∙ a.hot;
  },
)
Ascended-after e n p s s1 a (stop s') u = u
Ascended-after e n p s s1 a (out s') u = u

abbrev pub only : ℕ → ℕ → Bool
only p = update (λ _. false) p true

module _ {e : Env} (serves : Serves e.os) {n : ℕ} (p : ℕ) where
  -- A free page of DRAM was found.
  pub try_up :
      (np : ℕ) (s s1 : State e.table.Table)
      → InvOff e n 1 (only p) s
      → Lifted (s.page p)
      → Took e n 1 (only p) s dram_free_list (some np, s1)
      → Returns
          (Ascended e n p s)
          (move_up e p np s1 >>= λ s2. some (continue (pt_to_pagesize (s2.page p).pt) s2))
  unfolding pt_to_pagesize
  try_up np s s1 inv l (same, out1, inv1) =
      let differ : (p == np) ≡ false = ground (arith, out1.was, inv.loose p) in
      let gp = page-Relinked s s1 p same in
      let gn = page-Relinked s s1 np same in
      let f = inv.fits np (ground (arith, differ)) in
      bind
        (move_up_lem serves p np inv1 (omega arith) (ground arith) (ground arith) differ
          (rw gp l.mapped) (rw gp l.aligned) (rw gp l.idle) (ground (arith, f.live, out1.was, gn))
          (rw gp l.slow) (ground (arith, f.tier dram_free_list out1.was, gn)) (rw gp l.hot))
        λ s2 (inv2, a). returns (
          InvOff-Inv inv2 (λ q. ground arith),
          ground (arith, a.place p, differ),
          a.tier,
          rw (a.type, gp, (inv.framed p (ground arith)).1) refl,
          record {
            only_new = λ q ne h. ground (arith, a.place q, out1.moved.place q);
            onward =
                Onward-trans s s1 s2 (take-Onward np dram_free_list s s1 refl same out1) a.onward;
            stock = ground (
              arith,
              a.count dram_free_list,
              a.count nvm_free_list,
              out1.count dram_free_list,
              out1.count nvm_free_list,
            );
            hot = ground (arith, a.count nvm_hot_list, out1.count nvm_hot_list);
          },
        )

  -- A try with a free page of DRAM on the list.
  pub try_second :
      (s : State e.table.Table)
      → InvOff e n 1 (only p) s
      → Lifted (s.page p)
      → 0 < entries s.store dram_free_list
      → Returns (Ascended e n p s) (try_move e 1 p s)
  unfolding try_move
  try_second s inv l some_free = bind (dequeue_held dram_free_list (omega arith) inv) go
    where
      go :
          (r : Ptr × State e.table.Table)
          → Took e n 1 (only p) s dram_free_list r
          → Returns (Ascended e n p s) (use_frame e (try_move e 0 p) p r.0 r.1)
      go (none, s1) (same, empty) = absurd (omega arith)
      go (some np, s1) took = try_up np s s1 inv l took
