-- ===== src/Lru/Give.antt =====
-- About `lru_allocate_page` and `lru_remove_page`.
use hemem.Prelude.{
  ℕ, ◌+◌, ◌<◌, ◌≡◌, refl, ap, ◌∙◌, sym, subst, ==_refl, Bool, true, false, not, none, some, ltb,
  Ptr, arith, Option-cases, inl, inr, is_null, Returns, returns, bind, check,
}
use hemem.Fifo.Moves.{entries, Dequeued}
use hemem.Memory.Page.{Page}
use hemem.Memory.Kernel.{Env}
use hemem.Memory.State.{State, set_store}
use hemem.Pebs.Lists.{list_of, enqueue}
use hemem.Pebs.Alloc.{set_present}
use hemem.Pebs.Invariant.Steps.{Relinked, page-Relinked, dequeue_lem, remove_lem, TakenFrom}
use hemem.Pebs.Invariant.Move.{Replaced}
use hemem.Lru.Lists.{
  lru_dram_free_list, lru_nvm_free_list, lru_free_list_of, first_list_of, is_lru_dram, is_lru_free,
}
use hemem.Lru.Policy.{
  lru_allocate_page, lru_allocate_dram, lru_allocate_nvm, lru_remove_page, take_back,
}
use hemem.Lru.Invariant.{LruInv, LruFits, requeue_lem}

-- A page with the same tier and frame fits another list of the tier.
LruFits-move :
    (e : Env) (pg x : Page) (l l' : ℕ)
    → LruFits e (some l) pg
    → x.in_dram ≡ pg.in_dram
    → x.devdax_offset ≡ pg.devdax_offset
    → x.pt ≡ pg.pt
    → l' < 8
    → pg.in_dram ≡ is_lru_dram l'
    → x.present ≡ not (is_lru_free l')
    → LruFits e (some l') x
LruFits-move e pg x l l' f d o t lt tier used = record {
  known = λ k eq. ground arith;
  tier = λ k eq. ground arith;
  live = λ h. refl;
  used = λ k eq. ground arith;
  placed = λ k eq. rw (d, o, t) (f.placed l refl);
  huge = λ k eq. rw t (f.huge l refl);
}

-- Page `p` came off the free list of its tier, is in use, and is on the active list of its tier; all
-- else is as it was.
pub record LruAllocated {Table : Type 0} (s : State Table) (p : ℕ) (s' : State Table) : Type 0 where
  pub tier : (s.page p).in_dram ≡ ltb 0 (entries s.store lru_dram_free_list)
  pub was : list_of s p ≡ some (lru_free_list_of (s.page p).in_dram)
  pub unused : (s.page p).present ≡ false
  pub now :
      Replaced p (first_list_of (s.page p).in_dram) (record (s.page p) { present = true }) s s'

-- Page `p` is off its list, not in use, and on the free list of its tier.
abbrev pub LruRemoved : {Table : Type 0} → ℕ → State Table → State Table → Type 0
LruRemoved p s s' =
    Replaced p (lru_free_list_of (s.page p).in_dram) (record (s.page p) { present = false }) s s'

module _ {e : Env} {n : ℕ} {s : State e.table.Table} (inv : LruInv e n s) where
  abbrev Result : ℕ × State e.table.Table → Type 0
  Result (p, s') = LruInv e n s' × LruAllocated s p s'

  put_active :
      (p : ℕ) (d : Bool) (s1 : State e.table.Table)
      → Relinked s s1 × Dequeued p (lru_free_list_of d) s.store s1.store
      → (s.page p).in_dram ≡ d
      → Returns
          (λ s'.
            LruInv e n s'
            × Replaced p (first_list_of d) (record (s.page p) { present = true }) s s')
          (enqueue (first_list_of d) p (set_present p s1))
  put_active p d s1 out is = rw (page-Relinked s s1 p out.0) (
      requeue_lem p inv (lru_free_list_of d) (first_list_of d)
        (record (s.page p) { present = true })
        (LruFits-move e (s.page p) _ (lru_free_list_of d) (first_list_of d)
          (rw out.1.was at (inv.fits p)) refl refl refl (ground arith) (ground arith)
          (ground arith))
        refl refl s1 out (ground arith) (ground arith))

  back :
      (p : ℕ) (d : Bool) (s2 : State e.table.Table)
      → (s.page p).in_dram ≡ d
      → Replaced p (first_list_of d) (record (s.page p) { present = true }) s s2
      → Replaced p (first_list_of (s.page p).in_dram) (record (s.page p) { present = true }) s s2
  back p d s2 is =
      subst (λ t. Replaced p (first_list_of t) (record (s.page p) { present = true }) s s2) (sym is)

  from_dram :
      (p : ℕ) (s1 : State e.table.Table)
      → Relinked s s1 × Dequeued p lru_dram_free_list s.store s1.store
      → Returns Result (lru_allocate_dram (some p) s1)
  from_dram p s1 out =
      let d : (s.page p).in_dram ≡ true = (inv.fits p).tier 3 out.1.was in
      let free : (s.page p).present ≡ false = (inv.fits p).used 3 out.1.was in
      let same = page-Relinked s s1 p out.0 in
      check (s1.page p).in_dram (ground arith) (
        check (not (s1.page p).present) (ground arith) (
          bind (put_active p true s1 out d) λ s2 (inv', now). returns (
            inv',
            record {
              tier = ground (arith, out.1.count 3);
              was = rw d out.1.was;
              unused = free;
              now = back p true s2 d now;
            },
          )))

  from_nvm :
      (p : ℕ) (s1 : State e.table.Table)
      → entries s.store lru_dram_free_list ≡ 0
      → Relinked s s1 × Dequeued p lru_nvm_free_list s.store s1.store
      → Returns Result (lru_allocate_nvm (some p) s1)
  from_nvm p s1 none_free out =
      let d : (s.page p).in_dram ≡ false = (inv.fits p).tier 7 out.1.was in
      let free : (s.page p).present ≡ false = (inv.fits p).used 7 out.1.was in
      let same = page-Relinked s s1 p out.0 in
      check (not (s1.page p).in_dram) (ground arith) (
        check (not (s1.page p).present) (ground arith) (
          bind (put_active p false s1 out d) λ s2 (inv', now). returns (
            inv',
            record {
              tier = ground arith;
              was = rw d out.1.was;
              unused = free;
              now = back p false s2 d now;
            },
          )))

  nvm_step :
      (s1 : State e.table.Table)
      → entries s.store lru_dram_free_list ≡ 0
      → 0 < entries s.store lru_dram_free_list + entries s.store lru_nvm_free_list
      → s1 ≡ s
      → Returns Result (lru_allocate_dram none s1)
  nvm_step s1 none_free some_free same =
      rw same (bind (dequeue_lem lru_nvm_free_list s inv.well) go)
    where
      go :
          (r : Ptr × State e.table.Table)
          → TakenFrom lru_nvm_free_list s r
          → Returns Result (lru_allocate_nvm r.0 r.1)
      go (none, s2) (eq, taken) = absurd (omega (arith, taken.1))
      go (some p, s2) out = from_nvm p s2 none_free out

  -- `lru_allocate_page` while a free page is left: no assertion fails; the page comes from the free
  -- list of DRAM whenever that is not empty, and from that of NVM otherwise; it was not in use, is
  -- marked as in use and goes on the active list of its tier; no other page and no other part of the
  -- state changes, and the invariant holds again.
  pub lru_allocate_page_lem :
      0 < entries s.store lru_dram_free_list + entries s.store lru_nvm_free_list
      → Returns (λ (p, s'). LruInv e n s' × LruAllocated s p s') (lru_allocate_page s)
  unfolding lru_allocate_page
  lru_allocate_page_lem some_free = bind (dequeue_lem lru_dram_free_list s inv.well) go
    where
      go :
          (r : Ptr × State e.table.Table)
          → TakenFrom lru_dram_free_list s r
          → Returns Result (lru_allocate_dram r.0 r.1)
      go (none, s1) (eq, taken) =
          nvm_step s1 taken.1 some_free (eq ∙ ap (λ m. set_store s m) taken.0)
      go (some p, s1) out = from_dram p s1 out

  take_back_lem :
      (p l : ℕ)
      → list_of s p ≡ some l
      → Returns (λ s'. LruInv e n s' × LruRemoved p s s') (take_back (some l) p s)
  take_back_lem p l at_l =
      let f = inv.fits p in
      bind (remove_lem l p s inv.well at_l) λ s1 out.
        simp (page-Relinked s s1 p out.0, ==_refl)
          (requeue_lem p inv l (lru_free_list_of (s.page p).in_dram)
            (record (s.page p) { present = false })
            (LruFits-move e (s.page p) _ l _ (rw at_l at f) refl refl refl (ground arith)
              (ground arith) (ground arith))
            refl refl s1 out (f.known l at_l) (ground arith))

  -- `lru_remove_page` of a listed page, outside a scan: no assertion fails, the page goes from its
  -- list to the free list of its tier and is not in use any more, no other page and no other part of
  -- the state changes, and the invariant holds again.
  pub lru_remove_page_lem :
      (p : ℕ)
      → s.lru.in_kscand ≡ false
      → is_null (list_of s p) ≡ false
      → Returns (λ s'. LruInv e n s' × LruRemoved p s s') (lru_remove_page p s)
  unfolding lru_remove_page
  lru_remove_page_lem p quiet listed =
      check (not s.lru.in_kscand) (ground arith) (elim (Option-cases (list_of s p)) [
        | inl off ↦ absurd (ground arith)
        | inr (l, at_l) ↦ rw at_l (take_back_lem p l at_l)
      ])
