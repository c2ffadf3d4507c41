-- ===== src/Pebs/Invariant/Alloc.antt =====
-- The allocation of a page by `pebs_allocate_page`.
use hemem.Prelude.{
  ℕ, ◌+◌, ◌<◌, ◌≡◌, refl, ap, ◌∙◌, subst, Bool, true, false, not, none, some, if◌then◌else◌, arith,
  ltb, Ptr, Returns, returns, bind, check,
}
use hemem.Fifo.Moves.{entries, Dequeued, Taken}
use hemem.Memory.Page.{Page}
use hemem.Memory.Kernel.{Env}
use hemem.Memory.State.{State, set_store}
use hemem.Pebs.Lists.{
  list_of, home, dram_free_list, nvm_free_list, dram_cold_list, nvm_cold_list, enqueue,
}
use hemem.Pebs.Alloc.{pebs_allocate_page, allocate_dram, allocate_nvm, set_present}
use hemem.Pebs.Invariant.{Inv, Fits}
use hemem.Pebs.Invariant.Steps.{Relinked, page-Relinked, dequeue_lem, dequeue-none, TakenFrom}
use hemem.Pebs.Invariant.Move.{Replaced, Fits-home, home-lt, replace_lem}

-- Page `p` came off the free list of its tier, is allocated, and is on the cold list of its tier;
-- all else is as it was.
pub record Allocated {Table : Type 0} (s : State Table) (p : ℕ) (s' : State Table) : Type 0 where
  pub tier : (s.page p).in_dram ≡ ltb 0 (entries s.store dram_free_list)
  pub was : list_of s p ≡ some (if (s.page p).in_dram then dram_free_list else nvm_free_list)
  pub unused : (s.page p).present ≡ false
  pub now : Replaced p (home (s.page p).in_dram false) (record (s.page p) { present = true }) s s'

module _ {e : Env} {n : ℕ} {s : State e.table.Table} (inv : Inv e n s) where
  -- What the invariant says of a page of a free list.
  free_page_facts :
      (p : ℕ) (d : Bool)
      → list_of s p ≡ some (if d then dram_free_list else nvm_free_list)
      → ((s.page p).present ≡ false) × ((s.page p).hot ≡ false) × ((s.page p).in_dram ≡ d)
  free_page_facts p true at_l =
      ground (arith, (inv.fits p).live, (inv.fits p).idle, (inv.fits p).tier 2 at_l)
  free_page_facts p false at_l =
      ground (arith, (inv.fits p).live, (inv.fits p).idle, (inv.fits p).tier 5 at_l)

  abbrev Result : ℕ × State e.table.Table → Type 0
  Result (p, s') = Inv e n s' × Allocated s p s'

  -- A page of a free list that is marked as allocated and goes on the cold list of its tier.
  put_cold :
      (p l l' : ℕ) (s1 : State e.table.Table)
      → Relinked s s1 × Dequeued p l s.store s1.store
      → (s.page p).hot ≡ false
      → l' ≡ home (s.page p).in_dram false
      → Returns
          (λ s'.
            Inv e n s'
            × Replaced p
                (home (s.page p).in_dram false)
                (record (s.page p) { present = true })
                s
                s')
          (enqueue l' p (set_present p s1))
  put_cold p l l' s1 out cold is =
      let x : Page = record (s.page p) { present = true } in
      let fits =
        Fits-home e (s.page p) x l (rw (out.1.was) at (inv.fits p)) refl refl refl (λ _. refl) in
      rw (is, page-Relinked s s1 p out.0)
        (replace_lem p inv l out.1.was (home (s.page p).in_dram false) x
          (subst (λ h. Fits e (some (home (s.page p).in_dram h)) x) cold fits) refl refl s1 out
          ((inv.fits p).known l out.1.was) (home-lt (s.page p).in_dram false))

  -- The page that came off the list passes both assertions of the code, and goes on.
  from_dram :
      (p : ℕ) (s1 : State e.table.Table)
      → Relinked s s1 × Dequeued p dram_free_list s.store s1.store
      → Returns Result (allocate_dram (some p) s1)
  from_dram p s1 out =
      let f = free_page_facts p true out.1.was in
      let same = page-Relinked s s1 p out.0 in
      check (s1.page p).in_dram (ground arith) (
        check (not (s1.page p).present) (ground arith) (
          bind (put_cold p dram_free_list dram_cold_list s1 out f.1 (ground arith))
            λ s2 (inv', now). returns (
              inv',
              record {
                tier = ground (arith, out.1.count 2);
                was = rw f.2 out.1.was;
                unused = f.0;
                now = now;
              },
            )))

  from_nvm :
      (p : ℕ) (s1 : State e.table.Table)
      → entries s.store dram_free_list ≡ 0
      → Relinked s s1 × Dequeued p nvm_free_list s.store s1.store
      → Returns Result (allocate_nvm (some p) s1)
  from_nvm p s1 none_free out =
      let f = free_page_facts p false out.1.was in
      let same = page-Relinked s s1 p out.0 in
      check (not (s1.page p).in_dram) (ground arith) (
        check (not (s1.page p).present) (ground arith) (
          bind (put_cold p nvm_free_list nvm_cold_list s1 out f.1 (ground arith)) λ s2 (inv', now).
            returns (
              inv',
              record { tier = ground arith; was = rw f.2 out.1.was; unused = f.0; now = now },
            )))

  -- A second list is tried only after an empty one, which leaves the state as it was.
  nothing-Taken :
      (l : ℕ) (s1 : State e.table.Table) → Relinked s s1 × Taken l s.store (none, s1.store) → s1 ≡ s
  nothing-Taken l s1 (eq, (same, _)) = eq ∙ ap (λ m. set_store s m) same

  nvm_step :
      (s1 : State e.table.Table)
      → entries s.store dram_free_list ≡ 0
      → 0 < entries s.store dram_free_list + entries s.store nvm_free_list
      → s1 ≡ s
      → Returns Result (allocate_dram none s1)
  nvm_step s1 none_free some_free same = rw same (bind (dequeue_lem nvm_free_list s inv.well) go)
    where
      go :
          (r : Ptr × State e.table.Table)
          → TakenFrom nvm_free_list s r
          → Returns Result (allocate_nvm r.0 r.1)
      go (none, s2) (eq, taken) = absurd (omega (arith, taken.1))
      go (some p, s2) out = from_nvm p s2 none_free out

  -- `pebs_allocate_page` while a free page is left: no assertion fails; the page comes from the
  -- free list of DRAM whenever that is not empty, and from that of NVM otherwise; it was not in use,
  -- is marked as allocated and goes on the cold list of its tier; no other page and no other part of
  -- the state changes, and the invariant holds again.
  pub pebs_allocate_page_lem :
      0 < entries s.store dram_free_list + entries s.store nvm_free_list
      → Returns (λ (p, s'). Inv e n s' × Allocated s p s') (pebs_allocate_page s)
  unfolding pebs_allocate_page
  pebs_allocate_page_lem some_free = bind (dequeue_lem dram_free_list s inv.well) go
    where
      go :
          (r : Ptr × State e.table.Table)
          → TakenFrom dram_free_list s r
          → Returns Result (allocate_dram r.0 r.1)
      go (none, s1) (eq, taken) =
          nvm_step s1 taken.1 some_free (nothing-Taken dram_free_list s1 (eq, taken))
      go (some p, s1) out = from_dram p s1 out

-- `pebs_allocate_page` with both free lists empty ends in "Out of memory".
pub pebs_allocate_page_out_of_memory :
    {e : Env} {n : ℕ} {s : State e.table.Table}
    → Inv e n s
    → entries s.store dram_free_list + entries s.store nvm_free_list ≡ 0
    → pebs_allocate_page s ≡ none
unfolding pebs_allocate_page
pebs_allocate_page_out_of_memory {s} inv nothing = simp (
  dequeue-none dram_free_list s inv.well (omega arith),
  dequeue-none nvm_free_list s inv.well (omega arith),
)
