-- ===== src/Pebs/Invariant/Loop.antt =====
-- The migration loop of the policy thread, with the coolings that end it.
use hemem.Prelude.{
  ℕ, zero, suc, ◌+◌, ◌<◌, ◌≡◌, refl, ap, ◌∙◌, Bool-cases, inl, inr, true, false, some, arith, ltb,
  Returns, returns, bind, mono,
}
use hemem.Fifo.Moves.{entries}
use hemem.Memory.Kernel.{Env, Serves}
use hemem.Memory.State.{State, Pebs}
use hemem.Pebs.Lists.{nvm_hot_list}
use hemem.Pebs.Policy.{Next, continue, stop, out, migrate_rate, migrate_loop, cool_both}
use hemem.Pebs.Invariant.{Inv}
use hemem.Pebs.Invariant.Cursor.{Cursors}
use hemem.Pebs.Invariant.Raising.{Movable}
use hemem.Pebs.Invariant.Cooled.{Fresh}
use hemem.Pebs.Invariant.Walk.{cool_both_lem}
use hemem.Pebs.Invariant.Onward.{label, stock}
use hemem.Pebs.Invariant.Passing.{Passed}
use hemem.Pebs.Invariant.Migration.{Migrated, migrate_one_lem}

-- `b` with what the coolings keep for themselves as in `y`.
abbrev stroll : Pebs → Pebs → Pebs
stroll b y = record b {
  need_cool_dram = y.need_cool_dram;
  need_cool_nvm = y.need_cool_nvm;
  start_dram_page = y.start_dram_page;
  start_nvm_page = y.start_nvm_page;
  cur_cool_in_dram = y.cur_cool_in_dram;
  cur_cool_in_nvm = y.cur_cool_in_nvm;
}

-- What the loop relies on.
pub record Ready (e : Env) (n : ℕ) (s : State e.table.Table) : Type 0 where
  pub inv : Inv e n s
  pub cursors : Cursors s
  pub movable : Movable s
  pub fast : Fresh true s
  pub slow : Fresh false s
  pub room : 0 < stock s

-- What it leaves as it is: the addresses and clocks of all pages and whether they are enforced,
-- and the rings, clocks and counters.
pub record Settled {Table : Type 0} (s s' : State Table) : Type 0 where
  pub cursors : Cursors s'
  pub labels : (q : ℕ) → label (s'.page q) ≡ label (s.page q)
  pub pebs : s'.pebs ≡ stroll s.pebs s'.pebs

module _ {Table : Type 0} where
  Passed-Settled : (s s1 s' : State Table) → Passed s s1 → Settled s1 s' → Settled s s'
  Passed-Settled s s1 s' p d = record {
    cursors = d.cursors;
    labels = λ q. d.labels q ∙ p.labels q;
    pebs = d.pebs ∙ ap (λ z. stroll z s'.pebs) p.pebs;
  }

module _ {e : Env} {n : ℕ} where
  Passed-Ready :
      (s s' : State e.table.Table) → Ready e n s → Inv e n s' → Passed s s' → Ready e n s'
  Passed-Ready s s' r inv p =
      let clock = ap (λ (b : Pebs). b.global_clock) p.pebs in
      let m = r.movable in
      let va : (q : ℕ) → (s'.page q).va ≡ (s.page q).va = λ q. ap (λ t. t.0) (p.labels q) in
      let forced : (q : ℕ) → (s'.page q).enforced ≡ (s.page q).enforced =
        λ q. ap (λ t. t.1) (p.labels q) in
      let local : (q : ℕ) → (s'.page q).local_clock ≡ (s.page q).local_clock =
        λ q. ap (λ t. t.2) (p.labels q) in
      record {
        inv = inv;
        cursors = p.cursors r.cursors;
        movable = record {
          hot_mapped = λ q h. rw (va q) (m.hot_mapped q (p.nvm_hot q h));
          hot_aligned = λ q h. rw (va q) (m.hot_aligned q (p.nvm_hot q h));
          cold_mapped = λ q h. rw (va q) (m.cold_mapped q (p.dram_cold q h));
          cold_aligned = λ q h. rw (va q) (m.cold_aligned q (p.dram_cold q h));
          unenforced = λ q h. rw (forced q) (m.unenforced q (p.dram_cold q h));
        };
        fast = λ q h.
            rw (clock, local q)
              (elim (p.hot_from q h) [ inl was ↦ r.fast q was | inr was ↦ r.slow q was ]);
        slow = λ q h. rw (clock, local q) (r.slow q (p.nvm_hot q h));
        room = rw p.stock r.room;
      }

  cooled :
      (s : State e.table.Table)
      → Ready e n s
      → Returns (λ s'. Inv e n s' × Settled s s') (cool_both e s)
  cooled s r = mono (cool_both_lem s r.inv r.cursors r.fast r.slow) λ s' (inv, c). (
    inv,
    record {
      cursors = c.cursors;
      labels = λ q. elim (c.fate q) [
        | inl x ↦ ap label x.1
        | inr y ↦ elim y [ inl x ↦ ap label x.2 | inr x ↦ ap label x.2 ]
      ];
      pebs = c.pebs;
    },
  )

  -- How a round goes on, when the rest of the loop is as it should be.
  go_on :
      (fuel migrated : ℕ) (s : State e.table.Table)
      → entries s.store nvm_hot_list < suc fuel
      → Ready e n s
      → ((k : ℕ) (s1 : State e.table.Table)
          → entries s1.store nvm_hot_list < fuel
          → Ready e n s1
          → Returns (λ s'. Inv e n s' × Settled s1 s') (migrate_loop e fuel k s1))
      → (r : Next e.table.Table) → Migrated e n s r
      → Returns
          (λ s'. Inv e n s' × Settled s s')
          (elim r [
            | continue moved s ↦ migrate_loop e fuel (migrated + moved) s
            | stop s ↦ cool_both e s
            | out s ↦ some s
          ])
  go_on fuel migrated s enough r rest (continue moved s1) (inv1, p, was, how, passed, less) =
      mono (rest (migrated + moved) s1 (omega (arith, less)) (Passed-Ready s s1 r inv1 passed))
        λ s' (inv', d). (inv', Passed-Settled s s1 s' passed d)
  go_on fuel migrated s enough r rest (stop s1) (same, empty) = rw same (cooled s r)
  go_on fuel migrated s enough r rest (out s1) (inv1, p, was, back, passed) = returns (
    inv1,
    Passed-Settled s s1 s1 passed
        (record { cursors = passed.cursors r.cursors; labels = λ q. refl; pebs = refl }),
  )

  -- The migration loop with the coolings after it, with more rounds than the hot list of NVM has
  -- pages, while a page is free, the pages that may move have addresses, no cold DRAM page is
  -- enforced, no hot page has missed 64 coolings and the kernel serves its calls: the loop ends, no
  -- assertion fails and no shift is too far, the walks stand on the hot lists, all pages keep their
  -- addresses and clocks, the rings, clocks and counters are as they were, and the invariant holds
  -- again, so that no page is lost.
  pub migrate_loop_lem :
      Serves e.os
      → (fuel migrated : ℕ) (s : State e.table.Table) → entries s.store nvm_hot_list < fuel
      → Ready e n s
      → Returns (λ s'. Inv e n s' × Settled s s') (migrate_loop e fuel migrated s)
  unfolding migrate_loop
  migrate_loop_lem serves zero migrated s enough r = absurd (omega arith)
  migrate_loop_lem serves (suc fuel) migrated s enough r =
      elim (Bool-cases (ltb migrated migrate_rate)) [
        | inr full ↦ rw (full, migrate_loop) (cooled s r)
        | inl more ↦
            rw (more, migrate_loop)
              (bind (migrate_one_lem serves r.inv r.movable r.room) (
                go_on fuel migrated s enough r
                  (λ k s1 less r1. migrate_loop_lem serves fuel k s1 less r1)))
      ]
