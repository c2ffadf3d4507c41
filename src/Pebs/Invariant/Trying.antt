-- ===== src/Pebs/Invariant/Trying.antt =====
-- The tries of the policy thread to find a DRAM frame for a hot page of NVM.
use hemem.Prelude.{
  ℕ, ◌+◌, ◌<◌, ◌≡◌, refl, fun_ext, sym, ◌∙◌, subst, Bool, true, false, none, some, Ptr, ◌==◌, arith,
  update, Returns, returns, bind, mono,
}
use hemem.Fifo.Moves.{entries}
use hemem.Memory.Kernel.{Env, Serves}
use hemem.Memory.State.{State}
use hemem.Pebs.Lists.{dram_cold_list, dram_free_list, nvm_hot_list, nvm_free_list}
use hemem.Pebs.Alloc.{pass_enforced, skip_enforced, cold_page}
use hemem.Pebs.Policy.{demote, make_frame, use_frame, try_move}
use hemem.Pebs.Invariant.Onward.{Onward, Raised, Onward-trans, take-Onward}
use hemem.Pebs.Invariant.Steps.{page-Relinked}
use hemem.Pebs.Invariant.Off.{InvOff, InvOff-Inv, Took, dequeue_held, enqueue_held}
use hemem.Pebs.Invariant.Moving.{Fits-put, move_down_lem}
use hemem.Pebs.Invariant.Raising.{
  Movable, Lifted, Tried, Ascended-Tried, Ascended-after, only, try_up, try_second,
}

module _ {e : Env} (serves : Serves e.os) {n : ℕ} (p : ℕ) where
  -- While no cold page is enforced, the first one is taken.
  pub cold_page_held :
      {k : ℕ} {off : ℕ → Bool} (s : State e.table.Table)
      → InvOff e n k off s
      → Movable s
      → Returns (Took e n k off s dram_cold_list) (cold_page s)
  unfolding skip_enforced
  cold_page_held {k} {off} s inv m = bind (dequeue_held dram_cold_list (omega arith) inv) go
    where
      go :
          (r : Ptr × State e.table.Table)
          → Took e n k off s dram_cold_list r
          → Returns
              (Took e n k off s dram_cold_list)
              (pass_enforced (skip_enforced (s.store.fifo dram_cold_list).numentries) r.0 r.1)
      go (none, s1) took = returns took
      go (some q, s1) (same, out1, inv1) =
          let loose : (s1.page q).enforced ≡ false =
            ground (arith, page-Relinked s s1 q same, m.unenforced q out1.was) in
          rw (loose, pass_enforced) (returns (same, out1, inv1))

  -- A cold page goes down, and its frame is used.
  try_down :
      (cp : ℕ) (s s1 : State e.table.Table)
      → InvOff e n 1 (only p) s
      → Lifted (s.page p)
      → Movable s
      → 0 < entries s.store nvm_free_list
      → Took e n 1 (only p) s dram_cold_list (some cp, s1)
      → Returns (Tried e n p s) (make_frame e (try_move e 1 p) p (some cp) s1)
  try_down cp s s1 inv l m some_free (same1, out1, inv1) =
      bind (dequeue_held nvm_free_list (omega arith) inv1) go
    where
      go :
          (r : Ptr × State e.table.Table)
          → Took e n 2 (update (only p) cp true) s1 nvm_free_list r
          → Returns (Tried e n p s) (demote e (try_move e 1 p) cp r.0 r.1)
      go (none, s2) (same2, empty) = absurd (ground (arith, out1.count nvm_free_list))
      go (some np, s2) (same2, out2, inv2) =
          let differ : (cp == np) ≡ false = ground (arith, out2.was, inv1.loose cp) in
          let p_cp : (p == cp) ≡ false = ground (arith, out1.was, inv.loose p) in
          let p_np : (p == np) ≡ false = ground (arith, out2.was, inv1.loose p) in
          let gc = page-Relinked s1 s2 cp same2 ∙ page-Relinked s s1 cp same1 in
          let gp = page-Relinked s1 s2 p same2 ∙ page-Relinked s s1 p same1 in
          let gn = page-Relinked s1 s2 np same2 in
          let fc = inv.fits cp (ground (arith, p_cp)) in
          let fn = inv1.fits np (ground (arith, p_np, differ)) in
          bind
            (move_down_lem serves cp np inv2 (omega arith) (ground arith) (ground arith) differ
              (rw gc (m.cold_mapped cp out1.was)) (rw gc (m.cold_aligned cp out1.was))
              (rw gc fc.idle) (ground (arith, fn.live, out2.was, gn))
              (rw gc (m.unenforced cp out1.was)) (rw gc (fc.tier dram_cold_list out1.was))
              (ground (arith, fn.tier nvm_free_list out2.was, gn))
              (λ h. ground (arith, gc, fc.live, out1.was)))
            λ s3 (inv3, a).
              let on : Onward s s3 =
                Onward-trans s s1 s3 (take-Onward cp dram_cold_list s s1 refl same1 out1) (
                  Onward-trans s1 s2 s3 (take-Onward np nvm_free_list s1 s2 refl same2 out2)
                    a.onward) in
              let kept : Raised p s s3 = record {
                only_new =
                    λ q ne h. ground (arith, a.place q, out1.moved.place q, out2.moved.place q);
                onward = on;
                stock = ground (
                  arith,
                  a.count dram_free_list,
                  a.count nvm_free_list,
                  out1.count dram_free_list,
                  out1.count nvm_free_list,
                  out2.count dram_free_list,
                  out2.count nvm_free_list,
                );
                hot =
                    ground (
                      arith,
                      a.count nvm_hot_list,
                      out1.count nvm_hot_list,
                      out2.count nvm_hot_list,
                    );
              } in
              mono
                (try_second serves p s3
                  (subst (λ off. InvOff e n 1 off s3) (fun_ext (λ q. ground (arith, p_cp, p_np)))
                    inv3)
                  (subst Lifted (sym (a.others p p_cp p_np ∙ gp)) l)
                  (ground (arith, a.count dram_free_list)))
                λ r u. Ascended-Tried e n p s r (Ascended-after e n p s s3 kept r u)

  -- Both tries: with a free page left in either tier, no assertion fails.
  pub try_move_lem :
      (s : State e.table.Table)
      → InvOff e n 1 (only p) s
      → Lifted (s.page p)
      → Movable s
      → 0 < entries s.store dram_free_list + entries s.store nvm_free_list
      → Returns (Tried e n p s) (try_move e 2 p s)
  unfolding try_move
  try_move_lem s inv l m stock = bind (dequeue_held dram_free_list (omega arith) inv) go
    where
      cold :
          (r : Ptr × State e.table.Table)
          → entries s.store dram_free_list ≡ 0
          → Took e n 1 (only p) s dram_cold_list r
          → Returns (Tried e n p s) (make_frame e (try_move e 1 p) p r.0 r.1)
      cold (none, s1) full (same, empty) =
          let f = inv.framed p (ground arith) in
          rw same (
            bind
              (enqueue_held nvm_hot_list p (omega arith) (omega arith) inv (ground arith) (
                Fits-put e nvm_hot_list (s.page p) (omega arith) l.slow
                  (λ h. ground (arith, l.hot, l.slow)) l.idle f.0 f.1))
              λ s2 (same2, into, inv2). returns (InvOff-Inv inv2 (λ q. ground arith), same2, into))
      cold (some cp, s1) full took = try_down cp s s1 inv l m (omega (arith, stock)) took

      go :
          (r : Ptr × State e.table.Table)
          → Took e n 1 (only p) s dram_free_list r
          → Returns (Tried e n p s) (use_frame e (try_move e 1 p) p r.0 r.1)
      go (none, s1) (same, empty) =
          rw same (bind (cold_page_held s inv m) λ r took. cold r empty took)
      go (some np, s1) took = mono (try_up serves p np s s1 inv l took) (Ascended-Tried e n p s)
