-- ===== src/Pebs/Invariant/Iteration.antt =====
-- A whole iteration of `pebs_policy_thread`.
use hemem.Prelude.{
  ℕ, ◌<◌, ◌≡◌, refl, sym, ap, ◌∙◌, Bool, Bool-cases, inl, inr, true, false, List, [], Ptr, arith,
  is_null, length, Returns, bind, mono, subst,
}
use hemem.Ring.{RingBuf}
use hemem.Ring.Entries.{Holding}
use hemem.Memory.Kernel.{Env, Serves}
use hemem.Memory.State.{State, Pebs}
use hemem.Pebs.Lists.{list_of, nvm_hot_list}
use hemem.Pebs.Policy.{
  policy_iteration, with_hot_ring, with_cold_ring, hot_ring_reqs_threshold,
  cold_ring_reqs_threshold,
}
use hemem.Pebs.Invariant.{Inv}
use hemem.Pebs.Invariant.Steps.{entries-le-listed}
use hemem.Pebs.Invariant.Cursor.{Cursors}
use hemem.Pebs.Invariant.Draining.{holds, free_pages_lem}
use hemem.Pebs.Invariant.Serving.{Servable}
use hemem.Pebs.Invariant.Answered.{Answered}
use hemem.Pebs.Invariant.Rings.{hot_requests_lem, cold_requests_lem}
use hemem.Pebs.Invariant.Onward.{label}
use hemem.Pebs.Invariant.Loop.{migrate_loop_lem}
use hemem.Pebs.Invariant.Tidy.{Tidy, Warm, Runnable, Drained-Tidy, Answered-Tidy, Tidy-Ready}

-- What an iteration leaves as it is: the addresses and clocks of all pages, whether they are
-- enforced, and the clock of the policy; the ring of freed pages is empty.
pub record Iterated {Table : Type 0} (s s' : State Table) : Type 0 where
  pub cursors : Cursors s'
  pub labels : (q : ℕ) → label (s'.page q) ≡ label (s.page q)
  pub clock : s'.pebs.global_clock ≡ s.pebs.global_clock
  pub free_ring : Holding [] s'.pebs.free_page_ring

module _ {Table : Type 0} where
  hot-Warm :
      (xs : List Ptr) (k : ℕ) (s s1 : State Table)
      → Answered (λ b. b.hot_ring) with_hot_ring true xs k s s1
      → Warm xs s
      → Warm [] s1
  hot-Warm xs k s s1 a w q h =
      let clock : s1.pebs.global_clock ≡ s.pebs.global_clock =
        ap (λ (b : Pebs). b.global_clock) a.pebs in
      rw (clock, a.page q)
        (w q (elim (Bool-cases (holds q xs)) [
          | inl asked ↦ ground (arith, asked)
          | inr other ↦ ground (arith, (a.still q (ground (arith, other))).0)
        ]))

  cold-Warm :
      (xs : List Ptr) (k : ℕ) (s s1 : State Table)
      → Answered (λ b. b.cold_ring) with_cold_ring false xs k s s1
      → Warm [] s
      → Warm [] s1
  cold-Warm xs k s s1 a w q h =
      let clock : s1.pebs.global_clock ≡ s.pebs.global_clock =
        ap (λ (b : Pebs). b.global_clock) a.pebs in
      rw (clock, a.page q)
        (w q (elim (a.heat q) [
          | inl old ↦ ground (arith, old)
          | inr is ↦ absurd (ground (arith, is))
        ]))

module _ {e : Env} {n : ℕ} where
  Answered-listed :
      {ring : Pebs → RingBuf} {with_ring : Pebs → RingBuf → Pebs} {h : Bool} {xs : List Ptr} {k : ℕ}
      (q : ℕ) (s s1 : State e.table.Table)
      → Inv e n s1
      → Answered ring with_ring h xs k s s1
      → is_null (list_of s q) ≡ false
      → is_null (list_of s1 q) ≡ false
  Answered-listed q s s1 inv a on = elim (Bool-cases (s1.page q).present) [
    | inl live ↦ rw ((inv.fits q).live live) refl
    | inr gone ↦
        let old : (s.page q).present ≡ false = rw (a.page q) at gone in
        rw (a.still q (ground (arith, old))).1 on
  ]

  Tidy-Servable :
      (q : ℕ) (s : State e.table.Table) → Tidy e n s → is_null (list_of s q) ≡ false → Servable q s
  Tidy-Servable q s t on = record {
    mapped = t.mapped q;
    freed = λ gone. elim (t.idle q gone) [ inl nil ↦ absurd (ground (arith, nil)) | inr is ↦ is ];
  }

  -- A whole iteration of the policy thread, with more rounds than there are pages and than each
  -- ring has entries, alone with the kernel serving its calls, when the pages in use have addresses
  -- and none is enforced, the pages given back are in their ring, the requests are for listed
  -- pages, no page that is hot or asked for as hot has missed 64 coolings, and a page is free: the
  -- iteration ends, no assertion fails and no shift is too far; the ring of freed pages is empty,
  -- the walks stand on the hot lists, all pages keep their addresses and clocks, and the invariant
  -- holds again, so that no page is lost and no frame is shared.
  pub policy_iteration_lem :
      (gs hs cs : List Ptr) (fuel : ℕ) (s : State e.table.Table)
      → Serves e.os
      → Runnable e n gs hs cs s
      → n < fuel
      → length gs < fuel
      → length hs < fuel
      → length cs < fuel
      → Returns (λ s'. Inv e n s' × Iterated s s') (policy_iteration e fuel s)
  unfolding policy_iteration
  policy_iteration_lem gs hs cs fuel s serves r pages more_gs more_hs more_cs =
      bind (free_pages_lem gs fuel s more_gs r.free_ring r.inv r.cursors r.given) λ s1 (inv1, d).
        let t1 = Drained-Tidy gs hs cs s s1 r inv1 d in
        let listed1 : (q : ℕ) → is_null (list_of s q) ≡ false → is_null (list_of s1 q) ≡ false =
          λ q on. ground (arith, d.place q) in
        bind
          (hot_requests_lem hs fuel s1 more_hs inv1 d.cursors
            (λ q m. Tidy-Servable q s1 t1 (listed1 q (r.known q (ground arith))))
            (rw (ap (λ (b : Pebs). b.hot_ring) d.pebs) r.hot_ring))
          λ s2 (inv2, a).
            let t2 = Answered-Tidy s1 s2 t1 inv2 a in
            bind
              (cold_requests_lem cs fuel s2 more_cs inv2 a.cursors
                (λ q m.
                  Tidy-Servable q s2 t2
                    (Answered-listed q s1 s2 inv2 a (listed1 q (r.known q (ground arith)))))
                (rw (ap (λ (b : Pebs). b.cold_ring) a.pebs, ap (λ (b : Pebs). b.cold_ring) d.pebs)
                  r.cold_ring))
              λ s3 (inv3, c).
                let t3 = Answered-Tidy s2 s3 t2 inv3 c in
                let w1 : Warm hs s1 = λ q h.
                  rw (d.page q, ap (λ (b : Pebs). b.global_clock) d.pebs)
                    (r.warm q (rw (d.page q) at h)) in
                let w3 =
                  cold-Warm cs cold_ring_reqs_threshold s2 s3 c
                    (hot-Warm hs hot_ring_reqs_threshold s1 s2 a w1) in
                mono
                  (migrate_loop_lem serves fuel 0 s3
                    (omega
                      (arith, inv3.count, entries-le-listed nvm_hot_list s3.store (omega arith)))
                    (Tidy-Ready s3 t3 w3))
                  λ s4 (inv4, z). (
                    inv4,
                    record {
                      cursors = z.cursors;
                      labels = λ q.
                          z.labels q
                          ∙ ap label (c.page q)
                          ∙ ap label (a.page q)
                          ∙ ap label (d.page q);
                      clock =
                          ap (λ (b : Pebs). b.global_clock) z.pebs
                          ∙ ap (λ (b : Pebs). b.global_clock) c.pebs
                          ∙ ap (λ (b : Pebs). b.global_clock) a.pebs
                          ∙ ap (λ (b : Pebs). b.global_clock) d.pebs;
                      free_ring =
                          subst (Holding [])
                            (sym (
                              ap (λ (b : Pebs). b.free_page_ring) z.pebs
                              ∙ ap (λ (b : Pebs). b.free_page_ring) c.pebs
                              ∙ ap (λ (b : Pebs). b.free_page_ring) a.pebs))
                            d.ring;
                    },
                  )
