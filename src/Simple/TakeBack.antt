-- ===== src/Simple/TakeBack.antt =====
-- About `simple_remove_page`, which takes a page back.
use hemem.Prelude.{
  ℕ, ◌+◌, ◌≡◌, refl, ap, ◌∙◌, subst, Bool, Bool-cases, inl, inr, true, false, Option, some, List,
  ◌∷◌, ◌++◌, arith, ◌==◌, if◌then◌else◌, length, elem, Distinct, elem-split, elem-append,
  length-append, Returns, returns, bind, sub64, ◌>>=◌, eq_of_==,
}
use hemem.Fifo.Rep.{Distinct-split}
use hemem.Fifo.Moves.{IsWell, entries, Enqueued}
use hemem.Memory.Page.{page_size}
use hemem.Memory.Kernel.{Env}
use hemem.Memory.State.{State}
use hemem.Pebs.Lists.{list_of, enqueue}
use hemem.Pebs.Invariant.Steps.{Relinked, page-Relinked, enqueue_lem}
use hemem.Simple.{
  set_fastmem, set_slowmem, simple_dram_free, simple_nvm_free, simple_remove_page, mark,
}
use hemem.Simple.Invariant.{free_of, counter, agrees, SimpleInv}

-- Page `p` is free again, its bytes are counted off, and no other page changed.
pub record TookBack {Table : Type 0} (d : Bool) (p : ℕ) (s s' : State Table) : Type 0 where
  pub page :
      (q : ℕ) → s'.page q ≡ (if q == p then record (s.page q) { present = false } else s.page q)
  pub place : (q : ℕ) → list_of s' q ≡ (if q == p then some (free_of d) else list_of s q)
  pub bytes : (c : Bool) → counter c s ≡ counter c s' + (if agrees d c then page_size else 0)

agrees-eq : (d c : Bool) → agrees d c ≡ true → c ≡ d
agrees-eq d c h = ground arith

module _ {e : Env} {s : State e.table.Table} (inv : SimpleInv e s) (p : ℕ)
    (live : (s.page p).present ≡ true) (d : Bool) (mine : (s.page p).in_dram ≡ d) (ys zs : List ℕ)
    (is : inv.used d ≡ ys ++ p ∷ zs) where
  split_c : (c : Bool) → agrees d c ≡ true → inv.used c ≡ ys ++ p ∷ zs
  split_c c same = ap inv.used (agrees-eq d c same) ∙ is

  long : (c : Bool) → agrees d c ≡ true → length (inv.used c) ≡ length (ys ++ zs) + 1
  long c same =
      ground (arith, ap length (split_c c same), length-append ys (p ∷ zs), length-append ys zs)

  TookBack-Inv :
      (s' : State e.table.Table)
      → IsWell s'.store
      → ((k : ℕ)
          → entries s'.store k
            ≡ (if k == free_of d then entries s.store k + 1 else entries s.store k))
      → TookBack d p s s'
      → SimpleInv e s'
  TookBack-Inv s' w count t =
      let apart = Distinct-split p ys zs (subst Distinct is (inv.distinct d)) in
      record {
        well = w;
        used = λ c. if agrees d c then ys ++ zs else inv.used c;
        distinct = λ c. elim (Bool-cases (agrees d c)) [
          | inl same ↦ rw same apart.5
          | inr other ↦ rw other (inv.distinct c)
        ];
        in_use = λ c q. elim (Bool-cases (agrees d c)) [
          | inl same ↦ rw same (
              ground (
                arith,
                ap (elem q) (split_c c same),
                elem-append q ys zs,
                elem-append q ys (p ∷ zs),
                inv.in_use c q,
                apart.2,
                apart.3,
                t.page q,
                eq_of_== q p,
              ))
          | inr other ↦
              rw other (ground (arith, inv.in_use c q, t.page q, eq_of_== q p, mine, other, live))
        ];
        busy = λ q h. ground (arith, t.page q, t.place q, inv.busy q);
        tier = λ q l h. ground (arith, t.page q, t.place q, inv.tier q l, mine, eq_of_== q p);
        bytes = λ c. elim (Bool-cases (agrees d c)) [
          | inl same ↦ rw same (omega (arith, rw same at (t.bytes c), inv.bytes c, long c same))
          | inr other ↦ rw other (omega (arith, rw other at (t.bytes c), inv.bytes c))
        ];
        fits = λ c. elim (Bool-cases (agrees d c)) [
          | inl same ↦
              let at_d : (free_of c == free_of d) ≡ true = ground (arith, same) in
              rw same (omega (arith, inv.fits c, long c same, rw at_d at (count (free_of c))))
          | inr other ↦
              let off_d : (free_of c == free_of d) ≡ false = ground (arith, other) in
              rw other (omega (arith, inv.fits c, rw off_d at (count (free_of c))))
        ];
        small = inv.small;
      }

  count_down : counter d s ≡ sub64 (counter d s) page_size + page_size
  count_down =
      let same : agrees d d ≡ true = ground arith in
      omega (arith, inv.bytes d, inv.fits d, inv.small d, long d same)

  put_back :
      (s1 s' : State e.table.Table)
      → Relinked (mark p false s) s1
      → Enqueued p (free_of d) s.store s1.store
      → s'.store ≡ s1.store
      → s'.page ≡ s1.page
      → ((c : Bool) → counter c s ≡ counter c s' + (if agrees d c then page_size else 0))
      → SimpleInv e s' × TookBack d p s s'
  put_back s1 s' same into store page bytes =
      let t : TookBack d p s s' = record {
        page = λ q.
            ap (λ f. f q) page
            ∙ page-Relinked (mark p false s) s1 q same
            ∙ elim (Bool-cases (q == p)) [
              | inl at_p ↦ rw (at_p, eq_of_== q p at_p) refl
              | inr ne ↦ rw ne refl
            ];
        place = λ q. rw store (into.moved.place q);
        bytes = bytes;
      } in
      (TookBack-Inv s' (rw store into.moved.well) (λ k. rw store (into.count k)) t, t)

  -- The code of either branch.
  back_fast : Option (State e.table.Table)
  back_fast = do
    s ← enqueue simple_dram_free p (mark p false s)
    some (set_fastmem (sub64 s.simple.fastmem page_size) s)

  back_slow : Option (State e.table.Table)
  back_slow = do
    s ← enqueue simple_nvm_free p (mark p false s)
    some (set_slowmem (sub64 s.simple.slowmem page_size) s)

  branch : (b : Bool) → d ≡ b → simple_remove_page p s ≡ (if b then back_fast else back_slow)
  unfolding simple_remove_page back_fast back_slow
  branch b h = ap (λ x. if x then back_fast else back_slow) (mine ∙ h)

  queued :
      Returns
        (λ s1. Relinked (mark p false s) s1 × Enqueued p (free_of d) s.store s1.store)
        (enqueue (free_of d) p (mark p false s))
  queued =
      enqueue_lem (free_of d) p (mark p false s) inv.well (inv.busy p live)
        (omega (arith, inv.fits d, inv.small d))

  queued_on :
      (b : Bool)
      → d ≡ b
      → Returns
          (λ s1. Relinked (mark p false s) s1 × Enqueued p (free_of d) s.store s1.store)
          (enqueue (free_of b) p (mark p false s))
  queued_on b h =
      subst
        (λ x.
          Returns (λ s1. Relinked (mark p false s) s1 × Enqueued p (free_of d) s.store s1.store)
            (enqueue (free_of x) p (mark p false s)))
        h queued

  remove_found : Returns (λ s'. SimpleInv e s' × TookBack d p s s') (simple_remove_page p s)
  unfolding back_fast back_slow
  remove_found = elim (Bool-cases d) [
    | inl fast ↦ rw (branch true fast) (
        bind (queued_on true fast) λ s1 (same, into).
          let simple : s1.simple ≡ s.simple = ap (λ (t : State e.table.Table). t.simple) same in
          returns
            (put_back s1 _ same into refl refl (λ c. rw simple (ground (arith, fast, count_down)))))
    | inr slow ↦ rw (branch false slow) (
        bind (queued_on false slow) λ s1 (same, into).
          let simple : s1.simple ≡ s.simple = ap (λ (t : State e.table.Table). t.simple) same in
          returns
            (put_back s1 _ same into refl refl (λ c. rw simple (ground (arith, slow, count_down)))))
  ]

-- A page in use is given back: no assertion fails, it is free again, its bytes are counted off, and
-- the invariant holds again.
pub simple_remove_page_lem :
    {e : Env} {s : State e.table.Table} (p : ℕ)
    → SimpleInv e s
    → (s.page p).present ≡ true
    → Returns (λ s'. SimpleInv e s' × TookBack (s.page p).in_dram p s s') (simple_remove_page p s)
simple_remove_page_lem {e} {s} p inv live =
    let d = (s.page p).in_dram in
    let (ys, zs, is) = elem-split p (inv.used d) (ground (arith, inv.in_use d p)) in
    remove_found inv p live d refl ys zs is
