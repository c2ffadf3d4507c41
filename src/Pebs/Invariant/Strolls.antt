-- ===== src/Pebs/Invariant/Strolls.antt =====
-- The walk of `partial_cool`: which pages it visits, and what becomes of each.
use hemem.Prelude.{
  ℕ, zero, suc, ◌≡◌, refl, ap, ◌∙◌, Bool, Bool-cases, inl, inr, true, false, not, some, none, arith,
  Returns, returns, bind, mono, both, ◌||◌, List, [], ◌∷◌, head_or, last_or, last_or-append, elem,
  elem-append, ==_refl, subst, Ptr,
}
use hemem.Fifo.Rep.{Rep, elem-list}
use hemem.Fifo.Unlink.{next_page_refines}
use hemem.Fifo.{next_page}
use hemem.Memory.Kernel.{Env}
use hemem.Memory.State.{State, Pebs}
use hemem.Pebs.Lists.{list_of, home}
use hemem.Pebs.Scan.{set_pebs}
use hemem.Pebs.Cool.{cool_loop, need_cool}
use hemem.Pebs.Invariant.{Inv}
use hemem.Pebs.Invariant.Ahead.{onto, take, onto-split}
use hemem.Pebs.Invariant.Cooled.{
  Stays, Cooled, OnHot, Fresh, Judged, Cools-Cooled, Cooled-Fresh, Cooled-trans, Stays-Cools,
  Stays-IsCold, Stays-IsHot, same_clock, Cooled-refl,
}
use hemem.Pebs.Invariant.Cooling.{cool_page_lem}
use hemem.Pebs.Invariant.Rounds.{Stands, cool_page_order}

module _ {Table : Type 0} where
  pub Judged-trans :
      (dram : Bool) (a b : ℕ → Bool) (s s1 s2 : State Table)
      → Cooled dram s s1
      → Cooled dram s1 s2
      → Judged dram a s s1
      → Judged dram b s1 s2
      → Judged dram (λ q. a q || b q) s s2
  Judged-trans dram a b s s1 s2 c1 c2 j1 j2 = record {
    cold = λ q is c. elim (Bool-cases (a q)) [
      | inl at_a ↦ Cools-Cooled dram q s s1 s2 (j1.cold q at_a c) c2
      | inr no_a ↦
          let st = j1.passed q no_a in
          let clock = same_clock s s1 c1.pebs in
          Stays-Cools dram q s s1 s2 clock st
            (j2.cold q (ground (arith, is, no_a)) (Stays-IsCold q s s1 st clock c))
    ];
    hot = λ q is h.
        let st : Stays q s s1 = elim (Bool-cases (a q)) [
          | inl at_a ↦ j1.hot q at_a h
          | inr no_a ↦ j1.passed q no_a
        ] in
        let st2 : Stays q s1 s2 = elim (Bool-cases (b q)) [
          | inl at_b ↦ j2.hot q at_b (Stays-IsHot q s s1 st (same_clock s s1 c1.pebs) h)
          | inr no_b ↦ j2.passed q no_b
        ] in
        (st2.0 ∙ st.0, st2.1 ∙ st.1);
    passed = λ q is.
        let st = j1.passed q (ground (arith, is)) in
        let st2 = j2.passed q (ground (arith, is)) in (st2.0 ∙ st.0, st2.1 ∙ st.1);
  }

  pub Judged-none :
      (dram : Bool) (s : State Table) (b : Pebs) → Judged dram (λ q. false) s (set_pebs s b)
  Judged-none dram s b = record {
    cold = λ q is. absurd (ground (arith, is));
    hot = λ q is h. (refl, refl);
    passed = λ q is. (refl, refl);
  }

  -- What a walk leaves that has the pages `xs` ahead of it and visits the first `i` of them.
  abbrev pub Strolled : ℕ → Bool → List ℕ → (ℕ → List ℕ) → State Table → Ptr × State Table → Type 0
  Strolled i dram xs L s (o, s') =
      Judged dram (λ q. elem q (take i xs)) s s'
      × (ys : List ℕ) × Stands dram ys L (need_cool (not dram) s) o s'

  next_ahead :
      (l : ℕ) (xs zs : List ℕ) (L : ℕ → List ℕ) (s : State Table)
      → Rep s.store L
      → L l ≡ onto xs zs
      → next_page l (head_or zs none) s.store ≡ some (head_or xs none)
  unfolding next_page
  next_ahead l xs [] L s r is =
      let (ys, same, last) = onto-split xs in
      ap some (
        (r.shape l).last
        ∙ ap (λ t. last_or t none) (is ∙ same [])
        ∙ last_or-append ys [] none
        ∙ last)
  next_ahead l xs (z ∷ zs) L s r is =
      let (ys, same, last) = onto-split xs in
      (next_page_refines z l ys zs r (is ∙ same (z ∷ zs))).0 ∙ ap some last

  ahead_at :
      (l p : ℕ) (xs zs : List ℕ) (L : ℕ → List ℕ) (s : State Table)
      → Rep s.store L
      → L l ≡ onto xs (p ∷ zs)
      → list_of s p ≡ some l
  ahead_at l p xs zs L s r is =
      let (ys, same, _) = onto-split xs in
      elem-list r p l (rw (is, same (p ∷ zs), elem-append p ys (p ∷ zs), ==_refl) (ground arith))

  pub cursor-OnHot :
      (dram : Bool) (xs zs : List ℕ) (L : ℕ → List ℕ) (s : State Table)
      → Rep s.store L
      → L (home dram true) ≡ onto xs zs
      → OnHot dram (head_or zs none) s
  cursor-OnHot dram xs [] L s r is q h = absurd (ground (arith, h))
  cursor-OnHot dram xs (z ∷ zs) L s r is q h =
      subst (λ q. list_of s q ≡ some (home dram true)) (ground (arith, h))
        (ahead_at (home dram true) z xs zs L s r is)

  pub standing :
      (dram : Bool) (xs zs : List ℕ) (L : ℕ → List ℕ) (s : State Table)
      → Rep s.store L
      → L (home dram true) ≡ onto xs zs
      → Stands dram xs L (need_cool (not dram) s) (head_or zs none) s
  standing dram xs zs L s r is = record {
    behind = zs;
    seqs = L;
    rep = r;
    order = is;
    cursor = refl;
    others = λ k a b. refl;
    need = refl;
  }

  Stands-trans :
      (dram : Bool) (xs ys : List ℕ) (L : ℕ → List ℕ) (v w : Bool) (o o1 : Ptr) (s s1 : State Table)
      → (st : Stands dram ys L v o1 s1) → Stands dram xs st.seqs w o s
      → w ≡ v
      → Stands dram xs L v o s
  Stands-trans dram xs ys L v w o o1 s s1 first st is = record {
    behind = st.behind;
    seqs = st.seqs;
    rep = st.rep;
    order = st.order;
    cursor = st.cursor;
    others = λ k a b. st.others k a b ∙ first.others k a b;
    need = st.need ∙ is;
  }

module _ {e : Env} {n : ℕ} where
  pub cool_loop_order :
      (i : ℕ) (dram : Bool) (xs zs : List ℕ) (L : ℕ → List ℕ) (s : State e.table.Table)
      → Inv e n s
      → Fresh dram s
      → Rep s.store L
      → L (home dram true) ≡ onto xs zs
      → Returns
          (λ (o, s').
            Inv e n s' × Cooled dram s s' × OnHot dram o s' × Strolled i dram xs L s (o, s'))
          (cool_loop i (home dram true) (home dram false) dram (head_or zs none) s)
  unfolding cool_loop take
  cool_loop_order zero dram xs zs L s inv f r is = returns (
    inv,
    Cooled-refl dram s s.pebs refl,
    cursor-OnHot dram xs zs L s r is,
    (Judged-none dram s s.pebs, xs, standing dram xs zs L s r is),
  )
  cool_loop_order (suc i) dram [] zs L s inv f r is =
      rw (next_ahead (home dram true) [] zs L s r is) (
        returns (
          inv,
          Cooled-refl dram s s.pebs refl,
          cursor-OnHot dram [] zs L s r is,
          (Judged-none dram s s.pebs, [], standing dram [] zs L s r is),
        ))
  cool_loop_order (suc i) dram (p ∷ xs) zs L s inv f r is =
      let at_p = ahead_at (home dram true) p xs zs L s r is in
      rw (next_ahead (home dram true) (p ∷ xs) zs L s r is, cool_loop)
        (bind
          (both (cool_page_lem dram p s inv at_p (f p at_p))
            (cool_page_order dram p xs zs L s inv r is at_p (f p at_p)))
          λ (o, s1) ((inv1, c1, on1, j1), st). rw st.cursor (
            mono
              (cool_loop_order i dram xs st.behind st.seqs s1 inv1
                (Cooled-Fresh dram dram s s1 c1 f) st.rep st.order)
              λ (o2, s2) (inv2, c2, on2, (j2, ys, st2)). (
                inv2,
                Cooled-trans dram s s1 s2 c1 c2,
                on2,
                (
                  Judged-trans dram _ _ s s1 s2 c1 c2 j1 j2,
                  ys,
                  Stands-trans dram ys xs L _ _ o2 o s2 s1 st st2 st.need,
                ),
              )))
