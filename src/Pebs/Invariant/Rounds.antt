-- ===== src/Pebs/Invariant/Rounds.antt =====
-- The order of the lists in one round of the walk of `partial_cool`.
use hemem.Prelude.{
  ==_refl, ℕ, ◌<◌, ◌^◌, ◌+◌, ◌≡◌, refl, sym, ap, ◌∙◌, Bool, Bool-cases, inl, inr, true, false, not,
  some, none, Ptr, arith, Returns, returns, bind, check, ltb, ◌==◌, if◌then◌else◌, add64, update,
  subst, same_ptr, ◌≤◌, ◌>>=◌, ◌/◌, ◌^◌, List, ◌∷◌, ◌++◌, head_or, length, length-append, suc,
}
use hemem.Fifo.{Store}
use hemem.Fifo.Rep.{Rep}
use hemem.Fifo.Insert.{enqueue_fifo_refines}
use hemem.Fifo.Unlink.{page_list_remove_page_refines, TakenOff, split-Seg}
use hemem.Fifo.Moves.{entries}
use hemem.Memory.Kernel.{Env}
use hemem.Memory.State.{State, Pebs}
use hemem.Pebs.Lists.{list_of, home, remove, enqueue, set_hot}
use hemem.Pebs.Scan.{hot_read_threshold}
use hemem.Pebs.Cool.{cool_page, start_page, need_cool, end_round}
use hemem.Pebs.Invariant.{Inv, listed}
use hemem.Pebs.Invariant.Move.{home-is_dram}
use hemem.Pebs.Invariant.Cooled.{late, cooled_total_lem}
use hemem.Pebs.Invariant.Ahead.{onto, onto-split}

module _ {Table : Type 0} where
  -- The lists after a round or a walk over the hot list: the pages `xs` are ahead of the cursor `o`,
  -- and the other tier needs cooling as `other` says.
  pub record Stands (dram : Bool) (xs : List ℕ) (L : ℕ → List ℕ) (other : Bool) (o : Ptr)
      (s : State Table) : Type 0 where
    pub behind : List ℕ
    pub seqs : ℕ → List ℕ
    pub rep : Rep s.store seqs
    pub order : seqs (home dram true) ≡ onto xs behind
    pub cursor : o ≡ head_or behind none
    pub others :
        (k : ℕ) → (k == home dram true) ≡ false → (k == home dram false) ≡ false → seqs k ≡ L k
    pub need : need_cool (not dram) s ≡ other

  need_of :
      (dram : Bool) (s s' : State Table)
      → s'.pebs ≡ s.pebs
      → need_cool (not dram) s' ≡ need_cool (not dram) s
  need_of true s s' is = ap (λ (b : Pebs). b.need_cool_nvm) is
  need_of false s s' is = ap (λ (b : Pebs). b.need_cool_dram) is

  hot_need :
      (dram : Bool) (p : ℕ) (s : State Table)
      → need_cool (not dram) (set_hot p false s) ≡ need_cool (not dram) s
  hot_need true p s = refl
  hot_need false p s = refl

  remove_order :
      {L : ℕ → List ℕ} (l p : ℕ) (ys zs : List ℕ) (s : State Table)
      → Rep s.store L
      → L l ≡ ys ++ p ∷ zs
      → Returns
          (λ s'.
            Rep s'.store (update L l (ys ++ zs)) × TakenOff p s.store s'.store × (s'.pebs ≡ s.pebs))
          (remove l p s)
  unfolding remove
  remove_order l p ys zs s r e =
      bind (page_list_remove_page_refines p l r ys zs e) λ m (x, y). returns (x, y, refl)

  enqueue_order :
      {L : ℕ → List ℕ} (l p : ℕ) (s : State Table)
      → Rep s.store L
      → list_of s p ≡ none
      → suc (length (L l)) < 2 ^ 64
      → Returns (λ s'. Rep s'.store (update L l (p ∷ L l)) × (s'.pebs ≡ s.pebs)) (enqueue l p s)
  unfolding enqueue
  enqueue_order l p s r free room =
      bind (enqueue_fifo_refines p l r free room) λ m x. returns (x.0, refl)

  module _ (dram : Bool) (p : ℕ) (xs zs : List ℕ) (L : ℕ → List ℕ) (s : State Table)
      (r : Rep s.store L) (ahead : L (home dram true) ≡ onto xs (p ∷ zs)) where
    next_lem : (s.store.link p).next ≡ head_or zs none
    next_lem =
        let (ys, same, _) = onto-split xs in
        ap (λ l. l.next) ((split-Seg p (home dram true) ys zs r (ahead ∙ same (p ∷ zs))).1)

    leaves_order :
        suc (length (L (home dram false))) < 2 ^ 64
        → (t : State Table) → t.store ≡ s.store
        → need_cool (not dram) t ≡ need_cool (not dram) s
        → Returns
            (λ (o, s'). Stands dram xs L (need_cool (not dram) s) o s')
            (do
              let next = (t.store.link p).next
              s ← remove (home dram true) p t
              s ← enqueue (home dram false) p s
              some (next, s))
    leaves_order room t is need =
        let (ys, same, _) = onto-split xs in
        let r1 : Rep t.store L = subst (λ m. Rep m L) (sym is) r in
        let apart : (home dram true == home dram false) ≡ false = ground arith in
        let apart' : (home dram false == home dram true) ≡ false = ground arith in
        bind (remove_order {L = L} (home dram true) p ys zs t r1 (ahead ∙ same (p ∷ zs)))
          λ s1 (r1, off, p1).
            bind
              (enqueue_order (home dram false) p s1 r1 (off p ∙ rw ==_refl refl) (rw apart' room))
              λ s2 (r2, p2). returns (record {
                behind = zs;
                seqs = _;
                rep = r2;
                order = rw (apart, ==_refl) (sym (same zs));
                cursor = ap (λ m. (m.link p).next) is ∙ next_lem;
                others = λ k a b. rw (a, b) refl;
                need = need_of dram t s2 (p2 ∙ p1) ∙ need;
              })

  stays_order :
      (dram : Bool) (p : ℕ) (xs zs : List ℕ) (L : ℕ → List ℕ) (s t : State Table)
      → Rep s.store L
      → L (home dram true) ≡ onto xs (p ∷ zs)
      → t.store ≡ s.store
      → need_cool (not dram) t ≡ need_cool (not dram) s
      → Stands dram xs L (need_cool (not dram) s) (some p) t
  stays_order dram p xs zs L s t r ahead is need = record {
    behind = p ∷ zs;
    seqs = L;
    rep = subst (λ m. Rep m L) (sym is) r;
    order = ahead;
    cursor = refl;
    others = λ k a b. refl;
    need = need;
  }

  end_store :
      (dram : Bool) (b : Bool) (s : State Table)
      → (if b then end_round dram s else s).store ≡ s.store
  end_store true true s = refl
  end_store true false s = refl
  end_store false true s = refl
  end_store false false s = refl

  end_need :
      (dram : Bool) (b : Bool) (s : State Table)
      → need_cool (not dram) (if b then end_round dram s else s) ≡ need_cool (not dram) s
  end_need true true s = refl
  end_need true false s = refl
  end_need false true s = refl
  end_need false false s = refl

  end_page :
      (dram : Bool) (b : Bool) (s : State Table) → (if b then end_round dram s else s).page ≡ s.page
  end_page true true s = refl
  end_page true false s = refl
  end_page false true s = refl
  end_page false false s = refl

two_lists :
    (dram : Bool) (m : Store) → entries m (home dram true) + entries m (home dram false) ≤ listed m
two_lists true m = omega arith
two_lists false m = omega arith

module _ {e : Env} {n : ℕ} where
  room_lem :
      (dram : Bool) (p : ℕ) (ys zs : List ℕ) (L : ℕ → List ℕ) (s : State e.table.Table)
      → Inv e n s
      → Rep s.store L
      → L (home dram true) ≡ ys ++ p ∷ zs
      → suc (length (L (home dram false))) < 2 ^ 64
  room_lem dram p ys zs L s inv r is = omega (
    arith,
    two_lists dram s.store,
    inv.count,
    inv.small,
    (r.shape (home dram true)).count,
    (r.shape (home dram false)).count,
    ap length is,
    length-append ys (p ∷ zs),
  )

  pub cool_page_order :
      (dram : Bool) (p : ℕ) (xs zs : List ℕ) (L : ℕ → List ℕ) (s : State e.table.Table)
      → Inv e n s
      → Rep s.store L
      → L (home dram true) ≡ onto xs (p ∷ zs)
      → list_of s p ≡ some (home dram true)
      → late p s < 64
      → Returns
          (λ (o, s'). Stands dram xs L (need_cool (not dram) s) o s')
          (cool_page (home dram true) (home dram false) dram p s)
  unfolding cool_page
  cool_page_order dram p xs zs L s inv r ahead at_l fresh =
      let tier : (s.page p).in_dram ≡ dram =
        (inv.fits p).tier (home dram true) at_l ∙ sym (home-is_dram dram true) in
      let (ys, same, _) = onto-split xs in
      let room = room_lem dram p ys zs L s inv r (ahead ∙ same (p ∷ zs)) in
      let t =
        add64 ((s.page p).accesses.dram / 2 ^ late p s) ((s.page p).accesses.nvm / 2 ^ late p s) in
      let is = cooled_total_lem p s fresh in
      let ends = same_ptr (some p) (start_page dram s) in
      check (if dram then (s.page p).in_dram else not (s.page p).in_dram) (ground (arith, tier)) (
        rw is (elim (Bool-cases (ltb t hot_read_threshold)) [
          | inl lt ↦
              rw (lt, end_page dram ends (set_hot p false s), ==_refl)
                (leaves_order dram p xs zs L s r ahead room _
                  (end_store dram ends (set_hot p false s))
                  (end_need dram ends (set_hot p false s) ∙ hot_need dram p s))
          | inr ge ↦
              rw (ge, end_page dram ends s)
                (elim (Bool-cases (s.page p).hot) [
                  | inl hot ↦ rw hot (
                      returns (
                        stays_order dram p xs zs L s _ r ahead (end_store dram ends s)
                          (end_need dram ends s)))
                  | inr was ↦ rw was (
                      leaves_order dram p xs zs L s r ahead room _ (end_store dram ends s)
                        (end_need dram ends s))
                ])
        ]))
