-- ===== src/Pebs/Invariant/Tours.antt =====
-- What both walks of an iteration do to the pages of each hot list.
use hemem.Prelude.{
  ℕ, ◌≡◌, refl, sym, ap, ◌∙◌, Bool, inl, inr, true, false, not, ◌&&◌, some, none, Ptr, arith, List,
  [], ◌∷◌, ◌++◌, head_or, elem, elem-split, subst,
}
use hemem.Fifo.{Store}
use hemem.Fifo.Rep.{Rep, IsFifo}
use hemem.Memory.State.{State, Pebs}
use hemem.Pebs.Lists.{list_of, home}
use hemem.Pebs.Scan.{set_pebs}
use hemem.Pebs.Invariant.Ahead.{onto, take, split-onto}
use hemem.Pebs.Invariant.Cooled.{
  IsCold, IsHot, Stays, Cools, Cooled, OnHot, Judged, Stays-Cools, Stays-IsCold, Stays-IsHot,
  Cools-Stays,
}
use hemem.Pebs.Invariant.Visits.{visited}

append-nil : (xs : List ℕ) → xs ++ [] ≡ xs
append-nil [] = refl
append-nil (x ∷ xs) = ap (λ t. x ∷ t) (append-nil xs)

pub Rep-IsFifo :
    {m : Store} {L : ℕ → List ℕ} (l : ℕ) {xs : List ℕ} → Rep m L → L l ≡ xs → IsFifo m l xs
Rep-IsFifo {m} l r e = subst (λ xs. IsFifo m l xs) e (r.shape l)

module _ {Table : Type 0} where
  -- Where the next walk over a hot list goes on.
  abbrev pub cursor_of : Bool → State Table → Ptr
  cursor_of true s = s.pebs.cur_cool_in_dram
  cursor_of false s = s.pebs.cur_cool_in_nvm

  -- The fate of each page of a hot list: `ahead` are the pages from the cursor towards the start of
  -- the list, in the order of the walk, and none is visited unless the tier needs cooling.
  pub record Toured (dram : Bool) (s s' : State Table) : Type 0 where
    pub ahead : List ℕ
    pub behind : List ℕ
    pub order : IsFifo s.store (home dram true) (onto ahead behind)
    pub cursor : cursor_of dram s ≡ head_or behind none
    pub cold :
        (q : ℕ)
        → list_of s q ≡ some (home dram true)
        → visited dram ahead s q ≡ true
        → IsCold q s
        → Cools dram q s s'
    pub hot :
        (q : ℕ)
        → list_of s q ≡ some (home dram true)
        → visited dram ahead s q ≡ true
        → IsHot q s
        → Stays q s s'
    pub passed :
        (q : ℕ)
        → list_of s q ≡ some (home dram true)
        → visited dram ahead s q ≡ false
        → Stays q s s'

  pub Toured-pebs :
      (dram : Bool) (s s' : State Table) (b : Pebs)
      → Toured dram s s'
      → Toured dram s (set_pebs s' b)
  Toured-pebs dram s s' b t = record {
    ahead = t.ahead;
    behind = t.behind;
    order = t.order;
    cursor = t.cursor;
    cold = t.cold;
    hot = t.hot;
    passed = t.passed;
  }

  -- The cursor splits its list.
  pub split_at :
      (dram : Bool) (o : Ptr) (L : ℕ → List ℕ) (s : State Table)
      → Rep s.store L
      → OnHot dram o s
      → (xs : List ℕ) × (zs : List ℕ) × (L (home dram true) ≡ onto xs zs) × (o ≡ head_or zs none)
  split_at dram none L s r on =
      let (xs, same) = split-onto (L (home dram true)) in
      (xs, [], sym (append-nil _) ∙ sym (same []), refl)
  split_at dram (some p) L s r on =
      let (ys, zs, e) = elem-split p (L (home dram true)) (r.owned p _ (on p refl)) in
      let (xs, same) = split-onto ys in (xs, p ∷ zs, e ∙ sym (same (p ∷ zs)), refl)

  -- A walk over the other tier leaves a page alone.
  Cooled-keeps :
      (dram d : Bool) (q : ℕ) (s s' : State Table)
      → Cooled dram s s'
      → list_of s q ≡ some (home (not dram) d)
      → Stays q s s'
  Cooled-keeps dram d q s s' c at_l = elim (c.fate q) [
    | inl x ↦ x
    | inr (h, _, _, _) ↦ absurd (ground (arith, h, at_l))
  ]

  module _ (s s1 : State Table) (b : Pebs) (s2 : State Table) (c1 : Cooled true s s1)
      (c2 : Cooled false (set_pebs s1 b) s2) where
    pub first_tour :
        (xs zs : List ℕ)
        → IsFifo s.store (home true true) (onto xs zs)
        → cursor_of true s ≡ head_or zs none
        → Judged true (visited true xs s) s s1
        → Toured true s s2
    first_tour xs zs order cursor j = record {
      ahead = xs;
      behind = zs;
      order = order;
      cursor = cursor;
      cold = λ q at_l seen c.
          let x = j.cold q seen c in
          Cools-Stays true q s s1 s2 x (Cooled-keeps false false q (set_pebs s1 b) s2 c2 x.1);
      hot = λ q at_l seen h. still q at_l (j.hot q seen h);
      passed = λ q at_l seen. still q at_l (j.passed q seen);
    }
      where
        still : (q : ℕ) → list_of s q ≡ some (home true true) → Stays q s s1 → Stays q s s2
        still q at_l x =
            let y = Cooled-keeps false true q (set_pebs s1 b) s2 c2 (x.0 ∙ at_l) in
            (y.0 ∙ x.0, y.1 ∙ x.1)

    pub second_tour :
        (xs zs : List ℕ)
        → IsFifo s.store (home false true) (onto xs zs)
        → cursor_of false s ≡ head_or zs none
        → b.global_clock ≡ s.pebs.global_clock
        → b.need_cool_nvm ≡ s.pebs.need_cool_nvm
        → Judged false (visited false xs (set_pebs s1 b)) (set_pebs s1 b) s2
        → Toured false s s2
    second_tour xs zs order cursor clock need j = record {
      ahead = xs;
      behind = zs;
      order = order;
      cursor = cursor;
      cold = λ q at_l seen c.
          Stays-Cools false q s (set_pebs s1 b) s2 clock (was q at_l)
            (j'.cold q seen (Stays-IsCold q s (set_pebs s1 b) (was q at_l) clock c));
      hot = λ q at_l seen h.
          let y = j'.hot q seen (Stays-IsHot q s (set_pebs s1 b) (was q at_l) clock h) in
          (y.0 ∙ (was q at_l).0, y.1 ∙ (was q at_l).1);
      passed =
          λ q at_l seen. let y = j'.passed q seen in (y.0 ∙ (was q at_l).0, y.1 ∙ (was q at_l).1);
    }
      where
        was : (q : ℕ) → list_of s q ≡ some (home false true) → Stays q s (set_pebs s1 b)
        was q at_l = Cooled-keeps true true q s s1 c1 at_l

        j' : Judged false (visited false xs s) (set_pebs s1 b) s2
        j' = subst (λ v. Judged false (λ q. v && elem q (take 8192 xs)) (set_pebs s1 b) s2) need j
