-- ===== src/Pebs/Invariant/Move.antt =====
-- A page that has been taken off its list is changed and put on another one of its tier.
use hemem.Prelude.{
  ℕ, ◌+◌, same_ptr, ◌<◌, ◌≡◌, refl, ap, ◌∙◌, Bool, true, some, ◌==◌, if◌then◌else◌, arith, Returns,
  mono, Bool-cases, inl, inr,
}
use hemem.Fifo.Moves.{IsWell, entries, Dequeued, Enqueued}
use hemem.Memory.Page.{Page}
use hemem.Memory.Kernel.{Env}
use hemem.Memory.State.{State, set_store, set_page}
use hemem.Pebs.Lists.{list_of, home, is_dram_list, enqueue}
use hemem.Pebs.Invariant.{Inv, Fits, listed}
use hemem.Pebs.Invariant.Steps.{
  Relinked, listed-Enqueued, listed-Dequeued, entries-le-listed, enqueue_lem,
}

-- Page `p` is now `x` and on list `l`; no other page and no other part of the state changed.
pub record Replaced {Table : Type 0} (p l : ℕ) (x : Page) (s s' : State Table) : Type 0 where
  pub place : (q : ℕ) → list_of s' q ≡ (if q == p then some l else list_of s q)
  pub page : (q : ℕ) → s'.page q ≡ (if q == p then x else s.page q)
  pub rest : s' ≡ set_store (set_page s p x) s'.store
  pub count :
      (k : ℕ)
      → entries s'.store k + (if same_ptr (list_of s p) (some k) then 1 else 0)
        ≡ entries s.store k + (if k == l then 1 else 0)

-- Off one list and on another.
pub moves-Replaced :
    {Table : Type 0} (p l l' : ℕ) (x : Page) (s s1 s2 : State Table)
    → Relinked s s1 × Dequeued p l s.store s1.store
    → Relinked (set_page s1 p x) s2 × Enqueued p l' s1.store s2.store
    → Replaced p l' x s s2
moves-Replaced {Table} p l l' x s s1 s2 (eq1, out) (eq2, into) =
    let rest = eq2 ∙ ap (λ (t : State Table). set_store (set_page t p x) s2.store) eq1 in
    record {
      place = λ q. ground (arith, into.moved.place q, out.moved.place q);
      page = λ q. ap (λ t. t.page q) rest;
      rest = rest;
      count = λ k. ground (arith, into.count k, out.count k, out.was);
    }

pub home-lt : (d h : Bool) → home d h < 6
home-lt d h = ground arith

pub home-is_dram : (d h : Bool) → d ≡ is_dram_list (home d h)
home-is_dram d h = ground arith

-- The list of a page fits it, once it is allocated and on the list for its heat.
pub Fits-home :
    (e : Env) (pg x : Page) (l : ℕ)
    → Fits e (some l) pg
    → x.in_dram ≡ pg.in_dram
    → x.devdax_offset ≡ pg.devdax_offset
    → x.pt ≡ pg.pt
    → (x.hot ≡ true → x.present ≡ true)
    → Fits e (some (home pg.in_dram x.hot)) x
Fits-home e pg x l f d o t idle = record {
  known = λ k eq. ground (arith, home-lt pg.in_dram x.hot);
  tier = λ k eq. ground (arith, home-is_dram pg.in_dram x.hot);
  live = λ p. rw d refl;
  idle = idle;
  placed = λ k eq. rw (d, o, t) (f.placed l refl);
  huge = λ k eq. rw t (f.huge l refl);
}

module _ {e : Env} {n : ℕ} {s : State e.table.Table} (p : ℕ) (inv : Inv e n s) (l : ℕ)
    (at_l : list_of s p ≡ some l) (l' : ℕ) (x : Page) (fits : Fits e (some l') x)
    (same_tier : x.in_dram ≡ (s.page p).in_dram)
    (same_frame : x.devdax_offset ≡ (s.page p).devdax_offset) where
  Replaced-Inv :
      (s' : State e.table.Table)
      → Replaced p l' x s s'
      → IsWell s'.store
      → listed s'.store ≡ n
      → Inv e n s'
  Replaced-Inv s' c w same = record {
    well = w;
    count = same;
    small = inv.small;
    fits = λ q. elim (Bool-cases (q == p)) [
      | inl is ↦ rw (c.place q, c.page q, is) fits
      | inr ne ↦ rw (c.place q, c.page q, ne) (inv.fits q)
    ];
    apart = λ q r a b d o.
        inv.apart q r (ground (arith, c.place q)) (ground (arith, c.place r))
          (ground (arith, c.page q, c.page r)) (ground (arith, c.page q, c.page r));
  }

  pub replace_lem :
      (s1 : State e.table.Table)
      → Relinked s s1 × Dequeued p l s.store s1.store
      → l < 6
      → l' < 6
      → Returns (λ s2. Inv e n s2 × Replaced p l' x s s2) (enqueue l' p (set_page s1 p x))
  replace_lem s1 (eq1, out) l-lt l'-lt =
      let less = listed-Dequeued l out l-lt in
      mono
        (enqueue_lem l' p (set_page s1 p x) out.moved.well (ground (arith, out.moved.place p))
          (omega (arith, inv.count, inv.small, entries-le-listed l' s1.store l'-lt)))
        λ s2 (eq2, into).
          let c = moves-Replaced p l l' x s s1 s2 (eq1, out) (eq2, into) in
          (
            Replaced-Inv s2 c into.moved.well
                (omega (arith, inv.count, listed-Enqueued l' into l'-lt)),
            c,
          )
