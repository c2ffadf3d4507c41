-- ===== src/Pebs/Invariant/Off.antt =====
-- The invariant while the policy thread holds pages that are on no list.
use hemem.Prelude.{
  ℕ, suc, ◌+◌, ◌-◌, ◌≢◌, ◌<◌, ◌^◌, ◌≡◌, ap, ◌∙◌, Bool, Bool-cases, inl, inr, true, false, not, ◌||◌,
  none, some, Ptr, is_null, ◌==◌, arith, update, Returns, mono, eq_of_==,
}
use hemem.Fifo.Moves.{IsWell, entries, Enqueued, Dequeued}
use hemem.Memory.Page.{hugep}
use hemem.Memory.Kernel.{Env}
use hemem.Memory.State.{State, set_store}
use hemem.Pebs.Lists.{list_of, enqueue, dequeue}
use hemem.Pebs.Invariant.{Inv, Fits, Placed, listed}
use hemem.Pebs.Invariant.Steps.{
  Relinked, TakenFrom, page-Relinked, dequeue_lem, enqueue_lem, listed-Dequeued, listed-Enqueued,
  entries-le-listed,
}

-- The page is on a list or held.
abbrev pub kept : {Table : Type 0} → (ℕ → Bool) → State Table → ℕ → Bool
kept off s q = off q || not (is_null (list_of s q))

-- `n` pages in all, `k` of them held, which are those where `off` is true.
pub record InvOff (e : Env) (n k : ℕ) (off : ℕ → Bool) (s : State e.table.Table) : Type 0 where
  pub well : IsWell s.store
  pub count : listed s.store + k ≡ n
  pub small : n < 2 ^ 64
  pub fits : (q : ℕ) → off q ≡ false → Fits e (list_of s q) (s.page q)
  pub loose : (q : ℕ) → off q ≡ true → list_of s q ≡ none
  pub framed : (q : ℕ) → off q ≡ true → Placed e (s.page q) × ((s.page q).pt ≡ hugep)
  pub apart :
      (q r : ℕ)
      → kept off s q ≡ true
      → kept off s r ≡ true
      → (s.page q).in_dram ≡ (s.page r).in_dram
      → (s.page q).devdax_offset ≡ (s.page r).devdax_offset
      → q ≡ r

abbrev pub nobody : ℕ → Bool
nobody _ = false

module _ {e : Env} {n : ℕ} where
  pub Inv-InvOff : {s : State e.table.Table} → Inv e n s → InvOff e n 0 nobody s
  Inv-InvOff inv = record {
    well = inv.well;
    count = omega (arith, inv.count);
    small = inv.small;
    fits = λ q _. inv.fits q;
    loose = λ q h. absurd (ground arith);
    framed = λ q h. absurd (ground arith);
    apart = λ q r a b. inv.apart q r (ground arith) (ground arith);
  }

  pub InvOff-Inv :
      {off : ℕ → Bool} {s : State e.table.Table}
      → InvOff e n 0 off s
      → ((q : ℕ) → off q ≡ false)
      → Inv e n s
  InvOff-Inv inv all = record {
    well = inv.well;
    count = omega (arith, inv.count);
    small = inv.small;
    fits = λ q. inv.fits q (all q);
    apart = λ q r a b. inv.apart q r (ground arith) (ground arith);
  }

-- What `dequeue` gives: the list was empty and nothing changed, or the page is held now.
abbrev pub Took :
    (e : Env) → ℕ → ℕ → (ℕ → Bool) → State e.table.Table → ℕ → Ptr × State e.table.Table → Type 0
Took e n k off s l (none, s1) = (s1 ≡ s) × (entries s.store l ≡ 0)
Took e n k off s l (some p, s1) =
    Relinked s s1 × Dequeued p l s.store s1.store × InvOff e n (suc k) (update off p true) s1

module _ {e : Env} {n k : ℕ} {off : ℕ → Bool} {s : State e.table.Table} where
  -- Taking a page off a list.
  take_held :
      (l p : ℕ) (s1 : State e.table.Table)
      → l < 6
      → InvOff e n k off s
      → Relinked s s1
      → Dequeued p l s.store s1.store
      → InvOff e n (suc k) (update off p true) s1
  take_held l p s1 lt inv same out =
      let on_list : off p ≡ false = ground (arith, out.was, inv.loose p) in
      let f = inv.fits p on_list in
      record {
        well = out.moved.well;
        count = omega (arith, inv.count, listed-Dequeued l out lt);
        small = inv.small;
        fits = λ q h.
            let other : (q == p) ≡ false = ground arith in
            rw (out.moved.place q, page-Relinked s s1 q same, other) (inv.fits q (ground arith));
        loose = λ q h. ground (arith, out.moved.place q, inv.loose q);
        framed = λ q h. elim (Bool-cases (q == p)) [
          | inl is ↦
              rw (page-Relinked s s1 q same, eq_of_== q p is) (f.placed l out.was, f.huge l out.was)
          | inr ne ↦ rw (page-Relinked s s1 q same) (inv.framed q (ground arith))
        ];
        apart = λ q r a b d o.
            inv.apart q r (ground (arith, out.moved.place q, out.was))
              (ground (arith, out.moved.place r, out.was))
              (ground (arith, page-Relinked s s1 q same, page-Relinked s s1 r same))
              (ground (arith, page-Relinked s s1 q same, page-Relinked s s1 r same));
      }

  -- Putting a held page on a list that fits it.
  put_held :
      (l p : ℕ) (s1 : State e.table.Table)
      → l < 6
      → k ≢ 0
      → InvOff e n k off s
      → off p ≡ true
      → Fits e (some l) (s.page p)
      → Relinked s s1
      → Enqueued p l s.store s1.store
      → InvOff e n (k - 1) (update off p false) s1
  put_held l p s1 lt some_held inv held fit same into = record {
    well = into.moved.well;
    count = omega (arith, inv.count, listed-Enqueued l into lt);
    small = inv.small;
    fits = λ q h. elim (Bool-cases (q == p)) [
      | inl is ↦ rw (into.moved.place q, page-Relinked s s1 q same, is, eq_of_== q p is) fit
      | inr ne ↦ rw (into.moved.place q, page-Relinked s s1 q same, ne) (inv.fits q (ground arith))
    ];
    loose = λ q h. ground (arith, into.moved.place q, inv.loose q);
    framed = λ q h. rw (page-Relinked s s1 q same) (inv.framed q (ground arith));
    apart = λ q r a b d o.
        inv.apart q r (ground (arith, into.moved.place q)) (ground (arith, into.moved.place r))
          (ground (arith, page-Relinked s s1 q same, page-Relinked s s1 r same))
          (ground (arith, page-Relinked s s1 q same, page-Relinked s s1 r same));
  }

  pub dequeue_held :
      (l : ℕ) → l < 6 → InvOff e n k off s → Returns (Took e n k off s l) (dequeue l s)
  dequeue_held l lt inv = mono (dequeue_lem l s inv.well) go
    where
      go : (r : Ptr × State e.table.Table) → TakenFrom l s r → Took e n k off s l r
      go (none, s1) (same, taken) = (same ∙ ap (λ m. set_store s m) taken.0, taken.1)
      go (some p, s1) (same, out) = (same, out, take_held l p s1 lt inv same out)

  pub enqueue_held :
      (l p : ℕ)
      → l < 6
      → k ≢ 0
      → InvOff e n k off s
      → off p ≡ true
      → Fits e (some l) (s.page p)
      → Returns
          (λ s1.
            Relinked s s1
            × Enqueued p l s.store s1.store
            × InvOff e n (k - 1) (update off p false) s1)
          (enqueue l p s)
  enqueue_held l p lt held inv at_p fit =
      mono
        (enqueue_lem l p s inv.well (inv.loose p at_p)
          (omega (arith, inv.count, inv.small, entries-le-listed l s.store lt)))
        λ s1 (same, into). (same, into, put_held l p s1 lt held inv at_p fit same into)
