-- ===== src/Pebs/Invariant/Visits.antt =====
-- A call of `partial_cool`: whether it walks at all, which pages it visits, what becomes of each.
use hemem.Prelude.{
  ℕ, ◌≡◌, refl, sym, Bool, Bool-cases, inl, inr, true, false, not, ◌&&◌, Ptr, is_null, Returns,
  returns, mono, if◌then◌else◌, List, head_or, elem, none, subst,
}
use hemem.Fifo.Rep.{Rep}
use hemem.Memory.Kernel.{Env}
use hemem.Memory.State.{State, Pebs}
use hemem.Pebs.Lists.{home}
use hemem.Pebs.Scan.{set_pebs}
use hemem.Pebs.Cool.{partial_cool, start_page, set_start, need_cool, cooling_pages}
use hemem.Pebs.Invariant.{Inv}
use hemem.Pebs.Invariant.Ahead.{onto, take}
use hemem.Pebs.Invariant.Draining.{ring-Inv}
use hemem.Pebs.Invariant.Cooled.{
  Walking, Cooled, Cooled-refl, Cooled-trans, Cooled-Fresh, OnHot, Fresh, Judged,
}
use hemem.Pebs.Invariant.Rounds.{Stands}
use hemem.Pebs.Invariant.Strolls.{
  Judged-none, Judged-trans, cool_loop_order, standing, cursor-OnHot,
}

module _ {Table : Type 0} where
  starting : Bool → State Table → Pebs
  starting dram s =
      if is_null (start_page dram s)
      then (set_start dram (s.store.fifo (home dram true)).last s).pebs
      else s.pebs

  start_lem :
      (dram : Bool) (s : State Table)
      → ((if is_null (start_page dram s)
            then set_start dram (s.store.fifo (home dram true)).last s
            else s)
          ≡ set_pebs s (starting dram s))
        × Walking s.pebs (starting dram s)
  unfolding starting
  start_lem true s = elim (Bool-cases (is_null s.pebs.start_dram_page)) [
    | inl is ↦ rw is (refl, refl)
    | inr set ↦ rw set (refl, refl)
  ]
  start_lem false s = elim (Bool-cases (is_null s.pebs.start_nvm_page)) [
    | inl is ↦ rw is (refl, refl)
    | inr set ↦ rw set (refl, refl)
  ]

  -- With the pages `xs` ahead, page `q` is visited.
  abbrev pub visited : Bool → List ℕ → State Table → ℕ → Bool
  visited dram xs s q = need_cool dram s && elem q (take 8192 xs)

  abbrev pub Visited : Bool → List ℕ → (ℕ → List ℕ) → State Table → Ptr × State Table → Type 0
  Visited dram xs L s (o, s') =
      Judged dram (visited dram xs s) s s'
      × (ys : List ℕ) × Stands dram ys L (need_cool (not dram) s) o s'

  starting_need :
      (dram : Bool) (s : State Table)
      → need_cool (not dram) (set_pebs s (starting dram s)) ≡ need_cool (not dram) s
  unfolding starting
  starting_need true s = elim (Bool-cases (is_null s.pebs.start_dram_page)) [
    | inl is ↦ rw is refl
    | inr set ↦ rw set refl
  ]
  starting_need false s = elim (Bool-cases (is_null s.pebs.start_nvm_page)) [
    | inl is ↦ rw is refl
    | inr set ↦ rw set refl
  ]

module _ {e : Env} {n : ℕ} where
  partial_cool_order :
      (dram : Bool) (xs zs : List ℕ) (L : ℕ → List ℕ) (s : State e.table.Table)
      → Inv e n s
      → Fresh dram s
      → Rep s.store L
      → L (home dram true) ≡ onto xs zs
      → Returns
          (λ (o, s'). Inv e n s' × Cooled dram s s' × OnHot dram o s' × Visited dram xs L s (o, s'))
          (partial_cool (home dram true) (home dram false) dram (head_or zs none) s)
  unfolding partial_cool
  partial_cool_order dram xs zs L s inv f r is = elim (Bool-cases (need_cool dram s)) [
    | inr rest ↦ rw rest (
        returns (
          inv,
          Cooled-refl dram s s.pebs refl,
          cursor-OnHot dram xs zs L s r is,
          (
            subst (λ v. Judged dram (λ q. v && elem q (take 8192 xs)) s s) (sym rest)
                (Judged-none dram s s.pebs),
            xs,
            standing dram xs zs L s r is,
          ),
        ))
    | inl need ↦
        let b = starting dram s in
        let (same, walk) = start_lem dram s in
        let c = Cooled-refl dram s b walk in
        rw (need, same)
          (mono
            (cool_loop_order cooling_pages dram xs zs L (set_pebs s b) (ring-Inv b s inv)
              (Cooled-Fresh dram dram s (set_pebs s b) c f) r is)
            λ (o, s2) (inv2, c2, on2, (j2, ys, st)). (
              inv2,
              Cooled-trans dram s (set_pebs s b) s2 c c2,
              on2,
              (
                subst (λ v. Judged dram (λ q. v && elem q (take 8192 xs)) s s2) (sym need)
                    (Judged-trans dram (λ q. false) _ s (set_pebs s b) s2 c c2
                      (Judged-none dram s b) j2),
                ys,
                subst (λ v. Stands dram ys L v o s2) (starting_need dram s) st,
              ),
            ))
  ]

  -- The same from the cursor `current`.
  pub partial_cool_lem :
      (dram : Bool) (current : Ptr) (xs zs : List ℕ) (L : ℕ → List ℕ) (s : State e.table.Table)
      → Inv e n s
      → Fresh dram s
      → Rep s.store L
      → L (home dram true) ≡ onto xs zs
      → current ≡ head_or zs none
      → Returns
          (λ (o, s'). Inv e n s' × Cooled dram s s' × OnHot dram o s' × Visited dram xs L s (o, s'))
          (partial_cool (home dram true) (home dram false) dram current s)
  partial_cool_lem dram current xs zs L s inv f r is here =
      subst
        (λ o.
          Returns
            (λ (o, s').
              Inv e n s' × Cooled dram s s' × OnHot dram o s' × Visited dram xs L s (o, s'))
            (partial_cool (home dram true) (home dram false) dram o s))
        (sym here) (partial_cool_order dram xs zs L s inv f r is)
