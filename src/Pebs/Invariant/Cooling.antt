-- ===== src/Pebs/Invariant/Cooling.antt =====
-- One round of the walk of `partial_cool` over a hot list.
use hemem.Prelude.{
  ==_refl, ℕ, ◌<◌, ◌≡◌, refl, sym, ap, ◌∙◌, Bool, Bool-cases, inl, inr, true, false, not, some,
  none, Ptr, same_ptr, arith, Returns, returns, bind, check, subst, ltb, ◌==◌, if◌then◌else◌, add64,
  ◌>>=◌, ◌/◌, ◌^◌, ◌⊎◌,
}
use hemem.Fifo.Moves.{next_link}
use hemem.Memory.Page.{Page}
use hemem.Memory.Kernel.{Env}
use hemem.Memory.State.{State, Pebs, set_store}
use hemem.Pebs.Lists.{list_of, home, set_hot, remove, enqueue}
use hemem.Pebs.Scan.{set_pebs, hot_read_threshold}
use hemem.Pebs.Cool.{cool_page, start_page, end_round}
use hemem.Pebs.Invariant.{Inv, Fits}
use hemem.Pebs.Invariant.Move.{Replaced, replace_lem, home-lt, home-is_dram}
use hemem.Pebs.Invariant.Moving.{Fits-put}
use hemem.Pebs.Invariant.Steps.{remove_lem}
use hemem.Pebs.Invariant.Change.{set_hot_same}
use hemem.Pebs.Invariant.Draining.{ring-Inv}
use hemem.Pebs.Invariant.Cooled.{
  Walking, late, IsCold, IsHot, Judged, Stays, Cools, Cooled, OnHot, cooled_total_lem,
}

-- The end of a round at page `p`, on the variables of the policy alone.
ending : Bool → ℕ → Pebs → Pebs
ending true p b =
    if same_ptr (some p) b.start_dram_page
    then record b { start_dram_page = none; need_cool_dram = false }
    else b
ending false p b =
    if same_ptr (some p) b.start_nvm_page
    then record b { start_nvm_page = none; need_cool_nvm = false }
    else b

ending-Walking : (dram : Bool) (p : ℕ) (b : Pebs) → Walking b (ending dram p b)
unfolding ending
ending-Walking true p b = elim (Bool-cases (same_ptr (some p) b.start_dram_page)) [
  | inl is ↦ rw is refl
  | inr ne ↦ rw ne refl
]
ending-Walking false p b = elim (Bool-cases (same_ptr (some p) b.start_nvm_page)) [
  | inl is ↦ rw is refl
  | inr ne ↦ rw ne refl
]

end_lem :
    {Table : Type 0} (dram : Bool) (p : ℕ) (s : State Table)
    → (if same_ptr (some p) (start_page dram s) then end_round dram s else s)
      ≡ set_pebs s (ending dram p s.pebs)
unfolding ending
end_lem true p s = elim (Bool-cases (same_ptr (some p) s.pebs.start_dram_page)) [
  | inl is ↦ rw is refl
  | inr ne ↦ rw ne refl
]
end_lem false p s = elim (Bool-cases (same_ptr (some p) s.pebs.start_nvm_page)) [
  | inl is ↦ rw is refl
  | inr ne ↦ rw ne refl
]

module _ {e : Env} {n : ℕ} where
  module _ (dram : Bool) (p : ℕ) (s : State e.table.Table) (inv : Inv e n s)
      (at_hot : list_of s p ≡ some (home dram true)) where
    -- The page leaves the hot list of its tier for the cold one.
    abbrev pub Left : Ptr × State e.table.Table → Type 0
    Left (current, s') =
        Inv e n s' × Cooled dram s s' × OnHot dram current s' × Judged dram (λ q. q == p) s s'

    moved-Cooled :
        (b : Pebs) (s2 : State e.table.Table)
        → Walking s.pebs b
        → IsCold p s
        → Replaced p (home dram false) (record (s.page p) { hot = false }) (set_pebs s b) s2
        → Cooled dram s s2
    moved-Cooled b s2 walk cold r = record {
      fate = λ q. elim (Bool-cases (q == p)) [
        | inl is ↦
            let same : p ≡ q = ground arith in
            subst (λ q. Stays q s s2 ⊎ Cools dram q s s2) same
              (inr (at_hot, r.place p ∙ rw ==_refl refl, r.page p ∙ rw ==_refl refl, cold))
        | inr ne ↦ inl (r.place q ∙ rw ne refl, r.page q ∙ rw ne refl)
      ];
      pebs = subst (Walking s.pebs) (sym (ap (λ (t : State e.table.Table). t.pebs) r.rest)) walk;
    }

    moved-Judged :
        (b : Pebs) (s2 : State e.table.Table)
        → IsCold p s
        → Replaced p (home dram false) (record (s.page p) { hot = false }) (set_pebs s b) s2
        → Judged dram (λ q. q == p) s s2
    moved-Judged b s2 cold r = record {
      cold = λ q is _.
          let same : p ≡ q = ground arith in
          subst (λ q. Cools dram q s s2) same
            (at_hot, r.place p ∙ rw ==_refl refl, r.page p ∙ rw ==_refl refl, cold);
      hot = λ q is h.
          let same : q ≡ p = ground arith in
          absurd (ground (arith, sym cold ∙ subst (λ q. IsHot q s) same h));
      passed = λ q ne. (r.place q ∙ rw ne refl, r.page q ∙ rw ne refl);
    }

    next-OnHot :
        (b : Pebs) (s2 : State e.table.Table)
        → Replaced p (home dram false) (record (s.page p) { hot = false }) (set_pebs s b) s2
        → OnHot dram (s.store.link p).next s2
    next-OnHot b s2 r q is =
        let (at_l, ne) = next_link (home dram true) p q inv.well at_hot is in r.place q ∙ rw ne at_l

    leave_lem :
        (b : Pebs)
        → Walking s.pebs b
        → IsCold p s
        → Returns Left (do
          let next = (s.store.link p).next
          s ← remove (home dram true) p (set_hot p false (set_pebs s b))
          s ← enqueue (home dram false) p s
          some (next, s))
    leave_lem b walk cold =
        let x : Page = record (s.page p) { hot = false } in
        let f = inv.fits p in
        let tier : (s.page p).in_dram ≡ dram =
          f.tier (home dram true) at_hot ∙ sym (home-is_dram dram true) in
        let fit : Fits e (some (home dram false)) x =
          Fits-put e (home dram false) x (home-lt dram false) (tier ∙ home-is_dram dram false)
            (λ h. ap (λ d. home d false) (sym tier)) (λ h. absurd (ground arith))
            (f.placed _ at_hot) (f.huge _ at_hot) in
        bind (remove_lem (home dram true) p (set_hot p false (set_pebs s b)) inv.well at_hot)
          λ s1 (same, out).
            bind
              (subst
                (λ (t : State e.table.Table).
                  Returns (λ s2. Inv e n s2 × Replaced p (home dram false) x (set_pebs s b) s2)
                    (enqueue (home dram false) p t))
                (sym same)
                (replace_lem p (ring-Inv b s inv) (home dram true) at_hot (home dram false) x fit
                  refl refl (set_store (set_pebs s b) s1.store) (refl, out) (home-lt dram true)
                  (home-lt dram false)))
              λ s2 (inv2, r).
                returns
                  (inv2, moved-Cooled b s2 walk cold r, next-OnHot b s2 r, moved-Judged b s2 cold r)

    stay-Left : (b : Pebs) → Walking s.pebs b → IsHot p s → Left (some p, set_pebs s b)
    stay-Left b walk hot = (
      ring-Inv b s inv,
      record { fate = λ q. inl (refl, refl); pebs = walk },
      λ q is. ground (arith, at_hot, is),
      record {
        cold = λ q is c.
            let same : q ≡ p = ground arith in
            absurd (ground (arith, sym (subst (λ q. IsCold q s) same c) ∙ hot));
        hot = λ q is h. (refl, refl);
        passed = λ q ne. (refl, refl);
      },
    )

    leave_as_is :
        (b : Pebs)
        → Walking s.pebs b
        → IsCold p s
        → (s.page p).hot ≡ false
        → Returns Left (do
          let next = (s.store.link p).next
          s ← remove (home dram true) p (set_pebs s b)
          s ← enqueue (home dram false) p s
          some (next, s))
    leave_as_is b walk cold was =
        rw (sym (set_hot_same (set_pebs s b) p false was)) at (leave_lem b walk cold)

    -- One round of the walk.
    pub cool_page_lem :
        late p s < 64 → Returns Left (cool_page (home dram true) (home dram false) dram p s)
    unfolding cool_page
    cool_page_lem fresh =
        let tier : (s.page p).in_dram ≡ dram =
          (inv.fits p).tier (home dram true) at_hot ∙ sym (home-is_dram dram true) in
        let walk = ending-Walking dram p s.pebs in
        let b = ending dram p s.pebs in
        let t =
          add64 ((s.page p).accesses.dram / 2 ^ late p s)
            ((s.page p).accesses.nvm / 2 ^ late p s) in
        let is = cooled_total_lem p s fresh in
        check (if dram then (s.page p).in_dram else not (s.page p).in_dram) (ground (arith, tier)) (
          rw is (elim (Bool-cases (ltb t hot_read_threshold)) [
            | inl lt ↦
                rw (lt, end_lem dram p (set_hot p false s), ==_refl)
                  (leave_lem b walk (ground (arith, lt)))
            | inr ge ↦
                rw (ge, end_lem dram p s)
                  (elim (Bool-cases (s.page p).hot) [
                    | inl hot ↦ rw hot (returns (stay-Left b walk (ground (arith, ge, hot))))
                    | inr was ↦ rw was (leave_as_is b walk (ground (arith, was)) was)
                  ])
          ]))
