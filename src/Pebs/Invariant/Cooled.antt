-- ===== src/Pebs/Invariant/Cooled.antt =====
-- What a walk of `partial_cool` changes, and how walks compose.
use hemem.Prelude.{
  ℕ, ◌<◌, ◌≡◌, refl, sym, ap, ◌∙◌, Bool, inl, inr, true, false, not, some, Ptr, arith, ltb, ◌||◌,
  sub64, add64, ◌/◌, ◌^◌, ◌⊎◌,
}
use hemem.Memory.Page.{shift}
use hemem.Memory.State.{State, Pebs}
use hemem.Pebs.Lists.{list_of, home}
use hemem.Pebs.Scan.{set_pebs}
use hemem.Pebs.Cool.{cooled_total}

-- Only what the walks keep for themselves differs, not where they stand.
abbrev pub Walking : Pebs → Pebs → Type 0
Walking b b' = b' ≡ record b {
  need_cool_dram = b'.need_cool_dram;
  need_cool_nvm = b'.need_cool_nvm;
  start_dram_page = b'.start_dram_page;
  start_nvm_page = b'.start_nvm_page;
}

pub Walking-trans : (b c d : Pebs) → Walking b c → Walking c d → Walking b d
Walking-trans b c d x y =
    y
    ∙ ap
        (λ (z : Pebs). record z {
          need_cool_dram = d.need_cool_dram;
          need_cool_nvm = d.need_cool_nvm;
          start_dram_page = d.start_dram_page;
          start_nvm_page = d.start_nvm_page;
        })
        x

module _ {Table : Type 0} where
  abbrev pub late : ℕ → State Table → ℕ
  late q s = sub64 s.pebs.global_clock (s.page q).local_clock

  -- The reads of page `q`, once the coolings that it missed are made up.
  abbrev pub reads_left : ℕ → State Table → ℕ
  reads_left q s =
      add64 ((s.page q).accesses.dram / 2 ^ late q s) ((s.page q).accesses.nvm / 2 ^ late q s)

  -- Page `q` is no longer hot, by its counts or by its flag.
  abbrev pub IsCold : ℕ → State Table → Type 0
  IsCold q s = (ltb (reads_left q s) 8 || not (s.page q).hot) ≡ true

  -- Page `q` is still hot, by its counts and by its flag.
  abbrev pub IsHot : ℕ → State Table → Type 0
  IsHot q s = (ltb (reads_left q s) 8 || not (s.page q).hot) ≡ false

  abbrev pub Stays : ℕ → State Table → State Table → Type 0
  Stays q s s' = (list_of s' q ≡ list_of s q) × (s'.page q ≡ s.page q)

  abbrev pub Cools : Bool → ℕ → State Table → State Table → Type 0
  Cools dram q s s' =
      (list_of s q ≡ some (home dram true))
      × (list_of s' q ≡ some (home dram false))
      × (s'.page q ≡ record (s.page q) { hot = false })
      × IsCold q s

  -- Pages that are no longer hot went from the hot list of the tier to the cold one; all other
  -- pages are as they were.
  pub record Cooled (dram : Bool) (s s' : State Table) : Type 0 where
    pub fate : (q : ℕ) → Stays q s s' ⊎ Cools dram q s s'
    pub pebs : Walking s.pebs s'.pebs

  -- What becomes of the pages that a walk visits, and of all others.
  pub record Judged (dram : Bool) (seen : ℕ → Bool) (s s' : State Table) : Type 0 where
    pub cold : (q : ℕ) → seen q ≡ true → IsCold q s → Cools dram q s s'
    pub hot : (q : ℕ) → seen q ≡ true → IsHot q s → Stays q s s'
    pub passed : (q : ℕ) → seen q ≡ false → Stays q s s'

  -- The walk stands on the hot list.
  abbrev pub OnHot : Bool → Ptr → State Table → Type 0
  OnHot dram current s = (q : ℕ) → current ≡ some q → list_of s q ≡ some (home dram true)

  -- No page of the hot list has missed 64 coolings or more.
  abbrev pub Fresh : Bool → State Table → Type 0
  Fresh dram s = (q : ℕ) → list_of s q ≡ some (home dram true) → late q s < 64

  pub cooled_total_lem :
      (q : ℕ) (s : State Table) → late q s < 64 → cooled_total q s ≡ some (reads_left q s)
  unfolding cooled_total shift
  cooled_total_lem q s h = let lt : ltb (late q s) 64 ≡ true = ground arith in rw lt refl

  pub Stays-IsCold :
      (q : ℕ) (s s' : State Table)
      → Stays q s s'
      → s'.pebs.global_clock ≡ s.pebs.global_clock
      → IsCold q s
      → IsCold q s'
  Stays-IsCold q s s' (_, pg) clock h = rw (clock, pg) h

  pub Stays-IsHot :
      (q : ℕ) (s s' : State Table)
      → Stays q s s'
      → s'.pebs.global_clock ≡ s.pebs.global_clock
      → IsHot q s
      → IsHot q s'
  Stays-IsHot q s s' (_, pg) clock h = rw (clock, pg) h

  pub same_clock :
      (s s' : State Table) → Walking s.pebs s'.pebs → s'.pebs.global_clock ≡ s.pebs.global_clock
  same_clock s s' w = ap (λ (b : Pebs). b.global_clock) w

  -- A page that stays and then cools, or cools and then stays, cools.
  pub Stays-Cools :
      (d : Bool) (q : ℕ) (s s1 s2 : State Table)
      → s1.pebs.global_clock ≡ s.pebs.global_clock
      → Stays q s s1
      → Cools d q s1 s2
      → Cools d q s s2
  Stays-Cools d q s s1 s2 clock (l, pg) (h, c, to, cold) =
      (sym l ∙ h, c, rw (sym pg) to, rw (clock, pg) at cold)

  pub Cools-Stays :
      (d : Bool) (q : ℕ) (s s1 s2 : State Table) → Cools d q s s1 → Stays q s1 s2 → Cools d q s s2
  Cools-Stays d q s s1 s2 (h, c, to, cold) (l, pg) = (h, l ∙ c, pg ∙ to, cold)

  pub Cooled-trans :
      (dram : Bool) (s s1 s2 : State Table)
      → Cooled dram s s1
      → Cooled dram s1 s2
      → Cooled dram s s2
  Cooled-trans dram s s1 s2 a b = record {
    fate = λ q. elim (a.fate q) [
      | inl x ↦ elim (b.fate q) [
        | inl (l, pg) ↦ inl (l ∙ x.0, pg ∙ x.1)
        | inr y ↦ inr (Stays-Cools dram q s s1 s2 (same_clock s s1 a.pebs) x y)
      ]
      | inr x ↦ elim (b.fate q) [
        | inl y ↦ inr (Cools-Stays dram q s s1 s2 x y)
        | inr y ↦ absurd (ground (arith, y.0, x.1))
      ]
    ];
    pebs = Walking-trans s.pebs s1.pebs s2.pebs a.pebs b.pebs;
  }

  -- A walk takes pages off the hot list of its own tier only, and changes no clock.
  pub Cooled-Fresh :
      (dram d : Bool) (s s' : State Table) → Cooled dram s s' → Fresh d s → Fresh d s'
  Cooled-Fresh dram d s s' c f q at_l =
      let clock = ap (λ (t : Pebs). t.global_clock) c.pebs in
      elim (c.fate q) [
        | inl (l, pg) ↦ rw (clock, pg) (f q (sym l ∙ at_l))
        | inr (_, cold, _, _) ↦ absurd (ground (arith, cold, at_l))
      ]

  pub Cools-Cooled :
      (dram : Bool) (q : ℕ) (s s1 s2 : State Table)
      → Cools dram q s s1
      → Cooled dram s1 s2
      → Cools dram q s s2
  Cools-Cooled dram q s s1 s2 x b = elim (b.fate q) [
    | inl y ↦ Cools-Stays dram q s s1 s2 x y
    | inr y ↦ absurd (ground (arith, y.0, x.1))
  ]

  pub Cooled-refl :
      (dram : Bool) (s : State Table) (b : Pebs) → Walking s.pebs b → Cooled dram s (set_pebs s b)
  Cooled-refl dram s b walk = record { fate = λ q. inl (refl, refl); pebs = walk }
