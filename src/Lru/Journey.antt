-- ===== src/Lru/Journey.antt =====
-- One page through the six scans of an iteration of `lru_kscand`.
use hemem.Prelude.{
  ℕ, ◌≡◌, refl, ◌∙◌, ap, Bool, Bool-cases, inl, inr, true, false, none, some, Ptr, arith, ltb, leb,
  ◌==◌, ◌&&◌, if◌then◌else◌, same_ptr,
}
use hemem.Memory.Page.{Page}
use hemem.Lru.Scan.{accessed, dirty}
use hemem.Lru.Route.{Route, shrink_route, expand_route, check_route}
use hemem.Lru.Steps.{among}

unfoldable pub hop : (Page → Route) → ℕ → Ptr × Page → Ptr × Page
hop route from (l, x) =
    if same_ptr l (some from) then (some (route x).list, (route x).page) else (l, x)

abbrev pub Rescored : Page → Page → Type 0
Rescored x y = y ≡ record x { written = y.written; naccesses = y.naccesses }

-- Where a hop leads once the route's answer is known.
hop_place :
    (route : Page → Route) (from d : ℕ) (p : Ptr × Page)
    → (route p.1).list ≡ d
    → (hop route from p).0 ≡ (if same_ptr p.0 (some from) then some d else p.0)
unfolding hop
hop_place route from d p is = ground arith

hop_page :
    (route : Page → Route) (from : ℕ) (p : Ptr × Page)
    → (hop route from p).1 ≡ (if same_ptr p.0 (some from) then (route p.1).page else p.1)
unfolding hop
hop_page route from p = ground arith

hop_away :
    (route : Page → Route) (from : ℕ) (p : Ptr × Page)
    → same_ptr p.0 (some from) ≡ false
    → hop route from p ≡ p
unfolding hop
hop_away route from p away = rw away refl

hop-Rescored :
    (route : Page → Route) (from : ℕ) (x : Page) (p : Ptr × Page)
    → ((y : Page) → Rescored y (route y).page)
    → Rescored x p.1
    → Rescored x (hop route from p).1
hop-Rescored route from x p keeps same = elim (Bool-cases (same_ptr p.0 (some from))) [
  | inl is ↦
      rw (hop_page route from p, is)
        (keeps p.1
          ∙ ap
              (λ (y : Page). record y {
                written = (route p.1).page.written;
                naccesses = (route p.1).page.naccesses;
              })
              same)
  | inr ne ↦ rw (hop_page route from p, ne) same
]

abbrev held : Ptr → ℕ → ℕ → Ptr
held p from d = if same_ptr p (some from) then some d else p

module _ (bits : ℕ → ℕ) where
  abbrev pub journey : Ptr × Page → Ptr × Page
  journey h0 =
      let h1 = hop (check_route bits 0 1 2) 2 h0 in
      let h2 = hop (check_route bits 4 5 6) 6 h1 in
      let h3 = hop (shrink_route bits 0 1 2) 0 h2 in
      let h4 = hop (shrink_route bits 4 5 6) 4 h3 in
      let h5 = hop (expand_route bits 0 1 2) 1 h4 in hop (expand_route bits 4 5 6) 5 h5

  -- The list of a page after an iteration, in a tier with the lists `a`, `i` and `w`.
  abbrev pub verdict_in : ℕ → ℕ → ℕ → ℕ → Page → ℕ
  verdict_in a i w l x =
      if accessed (bits x.va)
      then (if dirty (bits x.va) then w else if (l == i) && ltb x.naccesses 4 then i else a)
      else i

  abbrev pub verdict : Ptr → Page → Ptr
  verdict none x = none
  verdict (some l) x =
      if among l 0 1 2
      then some (verdict_in 0 1 2 l x)
      else if among l 4 5 6
      then some (verdict_in 4 5 6 l x)
      else some l

  module _ (l : Ptr) (x : Page) where
    abbrev h1 : Ptr × Page
    h1 = hop (check_route bits 0 1 2) 2 (l, x)

    abbrev h2 : Ptr × Page
    h2 = hop (check_route bits 4 5 6) 6 h1

    abbrev h3 : Ptr × Page
    h3 = hop (shrink_route bits 0 1 2) 0 h2

    abbrev h4 : Ptr × Page
    h4 = hop (shrink_route bits 4 5 6) 4 h3

    abbrev h5 : Ptr × Page
    h5 = hop (expand_route bits 0 1 2) 1 h4

    r1 : Rescored x h1.1
    r1 = hop-Rescored (check_route bits 0 1 2) 2 x (l, x) (λ y. ground arith) refl

    r2 : Rescored x h2.1
    r2 = hop-Rescored (check_route bits 4 5 6) 6 x h1 (λ y. ground arith) r1

    r3 : Rescored x h3.1
    r3 = hop-Rescored (shrink_route bits 0 1 2) 0 x h2 (λ y. ground arith) r2

    r4 : Rescored x h4.1
    r4 = hop-Rescored (shrink_route bits 4 5 6) 4 x h3 (λ y. ground arith) r3

    r5 : Rescored x h5.1
    r5 = hop-Rescored (expand_route bits 0 1 2) 1 x h4 (λ y. ground arith) r4

    pub journey-Rescored : Rescored x (journey (l, x)).1
    journey-Rescored = hop-Rescored (expand_route bits 4 5 6) 5 x h5 (λ y. ground arith) r5

    -- The same bits are seen on the way.
    seen :
        (f : ℕ → Bool) (b : Bool) (y : Page) → Rescored x y → f (bits x.va) ≡ b → f (bits y.va) ≡ b
    seen f b y same is = rw (ap (λ (z : Page). z.va) same) is

    -- The list in the end, once the answers are known.
    path_lem :
        (d1 d2 d3 d4 d5 d6 : ℕ)
        → (check_route bits 0 1 2 x).list ≡ d1
        → (check_route bits 4 5 6 h1.1).list ≡ d2
        → (shrink_route bits 0 1 2 h2.1).list ≡ d3
        → (shrink_route bits 4 5 6 h3.1).list ≡ d4
        → (expand_route bits 0 1 2 h4.1).list ≡ d5
        → (expand_route bits 4 5 6 h5.1).list ≡ d6
        → (journey (l, x)).0
          ≡ held (held (held (held (held (held l 2 d1) 6 d2) 0 d3) 4 d4) 1 d5) 5 d6
    path_lem d1 d2 d3 d4 d5 d6 e1 e2 e3 e4 e5 e6 =
        hop_place (expand_route bits 4 5 6) 5 d6 h5 e6
        ∙ ap (λ p. held p 5 d6)
            (hop_place (expand_route bits 0 1 2) 1 d5 h4 e5
              ∙ ap (λ p. held p 1 d5)
                  (hop_place (shrink_route bits 4 5 6) 4 d4 h3 e4
                    ∙ ap (λ p. held p 4 d4)
                        (hop_place (shrink_route bits 0 1 2) 0 d3 h2 e3
                          ∙ ap (λ p. held p 0 d3)
                              (hop_place (check_route bits 4 5 6) 6 d2 h1 e2
                                ∙ ap (λ p. held p 6 d2)
                                    (hop_place (check_route bits 0 1 2) 2 d1 (l, x) e1)))))

    cold_lem :
        accessed (bits x.va) ≡ false
        → (journey (l, x)).0 ≡ held (held (held (held (held (held l 2 1) 6 5) 0 1) 4 5) 1 1) 5 5
    cold_lem cold =
        path_lem 1 5 1 5 1 5 (rw cold refl) (rw (seen accessed false h1.1 r1 cold) refl)
          (rw (seen accessed false h2.1 r2 cold) refl) (rw (seen accessed false h3.1 r3 cold) refl)
          (rw (seen accessed false h4.1 r4 cold) refl) (rw (seen accessed false h5.1 r5 cold) refl)

    wrote_lem :
        accessed (bits x.va) ≡ true
        → dirty (bits x.va) ≡ true
        → (journey (l, x)).0 ≡ held (held (held (held (held (held l 2 2) 6 6) 0 2) 4 6) 1 2) 5 6
    wrote_lem hit wrote =
        path_lem 2 6 2 6 2 6 (rw (hit, wrote) refl)
          (rw (seen accessed true h1.1 r1 hit, seen dirty true h1.1 r1 wrote) refl)
          (rw (seen accessed true h2.1 r2 hit, seen dirty true h2.1 r2 wrote) refl)
          (rw (seen accessed true h3.1 r3 hit, seen dirty true h3.1 r3 wrote) refl)
          (rw (seen accessed true h4.1 r4 hit, seen dirty true h4.1 r4 wrote) refl)
          (rw (seen accessed true h5.1 r5 hit, seen dirty true h5.1 r5 wrote) refl)

    -- Only the last two answers depend on more than the bits.
    clean_lem :
        accessed (bits x.va) ≡ true
        → dirty (bits x.va) ≡ false
        → (journey (l, x)).0
          ≡ held
              (held
                (held (held (held (held l 2 0) 6 4) 0 0) 4 4)
                1
                (if leb 4 h4.1.naccesses then 0 else 1))
              5
              (if leb 4 h5.1.naccesses then 4 else 5)
    clean_lem hit clean =
        path_lem 0 4 0 4 (if leb 4 h4.1.naccesses then 0 else 1)
          (if leb 4 h5.1.naccesses then 4 else 5) (rw (hit, clean) refl)
          (rw (seen accessed true h1.1 r1 hit, seen dirty false h1.1 r1 clean) refl)
          (rw (seen accessed true h2.1 r2 hit, seen dirty false h2.1 r2 clean) refl)
          (rw (seen accessed true h3.1 r3 hit, seen dirty false h3.1 r3 clean) refl)
          (rw (seen accessed true h4.1 r4 hit, seen dirty false h4.1 r4 clean) (ground arith))
          (rw (seen accessed true h5.1 r5 hit, seen dirty false h5.1 r5 clean) (ground arith))

    -- A page that starts on an inactive list is first looked at by `expand_caches`.
    unseen_fast : l ≡ some 1 → h4.1 ≡ x
    unseen_fast is =
        let away = λ (route : Page → Route) (from : ℕ) (d : (from == 1) ≡ false).
          hop_away route from (l, x) (rw is (ground arith)) in
        let e1 = away (check_route bits 0 1 2) 2 refl in
        let e2 = ap (hop (check_route bits 4 5 6) 6) e1 ∙ away (check_route bits 4 5 6) 6 refl in
        let e3 = ap (hop (shrink_route bits 0 1 2) 0) e2 ∙ away (shrink_route bits 0 1 2) 0 refl in
        ap (λ (p : Ptr × Page). (hop (shrink_route bits 4 5 6) 4 p).1) e3
        ∙ ap (λ (p : Ptr × Page). p.1) (away (shrink_route bits 4 5 6) 4 refl)

    unseen_slow : l ≡ some 5 → h5.1 ≡ x
    unseen_slow is =
        let away = λ (route : Page → Route) (from : ℕ) (d : (from == 5) ≡ false).
          hop_away route from (l, x) (rw is (ground arith)) in
        let e1 = away (check_route bits 0 1 2) 2 refl in
        let e2 = ap (hop (check_route bits 4 5 6) 6) e1 ∙ away (check_route bits 4 5 6) 6 refl in
        let e3 = ap (hop (shrink_route bits 0 1 2) 0) e2 ∙ away (shrink_route bits 0 1 2) 0 refl in
        let e4 = ap (hop (shrink_route bits 4 5 6) 4) e3 ∙ away (shrink_route bits 4 5 6) 4 refl in
        ap (λ (p : Ptr × Page). (hop (expand_route bits 0 1 2) 1 p).1) e4
        ∙ ap (λ (p : Ptr × Page). p.1) (away (expand_route bits 0 1 2) 1 refl)

  by_cold :
      (l : Ptr) (x : Page)
      → accessed (bits x.va) ≡ false
      → held (held (held (held (held (held l 2 1) 6 5) 0 1) 4 5) 1 1) 5 5 ≡ verdict l x
  by_cold none x cold = refl
  by_cold (some k) x cold = ground arith

  by_wrote :
      (l : Ptr) (x : Page)
      → accessed (bits x.va) ≡ true
      → dirty (bits x.va) ≡ true
      → held (held (held (held (held (held l 2 2) 6 6) 0 2) 4 6) 1 2) 5 6 ≡ verdict l x
  by_wrote none x hit wrote = refl
  by_wrote (some k) x hit wrote = ground arith

  by_clean :
      (l : Ptr) (x : Page) (b c : Bool)
      → accessed (bits x.va) ≡ true
      → dirty (bits x.va) ≡ false
      → (l ≡ some 1 → b ≡ leb 4 x.naccesses)
      → (l ≡ some 5 → c ≡ leb 4 x.naccesses)
      → held
          (held (held (held (held (held l 2 0) 6 4) 0 0) 4 4) 1 (if b then 0 else 1))
          5
          (if c then 4 else 5)
        ≡ verdict l x
  by_clean none x b c hit clean fast slow = refl
  by_clean (some k) x b c hit clean fast slow = ground arith

  pub journey-verdict : (l : Ptr) (x : Page) → (journey (l, x)).0 ≡ verdict l x
  journey-verdict l x = elim (Bool-cases (accessed (bits x.va))) [
    | inl hit ↦ elim (Bool-cases (dirty (bits x.va))) [
      | inl wrote ↦ wrote_lem l x hit wrote ∙ by_wrote l x hit wrote
      | inr clean ↦
          clean_lem l x hit clean
          ∙ by_clean l x _ _ hit clean
              (λ is. ap (λ (y : Page). leb 4 y.naccesses) (unseen_fast l x is))
              (λ is. ap (λ (y : Page). leb 4 y.naccesses) (unseen_slow l x is))
    ]
    | inr cold ↦ cold_lem l x cold ∙ by_cold l x cold
  ]
