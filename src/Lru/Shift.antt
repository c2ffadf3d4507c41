-- ===== src/Lru/Shift.antt =====
-- A scan of src/policies/lru.c seen page by page: where each page was and is, and how many pages the
-- lists of the tier have.
use hemem.Prelude.{
  ℕ, ◌+◌, ◌%◌, ◌≤◌, ◌≡◌, refl, ap, ◌∙◌, Bool, Bool-cases, inl, inr, Option-cases, true, false, some,
  List, [], ◌∷◌, ◌++◌, arith, length, length-append, elem, elem-append, same_ptr, ◌==◌, ◌||◌,
  if◌then◌else◌, eq_of_==,
}
use hemem.Fifo.Rep.{Rep, elem-list, elem_of_unlinked}
use hemem.Fifo.Moves.{IsWell, entries}
use hemem.Memory.Page.{Page, hugepage_size}
use hemem.Memory.State.{State}
use hemem.Pebs.Lists.{list_of}
use hemem.Lru.Route.{Route, noted_va}
use hemem.Lru.Partition.{sent_to, noted_of, partly, length-noted_of-le}
use hemem.Lru.Sorted.{Sorts}

module _ (route : Page → Route) (pages : ℕ → Page) where
  elem-sent_to :
      (q k : ℕ) (qs : List ℕ)
      → elem q (sent_to route pages k qs)
        ≡ (if (route (pages q)).list == k then elem q qs else false)
  elem-sent_to q k [] = ground arith
  elem-sent_to q k (r ∷ qs) = elim (Bool-cases (q == r)) [
    | inl is ↦
        ground (arith, elem-sent_to q k qs, ap (λ t. (route (pages t)).list) (eq_of_== q r is))
    | inr ne ↦ ground (arith, elem-sent_to q k qs)
  ]

  -- Only pages that go to one list, or to one of two, are noted.
  length-noted_of-le-sent :
      (k : ℕ)
      → ((x : Page) → (route x).noted ≡ true → ((route x).list == k) ≡ true)
      → (qs : List ℕ) → length (noted_of route pages qs) ≤ length (sent_to route pages k qs)
  length-noted_of-le-sent k only [] = omega arith
  length-noted_of-le-sent k only (q ∷ qs) = ground (
    arith,
    length-noted_of-le-sent k only qs,
    only (pages q),
    length-append (noted_of route pages qs) (noted_va (route (pages q)).noted (pages q)),
  )

  length-noted_of-le-two :
      (k l : ℕ)
      → (k == l) ≡ false
      → ((x : Page)
          → (route x).noted ≡ true
          → (((route x).list == k) || ((route x).list == l)) ≡ true)
      → (qs : List ℕ)
      → length (noted_of route pages qs)
        ≤ length (sent_to route pages k qs) + length (sent_to route pages l qs)
  length-noted_of-le-two k l ne only [] = omega arith
  length-noted_of-le-two k l ne only (q ∷ qs) = ground (
    arith,
    length-noted_of-le-two k l ne only qs,
    only (pages q),
    length-append (noted_of route pages qs) (noted_va (route (pages q)).noted (pages q)),
  )

  module _ (a i w : ℕ) (ai : (a == i) ≡ false) (aw : (a == w) ≡ false) (iw : (i == w) ≡ false)
      (into : (x : Page)
        → (((route x).list == a) || (((route x).list == i) || ((route x).list == w))) ≡ true) where
    length-sent_to_all :
        (qs : List ℕ)
        → length (sent_to route pages a qs)
            + length (sent_to route pages i qs)
            + length (sent_to route pages w qs)
          ≡ length qs
    length-sent_to_all [] = omega arith
    length-sent_to_all (q ∷ qs) = ground (arith, length-sent_to_all qs, into (pages q))

-- All addresses are those of huge pages.
abbrev pub AllAligned : List ℕ → Type 0
AllAligned [] = Unit
AllAligned (va ∷ vas) = ((va % hugepage_size == 0) ≡ true) × AllAligned vas

AllAligned-append : (xs ys : List ℕ) → AllAligned xs → AllAligned ys → AllAligned (xs ++ ys)
AllAligned-append [] ys h k = k
AllAligned-append (x ∷ xs) ys h k = (h.0, AllAligned-append xs ys h.1 k)

module _ {Table : Type 0} where
  -- Every page of list `from` is now on the list of its route and changed as that says.
  pub record Shifted (route : Page → Route) (from : ℕ) (s s' : State Table) : Type 0 where
    pub well : IsWell s'.store
    pub place :
        (q : ℕ)
        → list_of s' q ≡ (
            if same_ptr (list_of s q) (some from)
            then some (route (s.page q)).list
            else list_of s q)
    pub page :
        (q : ℕ)
        → s'.page q
          ≡ (if same_ptr (list_of s q) (some from) then (route (s.page q)).page else s.page q)
    pub rest : s' ≡ record s {
      store = s'.store;
      page = s'.page;
      lru = record (s.lru) { vas = s'.lru.vas };
      calls = s'.calls;
    }

  module _ (route : Page → Route) (from : ℕ) (L : ℕ → List ℕ) (s s' : State Table)
      (rep : Rep s.store L) (h : Sorts route from L s s') where
    on_from : (q : ℕ) → elem q (L from) ≡ same_ptr (list_of s q) (some from)
    on_from q = elim (Bool-cases (elem q (L from))) [
      | inl m ↦ ground (arith, elem-list rep q from m)
      | inr ne ↦ ground (arith, rep.owned q from)
    ]

    in_seq :
        (q k : ℕ)
        → elem q (partly route s.page from L [] (L from) k) ≡ (
            (if (route (s.page q)).list == k then elem q (L from) else false)
            || elem q (if k == from then [] else L k))
    in_seq q k =
        elem-append q (sent_to route s.page k (L from)) (if k == from then [] else L k)
        ∙ rw (elem-sent_to route s.page q k (L from)) refl

    placed :
        (q : ℕ)
        → list_of s' q ≡ (
            if same_ptr (list_of s q) (some from)
            then some (route (s.page q)).list
            else list_of s q)
    placed q = elim (Option-cases (list_of s q)) [
      | inl off ↦ elim (Option-cases (list_of s' q)) [
        | inl off' ↦ rw (off, off') refl
        | inr (k, on') ↦ absurd (
            ground (
              arith,
              in_seq q k,
              h.rep.owned q k on',
              elem_of_unlinked rep q from off,
              elem_of_unlinked rep q k off,
            ))
      ]
      | inr (k, on) ↦ elim (Bool-cases (k == from)) [
        | inl is ↦
            let r = (route (s.page q)).list in
            let here : list_of s' q ≡ some r =
              elem-list h.rep q r (rw (in_seq q r) (ground (arith, on_from q))) in
            ground arith
        | inr ne ↦
            let here : list_of s' q ≡ some k =
              elem-list h.rep q k (rw (in_seq q k, ne) (ground (arith, rep.owned q k on))) in
            ground arith
      ]
    ]

    pub Sorts-Shifted : Shifted route from s s'
    Sorts-Shifted = record {
      well = record { seqs = _; rep = h.rep };
      place = placed;
      page = λ q. ground (arith, h.page q, on_from q);
      rest = h.rest;
    }

    count_at :
        (k : ℕ)
        → entries s'.store k
          ≡ length (sent_to route s.page k (L from)) + (if k == from then 0 else entries s.store k)
    count_at k = ground (
      arith,
      (h.rep.shape k).count,
      (rep.shape k).count,
      length-append (sent_to route s.page k (L from)) (if k == from then [] else L k),
    )

    noted-AllAligned :
        (qs : List ℕ)
        → ((q : ℕ) → elem q qs ≡ true → ((s.page q).va % hugepage_size == 0) ≡ true)
        → AllAligned (noted_of route s.page qs)
    noted-AllAligned [] al = tt
    noted-AllAligned (q ∷ qs) al =
        AllAligned-append (noted_of route s.page qs) (noted_va (route (s.page q)).noted (s.page q))
          (noted-AllAligned qs (λ r m. al r (ground arith)))
          (one_va (route (s.page q)).noted (al q (ground arith)))
      where
        one_va :
            (b : Bool)
            → ((s.page q).va % hugepage_size == 0) ≡ true
            → AllAligned (noted_va b (s.page q))
        one_va true al = (al, tt)
        one_va false al = tt

    pub vas-AllAligned :
        ((q : ℕ) → elem q (L from) ≡ true → ((s.page q).va % hugepage_size == 0) ≡ true)
        → AllAligned s.lru.vas
        → AllAligned s'.lru.vas
    vas-AllAligned al all =
        rw h.vas (AllAligned-append s.lru.vas _ all (noted-AllAligned (L from) al))

    noted_at : length s'.lru.vas ≡ length s.lru.vas + length (noted_of route s.page (L from))
    noted_at = ap length h.vas ∙ length-append s.lru.vas (noted_of route s.page (L from))

    module _ (a i w : ℕ) (ai : (a == i) ≡ false) (aw : (a == w) ≡ false) (iw : (i == w) ≡ false)
        (into : (x : Page)
          → (((route x).list == a) || (((route x).list == i) || ((route x).list == w)))
            ≡ true) where
      -- The three lists of the tier keep their pages among them, and the other lists theirs.
      pub total_kept :
          ((from == a) || ((from == i) || (from == w))) ≡ true
          → entries s'.store a + entries s'.store i + entries s'.store w
            ≡ entries s.store a + entries s.store i + entries s.store w
      total_kept own = ground (
        arith,
        count_at a,
        count_at i,
        count_at w,
        (rep.shape from).count,
        length-sent_to_all route s.page a i w ai aw iw into (L from),
      )

      pub other_kept :
          (k : ℕ)
          → ((from == a) || ((from == i) || (from == w))) ≡ true
          → ((k == a) || ((k == i) || (k == w))) ≡ false
          → entries s'.store k ≡ entries s.store k
      other_kept k own other = ground (arith, count_at k, nowhere k (L from) other)
        where
          nowhere :
              (k : ℕ) (qs : List ℕ)
              → ((k == a) || ((k == i) || (k == w))) ≡ false
              → length (sent_to route s.page k qs) ≡ 0
          nowhere k [] other = omega arith
          nowhere k (q ∷ qs) other = ground (arith, nowhere k qs other, into (s.page q))

    -- At most all pages of the list are noted.
    pub vas_all : length s'.lru.vas ≤ length s.lru.vas + entries s.store from
    vas_all =
        omega (arith, noted_at, (rep.shape from).count, length-noted_of-le route s.page (L from))

    pub vas_one :
        (k : ℕ)
        → ((x : Page) → (route x).noted ≡ true → ((route x).list == k) ≡ true)
        → length s'.lru.vas ≤ length s.lru.vas + entries s'.store k
    vas_one k only =
        omega (arith, noted_at, count_at k, length-noted_of-le-sent route s.page k only (L from))

    pub vas_two :
        (k l : ℕ)
        → (k == l) ≡ false
        → ((x : Page)
            → (route x).noted ≡ true
            → (((route x).list == k) || ((route x).list == l)) ≡ true)
        → (from == k) ≡ true
        → (from == l) ≡ false
        → length s'.lru.vas + entries s.store l
          ≤ length s.lru.vas + entries s'.store k + entries s'.store l
    vas_two k l ne only is isnt = ground (
      arith,
      noted_at,
      count_at k,
      count_at l,
      length-noted_of-le-two route s.page k l ne only (L from),
    )
