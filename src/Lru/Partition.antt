-- ===== src/Lru/Partition.antt =====
-- A whole loop of the scan sorts the pages of a list: it is a stable partition of the sequence.
use hemem.Prelude.{
  ℕ, zero, suc, ◌+◌, ◌%◌, ◌<◌, ◌≤◌, ◌^◌, ◌≡◌, refl, sym, ap, ◌∙◌, fun_ext, subst, true, Option,
  none, some, List, [], ◌∷◌, ◌++◌, arith, length, length-append, elem, elem-append, Distinct, ltb,
  ◌==◌, if◌then◌else◌, update, Returns, returns, bind, mono, snoc-cases, empty, snoc, nil_of_length,
}
use mathlib.Core.List.{append-nil, append_assoc}
use hemem.Fifo.Rep.{Rep, Distinct-split}
use hemem.Fifo.Unlink.{dequeue_fifo_refines}
use hemem.Memory.Page.{Page, hugepage_size}
use hemem.Memory.Kernel.{Env}
use hemem.Memory.State.{State, set_store}
use hemem.Pebs.Lists.{list_of, dequeue}
use hemem.Lru.Scan.{max_vas, while_pages, for_pages}
use hemem.Lru.Route.{Route, Routed, noted_va}

module _ (route : Page → Route) (pages : ℕ → Page) where
  -- The pages of the sequence that are routed to list `k`, in their order.
  abbrev pub sent_to : ℕ → List ℕ → List ℕ
  sent_to k [] = []
  sent_to k (q ∷ qs) = if (route (pages q)).list == k then q ∷ sent_to k qs else sent_to k qs

  -- The addresses noted for the sequence, whose last page is looked at first.
  abbrev pub noted_of : List ℕ → List ℕ
  noted_of [] = []
  noted_of (q ∷ qs) = noted_of qs ++ noted_va (route (pages q)).noted (pages q)

  pub length-sent_to-le : (k : ℕ) (qs : List ℕ) → length (sent_to k qs) ≤ length qs
  length-sent_to-le k [] = omega arith
  length-sent_to-le k (q ∷ qs) = ground (arith, length-sent_to-le k qs)

  pub length-noted_of-le : (qs : List ℕ) → length (noted_of qs) ≤ length qs
  length-noted_of-le [] = omega arith
  length-noted_of-le (q ∷ qs) = ground (
    arith,
    length-noted_of-le qs,
    length-append (noted_of qs) (noted_va (route (pages q)).noted (pages q)),
  )

  -- The pages of the sequence become what their routes say.
  abbrev pub routed_pages : List ℕ → ℕ → Page
  routed_pages qs q = if elem q qs then (route (pages q)).page else pages q

  -- The sequences when `zs` has been sorted and `ys` is still to come, from list `from`.
  abbrev pub partly : ℕ → (ℕ → List ℕ) → List ℕ → List ℕ → ℕ → List ℕ
  partly from L ys zs k = sent_to k zs ++ (if k == from then ys else L k)

  module _ {Table : Type 0} where
    -- What the loop over list `from` has done to state `s0` with the sequences `L`.
    pub record Sorting (from : ℕ) (L : ℕ → List ℕ) (s0 : State Table) (ys zs : List ℕ)
        (s : State Table) : Type 0 where
      pub rep : Rep s.store (partly from L ys zs)
      pub page : (q : ℕ) → s.page q ≡ routed_pages zs q
      pub vas : s.lru.vas ≡ s0.lru.vas ++ noted_of zs
      pub rest : s ≡ record s0 {
        store = s.store;
        page = s.page;
        lru = record (s0.lru) { vas = s.lru.vas };
        calls = s.calls;
      }

module _ (e : Env) (route : Page → Route) (pages : ℕ → Page)
    (sort : ℕ → State e.table.Table → Option (State e.table.Table))
    (sorts : (L : ℕ → List ℕ) (p : ℕ) (s : State e.table.Table)
      → Rep s.store L
      → list_of s p ≡ none
      → ((s.page p).va % hugepage_size == 0) ≡ true
      → ltb (length s.lru.vas) max_vas ≡ true
      → ((k : ℕ) → suc (length (L k)) < 2 ^ 64)
      → Returns (Routed L p (route (s.page p)) s) (sort p s))
    (from : ℕ) (L : ℕ → List ℕ) (s0 : State e.table.Table)
    (aligned : (q : ℕ) → elem q (L from) ≡ true → ((pages q).va % hugepage_size == 0) ≡ true)
    (room : length s0.lru.vas + length (L from) ≤ max_vas)
    (small : (k : ℕ) → length (L from) + length (L k) < 2 ^ 64) (distinct : Distinct (L from)) where
  abbrev S : Type 0
  S = State e.table.Table

  abbrev At : List ℕ → List ℕ → S → Type 0
  At ys zs s = Sorting route pages from L s0 ys zs s

  seqs_sort :
      (ys zs : List ℕ) (p : ℕ)
      → update
          (partly route pages from L ys zs)
          (route (pages p)).list
          (p ∷ partly route pages from L ys zs (route (pages p)).list)
        ≡ partly route pages from L ys (p ∷ zs)
  seqs_sort ys zs p = fun_ext (λ k. ground arith)

  seqs_take :
      (ys zs : List ℕ) (p : ℕ)
      → update
          (partly route pages from L (ys ++ p ∷ []) zs)
          from
          (sent_to route pages from zs ++ ys ++ [])
        ≡ partly route pages from L ys zs
  seqs_take ys zs p = simp append-nil (fun_ext (λ k. ground arith))

  seqs_small :
      (ys zs : List ℕ) (p k : ℕ)
      → L from ≡ ys ++ p ∷ zs
      → suc (length (partly route pages from L ys zs k)) < 2 ^ 64
  seqs_small ys zs p k whole = ground (
    arith,
    small k,
    length-append (sent_to route pages k zs) ys,
    length-append (sent_to route pages k zs) (L k),
    length-sent_to-le route pages k zs,
    length-append ys (p ∷ zs),
    ap length whole,
  )

  -- The page that was taken off is sorted.
  sort_taken :
      (ys zs : List ℕ) (p : ℕ) (s s1 : S)
      → At (ys ++ p ∷ []) zs s
      → L from ≡ ys ++ p ∷ zs
      → s1 ≡ set_store s s1.store
      → Rep s1.store (partly route pages from L ys zs)
      → list_of s1 p ≡ none
      → Returns (At ys (p ∷ zs)) (sort p s1)
  sort_taken ys zs p s s1 h whole only rep off =
      let apart = Distinct-split p ys zs (subst Distinct whole distinct) in
      let page_s1 : (q : ℕ) → s1.page q ≡ routed_pages route pages zs q =
        λ q. ap (λ (t : S). t.page q) only ∙ h.page q in
      let vas_s1 : s1.lru.vas ≡ s0.lru.vas ++ noted_of route pages zs =
        ap (λ (t : S). t.lru.vas) only ∙ h.vas in
      let same : s1.page p ≡ pages p = ground (arith, page_s1 p, apart.3) in
      let listed : elem p (L from) ≡ true = rw (whole, elem-append p ys (p ∷ zs)) (ground arith) in
      let fits : ltb (length s1.lru.vas) max_vas ≡ true = ground (
        arith,
        ap length vas_s1,
        length-append s0.lru.vas (noted_of route pages zs),
        length-noted_of-le route pages zs,
        ap length whole,
        length-append ys (p ∷ zs),
      ) in
      mono
        (rw same at (
          sorts (partly route pages from L ys zs) p s1 rep off (rw same (aligned p listed)) fits
            (λ k. seqs_small ys zs p k whole)))
        λ s2 r. record {
          rep = subst (Rep s2.store) (seqs_sort ys zs p) r.rep;
          page = λ q. ground (arith, r.page q, page_s1 q, same);
          vas = r.vas ∙ rw (vas_s1, same, append_assoc) refl;
          rest =
              r.rest
              ∙ ap
                  (λ (t : S). record t {
                    store = s2.store;
                    page = s2.page;
                    lru = record (t.lru) { vas = s2.lru.vas };
                    calls = s2.calls;
                  })
                  (only ∙ ap (λ (t : S). set_store t s1.store) h.rest);
        }

  -- One round: the last page of what is to come is taken and sorted.
  round :
      (ys zs : List ℕ) (p : ℕ) (s : S)
      → At (ys ++ p ∷ []) zs s
      → L from ≡ ys ++ p ∷ zs
      → Returns (λ (o, s1). (o ≡ some p) × Returns (At ys (p ∷ zs)) (sort p s1)) (dequeue from s)
  unfolding dequeue
  round ys zs p s h whole =
      bind
        (dequeue_fifo_refines p from h.rep (sent_to route pages from zs ++ ys)
          (ground (arith, append_assoc (sent_to route pages from zs) ys (p ∷ []))))
        λ (o, m) (is, rep, off). returns (
          is,
          sort_taken ys zs p s (set_store s m) h whole refl (subst (Rep m) (seqs_take ys zs p) rep)
              (ground (arith, off p)),
        )

  snoc_whole :
      (ys zs xs : List ℕ) (p : ℕ) → xs ≡ ys ++ p ∷ [] → L from ≡ xs ++ zs → L from ≡ ys ++ p ∷ zs
  snoc_whole ys zs xs p e whole = whole ∙ rw (e, append_assoc) refl

  done_At : (ys zs : List ℕ) (s : S) → ys ≡ [] → L from ≡ ys ++ zs → At ys zs s → At [] (L from) s
  done_At ys zs s e whole h =
      subst (λ l. At [] l s) (sym (whole ∙ rw e refl)) (subst (λ l. At l zs s) e h)

  -- The loop of `expand_caches` and `check_writes`, over what is left of the list.
  pub for_pages_lem :
      (nr : ℕ) (ys zs : List ℕ) (s : S)
      → length ys ≡ nr
      → L from ≡ ys ++ zs
      → At ys zs s
      → Returns (At [] (L from)) (for_pages e from sort nr s)
  for_pages_lem zero ys zs s len whole h = returns (done_At ys zs s (nil_of_length ys len) whole h)
  for_pages_lem (suc nr) ys zs s len whole h = elim (snoc-cases ys) [
    | empty eq ↦ absurd (omega (arith, ap length eq))
    | snoc xs p eq ↦
        bind (round xs zs p s (subst (λ l. At l zs s) eq h) (snoc_whole xs zs ys p eq whole))
          λ (o, s1) (is, sorted). rw is (
            bind sorted λ s2 h2.
              for_pages_lem nr xs (p ∷ zs) s2
                (omega (arith, ap length eq, length-append xs (p ∷ [])))
                (snoc_whole xs zs ys p eq whole) h2)
  ]

  -- The loop of `shrink_caches`, which tests the number of entries first.
  pub while_pages_lem :
      (nr : ℕ) (ys zs : List ℕ) (s : S)
      → length ys ≡ nr
      → L from ≡ ys ++ zs
      → At ys zs s
      → Returns (At [] (L from)) (while_pages e from sort nr s)
  while_pages_lem zero ys zs s len whole h =
      returns (done_At ys zs s (nil_of_length ys len) whole h)
  while_pages_lem (suc nr) ys zs s len whole h = elim (snoc-cases ys) [
    | empty eq ↦ absurd (omega (arith, ap length eq))
    | snoc xs p eq ↦
        let some_left : ltb 0 (s.store.fifo from).numentries ≡ true =
          ground
            (arith, (h.rep.shape from).count, length-append (sent_to route pages from zs) ys) in
        rw some_left (
          bind (round xs zs p s (subst (λ l. At l zs s) eq h) (snoc_whole xs zs ys p eq whole))
            λ (o, s1) (is, sorted). rw is (
              bind sorted λ s2 h2.
                while_pages_lem nr xs (p ∷ zs) s2
                  (omega (arith, ap length eq, length-append xs (p ∷ [])))
                  (snoc_whole xs zs ys p eq whole) h2))
  ]
