-- ===== src/Lru/Route.antt =====
-- Where a scan of src/policies/lru.c sends one page, as a function of the page and of its bits, and
-- that the bodies of the three loops do just that.
use hemem.Prelude.{
  ℕ, suc, ◌%◌, ◌<◌, ◌^◌, ◌≡◌, refl, Bool, true, false, none, List, [], ◌∷◌, ◌++◌, arith, length,
  ltb, leb, ◌==◌, if◌then◌else◌, add64, update, Returns, returns, bind, Bool-cases, inl, inr,
  ==_refl,
}
use mathlib.Core.List.{append-nil}
use hemem.Fifo.Rep.{Rep}
use hemem.Fifo.Insert.{enqueue_fifo_refines}
use hemem.Memory.Page.{Page, hugepage_size}
use hemem.Memory.Kernel.{Call, uffd_get_flag, ok, Os, Env}
use hemem.Memory.State.{State}
use hemem.Pebs.Lists.{list_of, enqueue}
use hemem.Lru.Scan.{
  max_vas, accessed, dirty, note, hemem_get_bits, shrink_page, expand_page, check_page,
}

-- A list, what the page becomes, and whether its bits are to be cleared.
pub record Route : Type 0 where
  pub list : ℕ
  pub page : Page
  pub noted : Bool

abbrev pub route_to : ℕ → Page → Bool → Route
route_to l x b = record { list = l; page = x; noted = b }

-- The bits that the kernel reports of an address do not change during the scan.
abbrev pub Shows : Os → (ℕ → ℕ) → Type 0
Shows os bits = (before : List Call) (va : ℕ) → os before (uffd_get_flag va) ≡ ok (bits va)

module _ (bits : ℕ → ℕ) (active inactive written : ℕ) where
  abbrev pub shrink_route : Page → Route
  shrink_route x =
      if accessed (bits x.va)
      then (if dirty (bits x.va)
          then route_to written (record x { written = true }) true
          else route_to active (record x { written = false }) true)
      else route_to inactive (record x { naccesses = 0 }) false

  abbrev pub expand_route : Page → Route
  expand_route x =
      if accessed (bits x.va)
      then (if dirty (bits x.va)
          then route_to written (record x { written = true }) false
          else (if leb 4 x.naccesses
              then route_to active (record x { written = false; naccesses = 0 }) false
              else route_to inactive (record x { written = false; naccesses = add64 x.naccesses 1 })
                  true))
      else route_to inactive (record x { naccesses = 0 }) false

  abbrev pub check_route : Page → Route
  check_route x =
      if accessed (bits x.va)
      then (if dirty (bits x.va)
          then route_to written (record x { written = true }) true
          else route_to active (record x { written = false }) false)
      else route_to inactive x false

abbrev pub noted_va : Bool → Page → List ℕ
noted_va b x = if b then x.va ∷ [] else []

module _ {Table : Type 0} where
  -- Page `p` came on the list of route `r`, and became the page of the route; its address is noted
  -- if the route says so.
  pub record Routed (L : ℕ → List ℕ) (p : ℕ) (r : Route) (s s' : State Table) : Type 0 where
    pub rep : Rep s'.store (update L r.list (p ∷ L r.list))
    pub page : (q : ℕ) → s'.page q ≡ (if q == p then r.page else s.page q)
    pub vas : s'.lru.vas ≡ s.lru.vas ++ noted_va r.noted (s.page p)
    pub rest : s' ≡ record s {
      store = s'.store;
      page = s'.page;
      lru = record (s.lru) { vas = s'.lru.vas };
      calls = s'.calls;
    }

  send :
      (L : ℕ → List ℕ) (p : ℕ) (r : Route) (s0 s : State Table)
      → Rep s.store L
      → list_of s p ≡ none
      → suc (length (L r.list)) < 2 ^ 64
      → ((q : ℕ) → s.page q ≡ (if q == p then r.page else s0.page q))
      → s.lru.vas ≡ s0.lru.vas ++ noted_va r.noted (s0.page p)
      → s ≡ record s0 {
        store = s.store;
        page = s.page;
        lru = record (s0.lru) { vas = s.lru.vas };
        calls = s.calls;
      }
      → Returns (Routed L p r s0) (enqueue r.list p s)
  unfolding enqueue
  send L p r s0 s rep off room pages vas rest =
      bind (enqueue_fifo_refines p r.list rep off room) λ m (rep', _).
        returns (record {
          rep = rep';
          page = pages;
          vas = vas;
          rest = λ i. record (rest i) { store = m };
        })

module _ (e : Env) (bits : ℕ → ℕ) (shows : Shows e.os bits) (active inactive written : ℕ)
    (L : ℕ → List ℕ) (p : ℕ) (s : State e.table.Table) (rep : Rep s.store L)
    (off : list_of s p ≡ none) (aligned : ((s.page p).va % hugepage_size == 0) ≡ true)
    (room : ltb (length s.lru.vas) max_vas ≡ true)
    (small : (k : ℕ) → suc (length (L k)) < 2 ^ 64) where
  -- Each body: the page ends on the list of its route, and is changed as the route says.
  pub shrink_page_lem :
      Returns
        (Routed L p (shrink_route bits active inactive written (s.page p)) s)
        (shrink_page e active inactive written p s)
  unfolding shrink_page hemem_get_bits note
  shrink_page_lem = elim (Bool-cases (accessed (bits (s.page p).va))) [
    | inr cold ↦
        simp (aligned, shows, cold)
          (send L p (route_to inactive (record (s.page p) { naccesses = 0 }) false) s _ rep off
            (small inactive) (λ q. ground arith) (simp append-nil refl) refl)
    | inl hit ↦ elim (Bool-cases (dirty (bits (s.page p).va))) [
      | inl wrote ↦
          simp (aligned, shows, hit, wrote, room)
            (send L p (route_to written (record (s.page p) { written = true }) true) s _ rep off
              (small written) (λ q. ground arith) (simp ==_refl refl) refl)
      | inr clean ↦
          simp (aligned, shows, hit, clean, room)
            (send L p (route_to active (record (s.page p) { written = false }) true) s _ rep off
              (small active) (λ q. ground arith) (simp ==_refl refl) refl)
    ]
  ]

  pub expand_page_lem :
      Returns
        (Routed L p (expand_route bits active inactive written (s.page p)) s)
        (expand_page e active inactive written p s)
  unfolding expand_page hemem_get_bits note
  expand_page_lem = elim (Bool-cases (accessed (bits (s.page p).va))) [
    | inr cold ↦
        simp (aligned, shows, cold)
          (send L p (route_to inactive (record (s.page p) { naccesses = 0 }) false) s _ rep off
            (small inactive) (λ q. ground arith) (simp append-nil refl) refl)
    | inl hit ↦ elim (Bool-cases (dirty (bits (s.page p).va))) [
      | inl wrote ↦
          simp (aligned, shows, hit, wrote)
            (send L p (route_to written (record (s.page p) { written = true }) false) s _ rep off
              (small written) (λ q. ground arith) (simp append-nil refl) refl)
      | inr clean ↦ elim (Bool-cases (leb 4 (s.page p).naccesses)) [
        | inl often ↦
            simp (aligned, shows, hit, clean, ==_refl, often)
              (send L p
                (route_to active (record (s.page p) { written = false; naccesses = 0 }) false) s _
                rep off (small active) (λ q. ground arith) (simp append-nil refl) refl)
        | inr seldom ↦
            simp (aligned, shows, hit, clean, ==_refl, seldom, room)
              (send L p
                (route_to inactive
                  (record (s.page p) { written = false; naccesses = add64 (s.page p).naccesses 1 })
                  true)
                s _ rep off (small inactive) (λ q. ground arith) refl refl)
      ]
    ]
  ]

  pub check_page_lem :
      Returns
        (Routed L p (check_route bits active inactive written (s.page p)) s)
        (check_page e active inactive written p s)
  unfolding check_page hemem_get_bits note
  check_page_lem = elim (Bool-cases (accessed (bits (s.page p).va))) [
    | inr cold ↦
        simp (aligned, shows, cold)
          (send L p (route_to inactive (s.page p) false) s _ rep off (small inactive)
            (λ q. ground arith) (simp append-nil refl) refl)
    | inl hit ↦ elim (Bool-cases (dirty (bits (s.page p).va))) [
      | inl wrote ↦
          simp (aligned, shows, hit, wrote, room)
            (send L p (route_to written (record (s.page p) { written = true }) true) s _ rep off
              (small written) (λ q. ground arith) (simp ==_refl refl) refl)
      | inr clean ↦
          simp (aligned, shows, hit, clean)
            (send L p (route_to active (record (s.page p) { written = false }) false) s _ rep off
              (small active) (λ q. ground arith) (simp append-nil refl) refl)
    ]
  ]
