-- ===== src/Pebs/Invariant/Onward.antt =====
-- What the migration loop leaves as it is, for the rounds and the cooling that follow.
use hemem.Prelude.{
  ℕ, ◌+◌, ◌≡◌, refl, ap, ◌∙◌, Bool, Bool-cases, inl, inr, false, ◌||◌, none, some, ◌==◌, arith,
  eq_of_==,
}
use hemem.Fifo.Moves.{entries, Enqueued, Dequeued}
use hemem.Memory.Page.{Page}
use hemem.Memory.State.{State}
use hemem.Pebs.Lists.{
  list_of, set_hot, dram_hot_list, dram_cold_list, dram_free_list, nvm_hot_list, nvm_free_list,
}
use hemem.Pebs.Invariant.Steps.{Relinked, page-Relinked}
use hemem.Pebs.Invariant.Exchange.{Exchanged}

-- What no migration changes: the address, whether the page is enforced, and its clock.
abbrev pub label : Page → ℕ × Bool × ℕ
label x = (x.va, x.enforced, x.local_clock)

-- Pages keep their addresses, their clocks and whether they are enforced, the hot lists lose no page, and neither
-- the hot list of NVM nor the cold list of DRAM gets one.
pub record Onward {Table : Type 0} (s s' : State Table) : Type 0 where
  pub labels : (q : ℕ) → label (s'.page q) ≡ label (s.page q)
  pub dram_hot : (q : ℕ) → list_of s q ≡ some dram_hot_list → list_of s' q ≡ some dram_hot_list
  pub nvm_hot : (q : ℕ) → list_of s' q ≡ some nvm_hot_list → list_of s q ≡ some nvm_hot_list
  pub dram_cold : (q : ℕ) → list_of s' q ≡ some dram_cold_list → list_of s q ≡ some dram_cold_list
  pub still_hot : (q : ℕ) → list_of s q ≡ some nvm_hot_list → list_of s' q ≡ some nvm_hot_list
  pub pebs : s'.pebs ≡ s.pebs

-- The pages on the two free lists.
abbrev pub stock : {Table : Type 0} → State Table → ℕ
stock s = entries s.store dram_free_list + entries s.store nvm_free_list

-- So does a round that moves a page of NVM that is off its list up, and no free page is lost.
pub record Raised {Table : Type 0} (p : ℕ) (s s' : State Table) : Type 0 where
  pub only_new :
      (q : ℕ)
      → (q == p) ≡ false
      → list_of s' q ≡ some dram_hot_list
      → list_of s q ≡ some dram_hot_list
  pub onward : Onward s s'
  pub stock : stock s' ≡ stock s
  pub hot : entries s'.store nvm_hot_list ≡ entries s.store nvm_hot_list

module _ {Table : Type 0} where
  pub Onward-trans : (s s1 s2 : State Table) → Onward s s1 → Onward s1 s2 → Onward s s2
  Onward-trans s s1 s2 a b = record {
    labels = λ q. b.labels q ∙ a.labels q;
    dram_hot = λ q h. b.dram_hot q (a.dram_hot q h);
    nvm_hot = λ q h. a.nvm_hot q (b.nvm_hot q h);
    dram_cold = λ q h. a.dram_cold q (b.dram_cold q h);
    still_hot = λ q h. b.still_hot q (a.still_hot q h);
    pebs = b.pebs ∙ a.pebs;
  }

  -- A loose page goes on a list.
  pub put-Onward :
      (p l : ℕ) (s s1 : State Table)
      → list_of s p ≡ none
      → (l == nvm_hot_list) ≡ false
      → (l == dram_cold_list) ≡ false
      → Relinked s s1
      → Enqueued p l s.store s1.store
      → Onward s s1
  put-Onward p l s s1 loose a b same into = record {
    labels = λ q. ap label (page-Relinked s s1 q same);
    dram_hot = λ q h. ground (arith, into.moved.place q, loose, eq_of_== q p);
    still_hot = λ q h. ground (arith, into.moved.place q, loose, eq_of_== q p);
    nvm_hot = λ q h. ground (arith, into.moved.place q);
    dram_cold = λ q h. ground (arith, into.moved.place q);
    pebs = ap (λ (t : State Table). t.pebs) same;
  }

  -- The heat of a page is set.
  pub set_hot-Onward : (p : ℕ) (h : Bool) (s : State Table) → Onward s (set_hot p h s)
  set_hot-Onward p h s =
      let same : (q : ℕ) → label ((set_hot p h s).page q) ≡ label (s.page q) = λ q.
        elim (Bool-cases (q == p)) [
          | inl is ↦ rw (is, eq_of_== q p is) refl
          | inr ne ↦ rw ne refl
        ] in
      record {
        labels = same;
        dram_hot = λ q i. i;
        nvm_hot = λ q i. i;
        dram_cold = λ q i. i;
        still_hot = λ q i. i;
        pebs = refl;
      }

  -- A page and a free one change frames.
  pub Exchanged-Onward :
      (d : Bool) (p np : ℕ) (s s1 : State Table) → Exchanged d p np s s1 → Onward s s1
  Exchanged-Onward d p np s s1 x =
      let same : (q : ℕ) → label (s1.page q) ≡ label (s.page q) = λ q. elim (Bool-cases (q == p)) [
        | inl is ↦ rw (eq_of_== q p is) (ap label x.moved)
        | inr ne ↦ elim (Bool-cases (q == np)) [
          | inl is ↦ rw (eq_of_== q np is) (ap label x.freed)
          | inr other ↦ ap label (x.others q ne other)
        ]
      ] in
      record {
        labels = same;
        dram_hot = λ q h. rw x.store h;
        still_hot = λ q h. rw x.store h;
        nvm_hot = λ q h. rw x.store at h;
        dram_cold = λ q h. rw x.store at h;
        pebs = x.pebs;
      }

  -- A page is taken off a list that is not a hot one.
  pub take-Onward :
      (p l : ℕ) (s s1 : State Table)
      → ((l == dram_hot_list) || (l == nvm_hot_list)) ≡ false
      → Relinked s s1
      → Dequeued p l s.store s1.store
      → Onward s s1
  take-Onward p l s s1 ne same out = record {
    labels = λ q. ap label (page-Relinked s s1 q same);
    dram_hot = λ q h. ground (arith, out.moved.place q, out.was, eq_of_== q p);
    still_hot = λ q h. ground (arith, out.moved.place q, out.was, eq_of_== q p);
    nvm_hot = λ q h. ground (arith, out.moved.place q);
    dram_cold = λ q h. ground (arith, out.moved.place q);
    pebs = ap (λ (t : State Table). t.pebs) same;
  }
