-- ===== src/Pebs/Invariant/Leaving.antt =====
-- A page leaves the hot list of NVM: where the walk over the list stands then.
use hemem.Prelude.{
  ℕ, eq_of_==, ◌≡◌, refl, sym, ap, ◌∙◌, subst, Bool, Bool-cases, inl, inr, true, false, some, ◌==◌,
  arith, same_ptr,
}
use hemem.Fifo.Moves.{IsWell, Dequeued, first-on}
use hemem.Memory.Page.{hugep}
use hemem.Memory.Kernel.{Env}
use hemem.Memory.State.{State, Pebs}
use hemem.Pebs.Lists.{list_of, dram_hot_list, nvm_hot_list, set_hot}
use hemem.Pebs.Policy.{leave_nvm}
use hemem.Pebs.Invariant.{Placed}
use hemem.Pebs.Invariant.Steps.{Relinked}
use hemem.Pebs.Invariant.Cursor.{Cursors}
use hemem.Pebs.Invariant.Off.{InvOff}

-- Where the next cooling goes on changes neither lists nor pages.
pub leave-same :
    (e : Env) (p : ℕ) (s : State e.table.Table)
    → ((leave_nvm e p s).store ≡ s.store) × ((leave_nvm e p s).page ≡ s.page)
leave-same e p s = elim (Bool-cases (same_ptr (some p) s.pebs.cur_cool_in_nvm)) [
  | inl is ↦ rw is (refl, refl)
  | inr ne ↦ rw ne (refl, refl)
]

-- Only where the walk over the hot list of NVM stands differs.
pub leave-pebs :
    (e : Env) (p : ℕ) (s : State e.table.Table)
    → (leave_nvm e p s).pebs
      ≡ record (s.pebs) { cur_cool_in_nvm = (leave_nvm e p s).pebs.cur_cool_in_nvm }
leave-pebs e p s = elim (Bool-cases (same_ptr (some p) s.pebs.cur_cool_in_nvm)) [
  | inl is ↦ rw is refl
  | inr ne ↦ rw ne refl
]

-- The walks stand on the hot lists once page `p` is off its list.
pub leave-Cursors :
    (e : Env) (p : ℕ) (s s1 : State e.table.Table)
    → IsWell s1.store
    → Cursors s
    → Relinked s s1
    → Dequeued p nvm_hot_list s.store s1.store
    → Cursors (leave_nvm e p s1)
leave-Cursors e p s s1 w c same gone =
    let b : s1.pebs ≡ s.pebs = ap (λ (t : State e.table.Table). t.pebs) same in
    let fast : (q : ℕ) → s1.pebs.cur_cool_in_dram ≡ some q → list_of s1 q ≡ some dram_hot_list =
      λ q h. ground (
        arith,
        c.fast q (sym (ap (λ (b : Pebs). b.cur_cool_in_dram) b) ∙ h),
        gone.moved.place q,
        gone.was,
        eq_of_== q p,
      ) in
    elim (Bool-cases (same_ptr (some p) s1.pebs.cur_cool_in_nvm)) [
      | inl is ↦ rw is (record { fast = fast; slow = λ q h. first-on nvm_hot_list q w h })
      | inr ne ↦ rw ne (record {
        fast = fast;
        slow = λ q h. ground (
          arith,
          ne,
          c.slow q (sym (ap (λ (b : Pebs). b.cur_cool_in_nvm) b) ∙ h),
          gone.moved.place q,
        );
      })
    ]

pub InvOff-same :
    {e : Env} {n k : ℕ} {off : ℕ → Bool} {s s' : State e.table.Table}
    → (s'.store ≡ s.store) × (s'.page ≡ s.page)
    → InvOff e n k off s
    → InvOff e n k off s'
InvOff-same (a, b) inv = record {
  well = rw a inv.well;
  count = rw a inv.count;
  small = inv.small;
  fits = rw (a, b) inv.fits;
  loose = rw a inv.loose;
  framed = rw b inv.framed;
  apart = rw (a, b) inv.apart;
}

-- The heat of a held page is free.
pub set_hot-InvOff :
    {e : Env} {n k : ℕ} {off : ℕ → Bool} {s : State e.table.Table} (p : ℕ) (h : Bool)
    → off p ≡ true
    → InvOff e n k off s
    → InvOff e n k off (set_hot p h s)
set_hot-InvOff {e = e} {s = s} p h at_p inv = record {
  well = inv.well;
  count = inv.count;
  small = inv.small;
  fits = λ q o. let other : (q == p) ≡ false = ground arith in rw other (inv.fits q o);
  loose = inv.loose;
  framed = λ q o. elim (Bool-cases (q == p)) [
    | inl is ↦ rw is (
        subst (λ x. Placed e (s.page x) × ((s.page x).pt ≡ hugep)) (eq_of_== q p is)
          (inv.framed q o))
    | inr ne ↦ rw ne (inv.framed q o)
  ];
  apart = λ q r a b d o. inv.apart q r a b (ground arith) (ground arith);
}
