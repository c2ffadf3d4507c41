-- ===== src/Pebs/Invariant/Change.antt =====
-- About `make_hot` and `make_cold`.
use hemem.Prelude.{
  ℕ, ◌≡◌, ◌≢◌, refl, fun_ext, Bool, true, false, some, ◌==◌, arith, update, Returns, returns, bind,
  ==_refl,
}
use hemem.Memory.Kernel.{Env}
use hemem.Memory.State.{State}
use hemem.Pebs.Lists.{list_of, home, set_hot}
use hemem.Pebs.Heat.{change, make_hot, make_cold}
use hemem.Pebs.Invariant.{Inv}
use hemem.Pebs.Invariant.Steps.{page-Relinked, remove_lem}
use hemem.Pebs.Invariant.Move.{Replaced, Fits-home, home-lt, replace_lem}

-- Page `p` has the heat `h` and is on the list for it; all else is as it was.
unfoldable pub Changed : {Table : Type 0} → ℕ → Bool → State Table → State Table → Type 0
Changed p h s s' = Replaced p (home (s.page p).in_dram h) (record (s.page p) { hot = h }) s s'

module _ {e : Env} {n : ℕ} {s : State e.table.Table} (p : ℕ) (inv : Inv e n s)
    (present : (s.page p).present ≡ true) where
  change_lem :
      (l l' : ℕ) (h : Bool)
      → list_of s p ≡ some l
      → l' ≡ home (s.page p).in_dram h
      → Returns (λ s'. Inv e n s' × Changed p h s s') (change l l' h p s)
  unfolding Changed
  change_lem l l' h at_l is =
      rw (at_l, ==_refl)
        (bind (remove_lem l p s inv.well at_l) λ s1 out.
          rw (is, page-Relinked s s1 p out.0)
            (replace_lem p inv l at_l (home (s.page p).in_dram h) (record (s.page p) { hot = h })
              (Fits-home e (s.page p) (record (s.page p) { hot = h }) l (rw at_l at (inv.fits p))
                refl refl refl (λ _. present))
              refl refl s1 out ((inv.fits p).known l at_l) (home-lt (s.page p).in_dram h)))

pub set_hot_same :
    {Table : Type 0} (s : State Table) (p : ℕ) (h : Bool) → (s.page p).hot ≡ h → s ≡ set_hot p h s
set_hot_same s p h e =
    let same : s.page ≡ update s.page p (record (s.page p) { hot = h }) =
      fun_ext (λ q. ground arith) in
    λ i. record s { page = same i }

stay-Changed :
    {Table : Type 0} (s : State Table) (p : ℕ) (h : Bool)
    → (s.page p).hot ≡ h
    → list_of s p ≡ some (home (s.page p).in_dram h)
    → Changed p h s s
unfolding Changed
stay-Changed s p h e at_home = record {
  place = λ q. ground arith;
  page = λ q. ground arith;
  rest = set_hot_same s p h e;
  count = λ k. ground (arith, at_home);
}

module _ {e : Env} {n : ℕ} {s : State e.table.Table} (p : ℕ) (inv : Inv e n s)
    (present : (s.page p).present ≡ true) (mapped : (s.page p).va ≢ 0) where
  -- `make_hot` on an allocated page with an address: no assertion fails, the page is hot and on
  -- the hot list of its tier, no other page and no other part of the state changes, and the
  -- invariant holds again.
  pub make_hot_lem : Returns (λ s'. Inv e n s' × Changed p true s s') (make_hot p s)
  unfolding make_hot
  make_hot_lem =
      go (s.page p).hot (s.page p).in_dram refl refl ((inv.fits p).live present) (ground arith)
    where
      go :
          (h d : Bool)
          → (s.page p).hot ≡ h
          → (s.page p).in_dram ≡ d
          → list_of s p ≡ some (home d h)
          → ((s.page p).va == 0) ≡ false
          → Returns (λ s'. Inv e n s' × Changed p true s s') (make_hot p s)
      go true true eh ed l nz =
          rw (nz, eh, ed, l) (returns (inv, stay-Changed s p true eh (rw ed l)))
      go true false eh ed l nz =
          rw (nz, eh, ed, l) (returns (inv, stay-Changed s p true eh (rw ed l)))
      go false true eh ed l nz = rw (nz, eh, ed) (change_lem p inv present 1 0 true l (rw ed refl))
      go false false eh ed l nz = rw (nz, eh, ed) (change_lem p inv present 4 3 true l (rw ed refl))

  -- `make_cold` does the same the other way: the page ends on the cold list of its tier.
  pub make_cold_lem : Returns (λ s'. Inv e n s' × Changed p false s s') (make_cold p s)
  unfolding make_cold
  make_cold_lem =
      go (s.page p).hot (s.page p).in_dram refl refl ((inv.fits p).live present) (ground arith)
    where
      go :
          (h d : Bool)
          → (s.page p).hot ≡ h
          → (s.page p).in_dram ≡ d
          → list_of s p ≡ some (home d h)
          → ((s.page p).va == 0) ≡ false
          → Returns (λ s'. Inv e n s' × Changed p false s s') (make_cold p s)
      go false true eh ed l nz =
          rw (nz, eh, ed, l) (returns (inv, stay-Changed s p false eh (rw ed l)))
      go false false eh ed l nz =
          rw (nz, eh, ed, l) (returns (inv, stay-Changed s p false eh (rw ed l)))
      go true true eh ed l nz = rw (nz, eh, ed) (change_lem p inv present 0 1 false l (rw ed refl))
      go true false eh ed l nz = rw (nz, eh, ed) (change_lem p inv present 3 4 false l (rw ed refl))
