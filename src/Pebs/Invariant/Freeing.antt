-- ===== src/Pebs/Invariant/Freeing.antt =====
-- The policy thread puts a page that was given back on the free list of its tier.
use hemem.Prelude.{
  ℕ, ◌≡◌, refl, sym, ap, ◌∙◌, subst, fun_ext, false, some, ◌==◌, if◌then◌else◌, arith, update,
  Returns, bind, mono,
}
use hemem.Memory.Page.{Page}
use hemem.Memory.Kernel.{Env}
use hemem.Memory.State.{State, Pebs, set_page}
use hemem.Pebs.Lists.{list_of, free_list_of}
use hemem.Pebs.Policy.{free_page}
use hemem.Pebs.Invariant.{Inv, Fits}
use hemem.Pebs.Invariant.Steps.{page-Relinked, remove_lem}
use hemem.Pebs.Invariant.Move.{Replaced, replace_lem}
use hemem.Pebs.Invariant.Moving.{Fits-put}
use hemem.Pebs.Invariant.Cursor.{Cursors, Aside, update_current_cool_page_lem}

-- Only the cursors of the cooling walks differ.
abbrev pub Walked : Pebs → Pebs → Type 0
Walked b b' =
    b' ≡ record b { cur_cool_in_dram = b'.cur_cool_in_dram; cur_cool_in_nvm = b'.cur_cool_in_nvm }

pub Walked-trans : (b c d : Pebs) → Walked b c → d ≡ c → Walked b d
Walked-trans b c d old same =
    same
    ∙ old
    ∙ ap
        (λ (y : Pebs). record b {
          cur_cool_in_dram = y.cur_cool_in_dram;
          cur_cool_in_nvm = y.cur_cool_in_nvm;
        })
        (sym same)

-- Page `p` is on list `l` now and is `x`; no other page moved or changed.
pub record Put {Table : Type 0} (p l : ℕ) (x : Page) (s s' : State Table) : Type 0 where
  pub cursors : Cursors s'
  pub place : (q : ℕ) → list_of s' q ≡ (if q == p then some l else list_of s q)
  pub page : (q : ℕ) → s'.page q ≡ (if q == p then x else s.page q)
  pub pebs : Walked s.pebs s'.pebs

module _ {Table : Type 0} where
  -- After a move of a page at which no cursor stands.
  pub Replaced-Put :
      (p l : ℕ) (x : Page) (s s1 s2 : State Table)
      → Aside p s s1
      → Replaced p l x s1 s2
      → Put p l x s s2
  Replaced-Put p l x s s1 s2 a r =
      let b : s2.pebs ≡ s1.pebs = ap (λ (t : State Table). t.pebs) r.rest in
      let old : s1.pebs ≡ record (s.pebs) {
        cur_cool_in_dram = s1.pebs.cur_cool_in_dram;
        cur_cool_in_nvm = s1.pebs.cur_cool_in_nvm;
      } =
        ap (λ (t : State Table). t.pebs) a.rest in
      let links = ap (λ (t : State Table). t.store) a.rest in
      let pages = ap (λ (t : State Table). t.page) a.rest in
      record {
        cursors = record {
          fast = λ q h. ground (arith, r.place q, b, a.cursors.fast q, a.off_dram);
          slow = λ q h. ground (arith, r.place q, b, a.cursors.slow q, a.off_nvm);
        };
        place = λ q. r.place q ∙ rw links refl;
        page = λ q. r.page q ∙ rw pages refl;
        pebs = Walked-trans s.pebs s1.pebs s2.pebs old b;
      }

  same_page : (s : State Table) (p : ℕ) → set_page s p (s.page p) ≡ s
  same_page s p =
      let same : update s.page p (s.page p) ≡ s.page = fun_ext (λ q. ground arith) in
      λ i. record s { page = same i }

module _ {e : Env} {n : ℕ} where
  -- The invariant of the lists does not read the cursors.
  pub Aside-Inv : (p : ℕ) (s s' : State e.table.Table) → Inv e n s → Aside p s s' → Inv e n s'
  Aside-Inv p s s' inv a = subst (Inv e n) (sym a.rest) (record {
    well = inv.well;
    count = inv.count;
    small = inv.small;
    fits = inv.fits;
    apart = inv.apart;
  })

  -- `free_page` of a listed page that is not in use: no assertion fails, the page goes to the free
  -- list of its tier, and no cooling walk stands at it any more.
  pub free_page_lem :
      (p l : ℕ) (s : State e.table.Table)
      → Inv e n s
      → Cursors s
      → list_of s p ≡ some l
      → (s.page p).present ≡ false
      → (s.page p).hot ≡ false
      → Returns
          (λ s'. Inv e n s' × Put p (free_list_of (s.page p).in_dram) (s.page p) s s')
          (free_page p s)
  unfolding free_page
  free_page_lem p l s inv c at_l gone cold =
      rw (at_l, free_page)
        (bind (update_current_cool_page_lem p s inv.well c) λ s1 a.
          let inv1 = Aside-Inv p s s1 inv a in
          let at_l1 : list_of s1 p ≡ some l =
            ap (λ (t : State e.table.Table). list_of t p) a.rest ∙ at_l in
          let pg : s1.page p ≡ s.page p = ap (λ (t : State e.table.Table). t.page p) a.rest in
          let to = free_list_of (s.page p).in_dram in
          let f = inv.fits p in
          bind (remove_lem l p s1 inv1.well at_l1) λ s2 out.
            let pg2 : s2.page p ≡ s.page p = page-Relinked s1 s2 p out.0 ∙ pg in
            let fit : Fits e (some to) (s.page p) =
              Fits-put e to (s.page p) (ground arith) (ground arith) (λ h. absurd (ground arith))
                f.idle (f.placed l at_l) (f.huge l at_l) in
            let run =
              replace_lem p inv1 l at_l1 to (s.page p) fit (rw pg refl) (rw pg refl) s2 out
                (f.known l at_l) (ground arith) in
            rw pg2 (
              mono (rw (ap (λ x. set_page s2 p x) (sym pg2) ∙ same_page s2 p) at run)
                λ s3 (inv3, r). (inv3, Replaced-Put p to (s.page p) s s1 s3 a r)))
