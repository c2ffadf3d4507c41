-- ===== src/Pebs/Invariant/Draining.antt =====
-- The loop of the policy thread over the ring of pages that were given back.
use hemem.Prelude.{
  ℕ, zero, suc, ◌<◌, ◌≡◌, refl, sym, ap, ◌∙◌, subst, Bool, inl, inr, true, false, some, none, List,
  [], ◌∷◌, Ptr, is_null, same_ptr, ◌||◌, if◌then◌else◌, arith, length, Option-cases, Returns,
  returns, bind, mono,
}
use hemem.Ring
use hemem.Ring.Entries.{Holding, empty_lem, get_lem}
use hemem.Memory.Kernel.{Env}
use hemem.Memory.State.{State, Pebs}
use hemem.Pebs.Lists.{list_of, free_list_of}
use hemem.Pebs.Scan.{set_pebs}
use hemem.Pebs.Policy.{free_pages}
use hemem.Pebs.Invariant.{Inv}
use hemem.Pebs.Invariant.Cursor.{Cursors}
use hemem.Pebs.Invariant.Freeing.{free_page_lem}

abbrev pub holds : ℕ → List Ptr → Bool
holds p [] = false
holds p (o ∷ os) = same_ptr (some p) o || holds p os

module _ {Table : Type 0} where
  -- The pages of the entries are on some list and not in use.
  abbrev pub GivenBack : List Ptr → State Table → Type 0
  GivenBack xs s =
      (p : ℕ)
      → holds p xs ≡ true
      → (is_null (list_of s p) ≡ false) × ((s.page p).present ≡ false) × ((s.page p).hot ≡ false)

  -- The pages of the entries are on the free lists of their tiers; no other page moved, no page
  -- changed, and of the variables only the ring and the cursors did.
  pub record Drained (xs : List Ptr) (s s' : State Table) : Type 0 where
    pub cursors : Cursors s'
    pub ring : Holding [] s'.pebs.free_page_ring
    pub place :
        (q : ℕ)
        → list_of s' q
          ≡ (if holds q xs then some (free_list_of (s.page q).in_dram) else list_of s q)
    pub page : (q : ℕ) → s'.page q ≡ s.page q
    pub pebs : s'.pebs ≡ record (s.pebs) {
      free_page_ring = s'.pebs.free_page_ring;
      cur_cool_in_dram = s'.pebs.cur_cool_in_dram;
      cur_cool_in_nvm = s'.pebs.cur_cool_in_nvm;
    }

module _ {e : Env} {n : ℕ} where
  pub ring-Inv : (b : Pebs) (s : State e.table.Table) → Inv e n s → Inv e n (set_pebs s b)
  ring-Inv b s inv = record {
    well = inv.well;
    count = inv.count;
    small = inv.small;
    fits = inv.fits;
    apart = inv.apart;
  }

  -- The loop over the pages that were given back, with more rounds than the ring has entries, when
  -- every page of an entry is on some list and not in use: the loop ends, no assertion fails, and the
  -- ring is empty; the pages of the entries are on the free lists of their tiers, and no other page
  -- moved; no page changed, and of the variables only the ring and the cooling walks did, which stand
  -- on the hot lists; the invariant holds again.
  pub free_pages_lem :
      (xs : List Ptr) (fuel : ℕ) (s : State e.table.Table)
      → length xs < fuel
      → Holding xs s.pebs.free_page_ring
      → Inv e n s
      → Cursors s
      → GivenBack xs s
      → Returns (λ s'. Inv e n s' × Drained xs s s') (free_pages fuel s)
  unfolding free_pages
  free_pages_lem xs zero s fuel ring inv c back = absurd (omega arith)
  free_pages_lem [] (suc fuel) s f ring inv c back =
      rw (empty_lem s.pebs.free_page_ring ring, free_pages)
        (returns (
          inv,
          record { cursors = c; ring = ring; place = λ q. refl; page = λ q. refl; pebs = refl },
        ))
  free_pages_lem (none ∷ xs) (suc fuel) s f ring inv c back =
      let (more, is, left) = get_lem none xs s.pebs.free_page_ring ring in
      let b = record (s.pebs) { free_page_ring = (Ring.get s.pebs.free_page_ring).1 } in
      rw (more, is, free_pages)
        (mono
          (free_pages_lem xs fuel (set_pebs s b) (omega arith) left (ring-Inv b s inv)
            (record { fast = c.fast; slow = c.slow }) (λ p h. back p (ground arith)))
          λ s' (inv', d). (
            inv',
            record {
              cursors = d.cursors;
              ring = d.ring;
              place = d.place;
              page = d.page;
              pebs = d.pebs;
            },
          ))
  free_pages_lem (some p ∷ xs) (suc fuel) s f ring inv c back =
      let (more, is, left) = get_lem (some p) xs s.pebs.free_page_ring ring in
      let b = record (s.pebs) { free_page_ring = (Ring.get s.pebs.free_page_ring).1 } in
      let (listed, gone, cold) = back p (ground arith) in
      rw (more, is, free_pages)
        (elim (Option-cases (list_of s p)) [
          | inl off ↦ absurd (ground arith)
          | inr (l, at_l) ↦
              bind
                (free_page_lem p l (set_pebs s b) (ring-Inv b s inv)
                  (record { fast = c.fast; slow = c.slow }) at_l gone cold)
                λ s1 (inv1, put).
                  let page : (q : ℕ) → s1.page q ≡ s.page q = λ q. ground (arith, put.page q) in
                  mono
                    (free_pages_lem xs fuel s1 (omega arith)
                      (subst (Holding xs) (sym (ap (λ (y : Pebs). y.free_page_ring) put.pebs)) left)
                      inv1 put.cursors (λ q h. ground (arith, back q, put.place q, page q)))
                    λ s' (inv', d). (
                      inv',
                      record {
                        cursors = d.cursors;
                        ring = d.ring;
                        place = λ q. ground (arith, d.place q, put.place q, page q);
                        page = λ q. d.page q ∙ page q;
                        pebs =
                            d.pebs
                            ∙ ap
                                (λ (y : Pebs). record y {
                                  free_page_ring = s'.pebs.free_page_ring;
                                  cur_cool_in_dram = s'.pebs.cur_cool_in_dram;
                                  cur_cool_in_nvm = s'.pebs.cur_cool_in_nvm;
                                })
                                put.pebs;
                      },
                    )
        ])
