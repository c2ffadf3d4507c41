-- ===== src/Pebs/Init/Invariant.antt =====
-- The loop that makes the frames of a device free pages keeps the invariant of the lists.
use hemem.Prelude.{
  ℕ, zero, suc, ◌+◌, ◌*◌, ◌<◌, ◌≤◌, ◌^◌, ◌≡◌, refl, subst, Bool, Bool-cases, inl, inr, true, false,
  not, none, some, ltb, ◌∙◌, ==_refl, ◌⊎◌, ◌-◌, is_null, ◌==◌, if◌then◌else◌, arith, update, add64,
  Returns, returns, bind, mono,
}
use hemem.Fifo.Moves.{entries}
use hemem.Memory.Page.{hugep, hugepage_size, page_size, pt_to_pagesize}
use hemem.Memory.Kernel.{Env}
use hemem.Memory.State.{State, set_page}
use hemem.Pebs.Lists.{list_of, is_dram_list}
use hemem.Pebs.Init.{frame_page, add_frames}
use hemem.Pebs.Invariant.{Inv, Placed}
use hemem.Pebs.Invariant.Steps.{page-Relinked}
use hemem.Pebs.Invariant.Off.{InvOff, InvOff-Inv, enqueue_held}
use hemem.Pebs.Invariant.Moving.{Fits-put}
use hemem.Pebs.Invariant.Raising.{only}

abbrev pub devoffset : Env → Bool → ℕ
devoffset e dram = if dram then e.dramoffset else e.nvmoffset

abbrev pub devsize : Env → Bool → ℕ
devsize e dram = if dram then e.dramsize else e.nvmsize

-- Before frame `i` of a device: `n` pages are listed, none with that frame or a later one, and the
-- pages from number `fresh` on are not in use.
pub record Building (e : Env) (dram : Bool) (n i fresh : ℕ) (s : State e.table.Table) : Type 0 where
  pub inv : Inv e n s
  pub before :
      (q : ℕ)
      → is_null (list_of s q) ≡ false
      → (s.page q).in_dram ≡ dram
      → (s.page q).devdax_offset < devoffset e dram + i * page_size
  pub fresh_pages : (q : ℕ) → fresh ≤ q → list_of s q ≡ none

-- Page `p` is free and stands for frame `i` of the device.
pub record IsFrame (e : Env) (dram : Bool) (list i p : ℕ) (s : State e.table.Table) : Type 0 where
  pub place : list_of s p ≡ some list
  pub tier : (s.page p).in_dram ≡ dram
  pub offset : (s.page p).devdax_offset ≡ devoffset e dram + i * hugepage_size
  pub unused : (s.page p).present ≡ false
  pub cold : (s.page p).hot ≡ false
  pub quiet : (s.page p).ring_present ≡ false
  pub type : (s.page p).pt ≡ hugep

module _ (e : Env) (dram : Bool) (list : ℕ) (lt : list < 6)
    (of_tier : dram ≡ is_dram_list list) where
  frame-Placed :
      (i : ℕ)
      → i * page_size + page_size ≤ devsize e dram
      → devoffset e dram + devsize e dram < 2 ^ 64
      → Placed e (frame_page dram (devoffset e dram) i)
  unfolding pt_to_pagesize
  frame-Placed i on_device dev =
      let at_i : add64 (i * page_size) (devoffset e dram) ≡ i * page_size + devoffset e dram =
        omega arith in
      rw at_i (record { above = omega arith; below = omega arith; small = dev })

  -- The next frame becomes a page that is on no list yet.
  place_frame :
      (p n i : ℕ) (s : State e.table.Table)
      → Building e dram n i p s
      → n + 1 < 2 ^ 64
      → i * page_size + page_size ≤ devsize e dram
      → devoffset e dram + devsize e dram < 2 ^ 64
      → InvOff e (n + 1) 1 (only p) (set_page s p (frame_page dram (devoffset e dram) i))
  place_frame p n i s b small on_device dev =
      let at_i : add64 (i * page_size) (devoffset e dram) ≡ i * page_size + devoffset e dram =
        omega arith in
      record {
        well = b.inv.well;
        count = omega (arith, b.inv.count);
        small = small;
        fits = λ q h. let other : (q == p) ≡ false = ground arith in rw other (b.inv.fits q);
        loose = λ q h. ground (arith, b.fresh_pages q);
        framed = λ q h.
            let is : (q == p) ≡ true = ground arith in rw is (frame-Placed i on_device dev, refl);
        apart = λ q r a c d o. elim (Bool-cases (q == p)) [
          | inl is ↦ elim (Bool-cases (r == p)) [
            | inl is' ↦ ground arith
            | inr ne' ↦ absurd (ground (arith, b.before r, at_i))
          ]
          | inr ne ↦ elim (Bool-cases (r == p)) [
            | inl is' ↦ absurd (ground (arith, b.before q, at_i))
            | inr ne' ↦ b.inv.apart q r (ground arith) (ground arith) (ground arith) (ground arith)
          ]
        ];
      }

  -- What the loop leaves: the frames are on the list, and the other lists are as they were.
  pub record Added (n left first fresh : ℕ) (s s' : State e.table.Table) : Type 0 where
    pub frames : (q : ℕ) → fresh ≤ q → q < fresh + left → IsFrame e dram list (q - first) q s'
    pub others :
        (q : ℕ)
        → (q < fresh) ⊎ (fresh + left ≤ q)
        → (s'.page q ≡ s.page q) × (list_of s' q ≡ list_of s q)
    pub inv : Inv e (n + left) s'
    pub here : entries s'.store list ≡ entries s.store list + left
    pub there : (l : ℕ) → (l == list) ≡ false → entries s'.store l ≡ entries s.store l
    pub fresh_pages : (q : ℕ) → fresh + left ≤ q → list_of s' q ≡ none
    pub tier :
        (q : ℕ)
        → is_null (list_of s' q) ≡ false
        → (s'.page q).in_dram ≡ not dram
        → is_null (list_of s q) ≡ false × ((s.page q).in_dram ≡ not dram)

  pub add_frames_lem :
      (left first n i : ℕ) (s : State e.table.Table)
      → Building e dram n i (first + i) s
      → n + left < 2 ^ 64
      → (i + left) * page_size ≤ devsize e dram
      → devoffset e dram + devsize e dram < 2 ^ 64
      → i + left < 2 ^ 31
      → Returns
          (Added n left first (first + i) s)
          (add_frames dram list (devoffset e dram) first left i s)
  unfolding add_frames
  add_frames_lem zero first n i s b small on_device dev int = returns (record {
    frames = λ q lo hi. absurd (omega arith);
    others = λ q h. (refl, refl);
    inv = subst (λ m. Inv e m s) (omega arith) b.inv;
    here = omega arith;
    there = λ l h. refl;
    fresh_pages = λ q h. b.fresh_pages q (omega arith);
    tier = λ q h d. (h, d);
  })
  add_frames_lem (suc left) first n i s b small on_device dev int =
      let p = first + i in
      let x = frame_page dram (devoffset e dram) i in
      let at_i : add64 (i * page_size) (devoffset e dram) ≡ i * page_size + devoffset e dram =
        omega arith in
      let held = place_frame p n i s b (omega arith) (omega arith) dev in
      bind
        (enqueue_held list p lt (omega arith) held (ground arith) (
          Fits-put e list _ lt (ground (arith, of_tier)) (λ h. absurd (ground arith))
            (λ h. absurd (ground arith)) (held.framed p (ground arith)).0
            (held.framed p (ground arith)).1))
        λ s1 (same, into, inv1).
          let pg : (q : ℕ) → s1.page q ≡ update s.page p x q =
            λ q. page-Relinked (set_page s p x) s1 q same in
          let place : (q : ℕ) → list_of s1 q ≡ (if q == p then some list else list_of s q) =
            λ q. into.moved.place q in
          let step : ltb (i + 1) (2 ^ 31) ≡ true = ground arith in
          rw step (
            mono
              (add_frames_lem left first (n + 1) (i + 1) s1
                (record {
                  inv = InvOff-Inv inv1 (λ q. ground arith);
                  before = λ q h d. ground (arith, pg q, place q, b.before q, at_i);
                  fresh_pages = λ q h. ground (arith, place q, b.fresh_pages q);
                })
                (omega arith) (omega arith) dev (omega arith))
              λ s2 a.
                let (p2, l2) = a.others p (inl (omega arith)) in
                let new : s2.page p ≡ x = p2 ∙ pg p ∙ rw ==_refl refl in
                let at_p : IsFrame e dram list (p - first) p s2 = record {
                  place = l2 ∙ place p ∙ rw ==_refl refl;
                  tier = rw new refl;
                  offset = rw new (omega (arith, at_i));
                  unused = rw new refl;
                  cold = rw new refl;
                  quiet = rw new refl;
                  type = rw new refl;
                } in
                record {
                  frames = λ q lo hi. elim (Bool-cases (q == p)) [
                    | inl is ↦
                        let same : p ≡ q = ground arith in
                        subst (λ x. IsFrame e dram list (x - first) x s2) same at_p
                    | inr ne ↦ a.frames q (ground arith) (omega arith)
                  ];
                  others = λ q h.
                      let other : (q == p) ≡ false = ground (arith, h) in
                      let rest : (q < first + (i + 1)) ⊎ (first + (i + 1) + left ≤ q) = elim h [
                        | inl below ↦ inl (omega arith)
                        | inr above ↦ inr (omega arith)
                      ] in
                      let (p2, l2) = a.others q rest in
                      (p2 ∙ pg q ∙ rw other refl, l2 ∙ place q ∙ rw other refl);
                  inv = subst (λ m. Inv e m s2) (omega arith) a.inv;
                  here = ground (arith, a.here, into.count list);
                  there = λ l h. ground (arith, a.there l h, into.count l);
                  fresh_pages = λ q h. a.fresh_pages q (omega arith);
                  tier = λ q h d. ground (arith, a.tier q h d, pg q, place q);
                })
