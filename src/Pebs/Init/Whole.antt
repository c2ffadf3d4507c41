-- ===== src/Pebs/Init/Whole.antt =====
-- `pebs_init` makes all frames of both devices free pages, and the rings empty.
use hemem.Prelude.{
  ℕ, ◌+◌, ◌/◌, ◌<◌, ◌≤◌, ◌^◌, ◌≡◌, ◌-◌, if◌then◌else◌, ◌∙◌, inl, refl, sym, subst, Bool, true,
  false, none, List, [], length, Ptr, arith, Returns, returns, bind,
}
use hemem.Ring
use hemem.Ring.{RingBuf}
use hemem.Ring.Bounds.{IsValid}
use hemem.Ring.Window.{contents}
use hemem.Fifo.Moves.{IsWell, entries}
use hemem.Memory.Page.{page_size}
use hemem.Memory.Kernel.{Env}
use hemem.Memory.State.{State}
use hemem.Pebs.Lists.{list_of, dram_free_list, nvm_free_list}
use hemem.Pebs.Init.{init_rings, pebs_init, ring_capacity}
use hemem.Pebs.Init.Invariant.{devsize, IsFrame, add_frames_lem}
use hemem.Pebs.Invariant.{Inv, listed}

-- Nothing is listed yet.
pub record Blank {Table : Type 0} (s : State Table) : Type 0 where
  pub well : IsWell s.store
  pub nothing : listed s.store ≡ 0
  pub loose : (q : ℕ) → list_of s q ≡ none
  pub unused : (q : ℕ) → ((s.page q).present ≡ false) × ((s.page q).hot ≡ false)

abbrev new_ring : List Ptr → RingBuf
new_ring b = record { buffer = b; head = 0; tail = 0; capacity = ring_capacity }

new_ring-IsValid : (b : List Ptr) → ring_capacity ≤ length b → IsValid (new_ring b)
new_ring-IsValid b long = record {
  storage = long;
  small = omega arith;
  head_in = omega arith;
  tail_in = omega arith;
}

module _ (e : Env) where
  Blank-Inv : (s : State e.table.Table) → Blank s → Inv e 0 s
  Blank-Inv s b = record {
    well = b.well;
    count = b.nothing;
    small = omega arith;
    fits = λ q. record {
      known = λ l h. absurd (ground (arith, b.loose q));
      tier = λ l h. absurd (ground (arith, b.loose q));
      live = λ h. absurd (ground (arith, b.unused q));
      idle = λ h. absurd (ground (arith, b.unused q));
      placed = λ l h. absurd (ground (arith, b.loose q));
      huge = λ l h. absurd (ground (arith, b.loose q));
    };
    apart = λ q r h. absurd (ground (arith, b.loose q));
  }

  abbrev frames : Bool → ℕ
  frames dram = devsize e dram / page_size

  -- The page for frame `i` of a device: `calloc` gives the pages of DRAM first.
  abbrev pub page_of : Bool → ℕ → ℕ
  page_of dram i = if dram then i else frames true + i

  -- The state of the policy when its threads start.
  pub record Started (s' : State e.table.Table) : Type 0 where
    pub inv : Inv e (frames true + frames false) s'
    pub fast_frame : (i : ℕ) → i < frames true → IsFrame e true dram_free_list i (page_of true i) s'
    pub slow_frame :
        (i : ℕ) → i < frames false → IsFrame e false nvm_free_list i (page_of false i) s'
    -- no other page is listed
    pub others : (q : ℕ) → frames true + frames false ≤ q → list_of s' q ≡ none
    pub fast : entries s'.store dram_free_list ≡ frames true
    pub slow : entries s'.store nvm_free_list ≡ frames false
    pub hot : IsValid s'.pebs.hot_ring × (contents s'.pebs.hot_ring ≡ [])
    pub cold : IsValid s'.pebs.cold_ring × (contents s'.pebs.cold_ring ≡ [])
    pub freed : IsValid s'.pebs.free_page_ring × (contents s'.pebs.free_page_ring ≡ [])

  same_frame :
      (d : Bool) (list i k p : ℕ) (s s' : State e.table.Table)
      → i ≡ k
      → IsFrame e d list i p s
      → (s'.page p ≡ s.page p) × (list_of s' p ≡ list_of s p)
      → IsFrame e d list k p s'
  same_frame d list i k p s s' same f (pg, l) = record {
    place = l ∙ f.place;
    tier = rw pg f.tier;
    offset = rw (pg, sym same) f.offset;
    unused = rw pg f.unused;
    cold = rw pg f.cold;
    quiet = rw pg f.quiet;
    type = rw pg f.type;
  }

  -- `pebs_init` when nothing is listed and no page is in use, with devices that end below
  -- `2 ^ 64` and have fewer than `2 ^ 31` frames, and buffers that hold the capacity of the rings:
  -- the loops end, no assertion fails and no counter overflows; for every whole huge page of a
  -- device, counted from its start, there is one page with that frame on the free list of the tier,
  -- neither in use nor hot, and no other page is listed; no two of them have the same frame, and each
  -- lies on its device; the three rings are valid and empty.
  pub pebs_init_lem :
      (b1 b2 b3 : List Ptr) (s : State e.table.Table)
      → Blank s
      → e.dramoffset + e.dramsize < 2 ^ 64
      → e.nvmoffset + e.nvmsize < 2 ^ 64
      → frames true < 2 ^ 31
      → frames false < 2 ^ 31
      → ring_capacity ≤ length b1
      → ring_capacity ≤ length b2
      → ring_capacity ≤ length b3
      → Returns Started (pebs_init e b1 b2 b3 s)
  unfolding pebs_init init_rings Ring.init Ring.reset
  pebs_init_lem b1 b2 b3 s b fast slow few_fast few_slow l1 l2 l3 =
      bind
        (add_frames_lem e true dram_free_list (omega arith) refl (frames true) 0 0 0 s
          (record {
            inv = Blank-Inv s b;
            before = λ q h. absurd (ground (arith, b.loose q));
            fresh_pages = λ q h. b.loose q;
          })
          (omega arith) (omega arith) fast (omega arith))
        λ s1 a1.
          bind
            (add_frames_lem e false nvm_free_list (omega arith) refl (frames false) (frames true)
              (frames true) 0 s1
              (record {
                inv = subst (λ m. Inv e m s1) (omega arith) a1.inv;
                before = λ q h d. absurd (ground (arith, a1.tier q h d, b.loose q));
                fresh_pages = λ q h. a1.fresh_pages q (omega arith);
              })
              (omega arith) (omega arith) slow (omega arith))
            λ s2 a2. returns (record {
              inv = record {
                well = a2.inv.well;
                count = a2.inv.count;
                small = a2.inv.small;
                fits = a2.inv.fits;
                apart = a2.inv.apart;
              };
              fast_frame = λ i lt.
                  same_frame true dram_free_list (i - 0) i i s1 _ (omega arith)
                    (a1.frames i (omega arith) (omega arith)) (a2.others i (inl (omega arith)));
              slow_frame = λ i lt.
                  same_frame false nvm_free_list (frames true + i - frames true) i (frames true + i)
                    s2 _ (omega arith) (a2.frames (frames true + i) (omega arith) (omega arith))
                    (refl, refl);
              others = λ q h. a2.fresh_pages q (omega arith);
              fast = ground (arith, a2.there dram_free_list refl, a1.here, b.nothing);
              slow = ground (arith, a2.here, a1.there nvm_free_list refl, b.nothing);
              hot = (new_ring-IsValid b1 l1, refl);
              cold = (new_ring-IsValid b2 l2, refl);
              freed = (new_ring-IsValid b3 l3, refl);
            })
