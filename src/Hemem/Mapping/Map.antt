-- ===== src/Hemem/Mapping/Map.antt =====
-- What `hemem_mmap` does, on top of any policy that keeps its laws.
use hemem.Prelude.{
  ℕ, ◌+◌, ◌*◌, ◌%◌, ◌<◌, ◌≤◌, ◌^◌, ◌≡◌, ◌≢◌, refl, Bool-cases, inl, inr, true, false, none, ◌==◌,
  List, add64, arith, Returns, returns, bind,
}
use hemem.Memory.Page.{hugepage_size}
use hemem.Memory.Kernel.{Call, mmap_region, uffd_register, ok, Env, Serves}
use hemem.Memory.State.{State}
use hemem.Hemem.Policy.{Policy, Laws, Settled}
use hemem.Hemem.Tracked.{Tracked}
use hemem.Hemem.Mapping.{page_round_up, shared_flags, set_cr3, hemem_mmap}
use hemem.Hemem.Mapping.Populate.{Populated, hemem_mmap_populate_lem}

module _ (e : Env) (serves : Serves e.os) {policy : Policy e} (laws : Laws e policy) where
  abbrev S : Type 0
  S = State e.table.Table

  -- What `hemem_mmap` changes before the pages of the mapping are populated.
  record Opened (s s' : S) : Type 0 where
    settled : Settled s s'
    page : s'.page ≡ s.page
    pages : s'.pages ≡ s.pages
    stats : s'.stats ≡ s.stats

  set_cr3-Opened : (s s1 : S) → Opened s s1 → Returns (Opened s) (set_cr3 e policy s1)
  unfolding set_cr3
  set_cr3-Opened s s1 o = elim (Bool-cases s1.cr3_set) [
    | inl is ↦ rw is (
        returns (record {
          settled = record {
            store = o.settled.store;
            pebs = o.settled.pebs;
            hint = o.settled.hint;
            lru = o.settled.lru;
            simple = o.settled.simple;
            page = o.settled.page;
          };
          page = o.page;
          pages = o.pages;
          stats = o.stats;
        }))
    | inr ne ↦
        rw (ne, serves)
          (returns (record {
            settled = record {
              store = o.settled.store;
              pebs = o.settled.pebs;
              hint = o.settled.hint;
              lru = o.settled.lru;
              simple = o.settled.simple;
              page = o.settled.page;
            };
            page = o.page;
            pages = o.pages;
            stats = o.stats;
          }))
  ]

  Opened-Tracked : (s s' : S) → Opened s s' → Tracked e s → Tracked e s'
  Opened-Tracked s s' o t = record {
    held = rw (o.page, o.pages) t.held;
    known = rw (o.page, o.pages) t.known;
    mapped = rw o.page t.mapped;
    aligned = rw o.page t.aligned;
  }

  -- `hemem_mmap` of any address, also NULL, when the kernel answers the request for a shared mapping
  -- of the DRAM device, of the rounded length and with the offset moved into the device, with a page
  -- boundary other than 0, at which a region starts that ends below `2 ^ 64`, holds no tracked
  -- address and is `k` pages long, while the policy has `k` pages to give and the other calls
  -- succeed: no assertion fails; the kernel's address is returned; every page boundary of the region
  -- is tracked, by a page that was not in use before; no other address and no page in use changed;
  -- both invariants hold again.
  pub hemem_mmap_lem :
      (k f r addr length prot flags offset base : ℕ) (s : S)
      → laws.Good (k + f) r s
      → Tracked e s
      → s.is_init ≡ true
      → length ≢ 0
      → e.os s.calls (
          mmap_region addr
            (page_round_up length)
            prot
            (shared_flags flags)
            e.dramfd
            (add64 offset e.dramoffset))
        ≡ ok base
      → base ≢ 0
      → base % hugepage_size ≡ 0
      → page_round_up length ≡ k * hugepage_size
      → k ≢ 0
      → base + page_round_up length < 2 ^ 64
      → ((va : ℕ) → base ≤ va → va < base + page_round_up length → e.table.find s.pages va ≡ none)
      → s.stats.mem_allocated < 2 ^ 64
      → Returns
          (λ (p, s').
            (p ≡ base)
            × laws.Good f r s'
            × Tracked e s'
            × Populated e base (base + page_round_up length) s s'
            × (s'.stats.mem_mmaped ≡ page_round_up length)
            × (s'.internal_call ≡ false))
          (hemem_mmap e policy addr length prot flags offset s)
  unfolding hemem_mmap
  hemem_mmap_lem k f r addr length prot flags offset base s good t init some_bytes given nz al is
        some_pages small new fine =
      let z : (base == 0) ≡ false = ground arith in
      let l : (length == 0) ≡ false = ground arith in
      let registers : (before : List Call) (a n : ℕ) → e.os before (uffd_register a n) ≡ ok 0 =
        λ before a n. serves before (uffd_register a n) in
      simp (init, l, given, z, registers)
        (bind
          (set_cr3-Opened s _ (record {
            settled = record {
              store = refl;
              pebs = refl;
              hint = refl;
              lru = refl;
              simple = refl;
              page = λ q. refl;
            };
            page = refl;
            pages = refl;
            stats = refl;
          }))
          λ s1 o.
            bind
              (hemem_mmap_populate_lem e serves laws k f r base (page_round_up length) s1
                (laws.settle (k + f) r s s1 good o.settled) (Opened-Tracked s s1 o t) nz al is
                (omega arith) small (rw o.pages new) (rw o.stats fine))
              λ s2 (good2, t2, pop). returns (
                refl,
                laws.settle f r s2 _ good2 (record {
                  store = refl;
                  pebs = refl;
                  hint = refl;
                  lru = refl;
                  simple = refl;
                  page = λ q. refl;
                }),
                record {
                  held = t2.held;
                  known = t2.known;
                  mapped = t2.mapped;
                  aligned = t2.aligned;
                },
                record {
                  inside = λ va lo hi al'.
                      let (q, found, free) = pop.inside va lo hi al' in
                      (q, found, ground (arith, free, o.page));
                  outside = rw (o.pages) at pop.outside;
                  kept = rw o.page at pop.kept;
                  allocated = rw o.stats at pop.allocated;
                },
                refl,
                refl,
              ))
