-- ===== src/Pebs/RingTests.antt =====
-- The loops of the policy thread over its rings, on the sample state.
use hemem.Prelude.{
  ℕ, refl, true, none, some, [], ◌∷◌, Ptr, arith, ◌==◌, if◌then◌else◌, ◌≡◌, Returns,
}
use hemem.Ring.{RingBuf}
use hemem.Ring.Entries.{Holding}
use hemem.Memory.Page.{zero_page, pt_to_pagesize}
use hemem.Memory.State.{State}
use hemem.Pebs.Heat.{make_hot}
use hemem.Pebs.Alloc.{pebs_remove_page}
use hemem.Pebs.Policy.{free_pages, hot_requests, with_hot_ring, serve, hot_ring_reqs_threshold}
use hemem.Pebs.Sample.{machine, state, state-Inv, store-Rep, seqs, pages, pebs}
use hemem.Pebs.Invariant.{Inv}
use hemem.Pebs.Invariant.Draining.{Drained, free_pages_lem}
use hemem.Pebs.Invariant.Answered.{Answered}
use hemem.Pebs.Invariant.Rings.{hot_requests_lem, serve_removed}

-- A ring with an entry for page 1.
abbrev with_one : RingBuf
with_one = record { buffer = some 1 ∷ none ∷ none ∷ none ∷ []; head = 1; tail = 0; capacity = 4 }

with_one-Holding : Holding (some 1 ∷ []) with_one
with_one-Holding = record {
  valid = record {
    storage = omega arith;
    small = omega arith;
    head_in = omega arith;
    tail_in = omega arith;
  };
  two = omega arith;
  entries = refl;
}

-- Page 1 was given back and is still on its list.
abbrev returned : State (ℕ → Ptr)
returned = record state {
  page = λ q.
      if q == 1
      then record zero_page { in_dram = true; va = 2097152; devdax_offset = 0 }
      else pages q;
  pebs = record pebs { free_page_ring = with_one };
}

returned-Inv : Inv machine 5 returned
unfolding pt_to_pagesize
returned-Inv = record {
  well = record { seqs = seqs; rep = store-Rep };
  count = refl;
  small = omega arith;
  fits = λ q. ground arith;
  apart = λ q r a b d o. ground arith;
}

free_pages_lem_example :
    Returns (λ s'. Inv machine 5 s' × Drained (some 1 ∷ []) returned s') (free_pages 2 returned)
free_pages_lem_example =
    free_pages_lem (some 1 ∷ []) 2 returned (omega arith) with_one-Holding returned-Inv
      (record { fast = λ p h. ground arith; slow = λ p h. ground arith }) (λ p h. ground arith)

-- A request to make page 1 hot is pending.
abbrev asked : State (ℕ → Ptr)
asked = record state { pebs = record pebs { hot_ring = with_one } }

asked-Inv : Inv machine 5 asked
asked-Inv = record {
  well = state-Inv.well;
  count = state-Inv.count;
  small = state-Inv.small;
  fits = state-Inv.fits;
  apart = state-Inv.apart;
}

hot_requests_lem_example :
    Returns
      (λ s'.
        Inv machine 5 s'
        × Answered
            (λ b. b.hot_ring)
            with_hot_ring
            true
            (some 1 ∷ [])
            hot_ring_reqs_threshold
            asked
            s')
      (hot_requests 2 0 asked)
hot_requests_lem_example =
    hot_requests_lem (some 1 ∷ []) 2 asked (omega arith) asked-Inv
      (record { fast = λ p h. ground arith; slow = λ p h. ground arith })
      (λ p h. record { mapped = λ l. ground arith; freed = λ g. ground arith }) with_one-Holding

serve_removed_example : serve make_hot 1 (pebs_remove_page 1 state) ≡ none
serve_removed_example = serve_removed 1 make_hot state state-Inv refl
