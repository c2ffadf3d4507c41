-- ===== src/Pebs/IterationTests.antt =====
-- A whole iteration of the policy thread, on the sample state.
use hemem.Prelude.{
  ℕ, true, none, some, [], ◌∷◌, arith, Returns, refl, Ptr, ◌==◌, if◌then◌else◌, ◌||◌, Bool-cases,
  inl, inr,
}
use hemem.Ring.{RingBuf}
use hemem.Ring.Entries.{Holding}
use hemem.Memory.Page.{zero_page, pt_to_pagesize}
use hemem.Memory.State.{State}
use hemem.Pebs.Policy.{migrate_loop, policy_iteration}
use hemem.Pebs.Sample.{
  machine, serving-Serves, state, state-Inv, state-Movable, ring, pages, pebs, seqs, store-Rep,
}
use hemem.Pebs.Invariant.{Inv}
use hemem.Pebs.Invariant.Loop.{Settled, migrate_loop_lem}
use hemem.Pebs.Invariant.Iteration.{Iterated, policy_iteration_lem}

migrate_loop_lem_example :
    Returns (λ s'. Inv machine 5 s' × Settled state s') (migrate_loop machine 2 0 state)
migrate_loop_lem_example = migrate_loop_lem serving-Serves 2 0 state (omega arith) (record {
  inv = state-Inv;
  cursors = record { fast = λ p h. ground arith; slow = λ p h. ground arith };
  movable = state-Movable;
  fast = λ q h. ground arith;
  slow = λ q h. ground arith;
  room = omega arith;
})

-- A ring with an entry for a page.
abbrev with_page : ℕ → RingBuf
with_page p = record { buffer = some p ∷ none ∷ none ∷ none ∷ []; head = 1; tail = 0; capacity = 4 }

with_page-Holding : (p : ℕ) → Holding (some p ∷ []) (with_page p)
with_page-Holding p = record {
  valid = record {
    storage = omega arith;
    small = omega arith;
    head_in = omega arith;
    tail_in = omega arith;
  };
  two = omega arith;
  entries = refl;
}

ring-Holding : Holding [] ring
ring-Holding = record {
  valid = record {
    storage = omega arith;
    small = omega arith;
    head_in = omega arith;
    tail_in = omega arith;
  };
  two = omega arith;
  entries = refl;
}

-- Page 1 was given back, and page 3 is asked for as hot.
abbrev busy : State (ℕ → Ptr)
busy = record state {
  page = λ q. if q == 1 then record zero_page { in_dram = true; devdax_offset = 0 } else pages q;
  pebs = record pebs { free_page_ring = with_page 1; hot_ring = with_page 3 };
}

busy-Inv : Inv machine 5 busy
unfolding pt_to_pagesize
busy-Inv = record {
  well = record { seqs = seqs; rep = store-Rep };
  count = refl;
  small = omega arith;
  fits = λ q. ground arith;
  apart = λ q r a b d o. ground arith;
}

policy_iteration_lem_example :
    Returns (λ s'. Inv machine 5 s' × Iterated busy s') (policy_iteration machine 6 busy)
policy_iteration_lem_example =
    policy_iteration_lem (some 1 ∷ []) (some 3 ∷ []) [] 6 busy serving-Serves
      (record {
        inv = busy-Inv;
        cursors = record { fast = λ p h. ground arith; slow = λ p h. ground arith };
        free_ring = with_page-Holding 1;
        hot_ring = with_page-Holding 3;
        cold_ring = ring-Holding;
        given = λ p h. ground arith;
        idle = λ q h gone. elim (Bool-cases ((q == 2) || (q == 4) || (q == 5))) [
          | inl free ↦ inr (ground arith)
          | inr other ↦ inl (ground arith)
        ];
        known = λ q h. ground arith;
        mapped = λ q h. ground arith;
        aligned = λ q h. ground arith;
        loose = λ q h. ground arith;
        warm = λ q h. ground arith;
        room = (2, refl);
      })
      (omega arith) (omega arith) (omega arith) (omega arith)
