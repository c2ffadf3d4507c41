-- ===== src/Pebs/Tests.antt =====
-- The policy at concrete inputs.
use hemem.Prelude.{
  pos, ℕ, ◌≤◌, List, Ptr, length, replicate, length-replicate, ◌==◌, ◌++◌, ◌∷◌, [], ◌≡◌, refl, true,
  false, none, some, arith, Returns,
}
use hemem.Ring
use hemem.Ring.Bounds.{IsValid}
use hemem.Ring.Window.{contents}
use hemem.Memory.Page.{no_counts, pt_to_pagesize}
use hemem.Hemem.Migrate.{hemem_migrate_up, hemem_migrate_down}
use hemem.Hemem.Migrate.Spec.{
  after_migrate_up, after_migrate_down, hemem_migrate_up_lem, hemem_migrate_down_lem,
}
use hemem.Pebs.Crowded.{crowded, crowded-Inv, crowded-Movable}
use hemem.Pebs.Sample.{machine, serving-Serves, state, state-Inv, state-Movable}
use hemem.Pebs.Heat.{make_hot, make_cold}
use hemem.Fifo.Seg.{unlinked}
use hemem.Memory.Page.{zero_page}
use hemem.Memory.State.{State}
use hemem.Pebs.Init.{ring_capacity, pebs_init}
use hemem.Pebs.Init.Whole.{Blank, Started, pebs_init_lem}
use hemem.Pebs.Alloc.{pebs_allocate_page, pebs_remove_page, user_hinted_dram_pebs_allocate_page}
use hemem.Memory.Page.{dramread}
use hemem.Pebs.Scan.{sample, scan_record}
use hemem.Pebs.Invariant.Hinted.{Misplaced, hinted_page-Misplaced}
use hemem.Pebs.Invariant.Sampling.{Sampled}
use hemem.Pebs.Invariant.Scanning.{Told, target, scan_record_lem}
use hemem.Pebs.Policy.{migrate_one}
use hemem.Pebs.Invariant.Migration.{Migrated, migrate_one_lem}
use hemem.Pebs.Invariant.NoFrame.{migrate_one_no_frame}
use hemem.Pebs.Invariant.{Inv}
use hemem.Pebs.Invariant.Change.{Changed, make_hot_lem, make_cold_lem}
use hemem.Pebs.Invariant.Remove.{pebs_remove_page_lem}
use hemem.Pebs.Invariant.Alloc.{Allocated, pebs_allocate_page_lem}

make_hot_lem_example : Returns (λ s'. Inv machine 5 s' × Changed 1 true state s') (make_hot 1 state)
make_hot_lem_example = make_hot_lem 1 state-Inv refl (omega arith)

make_cold_lem_example :
    Returns (λ s'. Inv machine 5 s' × Changed 3 false state s') (make_cold 3 state)
make_cold_lem_example = make_cold_lem 3 state-Inv refl (omega arith)

pebs_allocate_page_lem_example :
    Returns (λ (p, s'). Inv machine 5 s' × Allocated state p s') (pebs_allocate_page state)
pebs_allocate_page_lem_example = pebs_allocate_page_lem state-Inv (omega arith)

hemem_migrate_up_lem_example :
    hemem_migrate_up machine 3 2097152 state
    ≡ some (after_migrate_up machine serving-Serves 3 2097152 state)
unfolding pt_to_pagesize
hemem_migrate_up_lem_example =
    hemem_migrate_up_lem machine serving-Serves 3 2097152 state refl refl (omega arith)
      (omega arith)

hemem_migrate_down_lem_example :
    hemem_migrate_down machine 1 4194304 state
    ≡ some (after_migrate_down machine serving-Serves 1 4194304 state)
unfolding pt_to_pagesize
hemem_migrate_down_lem_example =
    hemem_migrate_down_lem machine serving-Serves 1 4194304 state refl refl (omega arith)
      (omega arith)

pebs_remove_page_lem_example :
    let s' = pebs_remove_page 1 state in
    Inv machine 5 s'
    × IsValid s'.pebs.free_page_ring
    × (contents s'.pebs.free_page_ring ≡ contents state.pebs.free_page_ring ++ some 1 ∷ [])
    × (s'.page 1 ≡ record (state.page 1) {
      present = false;
      hot = false;
      accesses = no_counts;
      tot_accesses = no_counts;
    })
    × ((q : ℕ) → (q == 1) ≡ false → s'.page q ≡ state.page q)
    × (s'.store ≡ state.store)
unfolding Ring.full
pebs_remove_page_lem_example =
    pebs_remove_page_lem 1 state-Inv
      (record {
        storage = omega arith;
        small = omega arith;
        head_in = omega arith;
        tail_in = omega arith;
      })
      refl

migrate_one_lem_example : Returns (Migrated machine 5 state) (migrate_one machine state)
migrate_one_lem_example = migrate_one_lem serving-Serves state-Inv state-Movable (omega arith)

migrate_one_no_frame_example : migrate_one machine crowded ≡ none
migrate_one_no_frame_example =
    migrate_one_no_frame serving-Serves crowded-Inv crowded-Movable refl (omega arith) (omega arith)
      (λ q h. ground arith)

-- Buffers for the rings.
abbrev buffer : List Ptr
buffer = replicate ring_capacity none

buffer_long : ring_capacity ≤ length buffer
buffer_long = omega (arith, length-replicate {A = Ptr} ring_capacity none)

abbrev blank : State (ℕ → Ptr)
blank = record state {
  store = record {
    link = λ q. unlinked;
    fifo = λ l. record { first = none; last = none; numentries = 0 };
  };
  page = λ q. zero_page;
}

blank-Blank : Blank blank
blank-Blank = record {
  well = record {
    seqs = λ l. [];
    rep = record {
      shape = λ l. ground arith;
      owned = λ q l h. ground arith;
      loose = λ q h. ground arith;
    };
  };
  nothing = refl;
  loose = λ q. refl;
  unused = λ q. (refl, refl);
}

pebs_init_lem_example : Returns (Started machine) (pebs_init machine buffer buffer buffer blank)
pebs_init_lem_example =
    pebs_init_lem machine buffer buffer buffer blank blank-Blank (omega arith) (omega arith)
      (omega arith) (omega arith) buffer_long buffer_long buffer_long

scan_record_lem_example :
    Returns
      (λ s'.
        Inv machine 5 s'
        × Sampled state s'
        × Told dramread (target machine (sample 2097160) state) state s')
      (scan_record machine 2 dramread (sample 2097160) state)
scan_record_lem_example =
    scan_record_lem machine 5 2 dramread (sample 2097160) state state-Inv (λ p h. ground arith)
      (λ p h. ground arith)

hinted_page-Misplaced_example : Returns Misplaced (
    user_hinted_dram_pebs_allocate_page machine
      (record state { hint = record { tier = pos 0; persistence = pos 0; priority = pos 1 } }))
hinted_page-Misplaced_example =
    hinted_page-Misplaced
      {s = record state { hint = record { tier = pos 0; persistence = pos 0; priority = pos 1 } }}
      (record {
        well = state-Inv.well;
        count = state-Inv.count;
        small = state-Inv.small;
        fits = state-Inv.fits;
        apart = state-Inv.apart;
      })
      (omega arith) refl
