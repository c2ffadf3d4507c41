-- ===== src/Hemem/Tests.antt =====
-- Faults and mappings at concrete inputs, under the policy of src/pebs.c.
use hemem.Prelude.{ℕ, ◌+◌, ◌*◌, ◌%◌, ◌≤◌, ◌≡◌, refl, false, arith, Returns, List}
use hemem.Memory.Page.{hugepage_size}
use hemem.Memory.Kernel.{Call, munmap}
use hemem.Hemem.Tracked.{Tracked}
use hemem.Hemem.Fault.{handle_missing_fault}
use hemem.Hemem.Fault.Spec.{Mapped, handle_missing_fault_lem}
use hemem.Hemem.Mapping.{page_round_up, hemem_mmap_populate, hemem_mmap, hemem_munmap}
use hemem.Hemem.Mapping.Round.{page_round_up_lem}
use hemem.Hemem.Mapping.Populate.{Populated, hemem_mmap_populate_lem}
use hemem.Hemem.Mapping.Map.{hemem_mmap_lem}
use hemem.Hemem.Fault.Message.{handle_msg, event_pagefault}
use hemem.Hemem.Fault.Events.{handle_msg_any_event}
use hemem.Hemem.Mapping.Unmap.{Cleared, hemem_munmap_lem}
use hemem.Pebs.Interface.{Ready, policy, pebs_laws}
use hemem.Pebs.Sample.{machine, serving-Serves, state, state-Inv}

state-Tracked : Tracked machine state
state-Tracked = record {
  held = λ va p nz h. ground arith;
  known = λ p h. ground arith;
  mapped = λ p h. ground arith;
  aligned = λ p h. ground arith;
}

state-Ready : Ready machine 3 3 state
state-Ready = record {
  total = 5;
  inv = state-Inv;
  stock = omega arith;
  unhinted = refl;
  ring = record {
    storage = omega arith;
    small = omega arith;
    head_in = omega arith;
    tail_in = omega arith;
  };
  space = omega arith;
}

page_round_up_lem_example :
    (page_round_up 5000 % hugepage_size ≡ 0)
    × (5000 ≤ page_round_up 5000)
    × ((m : ℕ) → 5000 ≤ m * hugepage_size → page_round_up 5000 ≤ m * hugepage_size)
page_round_up_lem_example = page_round_up_lem 5000 (omega arith)

handle_missing_fault_lem_example :
    Returns
      (λ s'.
        Ready machine 2 3 s' × Tracked machine s' × (p : ℕ) × Mapped machine 8388608 p state s')
      (handle_missing_fault machine (policy machine) 8388608 state)
unfolding pebs_laws
handle_missing_fault_lem_example =
    handle_missing_fault_lem machine serving-Serves (pebs_laws machine) 2 3 8388608 state
      state-Ready state-Tracked (omega arith) refl refl

hemem_mmap_populate_lem_example :
    Returns
      (λ s'.
        Ready machine 1 3 s'
        × Tracked machine s'
        × Populated machine 8388608 (8388608 + 4194304) state s')
      (hemem_mmap_populate machine (policy machine) 8388608 4194304 state)
unfolding pebs_laws
hemem_mmap_populate_lem_example =
    hemem_mmap_populate_lem machine serving-Serves (pebs_laws machine) 2 1 3 8388608 4194304 state
      state-Ready state-Tracked (omega arith) refl refl (omega arith) (omega arith)
      (λ va lo hi. ground arith) (omega arith)

hemem_munmap_lem_example :
    Returns
      (λ (reply, s').
        ((before : List Call) × (reply ≡ machine.os before (munmap 2097152 4194304)))
        × (((room : ℕ) × (1 ≤ room) × Ready machine 3 room s')
            × Tracked machine s'
            × Cleared machine 2097152 (2097152 + 4194304) state s'))
      (hemem_munmap machine (policy machine) 2097152 4194304 state)
unfolding pebs_laws
hemem_munmap_lem_example =
    hemem_munmap_lem machine (pebs_laws machine) 3 1 3 2097152 4194304 state state-Ready
      (omega arith) (omega arith) state-Tracked (omega arith) refl (omega arith)

hemem_mmap_lem_example :
    Returns
      (λ (p, s').
        (p ≡ 8388608)
        × Ready machine 1 3 s'
        × Tracked machine s'
        × Populated machine 8388608 (8388608 + page_round_up 4190000) state s'
        × (s'.stats.mem_mmaped ≡ page_round_up 4190000)
        × (s'.internal_call ≡ false))
      (hemem_mmap machine (policy machine) 0 4190000 3 0x22 0 state)
unfolding pebs_laws page_round_up
hemem_mmap_lem_example =
    hemem_mmap_lem machine serving-Serves (pebs_laws machine) 2 1 3 0 4190000 3 0x22 0 8388608 state
      state-Ready state-Tracked refl (omega arith) refl (omega arith) refl refl (omega arith)
      (omega arith) (λ va lo hi. ground arith) (omega arith)

handle_msg_any_event_example :
    handle_msg machine
      (policy machine)
      (record { event = event_pagefault + 4; address = 8388700; flags = 0 })
      state
    ≡ handle_msg machine
        (policy machine)
        (record { event = event_pagefault; address = 8388700; flags = 0 })
        state
handle_msg_any_event_example =
    handle_msg_any_event machine (policy machine) 4 8388700 0 state (omega arith)
