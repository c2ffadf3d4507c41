-- ===== src/Interpose/Tests.antt =====
-- The hook at concrete inputs.
use hemem.Prelude.{◌≡◌, refl, some, arith, ◌>>=◌, if◌then◌else◌, negsuc}
use hemem.Memory.Kernel.{ok}
use hemem.Hemem.Mapping.{hemem_mmap}
use hemem.Interpose.{forward, answered, silent, int_of, mmap_filter, hint_of, hook, sys_mmap}
use hemem.Interpose.Spec.{takes_over, mmap_filter_lem, hook_never_dram}
use hemem.Pebs.Alloc.{pebs_pagefault, pebs_allocate_page}
use hemem.Pebs.Interface.{policy}
use hemem.Pebs.Sample.{machine, state}

mmap_filter_lem_example :
    mmap_filter machine
      (policy machine)
      8388608
      2147483648
      3
      0x22
      (negsuc 0)
      0
      (hint_of 0 0 0)
      state
    ≡ (if takes_over machine (policy machine) 2147483648 3 0x22 (negsuc 0) state
        then hemem_mmap machine (policy machine) 8388608 2147483648 3 0x22 0 state
          >>= (λ (p, s). some (answered (ok p), s))
        else some (forward, state))
mmap_filter_lem_example =
    mmap_filter_lem machine (policy machine) 8388608 2147483648 3 0x22 0 (negsuc 0) (hint_of 0 0 0)
      state refl

hook_never_dram_example :
    let s' = record state { hint = hint_of 0 1 1 } in
    (hook machine (policy machine) sys_mmap 0 4096 0 0 18446744073709551196 0 0 1 1 state
      ≡ some (silent, s'))
    × (pebs_pagefault machine s' ≡ pebs_allocate_page s')
unfolding int_of
hook_never_dram_example =
    hook_never_dram machine (policy machine) 0 4096 0 0 18446744073709551196 0 0 1 1 state refl
      (omega arith)
