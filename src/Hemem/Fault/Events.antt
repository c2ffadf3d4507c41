-- ===== src/Hemem/Fault/Events.antt =====
-- The test of `handle_fault` on the kind of a message.
use hemem.Prelude.{ℕ, ◌+◌, ◌≤◌, ◌≡◌, refl, false, ◌==◌, arith}
use hemem.Memory.Kernel.{Env}
use hemem.Memory.State.{State}
use hemem.Hemem.Policy.{Policy}
use hemem.Hemem.Fault.Message.{bit_and, handle_msg, event_pagefault}

-- The events of linux/userfaultfd.h, from 0x12 (page fault) to 0x16 (unmap).
event_bits : (k : ℕ) → k ≤ 4 → (bit_and 8 (event_pagefault + k) event_pagefault == 0) ≡ false
unfolding bit_and
event_bits k h = ground arith

-- `handle_fault` treats a message with any of the five events of the kernel, from page fault (0x12)
-- to unmap (0x16), as it treats a page fault with the same address and flags.
pub handle_msg_any_event :
    (e : Env) (policy : Policy e) (k address flags : ℕ) (s : State e.table.Table)
    → k ≤ 4
    → handle_msg e policy
        (record { event = event_pagefault + k; address = address; flags = flags })
        s
      ≡ handle_msg e policy (record { event = event_pagefault; address = address; flags = flags }) s
unfolding handle_msg
handle_msg_any_event e policy k address flags s h =
    rw (event_bits k h, event_bits 0 (omega arith)) refl
