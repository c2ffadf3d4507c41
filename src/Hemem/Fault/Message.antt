-- ===== src/Hemem/Fault/Message.antt =====
-- src/hemem.c: what `handle_fault` does with the messages of one read from the userfaultfd device.
use hemem.Prelude.{
  ℕ, zero, suc, ◌+◌, ◌*◌, ◌-◌, ◌/◌, ◌%◌, not, Option, some, List, [], ◌∷◌, ◌==◌, if◌then◌else◌,
  assert, ◌>>=◌, ◌>>◌,
}
use hemem.Memory.Page.{page_size}
use hemem.Memory.Kernel.{uffd_wake, Env}
use hemem.Memory.State.{State}
use hemem.Hemem.Policy.{Policy}
use hemem.Hemem.Migrate.{must}
use hemem.Hemem.Fault.{Progress, done, waiting, handle_missing_fault, handle_wp_fault}

-- `a & b` on numbers of `w` bits
unfoldable pub bit_and : ℕ → ℕ → ℕ → ℕ
bit_and zero a b = 0
bit_and (suc w) a b = let rest = bit_and w (a / 2) (b / 2) in a % 2 * (b % 2) + 2 * rest

-- Constants of linux/userfaultfd.h.
abbrev pub event_pagefault : ℕ
event_pagefault = 0x12

abbrev pub pagefault_flag_wp : ℕ
pagefault_flag_wp = 2

-- `struct uffd_msg`: `event` is a byte
pub record Msg : Type 0 where
  pub event : ℕ
  pub address : ℕ
  pub flags : ℕ

-- `fault_addr & ~(PAGE_SIZE - 1)`, where PAGE_SIZE is a power of 2
abbrev pub boundary_of : ℕ → ℕ
boundary_of a = a - a % page_size

module _ (e : Env) where
  abbrev S : Type 0
  S = State e.table.Table

  abbrev wake : ℕ → S → Option S
  wake boundary s = do (_, s) ← must e (uffd_wake boundary page_size) s; some s

  -- The end of a write fault, once the migration is over; until then the message is not finished.
  abbrev pub finish : ℕ → Progress S → Option (Progress S)
  finish boundary (done s) = do s ← wake boundary s; some (done s)
  finish boundary (waiting p s) = some (waiting p s)

  unfoldable pub handle_msg : Policy e → Msg → S → Option (Progress S)
  unfolding bit_and handle_missing_fault handle_wp_fault
  handle_msg policy m s = do
    assert (not (bit_and 8 m.event event_pagefault == 0))
    let boundary = boundary_of m.address
    if not (bit_and 64 m.flags pagefault_flag_wp == 0)
        then (do r ← handle_wp_fault e boundary s; finish boundary r)
        else (do s ← handle_missing_fault e policy boundary s; s ← wake boundary s; some (done s))

  -- The loop over the messages: it stands still while a write fault waits.
  unfoldable pub handle_msgs : Policy e → List Msg → S → Option (Progress S)
  unfolding handle_msg
  handle_msgs policy [] s = some (done s)
  handle_msgs policy (m ∷ ms) s = do
    r ← handle_msg policy m s
    elim r [ done s ↦ handle_msgs policy ms s | waiting p s ↦ some (waiting p s) ]
