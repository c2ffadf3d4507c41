-- ===== src/Interpose.antt =====
-- src/interpose.c: the hook of the system calls mmap and munmap, in the build without LLAMA. An
-- argument of a call is a register of 64 bits.
pub mod Spec
mod Tests
use hemem.Prelude.{
  ℕ, ◌-◌, ◌%◌, ◌^◌, Bool, true, false, not, ◌&&◌, ◌||◌, Option, some, ltb, ◌==◌, if◌then◌else◌,
  ◌>>=◌, ℤ, pos, negsuc, ◌==ℤ◌,
}
use hemem.Memory.Kernel.{Reply, ok, Env}
use hemem.Memory.State.{State, Hint}
use hemem.Hemem.Policy.{Policy}
use hemem.Hemem.Mapping.{has_flag, map_anonymous, hemem_mmap, hemem_munmap}

-- What the hook answers: the system call is to be made after all (1), or it is not (0), with a
-- result or without one.
pub data Verdict : Type 0 where
  forward : Verdict
  answered : Reply → Verdict
  silent : Verdict

abbrev pub sys_mmap : ℕ
sys_mmap = 9

abbrev pub sys_munmap : ℕ
sys_munmap = 11

abbrev pub prot_exec : ℕ
prot_exec = 4

abbrev pub map_stack : ℕ
map_stack = 0x20000

-- The least length that HeMem manages.
abbrev pub min_length : ℕ
min_length = 1073741824

-- `(int)x`
unfoldable pub int_of : ℕ → ℤ
int_of x = let w = x % 2 ^ 32 in if ltb w (2 ^ 31) then pos w else negsuc (2 ^ 32 - 1 - w)

-- The file descriptor -420 marks a call that only gives a hint.
abbrev pub hint_fd : ℤ
hint_fd = negsuc 419

-- The hint of a call, with the defaults for arguments that are 0.
unfoldable pub hint_of : ℕ → ℕ → ℕ → Hint
hint_of arg6 arg7 arg8 = record {
  tier = if not (arg6 == 0) then int_of arg6 else negsuc 0;
  persistence = if not (arg7 == 0) then int_of arg7 else pos 0;
  priority = if not (arg8 == 0) then int_of arg8 else pos 0;
}

module _ (e : Env) where
  abbrev S : Type 0
  S = State e.table.Table

  abbrev pub is_devdax : ℤ → Bool
  is_devdax fd = fd ==ℤ pos e.dramfd || fd ==ℤ pos e.nvmfd

  module _ (policy : Policy e) where
    unfoldable pub mmap_filter : ℕ → ℕ → ℕ → ℕ → ℤ → ℕ → Hint → S → Option (Verdict × S)
    mmap_filter addr length prot flags fd offset hint s =
        if fd ==ℤ hint_fd
        then some (silent, record s { hint = hint })
        else if not s.is_init
        then some (forward, s)
        else if s.internal_call
        then some (forward, s)
        else if not (has_flag map_anonymous flags) && not (is_devdax fd)
        then some (forward, s)
        else if has_flag prot_exec prot
        then some (forward, s)
        else if has_flag map_stack flags
        then some (forward, s)
        else if is_devdax fd
        then some (forward, s)
        else if ltb length min_length
        then some (forward, s)
        else (do
          (p, s) ← hemem_mmap e policy addr length prot flags offset s
          some (answered (ok p), s))

    unfoldable pub munmap_filter : ℕ → ℕ → S → Option (Verdict × S)
    munmap_filter addr length s =
        if s.internal_call
        then some (forward, s)
        else (do (r, s) ← hemem_munmap e policy addr length s; some (answered r, s))

    unfoldable pub hook : ℕ → ℕ → ℕ → ℕ → ℕ → ℕ → ℕ → ℕ → ℕ → ℕ → S → Option (Verdict × S)
    hook number arg0 arg1 arg2 arg3 arg4 arg5 arg6 arg7 arg8 s =
        if number == sys_mmap
        then mmap_filter arg0 arg1 (arg2 % 2 ^ 32) (arg3 % 2 ^ 32) (int_of arg4) arg5
            (hint_of arg6 arg7 arg8) s
        else if number == sys_munmap
        then munmap_filter arg0 arg1 s
        else some (forward, s)
