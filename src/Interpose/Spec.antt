-- ===== src/Interpose/Spec.antt =====
-- Which calls HeMem takes over, and which hints reach the policy.
use hemem.Prelude.{
  ℕ, ◌^◌, ◌<◌, ◌≡◌, refl, ap, Bool, Bool-cases, inl, inr, false, not, ◌&&◌, some, ltb, ◌==◌,
  if◌then◌else◌, ◌>>=◌, arith, ℤ, pos, ◌==ℤ◌,
}
use hemem.Memory.Kernel.{ok, Env}
use hemem.Memory.State.{State, Hint}
use hemem.Hemem.Policy.{Policy}
use hemem.Hemem.Mapping.{has_flag, map_anonymous, hemem_mmap}
use hemem.Interpose.{
  forward, answered, silent, prot_exec, map_stack, min_length, int_of, hint_fd, is_devdax,
  mmap_filter, hint_of, hook, sys_mmap,
}
use hemem.Pebs.Alloc.{pebs_pagefault, user_hinted_dram_pebs_allocate_page, pebs_allocate_page}

module _ (e : Env) (policy : Policy e) where
  abbrev S : Type 0
  S = State e.table.Table

  -- An anonymous mapping of the application that is large, and neither code nor a stack, nor a
  -- mapping of the devices.
  abbrev pub takes_over : ℕ → ℕ → ℕ → ℤ → S → Bool
  takes_over length prot flags fd s =
      s.is_init
      && not s.internal_call
      && has_flag map_anonymous flags
      && not (is_devdax e fd)
      && not (has_flag prot_exec prot)
      && not (has_flag map_stack flags)
      && not (ltb length min_length)

  -- For a call of mmap that is no hint, `mmap_filter` calls `hemem_mmap` and answers with its
  -- address exactly if HeMem is initialised, the call is not HeMem's own, and the mapping is
  -- anonymous, not of a device, not executable, not a stack and of 1 GiB at least; otherwise it
  -- hands the call on and changes nothing.
  pub mmap_filter_lem :
      (addr length prot flags offset : ℕ) (fd : ℤ) (hint : Hint) (s : S)
      → (fd ==ℤ hint_fd) ≡ false
      → mmap_filter e policy addr length prot flags fd offset hint s ≡ (
          if takes_over length prot flags fd s
          then hemem_mmap e policy addr length prot flags offset s
            >>= (λ (p, s). some (answered (ok p), s))
          else some (forward, s))
  unfolding mmap_filter
  mmap_filter_lem addr length prot flags offset fd hint s no_hint = ground (arith, no_hint)

  int_of-tier : (x : ℕ) → (x == 0) ≡ false → x < 2 ^ 32 → (int_of x ==ℤ pos 0) ≡ false
  unfolding int_of
  int_of-tier x nz small = ground arith

  default_tier :
      (tier persistence priority : ℕ)
      → tier < 2 ^ 32
      → ((hint_of tier persistence priority).tier ==ℤ pos 0) ≡ false
  unfolding hint_of
  default_tier tier persistence priority small = elim (Bool-cases (tier == 0)) [
    | inl is ↦ rw is refl
    | inr nz ↦ rw nz (int_of-tier tier nz small)
  ]

  -- No hint with a tier below `2 ^ 32` asks for DRAM: the hook turns tier 0, which stands for DRAM,
  -- into the default, so that the next page fault is served as one without a hint.
  pub hook_never_dram :
      (a0 a1 a2 a3 a4 a5 tier persistence priority : ℕ) (s : S)
      → int_of a4 ≡ hint_fd
      → tier < 2 ^ 32
      → let s' = record s { hint = hint_of tier persistence priority } in
        (hook e policy sys_mmap a0 a1 a2 a3 a4 a5 tier persistence priority s ≡ some (silent, s'))
        × (pebs_pagefault e s' ≡ pebs_allocate_page s')
  unfolding hook mmap_filter pebs_pagefault hint_of
  hook_never_dram a0 a1 a2 a3 a4 a5 tier persistence priority s is_hint small = (
    rw is_hint refl,
    ap
        (λ b.
          if b
          then user_hinted_dram_pebs_allocate_page e
              (record s { hint = hint_of tier persistence priority })
          else pebs_allocate_page (record s { hint = hint_of tier persistence priority }))
        (default_tier tier persistence priority small),
  )
