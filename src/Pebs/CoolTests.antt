-- ===== src/Pebs/CoolTests.antt =====
-- The cooling of both hot lists, on the sample state.
use hemem.Prelude.{ℕ, true, arith, Returns, Ptr}
use hemem.Memory.State.{State}
use hemem.Pebs.Policy.{cool_both}
use hemem.Pebs.Sample.{machine, state, state-Inv, pebs}
use hemem.Pebs.Invariant.{Inv}
use hemem.Pebs.Invariant.Walk.{BothCooled, cool_both_lem}

-- Page 3, hot and in NVM, has missed a cooling, and both lists are to be cooled.
abbrev cooling : State (ℕ → Ptr)
cooling = record state {
  pebs = record pebs { global_clock = 1; need_cool_dram = true; need_cool_nvm = true };
}

cooling-Inv : Inv machine 5 cooling
cooling-Inv = record {
  well = state-Inv.well;
  count = state-Inv.count;
  small = state-Inv.small;
  fits = state-Inv.fits;
  apart = state-Inv.apart;
}

cool_both_lem_example :
    Returns (λ s'. Inv machine 5 s' × BothCooled cooling s') (cool_both machine cooling)
cool_both_lem_example =
    cool_both_lem cooling cooling-Inv
      (record { fast = λ p h. ground arith; slow = λ p h. ground arith }) (λ q h. ground arith)
      (λ q h. ground arith)
