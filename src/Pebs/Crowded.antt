-- ===== src/Pebs/Crowded.antt =====
-- A state of the small machine in which no page is free: the data of a test.
use hemem.Prelude.{ℕ, refl, none, some, [], ◌∷◌, List, Ptr, arith, ◌==◌, if◌then◌else◌}
use hemem.Fifo.Seg.{mk, unlinked}
use hemem.Fifo.Rep.{Rep}
use hemem.Memory.Page.{pt_to_pagesize}
use hemem.Memory.State.{State}
use hemem.Pebs.Invariant.{Inv}
use hemem.Pebs.Invariant.Raising.{Movable}
use hemem.Pebs.Sample.{machine, one, state}

-- The same with pages 1 and 3 only: no page is free.
abbrev pub crowded : State (ℕ → Ptr)
crowded = record state {
  store = record {
    link = λ q.
        if q == 1
        then mk none none (some 1)
        else if q == 3
        then mk none none (some 3)
        else unlinked;
    fifo = λ l.
        if l == 1
        then one 1
        else if l == 3
        then one 3
        else record { first = none; last = none; numentries = 0 };
  };
}

abbrev crowded_seqs : ℕ → List ℕ
crowded_seqs l = if l == 1 then 1 ∷ [] else if l == 3 then 3 ∷ [] else []

crowded-Rep : Rep crowded.store crowded_seqs
crowded-Rep = record {
  shape = λ l. ground arith;
  owned = λ q l h. ground arith;
  loose = λ q h. ground arith;
}

pub crowded-Inv : Inv machine 2 crowded
unfolding pt_to_pagesize
crowded-Inv = record {
  well = record { seqs = crowded_seqs; rep = crowded-Rep };
  count = refl;
  small = omega arith;
  fits = λ q. ground arith;
  apart = λ q r a b d o. ground arith;
}

pub crowded-Movable : Movable crowded
crowded-Movable = record {
  hot_mapped = λ q h. ground arith;
  hot_aligned = λ q h. ground arith;
  cold_mapped = λ q h. ground arith;
  cold_aligned = λ q h. ground arith;
  unenforced = λ q h. ground arith;
}
