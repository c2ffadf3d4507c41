-- ===== src/Ring/Tests.antt =====
-- The ring at concrete inputs.
use hemem.Prelude.{◌≡◌, refl, true, false, none, some, [], ◌∷◌, List, Ptr, arith}
use hemem.Ring.{RingBuf, init, size, full}
use hemem.Ring.Bounds.{IsValid, init-IsValid}
use hemem.Ring.Queue
use hemem.Ring.Queue.{Op, Reply, done, status, got, is_full}
use hemem.Ring.Refine
use hemem.Ring.Refine.{run_refines, size_lem}

abbrev storage : List Ptr
storage = none ∷ none ∷ none ∷ []

-- Two entries, round the end of the buffer.
abbrev wrapped : RingBuf
wrapped = record { buffer = some 9 ∷ none ∷ some 8 ∷ []; head = 1; tail = 2; capacity = 3 }

abbrev script : List Op
script = Op.put2 (some 1) ∷ Op.put (some 2) ∷ Op.get ∷ Op.get ∷ Op.get ∷ []

wrapped-IsValid : IsValid wrapped
wrapped-IsValid = omega arith

wrapped-full : (full wrapped ≡ true) × (size wrapped ≡ 3)
unfolding full size
wrapped-full = (refl, refl)

init-IsValid_example : IsValid (record { buffer = storage; head = 0; tail = 0; capacity = 3 })
unfolding init
init-IsValid_example = init-IsValid storage 3 (omega arith) (omega arith) refl

run_refines_example :
    Refine.run wrapped script ≡ status false ∷ done ∷ got (some 9) ∷ got (some 2) ∷ got none ∷ []
unfolding Queue.run
run_refines_example = run_refines script wrapped wrapped-IsValid (omega arith)

size_lem_example : size wrapped ≡ 3
size_lem_example = size_lem wrapped wrapped-IsValid
