-- ===== src/Fifo/Tests.antt =====
-- The lists at concrete inputs: list 7 holds page 2 before page 1, page 3 is on no list.
use hemem.Prelude.{
  ℕ, ◌≡◌, refl, none, some, [], ◌∷◌, List, arith, ◌==◌, if◌then◌else◌, update, Returns,
}
use hemem.Fifo.{Store, enqueue_fifo, dequeue_fifo, page_list_remove_page, next_page}
use hemem.Fifo.Seg.{mk, unlinked}
use hemem.Fifo.Rep.{Rep}
use hemem.Fifo.Insert.{PutOn, enqueue_fifo_refines}
use hemem.Fifo.Unlink.{
  TakenOff, page_list_remove_page_refines, dequeue_fifo_refines, next_page_refines,
}

abbrev two : Store
two = record {
  link = λ q.
      if q == 1
      then mk none (some 2) (some 7)
      else if q == 2
      then mk (some 1) none (some 7)
      else unlinked;
  fifo = λ l.
      if l == 7
      then record { first = some 2; last = some 1; numentries = 2 }
      else record { first = none; last = none; numentries = 0 };
}

abbrev seqs : ℕ → List ℕ
seqs l = if l == 7 then 2 ∷ 1 ∷ [] else []

two-Rep : Rep two seqs
two-Rep = record {
  shape = λ l. ground arith;
  owned = λ q l h. ground arith;
  loose = λ q h. ground arith;
}

enqueue_fifo_refines_example :
    Returns
      (λ s'. Rep s' (update seqs 7 (3 ∷ 2 ∷ 1 ∷ [])) × PutOn 3 7 two s')
      (enqueue_fifo 7 3 two)
enqueue_fifo_refines_example = enqueue_fifo_refines 3 7 two-Rep refl (omega arith)

page_list_remove_page_refines_example :
    Returns
      (λ s'. Rep s' (update seqs 7 (1 ∷ [])) × TakenOff 2 two s')
      (page_list_remove_page 7 2 two)
page_list_remove_page_refines_example = page_list_remove_page_refines 2 7 two-Rep [] (1 ∷ []) refl

dequeue_fifo_refines_example :
    Returns
      (λ (o, s'). (o ≡ some 1) × Rep s' (update seqs 7 (2 ∷ [])) × TakenOff 1 two s')
      (dequeue_fifo 7 two)
dequeue_fifo_refines_example = dequeue_fifo_refines 1 7 two-Rep (2 ∷ []) refl

next_page_refines_example :
    (next_page 7 (some 1) two ≡ some (some 2)) × (next_page 7 none two ≡ some (some 1))
next_page_refines_example = next_page_refines 1 7 (2 ∷ []) [] two-Rep refl
