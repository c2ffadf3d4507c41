-- ===== src/Pebs/Invariant/Steps.antt =====
-- The list functions on the global state: they change the links alone.
use hemem.Prelude.{
  ℕ, zero, suc, arith, ◌≤◌, ◌+◌, ◌<◌, ◌^◌, ◌≡◌, refl, none, some, Ptr, Returns, returns, bind, ap,
  sym, ◌∙◌, nil_of_length,
}
use hemem.Fifo.{Store}
use hemem.Fifo.Moves.{
  IsWell, Enqueued, Dequeued, entries, enqueue_fifo_lem, dequeue_fifo_lem,
  page_list_remove_page_lem, Taken,
}
use hemem.Fifo.Unlink.{dequeue_fifo_empty}
use hemem.Memory.State.{State, set_store}
use hemem.Pebs.Invariant.{listed}
use hemem.Pebs.Lists.{list_of, enqueue, dequeue, remove}

pub entries-le-listed : (l : ℕ) (m : Store) → l < 6 → entries m l ≤ listed m
entries-le-listed zero m h = omega arith
entries-le-listed (suc zero) m h = omega arith
entries-le-listed (suc (suc zero)) m h = omega arith
entries-le-listed (suc (suc (suc zero))) m h = omega arith
entries-le-listed (suc (suc (suc (suc zero)))) m h = omega arith
entries-le-listed (suc (suc (suc (suc (suc zero))))) m h = omega arith
entries-le-listed (suc (suc (suc (suc (suc (suc l)))))) m h = absurd (omega arith)

pub listed-Enqueued :
    {p : ℕ} (l : ℕ) {m m' : Store} → Enqueued p l m m' → l < 6 → listed m' ≡ listed m + 1
listed-Enqueued l en h =
    ground (arith, en.count 0, en.count 1, en.count 2, en.count 3, en.count 4, en.count 5)

pub listed-Dequeued :
    {p : ℕ} (l : ℕ) {m m' : Store} → Dequeued p l m m' → l < 6 → listed m ≡ listed m' + 1
listed-Dequeued l out h =
    ground (arith, out.count 0, out.count 1, out.count 2, out.count 3, out.count 4, out.count 5)

module _ {Table : Type 0} where
  -- Only the links differ.
  abbrev pub Relinked : State Table → State Table → Type 0
  Relinked s s' = s' ≡ set_store s s'.store

  pub page-Relinked : (s s' : State Table) (q : ℕ) → Relinked s s' → s'.page q ≡ s.page q
  page-Relinked s s' q r = ap (λ t. t.page q) r

  pub enqueue_lem :
      (l p : ℕ) (s : State Table)
      → IsWell s.store
      → list_of s p ≡ none
      → entries s.store l + 1 < 2 ^ 64
      → Returns (λ s'. Relinked s s' × Enqueued p l s.store s'.store) (enqueue l p s)
  unfolding enqueue
  enqueue_lem l p s w free room = bind (enqueue_fifo_lem p l w free room) λ m en. returns (refl, en)

  pub remove_lem :
      (l p : ℕ) (s : State Table)
      → IsWell s.store
      → list_of s p ≡ some l
      → Returns (λ s'. Relinked s s' × Dequeued p l s.store s'.store) (remove l p s)
  unfolding remove
  remove_lem l p s w at_l = bind (page_list_remove_page_lem p l w at_l) λ m out. returns (refl, out)

  abbrev pub TakenFrom : ℕ → State Table → Ptr × State Table → Type 0
  TakenFrom l s (o, s') = Relinked s s' × Taken l s.store (o, s'.store)

  pub dequeue_lem :
      (l : ℕ) (s : State Table) → IsWell s.store → Returns (TakenFrom l s) (dequeue l s)
  unfolding dequeue
  dequeue_lem l s w = bind (dequeue_fifo_lem l w) λ (o, m) taken. returns (refl, taken)

  pub dequeue-none :
      (l : ℕ) (s : State Table)
      → IsWell s.store
      → entries s.store l ≡ 0
      → dequeue l s ≡ some (none, s)
  unfolding dequeue
  dequeue-none l s w e =
      rw (dequeue_fifo_empty l w.rep (nil_of_length _ (sym (w.rep.shape l).count ∙ e)))
