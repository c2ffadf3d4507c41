-- ===== src/Fifo/Moves.antt =====
-- What a client of the lists relies on, with the sequences left out of sight: which page is on
-- which list, and how many entries each list has.
use hemem.Prelude.{
  ℕ, ◌+◌, ◌<◌, ◌^◌, ◌≡◌, refl, ap, none, some, List, [], ◌∷◌, ◌++◌, arith, ◌==◌, if◌then◌else◌, Ptr,
  last_or, elem-split, length, length-append, Returns, returns, mono, Snoc, empty, snoc, snoc-cases,
  elem-append, ◌∙◌, subst, Distinct, same_ptr, false, inl, inr, Option-cases, elem, true,
}
use hemem.Fifo.{Store, enqueue_fifo, dequeue_fifo, page_list_remove_page, next_page}
use hemem.Fifo.Rep.{Rep, elem-list, Distinct-split}
use hemem.Fifo.Insert.{enqueue_fifo_refines}
use hemem.Fifo.Unlink.{
  page_list_remove_page_refines, dequeue_fifo_refines, dequeue_fifo_empty, last-elem,
  next_page_refines, split-Seg, head-elem,
}

-- The lists stand for some sequences.
pub record IsWell (s : Store) : Type 0 where
  pub seqs : ℕ → List ℕ
  pub rep : Rep s seqs

abbrev pub on : Store → ℕ → Ptr
on s q = (s.link q).list

abbrev pub entries : Store → ℕ → ℕ
entries s l = (s.fifo l).numentries

-- Page `p` went to `dest`, and no other page moved.
pub record Moved (p : ℕ) (dest : Ptr) (s s' : Store) : Type 0 where
  pub well : IsWell s'
  pub place : (q : ℕ) → on s' q ≡ (if q == p then dest else on s q)

pub record Enqueued (p l : ℕ) (s s' : Store) : Type 0 where
  pub moved : Moved p (some l) s s'
  pub count : (k : ℕ) → entries s' k ≡ (if k == l then entries s k + 1 else entries s k)

pub record Dequeued (p l : ℕ) (s s' : Store) : Type 0 where
  pub moved : Moved p none s s'
  pub was : on s p ≡ some l
  pub count : (k : ℕ) → entries s k ≡ (if k == l then entries s' k + 1 else entries s' k)

pub enqueue_fifo_lem :
    {s : Store} (p l : ℕ)
    → IsWell s
    → on s p ≡ none
    → entries s l + 1 < 2 ^ 64
    → Returns (Enqueued p l s) (enqueue_fifo l p s)
enqueue_fifo_lem {s} p l w free room =
    mono (enqueue_fifo_refines p l w.rep free (ground (arith, (w.rep.shape l).count)))
      λ s' (r, place). record {
        moved = record { well = record { seqs = _; rep = r }; place = place };
        count = λ k. ground (arith, (r.shape k).count, (w.rep.shape k).count);
      }

pub page_list_remove_page_lem :
    {s : Store} (p l : ℕ)
    → IsWell s
    → on s p ≡ some l
    → Returns (Dequeued p l s) (page_list_remove_page l p s)
page_list_remove_page_lem {s} p l w at_l =
    let (ys, zs, e) = elem-split p (w.seqs l) (w.rep.owned p l at_l) in
    mono (page_list_remove_page_refines p l w.rep ys zs e) λ s' (r, place). record {
      moved = record { well = record { seqs = _; rep = r }; place = place };
      was = at_l;
      count = λ k. ground (
        arith,
        (r.shape k).count,
        (w.rep.shape k).count,
        ap length e,
        length-append ys (p ∷ zs),
        length-append ys zs,
      );
    }

-- What `dequeue_fifo` on list `l` returns and leaves.
abbrev pub Taken : ℕ → Store → Ptr × Store → Type 0
Taken l s (none, s') = (s' ≡ s) × (entries s l ≡ 0)
Taken l s (some p, s') = Dequeued p l s s'

pub dequeue_fifo_lem : {s : Store} (l : ℕ) → IsWell s → Returns (Taken l s) (dequeue_fifo l s)
dequeue_fifo_lem {s} l w = go (snoc-cases (w.seqs l))
  where
    go : Snoc (w.seqs l) → Returns (Taken l s) (dequeue_fifo l s)
    go (empty e) =
        rw (dequeue_fifo_empty l w.rep e) (returns (refl, (w.rep.shape l).count ∙ ap length e))
    go (snoc ys p e) = mono (dequeue_fifo_refines p l w.rep ys e) λ (o, s') (is, r, place).
        rw is (record {
          moved = record { well = record { seqs = _; rep = r }; place = place };
          was = elem-list w.rep p l (rw (e, elem-append p ys (p ∷ [])) (ground arith));
          count = λ k. ground (
            arith,
            (r.shape k).count,
            (w.rep.shape k).count,
            ap length e,
            length-append ys (p ∷ []),
            length-append ys [],
          );
        })

before-list :
    {s : Store} {L : ℕ → List ℕ} (p l : ℕ) (ys zs : List ℕ)
    → Rep s L
    → L l ≡ ys ++ p ∷ zs
    → (q : ℕ) → last_or ys none ≡ some q
    → on s q ≡ some l
before-list p l ys zs r e q is =
    elem-list r q l (rw (e, elem-append q ys (p ∷ zs)) (ground (arith, last-elem q ys none)))

-- The page that `next_page` gives is on the same list.
pub next_page_lem :
    {s : Store} (l : ℕ) (page : Ptr)
    → IsWell s
    → ((p : ℕ) → page ≡ some p → on s p ≡ some l)
    → Returns (λ o. (q : ℕ) → o ≡ some q → on s q ≡ some l) (next_page l page s)
unfolding next_page
next_page_lem {s} l none w h =
    returns
      λ q e. elem-list w.rep q l (ground (arith, (w.rep.shape l).last, last-elem q (w.seqs l) none))
next_page_lem {s} l (some p) w h =
    let (ys, zs, e) = elem-split p (w.seqs l) (w.rep.owned p l (h p refl)) in
    rw ((next_page_refines p l ys zs w.rep e).0) (returns (before-list p l ys zs w.rep e))

-- The page that `next_page` gives after `p` is another one.
pub next_page-ne :
    {s : Store} (l p : ℕ)
    → IsWell s
    → on s p ≡ some l
    → Returns
        (λ o. (same_ptr (some p) o ≡ false) × ((q : ℕ) → o ≡ some q → on s q ≡ some l))
        (next_page l (some p) s)
next_page-ne {s} l p w at_l =
    let (ys, zs, e) = elem-split p (w.seqs l) (w.rep.owned p l at_l) in
    let apart = Distinct-split p ys zs (subst Distinct e (w.rep.shape l).distinct) in
    rw ((next_page_refines p l ys zs w.rep e).0) (
      returns (
        elim (Option-cases (last_or ys none)) [
          | inl nil ↦ rw nil refl
          | inr (q, is) ↦ rw is (ground (arith, last-elem p ys none, apart.2))
        ],
        before-list p l ys zs w.rep e,
      ))

-- The page behind `p` on its list is another page of the list.
pub next_link :
    {s : Store} (l p q : ℕ)
    → IsWell s
    → on s p ≡ some l
    → (s.link p).next ≡ some q
    → (on s q ≡ some l) × ((q == p) ≡ false)
next_link {s} l p q w at_l is =
    let (ys, zs, e) = elem-split p (w.seqs l) (w.rep.owned p l at_l) in
    let link = (split-Seg p l ys zs w.rep e).1 in
    let apart = Distinct-split p ys zs (subst Distinct e (w.rep.shape l).distinct) in
    let behind : elem q zs ≡ true = ground (arith, head-elem q zs, link) in
    (
      elem-list w.rep q l (rw (e, elem-append q ys (p ∷ zs)) (ground arith)),
      ground (arith, apart.3, link),
    )

-- The first page of a list is on it.
pub first-on : {s : Store} (l q : ℕ) → IsWell s → (s.fifo l).first ≡ some q → on s q ≡ some l
first-on {s} l q w is =
    elem-list w.rep q l (ground (arith, (w.rep.shape l).first, head-elem q (w.seqs l)))

-- A list with a page on it has an entry.
pub entries-pos : {s : Store} (l p : ℕ) → IsWell s → on s p ≡ some l → 0 < entries s l
entries-pos {s} l p w at_l =
    let (ys, zs, e) = elem-split p (w.seqs l) (w.rep.owned p l at_l) in
    ground (arith, (w.rep.shape l).count, ap length e, length-append ys (p ∷ zs))
