-- ===== src/Lru/Invariant.antt =====
-- What holds of the eight lists of src/policies/lru.c and their pages between steps, and that a page
-- which is taken off one list and put on another keeps it.
use hemem.Prelude.{
  ℕ, zero, suc, ◌+◌, ◌<◌, ◌≤◌, ◌^◌, ◌≡◌, Bool-cases, inl, inr, true, false, not, some, Ptr, is_null,
  ◌==◌, arith, Returns, mono,
}
use hemem.Fifo.{Store}
use hemem.Fifo.Moves.{IsWell, entries, Dequeued, Enqueued}
use hemem.Memory.Page.{Page, hugep}
use hemem.Memory.Kernel.{Env}
use hemem.Memory.State.{State, set_page}
use hemem.Pebs.Lists.{list_of, enqueue}
use hemem.Pebs.Invariant.{Apart, Placed}
use hemem.Pebs.Invariant.Steps.{Relinked, enqueue_lem}
use hemem.Pebs.Invariant.Move.{Replaced, moves-Replaced}
use hemem.Lru.Lists.{is_lru_dram, is_lru_free}

-- The number of pages on the eight lists.
abbrev pub lru_listed : Store → ℕ
lru_listed m =
    entries m 0
    + entries m 1
    + entries m 2
    + entries m 3
    + entries m 4
    + entries m 5
    + entries m 6
    + entries m 7

-- What the list that a page is on says of the page.
pub record LruFits (e : Env) (list : Ptr) (pg : Page) : Type 0 where
  -- it is one of the eight lists, and of the page's own tier
  pub known : (l : ℕ) → list ≡ some l → l < 8
  pub tier : (l : ℕ) → list ≡ some l → pg.in_dram ≡ is_lru_dram l
  -- the pages in use are those of the lists that are not free lists
  pub live : pg.present ≡ true → is_null list ≡ false
  pub used : (l : ℕ) → list ≡ some l → pg.present ≡ not (is_lru_free l)
  -- a listed page has a frame of its tier
  pub placed : (l : ℕ) → list ≡ some l → Placed e pg
  pub huge : (l : ℕ) → list ≡ some l → pg.pt ≡ hugep

-- The eight lists are well linked and hold `n` pages in all, no two with the same frame.
pub record LruInv (e : Env) (n : ℕ) (s : State e.table.Table) : Type 0 where
  pub well : IsWell s.store
  pub count : lru_listed s.store ≡ n
  pub small : n < 2 ^ 64
  pub fits : (q : ℕ) → LruFits e (list_of s q) (s.page q)
  pub apart : Apart s

eight_lists : (P : ℕ → Type 0) (l : ℕ) → l < 8 → P 0 → P 1 → P 2 → P 3 → P 4 → P 5 → P 6 → P 7 → P l
eight_lists P zero h p0 p1 p2 p3 p4 p5 p6 p7 = p0
eight_lists P (suc zero) h p0 p1 p2 p3 p4 p5 p6 p7 = p1
eight_lists P (suc (suc zero)) h p0 p1 p2 p3 p4 p5 p6 p7 = p2
eight_lists P (suc (suc (suc zero))) h p0 p1 p2 p3 p4 p5 p6 p7 = p3
eight_lists P (suc (suc (suc (suc zero)))) h p0 p1 p2 p3 p4 p5 p6 p7 = p4
eight_lists P (suc (suc (suc (suc (suc zero))))) h p0 p1 p2 p3 p4 p5 p6 p7 = p5
eight_lists P (suc (suc (suc (suc (suc (suc zero)))))) h p0 p1 p2 p3 p4 p5 p6 p7 = p6
eight_lists P (suc (suc (suc (suc (suc (suc (suc zero))))))) h p0 p1 p2 p3 p4 p5 p6 p7 = p7
eight_lists P (suc (suc (suc (suc (suc (suc (suc (suc l)))))))) h p0 p1 p2 p3 p4 p5 p6 p7 =
    absurd (omega arith)

entries-le-lru_listed : (l : ℕ) (m : Store) → l < 8 → entries m l ≤ lru_listed m
entries-le-lru_listed l m h =
    eight_lists (λ k. entries m k ≤ lru_listed m) l h (omega arith) (omega arith) (omega arith)
      (omega arith) (omega arith) (omega arith) (omega arith) (omega arith)

lru_listed-Enqueued :
    {p : ℕ} (l : ℕ) {m m' : Store} → Enqueued p l m m' → l < 8 → lru_listed m' ≡ lru_listed m + 1
lru_listed-Enqueued l en h = ground (
  arith,
  en.count 0,
  en.count 1,
  en.count 2,
  en.count 3,
  en.count 4,
  en.count 5,
  en.count 6,
  en.count 7,
)

lru_listed-Dequeued :
    {p : ℕ} (l : ℕ) {m m' : Store} → Dequeued p l m m' → l < 8 → lru_listed m ≡ lru_listed m' + 1
lru_listed-Dequeued l out h = ground (
  arith,
  out.count 0,
  out.count 1,
  out.count 2,
  out.count 3,
  out.count 4,
  out.count 5,
  out.count 6,
  out.count 7,
)

module _ {e : Env} {n : ℕ} {s : State e.table.Table} (p : ℕ) (inv : LruInv e n s) (l : ℕ) (l' : ℕ)
    (x : Page) (fits : LruFits e (some l') x) (same_tier : x.in_dram ≡ (s.page p).in_dram)
    (same_frame : x.devdax_offset ≡ (s.page p).devdax_offset) where
  -- Page `p` came off list `l`, is changed to `x`, and goes on list `l'`.
  pub requeue_lem :
      (s1 : State e.table.Table)
      → Relinked s s1 × Dequeued p l s.store s1.store
      → l < 8
      → l' < 8
      → Returns (λ s2. LruInv e n s2 × Replaced p l' x s s2) (enqueue l' p (set_page s1 p x))
  requeue_lem s1 (eq1, out) l-lt l'-lt =
      let less = lru_listed-Dequeued l out l-lt in
      mono
        (enqueue_lem l' p (set_page s1 p x) out.moved.well (ground (arith, out.moved.place p))
          (omega (arith, inv.count, inv.small, entries-le-lru_listed l' s1.store l'-lt)))
        λ s2 (eq2, into).
          let c = moves-Replaced p l l' x s s1 s2 (eq1, out) (eq2, into) in
          (
            record {
              well = into.moved.well;
              count = omega (arith, inv.count, lru_listed-Enqueued l' into l'-lt);
              small = inv.small;
              fits = λ q. elim (Bool-cases (q == p)) [
                | inl is ↦ rw (c.place q, c.page q, is) fits
                | inr ne ↦ rw (c.place q, c.page q, ne) (inv.fits q)
              ];
              apart = λ q r a b d o.
                  inv.apart q r (ground (arith, c.place q, out.was))
                    (ground (arith, c.place r, out.was)) (ground (arith, c.page q, c.page r))
                    (ground (arith, c.page q, c.page r));
            },
            c,
          )
