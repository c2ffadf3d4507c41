-- ===== src/Pebs/Invariant/Moving.antt =====
-- The two moves of the policy thread, each of which puts both of its pages back on lists.
use hemem.Prelude.{
  ℕ, ◌+◌, ◌-◌, ◌%◌, ◌<◌, ◌≤◌, ◌≡◌, ◌≢◌, refl, subst, ◌>>=◌, ap, ◌∙◌, Bool, true, false, not, ◌||◌,
  if◌then◌else◌, some, ◌==◌, arith, update, Returns, bind, mono, check,
}
use hemem.Fifo.Moves.{entries}
use hemem.Memory.Page.{Page, hugep, hugepage_size}
use hemem.Memory.Kernel.{Env, Serves}
use hemem.Memory.State.{State}
use hemem.Pebs.Lists.{
  enqueue, list_of, home, is_dram_list, nvm_hot_list, dram_cold_list, dram_hot_list, dram_free_list,
  nvm_cold_list, nvm_free_list,
}
use hemem.Pebs.Policy.{move_up, move_down}
use hemem.Pebs.Invariant.{Fits, Placed}
use hemem.Pebs.Invariant.Steps.{page-Relinked}
use hemem.Pebs.Invariant.Off.{InvOff, enqueue_held}
use hemem.Pebs.Invariant.Exchange.{Exchanged}
use hemem.Pebs.Invariant.Onward.{Onward, Onward-trans, put-Onward, Exchanged-Onward}
use hemem.Pebs.Invariant.ExchangeRun.{exchange_up_lem, exchange_down_lem}

-- What a page has to be to fit a list.
pub Fits-put :
    (e : Env) (l : ℕ) (pg : Page)
    → l < 6
    → pg.in_dram ≡ is_dram_list l
    → (pg.present ≡ true → l ≡ home pg.in_dram pg.hot)
    → (pg.hot ≡ true → pg.present ≡ true)
    → Placed e pg
    → pg.pt ≡ hugep
    → Fits e (some l) pg
Fits-put e l pg lt tier live idle on huge = record {
  known = λ k eq. ground (arith, eq);
  tier = λ k eq. ground (arith, eq);
  live = λ h. ap some (live h);
  idle = idle;
  placed = λ k eq. on;
  huge = λ k eq. huge;
}

-- Page `p` is on list `l` in tier `d`, page `np` is free in the other tier, and the other pages
-- are as they were.
pub record Arrived {Table : Type 0} (d : Bool) (p l np l' : ℕ) (s s' : State Table) : Type 0 where
  pub place :
      (q : ℕ) → list_of s' q ≡ (if q == np then some l' else if q == p then some l else list_of s q)
  pub tier : (s'.page p).in_dram ≡ d
  pub live : (s'.page p).present ≡ (s.page p).present
  pub type : (s'.page p).pt ≡ (s.page p).pt
  pub others : (q : ℕ) → (q == p) ≡ false → (q == np) ≡ false → s'.page q ≡ s.page q
  pub count :
      (m : ℕ)
      → entries s'.store m
        ≡ entries s.store m + (if m == l then 1 else 0) + (if m == l' then 1 else 0)
  pub onward : Onward s s'

module _ {e : Env} (serves : Serves e.os) {n k : ℕ} {off : ℕ → Bool} {s : State e.table.Table}
    (p np : ℕ) (inv : InvOff e n k off s) (two : 2 ≤ k) (off_p : off p ≡ true)
    (off_np : off np ≡ true) (differ : (p == np) ≡ false) (mapped : (s.page p).va ≢ 0)
    (aligned : (s.page p).va % hugepage_size ≡ 0)
    (idle : (s.page p).hot ≡ true → (s.page p).present ≡ true)
    (free : (s.page np).present ≡ false) where
  abbrev Done : Bool → ℕ → ℕ → State e.table.Table → Type 0
  Done d l l' s' =
      InvOff e n (k - 2) (update (update off p false) np false) s' × Arrived d p l np l' s s'

  -- Both pages go back on lists that fit them.
  put_both :
      (d : Bool) (l l' : ℕ) (s1 : State e.table.Table)
      → Exchanged d p np s s1
      → InvOff e n k off s1
      → l < 6
      → l' < 6
      → ((l == nvm_hot_list) || (l == dram_cold_list)) ≡ false
      → ((l' == nvm_hot_list) || (l' == dram_cold_list)) ≡ false
      → d ≡ is_dram_list l
      → not d ≡ is_dram_list l'
      → ((s.page p).present ≡ true → l ≡ home d (s.page p).hot)
      → Returns (Done d l l') (enqueue l p s1 >>= enqueue l' np)
  put_both d l l' s1 x inv1 lt lt' a a' tier tier' live =
      let f1 = inv1.framed p off_p in
      bind
        (enqueue_held l p lt (omega arith) inv1 off_p (
          Fits-put e l (s1.page p) lt (ground (arith, x.moved)) (λ h. ground (arith, x.moved))
            (λ h. ground (arith, x.moved)) f1.0 f1.1))
        λ s2 (same2, into2, inv2).
          let np_off : update off p false np ≡ true = ground (arith, off_np, differ) in
          let f2 = inv2.framed np np_off in
          let g : s2.page np ≡ s1.page np = page-Relinked s1 s2 np same2 in
          mono
            (enqueue_held l' np lt' (omega arith) inv2 np_off (
              Fits-put e l' (s2.page np) lt' (ground (arith, g, x.freed))
                (λ h. ground (arith, g, x.freed)) (λ h. ground (arith, g, x.freed)) f2.0 f2.1))
            λ s3 (same3, into3, inv3).
              let same : (q : ℕ) → s3.page q ≡ s1.page q =
                λ q. page-Relinked s2 s3 q same3 ∙ page-Relinked s1 s2 q same2 in
              (
                subst (λ m. InvOff e n m (update (update off p false) np false) s3) (omega arith)
                    inv3,
                record {
                  place = λ q. ground (arith, into3.moved.place q, into2.moved.place q, x.store);
                  tier = ground (arith, same p, x.moved);
                  live = ground (arith, same p, x.moved);
                  type = rw (same p, x.moved) refl;
                  others = λ q a b. same q ∙ x.others q a b;
                  count = λ m. ground (arith, into3.count m, into2.count m, x.store);
                  onward = Onward-trans s s1 s3 (Exchanged-Onward d p np s s1 x) (
                      Onward-trans s1 s2 s3
                        (put-Onward p l s1 s2 (inv1.loose p off_p) (ground arith) (ground arith)
                          same2 into2)
                        (put-Onward np l' s2 s3 (inv2.loose np np_off) (ground arith) (ground arith)
                          same3 into3));
                },
              )

  pub move_up_lem :
      (s.page p).in_dram ≡ false
      → (s.page np).in_dram ≡ true
      → ((s.page p).present ≡ true → (s.page p).hot ≡ true)
      → Returns (Done true dram_hot_list nvm_free_list) (move_up e p np s)
  unfolding move_up
  move_up_lem slow fast hot = check (not (s.page np).present) (ground (arith, free)) (
      bind (exchange_up_lem serves p np inv off_p off_np differ mapped aligned slow fast)
        λ s1 (x, inv1).
          put_both true dram_hot_list nvm_free_list s1 x inv1 (omega arith) (omega arith) refl refl
            refl refl (λ h. ground arith))

  pub move_down_lem :
      (s.page p).enforced ≡ false
      → (s.page p).in_dram ≡ true
      → (s.page np).in_dram ≡ false
      → ((s.page p).present ≡ true → (s.page p).hot ≡ false)
      → Returns (Done false nvm_cold_list dram_free_list) (move_down e p np s)
  unfolding move_down
  move_down_lem loose fast slow cold = check (not (s.page np).present) (ground (arith, free)) (
      bind (exchange_down_lem serves p np inv off_p off_np differ mapped aligned loose fast slow)
        λ s1 (x, inv1).
          put_both false nvm_cold_list dram_free_list s1 x inv1 (omega arith) (omega arith) refl
            refl refl refl (λ h. ground arith))
