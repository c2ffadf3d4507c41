-- ===== src/Timer/Laws.antt =====
-- What the differences of src/timer.c are.
use hemem.Prelude.{
  suc, ℕ, ◌+◌, ◌*◌, ◌<◌, ◌≤◌, ◌^◌, ◌≡◌, refl, ap, arith, some, ℤ, pos, negsuc, pos_part, neg_part,
  ◌+ℤ◌, ◌-ℤ◌, ◌*ℤ◌, long, Returns, returns, mono,
}
use hemem.Timer.{Timeval, Timespec, borrow, time_diff, clock_time_elapsed}

-- The microseconds of a time are counted from 0 up to a second, and its seconds are far from the
-- ends of the range.
pub record Normal (t : Timeval) : Type 0 where
  pub low : neg_part t.usec ≡ 0
  pub high : pos_part t.usec < 1000000
  pub range : (pos_part t.sec < 2 ^ 62) × (neg_part t.sec < 2 ^ 62)

unfoldable pub micros : Timeval → ℤ
micros t = t.sec *ℤ 1000000 +ℤ t.usec

long_lem : (a : ℤ) → pos_part a < 2 ^ 63 → neg_part a ≤ 2 ^ 63 → long a ≡ some a
unfolding long
long_lem a p q = ground arith

sub_parts :
    (a b : ℤ)
    → pos_part (a -ℤ b) + neg_part a + pos_part b ≡ neg_part (a -ℤ b) + pos_part a + neg_part b
unfolding ◌-ℤ◌
sub_parts a b = ground arith

sub_small :
    (a b : ℤ)
    → (pos_part (a -ℤ b) ≤ pos_part a + neg_part b) × (neg_part (a -ℤ b) ≤ neg_part a + pos_part b)
unfolding ◌-ℤ◌
sub_small a b = ground arith

add_parts :
    (a b : ℤ)
    → pos_part (a +ℤ b) + neg_part a + neg_part b ≡ neg_part (a +ℤ b) + pos_part a + pos_part b
unfolding ◌+ℤ◌
add_parts a b = ground arith

mul_parts :
    (a : ℤ) (k : ℕ) → pos_part (a *ℤ k) + neg_part a * k ≡ neg_part (a *ℤ k) + pos_part a * k
unfolding ◌*ℤ◌
mul_parts a k = ground arith

add_small :
    (a b : ℤ)
    → (pos_part (a +ℤ b) ≤ pos_part a + pos_part b) × (neg_part (a +ℤ b) ≤ neg_part a + neg_part b)
unfolding ◌+ℤ◌
add_small a b = ground arith

mul_small :
    (a : ℤ) (k : ℕ) → (pos_part (a *ℤ k) ≤ pos_part a * k) × (neg_part (a *ℤ k) ≤ neg_part a * k)
unfolding ◌*ℤ◌
mul_small a k = ground arith

eq_of_parts : (a b : ℤ) → pos_part a + neg_part b ≡ pos_part b + neg_part a → a ≡ b
eq_of_parts a b h = ground arith

carry :
    (u : ℕ)
    → suc u < 1000000
    → (neg_part (negsuc u +ℤ pos 1000000) ≡ 0)
      × (pos_part (negsuc u +ℤ pos 1000000) + suc u ≡ 1000000)
unfolding ◌+ℤ◌
carry u h = ground arith

-- The carry: the value stays, and the microseconds are in their range.
borrow_lem :
    (s u : ℤ)
    → pos_part u < 1000000
    → neg_part u < 1000000
    → pos_part s < 2 ^ 63
    → neg_part s < 2 ^ 63
    → Returns
        (λ d. (neg_part d.usec ≡ 0) × (pos_part d.usec < 1000000) × (micros d ≡ s *ℤ 1000000 +ℤ u))
        (borrow s u)
unfolding micros
borrow_lem s (pos u) p q h k = returns (refl, p, refl)
borrow_lem s (negsuc u) p q h k =
    let less = s -ℤ pos 1 in
    let more = negsuc u +ℤ pos 1000000 in
    simp
      (
        long_lem less (omega (arith, sub_small s (pos 1))) (omega (arith, sub_small s (pos 1))),
        long_lem more (omega (arith, carry u q)) (omega (arith, carry u q)),
      )
      (returns (
        (carry u q).0,
        omega (arith, carry u q),
        eq_of_parts _ _ (
            omega (
              arith,
              carry u q,
              sub_parts s (pos 1),
              mul_parts s 1000000,
              mul_parts less 1000000,
              add_parts (s *ℤ 1000000) (negsuc u),
              add_parts (less *ℤ 1000000) more,
            )),
      ))

-- The difference of two normal times has its microseconds from 0 up to a second, and added to the
-- subtrahend it gives the minuend back; no signed operation overflows.
pub time_diff_lem :
    (a b : Timeval)
    → Normal a
    → Normal b
    → Returns
        (λ d.
          (neg_part d.usec ≡ 0) × (pos_part d.usec < 1000000) × (micros b +ℤ micros d ≡ micros a))
        (time_diff a b)
unfolding time_diff micros
time_diff_lem a b na nb =
    simp
      (
        long_lem (a.sec -ℤ b.sec) (omega (arith, (sub_small a.sec b.sec).0))
            (omega (arith, (sub_small a.sec b.sec).1)),
        long_lem (a.usec -ℤ b.usec) (omega (arith, (sub_small a.usec b.usec).0))
            (omega (arith, (sub_small a.usec b.usec).1)),
      )
      (mono
        (borrow_lem (a.sec -ℤ b.sec) (a.usec -ℤ b.usec) (omega (arith, (sub_small a.usec b.usec).0))
          (omega (arith, (sub_small a.usec b.usec).1)) (omega (arith, (sub_small a.sec b.sec).0))
          (omega (arith, (sub_small a.sec b.sec).1)))
        λ d (low, high, same). (
          low,
          high,
          eq_of_parts _ _ (
              omega (
                arith,
                ap pos_part same,
                ap neg_part same,
                sub_parts a.sec b.sec,
                sub_parts a.usec b.usec,
                mul_parts a.sec 1000000,
                mul_parts b.sec 1000000,
                mul_parts (a.sec -ℤ b.sec) 1000000,
                add_parts (a.sec *ℤ 1000000) a.usec,
                add_parts (b.sec *ℤ 1000000) b.usec,
                add_parts ((a.sec -ℤ b.sec) *ℤ 1000000) (a.usec -ℤ b.usec),
                add_parts (micros b) (micros d),
              )),
        ))

-- The nanoseconds between two times, when the times and their distance are in range: the end is the
-- start and the result.
pub clock_time_elapsed_lem :
    (a b : Timespec)
    → (pos_part a.sec < 2 ^ 30) × (neg_part a.sec < 2 ^ 30)
    → (pos_part b.sec < 2 ^ 30) × (neg_part b.sec < 2 ^ 30)
    → (pos_part a.nsec < 2 ^ 30) × (neg_part a.nsec < 2 ^ 30)
    → (pos_part b.nsec < 2 ^ 30) × (neg_part b.nsec < 2 ^ 30)
    → Returns
        (λ t. a.sec *ℤ 1000000000 +ℤ a.nsec +ℤ t ≡ b.sec *ℤ 1000000000 +ℤ b.nsec)
        (clock_time_elapsed a b)
unfolding clock_time_elapsed
clock_time_elapsed_lem a b sa sb na nb =
    let s = b.sec -ℤ a.sec in
    let n = b.nsec -ℤ a.nsec in
    let t = s *ℤ 1000000000 in
    simp
      (
        long_lem s (omega (arith, sub_small b.sec a.sec)) (omega (arith, sub_small b.sec a.sec)),
        long_lem n (omega (arith, sub_small b.nsec a.nsec))
            (omega (arith, sub_small b.nsec a.nsec)),
        long_lem t (omega (arith, mul_small s 1000000000, sub_small b.sec a.sec))
            (omega (arith, mul_small s 1000000000, sub_small b.sec a.sec)),
        long_lem (t +ℤ n)
            (omega (
              arith,
              add_small t n,
              mul_small s 1000000000,
              sub_small b.sec a.sec,
              sub_small b.nsec a.nsec,
            ))
            (omega (
              arith,
              add_small t n,
              mul_small s 1000000000,
              sub_small b.sec a.sec,
              sub_small b.nsec a.nsec,
            )),
      )
      (returns (
        eq_of_parts _ _ (
          omega (
            arith,
            sub_parts b.sec a.sec,
            sub_parts b.nsec a.nsec,
            mul_parts s 1000000000,
            mul_parts a.sec 1000000000,
            mul_parts b.sec 1000000000,
            add_parts t n,
            add_parts (a.sec *ℤ 1000000000) a.nsec,
            add_parts (b.sec *ℤ 1000000000) b.nsec,
            add_parts (a.sec *ℤ 1000000000 +ℤ a.nsec) (t +ℤ n),
          ))))
