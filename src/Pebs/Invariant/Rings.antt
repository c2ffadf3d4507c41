-- ===== src/Pebs/Invariant/Rings.antt =====
-- The two request loops of the policy thread, and a request for a page that was just given back.
use hemem.Prelude.{
  ℕ, ◌<◌, ◌≡◌, refl, ap, true, false, Option, none, List, Ptr, arith, length, Returns, ==_refl,
}
use hemem.Ring.Entries.{Holding}
use hemem.Memory.Kernel.{Env}
use hemem.Memory.State.{State, Pebs}
use hemem.Pebs.Heat.{make_hot, make_cold}
use hemem.Pebs.Alloc.{pebs_remove_page}
use hemem.Pebs.Policy.{
  serve, hot_requests, cold_requests, with_hot_ring, with_cold_ring, hot_ring_reqs_threshold,
  cold_ring_reqs_threshold,
}
use hemem.Pebs.Invariant.{Inv}
use hemem.Pebs.Invariant.Change.{make_hot_lem, make_cold_lem}
use hemem.Pebs.Invariant.Cursor.{Cursors}
use hemem.Pebs.Invariant.Draining.{holds}
use hemem.Pebs.Invariant.Serving.{Servable}
use hemem.Pebs.Invariant.Answered.{IsRing, Answered}
use hemem.Pebs.Invariant.Answering.{requests_lem}

hot-IsRing : IsRing (λ b. b.hot_ring) with_hot_ring
hot-IsRing = record {
  written = λ b r. refl;
  kept = λ b b' w. ap (λ (x : Pebs). x.hot_ring) w;
  fast = λ b r. refl;
  slow = λ b r. refl;
  same = λ b. refl;
  again = λ b r r'. refl;
  beside = λ b d n r. refl;
}

cold-IsRing : IsRing (λ b. b.cold_ring) with_cold_ring
cold-IsRing = record {
  written = λ b r. refl;
  kept = λ b b' w. ap (λ (x : Pebs). x.cold_ring) w;
  fast = λ b r. refl;
  slow = λ b r. refl;
  same = λ b. refl;
  again = λ b r r'. refl;
  beside = λ b d n r. refl;
}

module _ {e : Env} {n : ℕ} (xs : List Ptr) (fuel : ℕ) (s : State e.table.Table)
    (enough : length xs < fuel) (inv : Inv e n s) (c : Cursors s)
    (ask : (p : ℕ) → holds p xs ≡ true → Servable p s) where
  -- The loop over the requests to make a page hot, with more rounds than the ring has entries, when
  -- every page that is asked for is in use with an address or is back on its free list: the loop
  -- ends and no assertion fails; pages that are not asked for or not in use stay as and where they
  -- are; if the threshold is not below the number of entries, every page in use that is asked for
  -- ends hot, on the hot list of its tier, with no request pending; of a page nothing else changes,
  -- the cooling walks stand on the hot lists, and the invariant holds again.
  pub hot_requests_lem :
      Holding xs s.pebs.hot_ring
      → Returns
          (λ s'.
            Inv e n s'
            × Answered (λ b. b.hot_ring) with_hot_ring true xs hot_ring_reqs_threshold s s')
          (hot_requests fuel 0 s)
  unfolding hot_requests
  hot_requests_lem r =
      requests_lem true make_hot (λ p t i live va. make_hot_lem p i live va) (λ b. b.hot_ring)
        with_hot_ring hot-IsRing hot_ring_reqs_threshold xs fuel 0 s enough r inv c ask

  -- The same for the requests to make a page cold.
  pub cold_requests_lem :
      Holding xs s.pebs.cold_ring
      → Returns
          (λ s'.
            Inv e n s'
            × Answered (λ b. b.cold_ring) with_cold_ring false xs cold_ring_reqs_threshold s s')
          (cold_requests fuel 0 s)
  unfolding cold_requests
  cold_requests_lem r =
      requests_lem false make_cold (λ p t i live va. make_cold_lem p i live va) (λ b. b.cold_ring)
        with_cold_ring cold-IsRing cold_ring_reqs_threshold xs fuel 0 s enough r inv c ask

-- A page that is given back after the policy thread has emptied the ring of such pages, and for
-- which a request is pending: serving the request fails the assertion that the page is on its free
-- list, whatever the request asks for.
pub serve_removed :
    {e : Env} {n : ℕ} (p : ℕ) (make : ℕ → State e.table.Table → Option (State e.table.Table))
    (s : State e.table.Table)
    → Inv e n s
    → (s.page p).present ≡ true
    → serve make p (pebs_remove_page p s) ≡ none
unfolding pebs_remove_page
serve_removed p make s inv live =
    let at_home = (inv.fits p).live live in simp (==_refl, at_home) (ground arith)
