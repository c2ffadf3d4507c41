-- ===== src/Pebs/Invariant/Answered.antt =====
-- What a loop over a ring of requests does.
use hemem.Prelude.{
  ℕ, ◌⊎◌, ◌≤◌, ◌≡◌, refl, ap, ◌∙◌, Bool, true, false, some, List, Ptr, ◌&&◌, length,
}
use hemem.Ring.{RingBuf}
use hemem.Memory.State.{State, Pebs}
use hemem.Pebs.Lists.{list_of, home}
use hemem.Pebs.Invariant.Cursor.{Cursors}
use hemem.Pebs.Invariant.Freeing.{Walked}
use hemem.Pebs.Invariant.Draining.{holds}
use hemem.Pebs.Invariant.Serving.{answered}

-- The walks stand at `d` and `n`.
abbrev pub standing : Pebs → Ptr → Ptr → Pebs
standing b d n = record b { cur_cool_in_dram = d; cur_cool_in_nvm = n }

-- One of the rings among the variables of src/pebs.c.
pub record IsRing (ring : Pebs → RingBuf) (with_ring : Pebs → RingBuf → Pebs) : Type 0 where
  pub written : (b : Pebs) (r : RingBuf) → ring (with_ring b r) ≡ r
  pub kept : (b b' : Pebs) → Walked b b' → ring b' ≡ ring b
  pub fast : (b : Pebs) (r : RingBuf) → (with_ring b r).cur_cool_in_dram ≡ b.cur_cool_in_dram
  pub slow : (b : Pebs) (r : RingBuf) → (with_ring b r).cur_cool_in_nvm ≡ b.cur_cool_in_nvm
  pub same : (b : Pebs) → with_ring b (ring b) ≡ b
  pub again : (b : Pebs) (r r' : RingBuf) → with_ring (with_ring b r) r' ≡ with_ring b r'
  pub beside :
      (b : Pebs) (d n : Ptr) (r : RingBuf)
      → with_ring (standing b d n) r ≡ standing (with_ring b r) d n

module _ (ring : Pebs → RingBuf) (with_ring : Pebs → RingBuf → Pebs)
    (is_ring : IsRing ring with_ring) where
  pub Walked-same : (b : Pebs) → Walked (with_ring b (ring b)) b
  Walked-same b = rw (is_ring.same b) refl

  pub Walked-ring :
      (b c d : Pebs)
      → Walked b c
      → Walked (with_ring c (ring d)) d
      → Walked (with_ring b (ring d)) d
  Walked-ring b c d x y =
      y
      ∙ ap (λ z. standing (with_ring z (ring d)) d.cur_cool_in_dram d.cur_cool_in_nvm) x
      ∙ ap (λ z. standing z d.cur_cool_in_dram d.cur_cool_in_nvm)
          (is_ring.beside b c.cur_cool_in_dram c.cur_cool_in_nvm (ring d))

module _ {Table : Type 0} where
  -- What the loop over the entries `xs` does, with `room` for requests to serve.
  pub record Answered (ring : Pebs → RingBuf) (with_ring : Pebs → RingBuf → Pebs) (h : Bool)
      (xs : List Ptr) (room : ℕ) (s s' : State Table) : Type 0 where
    pub cursors : Cursors s'
    -- of the variables only the ring and where the walks stand differ
    pub pebs : Walked (with_ring s.pebs (ring s'.pebs)) s'.pebs
    -- pages without a request, and pages not in use, stay as and where they are
    pub still :
        (q : ℕ)
        → (holds q xs && (s.page q).present) ≡ false
        → (s'.page q ≡ s.page q) × (list_of s' q ≡ list_of s q)
    pub page :
        (q : ℕ)
        → s'.page q
          ≡ record (s.page q) { ring_present = (s'.page q).ring_present; hot = (s'.page q).hot }
    -- no page gets another heat
    pub heat : (q : ℕ) → ((s'.page q).hot ≡ (s.page q).hot) ⊎ ((s'.page q).hot ≡ h)
    -- with room for all, every page in use that is asked for gets its heat and its list
    pub answer :
        length xs ≤ room
        → (q : ℕ) → (holds q xs && (s.page q).present) ≡ true
        → (s'.page q ≡ answered h (s.page q)) × (list_of s' q ≡ some (home (s.page q).in_dram h))
