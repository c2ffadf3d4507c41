-- ===== src/Ring/Entries.antt =====
-- What a reader sees of a ring, entry by entry.
use hemem.Prelude.{◌≤◌, ◌≡◌, refl, ap, ◌∙◌, true, false, List, [], ◌∷◌, Ptr, arith, length}
use hemem.Ring.{RingBuf, empty, full, get}
use hemem.Ring.Bounds.{IsValid, get-IsValid}
use hemem.Ring.Queue.{first, rest}
use hemem.Ring.Refine.{contents-get, length-contents}
use hemem.Ring.Window.{contents}

-- A valid ring of two slots or more with the entries `xs`.
pub record Holding (xs : List Ptr) (r : RingBuf) : Type 0 where
  pub valid : IsValid r
  pub two : 2 ≤ r.capacity
  pub entries : contents r ≡ xs

pub empty_lem : (r : RingBuf) → Holding [] r → empty r ≡ true
unfolding empty full
empty_lem r h = ground (arith, length-contents r, ap length h.entries, h.valid, h.two)

capacity_get : (r : RingBuf) → 2 ≤ r.capacity → 2 ≤ (get r).1.capacity
unfolding get
capacity_get r h = ground arith

pub get_lem :
    (o : Ptr) (xs : List Ptr) (r : RingBuf)
    → Holding (o ∷ xs) r
    → (empty r ≡ false) × ((get r).0 ≡ o) × Holding xs (get r).1
unfolding empty full
get_lem o xs r h =
    let (is, left) = contents-get r _ h.valid h.two refl in
    (
      ground (arith, length-contents r, ap length h.entries, h.valid, h.two),
      is ∙ ap first h.entries,
      record {
        valid = get-IsValid r h.valid;
        two = capacity_get r h.two;
        entries = left ∙ ap rest h.entries;
      },
    )
