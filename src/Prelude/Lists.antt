-- ===== src/Prelude/Lists.antt =====
-- Lists measured and indexed by native numbers, and their ends as pointers.
use Prim.Native.Nat.{ℕ, zero, suc, ◌+◌, ◌<◌}
use mathlib.Core.Path.{◌≡◌, refl, ap}
use mathlib.Core.Logic.{◌≢◌}
use mathlib.Core.Bool.{Bool, true, false, ◌||◌}
use mathlib.Core.Option.{Option, none, some}
use mathlib.Core.List.{List, [], ◌∷◌, ◌++◌}
use native.Mathlib.Omega.{arith}
use hemem.Prelude.Tests.{◌==◌, Ptr}

module _ {ℓ} {A : Type ℓ} where
  abbrev pub length : List A → ℕ
  length [] = 0
  length (x ∷ xs) = suc (length xs)

  abbrev pub get_elem? : List A → ℕ → Option A
  get_elem? [] i = none
  get_elem? (x ∷ xs) zero = some x
  get_elem? (x ∷ xs) (suc i) = get_elem? xs i

  abbrev pub get_or : List A → ℕ → A → A
  get_or [] i d = d
  get_or (x ∷ xs) zero d = x
  get_or (x ∷ xs) (suc i) d = get_or xs i d

  -- A write out of bounds changes nothing.
  abbrev pub set : List A → ℕ → A → List A
  set [] i v = []
  set (x ∷ xs) zero v = v ∷ xs
  set (x ∷ xs) (suc i) v = x ∷ set xs i v

  pub length-append : (xs ys : List A) → length (xs ++ ys) ≡ length xs + length ys
  length-append [] ys = omega arith
  length-append (x ∷ xs) ys = omega (arith, length-append xs ys)

  pub length-set : (xs : List A) (i : ℕ) (v : A) → length (set xs i v) ≡ length xs
  length-set [] i v = refl
  length-set (x ∷ xs) zero v = refl
  length-set (x ∷ xs) (suc i) v = ap suc (length-set xs i v)

  pub get_or-set_self :
      (xs : List A) (i : ℕ) (v d : A) → i < length xs → get_or (set xs i v) i d ≡ v
  get_or-set_self [] i v d h = absurd (omega arith)
  get_or-set_self (x ∷ xs) zero v d h = refl
  get_or-set_self (x ∷ xs) (suc i) v d h = get_or-set_self xs i v d (omega arith)

  pub get_or-set_ne :
      (xs : List A) {i j : ℕ} (v d : A) → i ≢ j → get_or (set xs i v) j d ≡ get_or xs j d
  get_or-set_ne [] v d h = refl
  get_or-set_ne (x ∷ xs) {i = zero} {j = zero} v d h = absurd (h refl)
  get_or-set_ne (x ∷ xs) {i = zero} {j = suc j} v d h = refl
  get_or-set_ne (x ∷ xs) {i = suc i} {j = zero} v d h = refl
  get_or-set_ne (x ∷ xs) {i = suc i} {j = suc j} v d h = get_or-set_ne xs v d (λ e. h (ap suc e))

  pub get_elem?-eq-get_or :
      (xs : List A) (i : ℕ) (d : A) → i < length xs → get_elem? xs i ≡ some (get_or xs i d)
  get_elem?-eq-get_or [] i d h = absurd (omega arith)
  get_elem?-eq-get_or (x ∷ xs) zero d h = refl
  get_elem?-eq-get_or (x ∷ xs) (suc i) d h = get_elem?-eq-get_or xs i d (omega arith)

-- Membership as a test.
abbrev pub elem : ℕ → List ℕ → Bool
elem a [] = false
elem a (x ∷ xs) = (a == x) || elem a xs

abbrev pub Distinct : List ℕ → Type 0
Distinct [] = Unit
Distinct (x ∷ xs) = (elem x xs ≡ false) × Distinct xs

-- The first and the last address of a list, or the pointer that stands in its place.
abbrev pub head_or : List ℕ → Ptr → Ptr
head_or [] d = d
head_or (x ∷ _) d = some x

abbrev pub last_or : List ℕ → Ptr → Ptr
last_or [] d = d
last_or (x ∷ xs) d = last_or xs (some x)

pub elem-append : (a : ℕ) (xs ys : List ℕ) → elem a (xs ++ ys) ≡ (elem a xs || elem a ys)
elem-append a [] ys = refl
elem-append a (x ∷ xs) ys = ground (arith, elem-append a xs ys)

pub last_or-append : (xs ys : List ℕ) (d : Ptr) → last_or (xs ++ ys) d ≡ last_or ys (last_or xs d)
last_or-append [] ys d = refl
last_or-append (x ∷ xs) ys d = last_or-append xs ys (some x)

pub head_or-append : (xs ys : List ℕ) (d : Ptr) → head_or (xs ++ ys) d ≡ head_or xs (head_or ys d)
head_or-append [] ys d = refl
head_or-append (x ∷ xs) ys d = refl

-- An element splits the list at its place.
pub elem-split :
    (a : ℕ) (xs : List ℕ) → elem a xs ≡ true → (ys : List ℕ) × (zs : List ℕ) × (xs ≡ ys ++ a ∷ zs)
elem-split a [] h = cc
elem-split a (x ∷ xs) h = elim-head (a == x) xs refl h (elem-split a xs)
  where
    elim-head :
        (b : Bool) (xs : List ℕ)
        → (a == x) ≡ b
        → (b || elem a xs) ≡ true
        → (elem a xs ≡ true → (ys : List ℕ) × (zs : List ℕ) × (xs ≡ ys ++ a ∷ zs))
        → (ys : List ℕ) × (zs : List ℕ) × (x ∷ xs ≡ ys ++ a ∷ zs)
    elim-head true xs e h ih = ([], xs, ap (λ y. y ∷ xs) (ground arith))
    elim-head false xs e h ih = let (ys, zs, eq) = ih h in (x ∷ ys, zs, ap (λ l. x ∷ l) eq)

-- A list is empty or has a last element.
pub data Snoc (xs : List ℕ) : Type 0 where
  empty : xs ≡ [] → Snoc xs
  snoc : (ys : List ℕ) (a : ℕ) → xs ≡ ys ++ a ∷ [] → Snoc xs

pub snoc-cases : (xs : List ℕ) → Snoc xs
snoc-cases [] = empty refl
snoc-cases (x ∷ xs) = elim (snoc-cases xs) [
  | empty e ↦ snoc [] x (ap (λ l. x ∷ l) e)
  | snoc ys a e ↦ snoc (x ∷ ys) a (ap (λ l. x ∷ l) e)
]

pub nil_of_length {ℓ} : {A : Type ℓ} (xs : List A) → length xs ≡ 0 → xs ≡ []
nil_of_length [] h = refl
nil_of_length (x ∷ xs) h = absurd (omega arith)

unfoldable pub replicate {ℓ} : {A : Type ℓ} → ℕ → A → List A
replicate zero x = []
replicate (suc n) x = x ∷ replicate n x

pub length-replicate {ℓ} : {A : Type ℓ} (n : ℕ) (x : A) → length (replicate n x) ≡ n
unfolding replicate
length-replicate zero x = refl
length-replicate (suc n) x = ap suc (length-replicate n x)
