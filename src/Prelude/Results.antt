-- ===== src/Prelude/Results.antt =====
-- Fallible code: `none` is a failed assertion, and a read through NULL.
use mathlib.Core.Path.{◌≡◌, refl}
use mathlib.Core.Bool.{Bool, true, false}
use mathlib.Core.Option.{Option, none, some}

infixl 5 ◌>>=◌ ◌>>◌
abbrev pub ◌>>=◌ {ℓ κ} : {A : Type ℓ} {B : Type κ} → Option A → (A → Option B) → Option B
some a >>= f = f a
none >>= f = none

abbrev pub ◌>>◌ {κ} : {B : Type κ} → Option (Unit {0}) → Option B → Option B
m >> k = m >>= λ _. k

-- assert(b)
abbrev pub assert : Bool → Option (Unit {0})
assert true = some tt
assert false = none

-- The run ends without a fault, in a value that has the property.
pub data Returns {A : Type 0} (P : A → Type 0) : Option A → Type 0 where
  returns : {a : A} → P a → Returns P (some a)

module _ {A : Type 0} {P : A → Type 0} where
  pub bind :
      {B : Type 0} {Q : B → Type 0} {r : Option A} {k : A → Option B}
      → Returns P r
      → ((a : A) → P a → Returns Q (k a))
      → Returns Q (r >>= k)
  bind (returns p) next = next _ p

  -- The run fails in what follows.
  pub fails :
      {B : Type 0} {r : Option A} {k : A → Option B}
      → Returns P r
      → ((a : A) → P a → k a ≡ none)
      → (r >>= k) ≡ none
  fails (returns p) next = next _ p

  pub mono : {Q : A → Type 0} {r : Option A} → Returns P r → ((a : A) → P a → Q a) → Returns Q r
  mono (returns p) weaken = returns (weaken _ p)

  pub both :
      {Q : A → Type 0} {r : Option A} → Returns P r → Returns Q r → Returns (λ a. P a × Q a) r
  both (returns p) (returns q) = returns (p, q)

  pub value : {r : Option A} → Returns P r → (a : A) × (r ≡ some a) × P a
  value (returns {a} p) = (a, refl, p)

-- An assertion whose condition holds.
pub check :
    {B : Type 0} {Q : B → Type 0} {k : Option B} (b : Bool)
    → b ≡ true
    → Returns Q k
    → Returns Q (assert b >> k)
check b e r = rw e r
