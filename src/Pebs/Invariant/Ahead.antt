-- ===== src/Pebs/Invariant/Ahead.antt =====
-- The order in which a walk from the end of a list towards its start visits the pages.
use hemem.Prelude.{
  ℕ, zero, suc, ◌≡◌, refl, ap, ◌∙◌, none, List, [], ◌∷◌, ◌++◌, head_or, last_or, last_or-append,
}

-- The list whose pages are visited in the order `xs` before the walk is at the start of `zs`.
abbrev pub onto : List ℕ → List ℕ → List ℕ
onto [] zs = zs
onto (p ∷ xs) zs = onto xs (p ∷ zs)

unfoldable pub take : ℕ → List ℕ → List ℕ
take zero xs = []
take (suc i) [] = []
take (suc i) (x ∷ xs) = x ∷ take i xs

append-snoc : (ys : List ℕ) (p : ℕ) (zs : List ℕ) → ys ++ p ∷ zs ≡ (ys ++ p ∷ []) ++ zs
append-snoc [] p zs = refl
append-snoc (y ∷ ys) p zs = ap (λ t. y ∷ t) (append-snoc ys p zs)

-- The pages that come before the start of `zs`, and the one that is visited first.
pub onto-split :
    (xs : List ℕ)
    → (ys : List ℕ) × ((zs : List ℕ) → onto xs zs ≡ ys ++ zs) × (last_or ys none ≡ head_or xs none)
onto-split [] = ([], λ zs. refl, refl)
onto-split (p ∷ xs) =
    let (ys, same, _) = onto-split xs in
    (ys ++ p ∷ [], λ zs. same (p ∷ zs) ∙ append-snoc ys p zs, last_or-append ys (p ∷ []) none)

onto-snoc : (xs : List ℕ) (y : ℕ) (zs : List ℕ) → onto (xs ++ y ∷ []) zs ≡ y ∷ onto xs zs
onto-snoc [] y zs = refl
onto-snoc (p ∷ xs) y zs = onto-snoc xs y (p ∷ zs)

pub split-onto : (ys : List ℕ) → (xs : List ℕ) × ((zs : List ℕ) → onto xs zs ≡ ys ++ zs)
split-onto [] = ([], λ zs. refl)
split-onto (y ∷ ys) =
    let (xs, same) = split-onto ys in
    (xs ++ y ∷ [], λ zs. onto-snoc xs y zs ∙ ap (λ t. y ∷ t) (same zs))
