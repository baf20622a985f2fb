-- ===== src/Prelude/Elem.antt =====
-- Membership in a list as a witness, and what a comprehension keeps of it.
use mathlib.Core.Path.{◌≡◌, refl, ap}
use mathlib.Core.Logic.{◌⊎◌, inl, inr}
use mathlib.Core.Bool.{Bool, true, false}
use mathlib.Core.List.{List, [], ◌∷◌}
use native.Mathlib.Omega.{arith}
use stock_fixer.Prelude.Tests.{Bool-cases}
use stock_fixer.Prelude.Lists.{keep, All}

abbrev pub is_empty {ℓ} : {A : Type ℓ} → List A → Bool
is_empty [] = true
is_empty (x ∷ xs) = false

-- Membership as a witness.
abbrev pub Elem : {A : Type 0} → A → List A → Type 0
Elem a [] = ⊥
Elem a (x ∷ xs) = (x ≡ a) ⊎ Elem a xs

pub keep-Elem :
    {A : Type 0} (p : A → Bool) (a : A) (xs : List A) → Elem a xs → p a ≡ true → Elem a (keep p xs)
unfolding keep
keep-Elem p a [] m h = m
keep-Elem p a (x ∷ xs) (inl e) h = rw (e, h) (inl refl)
keep-Elem p a (x ∷ xs) (inr m) h = elim (Bool-cases (p x)) [
  | inl y ↦ rw y (inr (keep-Elem p a xs m h))
  | inr n ↦ rw n (keep-Elem p a xs m h)
]

pub keep-sub : {A : Type 0} (p : A → Bool) (a : A) (xs : List A) → Elem a (keep p xs) → Elem a xs
unfolding keep
keep-sub p a [] m = m
keep-sub p a (x ∷ xs) m = elim (Bool-cases (p x)) [
  | inl y ↦
      let m' : (x ≡ a) ⊎ Elem a (keep p xs) = rw y at m in
      elim m' [ inl e ↦ inl e | inr r ↦ inr (keep-sub p a xs r) ]
  | inr n ↦ inr (keep-sub p a xs (rw n at m))
]

pub Elem-empty : {A : Type 0} (a : A) (xs : List A) → is_empty xs ≡ true → Elem a xs → ⊥
Elem-empty a [] e m = m
Elem-empty a (x ∷ xs) e m = cc

-- Nothing is kept: no element passes.
pub keep-none :
    {A : Type 0} (p : A → Bool) (a : A) (xs : List A)
    → is_empty (keep p xs) ≡ true
    → Elem a xs
    → p a ≡ false
unfolding keep
keep-none p a [] h m = absurd m
keep-none p a (x ∷ xs) h (inl e) = ground (arith, ap p e)
keep-none p a (x ∷ xs) h (inr m) = ground (arith, keep-none p a xs)

pub All-Elem : {A : Type 0} (P : A → Type 0) (a : A) (xs : List A) → All P xs → Elem a xs → P a
All-Elem P a [] h m = absurd m
All-Elem P a (x ∷ xs) h (inl e) = rw (← e) h.0
All-Elem P a (x ∷ xs) h (inr m) = All-Elem P a xs h.1 m
