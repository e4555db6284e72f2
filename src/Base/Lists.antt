-- ===== src/Base/Lists.antt =====
-- Lists measured by native numbers, under the library's names.
use Prim.Native.Nat.{ℕ, zero, suc, ◌+◌}
use mathlib.Core.Path.{◌≡◌, refl}
use mathlib.Core.Logic.{◌⊎◌, inl, inr}
use mathlib.Core.List.{List, [], ◌∷◌, ◌++◌}
use native.Mathlib.Omega.{arith}

module _ {ℓ} {A : Type ℓ} where
  abbrev pub length : List A → ℕ
  length [] = 0
  length (x ∷ xs) = suc (length xs)

  pub length-append : (xs ys : List A) → length (xs ++ ys) ≡ length xs + length ys
  length-append [] ys = omega arith
  length-append (x ∷ xs) ys = omega (arith, length-append xs ys)

  abbrev pub replicate : ℕ → A → List A
  replicate zero a = []
  replicate (suc n) a = a ∷ replicate n a

abbrev pub Among : {X : Type 0} → X → List X → Type 0
Among x [] = ⊥
Among x (y ∷ ys) = (x ≡ y) ⊎ Among x ys

pub Among-left : {X : Type 0} (x : X) (xs ys : List X) → Among x xs → Among x (xs ++ ys)
Among-left x [] ys h = absurd h
Among-left x (y ∷ xs) ys (inl e) = inl e
Among-left x (y ∷ xs) ys (inr h) = inr (Among-left x xs ys h)

pub Among-last : {X : Type 0} (x : X) (xs : List X) → Among x (xs ++ x ∷ [])
Among-last x [] = inl refl
Among-last x (y ∷ xs) = inr (Among-last x xs)

pub Among-split :
    {X : Type 0} (x : X) (xs ys : List X) → Among x (xs ++ ys) → Among x xs ⊎ Among x ys
Among-split x [] ys h = inr h
Among-split x (y ∷ xs) ys (inl e) = inl (inl e)
Among-split x (y ∷ xs) ys (inr h) = elim (Among-split x xs ys h) [
  | inl k ↦ inl (inr k)
  | inr k ↦ inr k
]
