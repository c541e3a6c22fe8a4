-- ===== src/Base/Lists.antt =====
-- Membership in a list by recursion, which the tactics take apart, a property of each element, and
-- the length.
use Prim.Native.Nat.{ℕ, zero, suc}
use mathlib.Core.Path.{◌≡◌, refl, subst}
use mathlib.Core.Logic.{◌⊎◌, inl, inr}
use mathlib.Core.List.{List, [], ◌∷◌, ◌++◌}

module _ {A : Type 0} where
  abbrev pub Elem : A → List A → Type 0
  Elem a [] = ⊥
  Elem a (x ∷ xs) = (x ≡ a) ⊎ Elem a xs

  abbrev pub All : (A → Type 0) → List A → Type 0
  All Q [] = Unit
  All Q (x ∷ xs) = Q x × All Q xs

  abbrev pub length : List A → ℕ
  length [] = zero
  length (x ∷ xs) = suc (length xs)

  pub Elem-append_left : (a : A) (xs ys : List A) → Elem a xs → Elem a (xs ++ ys)
  Elem-append_left a [] ys h = absurd h
  Elem-append_left a (x ∷ xs) ys (inl e) = inl e
  Elem-append_left a (x ∷ xs) ys (inr h) = inr (Elem-append_left a xs ys h)

  pub Elem-append_right : (a : A) (xs ys : List A) → Elem a ys → Elem a (xs ++ ys)
  Elem-append_right a [] ys h = h
  Elem-append_right a (x ∷ xs) ys h = inr (Elem-append_right a xs ys h)

  pub Elem-append_last : (a : A) (xs : List A) → Elem a (xs ++ a ∷ [])
  Elem-append_last a [] = inl refl
  Elem-append_last a (x ∷ xs) = inr (Elem-append_last a xs)

  pub All-Elem : (Q : A → Type 0) (xs : List A) (a : A) → All Q xs → Elem a xs → Q a
  All-Elem Q [] a all h = absurd h
  All-Elem Q (x ∷ xs) a (first, _) (inl e) = subst Q e first
  All-Elem Q (x ∷ xs) a (_, later) (inr h) = All-Elem Q xs a later h

  pub All-map : (Q R : A → Type 0) (xs : List A) → ((a : A) → Q a → R a) → All Q xs → All R xs
  All-map Q R [] f all = tt
  All-map Q R (x ∷ xs) f (first, later) = (f x first, All-map Q R xs f later)
