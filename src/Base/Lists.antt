-- ===== src/Base/Lists.antt =====
-- Lists over the native numbers, and the bytes of a text in memory.
use Prim.Native.Nat.{ℕ, zero, suc, ◌+◌, ◌-◌}
use mathlib.Core.Path.{◌≡◌, refl}
use mathlib.Core.List.{List, [], ◌∷◌, ◌++◌}
use mathlib.Core.Option.{Option, none, some}
use mathlib.Core.Logic.{◌⊎◌}
use native.Mathlib.Omega.{arith}
use kirilock.Base.Tests.{ltb, if◌then◌else◌}

module _ {ℓ} {A : Type ℓ} where
  abbrev pub length : List A → ℕ
  length [] = 0
  length (x ∷ xs) = suc (length xs)

  abbrev pub get_elem? : List A → ℕ → Option A
  get_elem? [] i = none
  get_elem? (x ∷ xs) zero = some x
  get_elem? (x ∷ xs) (suc i) = get_elem? xs i

  -- A write out of bounds changes nothing.
  abbrev pub set : List A → ℕ → A → List A
  set [] i v = []
  set (x ∷ xs) zero v = v ∷ xs
  set (x ∷ xs) (suc i) v = x ∷ set xs i v

  -- Without the last element.
  abbrev pub drop_last : List A → List A
  drop_last [] = []
  drop_last (x ∷ []) = []
  drop_last (x ∷ y ∷ xs) = x ∷ drop_last (y ∷ xs)

  pub length-append : (xs ys : List A) → length (xs ++ ys) ≡ length xs + length ys
  length-append [] ys = omega arith
  length-append (x ∷ xs) ys = omega (arith, length-append xs ys)

  pub length-drop_last : (xs : List A) → length (drop_last xs) ≡ length xs - 1
  length-drop_last [] = refl
  length-drop_last (x ∷ []) = refl
  length-drop_last (x ∷ y ∷ xs) = omega (arith, length-drop_last (y ∷ xs))

  -- The sum of a measure over the list, and one element replaced in it.
  abbrev pub total : (A → ℕ) → List A → ℕ
  total f [] = 0
  total f (x ∷ xs) = f x + total f xs

  pub total-set :
      (f : A → ℕ) (xs : List A) (i : ℕ) (a b : A)
      → get_elem? xs i ≡ some a
      → total f (set xs i b) + f a ≡ total f xs + f b
  total-set f [] i a b h = cc
  total-set f (x ∷ xs) zero a b h = ground (arith, h)
  total-set f (x ∷ xs) (suc i) a b h = omega (arith, total-set f xs i a b h)

  -- What was put before the first list to get the second, if one element was.
  abbrev pub news : List A → List A → Option A
  news before [] = none
  news before (x ∷ xs) = if ltb (length before) (length (x ∷ xs)) then some x else none

  -- The second list is the first, or has one element more, before it.
  abbrev pub Tells : List A → List A → Type ℓ
  Tells before later = (later ≡ before) ⊎ ((x : A) × (later ≡ x ∷ before))

  pub news_refl : (xs : List A) → news xs xs ≡ none
  news_refl [] = refl
  news_refl (x ∷ xs) = ground arith

  pub news-cons : (x : A) (xs : List A) → news xs (x ∷ xs) ≡ some x
  news-cons x xs = ground arith
