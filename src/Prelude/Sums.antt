-- ===== src/Prelude/Sums.antt =====
-- A number summed over a list, and a predicate that holds all along it, under changes of one place.
use Prim.Native.Nat.{ℕ, zero, suc, ◌+◌, ◌≤◌}
use mathlib.Core.Path.{◌≡◌, subst}
use mathlib.Core.List.{List, [], ◌∷◌, ◌++◌}
use mathlib.Core.Option.{some}
use native.Mathlib.Omega.{arith}
use chute.Prelude.Tests.{eq_of_some_eq}
use chute.Prelude.Lists.{get_elem?, set, All}

module _ {ℓ} {A : Type ℓ} where
  abbrev pub sum_of : (A → ℕ) → List A → ℕ
  sum_of f [] = 0
  sum_of f (x ∷ xs) = f x + sum_of f xs

module _ {ℓ} {A : Type ℓ} where
  pub sum_of-append : (f : A → ℕ) (xs ys : List A) → sum_of f (xs ++ ys) ≡ sum_of f xs + sum_of f ys
  sum_of-append f [] ys = omega arith
  sum_of-append f (x ∷ xs) ys = omega (arith, sum_of-append f xs ys)

  -- What a change of one place adds to the sum, in both directions.
  pub sum_of-set :
      (f : A → ℕ) (xs : List A) (i : ℕ) (old new : A)
      → get_elem? xs i ≡ some old
      → sum_of f (set xs i new) + f old ≡ sum_of f xs + f new
  sum_of-set f [] i old new h = cc
  sum_of-set f (x ∷ xs) zero old new h = let same : x ≡ old = eq_of_some_eq h in ground arith
  sum_of-set f (x ∷ xs) (suc i) old new h = omega (arith, sum_of-set f xs i old new h)

  pub le-sum_of :
      (f : A → ℕ) (xs : List A) (i : ℕ) (x : A) → get_elem? xs i ≡ some x → f x ≤ sum_of f xs
  le-sum_of f [] i x h = cc
  le-sum_of f (y ∷ xs) zero x h = let same : y ≡ x = eq_of_some_eq h in ground arith
  le-sum_of f (y ∷ xs) (suc i) x h = omega (arith, le-sum_of f xs i x h)

  pub All-set {κ} :
      (P : A → Type κ) (xs : List A) (i : ℕ) {x : A} → All P xs → P x → All P (set xs i x)
  All-set P [] i a p = a
  All-set P (y ∷ xs) zero a p = (p, a.1)
  All-set P (y ∷ xs) (suc i) a p = (a.0, All-set P xs i a.1 p)

  pub All-append {κ} : (P : A → Type κ) (xs ys : List A) → All P xs → All P ys → All P (xs ++ ys)
  All-append P [] ys a b = b
  All-append P (x ∷ xs) ys a b = (a.0, All-append P xs ys a.1 b)

  pub All-get {κ} :
      (P : A → Type κ) (xs : List A) (i : ℕ) {x : A} → All P xs → get_elem? xs i ≡ some x → P x
  All-get P [] i a h = absurd (ground arith)
  All-get P (y ∷ xs) zero a h = subst P (eq_of_some_eq h) a.0
  All-get P (y ∷ xs) (suc i) a h = All-get P xs i a.1 h
