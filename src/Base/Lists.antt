-- ===== src/Base/Lists.antt =====
-- Lists measured by native numbers, and predicates over lists by recursion.
use Prim.Native.Nat.{ℕ, zero, suc, ◌+◌}
use mathlib.Core.Path.{◌≡◌, refl}
use mathlib.Core.List.{List, [], ◌∷◌, ◌++◌}
use native.Mathlib.Omega.{arith}

module _ {ℓ} {A : Type ℓ} where
  abbrev pub length : List A → ℕ
  length [] = 0
  length (x ∷ xs) = suc (length xs)

  abbrev pub take : ℕ → List A → List A
  take zero xs = []
  take (suc n) [] = []
  take (suc n) (x ∷ xs) = x ∷ take n xs

  abbrev pub drop : ℕ → List A → List A
  drop zero xs = xs
  drop (suc n) [] = []
  drop (suc n) (x ∷ xs) = drop n xs

  abbrev pub replicate : ℕ → A → List A
  replicate zero a = []
  replicate (suc n) a = a ∷ replicate n a

  abbrev pub All {κ} : (A → Type κ) → List A → Type κ
  All P [] = Unit
  All P (x ∷ xs) = P x × All P xs

module _ {ℓ} {A : Type ℓ} where
  pub length-append : (xs ys : List A) → length (xs ++ ys) ≡ length xs + length ys
  length-append [] ys = omega arith
  length-append (x ∷ xs) ys = omega (arith, length-append xs ys)

  pub length-replicate : (n : ℕ) (a : A) → length (replicate n a) ≡ n
  length-replicate zero a = refl
  length-replicate (suc n) a = omega (arith, length-replicate n a)

module _ {ℓ κ λ' μ} {A : Type ℓ} {P : A → Type κ} {Q : A → Type λ'} {R : A → Type μ} where
  pub All-zip : (xs : List A) → ((a : A) → P a → Q a → R a) → All P xs → All Q xs → All R xs
  All-zip [] f _ _ = tt
  All-zip (x ∷ xs) f (p, ps) (q, qs) = (f x p q, All-zip xs f ps qs)

module _ {ℓ κ μ} {A : Type ℓ} {P : A → Type κ} {R : A → Type μ} where
  pub All-map : (xs : List A) → ((a : A) → P a → R a) → All P xs → All R xs
  All-map [] f _ = tt
  All-map (x ∷ xs) f (p, ps) = (f x p, All-map xs f ps)
