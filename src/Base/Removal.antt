-- ===== src/Base/Removal.antt =====
-- A list from which one item was removed, and what that leaves.
use Prim.Native.Nat.{suc}
use mathlib.Core.Path.{◌≡◌, refl}
use mathlib.Core.Bool.{Bool, false, ◌||◌}
use mathlib.Core.List.{List, ◌∷◌, map}
use native.Mathlib.Omega.{arith}
use rss_incubator.Base.Tests.{Eq, ◌==◌}
use rss_incubator.Base.Lists.{All, any, count_if, length, contains, Distinct}
use rss_incubator.Base.Sets.{==_sym}

-- `Taken a rest xs`: `xs` is `rest` with `a` at one place.
pub data Taken {ℓ} {A : Type ℓ} (a : A) : List A → List A → Type ℓ where
  here : {xs : List A} → Taken a xs (a ∷ xs)
  there : {x : A} {rest xs : List A} → Taken a rest xs → Taken a (x ∷ rest) (x ∷ xs)

module _ {ℓ} {A : Type ℓ} where
  pub Taken-any :
      (p : A → Bool) {a : A} {rest xs : List A} → Taken a rest xs → any p xs ≡ p a || any p rest
  Taken-any p here = refl
  Taken-any p (there t) = ground (arith, Taken-any p t)

  pub Taken-count_if :
      (p : A → Bool) {a : A} {rest xs : List A}
      → Taken a rest xs
      → count_if p xs ≡ count_if p (a ∷ rest)
  Taken-count_if p here = refl
  Taken-count_if p (there t) = ground (arith, Taken-count_if p t)

  pub Taken-length : {a : A} {rest xs : List A} → Taken a rest xs → length xs ≡ suc (length rest)
  Taken-length here = refl
  Taken-length (there t) = omega (arith, Taken-length t)

  pub Taken-All {κ} :
      (P : A → Type κ) {a : A} {rest xs : List A} → Taken a rest xs → All P xs → P a × All P rest
  Taken-All P here h = h
  Taken-All P (there t) h = let (p, q) = Taken-All P t h.1 in (p, (h.0, q))

  pub Taken-contains {κ} :
      {B : Type κ} ⦃e : Eq B⦄ (f : A → B) {a : A} {rest xs : List A} (b : B)
      → Taken a rest xs
      → contains (map f xs) b ≡ f a == b || contains (map f rest) b
  Taken-contains f b here = refl
  Taken-contains f b (there t) = ground (arith, Taken-contains f b t)

  -- What is removed from distinct items is not among the others, which stay distinct.
  pub Taken-Distinct {κ} :
      {B : Type κ} ⦃e : Eq B⦄ (f : A → B) {a : A} {rest xs : List A}
      → Taken a rest xs
      → Distinct (map f xs)
      → (contains (map f rest) (f a) ≡ false) × Distinct (map f rest)
  Taken-Distinct f here h = h
  Taken-Distinct f {a} (there {x = x} t) h =
      ground (arith, Taken-contains f (f x) t, ==_sym (f a) (f x), Taken-Distinct f t h.1)
