-- ===== src/Base/Sets.antt =====
-- Sets as lists of what was inserted: the loops of the source insert each item and stop at a repeat.
use mathlib.Core.Path.{◌≡◌, refl}
use mathlib.Core.Bool.{Bool, true, false, ◌||◌}
use mathlib.Core.List.{List, [], ◌∷◌, ◌++◌, map}
use native.Mathlib.Omega.{arith}
use rss_incubator.Base.Tests.{Eq, ◌==◌}
use rss_incubator.Base.Lists.{All, contains, Distinct, any, retain}

pub ==_sym {ℓ} : {A : Type ℓ} ⦃e : Eq A⦄ (a b : A) → (a == b) ≡ (b == a)
==_sym ⦃e⦄ a b = ground (arith, e.equal_iff a b, e.equal_iff b a)

module _ {ℓ} {A : Type ℓ} ⦃e : Eq A⦄ where
  -- None of the items was seen before.
  abbrev pub Fresh : List A → List A → Type 0
  Fresh seen ys = All (λ y. contains seen y ≡ false) ys

  pub Fresh-cons :
      (x : A) (seen ys : List A) → Fresh (x ∷ seen) ys → (contains ys x ≡ false) × Fresh seen ys
  Fresh-cons x seen [] h = (refl, tt)
  Fresh-cons x seen (y ∷ ys) h = ground (arith, ==_sym x y, Fresh-cons x seen ys)

  pub cons-Fresh :
      (x : A) (seen ys : List A) → contains ys x ≡ false → Fresh seen ys → Fresh (x ∷ seen) ys
  cons-Fresh x seen [] p h = tt
  cons-Fresh x seen (y ∷ ys) p h = ground (arith, ==_sym x y, cons-Fresh x seen ys)

  pub nil-Fresh : (ys : List A) → Fresh [] ys
  nil-Fresh [] = tt
  nil-Fresh (y ∷ ys) = (refl, nil-Fresh ys)

  pub contains-append :
      (xs ys : List A) (a : A) → contains (xs ++ ys) a ≡ contains xs a || contains ys a
  contains-append [] ys a = refl
  contains-append (x ∷ xs) ys a = ground (arith, contains-append xs ys a)

  -- A new item at the end keeps the items distinct.
  pub Distinct-snoc :
      (xs : List A) (a : A) → Distinct xs → contains xs a ≡ false → Distinct (xs ++ a ∷ [])
  Distinct-snoc [] a d h = (refl, tt)
  Distinct-snoc (x ∷ xs) a d h =
      ground (arith, ==_sym a x, contains-append xs (a ∷ []) x, Distinct-snoc xs a)

module _ {ℓ κ} {A : Type ℓ} {B : Type κ} ⦃e : Eq B⦄ (f : A → B) (p : A → Bool) where
  contains-retain :
      (xs : List A) (b : B)
      → contains (map f xs) b ≡ false
      → contains (map f (retain p xs)) b ≡ false
  contains-retain [] b h = refl
  contains-retain (x ∷ xs) b h = ground (arith, contains-retain xs b)

  -- Items that are removed leave the others distinct.
  pub Distinct-retain : (xs : List A) → Distinct (map f xs) → Distinct (map f (retain p xs))
  Distinct-retain [] h = tt
  Distinct-retain (x ∷ xs) h = ground (arith, contains-retain xs (f x), Distinct-retain xs)

pub any-retain {ℓ} :
    {A : Type ℓ} (f p : A → Bool) (xs : List A)
    → ((x : A) → f x ≡ true → p x ≡ true)
    → any f xs ≡ true
    → any f (retain p xs) ≡ true
any-retain f p [] k h = h
any-retain f p (x ∷ xs) k h = ground (arith, k x, any-retain f p xs k)

pub any-contains {ℓ κ} :
    {A : Type ℓ} {B : Type κ} ⦃e : Eq B⦄ (f : A → B) (xs : List A) (b : B)
    → any (λ x. f x == b) xs ≡ contains (map f xs) b
any-contains f [] b = refl
any-contains f (x ∷ xs) b = rw (any-contains f xs b)

pub Distinct-snoc₂ {ℓ} :
    {A : Type ℓ} ⦃e : Eq A⦄ (xs : List A) (a b : A)
    → Distinct xs
    → contains xs a ≡ false
    → contains xs b ≡ false
    → (a == b) ≡ false
    → Distinct (xs ++ a ∷ b ∷ [])
Distinct-snoc₂ [] a b d h k ne = ground (arith, ==_sym a b)
Distinct-snoc₂ (x ∷ xs) a b d h k ne =
    ground (arith, ==_sym a x, ==_sym b x, contains-append xs (a ∷ b ∷ []) x, Distinct-snoc₂ xs a b)
