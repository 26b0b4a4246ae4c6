-- ===== src/Rotation/PolicyLaws.antt =====
-- What `RotationPolicy::try_new` accepts.
use rss_incubator.Base.{
  ℕ, ◌≤◌, ◌<◌, ◌≡◌, refl, false, List, [], ◌∷◌, Text, arith, Eq, nat_eq, list_eq, any, length,
  contains, Distinct, ok, eq_of_==,
}
use rss_incubator.Rotation.Policy.{
  KeyUsage, key_usage_eq, set_of, RotationPolicy, is_invalid_san, rotation_policy_try_new,
}

module _ {ℓ} {A : Type ℓ} ⦃e : Eq A⦄ where
  contains-set_of : (xs : List A) (x : A) → contains (set_of xs) x ≡ contains xs x
  unfolding set_of
  contains-set_of [] x = refl
  contains-set_of (y ∷ ys) x =
      ground (arith, contains-set_of ys x, contains-set_of ys y, eq_of_== y x)

  length-set_of : (xs : List A) → length (set_of xs) ≤ length xs
  unfolding set_of
  length-set_of [] = omega arith
  length-set_of (x ∷ xs) = ground (arith, length-set_of xs)

  -- The set has as many items as the list exactly when the list repeats none.
  set_of-Distinct : (xs : List A) → length (set_of xs) ≡ length xs → Distinct xs
  unfolding set_of
  set_of-Distinct [] h = tt
  set_of-Distinct (x ∷ xs) h =
      ground (arith, length-set_of xs, contains-set_of xs x, set_of-Distinct xs)

  Distinct-set_of : (xs : List A) → Distinct xs → length (set_of xs) ≡ length xs
  unfolding set_of
  Distinct-set_of [] d = refl
  Distinct-set_of (x ∷ xs) d = ground (arith, contains-set_of xs x, Distinct-set_of xs)

-- The constraints of the public contract.
pub record IsPolicy (usages : List KeyUsage) (renew_before : ℕ) (sans : List Text) (validity : ℕ)
    : Type 0 where
  pub some_usage : 0 < length usages
  pub usages_once : Distinct usages
  pub at_least : 300 ≤ validity
  pub at_most : validity ≤ 31536000
  pub renew_at_least : 60 ≤ renew_before
  pub renew_within : renew_before < validity
  pub few_sans : length sans ≤ 32
  pub sans_once : Distinct sans
  pub sans_valid : any is_invalid_san sans ≡ false

module _ (usages : List KeyUsage) (renew_before : ℕ) (sans : List Text) (validity : ℕ) where
  -- A policy that try_new returns keeps what it was given, which meets the constraints: a usage,
  -- no usage or name twice, a validity of 300 to 31536000 seconds, a renewal of at least 60
  -- seconds and less than the validity, at most 32 valid names.
  pub try_new-IsPolicy :
      (policy : RotationPolicy)
      → rotation_policy_try_new usages renew_before sans validity ≡ ok policy
      → IsPolicy usages renew_before sans validity
        × ((policy.key_usages ≡ usages)
            × ((policy.sans ≡ sans)
                × ((policy.renew_before_seconds ≡ renew_before)
                    × (policy.validity_seconds ≡ validity))))
  unfolding rotation_policy_try_new
  try_new-IsPolicy policy h = ground (arith, set_of-Distinct usages, set_of-Distinct sans)

  -- try_new accepts every policy that meets the constraints and keeps what it was given.
  pub IsPolicy-try_new :
      IsPolicy usages renew_before sans validity
      → rotation_policy_try_new usages renew_before sans validity
        ≡ ok (record {
          key_usages = usages;
          renew_before_seconds = renew_before;
          sans = sans;
          validity_seconds = validity;
        })
  unfolding rotation_policy_try_new
  IsPolicy-try_new v = ground (
    arith,
    v.some_usage,
    v.at_least,
    v.at_most,
    v.renew_at_least,
    v.renew_within,
    v.few_sans,
    v.sans_valid,
    Distinct-set_of usages v.usages_once,
    Distinct-set_of sans v.sans_once,
  )
