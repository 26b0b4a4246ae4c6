-- ===== src/Rotation/Policy.antt =====
-- `RotationPolicy` of crates/rotation-model/src/lib.rs.
use rss_incubator.Base.{
  ℕ, ◌≡◌, ◌↔◌, Bool, true, false, not, ◌&&◌, ◌||◌, List, [], ◌∷◌, Text, arith, Eq, ◌==◌, nat_eq,
  list_eq, leb, ltb, if◌then◌else◌, is_control, any, length, contains, Result, ok, err,
}
use rss_incubator.Rotation.References.{RotationModelError, invalid_policy, is_nil}

pub data KeyUsage : Type 0 where
  client_auth server_auth : KeyUsage

unfoldable pub key_usage_beq : KeyUsage → KeyUsage → Bool
key_usage_beq client_auth client_auth = true
key_usage_beq client_auth server_auth = false
key_usage_beq server_auth client_auth = false
key_usage_beq server_auth server_auth = true

pub key_usage_beq_iff : (a b : KeyUsage) → (key_usage_beq a b ≡ true) ↔ (a ≡ b)
unfolding key_usage_beq
key_usage_beq_iff client_auth client_auth = ground arith
key_usage_beq_iff client_auth server_auth = ground arith
key_usage_beq_iff server_auth client_auth = ground arith
key_usage_beq_iff server_auth server_auth = ground arith

instance abbrev pub key_usage_eq : Eq KeyUsage
key_usage_eq = record { equal = key_usage_beq; equal_iff = key_usage_beq_iff }

-- `collect::<BTreeSet<_>>`: each item once.
unfoldable pub set_of {ℓ} : {A : Type ℓ} ⦃e : Eq A⦄ → List A → List A
set_of [] = []
set_of (x ∷ xs) = let rest = set_of xs in if contains rest x then rest else x ∷ rest

pub record RotationPolicy : Type 0 where
  pub key_usages : List KeyUsage
  pub renew_before_seconds : ℕ
  pub sans : List Text
  pub validity_seconds : ℕ

unfoldable pub is_invalid_san : Text → Bool
is_invalid_san san = is_nil san || (ltb 253 (length san) || any is_control san)

unfoldable pub rotation_policy_try_new :
    List KeyUsage → ℕ → List Text → ℕ → Result RotationModelError RotationPolicy
rotation_policy_try_new key_usages renew_before_seconds sans validity_seconds =
    let unique_usages = set_of key_usages in
    let unique_sans = set_of sans in
    if length key_usages == 0
      || (not (length unique_usages == length key_usages)
          || (not (leb 300 validity_seconds && leb validity_seconds 31536000)
              || (not (leb 60 renew_before_seconds && ltb renew_before_seconds validity_seconds)
                  || (ltb 32 (length sans)
                      || (not (length unique_sans == length sans) || any is_invalid_san sans)))))
    then err invalid_policy
    else ok (record {
      key_usages = key_usages;
      renew_before_seconds = renew_before_seconds;
      sans = sans;
      validity_seconds = validity_seconds;
    })
