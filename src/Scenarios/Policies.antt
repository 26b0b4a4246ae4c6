-- ===== src/Scenarios/Policies.antt =====
-- The properties of references and policies at concrete values.
use rss_incubator.Base.{
  ◌≡◌, refl, arith, codes, ok, ◌&&◌, not, [], ◌∷◌, is_ok, all, any, is_control, nat_eq, list_eq,
}
use rss_incubator.Rotation.References.{
  is_whitespace, reference_try_from, reference_try_from_lem, is_nil,
}
use rss_incubator.Rotation.Policy.{
  client_auth, server_auth, key_usage_eq, key_usage_beq, set_of, is_invalid_san, RotationPolicy,
  rotation_policy_try_new,
}
use rss_incubator.Rotation.PolicyLaws.{IsPolicy, try_new-IsPolicy, IsPolicy-try_new}

reference_try_from_lem_example :
    is_ok (reference_try_from (codes "device_ref") (codes "device 1"))
    ≡ not (all is_whitespace (codes "device 1")) && not (any is_control (codes "device 1"))
reference_try_from_lem_example = reference_try_from_lem (codes "device_ref") (codes "device 1")

abbrev sample_policy : RotationPolicy
sample_policy = record {
  key_usages = client_auth ∷ server_auth ∷ [];
  renew_before_seconds = 600;
  sans = codes "a.example" ∷ codes "b.example" ∷ [];
  validity_seconds = 86400;
}

created :
    rotation_policy_try_new
      (client_auth ∷ server_auth ∷ [])
      600
      (codes "a.example" ∷ codes "b.example" ∷ [])
      86400
    ≡ ok sample_policy
unfolding rotation_policy_try_new set_of key_usage_beq is_invalid_san is_nil
created = refl

try_new-IsPolicy_example :
    IsPolicy (client_auth ∷ server_auth ∷ []) 600 (codes "a.example" ∷ codes "b.example" ∷ []) 86400
    × ((sample_policy.key_usages ≡ client_auth ∷ server_auth ∷ [])
        × ((sample_policy.sans ≡ codes "a.example" ∷ codes "b.example" ∷ [])
            × ((sample_policy.renew_before_seconds ≡ 600)
                × (sample_policy.validity_seconds ≡ 86400))))
try_new-IsPolicy_example =
    try_new-IsPolicy (client_auth ∷ server_auth ∷ []) 600
      (codes "a.example" ∷ codes "b.example" ∷ []) 86400 sample_policy created

sample-IsPolicy :
    IsPolicy (client_auth ∷ server_auth ∷ []) 600 (codes "a.example" ∷ codes "b.example" ∷ []) 86400
unfolding key_usage_beq is_invalid_san is_nil
sample-IsPolicy = record {
  some_usage = omega arith;
  usages_once = (refl, (refl, tt));
  at_least = omega arith;
  at_most = omega arith;
  renew_at_least = omega arith;
  renew_within = omega arith;
  few_sans = omega arith;
  sans_once = (refl, (refl, tt));
  sans_valid = refl;
}

IsPolicy-try_new_example :
    rotation_policy_try_new
      (client_auth ∷ server_auth ∷ [])
      600
      (codes "a.example" ∷ codes "b.example" ∷ [])
      86400
    ≡ ok sample_policy
IsPolicy-try_new_example =
    IsPolicy-try_new (client_auth ∷ server_auth ∷ []) 600
      (codes "a.example" ∷ codes "b.example" ∷ []) 86400 sample-IsPolicy
