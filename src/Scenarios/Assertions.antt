-- ===== src/Scenarios/Assertions.antt =====
-- The assertion of a broker on a command frame of the sample device.
use rss_incubator.Base.{
  ◌≡◌, ◌↔◌, refl, true, false, some, List, [], ◌∷◌, ◌++◌, Text, Bytes, codes, utf8, utf8_char,
  Result, ok, err,
}
use rss_incubator.Device.Assertion.{
  Signatures, BrokerAssertionError, BrokerPublishFrame, version_key, principal_key, signature_key,
  version, to_be_bytes_u32, append_field, append_fields, signed_fields, canonical_bytes,
  verify_assertion,
}
use rss_incubator.Device.Assertion.Laws.{
  IsVerified, canonical_bytes_injective, verify_assertion_lem,
}
use rss_incubator.Scenarios.Samples.{sample_crates, sample_identity}

abbrev pub eight : Bytes
eight = 0 ∷ 1 ∷ 2 ∷ 3 ∷ 4 ∷ 5 ∷ 6 ∷ 7 ∷ []

abbrev sixteen : Bytes
sixteen = eight ++ eight

abbrev pub sample_signatures : Signatures
sample_signatures = record {
  decode = λ text. some (sixteen ++ (sixteen ++ (sixteen ++ sixteen)));
  verify_signature = λ key message signature. true;
}

abbrev sample_frame : List (Text × Text) → BrokerPublishFrame
sample_frame properties = record {
  topic = codes "t";
  payload = 1 ∷ 2 ∷ [];
  correlation = 3 ∷ [];
  qos = 1;
  retain = false;
  properties = properties;
}

abbrev signed_properties : List (Text × Text)
signed_properties =
    (version_key, version) ∷ (principal_key, codes "p") ∷ (signature_key, codes "s") ∷ []

abbrev bytes_of : Result BrokerAssertionError Bytes → Bytes
bytes_of (ok bytes) = bytes
bytes_of (err e) = []

canonical_bytes_injective_example :
    (codes "p" ≡ codes "p")
    × ((sample_frame []).topic ≡ (sample_frame signed_properties).topic)
    × ((sample_frame []).correlation ≡ (sample_frame signed_properties).correlation)
    × (sample_crates.sha256 (sample_frame []).payload
        ≡ sample_crates.sha256 (sample_frame signed_properties).payload)
    × ((sample_frame []).qos ≡ (sample_frame signed_properties).qos)
    × ((sample_frame []).retain ≡ (sample_frame signed_properties).retain)
unfolding canonical_bytes append_fields append_field signed_fields to_be_bytes_u32 utf8 utf8_char
canonical_bytes_injective_example =
    canonical_bytes_injective (codes "p") (codes "p") (sample_frame [])
      (sample_frame signed_properties) (bytes_of (canonical_bytes (codes "p") (sample_frame [])))
      refl refl

verify_assertion_lem_example :
    (verify_assertion sample_signatures eight sample_identity (sample_frame signed_properties)
      ≡ ok tt)
    ↔ IsVerified sample_signatures eight sample_identity (sample_frame signed_properties)
verify_assertion_lem_example =
    verify_assertion_lem sample_signatures eight sample_identity (sample_frame signed_properties)
