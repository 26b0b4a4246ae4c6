-- ===== src/Device/Assertion/Laws.antt =====
-- What a verified assertion says of the frame, and that the signed bytes determine what they sign.
use rss_incubator.Base.{
  utf8_injective, ◌≡◌, ◌↔◌, ◌∙◌, sym, ap, inl, inr, true, false, some, Text, Bytes, arith, nat_eq,
  list_eq, eq_of_==, ==_refl, Option-cases, length, ok, Result-cases,
}
use rss_incubator.Crates.{Crates}
use rss_incubator.Device.Types.{DeviceIdentity, principal_urn}
use rss_incubator.Device.Assertion.{
  Signatures, assertion_domain, BrokerPublishFrame, assertion_properties, signed_fields,
  canonical_bytes, verify_assertion,
}
use rss_incubator.Device.Assertion.Fields.{
  append_fields-encoded, cons_split, encoded_split, prefix_split, head_split, flag_injective,
}

module _ ⦃crates : Crates⦄ where
  fields_split :
      (principal principal' : Text) (frame frame' : BrokerPublishFrame)
      → signed_fields principal frame ≡ signed_fields principal' frame'
      → (principal ≡ principal')
        × (frame.topic ≡ frame'.topic)
        × (frame.correlation ≡ frame'.correlation)
        × (crates.sha256 frame.payload ≡ crates.sha256 frame'.payload)
        × (frame.qos ≡ frame'.qos)
        × (frame.retain ≡ frame'.retain)
  unfolding signed_fields
  fields_split principal principal' frame frame' h =
      let (v, h1) = head_split _ _ _ _ h in
      let (p, h2) = head_split _ _ _ _ h1 in
      let (t, h3) = head_split _ _ _ _ h2 in
      let (c, h4) = head_split _ _ _ _ h3 in
      let (d, h5) = head_split _ _ _ _ h4 in
      let (q, h6) = head_split _ _ _ _ h5 in
      let (r, h7) = head_split _ _ _ _ h6 in
      (
        utf8_injective principal principal' p,
        utf8_injective frame.topic frame'.topic t,
        c,
        d,
        (cons_split _ _ _ _ q).0,
        flag_injective frame.retain frame'.retain (cons_split _ _ _ _ r).0,
      )

  -- The bytes that a broker signs determine what they sign: two frames with the same canonical
  -- bytes have the same principal, topic and correlation, the same digest of the payload, the
  -- same quality of service and the same retain flag.
  pub canonical_bytes_injective :
      (principal principal' : Text) (frame frame' : BrokerPublishFrame) (b : Bytes)
      → canonical_bytes principal frame ≡ ok b
      → canonical_bytes principal' frame' ≡ ok b
      → (principal ≡ principal')
        × (frame.topic ≡ frame'.topic)
        × (frame.correlation ≡ frame'.correlation)
        × (crates.sha256 frame.payload ≡ crates.sha256 frame'.payload)
        × (frame.qos ≡ frame'.qos)
        × (frame.retain ≡ frame'.retain)
  unfolding canonical_bytes
  canonical_bytes_injective principal principal' frame frame' b h k =
      let (whole, short) =
        append_fields-encoded assertion_domain (signed_fields principal frame) b h in
      let (whole', short') =
        append_fields-encoded assertion_domain (signed_fields principal' frame') b k in
      fields_split principal principal' frame frame' (
        encoded_split (signed_fields principal frame) (signed_fields principal' frame') short short'
          (prefix_split assertion_domain _ _ (sym whole ∙ whole')))

  -- What is verified: a command frame for the device, under a signature of the broker.
  pub record IsVerified (signatures : Signatures) (public_key : Bytes) (identity : DeviceIdentity)
      (frame : BrokerPublishFrame) : Type 0 where
    pub once : frame.qos ≡ 1
    pub fresh : frame.retain ≡ false
    pub text : Text
    pub asserted :
        assertion_properties frame.properties
        ≡ ok (record { principal = principal_urn identity; signature = text })
    pub signature : Bytes
    pub decoded : signatures.decode text ≡ some signature
    pub size : length signature ≡ 64
    pub signed : Bytes
    pub canonical : canonical_bytes (principal_urn identity) frame ≡ ok signed
    pub verified : signatures.verify_signature public_key signed signature ≡ true

  verify_assertion-IsVerified :
      (signatures : Signatures) (public_key : Bytes) (identity : DeviceIdentity)
      (frame : BrokerPublishFrame)
      → verify_assertion signatures public_key identity frame ≡ ok tt
      → IsVerified signatures public_key identity frame
  unfolding verify_assertion
  verify_assertion-IsVerified signatures public_key identity frame h =
      elim (Result-cases (assertion_properties frame.properties)) [
        | inr (x, e) ↦ ground (arith, h, e)
        | inl (a, e) ↦ elim (Option-cases (signatures.decode a.signature)) [
          | inl d ↦ ground (arith, h, e, d)
          | inr (signature, d) ↦ elim (Result-cases (canonical_bytes a.principal frame)) [
            | inr (x, c) ↦ ground (arith, h, e, d, c)
            | inl (signed, c) ↦
                let p =
                  eq_of_== a.principal (principal_urn identity) (ground (arith, h, e, d, c)) in
                record {
                  once = ground (arith, h, e, d, c);
                  fresh = ground (arith, h, e, d, c);
                  text = a.signature;
                  asserted = e ∙ ap (λ x. ok (record { principal = x; signature = a.signature })) p;
                  signature = signature;
                  decoded = d;
                  size = ground (arith, h, e, d, c);
                  signed = signed;
                  canonical = ap (λ x. canonical_bytes x frame) (sym p) ∙ c;
                  verified = ground (arith, h, e, d, c);
                }
          ]
        ]
      ]

  IsVerified-verify_assertion :
      (signatures : Signatures) (public_key : Bytes) (identity : DeviceIdentity)
      (frame : BrokerPublishFrame)
      → IsVerified signatures public_key identity frame
      → verify_assertion signatures public_key identity frame ≡ ok tt
  unfolding verify_assertion
  IsVerified-verify_assertion signatures public_key identity frame v = ground (
    arith,
    v.once,
    v.fresh,
    v.asserted,
    v.decoded,
    v.size,
    v.canonical,
    v.verified,
    ==_refl (principal_urn identity),
  )

  -- An assertion is verified exactly when the frame has quality of service 1 and is not
  -- retained, its reserved properties assert the principal of the device, and the decoded
  -- signature has 64 bytes and is one of the canonical bytes of the frame under the public key.
  pub verify_assertion_lem :
      (signatures : Signatures) (public_key : Bytes) (identity : DeviceIdentity)
      (frame : BrokerPublishFrame)
      → (verify_assertion signatures public_key identity frame ≡ ok tt)
        ↔ IsVerified signatures public_key identity frame
  verify_assertion_lem signatures public_key identity frame = (
    verify_assertion-IsVerified signatures public_key identity frame,
    IsVerified-verify_assertion signatures public_key identity frame,
  )
