-- ===== src/Scenarios/Deliveries.antt =====
-- A command frame for the sample device that the broker has asserted.
use rss_incubator.Base.{
  ◌≡◌, refl, false, some, none, [], ◌∷◌, codes, utf8, utf8_char, decimal, ok, nat_eq, list_eq,
}
use rss_incubator.Device.Types.{principal_urn, topic_set_new, accepts_command, command_id_try_from}
use rss_incubator.Device.Assertion.{
  version_key, principal_key, signature_key, version, take_property, take_properties,
  assertion_properties, to_be_bytes_u32, append_field, append_fields, signed_fields,
  canonical_bytes, verify_assertion,
}
use rss_incubator.Session.{CommandDelivery}
use rss_incubator.Session.Delivery.{
  Publish, DeliveryScope, recovered_identity, scoped_identity, delivered, command_delivery,
  IsDelivered, command_delivery-IsDelivered,
}
use rss_incubator.Scenarios.Samples.{sample_crates, sample_identity}
use rss_incubator.Scenarios.States.{sample_topic}
use rss_incubator.Scenarios.Assertions.{eight, sample_signatures}

abbrev sample_scope : DeliveryScope
sample_scope = record {
  topics = topic_set_new sample_identity;
  recovery_command = none;
  public_key = eight;
  from_utf8 = λ bytes. some bytes;
}

abbrev sample_publish : Publish
sample_publish = record {
  topic = sample_topic;
  qos = 1;
  retain = false;
  payload = 1 ∷ [];
  correlation = some (codes "c1");
  user_properties =
      (version_key, version)
      ∷ (codes "other", codes "x")
      ∷ (principal_key, principal_urn sample_identity)
      ∷ (signature_key, codes "s")
      ∷ [];
}

abbrev sample_delivery : CommandDelivery
sample_delivery = delivered sample_publish sample_topic (codes "c1") sample_identity

delivers : command_delivery sample_signatures sample_scope sample_publish ≡ ok sample_delivery
unfolding command_delivery scoped_identity recovered_identity accepts_command command_id_try_from
    verify_assertion assertion_properties take_properties take_property canonical_bytes
    append_fields append_field signed_fields to_be_bytes_u32 principal_urn topic_set_new utf8
    utf8_char decimal
delivers = refl

command_delivery-IsDelivered_example :
    IsDelivered sample_signatures sample_scope sample_publish sample_delivery
command_delivery-IsDelivered_example =
    command_delivery-IsDelivered sample_signatures sample_scope sample_publish sample_delivery
      delivers
