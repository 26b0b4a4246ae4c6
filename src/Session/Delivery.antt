-- ===== src/Session/Delivery.antt =====
-- `command_delivery` of apps/reference-device-agent/src/mqtt.rs: which publications of the broker reach
-- the driver, and the answers to a subscription and its end that it takes.
use rss_incubator.Base.{
  ℕ, ◌≡◌, refl, ◌⊎◌, inl, inr, Bool, true, ◌&&◌, Option, none, some, List, [], ◌∷◌, Text, Bytes,
  arith, ◌==◌, nat_eq, list_eq, eq_of_==, Bool-cases, Result, ok, err, guard, ok_or, map_err, ◌>>=◌,
  ◌>>◌, >>=-eq-ok, >>-eq-ok, ok_or-eq-ok, map_err-eq-ok, guard-eq-ok, ok-eq-ok, if◌then◌else◌,
}
use rss_incubator.Crates.{Crates}
use rss_incubator.Device.Types.{
  DeviceIdentity, RecoveryCommandScope, TopicSet, accepts_command, command_id_try_from,
}
use rss_incubator.Device.Assertion.{Signatures, BrokerPublishFrame, verify_assertion}
use rss_incubator.Device.Assertion.Laws.{IsVerified, verify_assertion_lem}
use rss_incubator.Session.{
  MqttError, CommandDelivery, invalid_command_frame, subscription_rejected, assertion_rejected,
}

-- `rumqttc::v5::mqttbytes::v5::Publish`, with its correlation data and user properties.
pub record Publish : Type 0 where
  pub topic : Bytes
  pub qos : ℕ
  pub retain : Bool
  pub payload : Bytes
  pub correlation : Option Bytes
  pub user_properties : List (Text × Text)

-- The fields of `MqttSession` that a delivery is checked with, and `str::from_utf8`.
pub record DeliveryScope : Type 0 where
  pub topics : TopicSet
  pub recovery_command : Option RecoveryCommandScope
  pub public_key : Bytes
  pub from_utf8 : Bytes → Option Text

-- `SubscribeReasonCode` and `UnsubAckReason`, as far as the source tells them apart.
pub data SubscribeReasonCode : Type 0 where
  granted : ℕ → SubscribeReasonCode
  refused : SubscribeReasonCode

pub data UnsubAckReason : Type 0 where
  success no_subscription_existed other_reason : UnsubAckReason

unfoldable pub validate_suback : List SubscribeReasonCode → Result MqttError (Unit {0})
validate_suback [] = err subscription_rejected
validate_suback (refused ∷ []) = err subscription_rejected
validate_suback (granted qos ∷ []) = if qos == 1 then ok tt else err subscription_rejected
validate_suback (first ∷ second ∷ rest) = err subscription_rejected

unfoldable pub validate_unsuback : List UnsubAckReason → Result MqttError (Unit {0})
validate_unsuback [] = err subscription_rejected
validate_unsuback (success ∷ []) = ok tt
validate_unsuback (no_subscription_existed ∷ []) = ok tt
validate_unsuback (other_reason ∷ []) = err subscription_rejected
validate_unsuback (first ∷ second ∷ rest) = err subscription_rejected

unfoldable pub recovered_identity :
    Option RecoveryCommandScope → Text → Text → Result MqttError DeviceIdentity
recovered_identity none topic command_id = err invalid_command_frame
recovered_identity (some scope) topic command_id =
    if scope.topic == topic && scope.command_id == command_id
    then ok scope.identity
    else err invalid_command_frame

-- The identity that a topic stands for: the session's own, or that of the awaited delivery.
unfoldable pub scoped_identity : DeliveryScope → Text → Text → Result MqttError DeviceIdentity
unfolding recovered_identity
scoped_identity scope topic command_id =
    if accepts_command scope.topics topic
    then ok scope.topics.identity
    else recovered_identity scope.recovery_command topic command_id

abbrev pub frame_of : Publish → Text → Bytes → BrokerPublishFrame
frame_of publish topic correlation = record {
  topic = topic;
  payload = publish.payload;
  correlation = correlation;
  qos = 1;
  retain = publish.retain;
  properties = publish.user_properties;
}

abbrev pub delivered : Publish → Text → Text → DeviceIdentity → CommandDelivery
delivered publish topic command_id identity = record {
  topic = topic;
  command_id = command_id;
  identity = identity;
  payload = publish.payload;
}

module _ ⦃crates : Crates⦄ (signatures : Signatures) (scope : DeliveryScope) where
  unfoldable pub command_delivery : Publish → Result MqttError CommandDelivery
  command_delivery publish = do
    topic ← ok_or (scope.from_utf8 publish.topic) invalid_command_frame
    guard (publish.qos == 1) invalid_command_frame
    correlation ← ok_or publish.correlation invalid_command_frame
    command_id ← ok_or (scope.from_utf8 correlation) invalid_command_frame
    checked ← map_err (λ e. invalid_command_frame) (command_id_try_from command_id)
    identity ← scoped_identity scope topic command_id
    map_err (λ e. assertion_rejected)
        (verify_assertion signatures scope.public_key identity (frame_of publish topic correlation))
    ok (delivered publish topic command_id identity)

  -- A delivery that reaches the driver: correlated, in scope, and asserted by the broker.
  pub record IsDelivered (publish : Publish) (delivery : CommandDelivery) : Type 0 where
    pub once : (publish.qos == 1) ≡ true
    pub correlation : Bytes
    pub correlated : publish.correlation ≡ some correlation
    pub command_id : Text
    pub read : scope.from_utf8 correlation ≡ some command_id
    pub named : command_id_try_from command_id ≡ ok command_id
    pub topic : Text
    pub topic_read : scope.from_utf8 publish.topic ≡ some topic
    pub identity : DeviceIdentity
    pub in_scope :
        ((topic ≡ scope.topics.command) × (identity ≡ scope.topics.identity))
        ⊎ ((s : RecoveryCommandScope) × (scope.recovery_command ≡ some s)
            × (s.topic ≡ topic)
            × (s.command_id ≡ command_id)
            × (s.identity ≡ identity))
    pub asserted :
        IsVerified signatures scope.public_key identity (frame_of publish topic correlation)
    pub made : delivered publish topic command_id identity ≡ delivery

  recovered :
      (o : Option RecoveryCommandScope) (topic command_id : Text) (identity : DeviceIdentity)
      → recovered_identity o topic command_id ≡ ok identity
      → (s : RecoveryCommandScope) × (o ≡ some s)
        × (s.topic ≡ topic)
        × (s.command_id ≡ command_id)
        × (s.identity ≡ identity)
  unfolding recovered_identity
  recovered none topic command_id identity h = cc
  recovered (some s) topic command_id identity h =
      elim (Bool-cases (s.topic == topic && s.command_id == command_id)) [
        | inr e ↦ ground (arith, h, e)
        | inl e ↦ (
          s,
          refl,
          eq_of_== s.topic topic (ground (arith, e)),
          eq_of_== s.command_id command_id (ground (arith, e)),
          ground (arith, h, e),
        )
      ]

  scoped :
      (topic command_id : Text) (identity : DeviceIdentity)
      → scoped_identity scope topic command_id ≡ ok identity
      → ((topic ≡ scope.topics.command) × (identity ≡ scope.topics.identity))
        ⊎ ((s : RecoveryCommandScope) × (scope.recovery_command ≡ some s)
            × (s.topic ≡ topic)
            × (s.command_id ≡ command_id)
            × (s.identity ≡ identity))
  unfolding scoped_identity accepts_command
  scoped topic command_id identity h = elim (Bool-cases (topic == scope.topics.command)) [
    | inl e ↦ inl (eq_of_== topic scope.topics.command e, ground (arith, h, e))
    | inr e ↦
        inr (recovered scope.recovery_command topic command_id identity (ground (arith, h, e)))
  ]

  named_same :
      (id checked : Text) → command_id_try_from id ≡ ok checked → command_id_try_from id ≡ ok id
  unfolding command_id_try_from
  named_same id checked h = ground (arith, h)

  -- A publication of the broker that reaches the driver has quality of service 1, a correlation
  -- that is a command id, and a topic in scope: the command topic of the session with its own
  -- identity, or exactly the topic and command id of the awaited delivery with the identity of
  -- that one; the broker has asserted the frame for this identity, and the delivery carries what
  -- was asserted.
  pub command_delivery-IsDelivered :
      (publish : Publish) (delivery : CommandDelivery)
      → command_delivery publish ≡ ok delivery
      → IsDelivered publish delivery
  unfolding command_delivery
  command_delivery-IsDelivered publish delivery h =
      let (topic, t, h1) =
        >>=-eq-ok (ok_or (scope.from_utf8 publish.topic) invalid_command_frame) _ h in
      let (q, h2) = >>-eq-ok (guard (publish.qos == 1) invalid_command_frame) _ h1 in
      let (correlation, c, h3) = >>=-eq-ok (ok_or publish.correlation invalid_command_frame) _ h2 in
      let (command_id, i, h4) =
        >>=-eq-ok (ok_or (scope.from_utf8 correlation) invalid_command_frame) _ h3 in
      let (checked, n, h5) =
        >>=-eq-ok (map_err (λ e. invalid_command_frame) (command_id_try_from command_id)) _ h4 in
      let (identity, s, h6) = >>=-eq-ok (scoped_identity scope topic command_id) _ h5 in
      let (v, h7) =
        >>-eq-ok
          (map_err (λ e. assertion_rejected)
            (verify_assertion signatures scope.public_key identity
              (frame_of publish topic correlation)))
          _ h6 in
      record {
        once = guard-eq-ok (publish.qos == 1) invalid_command_frame q;
        correlation = correlation;
        correlated = ok_or-eq-ok publish.correlation invalid_command_frame c;
        command_id = command_id;
        read = ok_or-eq-ok (scope.from_utf8 correlation) invalid_command_frame i;
        named =
            named_same command_id checked
              (map_err-eq-ok (λ e. invalid_command_frame) (command_id_try_from command_id) n);
        topic = topic;
        topic_read = ok_or-eq-ok (scope.from_utf8 publish.topic) invalid_command_frame t;
        identity = identity;
        in_scope = scoped topic command_id identity s;
        asserted =
            (verify_assertion_lem signatures scope.public_key identity
                (frame_of publish topic correlation)).0
              (map_err-eq-ok (λ e. assertion_rejected)
                (verify_assertion signatures scope.public_key identity
                  (frame_of publish topic correlation))
                v);
        made = ok-eq-ok {E = MqttError} (delivered publish topic command_id identity) delivery h7;
      }
