-- ===== src/Device/Types.antt =====
-- crates/reference-device-agent-core/src/types.rs: identities, topics, references and the values
-- that the agent exchanges. A non-zero integer is a plain number, checked where the source
-- constructs it.
use rss_incubator.Base.{
  ℕ, ◌++◌, Bool, not, ◌&&◌, ◌||◌, Option, ◌∷◌, [], Text, Result, ok, err, ◌==◌, nat_eq, list_eq,
  leb, if◌then◌else◌, length, all, any, drop, codes, utf8, starts_with, is_control, decimal, ℤ,
}
use rss_incubator.Crates.{Crates}

pub data ValueError : Type 0 where
  zero_value invalid_artifact_id invalid_client_id invalid_host invalid_port : ValueError
  invalid_command_id invalid_digest nil_tenant nil_device : ValueError

unfoldable pub credential_generation_try_from : ℕ → Result ValueError ℕ
credential_generation_try_from value = if value == 0 then err zero_value else ok value

pub record DeviceIdentity : Type 0 where
  pub tenant : ℕ
  pub device : ℕ
  pub credential_generation : ℕ

unfoldable pub device_identity_try_new : ℕ → ℕ → ℕ → Result ValueError DeviceIdentity
device_identity_try_new tenant device generation =
    if tenant == 0
    then err nil_tenant
    else if device == 0
    then err nil_device
    else ok (record { tenant = tenant; device = device; credential_generation = generation })

pub record TopicSet : Type 0 where
  pub identity : DeviceIdentity
  pub command : Text
  pub command_acknowledged : Text
  pub certificate_reported : Text

abbrev command_contract : Text
command_contract = codes "identity.commands.apply-device-certificate"

abbrev ack_contract : Text
ack_contract = codes "identity.device-command-acked"

abbrev report_contract : Text
report_contract = codes "identity.device-certificate-reported"

module _ ⦃crates : Crates⦄ where
  unfoldable pub principal_urn : DeviceIdentity → Text
  principal_urn identity =
      codes "urn:rss:mqtt-device:v1:"
      ++ (crates.hyphenated identity.tenant
          ++ (codes ":"
              ++ (crates.hyphenated identity.device
                  ++ (codes ":" ++ decimal identity.credential_generation))))

  unfoldable pub mqtt_client_id : DeviceIdentity → Text
  mqtt_client_id identity =
      codes "rss-reference-device-"
      ++ (crates.hyphenated identity.tenant ++ (codes "-" ++ crates.hyphenated identity.device))

  topic_prefix : DeviceIdentity → Text
  topic_prefix identity =
      codes "rss/v1/"
      ++ (crates.hyphenated identity.tenant
          ++ (codes "/"
              ++ (crates.hyphenated identity.device
                  ++ (codes "/" ++ (decimal identity.credential_generation ++ codes "/")))))

  unfoldable pub topic_set_new : DeviceIdentity → TopicSet
  unfolding topic_prefix
  topic_set_new identity =
      let prefix = topic_prefix identity in
      record {
        identity = identity;
        command = prefix ++ (codes "downlink/" ++ command_contract);
        command_acknowledged = prefix ++ (codes "uplink/" ++ ack_contract);
        certificate_reported = prefix ++ (codes "uplink/" ++ report_contract);
      }

unfoldable pub accepts_command : TopicSet → Text → Bool
accepts_command topics topic = topic == topics.command

pub record RecoveryCommandScope : Type 0 where
  pub identity : DeviceIdentity
  pub topic : Text
  pub command_id : Text

-- `str::contains`.
unfoldable pub contains_text : Text → Text → Bool
contains_text [] pattern_text = starts_with [] pattern_text
contains_text (c ∷ s) pattern_text =
    starts_with (c ∷ s) pattern_text || contains_text s pattern_text

unfoldable pub artifact_id_try_from : Text → Result ValueError Text
unfolding contains_text
artifact_id_try_from value =
    let valid_length = leb 16 (length value) && leb (length value) 256 in
    let invalid_character = any (λ c. is_control c || (c == b'/' || c == b'\\')) value in
    if not valid_length || (invalid_character || contains_text value (codes ".."))
    then err invalid_artifact_id
    else ok value

-- An ASCII digit or a lowercase letter from `a` to `f`.
unfoldable pub is_hex_byte : ℕ → Bool
is_hex_byte b = leb b'0' b && leb b b'9' || leb b'a' b && leb b b'f'

unfoldable pub sha256_digest_valid : Text → Bool
unfolding is_hex_byte
sha256_digest_valid value =
    length (utf8 value) == 71
    && (starts_with value (codes "sha256:") && all is_hex_byte (drop 7 (utf8 value)))

unfoldable pub sha256_digest_try_from : Text → Result ValueError Text
sha256_digest_try_from value = if sha256_digest_valid value then ok value else err invalid_digest

unfoldable pub command_id_try_from : Text → Result ValueError Text
command_id_try_from value =
    if leb 1 (length value) && (leb (length value) 256 && not (any is_control value))
    then ok value
    else err invalid_command_id

pub record DeviceCommand : Type 0 where
  pub command_id : Text
  pub device_id : ℕ
  pub artifact_id : Text
  pub artifact_digest : Text
  pub authorization_receipt_id : ℕ
  pub deadline_epoch_seconds : ℕ
  pub desired_generation : ℕ
  pub fence_epoch : ℕ
  pub intent_digest : Text
  pub policy_hash : Text

pub data CommandRejection : Type 0 where
  artifact_unavailable artifact_digest_mismatch policy_rejected : CommandRejection
  generation_stale fence_epoch_stale malformed_command device_failure : CommandRejection

pub data ApplyOutcome : Type 0 where
  accepted duplicate : ApplyOutcome
  rejected : CommandRejection → ApplyOutcome

pub record AckFact : Type 0 where
  pub command_id : Text
  pub desired_generation : ℕ
  pub fence_epoch : ℕ
  pub device_sequence : ℕ
  pub observed_at : ℤ
  pub rejection : Option CommandRejection

pub record ReportFact : Type 0 where
  pub observed_generation : ℕ
  pub fence_epoch : ℕ
  pub device_sequence : ℕ
  pub observed_at : ℤ
  pub state_hash : Text
  pub artifact_digest : Text
  pub expires_at : Option ℤ

pub data OutboundFact : Type 0 where
  command_acknowledged : Text → AckFact → OutboundFact
  certificate_reported : Text → ReportFact → OutboundFact

unfoldable pub outbound_event_id : OutboundFact → Text
outbound_event_id (command_acknowledged event_id payload) = event_id
outbound_event_id (certificate_reported event_id payload) = event_id
