-- ===== src/Device/Agent/Fingerprint.antt =====
-- The fingerprints of agent.rs, by which a redelivered command is told from another one.
use rss_incubator.Base.{◌∷◌, ◌++◌, Text, Bytes, codes, utf8}
use rss_incubator.Crates.{Crates, lower_hex, to_be_bytes}
use rss_incubator.Device.Types.{DeviceCommand}

-- A text and the zero byte that ends it.
abbrev field_bytes : Text → Bytes → Bytes
field_bytes value rest = utf8 value ++ (0 ∷ rest)

module _ ⦃crates : Crates⦄ where
  unfoldable pub command_message : DeviceCommand → Bytes
  command_message c =
      codes "rss.reference-device-agent.command.v1"
      ++ (0
          ∷ field_bytes c.command_id (
              field_bytes c.artifact_id (
                field_bytes c.artifact_digest (
                  field_bytes c.intent_digest (
                    field_bytes c.policy_hash (
                      crates.uuid_bytes c.device_id
                      ++ (crates.uuid_bytes c.authorization_receipt_id
                          ++ (to_be_bytes c.deadline_epoch_seconds
                              ++ (to_be_bytes c.desired_generation
                                  ++ to_be_bytes c.fence_epoch)))))))))

  unfoldable pub command_fingerprint : DeviceCommand → Text
  command_fingerprint c = codes "sha256:" ++ lower_hex (crates.sha256 (command_message c))

  unfoldable pub malformed_fingerprint : Text → Text → Bytes → Text
  malformed_fingerprint topic command_id payload =
      codes "sha256:"
      ++ lower_hex (
          crates.sha256 (
            codes "rss.reference-device-agent.malformed-command.v1"
            ++ (0 ∷ field_bytes topic (field_bytes command_id (crates.sha256 payload)))))
