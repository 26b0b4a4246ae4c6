-- ===== src/Device/State/Hashes.antt =====
-- The three digests of state.rs, each over its own domain prefix.
use rss_incubator.Base.{ℕ, ◌∷◌, ◌++◌, Text, Bytes, codes, utf8}
use rss_incubator.Crates.{Crates, lower_hex, to_be_bytes}

module _ ⦃crates : Crates⦄ where
  -- The kind and the cause are separated by a zero byte.
  unfoldable pub event_message : Text → Text → Bytes
  event_message kind command_id =
      codes "rss.reference-device-agent.event.v1" ++ (0 ∷ (utf8 kind ++ (0 ∷ utf8 command_id)))

  unfoldable pub event_id : Text → Text → Text
  event_id kind command_id =
      codes "reference-"
      ++ (kind ++ (codes "-" ++ lower_hex (crates.sha256 (event_message kind command_id))))

  unfoldable pub settlement_token : Text → Text → Text → Text
  settlement_token topic command_id fingerprint =
      event_id (codes "settlement") (topic ++ (0 ∷ (command_id ++ (0 ∷ fingerprint))))

  unfoldable pub state_hash : ℕ → ℕ → ℕ → ℕ → ℕ → ℕ → Text → Text
  state_hash tenant device credential_generation desired_generation fence revision artifact_digest =
      codes "sha256:"
      ++ lower_hex (
          crates.sha256 (
            codes "rss.reference-device-agent.state.v1"
            ++ (0
                ∷ (crates.uuid_bytes tenant
                    ++ (crates.uuid_bytes device
                        ++ (to_be_bytes credential_generation
                            ++ (to_be_bytes desired_generation
                                ++ (to_be_bytes fence
                                    ++ (to_be_bytes revision ++ utf8 artifact_digest)))))))))
