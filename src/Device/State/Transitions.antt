-- ===== src/Device/State/Transitions.antt =====
-- The operations of state.rs that record a command: `accept`, `reject`,
-- `reject_conflicting_replay` and `replay_command`.
use rss_incubator.Base.{
  ℕ, Bool, true, false, ◌&&◌, none, some, [], ◌∷◌, ◌++◌, Text, ℤ, ◌==◌, nat_eq, list_eq,
  saturating_add, find, Result, ok, ok_or, ◌>>=◌, codes,
}
use rss_incubator.Crates.{Crates}
use rss_incubator.Device.Types.{DeviceIdentity, topic_set_new}
use rss_incubator.Device.State.Rejection.{StoredRejection, stored_rejection_from}
use rss_incubator.Device.State.Stored.{
  StateV1, StoredAck, StoredReport, StoredCommand, StoredInboundSettlement, AcceptedCommand,
  RejectedCommand, StoreError, ack, report_blocked, invalid_state,
}
use rss_incubator.Device.State.Hashes.{event_id, settlement_token, state_hash}
use rss_incubator.Device.State.Verify.{current_identity}

next_sequence : StateV1 → ℕ
next_sequence s = saturating_add s.device_sequence 1

-- The acknowledgement, the report and the pending settlement that an accepted command leaves.
abbrev pub accepted_ack : AcceptedCommand → ℕ → StoredAck
accepted_ack c ack_sequence = record {
  command_id = c.command_id;
  event_cause = c.command_id;
  desired_generation = c.generation;
  fence_epoch = c.fence;
  device_sequence = ack_sequence;
  observed_at = c.observed_at;
  rejection = none;
  activates_revision = some c.revision;
  settled_replay = false;
}

abbrev pub rejected_ack : RejectedCommand → ℕ → StoredAck
rejected_ack c ack_sequence = record {
  command_id = c.command_id;
  event_cause = c.command_id;
  desired_generation = c.generation;
  fence_epoch = c.fence;
  device_sequence = ack_sequence;
  observed_at = c.observed_at;
  rejection = some (stored_rejection_from c.rejection);
  activates_revision = none;
  settled_replay = false;
}

-- The cause of a conflicting replay's event: the command, a zero and the other fingerprint.
abbrev pub replay_cause : Text → Text → Text
replay_cause command_id fingerprint = command_id ++ (0 ∷ fingerprint)

abbrev pub conflict_ack : Text → Text → ℕ → ℕ → ℤ → ℕ → StoredAck
conflict_ack command_id fingerprint generation fence observed_at ack_sequence = record {
  command_id = command_id;
  event_cause = replay_cause command_id fingerprint;
  desired_generation = generation;
  fence_epoch = fence;
  device_sequence = ack_sequence;
  observed_at = observed_at;
  rejection = some StoredRejection.malformed_command;
  activates_revision = none;
  settled_replay = false;
}

abbrev pub journal_entry : Text → Text → StoredAck → ℕ → StoredCommand
journal_entry command_id fingerprint acknowledgement retain_until = record {
  command_id = command_id;
  fingerprint = fingerprint;
  acknowledgement = acknowledgement;
  retain_until_epoch_seconds = retain_until;
}

-- A replayed acceptance no longer activates its revision.
unfoldable pub replayed_ack : StoredAck → StoredAck
replayed_ack a = elim a.rejection [
  | none ↦ record a { activates_revision = none; settled_replay = true }
  | some r ↦ a
]

module _ ⦃crates : Crates⦄ where
  abbrev pub accepted_report : StateV1 → AcceptedCommand → ℕ → StoredReport
  accepted_report s c report_sequence = record {
    command_id = c.command_id;
    observed_generation = c.generation;
    fence_epoch = c.fence;
    device_sequence = report_sequence;
    observed_at = c.observed_at;
    state_hash =
        state_hash s.identity.tenant_id s.identity.device_id c.credential_generation c.generation
          c.fence c.revision c.artifact_digest;
    artifact_digest = c.artifact_digest;
    expires_at = some c.expires_at;
    credential_generation = c.credential_generation;
    credential_revision = c.revision;
  }

  abbrev pub accepted_settlement : DeviceIdentity → AcceptedCommand → StoredInboundSettlement
  accepted_settlement previous c = record {
    topic = (topic_set_new previous).command;
    command_id = c.command_id;
    fingerprint = c.fingerprint;
    credential_generation = previous.credential_generation;
    settlement_token = settlement_token (topic_set_new previous).command c.command_id c.fingerprint;
    settled = false;
  }

  unfoldable pub accepted_state : StateV1 → AcceptedCommand → DeviceIdentity → StateV1
  accepted_state s c previous =
      let ack_sequence = saturating_add s.device_sequence 1 in
      let report_sequence = saturating_add ack_sequence 1 in
      let acknowledgement = accepted_ack c ack_sequence in
      record s {
        identity = record s.identity { credential_generation = c.credential_generation };
        current = record {
          desired_generation = c.generation;
          fence_epoch = c.fence;
          credential_revision = c.revision;
          artifact_digest = c.artifact_digest;
          expires_at = c.expires_at;
        };
        device_sequence = report_sequence;
        command_journal =
            s.command_journal
            ++ journal_entry c.command_id c.fingerprint acknowledgement c.retain_until_epoch_seconds
              ∷ [];
        outbox =
            s.outbox
            ++ ack (event_id (codes "ack") c.command_id) acknowledgement
              ∷ report_blocked (event_id (codes "report") c.command_id)
                  (accepted_report s c report_sequence)
              ∷ [];
        pending_inbound = some (accepted_settlement previous c);
      }

  unfoldable pub accept : StateV1 → AcceptedCommand → Result StoreError StateV1
  unfolding accepted_state
  accept s c = do previous ← current_identity s; ok (accepted_state s c previous)

  unfoldable pub reject : StateV1 → RejectedCommand → StateV1
  unfolding next_sequence
  reject s c =
      let acknowledgement = rejected_ack c (next_sequence s) in
      record s {
        device_sequence = next_sequence s;
        command_journal =
            s.command_journal
            ++ journal_entry c.command_id c.fingerprint acknowledgement c.retain_until_epoch_seconds
              ∷ [];
        outbox = s.outbox ++ ack (event_id (codes "ack") c.command_id) acknowledgement ∷ [];
      }

  unfoldable pub reject_conflicting_replay : StateV1 → Text → Text → ℕ → ℕ → ℤ → StateV1
  unfolding next_sequence
  reject_conflicting_replay s command_id fingerprint generation fence observed_at = record s {
    device_sequence = next_sequence s;
    outbox =
        s.outbox
        ++ ack (event_id (codes "rejected") (replay_cause command_id fingerprint))
            (conflict_ack command_id fingerprint generation fence observed_at (next_sequence s))
          ∷ [];
  }

  unfoldable pub replay_command : StateV1 → Text → Text → Result StoreError StateV1
  unfolding replayed_ack
  replay_command s command_id fingerprint = do
    command ← ok_or (find same_command s.command_journal) invalid_state
    ok (record s {
      outbox =
          s.outbox
          ++ ack (event_id (codes "ack") command.command_id) (replayed_ack command.acknowledgement)
            ∷ [];
    })
    where
      same_command : StoredCommand → Bool
      same_command c = c.command_id == command_id && c.fingerprint == fingerprint
