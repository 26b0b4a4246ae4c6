-- ===== src/Device/State/Entries.antt =====
-- The methods of the journal's and the outbox's entries in state.rs.
use rss_incubator.Base.{
  ℕ, Bool, true, false, not, ◌&&◌, Option, none, some, [], ◌∷◌, Text, ◌==◌, nat_eq, list_eq, ltb,
  if◌then◌else◌, is_nonneg, is_positive, is_none_or, is_some_and, codes,
}
use rss_incubator.Crates.{Crates}
use rss_incubator.Device.Types.{
  AckFact, ReportFact, OutboundFact, command_acknowledged, certificate_reported,
  sha256_digest_valid,
}
use rss_incubator.Device.State.Rejection.{StoredRejection, command_rejection_from}
use rss_incubator.Device.State.Stored.{
  StoredAck, StoredReport, StoredCommand, StoredOutbound, ack, report_blocked, report_ready,
}
use rss_incubator.Device.State.Hashes.{event_id}

-- The three admissible combinations of rejection, activation and replay.
unfoldable pub ack_kind_valid : Option StoredRejection → Option ℕ → Bool → Bool
ack_kind_valid (some r) none false = true
ack_kind_valid none (some revision) false = true
ack_kind_valid none none true = true
ack_kind_valid _ _ _ = false

unfoldable pub is_empty : Text → Bool
is_empty [] = true
is_empty (c ∷ cs) = false

unfoldable pub ack_semantic_valid : StoredAck → Bool
ack_semantic_valid a =
    not (is_empty a.command_id)
    && (not (is_empty a.event_cause)
        && (ltb 0 a.desired_generation
            && (ltb 0 a.fence_epoch
                && (ltb 0 a.device_sequence
                    && (is_nonneg a.observed_at
                        && (is_none_or a.activates_revision (λ revision. ltb 0 revision)
                            && ack_kind_valid a.rejection a.activates_revision
                                a.settled_replay))))))

unfoldable pub report_semantic_valid : StoredReport → Bool
report_semantic_valid r =
    not (is_empty r.command_id)
    && (ltb 0 r.observed_generation
        && (ltb 0 r.fence_epoch
            && (ltb 0 r.device_sequence
                && (is_nonneg r.observed_at
                    && (is_some_and r.expires_at is_positive
                        && (ltb 0 r.credential_generation
                            && (ltb 0 r.credential_revision
                                && (sha256_digest_valid r.artifact_digest
                                    && sha256_digest_valid r.state_hash))))))))

unfoldable pub command_semantic_valid : StoredCommand → Bool
command_semantic_valid c =
    c.command_id == c.acknowledgement.command_id
    && (not (is_empty c.command_id)
        && (sha256_digest_valid c.fingerprint
            && (ack_semantic_valid c.acknowledgement && ltb 0 c.retain_until_epoch_seconds)))

unfoldable pub outbound_id : StoredOutbound → Text
outbound_id (ack id payload) = id
outbound_id (report_blocked id payload) = id
outbound_id (report_ready id payload) = id

unfoldable pub sequence : StoredOutbound → ℕ
sequence (ack id payload) = payload.device_sequence
sequence (report_blocked id payload) = payload.device_sequence
sequence (report_ready id payload) = payload.device_sequence

unfoldable pub report_payload : StoredOutbound → Option StoredReport
report_payload (ack id payload) = none
report_payload (report_blocked id payload) = some payload
report_payload (report_ready id payload) = some payload

unfoldable pub ack_fact_from : StoredAck → AckFact
ack_fact_from value = record {
  command_id = value.command_id;
  desired_generation = value.desired_generation;
  fence_epoch = value.fence_epoch;
  device_sequence = value.device_sequence;
  observed_at = value.observed_at;
  rejection = elim value.rejection [ none ↦ none | some r ↦ some (command_rejection_from r) ];
}

unfoldable pub report_fact_from : StoredReport → ReportFact
report_fact_from value = record {
  observed_generation = value.observed_generation;
  fence_epoch = value.fence_epoch;
  device_sequence = value.device_sequence;
  observed_at = value.observed_at;
  state_hash = value.state_hash;
  artifact_digest = value.artifact_digest;
  expires_at = value.expires_at;
}

unfoldable pub ready_fact : StoredOutbound → Option OutboundFact
ready_fact (ack id payload) = some (command_acknowledged id (ack_fact_from payload))
ready_fact (report_ready id payload) = some (certificate_reported id (report_fact_from payload))
ready_fact (report_blocked id payload) = none

-- The kind of an acknowledgement's event: a conflicting replay has a cause of its own.
unfoldable pub ack_event_kind : StoredAck → Text
ack_event_kind payload =
    if payload.event_cause == payload.command_id then codes "ack" else codes "rejected"

module _ ⦃crates : Crates⦄ where
  unfoldable pub event_valid : StoredOutbound → Bool
  event_valid (ack actual payload) = actual == event_id (ack_event_kind payload) payload.event_cause
  event_valid (report_blocked actual payload) =
      actual == event_id (codes "report") payload.command_id
  event_valid (report_ready actual payload) = actual == event_id (codes "report") payload.command_id

  payload_valid : StoredOutbound → Bool
  payload_valid (ack id payload) = ack_semantic_valid payload
  payload_valid (report_blocked id payload) = report_semantic_valid payload
  payload_valid (report_ready id payload) = report_semantic_valid payload

  unfoldable pub outbound_semantic_valid : StoredOutbound → Bool
  unfolding payload_valid
  outbound_semantic_valid e = event_valid e && payload_valid e
