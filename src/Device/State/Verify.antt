-- ===== src/Device/State/Verify.antt =====
-- `StateV1::verify`, `validate` and `current_identity` of state.rs. The loops carry the sets of the
-- source, `event_ids`, `sequences` and `command_ids`, as lists of what was inserted.
use rss_incubator.Base.{
  ℕ, Bool, true, false, not, ◌&&◌, ◌||◌, Option, none, some, List, [], ◌∷◌, Text, ◌==◌, nat_eq,
  list_eq, ltb, leb, is_positive, is_some, is_some_and, eq_some, bool_beq, length, any, count_if,
  contains, Result, ok, guard, map_err, ◌>>=◌, ◌>>◌,
}
use rss_incubator.Crates.{Crates}
use rss_incubator.Device.Types.{
  DeviceIdentity, credential_generation_try_from, device_identity_try_new, topic_set_new,
  sha256_digest_valid,
}
use rss_incubator.Device.State.Stored.{
  StateV1, StoredAck, StoredReport, StoredCommand, StoredOutbound, StoredInboundSettlement,
  StoreError, ack, report_blocked, report_ready, invalid_state, outbox_limit, command_journal_limit,
}
use rss_incubator.Device.State.Hashes.{settlement_token, state_hash}
use rss_incubator.Device.State.Entries.{
  is_empty, command_semantic_valid, outbound_id, sequence, report_payload, outbound_semantic_valid,
}

unfoldable pub coordinates_valid : StateV1 → DeviceIdentity → Bool
coordinates_valid s identity =
    s.schema_version == 1
    && (s.identity.tenant_id == identity.tenant
        && (s.identity.device_id == identity.device
            && (ltb 0 s.identity.credential_generation
                && (ltb 0 s.current.desired_generation
                    && (ltb 0 s.current.fence_epoch
                        && (ltb 0 s.current.credential_revision
                            && (is_positive s.current.expires_at
                                && (sha256_digest_valid s.current.artifact_digest
                                    && (leb (length s.outbox) outbox_limit
                                        && leb (length s.command_journal)
                                            command_journal_limit)))))))))

-- An outbox entry that carries a report.
abbrev pub is_report : StoredOutbound → Bool
is_report e = is_some (report_payload e)

-- `StoredOutbound::ReportBlocked` for a revision and a command.
unfoldable pub is_blocked_report : ℕ → Text → StoredOutbound → Bool
is_blocked_report revision command_id (ack id payload) = false
is_blocked_report revision command_id (report_blocked id payload) =
    payload.credential_revision == revision && payload.command_id == command_id
is_blocked_report revision command_id (report_ready id payload) = false

-- `StoredOutbound::Ack` that activates a revision for a command.
unfoldable pub is_activation : ℕ → Text → StoredOutbound → Bool
is_activation revision command_id (ack id payload) =
    eq_some payload.activates_revision revision && payload.command_id == command_id
is_activation revision command_id (report_blocked id payload) = false
is_activation revision command_id (report_ready id payload) = false

unfoldable pub activation_valid : StateV1 → StoredAck → Option ℕ → Bool
activation_valid s payload none = true
activation_valid s payload (some revision) =
    revision == s.current.credential_revision
    && (any (is_blocked_report revision payload.command_id) s.outbox
        && not (is_some s.reconnect_revision))

-- The body of the second loop over the outbox: `true` where the source goes on.
unfoldable pub phase_valid : StateV1 → StoredOutbound → Bool
unfolding activation_valid
phase_valid s (ack id payload) = activation_valid s payload payload.activates_revision
phase_valid s (report_blocked id payload) =
    let has_activation =
      any (is_activation payload.credential_revision payload.command_id) s.outbox in
    not (
      bool_beq has_activation (is_some s.reconnect_revision)
      || is_some_and s.reconnect_revision
          (λ revision. not (revision == payload.credential_revision)))
phase_valid s (report_ready id payload) = not (is_some s.reconnect_revision)

unfoldable pub verify_phases : StateV1 → List StoredOutbound → Result StoreError (Unit {0})
verify_phases s [] = ok tt
verify_phases s (e ∷ es) = do guard (phase_valid s e) invalid_state; verify_phases s es

unfoldable pub verify_journal : List Text → List StoredCommand → Result StoreError (Unit {0})
verify_journal command_ids [] = ok tt
verify_journal command_ids (c ∷ cs) = do
  guard (not (contains command_ids c.command_id) && command_semantic_valid c) invalid_state
  verify_journal (c.command_id ∷ command_ids) cs

-- The two checks that close `verify`.
unfoldable pub reconnect_valid : StateV1 → Bool
reconnect_valid s =
    not (is_some s.reconnect_revision && not (count_if is_report s.outbox == 1))
    && not (
        is_some_and s.reconnect_revision
          (λ revision. not (revision == s.current.credential_revision)))

module _ ⦃crates : Crates⦄ where
  unfoldable pub report_hash : StateV1 → StoredReport → Text
  report_hash s r =
      state_hash s.identity.tenant_id s.identity.device_id r.credential_generation
        r.observed_generation r.fence_epoch r.credential_revision r.artifact_digest

  unfoldable pub report_matches : StateV1 → StoredReport → Bool
  unfolding report_hash
  report_matches s r = not (
      not (r.state_hash == report_hash s r)
      || (not (r.credential_revision == s.current.credential_revision)
          || (not (r.observed_generation == s.current.desired_generation)
              || (not (r.fence_epoch == s.current.fence_epoch)
                  || not (r.artifact_digest == s.current.artifact_digest)))))

  unfoldable pub reports_match : StateV1 → Option StoredReport → Bool
  reports_match s none = true
  reports_match s (some r) = report_matches s r

  unfoldable pub verify_outbox :
      StateV1 → List Text → List ℕ → List StoredOutbound → Result StoreError (Unit {0})
  verify_outbox s event_ids sequences [] = ok tt
  verify_outbox s event_ids sequences (e ∷ es) = do
    guard (not (contains event_ids (outbound_id e))) invalid_state
    guard
        (not (
          sequence e == 0
          || (ltb s.device_sequence (sequence e)
              || (contains sequences (sequence e) || not (outbound_semantic_valid e)))))
        invalid_state
    guard (reports_match s (report_payload e)) invalid_state
    verify_outbox s (outbound_id e ∷ event_ids) (sequence e ∷ sequences) es

  unfoldable pub pending_valid : StateV1 → StoredInboundSettlement → DeviceIdentity → Bool
  pending_valid s pending identity =
      not (is_empty pending.command_id)
      && (sha256_digest_valid pending.fingerprint
          && (pending.topic == (topic_set_new identity).command
              && (pending.settlement_token
                    == settlement_token pending.topic pending.command_id pending.fingerprint
                  && any
                      (λ (c : StoredCommand).
                        c.command_id == pending.command_id && c.fingerprint == pending.fingerprint)
                      s.command_journal)))

  unfoldable pub verify_pending :
      StateV1 → Option StoredInboundSettlement → Result StoreError (Unit {0})
  verify_pending s none = ok tt
  verify_pending s (some pending) = do
    generation ←
        map_err (λ e. invalid_state) (credential_generation_try_from pending.credential_generation)
    identity ←
        map_err (λ e. invalid_state)
          (device_identity_try_new s.identity.tenant_id s.identity.device_id generation)
    guard (pending_valid s pending identity) invalid_state

  unfoldable pub verify : StateV1 → DeviceIdentity → Result StoreError (Unit {0})
  verify s identity = do
    guard (coordinates_valid s identity) invalid_state
    verify_outbox s [] [] s.outbox
    verify_journal [] s.command_journal
    verify_pending s s.pending_inbound
    guard (not (ltb 1 (count_if is_report s.outbox))) invalid_state
    guard (bool_beq (is_some s.pending_inbound) (count_if is_report s.outbox == 1)) invalid_state
    verify_phases s s.outbox
    guard (reconnect_valid s) invalid_state

unfoldable pub current_identity : StateV1 → Result StoreError DeviceIdentity
current_identity s = do
  generation ←
      map_err (λ e. invalid_state) (credential_generation_try_from s.identity.credential_generation)
  map_err (λ e. invalid_state)
      (device_identity_try_new s.identity.tenant_id s.identity.device_id generation)

unfoldable pub validate : ⦃crates : Crates⦄ → StateV1 → Result StoreError (Unit {0})
validate s = do identity ← current_identity s; verify s identity
