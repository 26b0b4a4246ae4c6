-- ===== src/Device/Agent/Commands.antt =====
-- Command intake of agent.rs: `apply_command`, `reject_malformed_delivery`, and the private
-- operations that they end in.
use rss_incubator.Base.{
  ℕ, Bool, true, false, not, ◌&&◌, ◌||◌, Option, none, some, Text, Bytes, ℤ, ◌==◌, nat_eq, list_eq,
  ltb, leb, if◌then◌else◌, saturating_add, i64_of_u64, u64_of_i64, Result, ok, err, ◌>>=◌, ◌>>◌,
}
use rss_incubator.Crates.{Crates}
use rss_incubator.Device.Types.{
  DeviceIdentity, DeviceCommand, CommandRejection, ApplyOutcome, accepted, duplicate, rejected,
  malformed_command, policy_rejected, fence_epoch_stale, generation_stale, topic_set_new,
  accepts_command,
}
use rss_incubator.Device.State.Stored.{StateV1, StoreError, AcceptedCommand, RejectedCommand}
use rss_incubator.Device.State.Verify.{current_identity}
use rss_incubator.Device.State.Journal.{
  command_match, expire_command_journal, reserve_command_journal, reserve_outbox, next_revision,
}
use rss_incubator.Device.State.Transitions.{
  accept, reject, reject_conflicting_replay, replay_command,
}
use rss_incubator.Device.State.Outbound.{
  rotation_in_flight, has_conflicting_replay, has_command_ack,
}
use rss_incubator.Device.Artifact.{ResolvedArtifact, CatalogError, catalog_rejection}
use rss_incubator.Device.Agent.Fingerprint.{command_fingerprint, malformed_fingerprint}
use rss_incubator.Device.Agent.Store.{
  Services, Agent, AgentError, store_error, rotation_in_flight_error, unexpected_delivery,
  persist_outcome,
}

-- The candidates are states under construction: nothing of the agent changes before
-- `persist_candidate`.
module _ ⦃crates : Crates⦄ where
  -- A duplicate whose acknowledgement has left the outbox is acknowledged again.
  unfoldable pub replay_candidate : StateV1 → Text → Text → Result StoreError StateV1
  replay_candidate s command_id fingerprint = do
    reserve_outbox s 1
    replay_command s command_id fingerprint

  unfoldable pub conflict_candidate : StateV1 → Text → Text → ℕ → ℕ → ℤ → Result StoreError StateV1
  conflict_candidate s command_id fingerprint generation fence observed_at = do
    reserve_outbox s 1
    ok (reject_conflicting_replay s command_id fingerprint generation fence observed_at)

  unfoldable pub rejection_candidate : StateV1 → ℕ → RejectedCommand → Result StoreError StateV1
  rejection_candidate s now c = do
    let candidate = expire_command_journal s now
    reserve_outbox candidate 1
    reserve_command_journal candidate
    ok (reject candidate c)

-- The steps of `commit` before the installation: the expired candidate and its revision.
unfoldable pub reserve_commit : StateV1 → ℕ → Result StoreError (StateV1 × ℕ)
reserve_commit s now = do
  let candidate = expire_command_journal s now
  reserve_outbox candidate 2
  reserve_command_journal candidate
  revision ← next_revision candidate
  ok (candidate, revision)

unfoldable pub retention_deadline : ℕ → ℤ → ℕ
retention_deadline retention observed_at = saturating_add (u64_of_i64 observed_at) retention

abbrev pub rejected_command : Text → Text → ℕ → ℕ → CommandRejection → ℤ → ℕ → RejectedCommand
rejected_command command_id fingerprint generation fence rejection observed_at deadline = record {
  command_id = command_id;
  fingerprint = fingerprint;
  generation = generation;
  fence = fence;
  rejection = rejection;
  observed_at = observed_at;
  retain_until_epoch_seconds = deadline;
}

abbrev pub accepted_command : DeviceCommand → Text → ResolvedArtifact → ℕ → ℤ → ℕ → AcceptedCommand
accepted_command command fingerprint artifact revision observed_at deadline = record {
  command_id = command.command_id;
  fingerprint = fingerprint;
  generation = command.desired_generation;
  fence = command.fence_epoch;
  credential_generation = artifact.credential_generation;
  revision = revision;
  artifact_digest = artifact.digest;
  expires_at = artifact.credential.expires_at;
  observed_at = observed_at;
  retain_until_epoch_seconds = deadline;
}

-- `pending_command_topic() == Some(topic)`.
unfoldable pub is_pending_topic : StateV1 → Text → Bool
is_pending_topic s topic = elim s.pending_inbound [ none ↦ false | some p ↦ p.topic == topic ]

module _ ⦃crates : Crates⦄ {Store : Type 0} (services : Services Store) where
  unfoldable pub persist_rejection :
      Agent Store
      → DeviceCommand
      → Text
      → CommandRejection
      → ℤ
      → Agent Store × Result AgentError ApplyOutcome
  persist_rejection agent command fingerprint rejection observed_at =
      persist_outcome services agent
        (rejection_candidate agent.state (u64_of_i64 observed_at) (
          rejected_command command.command_id fingerprint command.desired_generation
            command.fence_epoch rejection observed_at
            (retention_deadline agent.command_retention_seconds observed_at)))
        (rejected rejection)

  unfoldable pub persist_raw_rejection :
      Agent Store → Text → Text → ℕ → Agent Store × Result AgentError ApplyOutcome
  persist_raw_rejection agent command_id fingerprint now =
      let observed_at = i64_of_u64 now in
      persist_outcome services agent
        (rejection_candidate agent.state now (
          rejected_command command_id fingerprint agent.state.current.desired_generation
            agent.state.current.fence_epoch malformed_command observed_at
            (retention_deadline agent.command_retention_seconds observed_at)))
        (rejected malformed_command)

  -- What follows the installation of the revision in `commit`.
  unfoldable pub installed :
      Agent Store
      → StateV1
      → AcceptedCommand
      → Store × Result StoreError (Unit {0})
      → Agent Store × Result AgentError ApplyOutcome
  installed agent candidate c (store, ok done) =
      persist_outcome services (record agent { store = store }) (accept candidate c) accepted
  installed agent candidate c (store, err e) = (record agent { store = store }, err (store_error e))

  unfoldable pub commit :
      Agent Store
      → DeviceCommand
      → Text
      → ResolvedArtifact
      → ℤ
      → Agent Store × Result AgentError ApplyOutcome
  unfolding installed
  commit agent command fingerprint artifact observed_at =
      elim (reserve_commit agent.state (u64_of_i64 observed_at)) [
        | err e ↦ (agent, err (store_error e))
        | ok (candidate, revision) ↦
            installed agent candidate
              (accepted_command command fingerprint artifact revision observed_at
                (retention_deadline agent.command_retention_seconds observed_at))
              (services.install_revision agent.store revision artifact.credential)
      ]

  -- A command that matches a retained journal entry: the same payload, or another one.
  unfoldable pub apply_known :
      Agent Store → DeviceCommand → Text → ℤ → Bool → Agent Store × Result AgentError ApplyOutcome
  apply_known agent command fingerprint observed_at true =
      if not (has_command_ack agent.state command.command_id)
      then persist_outcome services agent
          (replay_candidate agent.state command.command_id fingerprint) duplicate
      else (agent, ok duplicate)
  apply_known agent command fingerprint observed_at false =
      if has_conflicting_replay agent.state command.command_id fingerprint
      then (agent, ok (rejected malformed_command))
      else persist_outcome services agent
          (conflict_candidate agent.state command.command_id fingerprint command.desired_generation
            command.fence_epoch observed_at)
          (rejected malformed_command)

  -- The checks against the installed position, after the artifact is resolved.
  unfoldable pub apply_resolved :
      Agent Store
      → DeviceCommand
      → Text
      → ResolvedArtifact
      → ℤ
      → Agent Store × Result AgentError ApplyOutcome
  apply_resolved agent command fingerprint artifact observed_at =
      let generation = command.desired_generation in
      if ltb command.fence_epoch agent.state.current.fence_epoch
      then persist_rejection agent command fingerprint fence_epoch_stale observed_at
      else if ltb generation agent.state.current.desired_generation
      then persist_rejection agent command fingerprint generation_stale observed_at
      else if generation == agent.state.current.desired_generation
          || leb artifact.credential_generation agent.state.identity.credential_generation
      then persist_rejection agent command fingerprint malformed_command observed_at
      else commit agent command fingerprint artifact observed_at

  -- What follows the resolution of the artifact.
  unfoldable pub resolved :
      Agent Store
      → DeviceCommand
      → Text
      → ℤ
      → Result CatalogError ResolvedArtifact
      → Agent Store × Result AgentError ApplyOutcome
  resolved agent command fingerprint observed_at (ok artifact) =
      apply_resolved agent command fingerprint artifact observed_at
  resolved agent command fingerprint observed_at (err e) =
      persist_rejection agent command fingerprint (catalog_rejection e) observed_at

  -- The scope and deadline checks under the agent's identity.
  unfoldable pub apply_scoped :
      Agent Store
      → DeviceIdentity
      → Text
      → DeviceCommand
      → Text
      → ℕ
      → ℤ
      → Agent Store × Result AgentError ApplyOutcome
  unfolding resolved
  apply_scoped agent identity topic command fingerprint now observed_at =
      if not (accepts_command (topic_set_new identity) topic)
        || not (command.device_id == identity.device)
      then persist_rejection agent command fingerprint malformed_command observed_at
      else if leb command.deadline_epoch_seconds now
      then persist_rejection agent command fingerprint policy_rejected observed_at
      else resolved agent command fingerprint observed_at (services.resolve identity command now)

  -- A command that matches no retained journal entry.
  unfoldable pub apply_new :
      Agent Store
      → Text
      → DeviceCommand
      → Text
      → ℕ
      → ℤ
      → Agent Store × Result AgentError ApplyOutcome
  apply_new agent topic command fingerprint now observed_at =
      if rotation_in_flight agent.state
      then (agent, err rotation_in_flight_error)
      else elim (current_identity agent.state) [
        | err e ↦ (agent, err (store_error e))
        | ok identity ↦ apply_scoped agent identity topic command fingerprint now observed_at
      ]

  unfoldable pub apply_command :
      Agent Store → Text → DeviceCommand → ℕ → Agent Store × Result AgentError ApplyOutcome
  apply_command agent topic command now =
      let observed_at = i64_of_u64 now in
      let fingerprint = command_fingerprint command in
      elim (command_match agent.state command.command_id fingerprint now) [
        | some same_payload ↦ apply_known agent command fingerprint observed_at same_payload
        | none ↦ apply_new agent topic command fingerprint now observed_at
      ]

  -- A malformed delivery that matches a retained journal entry.
  unfoldable pub malformed_known :
      Agent Store → Text → Text → ℕ → Bool → Agent Store × Result AgentError ApplyOutcome
  malformed_known agent command_id fingerprint now true =
      if not (has_command_ack agent.state command_id)
      then persist_outcome services agent (replay_candidate agent.state command_id fingerprint)
          duplicate
      else (agent, ok duplicate)
  malformed_known agent command_id fingerprint now false =
      if not (has_conflicting_replay agent.state command_id fingerprint)
      then persist_outcome services agent
          (conflict_candidate agent.state command_id fingerprint
            agent.state.current.desired_generation agent.state.current.fence_epoch (i64_of_u64 now))
          (rejected malformed_command)
      else (agent, ok (rejected malformed_command))

  -- The match against the journal, for a delivery that cannot be decoded.
  unfoldable pub malformed_matched :
      Agent Store → Text → Text → ℕ → Option Bool → Agent Store × Result AgentError ApplyOutcome
  malformed_matched agent command_id fingerprint now none =
      persist_raw_rejection agent command_id fingerprint now
  malformed_matched agent command_id fingerprint now (some same_payload) =
      malformed_known agent command_id fingerprint now same_payload

  unfoldable pub reject_malformed_delivery :
      Agent Store → Text → Text → Bytes → ℕ → Agent Store × Result AgentError ApplyOutcome
  reject_malformed_delivery agent topic command_id payload now =
      elim (current_identity agent.state) [
        | err e ↦ (agent, err (store_error e))
        | ok identity ↦
            let fingerprint = malformed_fingerprint topic command_id payload in
            if not (accepts_command (topic_set_new identity) topic)
              && not (is_pending_topic agent.state topic)
            then (agent, err unexpected_delivery)
            else malformed_matched agent command_id fingerprint now
                (command_match agent.state command_id fingerprint now)
      ]
