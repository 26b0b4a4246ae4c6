-- ===== src/Device/Agent/Atomicity.antt =====
-- Every operation of agent.rs either installs a validated state or leaves the state as it was.
use rss_incubator.Base.{
  ℕ, ◌≡◌, refl, ◌⊎◌, inl, inr, Bool, true, false, not, ◌&&◌, Option, none, some, Text, Bytes, ℤ,
  Option-cases, Result, ok, err, Result-cases, if_cases, ltb, leb, i64_of_u64, u64_of_i64,
}
use rss_incubator.Crates.{Crates}
use rss_incubator.Device.Types.{
  DeviceCommand, CommandRejection, accepted, duplicate, rejected, malformed_command,
  policy_rejected, fence_epoch_stale, generation_stale, topic_set_new, accepts_command,
}
use rss_incubator.Device.Artifact.{ResolvedArtifact, CatalogError, catalog_rejection}
use rss_incubator.Device.State.Stored.{StateV1, StoreError, AcceptedCommand}
use rss_incubator.Device.State.Verify.{validate, current_identity}
use rss_incubator.Device.State.Validity.{IsValid, validate_sound}
use rss_incubator.Device.State.Journal.{command_match}
use rss_incubator.Device.State.Transitions.{accept}
use rss_incubator.Device.State.Outbound.{
  rotation_in_flight, has_command_ack, has_conflicting_replay, confirm_outbound, mark_reconnected,
  mark_inbound_settled,
}
use rss_incubator.Device.Agent.Fingerprint.{command_fingerprint, malformed_fingerprint}
use rss_incubator.Device.Agent.Store.{
  Services, Agent, AgentError, persist_candidate, persisted, with_outcome, persist_outcome,
  unexpected_delivery, unknown_outbound, unexpected_reconnect,
}
use rss_incubator.Device.Agent.Commands.{
  reserve_commit, persist_rejection, persist_raw_rejection, commit, installed, apply_known,
  apply_resolved, resolved, apply_scoped, apply_new, apply_command, malformed_known,
  malformed_matched, is_pending_topic, reject_malformed_delivery,
}
use rss_incubator.Device.Agent.Sessions.{
  persist_changed, agent_confirm_outbound, mark_current_credential_connected,
  persist_inbound_settlement,
}

-- A result that carries an error leaves the state `s`; a success leaves a valid state.
abbrev pub Atomic {ℓ} :
    ⦃crates : Crates⦄
    → {Store : Type 0} {A : Type ℓ} → StateV1
    → Agent Store × Result AgentError A
    → Type 0
Atomic s (agent, ok a) = IsValid agent.state ⊎ (agent.state ≡ s)
Atomic s (agent, err e) = agent.state ≡ s

module _ ⦃crates : Crates⦄ {Store : Type 0} (services : Services Store) where
  persisted-Atomic :
      (agent : Agent Store) (candidate : StateV1) (r : Store × Result StoreError (Unit {0}))
      → IsValid candidate
      → Atomic agent.state (persisted services agent candidate r)
  unfolding persisted
  persisted-Atomic agent candidate (store, ok done) v = inl v
  persisted-Atomic agent candidate (store, err e) v = refl

  pub persist_candidate-Atomic :
      (agent : Agent Store) (candidate : StateV1)
      → Atomic agent.state (persist_candidate services agent candidate)
  unfolding persist_candidate
  persist_candidate-Atomic agent candidate = elim (Result-cases (validate candidate)) [
    | inl (done, e) ↦
        rw (e, persist_candidate)
          (persisted-Atomic agent candidate (services.persist agent.store candidate)
            (validate_sound candidate e))
    | inr (x, e) ↦ rw (e, persist_candidate) refl
  ]

  with_outcome-Atomic {ℓ} :
      {A : Type ℓ} (s : StateV1) (r : Agent Store × Result AgentError (Unit {0})) (outcome : A)
      → Atomic s r
      → Atomic s (with_outcome r outcome)
  with_outcome-Atomic s (agent, ok done) outcome h = h
  with_outcome-Atomic s (agent, err e) outcome h = h

  pub persist_outcome-Atomic {ℓ} :
      {A : Type ℓ} (agent : Agent Store) (candidate : Result StoreError StateV1) (outcome : A)
      → Atomic agent.state (persist_outcome services agent candidate outcome)
  unfolding persist_outcome
  persist_outcome-Atomic agent (ok candidate) outcome =
      with_outcome-Atomic agent.state (persist_candidate services agent candidate) outcome
        (persist_candidate-Atomic agent candidate)
  persist_outcome-Atomic agent (err e) outcome = refl

  persist_rejection-Atomic :
      (agent : Agent Store) (command : DeviceCommand) (fingerprint : Text) (r : CommandRejection)
      (observed_at : ℤ)
      → Atomic agent.state (persist_rejection services agent command fingerprint r observed_at)
  unfolding persist_rejection
  persist_rejection-Atomic agent command fingerprint r observed_at =
      persist_outcome-Atomic agent _ (rejected r)

  installed-Atomic :
      (agent : Agent Store) (candidate : StateV1) (c : AcceptedCommand)
      (r : Store × Result StoreError (Unit {0}))
      → Atomic agent.state (installed services agent candidate c r)
  unfolding installed
  installed-Atomic agent candidate c (store, ok done) =
      persist_outcome-Atomic (record agent { store = store }) (accept candidate c) accepted
  installed-Atomic agent candidate c (store, err e) = refl

  commit-Atomic :
      (agent : Agent Store) (command : DeviceCommand) (fingerprint : Text)
      (artifact : ResolvedArtifact) (observed_at : ℤ)
      → Atomic agent.state (commit services agent command fingerprint artifact observed_at)
  unfolding commit
  commit-Atomic agent command fingerprint artifact observed_at =
      elim (Result-cases (reserve_commit agent.state (u64_of_i64 observed_at))) [
        | inl ((candidate, revision), e) ↦ rw (e, commit) (installed-Atomic agent candidate _ _)
        | inr (x, e) ↦ rw (e, commit) refl
      ]

  apply_known-Atomic :
      (agent : Agent Store) (command : DeviceCommand) (fingerprint : Text) (observed_at : ℤ)
      (same : Bool)
      → Atomic agent.state (apply_known services agent command fingerprint observed_at same)
  unfolding apply_known
  apply_known-Atomic agent command fingerprint observed_at true =
      if_cases (Atomic agent.state) (not (has_command_ack agent.state command.command_id)) _ _
        (persist_outcome-Atomic agent _ duplicate) (inr refl)
  apply_known-Atomic agent command fingerprint observed_at false =
      if_cases (Atomic agent.state)
        (has_conflicting_replay agent.state command.command_id fingerprint) _ _ (inr refl)
        (persist_outcome-Atomic agent _ (rejected malformed_command))

  apply_resolved-Atomic :
      (agent : Agent Store) (command : DeviceCommand) (fingerprint : Text)
      (artifact : ResolvedArtifact) (observed_at : ℤ)
      → Atomic agent.state (apply_resolved services agent command fingerprint artifact observed_at)
  unfolding apply_resolved
  apply_resolved-Atomic agent command fingerprint artifact observed_at =
      let refused = λ (r : CommandRejection).
        persist_rejection-Atomic agent command fingerprint r observed_at in
      if_cases (Atomic agent.state) (ltb command.fence_epoch agent.state.current.fence_epoch) _ _
        (refused fence_epoch_stale)
        (if_cases (Atomic agent.state)
          (ltb command.desired_generation agent.state.current.desired_generation) _ _
          (refused generation_stale)
          (if_cases (Atomic agent.state) _ _ _ (refused malformed_command)
            (commit-Atomic agent command fingerprint artifact observed_at)))

  resolved-Atomic :
      (agent : Agent Store) (command : DeviceCommand) (fingerprint : Text) (observed_at : ℤ)
      (r : Result CatalogError ResolvedArtifact)
      → Atomic agent.state (resolved services agent command fingerprint observed_at r)
  unfolding resolved
  resolved-Atomic agent command fingerprint observed_at (ok artifact) =
      apply_resolved-Atomic agent command fingerprint artifact observed_at
  resolved-Atomic agent command fingerprint observed_at (err e) =
      persist_rejection-Atomic agent command fingerprint (catalog_rejection e) observed_at

  apply_new-Atomic :
      (agent : Agent Store) (topic : Text) (command : DeviceCommand) (fingerprint : Text) (now : ℕ)
      (observed_at : ℤ)
      → Atomic agent.state (apply_new services agent topic command fingerprint now observed_at)
  unfolding apply_new apply_scoped
  apply_new-Atomic agent topic command fingerprint now observed_at =
      if_cases (Atomic agent.state) (rotation_in_flight agent.state) _ _ refl
        (elim (Result-cases (current_identity agent.state)) [
          | inr (x, e) ↦ rw e refl
          | inl (identity, e) ↦ rw e (
              if_cases (Atomic agent.state) _ _ _
                (persist_rejection-Atomic agent command fingerprint malformed_command observed_at)
                (if_cases (Atomic agent.state) (leb command.deadline_epoch_seconds now) _ _
                  (persist_rejection-Atomic agent command fingerprint policy_rejected observed_at)
                  (resolved-Atomic agent command fingerprint observed_at
                    (services.resolve identity command now))))
        ])

  -- apply_command leaves a valid state or the state that it found, and exactly the state that it
  -- found when it returns an error.
  pub apply_command-Atomic :
      (agent : Agent Store) (topic : Text) (command : DeviceCommand) (now : ℕ)
      → Atomic agent.state (apply_command services agent topic command now)
  unfolding apply_command
  apply_command-Atomic agent topic command now =
      let fingerprint = command_fingerprint command in
      elim (Option-cases (command_match agent.state command.command_id fingerprint now)) [
        | inl e ↦
            rw (e, apply_command)
              (apply_new-Atomic agent topic command fingerprint now (i64_of_u64 now))
        | inr (same, e) ↦
            rw (e, apply_command)
              (apply_known-Atomic agent command fingerprint (i64_of_u64 now) same)
      ]

  malformed_known-Atomic :
      (agent : Agent Store) (command_id fingerprint : Text) (now : ℕ) (same : Bool)
      → Atomic agent.state (malformed_known services agent command_id fingerprint now same)
  unfolding malformed_known
  malformed_known-Atomic agent command_id fingerprint now true =
      if_cases (Atomic agent.state) (not (has_command_ack agent.state command_id)) _ _
        (persist_outcome-Atomic agent _ duplicate) (inr refl)
  malformed_known-Atomic agent command_id fingerprint now false =
      if_cases (Atomic agent.state)
        (not (has_conflicting_replay agent.state command_id fingerprint)) _ _
        (persist_outcome-Atomic agent _ (rejected malformed_command)) (inr refl)

  malformed_matched-Atomic :
      (agent : Agent Store) (command_id fingerprint : Text) (now : ℕ) (m : Option Bool)
      → Atomic agent.state (malformed_matched services agent command_id fingerprint now m)
  unfolding malformed_matched persist_raw_rejection
  malformed_matched-Atomic agent command_id fingerprint now none =
      persist_outcome-Atomic agent _ (rejected malformed_command)
  malformed_matched-Atomic agent command_id fingerprint now (some same) =
      malformed_known-Atomic agent command_id fingerprint now same

  -- reject_malformed_delivery leaves a valid state or the state that it found, and exactly the
  -- state that it found when it returns an error.
  pub reject_malformed_delivery-Atomic :
      (agent : Agent Store) (topic command_id : Text) (payload : Bytes) (now : ℕ)
      → Atomic agent.state (reject_malformed_delivery services agent topic command_id payload now)
  unfolding reject_malformed_delivery
  reject_malformed_delivery-Atomic agent topic command_id payload now =
      let fingerprint = malformed_fingerprint topic command_id payload in
      elim (Result-cases (current_identity agent.state)) [
        | inr (x, e) ↦ rw (e, reject_malformed_delivery) refl
        | inl (identity, e) ↦
            rw (e, reject_malformed_delivery)
              (if_cases (Atomic agent.state)
                (not (accepts_command (topic_set_new identity) topic)
                  && not (is_pending_topic agent.state topic))
                (agent, err unexpected_delivery)
                (malformed_matched services agent command_id fingerprint now
                  (command_match agent.state command_id fingerprint now))
                refl
                (malformed_matched-Atomic agent command_id fingerprint now
                  (command_match agent.state command_id fingerprint now)))
      ]

  persist_changed-Atomic :
      (agent : Agent Store) (r : Bool × StateV1) (e : AgentError)
      → Atomic agent.state (persist_changed services agent r e)
  unfolding persist_changed
  persist_changed-Atomic agent (true, candidate) e = persist_candidate-Atomic agent candidate
  persist_changed-Atomic agent (false, candidate) e = refl

  -- The operations of a session: confirmation, reconnect and settlement.
  pub agent_confirm_outbound-Atomic :
      (agent : Agent Store) (event : Text)
      → Atomic agent.state (agent_confirm_outbound services agent event)
  unfolding agent_confirm_outbound
  agent_confirm_outbound-Atomic agent event =
      persist_changed-Atomic agent (confirm_outbound agent.state event) unknown_outbound

  pub mark_current_credential_connected-Atomic :
      (agent : Agent Store) (revision : ℕ)
      → Atomic agent.state (mark_current_credential_connected services agent revision)
  unfolding mark_current_credential_connected
  mark_current_credential_connected-Atomic agent revision =
      persist_changed-Atomic agent (mark_reconnected agent.state revision) unexpected_reconnect

  pub persist_inbound_settlement-Atomic :
      (agent : Agent Store) (token : Option Text)
      → Atomic agent.state (persist_inbound_settlement services agent token)
  unfolding persist_inbound_settlement
  persist_inbound_settlement-Atomic agent token =
      persist_changed-Atomic agent (mark_inbound_settled agent.state token) unexpected_delivery
