-- ===== src/Device/Agent/Cases.antt =====
-- The branches of `apply_command` of agent.rs, taken apart once for all properties.
use rss_incubator.Base.{
  ℕ, ◌≤◌, ◌<◌, ◌≡◌, refl, inl, inr, Bool, true, false, not, ◌||◌, none, some, Text, arith, ◌==◌,
  nat_eq, list_eq, eq_of_==, Bool-cases, Option-cases, Result, ok, err, Result-cases, ltb, leb,
  i64_of_u64,
}
use rss_incubator.Crates.{Crates}
use rss_incubator.Device.Types.{
  DeviceIdentity, DeviceCommand, CommandRejection, ApplyOutcome, duplicate, rejected,
  malformed_command, policy_rejected, fence_epoch_stale, generation_stale, topic_set_new,
  accepts_command,
}
use rss_incubator.Device.Artifact.{ResolvedArtifact, CatalogError, catalog_rejection}
use rss_incubator.Device.State.Stored.{StateV1}
use rss_incubator.Device.State.Verify.{current_identity}
use rss_incubator.Device.State.Journal.{command_match}
use rss_incubator.Device.State.Outbound.{
  rotation_in_flight, has_command_ack, has_conflicting_replay,
}
use rss_incubator.Device.Agent.Fingerprint.{command_fingerprint}
use rss_incubator.Device.Agent.Store.{
  Services, Agent, AgentError, store_error, rotation_in_flight_error, persist_outcome,
}
use rss_incubator.Device.Agent.Commands.{
  replay_candidate, conflict_candidate, persist_rejection, commit, apply_known, apply_resolved,
  resolved, apply_scoped, apply_new, apply_command,
}

-- What `apply_command` has checked when it commits: an unknown command, no rotation in flight, the
-- agent's own topic and device, a deadline ahead, an artifact, and a position past the installed one.
pub record IsAdmitted ⦃crates : Crates⦄ {Store : Type 0} (services : Services Store) (s : StateV1)
    (topic : Text) (command : DeviceCommand) (now : ℕ) (identity : DeviceIdentity)
    (artifact : ResolvedArtifact) : Type 0 where
  pub unknown : command_match s command.command_id (command_fingerprint command) now ≡ none
  pub idle : rotation_in_flight s ≡ false
  pub identified : current_identity s ≡ ok identity
  pub own_topic : topic ≡ (topic_set_new identity).command
  pub own_device : command.device_id ≡ identity.device
  pub deadline : now < command.deadline_epoch_seconds
  pub available : services.resolve identity command now ≡ ok artifact
  pub fence : s.current.fence_epoch ≤ command.fence_epoch
  pub generation : s.current.desired_generation < command.desired_generation
  pub credential : s.identity.credential_generation < artifact.credential_generation

module _ {κ} ⦃crates : Crates⦄ {Store : Type 0} (services : Services Store) (agent : Agent Store)
    (topic : Text) (command : DeviceCommand) (now : ℕ)
    (P : Agent Store × Result AgentError ApplyOutcome → Type κ)
    (failed : (e : AgentError) → P (agent, err e))
    (repeated : command_match agent.state command.command_id (command_fingerprint command) now
        ≡ some true
      → has_command_ack agent.state command.command_id ≡ true
      → P (agent, ok duplicate))
    (conflict_known : command_match agent.state command.command_id (command_fingerprint command) now
        ≡ some false
      → P (agent, ok (rejected malformed_command)))
    (replayed : command_match agent.state command.command_id (command_fingerprint command) now
        ≡ some true
      → has_command_ack agent.state command.command_id ≡ false
      → P (
          persist_outcome services agent
            (replay_candidate agent.state command.command_id (command_fingerprint command))
            duplicate))
    (conflicted : command_match agent.state command.command_id (command_fingerprint command) now
        ≡ some false
      → has_conflicting_replay agent.state command.command_id (command_fingerprint command) ≡ false
      → P (
          persist_outcome services agent
            (conflict_candidate agent.state command.command_id
              (command_fingerprint command)
              command.desired_generation
              command.fence_epoch
              (i64_of_u64 now))
            (rejected malformed_command)))
    (refused : (r : CommandRejection)
      → P (
          persist_rejection services agent command
            (command_fingerprint command)
            r
            (i64_of_u64 now)))
    (admitted : (identity : DeviceIdentity) (artifact : ResolvedArtifact)
      → IsAdmitted services agent.state topic command now identity artifact
      → P (
          commit services agent command
            (command_fingerprint command)
            artifact
            (i64_of_u64 now))) where
  known_cases :
      (same : Bool)
      → command_match agent.state command.command_id (command_fingerprint command) now ≡ some same
      → P (apply_known services agent command (command_fingerprint command) (i64_of_u64 now) same)
  unfolding apply_known
  known_cases true m = elim (Bool-cases (has_command_ack agent.state command.command_id)) [
    | inl e ↦ rw (e, apply_known) (repeated m e)
    | inr e ↦ rw (e, apply_known) (replayed m e)
  ]
  known_cases false m =
      elim (Bool-cases
        (has_conflicting_replay agent.state command.command_id (command_fingerprint command))) [
          | inl e ↦ rw (e, apply_known) (conflict_known m)
          | inr e ↦ rw (e, apply_known) (conflicted m e)
        ]

  position_cases :
      (identity : DeviceIdentity) (artifact : ResolvedArtifact)
      → ((f : agent.state.current.fence_epoch ≤ command.fence_epoch)
          → (g : agent.state.current.desired_generation < command.desired_generation)
          → (c : agent.state.identity.credential_generation < artifact.credential_generation)
          → IsAdmitted services agent.state topic command now identity artifact)
      → P (
          apply_resolved services agent command
            (command_fingerprint command)
            artifact
            (i64_of_u64 now))
  unfolding apply_resolved
  position_cases identity artifact admit =
      elim (Bool-cases (ltb command.fence_epoch agent.state.current.fence_epoch)) [
        | inl e ↦ rw (e, apply_resolved) (refused fence_epoch_stale)
        | inr e ↦
            elim (Bool-cases
              (ltb command.desired_generation agent.state.current.desired_generation)) [
                | inl f ↦ rw (e, f, apply_resolved) (refused generation_stale)
                | inr f ↦
                    elim (Bool-cases (
                      command.desired_generation == agent.state.current.desired_generation
                      || leb artifact.credential_generation
                          agent.state.identity.credential_generation)) [
                            | inl g ↦ rw (e, f, g, apply_resolved) (refused malformed_command)
                            | inr g ↦
                                rw (e, f, g, apply_resolved)
                                  (admitted identity artifact
                                    (admit (ground arith) (ground arith) (ground arith)))
                          ]
              ]
      ]

  resolved_cases :
      (identity : DeviceIdentity) (r : Result CatalogError ResolvedArtifact)
      → ((artifact : ResolvedArtifact)
          → r ≡ ok artifact
          → (f : agent.state.current.fence_epoch ≤ command.fence_epoch)
          → (g : agent.state.current.desired_generation < command.desired_generation)
          → (c : agent.state.identity.credential_generation < artifact.credential_generation)
          → IsAdmitted services agent.state topic command now identity artifact)
      → P (resolved services agent command (command_fingerprint command) (i64_of_u64 now) r)
  unfolding resolved
  resolved_cases identity (ok artifact) admit =
      position_cases identity artifact (admit artifact refl)
  resolved_cases identity (err e) admit = refused (catalog_rejection e)

  scoped_cases :
      (identity : DeviceIdentity)
      → command_match agent.state command.command_id (command_fingerprint command) now ≡ none
      → rotation_in_flight agent.state ≡ false
      → current_identity agent.state ≡ ok identity
      → P (
          apply_scoped services agent identity topic command
            (command_fingerprint command)
            now
            (i64_of_u64 now))
  unfolding apply_scoped accepts_command
  scoped_cases identity unknown idle identified =
      elim (Bool-cases (
        not (accepts_command (topic_set_new identity) topic)
        || not (command.device_id == identity.device))) [
          | inl e ↦ rw (e, apply_scoped) (refused malformed_command)
          | inr e ↦ elim (Bool-cases (leb command.deadline_epoch_seconds now)) [
            | inl d ↦ rw (e, d, apply_scoped) (refused policy_rejected)
            | inr d ↦
                rw (e, d, apply_scoped)
                  (resolved_cases identity (services.resolve identity command now)
                    λ artifact a f g c. record {
                      unknown = unknown;
                      idle = idle;
                      identified = identified;
                      own_topic = eq_of_== topic (topic_set_new identity).command (ground arith);
                      own_device = ground arith;
                      deadline = ground arith;
                      available = a;
                      fence = f;
                      generation = g;
                      credential = c;
                    })
          ]
        ]

  new_cases :
      command_match agent.state command.command_id (command_fingerprint command) now ≡ none
      → P (
          apply_new services agent topic command (command_fingerprint command) now (i64_of_u64 now))
  unfolding apply_new
  new_cases unknown = elim (Bool-cases (rotation_in_flight agent.state)) [
    | inl e ↦ rw (e, apply_new) (failed rotation_in_flight_error)
    | inr idle ↦ elim (Result-cases (current_identity agent.state)) [
      | inl (identity, e) ↦ rw (idle, e, apply_new) (scoped_cases identity unknown idle e)
      | inr (x, e) ↦ rw (idle, e, apply_new) (failed (store_error x))
    ]
  ]

  -- What holds at the end of each branch holds of `apply_command`.
  pub apply_command_cases : P (apply_command services agent topic command now)
  unfolding apply_command
  apply_command_cases =
      elim (Option-cases
        (command_match agent.state command.command_id (command_fingerprint command) now)) [
          | inl e ↦ rw (e, apply_command) (new_cases e)
          | inr (same, e) ↦ rw (e, apply_command) (known_cases same e)
        ]
