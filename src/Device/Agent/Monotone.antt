-- ===== src/Device/Agent/Monotone.antt =====
-- The installed position under `apply_command` of agent.rs: only an accepted command moves it, and
-- only forward.
use rss_incubator.Base.{
  ℕ, ◌+◌, ◌≤◌, ◌<◌, ◌≡◌, refl, inl, inr, Text, ℤ, arith, Result, ok, err, Result-cases, i64_of_u64,
  u64_of_i64,
}
use rss_incubator.Crates.{Crates}
use rss_incubator.Device.Types.{
  DeviceIdentity, DeviceCommand, ApplyOutcome, accepted, duplicate, rejected, malformed_command,
}
use rss_incubator.Device.Artifact.{ResolvedArtifact}
use rss_incubator.Device.State.Stored.{StateV1, StoreError, AcceptedCommand, RejectedCommand}
use rss_incubator.Device.State.Verify.{validate}
use rss_incubator.Device.State.Journal.{
  expire_command_journal, reserve_command_journal, reserve_outbox, next_revision,
}
use rss_incubator.Device.State.Transitions.{
  accepted_state, accept, reject, reject_conflicting_replay, replay_command,
}
use rss_incubator.Device.Agent.Fingerprint.{command_fingerprint}
use rss_incubator.Device.Agent.Store.{
  Services, Agent, AgentError, persist_candidate, persisted, with_outcome, persist_outcome,
}
use rss_incubator.Device.Agent.Commands.{
  replay_candidate, conflict_candidate, rejection_candidate, reserve_commit, persist_rejection,
  commit, installed, apply_command, accepted_command, retention_deadline,
}
use rss_incubator.Device.Agent.Cases.{IsAdmitted, apply_command_cases}

-- The installed credential and the identity are those of another state.
pub record SamePosition (s t : StateV1) : Type 0 where
  pub current : t.current ≡ s.current
  pub identity : t.identity ≡ s.identity

-- The installed credential is the command's, past that of another state.
pub record MovedTo (command : DeviceCommand) (s t : StateV1) : Type 0 where
  pub generation : t.current.desired_generation ≡ command.desired_generation
  pub fence : t.current.fence_epoch ≡ command.fence_epoch
  pub generation_past : s.current.desired_generation < t.current.desired_generation
  pub fence_kept : s.current.fence_epoch ≤ t.current.fence_epoch
  pub revision_next : t.current.credential_revision ≡ s.current.credential_revision + 1
  pub credential_past : s.identity.credential_generation < t.identity.credential_generation
  pub tenant : t.identity.tenant_id ≡ s.identity.tenant_id
  pub device : t.identity.device_id ≡ s.identity.device_id

abbrev pub Positioned :
    {Store : Type 0}
    → DeviceCommand
    → StateV1
    → Agent Store × Result AgentError ApplyOutcome
    → Type 0
Positioned command s (agent, ok accepted) = MovedTo command s agent.state
Positioned command s (agent, ok duplicate) = SamePosition s agent.state
Positioned command s (agent, ok (rejected r)) = SamePosition s agent.state
Positioned command s (agent, err e) = SamePosition s agent.state

same : (s : StateV1) → SamePosition s s
same s = record { current = refl; identity = refl }

pub replay-SamePosition :
    ⦃crates : Crates⦄
    → (s t : StateV1) (command_id fingerprint : Text)
    → replay_candidate s command_id fingerprint ≡ ok t
    → SamePosition s t
unfolding replay_candidate replay_command reserve_outbox
replay-SamePosition s t command_id fingerprint h = ground arith

pub conflict-SamePosition :
    ⦃crates : Crates⦄
    → (s t : StateV1) (command_id fingerprint : Text) (g f : ℕ) (o : ℤ)
    → conflict_candidate s command_id fingerprint g f o ≡ ok t
    → SamePosition s t
unfolding conflict_candidate reject_conflicting_replay reserve_outbox
conflict-SamePosition s t command_id fingerprint g f o h = ground arith

pub rejection-SamePosition :
    ⦃crates : Crates⦄
    → (s t : StateV1) (now : ℕ) (c : RejectedCommand) → rejection_candidate s now c ≡ ok t
    → SamePosition s t
unfolding rejection_candidate reject reserve_outbox reserve_command_journal expire_command_journal
rejection-SamePosition s t now c h = ground arith

pub reserve_commit_lem :
    (s c : StateV1) (now r : ℕ)
    → reserve_commit s now ≡ ok (c, r)
    → (c ≡ expire_command_journal s now) × (r ≡ s.current.credential_revision + 1)
unfolding reserve_commit reserve_outbox reserve_command_journal next_revision expire_command_journal
reserve_commit_lem s c now r h = ground arith

-- What a persisted candidate must satisfy for its outcome.
abbrev Moves : DeviceCommand → StateV1 → ApplyOutcome → StateV1 → Type 0
Moves command s accepted t = MovedTo command s t
Moves command s duplicate t = SamePosition s t
Moves command s (rejected r) t = SamePosition s t

module _ ⦃crates : Crates⦄ {Store : Type 0} (services : Services Store) (command : DeviceCommand)
    (s : StateV1) where
  answered :
      (outcome : ApplyOutcome) (agent : Agent Store)
      → Moves command s outcome agent.state
      → Positioned command s (agent, ok outcome)
  answered accepted agent m = m
  answered duplicate agent m = m
  answered (rejected r) agent m = m

  persisted-Positioned :
      (agent : Agent Store) (candidate : StateV1) (outcome : ApplyOutcome)
      (r : Store × Result StoreError (Unit {0}))
      → SamePosition s agent.state
      → Moves command s outcome candidate
      → Positioned command s (with_outcome (persisted services agent candidate r) outcome)
  unfolding persisted
  persisted-Positioned agent candidate outcome (store, ok done) k m =
      answered outcome (record agent { store = store; state = candidate }) m
  persisted-Positioned agent candidate outcome (store, err e) k m = k

  persist_outcome-Positioned :
      (agent : Agent Store) (candidate : Result StoreError StateV1) (outcome : ApplyOutcome)
      → SamePosition s agent.state
      → ((c : StateV1) → candidate ≡ ok c → Moves command s outcome c)
      → Positioned command s (persist_outcome services agent candidate outcome)
  unfolding persist_outcome persist_candidate
  persist_outcome-Positioned agent (err e) outcome k m = k
  persist_outcome-Positioned agent (ok c) outcome k m = elim (Result-cases (validate c)) [
    | inl (done, e) ↦
        rw (e, persist_outcome, persist_candidate)
          (persisted-Positioned agent c outcome (services.persist agent.store c) k (m c refl))
    | inr (x, e) ↦ rw (e, persist_outcome, persist_candidate) k
  ]

  accept-MovedTo :
      (c t : StateV1) (a : AcceptedCommand)
      → accept c a ≡ ok t
      → c.current ≡ s.current
      → c.identity ≡ s.identity
      → a.generation ≡ command.desired_generation
      → a.fence ≡ command.fence_epoch
      → s.current.desired_generation < a.generation
      → s.current.fence_epoch ≤ a.fence
      → a.revision ≡ s.current.credential_revision + 1
      → s.identity.credential_generation < a.credential_generation
      → MovedTo command s t
  unfolding accept accepted_state
  accept-MovedTo c t a h sc si g f gp fk r cp = ground arith

  installed-Positioned :
      (agent : Agent Store) (candidate : StateV1) (a : AcceptedCommand)
      (r : Store × Result StoreError (Unit {0}))
      → SamePosition s agent.state
      → ((t : StateV1) → accept candidate a ≡ ok t → MovedTo command s t)
      → Positioned command s (installed services agent candidate a r)
  unfolding installed
  installed-Positioned agent candidate a (store, ok done) k m =
      persist_outcome-Positioned (record agent { store = store }) (accept candidate a) accepted k m
  installed-Positioned agent candidate a (store, err e) k m = k

module _ ⦃crates : Crates⦄ {Store : Type 0} (services : Services Store) (agent : Agent Store)
    (topic : Text) (command : DeviceCommand) (now : ℕ) where
  commit-Positioned :
      (identity : DeviceIdentity) (artifact : ResolvedArtifact)
      → IsAdmitted services agent.state topic command now identity artifact
      → Positioned command agent.state
          (commit services agent command (command_fingerprint command) artifact (i64_of_u64 now))
  unfolding commit expire_command_journal
  commit-Positioned identity artifact a =
      let s = agent.state in
      elim (Result-cases (reserve_commit s (u64_of_i64 (i64_of_u64 now)))) [
        | inr (x, e) ↦ rw (e, commit) (same s)
        | inl ((c, r), e) ↦
            let (kept, next) = reserve_commit_lem s c _ r e in
            let deadline = retention_deadline agent.command_retention_seconds (i64_of_u64 now) in
            let acc =
              accepted_command command (command_fingerprint command) artifact r (i64_of_u64 now)
                deadline in
            rw (e, commit)
              (installed-Positioned services command s agent c acc
                (services.install_revision agent.store r artifact.credential) (same s)
                λ t h.
                  accept-MovedTo services command s c t acc h (rw kept refl) (rw kept refl) refl
                    refl a.generation a.fence next a.credential)
      ]

  -- An accepted command installs its own generation and fence, past the installed generation and
  -- not below the installed fence, under the next revision and a later credential generation of
  -- the same device; any other outcome leaves the installed credential and the identity as they
  -- were.
  pub apply_command-Positioned :
      Positioned command agent.state (apply_command services agent topic command now)
  unfolding persist_rejection
  apply_command-Positioned =
      let s = agent.state in
      apply_command_cases services agent topic command now (Positioned command s) (λ e. same s)
        (λ m a. same s) (λ m. same s)
        (λ m a.
          persist_outcome-Positioned services command s agent _ duplicate (same s)
            (λ t. replay-SamePosition s t command.command_id (command_fingerprint command)))
        (λ m c.
          persist_outcome-Positioned services command s agent _ (rejected malformed_command)
            (same s)
            (λ t. conflict-SamePosition s t command.command_id (command_fingerprint command) _ _ _))
        (λ r.
          persist_outcome-Positioned services command s agent _ (rejected r) (same s)
            (λ t. rejection-SamePosition s t _ _))
        commit-Positioned
