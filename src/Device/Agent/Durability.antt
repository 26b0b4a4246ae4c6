-- ===== src/Device/Agent/Durability.antt =====
-- What every operation of agent.rs keeps of the durable store: what each persisted valid state of
-- the device and each installed revision keep.
use rss_incubator.Base.{
  ℕ, ◌≡◌, refl, inl, inr, Bool, true, false, not, ◌&&◌, Option, none, some, Text, Bytes, ℤ, List,
  [], ◌∷◌, arith, Result, ok, err, Result-cases, is_ok, if_cases, i64_of_u64, u64_of_i64, nat_eq,
  list_eq,
}
use rss_incubator.Crates.{Crates}
use rss_incubator.Device.Types.{
  DeviceCommand, ApplyOutcome, accepted, duplicate, rejected, malformed_command, topic_set_new,
  accepts_command,
}
use rss_incubator.Device.Artifact.{ResolvedArtifact, ValidatedCredential}
use rss_incubator.Device.State.Stored.{
  StateV1, StoredOutbound, StoreError, AcceptedCommand, ack, report_blocked, report_ready,
}
use rss_incubator.Device.State.Verify.{validate, current_identity}
use rss_incubator.Device.State.Validity.{IsValid, validate_sound}
use rss_incubator.Device.State.Journal.{command_match, expire_command_journal}
use rss_incubator.Device.State.Transitions.{accept, accepted_state}
use rss_incubator.Device.State.Outbound.{
  confirm_outbound, mark_reconnected, mark_inbound_settled, settle_confirmed, activate,
  has_command_ack, has_conflicting_replay,
}
use rss_incubator.Device.Agent.Fingerprint.{command_fingerprint, malformed_fingerprint}
use rss_incubator.Device.Agent.Store.{
  Services, Agent, AgentError, persist_candidate, persisted, with_outcome, persist_outcome,
  unexpected_delivery, unknown_outbound, unexpected_reconnect,
}
use rss_incubator.Device.Agent.Commands.{
  reserve_commit, persist_rejection, persist_raw_rejection, commit, installed, apply_command,
  malformed_known, malformed_matched, is_pending_topic, reject_malformed_delivery,
}
use rss_incubator.Device.Agent.Sessions.{
  persist_changed, agent_confirm_outbound, mark_current_credential_connected,
  persist_inbound_settlement,
}
use rss_incubator.Device.Agent.Cases.{apply_command_cases}
use rss_incubator.Device.Agent.Monotone.{
  SamePosition, replay-SamePosition, conflict-SamePosition, rejection-SamePosition,
  reserve_commit_lem,
}
use rss_incubator.Device.Agent.History.{
  Call, applies, rejects_malformed, confirms, connects, settles_inbound, step, run,
}

-- The state is one of a device.
abbrev pub BelongsTo : ℕ → ℕ → StateV1 → Type 0
BelongsTo tenant device s = (s.identity.tenant_id ≡ tenant) × (s.identity.device_id ≡ device)

accept_identity :
    ⦃crates : Crates⦄
    → (c t : StateV1) (a : AcceptedCommand) (tenant device : ℕ) → accept c a ≡ ok t
    → BelongsTo tenant device c
    → BelongsTo tenant device t
unfolding accept accepted_state
accept_identity c t a tenant device h b = ground (arith, h, b.0, b.1)

settle_identity :
    (s : StateV1) (e : StoredOutbound) (tenant device : ℕ)
    → BelongsTo tenant device s
    → BelongsTo tenant device (settle_confirmed s e)
unfolding settle_confirmed activate
settle_identity s (ack id payload) tenant device b = ground (arith, b.0, b.1)
settle_identity s (report_blocked id payload) tenant device b = b
settle_identity s (report_ready id payload) tenant device b = b

confirm_identity :
    (s : StateV1) (event : Text) (tenant device : ℕ)
    → BelongsTo tenant device s
    → BelongsTo tenant device (confirm_outbound s event).1
unfolding confirm_outbound settle_confirmed activate
confirm_identity s event tenant device b = ground (arith, b.0, b.1)

reconnected_identity :
    (s : StateV1) (revision : ℕ) (tenant device : ℕ)
    → BelongsTo tenant device s
    → BelongsTo tenant device (mark_reconnected s revision).1
unfolding mark_reconnected
reconnected_identity s revision tenant device b = ground (arith, b.0, b.1)

inbound_identity :
    (s : StateV1) (token : Option Text) (tenant device : ℕ)
    → BelongsTo tenant device s
    → BelongsTo tenant device (mark_inbound_settled s token).1
unfolding mark_inbound_settled
inbound_identity s token tenant device b = ground (arith, b.0, b.1)

module _ ⦃crates : Crates⦄ {Store : Type 0} (services : Services Store) (tenant device : ℕ)
    (P : Store → Type 0)
    (persists : (store : Store) (s : StateV1)
      → IsValid s
      → BelongsTo tenant device s
      → P store
      → P (services.persist store s).0)
    (Q : Store → StateV1 → Type 0)
    (written : (store : Store) (s : StateV1)
      → is_ok (services.persist store s).1 ≡ true
      → Q (services.persist store s).0 s)
    (installs : (store : Store) (revision : ℕ) (credential : ValidatedCredential)
      → P store
      → P (services.install_revision store revision credential).0) where
  abbrev Owned : StateV1 → Type 0
  Owned s = BelongsTo tenant device s

  abbrev pub Sound : Agent Store → Type 0
  Sound agent = Owned agent.state × P agent.store

  -- What an operation leaves: a sound store and, when it succeeds, a store that holds the state.
  abbrev Ended {ℓ} : {A : Type ℓ} → Type 0 → Agent Store × Result AgentError A → Type 0
  Ended before (agent, ok a) = Sound agent × (before → Q agent.store agent.state)
  Ended before (agent, err e) = Sound agent

  Ended-Sound {ℓ} :
      {A : Type ℓ} (before : Type 0) (r : Agent Store × Result AgentError A)
      → Ended before r
      → Sound r.0
  Ended-Sound before (agent, ok a) h = h.0
  Ended-Sound before (agent, err e) h = h

  stored_if_ok {ℓ} :
      {A : Type ℓ} (before : Type 0) (r : Agent Store × Result AgentError A)
      → Ended before r
      → before
      → is_ok r.1 ≡ true
      → Q r.0.store r.0.state
  stored_if_ok before (agent, ok a) h b e = h.1 b
  stored_if_ok before (agent, err x) h b e = cc

  same_Owned : (s t : StateV1) → Owned s → SamePosition s t → Owned t
  same_Owned s t b m = ground (arith, b.0, b.1, m.identity)

  persisted-Ended :
      (before : Type 0) (agent : Agent Store) (candidate : StateV1)
      (r : Store × Result StoreError (Unit {0}))
      → Owned agent.state
      → Owned candidate
      → P r.0
      → (is_ok r.1 ≡ true → Q r.0 candidate)
      → Ended before (persisted services agent candidate r)
  unfolding persisted
  persisted-Ended before agent candidate (store, ok done) a c p q = ((c, p), λ x. q refl)
  persisted-Ended before agent candidate (store, err e) a c p q = (a, p)

  persist_candidate-Ended :
      (before : Type 0) (agent : Agent Store) (candidate : StateV1)
      → Sound agent
      → Owned candidate
      → Ended before (persist_candidate services agent candidate)
  unfolding persist_candidate
  persist_candidate-Ended before agent candidate h c = elim (Result-cases (validate candidate)) [
    | inl (done, e) ↦
        rw (e, persist_candidate)
          (persisted-Ended before agent candidate (services.persist agent.store candidate) h.0 c
            (persists agent.store candidate (validate_sound candidate e) c h.1)
            (written agent.store candidate))
    | inr (x, e) ↦ rw (e, persist_candidate) h
  ]

  with_outcome-Ended {ℓ} :
      {A : Type ℓ} (before : Type 0) (r : Agent Store × Result AgentError (Unit {0})) (outcome : A)
      → Ended before r
      → Ended before (with_outcome r outcome)
  with_outcome-Ended before (agent, ok done) outcome h = h
  with_outcome-Ended before (agent, err e) outcome h = h

  persist_outcome-Ended {ℓ} :
      {A : Type ℓ} (before : Type 0) (agent : Agent Store) (candidate : Result StoreError StateV1)
      (outcome : A)
      → Sound agent
      → ((t : StateV1) → candidate ≡ ok t → Owned t)
      → Ended before (persist_outcome services agent candidate outcome)
  unfolding persist_outcome
  persist_outcome-Ended before agent (ok candidate) outcome h c =
      with_outcome-Ended before (persist_candidate services agent candidate) outcome
        (persist_candidate-Ended before agent candidate h (c candidate refl))
  persist_outcome-Ended before agent (err e) outcome h c = h

  abbrev Before : Agent Store → Type 0
  Before agent = Q agent.store agent.state

  installed-Ended :
      (before : Type 0) (agent : Agent Store) (candidate : StateV1) (a : AcceptedCommand)
      (r : Store × Result StoreError (Unit {0}))
      → Owned agent.state
      → Owned candidate
      → P r.0
      → Ended before (installed services agent candidate a r)
  unfolding installed
  installed-Ended before agent candidate a (store, ok done) o c p =
      persist_outcome-Ended before (record agent { store = store }) (accept candidate a) accepted
        (o, p) (λ t h. accept_identity candidate t a tenant device h c)
  installed-Ended before agent candidate a (store, err e) o c p = (o, p)

  commit-Ended :
      (agent : Agent Store) (command : DeviceCommand) (fingerprint : Text)
      (artifact : ResolvedArtifact) (observed_at : ℤ)
      → Sound agent
      → Ended (Before agent) (commit services agent command fingerprint artifact observed_at)
  unfolding commit expire_command_journal
  commit-Ended agent command fingerprint artifact observed_at h =
      elim (Result-cases (reserve_commit agent.state (u64_of_i64 observed_at))) [
        | inr (x, e) ↦ rw (e, commit) h
        | inl ((c, revision), e) ↦
            rw (e, commit)
              (installed-Ended (Before agent) agent c _ _ h.0
                (rw (reserve_commit_lem agent.state c _ revision e).0 h.0)
                (installs agent.store revision artifact.credential h.1))
      ]

  apply_command-Ended :
      (agent : Agent Store) (topic : Text) (command : DeviceCommand) (now : ℕ)
      → Sound agent
      → Ended (Before agent) (apply_command services agent topic command now)
  unfolding persist_rejection
  apply_command-Ended agent topic command now h =
      apply_command_cases services agent topic command now (Ended (Before agent)) (λ e. h)
        (λ m a. (h, λ q. q)) (λ m. (h, λ q. q))
        (λ m a. persist_outcome-Ended (Before agent) agent _ duplicate h (λ t e.
          same_Owned agent.state t h.0
            (replay-SamePosition agent.state t command.command_id (command_fingerprint command) e)))
        (λ m c. persist_outcome-Ended (Before agent) agent _ (rejected malformed_command) h (λ t e.
          same_Owned agent.state t h.0 (
            conflict-SamePosition agent.state t command.command_id (command_fingerprint command) _ _
              _ e)))
        (λ r.
          persist_outcome-Ended (Before agent) agent _ (rejected r) h
            (λ t e. same_Owned agent.state t h.0 (rejection-SamePosition agent.state t _ _ e)))
        (λ identity artifact a.
          commit-Ended agent command (command_fingerprint command) artifact (i64_of_u64 now) h)

  malformed_known-Ended :
      (agent : Agent Store) (command_id fingerprint : Text) (now : ℕ) (same : Bool)
      → Sound agent
      → Ended (Before agent) (malformed_known services agent command_id fingerprint now same)
  unfolding malformed_known
  malformed_known-Ended agent command_id fingerprint now true h =
      if_cases (λ (r : Agent Store × Result AgentError ApplyOutcome). Ended (Before agent) r)
        (not (has_command_ack agent.state command_id)) _ _
        (persist_outcome-Ended (Before agent) agent _ duplicate h (λ t e.
          same_Owned agent.state t h.0
            (replay-SamePosition agent.state t command_id fingerprint e)))
        (h, λ q. q)
  malformed_known-Ended agent command_id fingerprint now false h =
      if_cases (λ (r : Agent Store × Result AgentError ApplyOutcome). Ended (Before agent) r)
        (not (has_conflicting_replay agent.state command_id fingerprint)) _ _
        (persist_outcome-Ended (Before agent) agent _ (rejected malformed_command) h (λ t e.
          same_Owned agent.state t h.0
            (conflict-SamePosition agent.state t command_id fingerprint _ _ _ e)))
        (h, λ q. q)

  malformed_matched-Ended :
      (agent : Agent Store) (command_id fingerprint : Text) (now : ℕ) (m : Option Bool)
      → Sound agent
      → Ended (Before agent) (malformed_matched services agent command_id fingerprint now m)
  unfolding malformed_matched persist_raw_rejection
  malformed_matched-Ended agent command_id fingerprint now none h =
      persist_outcome-Ended (Before agent) agent _ (rejected malformed_command) h
        (λ t e. same_Owned agent.state t h.0 (rejection-SamePosition agent.state t _ _ e))
  malformed_matched-Ended agent command_id fingerprint now (some same) h =
      malformed_known-Ended agent command_id fingerprint now same h

  reject_malformed_delivery-Ended :
      (agent : Agent Store) (topic command_id : Text) (payload : Bytes) (now : ℕ)
      → Sound agent
      → Ended (Before agent) (reject_malformed_delivery services agent topic command_id payload now)
  unfolding reject_malformed_delivery
  reject_malformed_delivery-Ended agent topic command_id payload now h =
      let fingerprint = malformed_fingerprint topic command_id payload in
      elim (Result-cases (current_identity agent.state)) [
        | inr (x, e) ↦ rw (e, reject_malformed_delivery) h
        | inl (identity, e) ↦
            rw (e, reject_malformed_delivery)
              (if_cases
                (λ (r : Agent Store × Result AgentError ApplyOutcome). Ended (Before agent) r)
                (not (accepts_command (topic_set_new identity) topic)
                  && not (is_pending_topic agent.state topic))
                (agent, err unexpected_delivery)
                (malformed_matched services agent command_id fingerprint now
                  (command_match agent.state command_id fingerprint now))
                h
                (malformed_matched-Ended agent command_id fingerprint now
                  (command_match agent.state command_id fingerprint now) h))
      ]

  persist_changed-Ended :
      (agent : Agent Store) (r : Bool × StateV1) (e : AgentError)
      → Sound agent
      → Owned r.1
      → Ended (Before agent) (persist_changed services agent r e)
  unfolding persist_changed
  persist_changed-Ended agent (true, candidate) e h c =
      persist_candidate-Ended (Before agent) agent candidate h c
  persist_changed-Ended agent (false, candidate) e h c = h

  step-Sound : (agent : Agent Store) (c : Call) → Sound agent → Sound (step services agent c)
  unfolding step agent_confirm_outbound mark_current_credential_connected persist_inbound_settlement
  step-Sound agent (applies topic command now) h =
      Ended-Sound (Before agent) (apply_command services agent topic command now)
        (apply_command-Ended agent topic command now h)
  step-Sound agent (rejects_malformed topic command_id payload now) h =
      Ended-Sound (Before agent)
        (reject_malformed_delivery services agent topic command_id payload now)
        (reject_malformed_delivery-Ended agent topic command_id payload now h)
  step-Sound agent (confirms event) h =
      Ended-Sound (Before agent)
        (persist_changed services agent (confirm_outbound agent.state event) unknown_outbound)
        (persist_changed-Ended agent (confirm_outbound agent.state event) unknown_outbound h
          (confirm_identity agent.state event tenant device h.0))
  step-Sound agent (connects revision) h =
      Ended-Sound (Before agent)
        (persist_changed services agent (mark_reconnected agent.state revision)
          unexpected_reconnect)
        (persist_changed-Ended agent (mark_reconnected agent.state revision) unexpected_reconnect h
          (reconnected_identity agent.state revision tenant device h.0))
  step-Sound agent (settles_inbound token) h =
      Ended-Sound (Before agent)
        (persist_changed services agent (mark_inbound_settled agent.state token)
          unexpected_delivery)
        (persist_changed-Ended agent (mark_inbound_settled agent.state token) unexpected_delivery h
          (inbound_identity agent.state token tenant device h.0))

  pub run-Sound :
      (agent : Agent Store) (cs : List Call) → Sound agent → Sound (run services agent cs)
  unfolding run
  run-Sound agent [] h = h
  run-Sound agent (c ∷ cs) h = run-Sound (step services agent c) cs (step-Sound agent c h)

  pub apply_command_written :
      (agent : Agent Store) (topic : Text) (command : DeviceCommand) (now : ℕ)
      → Sound agent
      → Q agent.store agent.state
      → is_ok (apply_command services agent topic command now).1 ≡ true
      → Q
          (apply_command services agent topic command now).0.store
          (apply_command services agent topic command now).0.state
  apply_command_written agent topic command now h q =
      stored_if_ok (Before agent) (apply_command services agent topic command now)
        (apply_command-Ended agent topic command now h) q

  pub apply_command-Sound :
      (agent : Agent Store) (topic : Text) (command : DeviceCommand) (now : ℕ)
      → Sound agent
      → Sound (apply_command services agent topic command now).0
  apply_command-Sound agent topic command now h =
      Ended-Sound (Before agent) (apply_command services agent topic command now)
        (apply_command-Ended agent topic command now h)
