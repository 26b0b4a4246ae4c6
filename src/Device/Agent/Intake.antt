-- ===== src/Device/Agent/Intake.antt =====
-- Which commands `apply_command` of agent.rs answers: one that passes every check is accepted, and
-- one whose earlier acknowledgement is still in the outbox after its retention is refused.
use rss_incubator.Base.{
  ap, ℕ, ◌+◌, ◌≤◌, ◌<◌, ◌≡◌, refl, ◌∙◌, true, false, ◌&&◌, ◌||◌, none, List, [], ◌∷◌, map, Text,
  arith, ◌==◌, nat_eq, list_eq, ==_refl, ok, ltb, i64_of_u64, u64_of_i64, u64_max, i64_max,
  is_positive, codes, length, contains, retain, find, count_if_zero,
}
use rss_incubator.Crates.{Crates, DigestLaws}
use rss_incubator.Crates.Digests.{printed_digest-valid}
use rss_incubator.Device.Types.{
  DeviceIdentity, DeviceCommand, accepted, accepts_command, topic_set_new, sha256_digest_valid,
}
use rss_incubator.Device.Artifact.{ResolvedArtifact}
use rss_incubator.Device.Agent.Fingerprint.{command_fingerprint}
use rss_incubator.Device.Agent.Store.{
  Services, Agent, persist_candidate, persisted, persist_outcome, with_outcome,
}
use rss_incubator.Device.Agent.Commands.{
  reserve_commit, retention_deadline, accepted_command, commit, installed, apply_resolved, resolved,
  apply_scoped, apply_new, apply_command,
}
use rss_incubator.Device.Agent.Cases.{IsAdmitted}
use rss_incubator.Device.State.Stored.{
  StateV1, StoredCommand, AcceptedCommand, outbox_limit, command_journal_limit,
}
use rss_incubator.Device.State.Hashes.{event_id}
use rss_incubator.Device.State.Entries.{is_empty}
use rss_incubator.Device.State.Transitions.{accept, accepted_state}
use rss_incubator.Device.State.Preservation.Parts.{expire-IsValid}
use rss_incubator.Device.State.Preservation.Accept.{AcceptedIsValid, accepted_state-IsValid}
use rss_incubator.Device.State.Validity.{
  IsValid, stored_identity, current_identity_lem, validate_complete,
}
use rss_incubator.Device.State.Verify.{is_report, coordinates_valid, current_identity}
use rss_incubator.Device.State.Journal.{
  command_match, is_pending_command, expire_command_journal, reserve_command_journal,
  reserve_outbox, next_revision,
}
use rss_incubator.Device.State.Outbound.{rotation_in_flight}
use rss_incubator.Device.State.Preservation.Recorded.{journal_holds, outbox_holds}

-- With nothing pending, the journal after expiry holds no command that was not matched.
expired_unknown :
    (s : StateV1) (command_id fingerprint : Text) (now : ℕ) (cs : List StoredCommand)
    → s.pending_inbound ≡ none
    → find
        (λ (c : StoredCommand). c.command_id == command_id && ltb now c.retain_until_epoch_seconds)
        cs
      ≡ none
    → contains
        (map
          (λ (c : StoredCommand). c.command_id)
          (retain
            (λ c. ltb now c.retain_until_epoch_seconds || is_pending_command s c.command_id)
            cs))
        command_id
      ≡ false
unfolding is_pending_command
expired_unknown s command_id fingerprint now [] idle h = refl
expired_unknown s command_id fingerprint now (c ∷ cs) idle h =
    ground (arith, expired_unknown s command_id fingerprint now cs idle)

pub unknown-journal_holds :
    ⦃crates : Crates⦄
    → (s : StateV1) (command_id fingerprint : Text) (now : ℕ) → IsValid s
    → rotation_in_flight s ≡ false
    → command_match s command_id fingerprint now ≡ none
    → journal_holds (expire_command_journal s now) command_id ≡ false
unfolding command_match expire_command_journal rotation_in_flight
unknown-journal_holds s command_id fingerprint now v idle h =
    expired_unknown s command_id fingerprint now s.command_journal
      (ground (arith, v.pending_iff, count_if_zero is_report s.outbox idle)) (ground arith)

module _ ⦃crates : Crates⦄ {Store : Type 0} (services : Services Store) (agent : Agent Store)
    (topic : Text) (command : DeviceCommand) (now : ℕ) (identity : DeviceIdentity)
    (artifact : ResolvedArtifact)
    (a : IsAdmitted services agent.state topic command now identity artifact) where
  -- A command that passes every check is committed.
  pub apply_command-admitted :
      apply_command services agent topic command now
      ≡ commit services agent command (command_fingerprint command) artifact (i64_of_u64 now)
  unfolding apply_command apply_new apply_scoped accepts_command resolved apply_resolved
  apply_command-admitted =
      let scoped : (topic == (topic_set_new identity).command) ≡ true =
        rw a.own_topic (==_refl (topic_set_new identity).command) in
      rw (a.unknown, apply_command, a.idle, apply_new, a.identified)
        (rw (scoped, apply_scoped)
          (rw (a.available, resolved)
            (ground (arith, a.own_device, a.deadline, a.fence, a.generation, a.credential))))

-- The capacity that an acceptance takes: two outbox entries with unused event ids, a journal entry,
-- two sequences and a revision.
pub record HasRoom ⦃crates : Crates⦄ (s : StateV1) (command_id : Text) (now : ℕ) : Type 0 where
  pub outbox : length s.outbox + 2 ≤ outbox_limit
  pub journal : length (expire_command_journal s now).command_journal < command_journal_limit
  pub sequence : s.device_sequence + 1 < u64_max
  pub revision : s.current.credential_revision < u64_max
  pub ack_event : outbox_holds s (event_id (codes "ack") command_id) ≡ false
  pub report_event : outbox_holds s (event_id (codes "report") command_id) ≡ false
  pub apart : (event_id (codes "ack") command_id == event_id (codes "report") command_id) ≡ false

-- What the constructors of a command and of an artifact guarantee.
pub record IsWellFormed (command : DeviceCommand) (artifact : ResolvedArtifact) : Type 0 where
  pub named : is_empty command.command_id ≡ false
  pub digest : sha256_digest_valid artifact.digest ≡ true
  pub expires : is_positive artifact.credential.expires_at ≡ true

reserve_commit-room :
    ⦃crates : Crates⦄
    → (s : StateV1) (command_id : Text) (now : ℕ) → HasRoom s command_id now
    → reserve_commit s now ≡ ok (expire_command_journal s now, s.current.credential_revision + 1)
unfolding reserve_commit reserve_outbox reserve_command_journal next_revision expire_command_journal
reserve_commit-room s command_id now room = ground (arith, room.outbox, room.journal, room.revision)

persist_candidate-IsValid :
    ⦃crates : Crates⦄ {Store : Type 0}
    → (services : Services Store) (agent : Agent Store) (t : StateV1) (saved : Store) → IsValid t
    → services.persist agent.store t ≡ (saved, ok tt)
    → persist_candidate services agent t ≡ (record agent { store = saved; state = t }, ok tt)
unfolding persist_candidate persisted
persist_candidate-IsValid services agent t saved v e =
    rw (validate_complete t v, persist_candidate) (ap (persisted services agent t) e)

persist_outcome-IsValid {ℓ} :
    ⦃crates : Crates⦄ {Store : Type 0} {A : Type ℓ}
    → (services : Services Store) (agent : Agent Store) (t : StateV1) (saved : Store) (outcome : A)
    → IsValid t
    → services.persist agent.store t ≡ (saved, ok tt)
    → persist_outcome services agent (ok t) outcome
      ≡ (record agent { store = saved; state = t }, ok outcome)
unfolding persist_outcome
persist_outcome-IsValid services agent t saved outcome v e =
    ap (λ r. with_outcome r outcome) (persist_candidate-IsValid services agent t saved v e)

accept_expired :
    ⦃crates : Crates⦄
    → (s : StateV1) (now : ℕ) (c : AcceptedCommand) (previous : DeviceIdentity)
    → current_identity s ≡ ok previous
    → accept (expire_command_journal s now) c
      ≡ ok (accepted_state (expire_command_journal s now) c previous)
unfolding accept expire_command_journal current_identity
accept_expired s now c previous h = rw h refl

fingerprint_valid :
    ⦃crates : Crates⦄
    → DigestLaws crates
    → (command : DeviceCommand) → sha256_digest_valid (command_fingerprint command) ≡ true
unfolding command_fingerprint
fingerprint_valid laws command = printed_digest-valid _ laws _

-- A time that an `i64` holds is read back as it was.
pub i64-round_trip : (now : ℕ) → now ≤ i64_max → u64_of_i64 (i64_of_u64 now) ≡ now
i64-round_trip now h = ground arith

expire-outbox :
    (s : StateV1) (now : ℕ)
    → ((expire_command_journal s now).outbox ≡ s.outbox)
      × ((expire_command_journal s now).device_sequence ≡ s.device_sequence)
      × ((expire_command_journal s now).identity ≡ s.identity)
      × ((expire_command_journal s now).current ≡ s.current)
unfolding expire_command_journal
expire-outbox s now = (refl, refl, refl, refl)

module _ ⦃crates : Crates⦄ (laws : DigestLaws crates) {Store : Type 0} (services : Services Store)
    (agent : Agent Store) (topic : Text) (command : DeviceCommand) (now : ℕ)
    (identity : DeviceIdentity) (artifact : ResolvedArtifact) where
  -- The state that an accepted command leaves.
  abbrev pub accepted_next : StateV1
  accepted_next =
      accepted_state (expire_command_journal agent.state now)
        (accepted_command command (command_fingerprint command) artifact
          (agent.state.current.credential_revision + 1) (i64_of_u64 now)
          (retention_deadline agent.command_retention_seconds (i64_of_u64 now)))
        identity

  module _ (v : IsValid agent.state)
      (a : IsAdmitted services agent.state topic command now identity artifact)
      (room : HasRoom agent.state command.command_id now) (wf : IsWellFormed command artifact)
      (time : now ≤ i64_max) (retained : 0 < agent.command_retention_seconds) where
    own_identity : identity ≡ stored_identity agent.state
    own_identity = cc (a.identified, current_identity_lem agent.state v)

    command_IsValid : AcceptedIsValid (
        accepted_command command
          (command_fingerprint command)
          artifact
          (agent.state.current.credential_revision + 1)
          (i64_of_u64 now)
          (retention_deadline agent.command_retention_seconds (i64_of_u64 now)))
    unfolding retention_deadline coordinates_valid
    command_IsValid = record {
      named = wf.named;
      generation = omega (arith, a.generation);
      fence = ground (arith, v.coordinates, a.fence);
      credential_generation = omega (arith, a.credential);
      revision = omega arith;
      artifact_digest = wf.digest;
      expires = wf.expires;
      observed = ground arith;
      fingerprint = fingerprint_valid laws command;
      retained = ground arith;
    }

    pub accepted_next-IsValid : IsValid accepted_next
    unfolding expire_command_journal rotation_in_flight
    accepted_next-IsValid = rw own_identity (
        accepted_state-IsValid laws (expire_command_journal agent.state now) _
          (expire-IsValid agent.state now v) command_IsValid a.idle room.sequence
          (unknown-journal_holds agent.state command.command_id (command_fingerprint command) now v
            a.idle a.unknown)
          room.ack_event room.report_event room.apart room.outbox room.journal)

    commit-room :
        (installed_store saved : Store)
        → services.install_revision agent.store
            (agent.state.current.credential_revision + 1)
            artifact.credential
          ≡ (installed_store, ok tt)
        → services.persist installed_store accepted_next ≡ (saved, ok tt)
        → commit services agent command (command_fingerprint command) artifact (i64_of_u64 now)
          ≡ (record agent { store = saved; state = accepted_next }, ok accepted)
    unfolding commit installed
    commit-room installed_store saved i p =
        let c =
          accepted_command command (command_fingerprint command) artifact
            (agent.state.current.credential_revision + 1) (i64_of_u64 now)
            (retention_deadline agent.command_retention_seconds (i64_of_u64 now)) in
        rw
          (
            ap (reserve_commit agent.state) (i64-round_trip now time)
                ∙ reserve_commit-room agent.state command.command_id now room,
            commit,
          )
          (ap (installed services agent (expire_command_journal agent.state now) c) i
            ∙ ap
                (λ r.
                  persist_outcome services (record agent { store = installed_store }) r accepted)
                (accept_expired agent.state now c identity a.identified)
            ∙ persist_outcome-IsValid services (record agent { store = installed_store })
                accepted_next saved accepted accepted_next-IsValid p)

    -- A command that passes every check is accepted when the state is valid, the outbox, the
    -- journal, the sequence and the revision have room, its event ids are unused and differ, the
    -- command and the artifact come from their constructors, the time is one that an i64 holds,
    -- the retention is positive, the digests are digests, and the store installs the revision
    -- and persists the state; the agent then holds the state with the journal entry, the
    -- acknowledgement and the blocked report.
    pub apply_command_accepts :
        (installed_store saved : Store)
        → services.install_revision agent.store
            (agent.state.current.credential_revision + 1)
            artifact.credential
          ≡ (installed_store, ok tt)
        → services.persist installed_store accepted_next ≡ (saved, ok tt)
        → apply_command services agent topic command now
          ≡ (record agent { store = saved; state = accepted_next }, ok accepted)
    apply_command_accepts installed_store saved i p =
        apply_command-admitted services agent topic command now identity artifact a
        ∙ commit-room installed_store saved i p
