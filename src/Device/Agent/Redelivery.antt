-- ===== src/Device/Agent/Redelivery.antt =====
-- Redelivered commands under `apply_command` of agent.rs: one whose earlier acknowledgement still
-- waits in the outbox after the journal has let go of it, and one that has just been accepted.
use rss_incubator.Base.{
  ℕ, ◌≡◌, refl, ◌∙◌, sym, subst, ap, inl, inr, true, false, none, List, [], ◌∷◌, ◌++◌, map, Text, ℤ,
  arith, nat_eq, list_eq, ==_refl, eq_of_==, ==_sym, Result, ok, err, is_ok, Result-cases,
  i64_of_u64, u64_of_i64, saturating_add, codes, contains, contains-append, Distinct,
}
use mathlib.Core.List.{map-append}
use rss_incubator.Crates.{Crates}
use rss_incubator.Device.Types.{DeviceCommand, CommandRejection, ApplyOutcome, accepted, rejected}
use rss_incubator.Device.Artifact.{ResolvedArtifact}
use rss_incubator.Device.Agent.Fingerprint.{command_fingerprint}
use rss_incubator.Device.Agent.Store.{Services, Agent, persist_candidate, persist_outcome}
use rss_incubator.Device.Agent.Commands.{
  rejection_candidate, reserve_commit, persist_rejection, commit, installed, apply_command,
}
use rss_incubator.Device.Agent.Cases.{apply_command_cases}
use rss_incubator.Device.Agent.Monotone.{reserve_commit_lem}
use rss_incubator.Device.State.Stored.{
  StateV1, StoredOutbound, StoreError, AcceptedCommand, RejectedCommand, ack, report_blocked,
}
use rss_incubator.Device.State.Entries.{outbound_id}
use rss_incubator.Device.State.Hashes.{event_id}
use rss_incubator.Device.State.Verify.{validate, current_identity}
use rss_incubator.Device.State.Validity.{validate_sound}
use rss_incubator.Device.State.Journal.{
  command_match, expire_command_journal, reserve_command_journal, reserve_outbox,
}
use rss_incubator.Device.State.Transitions.{
  accepted_state, accept, reject, rejected_ack, accepted_ack, accepted_report,
}
use rss_incubator.Device.State.Preservation.Recorded.{outbox_holds}

-- An event id that is taken cannot be added.
taken_twice :
    (ids : List Text) (x : Text) (rest : List Text)
    → contains ids x ≡ true
    → Distinct (ids ++ x ∷ rest)
    → true ≡ false
taken_twice [] x rest h d = sym h
taken_twice (i ∷ ids) x rest h d = ground (
  arith,
  eq_of_== i x,
  contains-append ids (x ∷ rest) i,
  taken_twice ids x rest,
  ==_refl x,
  ==_refl i,
  ==_sym i x,
)

module _ ⦃crates : Crates⦄ {Store : Type 0} (services : Services Store) where
  -- A candidate that adds an event id twice is never answered.
  persist_outcome_taken {ℓ} :
      {A : Type ℓ} (agent : Agent Store) (s : StateV1) (x : Text) (t : StateV1) (outcome : A)
      (a : StoredOutbound) (rest : List StoredOutbound)
      → t.outbox ≡ s.outbox ++ a ∷ rest
      → outbound_id a ≡ x
      → outbox_holds s x ≡ true
      → is_ok (persist_outcome services agent (ok t) outcome).1 ≡ false
  unfolding persist_outcome persist_candidate
  persist_outcome_taken agent s x t outcome a rest e n h = elim (Result-cases (validate t)) [
    | inl (_, w) ↦ absurd (
        ground (
          arith,
          taken_twice (map outbound_id s.outbox) x (map outbound_id rest) h (
              subst Distinct
                (ap (map outbound_id) e
                  ∙ map-append outbound_id s.outbox (a ∷ rest)
                  ∙ ap (λ i. map outbound_id s.outbox ++ i ∷ map outbound_id rest) n)
                (validate_sound t w).event_ids),
        ))
    | inr (y, w) ↦ rw (w, persist_candidate)
  ]

  rejection_taken :
      (agent : Agent Store) (s t : StateV1) (now : ℕ) (c : RejectedCommand) (outcome : ApplyOutcome)
      → rejection_candidate s now c ≡ ok t
      → outbox_holds s (event_id (codes "ack") c.command_id) ≡ true
      → is_ok (persist_outcome services agent (ok t) outcome).1 ≡ false
  unfolding rejection_candidate reserve_outbox reserve_command_journal reject expire_command_journal
      outbound_id
  rejection_taken agent s t now c outcome e h =
      persist_outcome_taken agent s (event_id (codes "ack") c.command_id) t outcome
        (ack (event_id (codes "ack") c.command_id)
          (rejected_ack c (saturating_add s.device_sequence 1)))
        [] (ground arith) refl h

  accepted_taken :
      (agent : Agent Store) (s t : StateV1) (now : ℕ) (c : AcceptedCommand) (outcome : ApplyOutcome)
      → accept (expire_command_journal s now) c ≡ ok t
      → outbox_holds s (event_id (codes "ack") c.command_id) ≡ true
      → is_ok (persist_outcome services agent (ok t) outcome).1 ≡ false
  unfolding accept accepted_state expire_command_journal outbound_id current_identity
  accepted_taken agent s t now c outcome e h =
      let n = saturating_add s.device_sequence 1 in
      persist_outcome_taken agent s (event_id (codes "ack") c.command_id) t outcome
        (ack (event_id (codes "ack") c.command_id) (accepted_ack c n))
        (report_blocked (event_id (codes "report") c.command_id)
            (accepted_report s c (saturating_add n 1))
          ∷ [])
        (ground arith) refl h

  outcome_taken :
      (agent : Agent Store) (candidate : Result StoreError StateV1) (outcome : ApplyOutcome)
      → ((t : StateV1)
          → candidate ≡ ok t
          → is_ok (persist_outcome services agent (ok t) outcome).1 ≡ false)
      → is_ok (persist_outcome services agent candidate outcome).1 ≡ false
  unfolding persist_outcome
  outcome_taken agent (ok t) outcome h = h t refl
  outcome_taken agent (err e) outcome h = refl

  installed_taken :
      (agent : Agent Store) (now : ℕ) (c : AcceptedCommand)
      (r : Store × Result StoreError (Unit {0}))
      → outbox_holds agent.state (event_id (codes "ack") c.command_id) ≡ true
      → is_ok (installed services agent (expire_command_journal agent.state now) c r).1 ≡ false
  unfolding installed
  installed_taken agent now c (store, ok done) h =
      outcome_taken (record agent { store = store })
        (accept (expire_command_journal agent.state now) c) accepted
        λ t e. accepted_taken (record agent { store = store }) agent.state t now c accepted e h
  installed_taken agent now c (store, err e) h = refl

  refused_taken :
      (agent : Agent Store) (command : DeviceCommand) (fingerprint : Text) (r : CommandRejection)
      (o : ℤ)
      → outbox_holds agent.state (event_id (codes "ack") command.command_id) ≡ true
      → is_ok (persist_rejection services agent command fingerprint r o).1 ≡ false
  unfolding persist_rejection persist_outcome
  refused_taken agent command fingerprint r o h =
      outcome_taken agent _ (rejected r)
        λ t e. rejection_taken agent agent.state t _ _ (rejected r) e h

  committed_taken :
      (agent : Agent Store) (command : DeviceCommand) (fingerprint : Text)
      (artifact : ResolvedArtifact) (o : ℤ)
      → outbox_holds agent.state (event_id (codes "ack") command.command_id) ≡ true
      → is_ok (commit services agent command fingerprint artifact o).1 ≡ false
  unfolding commit
  committed_taken agent command fingerprint artifact o h =
      elim (Result-cases (reserve_commit agent.state (u64_of_i64 o))) [
        | inl ((candidate, revision), e) ↦
            rw (e, commit)
              (rw (reserve_commit_lem agent.state candidate (u64_of_i64 o) revision e).0
                (installed_taken agent (u64_of_i64 o) _ _ h))
        | inr (x, e) ↦ rw (e, commit)
      ]

  -- When the outbox still holds the acknowledgement event of a command that no live journal
  -- entry holds, apply_command returns an error, whatever the command and the services.
  pub apply_command-taken :
      (agent : Agent Store) (topic : Text) (command : DeviceCommand) (now : ℕ)
      → command_match agent.state command.command_id (command_fingerprint command) now ≡ none
      → outbox_holds agent.state (event_id (codes "ack") command.command_id) ≡ true
      → is_ok (apply_command services agent topic command now).1 ≡ false
  apply_command-taken agent topic command now unknown h =
      apply_command_cases services agent topic command now (λ r. is_ok r.1 ≡ false) (λ e. refl)
        (λ m held. cc (unknown, m)) (λ m. cc (unknown, m)) (λ m held. cc (unknown, m))
        (λ m held. cc (unknown, m))
        (λ r. refused_taken agent command (command_fingerprint command) r (i64_of_u64 now) h)
        (λ identity artifact a.
          committed_taken agent command (command_fingerprint command) artifact (i64_of_u64 now) h)
