-- ===== src/Device/Agent/Idempotence.antt =====
-- `apply_command` of agent.rs is idempotent: a command that was answered and comes again within its
-- retention is a duplicate that changes nothing.
use rss_incubator.Base.{
  ℕ, ◌≤◌, ◌<◌, ◌≡◌, refl, ◌∙◌, sym, ap, subst, inl, inr, Bool, true, ◌&&◌, ◌||◌, none, some, List,
  [], ◌∷◌, ◌++◌, Text, ℤ, arith, ◌==◌, nat_eq, list_eq, ==_refl, Result, ok, err, is_ok,
  Result-cases, ltb, i64_of_u64, u64_of_i64, i64_max, saturating_add, codes, find, any-append,
  retain, Option-cases,
}
use rss_incubator.Crates.{Crates}
use rss_incubator.Device.Types.{DeviceCommand, CommandRejection, accepted, duplicate, rejected}
use rss_incubator.Device.Artifact.{ResolvedArtifact}
use rss_incubator.Device.Agent.Fingerprint.{command_fingerprint}
use rss_incubator.Device.Agent.Store.{
  Services, Agent, persist_candidate, persisted, persist_outcome, with_outcome,
}
use rss_incubator.Device.Agent.Commands.{
  rejection_candidate, reserve_commit, persist_rejection, commit, installed, apply_known,
  apply_command, retention_deadline, rejected_command,
}
use rss_incubator.Device.Agent.Cases.{apply_command_cases}
use rss_incubator.Device.Agent.Intake.{i64-round_trip}
use rss_incubator.Device.Agent.Monotone.{reserve_commit_lem}
use rss_incubator.Device.State.Stored.{
  StateV1, StoredAck, StoredCommand, StoredOutbound, StoreError, AcceptedCommand, RejectedCommand,
  ack, report_blocked,
}
use rss_incubator.Device.State.Verify.{validate, current_identity}
use rss_incubator.Device.State.Journal.{
  command_match, expire_command_journal, reserve_command_journal, reserve_outbox,
  is_pending_command,
}
use rss_incubator.Device.State.Transitions.{
  accepted_state, accept, reject, journal_entry, accepted_ack, rejected_ack, accepted_report,
}
use rss_incubator.Device.State.Hashes.{event_id}
use rss_incubator.Device.State.Outbound.{has_command_ack, is_ack_for}

abbrev live : Text → ℕ → StoredCommand → Bool
live command_id now c = c.command_id == command_id && ltb now c.retain_until_epoch_seconds

-- A command that no entry keeps alive is kept alive by none later, and the entry that is added is
-- the one that is found.
found_last :
    (command_id : Text) (now later : ℕ) (q : StoredCommand → Bool) (cs : List StoredCommand)
    (added : StoredCommand)
    → now ≤ later
    → find (live command_id now) cs ≡ none
    → live command_id later added ≡ true
    → find (live command_id later) (retain q cs ++ added ∷ []) ≡ some added
found_last command_id now later q [] added le h p = rw p
found_last command_id now later q (c ∷ cs) added le h p =
    ground (arith, found_last command_id now later q cs added le)

-- The state that answers the command as a duplicate.
abbrev Answered : Text → Text → ℕ → StateV1 → Type 0
Answered command_id fingerprint later t =
    (command_match t command_id fingerprint later ≡ some true)
    × (has_command_ack t command_id ≡ true)

unknown_find :
    (s : StateV1) (command_id fingerprint : Text) (now : ℕ)
    → command_match s command_id fingerprint now ≡ none
    → find (live command_id now) s.command_journal ≡ none
unfolding command_match
unknown_find s command_id fingerprint now h =
    elim (Option-cases (find (live command_id now) s.command_journal)) [
      | inl e ↦ e
      | inr (c, e) ↦ ground (arith, h)
    ]

-- A journal whose last entry is the command's, and no other that is alive.
added_match :
    (s t : StateV1) (command_id fingerprint : Text) (a : StoredAck) (deadline now later : ℕ)
    → now ≤ later
    → later < deadline
    → command_match s command_id fingerprint now ≡ none
    → t.command_journal
      ≡ (expire_command_journal s now).command_journal
        ++ journal_entry command_id fingerprint a deadline ∷ []
    → command_match t command_id fingerprint later ≡ some true
unfolding command_match expire_command_journal
added_match s t command_id fingerprint a deadline now later le kept unknown e =
    rw
      (
        e,
        command_match,
        found_last command_id now later
            (λ c. ltb now c.retain_until_epoch_seconds || is_pending_command s c.command_id)
            s.command_journal (journal_entry command_id fingerprint a deadline) le
            (unknown_find s command_id fingerprint now unknown)
            (ground (arith, ==_refl command_id)),
      )
      (ap some (==_refl fingerprint))

added_ack :
    (s t : StateV1) (command_id event : Text) (a : StoredAck) (rest : List StoredOutbound)
    → a.command_id ≡ command_id
    → t.outbox ≡ s.outbox ++ ack event a ∷ rest
    → has_command_ack t command_id ≡ true
unfolding has_command_ack is_ack_for
added_ack s t command_id event a rest own e =
    rw (e, any-append (is_ack_for command_id) s.outbox, own, ==_refl command_id) (ground arith)

module _ ⦃crates : Crates⦄ {Store : Type 0} (services : Services Store) where
  persisted_holds {ℓ} :
      {A : Type ℓ} (Q : StateV1 → Type 0) (agent : Agent Store) (t : StateV1) (outcome : A)
      (r : Store × Result StoreError (Unit {0}))
      → Q t
      → is_ok (with_outcome (persisted services agent t r) outcome).1 ≡ true
      → Q (with_outcome (persisted services agent t r) outcome).0.state
  unfolding persisted
  persisted_holds Q agent t outcome (store, ok done) q h = q
  persisted_holds Q agent t outcome (store, err e) q h = cc

  outcome_holds {ℓ} :
      {A : Type ℓ} (Q : StateV1 → Type 0) (agent : Agent Store)
      (candidate : Result StoreError StateV1) (outcome : A)
      → ((t : StateV1) → candidate ≡ ok t → Q t)
      → is_ok (persist_outcome services agent candidate outcome).1 ≡ true
      → Q (persist_outcome services agent candidate outcome).0.state
  unfolding persist_outcome
  outcome_holds Q agent (ok t) outcome f h = checked (validate t) refl h
    where
      checked :
          (v : Result StoreError (Unit {0}))
          → validate t ≡ v
          → is_ok (persist_outcome services agent (ok t) outcome).1 ≡ true
          → Q (persist_outcome services agent (ok t) outcome).0.state
      checked (ok valid) e =
          rw (e, persist_candidate)
            (persisted_holds Q agent t outcome (services.persist agent.store t) (f t refl))
      checked (err x) e = rw (e, persist_candidate) (λ k. cc)
  outcome_holds Q agent (err e) outcome f h = cc

  rejected-Answered :
      (s t : StateV1) (now later : ℕ) (c : RejectedCommand)
      → now ≤ later
      → later < c.retain_until_epoch_seconds
      → command_match s c.command_id c.fingerprint now ≡ none
      → rejection_candidate s now c ≡ ok t
      → Answered c.command_id c.fingerprint later t
  unfolding rejection_candidate reserve_outbox reserve_command_journal reject expire_command_journal
  rejected-Answered s t now later c le kept unknown e =
      let a = rejected_ack c (saturating_add s.device_sequence 1) in
      (
        added_match s t c.command_id c.fingerprint a c.retain_until_epoch_seconds now later le kept
            unknown (ground arith),
        added_ack s t c.command_id (event_id (codes "ack") c.command_id) a [] refl (ground arith),
      )

  accepted-Answered :
      (s t : StateV1) (now later : ℕ) (c : AcceptedCommand)
      → now ≤ later
      → later < c.retain_until_epoch_seconds
      → command_match s c.command_id c.fingerprint now ≡ none
      → accept (expire_command_journal s now) c ≡ ok t
      → Answered c.command_id c.fingerprint later t
  unfolding accept accepted_state expire_command_journal current_identity
  accepted-Answered s t now later c le kept unknown e =
      let n = saturating_add s.device_sequence 1 in
      (
        added_match s t c.command_id c.fingerprint (accepted_ack c n) c.retain_until_epoch_seconds
            now later le kept unknown (ground arith),
        added_ack s t c.command_id (event_id (codes "ack") c.command_id) (accepted_ack c n)
            (report_blocked (event_id (codes "report") c.command_id)
                (accepted_report s c (saturating_add n 1))
              ∷ [])
            refl (ground arith),
      )

  installed-Answered :
      (agent : Agent Store) (s : StateV1) (now later : ℕ) (c : AcceptedCommand)
      (r : Store × Result StoreError (Unit {0}))
      → now ≤ later
      → later < c.retain_until_epoch_seconds
      → command_match s c.command_id c.fingerprint now ≡ none
      → is_ok (installed services agent (expire_command_journal s now) c r).1 ≡ true
      → Answered c.command_id c.fingerprint later
          (installed services agent (expire_command_journal s now) c r).0.state
  unfolding installed
  installed-Answered agent s now later c (store, ok done) le kept unknown h =
      outcome_holds (Answered c.command_id c.fingerprint later) (record agent { store = store })
        (accept (expire_command_journal s now) c) accepted
        (λ t e. accepted-Answered s t now later c le kept unknown e) h
  installed-Answered agent s now later c (store, err e) le kept unknown h = cc

  committed-Answered :
      (agent : Agent Store) (command : DeviceCommand) (fingerprint : Text)
      (artifact : ResolvedArtifact) (o : ℤ) (later : ℕ)
      → u64_of_i64 o ≤ later
      → later < retention_deadline agent.command_retention_seconds o
      → command_match agent.state command.command_id fingerprint (u64_of_i64 o) ≡ none
      → is_ok (commit services agent command fingerprint artifact o).1 ≡ true
      → Answered command.command_id fingerprint later
          (commit services agent command fingerprint artifact o).0.state
  unfolding commit
  committed-Answered agent command fingerprint artifact o later le kept unknown =
      elim (Result-cases (reserve_commit agent.state (u64_of_i64 o))) [
        | inl ((candidate, revision), e) ↦
            rw (e, commit, (reserve_commit_lem agent.state candidate (u64_of_i64 o) revision e).0)
              (installed-Answered agent agent.state (u64_of_i64 o) later _ _ le kept unknown)
        | inr (x, e) ↦ rw (e, commit) (λ k. cc)
      ]

  refused-Answered :
      (agent : Agent Store) (command : DeviceCommand) (fingerprint : Text) (r : CommandRejection)
      (o : ℤ) (later : ℕ)
      → u64_of_i64 o ≤ later
      → later < retention_deadline agent.command_retention_seconds o
      → command_match agent.state command.command_id fingerprint (u64_of_i64 o) ≡ none
      → is_ok (persist_rejection services agent command fingerprint r o).1 ≡ true
      → Answered command.command_id fingerprint later
          (persist_rejection services agent command fingerprint r o).0.state
  unfolding persist_rejection
  refused-Answered agent command fingerprint r o later le kept unknown =
      let c =
        rejected_command command.command_id fingerprint command.desired_generation
          command.fence_epoch r o (retention_deadline agent.command_retention_seconds o) in
      outcome_holds (Answered command.command_id fingerprint later) agent
        (rejection_candidate agent.state (u64_of_i64 o) c) (rejected r)
        (λ t e. rejected-Answered agent.state t (u64_of_i64 o) later c le kept unknown e)

  Answered-duplicate :
      (agent : Agent Store) (topic : Text) (command : DeviceCommand) (later : ℕ)
      → Answered command.command_id (command_fingerprint command) later agent.state
      → apply_command services agent topic command later ≡ (agent, ok duplicate)
  unfolding apply_command apply_known
  Answered-duplicate agent topic command later h = rw (h.0, apply_command, h.1, apply_known)

  -- A command that no live journal entry holds and that apply_command answers is, when it comes
  -- again on any topic, no earlier and before its retention ends, answered as a duplicate that
  -- changes nothing, where the first time is one that an i64 holds.
  pub apply_command-again :
      (agent : Agent Store) (topic topic_again : Text) (command : DeviceCommand) (now later : ℕ)
      → now ≤ i64_max
      → now ≤ later
      → later < retention_deadline agent.command_retention_seconds (i64_of_u64 now)
      → command_match agent.state command.command_id (command_fingerprint command) now ≡ none
      → is_ok (apply_command services agent topic command now).1 ≡ true
      → apply_command services
          (apply_command services agent topic command now).0
          topic_again
          command
          later
        ≡ ((apply_command services agent topic command now).0, ok duplicate)
  apply_command-again agent topic topic_again command now later time le kept unknown h =
      let exact : u64_of_i64 (i64_of_u64 now) ≡ now = i64-round_trip now time in
      let reached : u64_of_i64 (i64_of_u64 now) ≤ later = subst (λ t. t ≤ later) (sym exact) le in
      let absent =
        ap (command_match agent.state command.command_id (command_fingerprint command)) exact
        ∙ unknown in
      Answered-duplicate (apply_command services agent topic command now).0 topic_again command
        later
        (apply_command_cases services agent topic command now
          (λ r.
            is_ok r.1 ≡ true
            → Answered command.command_id (command_fingerprint command) later r.0.state)
          (λ e k. cc) (λ m held. cc (unknown, m)) (λ m. cc (unknown, m)) (λ m held. cc (unknown, m))
          (λ m held. cc (unknown, m))
          (λ r.
            refused-Answered agent command (command_fingerprint command) r (i64_of_u64 now) later
              reached kept absent)
          (λ identity artifact a.
            committed-Answered agent command (command_fingerprint command) artifact (i64_of_u64 now)
              later reached kept absent)
          h)
