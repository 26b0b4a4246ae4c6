-- ===== src/Device/State/Preservation/Accept.antt =====
-- `accept` of state.rs keeps the state valid.
use mathlib.Core.List.{map-append}
use rss_incubator.Base.{
  ℕ, ◌+◌, ◌≤◌, ◌<◌, ◌≡◌, refl, true, false, Option, none, some, List, [], ◌∷◌, Text, arith, ◌==◌,
  nat_eq, list_eq, ==_refl, is_nonneg, is_positive, All-append, All-map₂, All-not, any, any-append,
  count_if-append, count_if_zero, length, length-append, Distinct-snoc, Distinct-snoc₂, ok, codes,
  u64_max, saturating_add,
}
use rss_incubator.Crates.{Crates, DigestLaws}
use rss_incubator.Crates.Digests.{printed_digest-valid}
use rss_incubator.Device.Types.{
  sha256_digest_valid, credential_generation_try_from, device_identity_try_new,
}
use rss_incubator.Device.State.Stored.{
  StateV1, StoredAck, StoredOutbound, AcceptedCommand, ack, report_blocked, report_ready,
  outbox_limit, command_journal_limit,
}
use rss_incubator.Device.State.Hashes.{event_id, state_hash}
use rss_incubator.Device.State.Entries.{
  is_empty, ack_kind_valid, ack_semantic_valid, report_semantic_valid, command_semantic_valid,
  outbound_id, sequence, report_payload, event_valid, ack_event_kind, outbound_semantic_valid,
}
use rss_incubator.Device.State.Verify.{
  coordinates_valid, is_report, is_blocked_report, is_activation, phase_valid, reconnect_valid,
  activation_valid, report_matches, report_hash, reports_match, pending_valid, verify_pending,
}
use rss_incubator.Device.State.Validity.{EntryIsValid, IsValid, stored_identity}
use rss_incubator.Device.State.Transitions.{
  accepted_ack, accepted_report, accepted_settlement, journal_entry, accepted_state,
}
use rss_incubator.Device.State.Outbound.{rotation_in_flight}
use rss_incubator.Device.State.Preservation.Parts.{sequence_unused, settles}
use rss_incubator.Device.State.Preservation.Recorded.{journal_holds, outbox_holds}

-- What an accepted command carries.
pub record AcceptedIsValid (c : AcceptedCommand) : Type 0 where
  pub named : is_empty c.command_id ≡ false
  pub generation : 0 < c.generation
  pub fence : 0 < c.fence
  pub credential_generation : 0 < c.credential_generation
  pub revision : 0 < c.revision
  pub artifact_digest : sha256_digest_valid c.artifact_digest ≡ true
  pub expires : is_positive c.expires_at ≡ true
  pub observed : is_nonneg c.observed_at ≡ true
  pub fingerprint : sha256_digest_valid c.fingerprint ≡ true
  pub retained : 0 < c.retain_until_epoch_seconds

no_blocked_report :
    (revision : ℕ) (command_id : Text) (es : List StoredOutbound)
    → any is_report es ≡ false
    → any (is_blocked_report revision command_id) es ≡ false
unfolding is_blocked_report report_payload
no_blocked_report revision command_id [] h = refl
no_blocked_report revision command_id (ack id a ∷ es) h = no_blocked_report revision command_id es h
no_blocked_report revision command_id (report_blocked id r ∷ es) h = cc
no_blocked_report revision command_id (report_ready id r ∷ es) h = cc

-- With no blocked report in the outbox, a valid phase leaves nothing to activate.
activation_idle :
    (s t : StateV1) (a : StoredAck) (o : Option ℕ)
    → ((r : ℕ) (c : Text) → any (is_blocked_report r c) s.outbox ≡ false)
    → activation_valid s a o ≡ true
    → activation_valid t a o ≡ true
unfolding activation_valid
activation_idle s t a none idle h = refl
activation_idle s t a (some r) idle h = ground (arith, idle r a.command_id)

pub phase_valid_idle :
    (s t : StateV1) (e : StoredOutbound)
    → ((r : ℕ) (c : Text) → any (is_blocked_report r c) s.outbox ≡ false)
    → phase_valid s e ≡ true
    → is_report e ≡ false
    → phase_valid t e ≡ true
unfolding phase_valid report_payload
phase_valid_idle s t (ack id a) idle h p = activation_idle s t a a.activates_revision idle h
phase_valid_idle s t (report_blocked id r) idle h p = cc
phase_valid_idle s t (report_ready id r) idle h p = cc

module _ ⦃crates : Crates⦄ where
  EntryIsValid-idle :
      (s t : StateV1) (e : StoredOutbound)
      → s.device_sequence ≤ t.device_sequence
      → EntryIsValid s e
      → is_report e ≡ false
      → EntryIsValid t e
  unfolding reports_match report_payload
  EntryIsValid-idle s t (ack id a) le v p = record {
    started = v.started;
    issued = ground (arith, v.issued);
    meaningful = v.meaningful;
    matching = refl;
  }
  EntryIsValid-idle s t (report_blocked id r) le v p = cc
  EntryIsValid-idle s t (report_ready id r) le v p = cc

  -- A valid state with no report awaits no reconnect.
  pub reconnect_idle :
      (s : StateV1) → IsValid s → rotation_in_flight s ≡ false → s.reconnect_revision ≡ none
  unfolding rotation_in_flight reconnect_valid
  reconnect_idle s v idle = ground (arith, v.reconnect, count_if_zero is_report s.outbox idle)

module _ ⦃crates : Crates⦄ (laws : DigestLaws crates) (s : StateV1) (c : AcceptedCommand)
    (v : IsValid s) (good : AcceptedIsValid c) (idle : rotation_in_flight s ≡ false)
    (below : s.device_sequence + 1 < u64_max) where
  accepted_ack-entry : EntryIsValid (accepted_state s c (stored_identity s)) (
      ack
        (event_id (codes "ack") c.command_id)
        (accepted_ack c (saturating_add s.device_sequence 1)))
  unfolding accepted_state sequence outbound_semantic_valid event_valid ack_event_kind
      ack_semantic_valid ack_kind_valid reports_match report_payload
  accepted_ack-entry = record {
    started = ground arith;
    issued = ground arith;
    meaningful = ground (
      arith,
      good.named,
      good.observed,
      ==_refl c.command_id,
      ==_refl (event_id (codes "ack") c.command_id),
    );
    matching = refl;
  }

  hash : Text
  hash =
      state_hash s.identity.tenant_id s.identity.device_id c.credential_generation c.generation
        c.fence c.revision c.artifact_digest

  hash_valid : sha256_digest_valid hash ≡ true
  unfolding hash state_hash
  hash_valid = printed_digest-valid crates laws _

  accepted_report-entry : EntryIsValid (accepted_state s c (stored_identity s)) (
      report_blocked
        (event_id (codes "report") c.command_id)
        (accepted_report s c (saturating_add (saturating_add s.device_sequence 1) 1)))
  unfolding accepted_state sequence outbound_semantic_valid event_valid report_semantic_valid
      reports_match report_matches report_hash report_payload hash
  accepted_report-entry = record {
    started = ground arith;
    issued = ground arith;
    meaningful = ground (
      arith,
      good.named,
      good.observed,
      good.expires,
      good.artifact_digest,
      hash_valid,
      ==_refl (event_id (codes "report") c.command_id),
    );
    matching = ground (arith, ==_refl hash, ==_refl c.artifact_digest);
  }

  pending_settlement :
      verify_pending
        (accepted_state s c (stored_identity s))
        (some (accepted_settlement (stored_identity s) c))
      ≡ ok tt
  unfolding accepted_state verify_pending pending_valid credential_generation_try_from
      device_identity_try_new coordinates_valid
  pending_settlement =
      let entry =
        journal_entry c.command_id c.fingerprint
          (accepted_ack c (saturating_add s.device_sequence 1)) c.retain_until_epoch_seconds in
      let q = accepted_settlement (stored_identity s) c in
      ground (
        arith,
        v.tenant,
        v.device,
        v.coordinates,
        good.named,
        good.fingerprint,
        ==_refl q.topic,
        ==_refl q.settlement_token,
        ==_refl c.command_id,
        ==_refl c.fingerprint,
        any-append (settles q) s.command_journal (entry ∷ []),
      )

  accepted_ack-phase :
      phase_valid (accepted_state s c (stored_identity s)) (
        ack
          (event_id (codes "ack") c.command_id)
          (accepted_ack c (saturating_add s.device_sequence 1)))
      ≡ true
  unfolding accepted_state phase_valid activation_valid is_blocked_report
  accepted_ack-phase =
      rw (reconnect_idle s v idle, any-append (is_blocked_report c.revision c.command_id) s.outbox)
        (ground (arith, ==_refl c.command_id))

  accepted_report-phase :
      phase_valid (accepted_state s c (stored_identity s)) (
        report_blocked
          (event_id (codes "report") c.command_id)
          (accepted_report s c (saturating_add (saturating_add s.device_sequence 1) 1)))
      ≡ true
  unfolding accepted_state phase_valid is_activation
  accepted_report-phase =
      rw (reconnect_idle s v idle, any-append (is_activation c.revision c.command_id) s.outbox)
        (ground (arith, ==_refl c.command_id))

  accepted_coordinates :
      length s.outbox + 2 ≤ outbox_limit
      → length s.command_journal < command_journal_limit
      → coordinates_valid
          (accepted_state s c (stored_identity s))
          (stored_identity (accepted_state s c (stored_identity s)))
        ≡ true
  unfolding accepted_state coordinates_valid
  accepted_coordinates room journal_room = ground (
    arith,
    v.coordinates,
    good.expires,
    good.artifact_digest,
    length-append s.outbox (
        ack (event_id (codes "ack") c.command_id)
          (accepted_ack c (saturating_add s.device_sequence 1))
        ∷ report_blocked (event_id (codes "report") c.command_id)
            (accepted_report s c (saturating_add (saturating_add s.device_sequence 1) 1))
        ∷ []),
    length-append s.command_journal (
        journal_entry c.command_id c.fingerprint
          (accepted_ack c (saturating_add s.device_sequence 1)) c.retain_until_epoch_seconds
        ∷ []),
  )

  -- accept keeps a valid state valid, for a valid command with no rotation in flight, room in
  -- the outbox, the journal and the sequence, unused command and event ids, and a digest of 32
  -- bytes.
  pub accepted_state-IsValid :
      journal_holds s c.command_id ≡ false
      → outbox_holds s (event_id (codes "ack") c.command_id) ≡ false
      → outbox_holds s (event_id (codes "report") c.command_id) ≡ false
      → (event_id (codes "ack") c.command_id == event_id (codes "report") c.command_id) ≡ false
      → length s.outbox + 2 ≤ outbox_limit
      → length s.command_journal < command_journal_limit
      → IsValid (accepted_state s c (stored_identity s))
  unfolding accepted_state rotation_in_flight outbound_id sequence report_payload reconnect_valid
      command_semantic_valid ack_semantic_valid ack_kind_valid
  accepted_state-IsValid fresh ack_fresh report_fresh apart room journal_room =
      let n = saturating_add s.device_sequence 1 in
      let m = saturating_add n 1 in
      let e₁ = ack (event_id (codes "ack") c.command_id) (accepted_ack c n) in
      let e₂ = report_blocked (event_id (codes "report") c.command_id) (accepted_report s c m) in
      let entry =
        journal_entry c.command_id c.fingerprint (accepted_ack c n) c.retain_until_epoch_seconds in
      let t = accepted_state s c (stored_identity s) in
      let quiet = All-not is_report s.outbox idle in
      let reports = count_if-append is_report s.outbox (e₁ ∷ e₂ ∷ []) in
      let none_before = count_if_zero is_report s.outbox idle in
      record {
        tenant = v.tenant;
        device = v.device;
        coordinates = accepted_coordinates room journal_room;
        entries =
            All-append _ s.outbox (e₁ ∷ e₂ ∷ [])
              (All-map₂ s.outbox (λ e. EntryIsValid-idle s t e (omega arith)) v.entries quiet)
              (accepted_ack-entry, (accepted_report-entry, tt));
        event_ids =
            rw (map-append outbound_id s.outbox (e₁ ∷ e₂ ∷ []))
              (Distinct-snoc₂ _ _ _ v.event_ids ack_fresh report_fresh apart);
        sequences = rw (map-append sequence s.outbox (e₁ ∷ e₂ ∷ [])) (
            Distinct-snoc₂ _ n m v.sequences (sequence_unused s n s.outbox v.entries (omega arith))
              (sequence_unused s m s.outbox v.entries (omega arith)) (ground arith));
        commands =
            All-append _ s.command_journal (entry ∷ []) v.commands (
              ground (arith, good.named, good.observed, good.fingerprint, ==_refl c.command_id),
              tt,
            );
        command_ids =
            rw (map-append _ s.command_journal (entry ∷ []))
              (Distinct-snoc _ c.command_id v.command_ids fresh);
        pending = pending_settlement;
        one_report = ground (arith, reports, none_before);
        pending_iff = ground (arith, reports, none_before);
        phases =
            All-append _ s.outbox (e₁ ∷ e₂ ∷ [])
              (All-map₂ s.outbox
                (λ e h q. phase_valid_idle s t e (λ r k. no_blocked_report r k s.outbox idle) h q)
                v.phases quiet)
              (accepted_ack-phase, (accepted_report-phase, tt));
        reconnect = rw (reconnect_idle s v idle) refl;
      }
