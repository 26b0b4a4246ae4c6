-- ===== src/Device/State/Preservation/Parts.antt =====
-- What the checks of state.rs read of a state, and the two parts of a recorded answer: an entry of
-- the journal, and an acknowledgement that activates nothing.
use mathlib.Core.List.{map-append}
use rss_incubator.Base.{
  ℕ, ◌≤◌, ◌<◌, ◌≡◌, refl, ◌∙◌, Bool, true, false, ◌&&◌, ◌||◌, Option, none, some, List, [], ◌∷◌,
  ◌++◌, map, Text, arith, ◌==◌, nat_eq, list_eq, ltb, All, All-append, All-map, any, any-append,
  count_if-append, length, length-append, Distinct-snoc, Distinct-retain, any-retain, All-retain,
  length-retain-le, retain, ==_sym, contains, ok,
}
use rss_incubator.Device.State.Journal.{expire_command_journal, is_pending_command}
use rss_incubator.Crates.{Crates}
use rss_incubator.Device.State.Stored.{
  StateV1, StoredAck, StoredReport, StoredCommand, StoredOutbound, StoredInboundSettlement, ack,
  report_blocked, report_ready, outbox_limit, command_journal_limit,
}
use rss_incubator.Device.State.Entries.{
  command_semantic_valid, outbound_id, sequence, report_payload, outbound_semantic_valid,
}
use rss_incubator.Device.State.Verify.{
  coordinates_valid, is_report, is_blocked_report, is_activation, activation_valid, phase_valid,
  reconnect_valid, report_matches, report_hash, reports_match, pending_valid, verify_pending,
}
use rss_incubator.Device.State.Validity.{EntryIsValid, IsValid}

-- The journal entry of a pending settlement.
abbrev pub settles : StoredInboundSettlement → StoredCommand → Bool
settles q c = c.command_id == q.command_id && c.fingerprint == q.fingerprint

-- A state with the same schema, identity and installed credential.
abbrev pub rebuilt :
    StateV1
    → ℕ
    → List StoredCommand
    → List StoredOutbound
    → Option ℕ
    → Option StoredInboundSettlement
    → StateV1
rebuilt s n j ob rc p = record s {
  device_sequence = n;
  command_journal = j;
  outbox = ob;
  reconnect_revision = rc;
  pending_inbound = p;
}

abbrev pub with_entry : StateV1 → StoredCommand → StateV1
with_entry s c = record s { command_journal = s.command_journal ++ c ∷ [] }

abbrev pub with_ack : StateV1 → ℕ → Text → StoredAck → StateV1
with_ack s n id payload = record s { device_sequence = n; outbox = s.outbox ++ ack id payload ∷ [] }

module _ ⦃crates : Crates⦄ (s : StateV1) (n : ℕ) (j : List StoredCommand) (ob : List StoredOutbound)
    (rc : Option ℕ) (p : Option StoredInboundSettlement) where
  reports_match-rebuilt :
      (r : Option StoredReport) → reports_match (rebuilt s n j ob rc p) r ≡ reports_match s r
  unfolding reports_match report_matches report_hash
  reports_match-rebuilt none = refl
  reports_match-rebuilt (some r) = refl

  -- An entry of the outbox stays valid while the sequence does not fall.
  pub EntryIsValid-rebuilt :
      (e : StoredOutbound)
      → s.device_sequence ≤ n
      → EntryIsValid s e
      → EntryIsValid (rebuilt s n j ob rc p) e
  EntryIsValid-rebuilt e le v = record {
    started = v.started;
    issued = ground (arith, v.issued);
    meaningful = v.meaningful;
    matching = rw (reports_match-rebuilt (report_payload e)) v.matching;
  }

  activation_valid-rebuilt :
      (a : StoredAck) (o : Option ℕ)
      → ob ≡ s.outbox
      → rc ≡ s.reconnect_revision
      → activation_valid (rebuilt s n j ob rc p) a o ≡ activation_valid s a o
  unfolding activation_valid
  activation_valid-rebuilt a none e f = refl
  activation_valid-rebuilt a (some r) e f = rw (e, f)

  -- The phase check reads the outbox and the reconnect.
  pub phase_valid-rebuilt :
      (e : StoredOutbound)
      → ob ≡ s.outbox
      → rc ≡ s.reconnect_revision
      → phase_valid (rebuilt s n j ob rc p) e ≡ phase_valid s e
  unfolding phase_valid
  phase_valid-rebuilt (ack id a) e f = activation_valid-rebuilt a a.activates_revision e f
  phase_valid-rebuilt (report_blocked id r) e f = rw (e, f)
  phase_valid-rebuilt (report_ready id r) e f = rw f

  -- The check of the pending settlement reads the journal.
  pub verify_pending-rebuilt :
      (o : Option StoredInboundSettlement)
      → ((q : StoredInboundSettlement)
          → o ≡ some q
          → any (settles q) s.command_journal ≡ true
          → any (settles q) j ≡ true)
      → verify_pending s o ≡ ok tt
      → verify_pending (rebuilt s n j ob rc p) o ≡ ok tt
  unfolding verify_pending pending_valid
  verify_pending-rebuilt none k h = refl
  verify_pending-rebuilt (some q) k h = ground (arith, k q refl)

-- No entry of the outbox carries a sequence above the state's.
pub sequence_unused :
    ⦃crates : Crates⦄
    → (s : StateV1) (m : ℕ) (es : List StoredOutbound) → All (EntryIsValid s) es
    → s.device_sequence < m
    → contains (map sequence es) m ≡ false
sequence_unused s m [] v h = refl
sequence_unused s m (e ∷ es) v h = ground (arith, sequence_unused s m es, v.0.issued)

-- An acknowledgement that activates nothing changes no phase.
module _ (s : StateV1) (n : ℕ) (id : Text) (a : StoredAck)
    (passive : a.activates_revision ≡ none) where
  no_blocked :
      (revision : ℕ) (command_id : Text)
      → any (is_blocked_report revision command_id) (s.outbox ++ ack id a ∷ [])
        ≡ any (is_blocked_report revision command_id) s.outbox
  unfolding is_blocked_report
  no_blocked revision command_id =
      ground (arith, any-append (is_blocked_report revision command_id) s.outbox (ack id a ∷ []))

  no_activation :
      (revision : ℕ) (command_id : Text)
      → any (is_activation revision command_id) (s.outbox ++ ack id a ∷ [])
        ≡ any (is_activation revision command_id) s.outbox
  unfolding is_activation
  no_activation revision command_id =
      ground (arith, any-append (is_activation revision command_id) s.outbox (ack id a ∷ []))

  activation_valid-with_ack :
      (b : StoredAck) (o : Option ℕ)
      → activation_valid (with_ack s n id a) b o ≡ activation_valid s b o
  unfolding activation_valid
  activation_valid-with_ack b none = refl
  activation_valid-with_ack b (some r) = rw (no_blocked r b.command_id)

  phase_valid-with_ack : (e : StoredOutbound) → phase_valid (with_ack s n id a) e ≡ phase_valid s e
  unfolding phase_valid
  phase_valid-with_ack (ack i b) = activation_valid-with_ack b b.activates_revision
  phase_valid-with_ack (report_blocked i r) = rw (no_activation r.credential_revision r.command_id)
  phase_valid-with_ack (report_ready i r) = refl

  own_phase : phase_valid (with_ack s n id a) (ack id a) ≡ true
  unfolding phase_valid activation_valid
  own_phase = rw passive

module _ ⦃crates : Crates⦄ where
  -- An entry at the end of the journal, under a command id that the journal does not hold.
  pub with_entry-IsValid :
      (s : StateV1) (c : StoredCommand)
      → IsValid s
      → command_semantic_valid c ≡ true
      → contains (map (λ (d : StoredCommand). d.command_id) s.command_journal) c.command_id ≡ false
      → length s.command_journal < command_journal_limit
      → IsValid (with_entry s c)
  unfolding coordinates_valid reconnect_valid
  with_entry-IsValid s c v good fresh room =
      let j = s.command_journal ++ c ∷ [] in
      record {
        tenant = v.tenant;
        device = v.device;
        coordinates = ground (arith, v.coordinates, length-append s.command_journal (c ∷ []));
        entries =
            All-map s.outbox
              (λ e.
                EntryIsValid-rebuilt s _ j s.outbox s.reconnect_revision s.pending_inbound e
                  (omega arith))
              v.entries;
        event_ids = v.event_ids;
        sequences = v.sequences;
        commands = All-append _ s.command_journal (c ∷ []) v.commands (good, tt);
        command_ids =
            rw (map-append _ s.command_journal (c ∷ []))
              (Distinct-snoc _ c.command_id v.command_ids fresh);
        pending =
            verify_pending-rebuilt s _ j s.outbox s.reconnect_revision s.pending_inbound
              s.pending_inbound
              (λ q e h. ground (arith, any-append (settles q) s.command_journal (c ∷ [])))
              v.pending;
        one_report = v.one_report;
        pending_iff = v.pending_iff;
        phases =
            All-map s.outbox
              (λ e h.
                phase_valid-rebuilt s _ j s.outbox s.reconnect_revision s.pending_inbound e refl
                  refl
                ∙ h)
              v.phases;
        reconnect = v.reconnect;
      }

  -- expire_command_journal keeps a valid state valid: the entry of the pending command stays.
  pub expire-IsValid : (s : StateV1) (now : ℕ) → IsValid s → IsValid (expire_command_journal s now)
  unfolding coordinates_valid reconnect_valid expire_command_journal
  expire-IsValid s now v =
      let keep = λ (c : StoredCommand).
        ltb now c.retain_until_epoch_seconds || is_pending_command s c.command_id in
      let j = retain keep s.command_journal in
      record {
        tenant = v.tenant;
        device = v.device;
        coordinates = ground (arith, v.coordinates, length-retain-le keep s.command_journal);
        entries =
            All-map s.outbox
              (λ e.
                EntryIsValid-rebuilt s _ j s.outbox s.reconnect_revision s.pending_inbound e
                  (omega arith))
              v.entries;
        event_ids = v.event_ids;
        sequences = v.sequences;
        commands = All-retain _ keep s.command_journal v.commands;
        command_ids =
            Distinct-retain (λ (d : StoredCommand). d.command_id) keep s.command_journal
              v.command_ids;
        pending =
            verify_pending-rebuilt s _ j s.outbox s.reconnect_revision s.pending_inbound
              s.pending_inbound
              (λ q e.
                any-retain (settles q) keep s.command_journal
                  (λ c h. ground (arith, ==_sym c.command_id q.command_id)))
              v.pending;
        one_report = v.one_report;
        pending_iff = v.pending_iff;
        phases =
            All-map s.outbox
              (λ e h.
                phase_valid-rebuilt s _ j s.outbox s.reconnect_revision s.pending_inbound e refl
                  refl
                ∙ h)
              v.phases;
        reconnect = v.reconnect;
      }

  -- An acknowledgement that activates nothing, under a new event id and a new sequence.
  pub with_ack-IsValid :
      (s : StateV1) (n : ℕ) (id : Text) (a : StoredAck)
      → IsValid s
      → a.activates_revision ≡ none
      → outbound_semantic_valid (ack id a) ≡ true
      → contains (map outbound_id s.outbox) id ≡ false
      → contains (map sequence s.outbox) a.device_sequence ≡ false
      → 0 < a.device_sequence
      → s.device_sequence ≤ n
      → a.device_sequence ≤ n
      → length s.outbox < outbox_limit
      → IsValid (with_ack s n id a)
  unfolding coordinates_valid reconnect_valid outbound_id sequence report_payload reports_match
  with_ack-IsValid s n id a v passive good new_id new_sequence started le issued room =
      let ob = s.outbox ++ ack id a ∷ [] in
      let reports = count_if-append is_report s.outbox (ack id a ∷ []) in
      record {
        tenant = v.tenant;
        device = v.device;
        coordinates = ground (arith, v.coordinates, length-append s.outbox (ack id a ∷ []));
        entries =
            All-append _ s.outbox (ack id a ∷ [])
              (All-map s.outbox
                (λ e.
                  EntryIsValid-rebuilt s n s.command_journal ob s.reconnect_revision
                    s.pending_inbound e le)
                v.entries)
              (
                record {
                  started = ground arith;
                  issued = ground arith;
                  meaningful = good;
                  matching = refl;
                },
                tt,
              );
        event_ids =
            rw (map-append outbound_id s.outbox (ack id a ∷ []))
              (Distinct-snoc _ id v.event_ids new_id);
        sequences =
            rw (map-append sequence s.outbox (ack id a ∷ []))
              (Distinct-snoc _ a.device_sequence v.sequences new_sequence);
        commands = v.commands;
        command_ids = v.command_ids;
        pending =
            verify_pending-rebuilt s n s.command_journal ob s.reconnect_revision s.pending_inbound
              s.pending_inbound (λ q e h. h) v.pending;
        one_report = ground (arith, reports, v.one_report);
        pending_iff = ground (arith, reports, v.pending_iff);
        phases =
            All-append _ s.outbox (ack id a ∷ [])
              (All-map s.outbox (λ e h. phase_valid-with_ack s n id a passive e ∙ h) v.phases)
              (own_phase s n id a passive, tt);
        reconnect = ground (arith, reports, v.reconnect);
      }
