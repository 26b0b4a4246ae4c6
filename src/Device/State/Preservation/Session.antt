-- ===== src/Device/State/Preservation/Session.antt =====
-- `mark_reconnected` and `mark_inbound_settled` of state.rs keep the state valid.
use rss_incubator.Base.{
  ℕ, ◌≡◌, refl, ◌∙◌, ap, suc, inl, inr, Bool-cases, Option-cases, true, not, Option, none, some,
  List, [], ◌∷◌, map, Text, arith, ◌==◌, nat_eq, list_eq, is_some, eq_some, is_some_and, All,
  All-map, count_if, length, ok, subst,
}
use rss_incubator.Crates.{Crates}
use rss_incubator.Device.State.Stored.{
  StateV1, StoredAck, StoredOutbound, StoredInboundSettlement, ack, report_blocked, report_ready,
}
use rss_incubator.Device.State.Entries.{
  outbound_id, sequence, report_payload, event_valid, outbound_semantic_valid,
}
use rss_incubator.Device.State.Verify.{
  coordinates_valid, is_report, activation_valid, phase_valid, reconnect_valid, verify_pending,
  pending_valid,
}
use rss_incubator.Device.State.Validity.{EntryIsValid, IsValid}
use rss_incubator.Device.State.Outbound.{mark_reconnected, mark_inbound_settled, unblock}
use rss_incubator.Device.State.Preservation.Parts.{
  EntryIsValid-rebuilt, verify_pending-rebuilt, phase_valid-rebuilt,
}

id-unblock : (es : List StoredOutbound) → map outbound_id (map unblock es) ≡ map outbound_id es
unfolding outbound_id unblock
id-unblock [] = refl
id-unblock (ack id a ∷ es) = ap (◌∷◌ id) (id-unblock es)
id-unblock (report_blocked id p ∷ es) = ap (◌∷◌ id) (id-unblock es)
id-unblock (report_ready id p ∷ es) = ap (◌∷◌ id) (id-unblock es)

sequence-unblock : (es : List StoredOutbound) → map sequence (map unblock es) ≡ map sequence es
unfolding sequence unblock
sequence-unblock [] = refl
sequence-unblock (ack id a ∷ es) = ap (◌∷◌ a.device_sequence) (sequence-unblock es)
sequence-unblock (report_blocked id p ∷ es) = ap (◌∷◌ p.device_sequence) (sequence-unblock es)
sequence-unblock (report_ready id p ∷ es) = ap (◌∷◌ p.device_sequence) (sequence-unblock es)

count-unblock :
    (es : List StoredOutbound) → count_if is_report (map unblock es) ≡ count_if is_report es
unfolding report_payload unblock
count-unblock [] = refl
count-unblock (ack id a ∷ es) = count-unblock es
count-unblock (report_blocked id p ∷ es) = ap suc (count-unblock es)
count-unblock (report_ready id p ∷ es) = ap suc (count-unblock es)

length-unblock : (es : List StoredOutbound) → length (map unblock es) ≡ length es
length-unblock [] = refl
length-unblock (e ∷ es) = ap suc (length-unblock es)

All-unblock {κ} :
    (P Q : StoredOutbound → Type κ) (es : List StoredOutbound)
    → ((e : StoredOutbound) → P e → Q (unblock e))
    → All P es
    → All Q (map unblock es)
All-unblock P Q [] f h = tt
All-unblock P Q (e ∷ es) f h = (f e h.0, All-unblock P Q es f h.1)

-- Once a reconnect is awaited, no entry activates a revision; after it, no report is blocked.
reconnected_ack :
    (s t : StateV1) (a : StoredAck) (o : Option ℕ)
    → is_some s.reconnect_revision ≡ true
    → activation_valid s a o ≡ true
    → activation_valid t a o ≡ true
unfolding activation_valid
reconnected_ack s t a none w h = refl
reconnected_ack s t a (some r) w h = ground arith

reconnected_phase :
    (s t : StateV1) (e : StoredOutbound)
    → is_some s.reconnect_revision ≡ true
    → t.reconnect_revision ≡ none
    → phase_valid s e ≡ true
    → phase_valid t (unblock e) ≡ true
unfolding phase_valid unblock
reconnected_phase s t (ack id a) w n h = reconnected_ack s t a a.activates_revision w h
reconnected_phase s t (report_blocked id p) w n h = rw n
reconnected_phase s t (report_ready id p) w n h = rw n

module _ ⦃crates : Crates⦄ (s : StateV1) (v : IsValid s) where
  unblock-EntryIsValid :
      (t : StateV1) (e : StoredOutbound) → EntryIsValid t e → EntryIsValid t (unblock e)
  unfolding unblock sequence report_payload outbound_semantic_valid event_valid
  unblock-EntryIsValid t (ack id a) h = h
  unblock-EntryIsValid t (report_blocked id p) h = record {
    started = h.started;
    issued = h.issued;
    meaningful = h.meaningful;
    matching = h.matching;
  }
  unblock-EntryIsValid t (report_ready id p) h = h

  unblocked : StateV1
  unblocked = record s { outbox = map unblock s.outbox; reconnect_revision = none }

  unblocked-IsValid : is_some s.reconnect_revision ≡ true → IsValid unblocked
  unfolding unblocked coordinates_valid reconnect_valid
  unblocked-IsValid w =
      let ob = map unblock s.outbox in
      record {
        tenant = v.tenant;
        device = v.device;
        coordinates = ground (arith, v.coordinates, length-unblock s.outbox);
        entries =
            All-unblock (EntryIsValid s) (EntryIsValid unblocked) s.outbox
              (λ e h.
                EntryIsValid-rebuilt s s.device_sequence s.command_journal ob none s.pending_inbound
                  (unblock e) (omega arith) (unblock-EntryIsValid s e h))
              v.entries;
        event_ids = rw (id-unblock s.outbox) v.event_ids;
        sequences = rw (sequence-unblock s.outbox) v.sequences;
        commands = v.commands;
        command_ids = v.command_ids;
        pending =
            verify_pending-rebuilt s s.device_sequence s.command_journal ob none s.pending_inbound
              s.pending_inbound (λ q _ h. h) v.pending;
        one_report = rw (count-unblock s.outbox) v.one_report;
        pending_iff = rw (count-unblock s.outbox) v.pending_iff;
        phases =
            All-unblock (λ e. phase_valid s e ≡ true) (λ e. phase_valid unblocked e ≡ true) s.outbox
              (λ e. reconnected_phase s unblocked e w refl) v.phases;
        reconnect = refl;
      }

  -- mark_reconnected keeps a valid state valid for every revision, awaited or not.
  pub mark_reconnected-IsValid : (revision : ℕ) → IsValid (mark_reconnected s revision).1
  unfolding mark_reconnected unblocked
  mark_reconnected-IsValid revision = elim (Bool-cases (eq_some s.reconnect_revision revision)) [
    | inl yes' ↦ rw (yes', mark_reconnected) (unblocked-IsValid (ground arith))
    | inr no' ↦ rw (no', mark_reconnected) v
  ]

  settled-pending :
      (q : StoredInboundSettlement)
      → verify_pending s (some q) ≡ ok tt
      → verify_pending s (some (record q { settled = true })) ≡ ok tt
  unfolding verify_pending pending_valid
  settled-pending q h = h

  settled_state :
      (q : StoredInboundSettlement)
      → s.pending_inbound ≡ some q
      → IsValid (record s { pending_inbound = some (record q { settled = true }) })
  unfolding coordinates_valid reconnect_valid
  settled_state q e =
      let p : Option StoredInboundSettlement = some (record q { settled = true }) in
      record {
        tenant = v.tenant;
        device = v.device;
        coordinates = v.coordinates;
        entries =
            All-map s.outbox
              (λ x.
                EntryIsValid-rebuilt s s.device_sequence s.command_journal s.outbox
                  s.reconnect_revision p x (omega arith))
              v.entries;
        event_ids = v.event_ids;
        sequences = v.sequences;
        commands = v.commands;
        command_ids = v.command_ids;
        pending =
            verify_pending-rebuilt s s.device_sequence s.command_journal s.outbox
              s.reconnect_revision p p (λ r _ h. h)
              (settled-pending q (subst (λ o. verify_pending s o ≡ ok tt) e v.pending));
        one_report = v.one_report;
        pending_iff = ground (arith, v.pending_iff);
        phases =
            All-map s.outbox
              (λ x h.
                phase_valid-rebuilt s s.device_sequence s.command_journal s.outbox
                  s.reconnect_revision p x refl refl
                ∙ h)
              v.phases;
        reconnect = v.reconnect;
      }

  -- mark_inbound_settled keeps a valid state valid with every token and without one.
  pub mark_inbound_settled-IsValid :
      (token : Option Text) → IsValid (mark_inbound_settled s token).1
  unfolding mark_inbound_settled
  mark_inbound_settled-IsValid token = elim (Option-cases s.pending_inbound) [
    | inl e ↦ rw (e, mark_inbound_settled) v
    | inr (q, e) ↦ elim (Bool-cases (is_some_and token (λ t. not (t == q.settlement_token)))) [
      | inl wrong ↦ rw (e, wrong, mark_inbound_settled) v
      | inr right ↦ rw (e, right, mark_inbound_settled) (settled_state q e)
    ]
  ]
