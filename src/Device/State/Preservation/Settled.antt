-- ===== src/Device/State/Preservation/Settled.antt =====
-- What `confirm_outbound` of state.rs leaves when it takes an entry out of a valid outbox.
use rss_incubator.Base.{
  ℕ, ◌≡◌, refl, ◌∙◌, true, false, ◌&&◌, Option, none, some, List, [], ◌∷◌, map, Text, arith, ◌==◌,
  nat_eq, list_eq, ==_refl, subst, eq_of_==, eq_some, is_some, bool_beq, All, All-map, All-map₂,
  All-not, any, count_if, contains, Taken, Taken-any, Taken-count_if, Taken-length, Taken-All,
  Taken-Distinct, ok,
}
use rss_incubator.Crates.{Crates}
use rss_incubator.Device.State.Stored.{
  StateV1, StoredAck, StoredReport, StoredOutbound, StoredInboundSettlement, ack, report_blocked,
  report_ready,
}
use rss_incubator.Device.State.Entries.{outbound_id, sequence, report_payload}
use rss_incubator.Device.State.Verify.{
  coordinates_valid, is_report, is_blocked_report, is_activation, activation_valid, phase_valid,
  reconnect_valid, verify_pending,
}
use rss_incubator.Device.State.Validity.{IsValid}
use rss_incubator.Device.State.Preservation.Accept.{phase_valid_idle}
use rss_incubator.Device.State.Preservation.Parts.{
  rebuilt, EntryIsValid-rebuilt, verify_pending-rebuilt,
}
use rss_incubator.Device.State.Preservation.Outbox.{
  OwnActivation, none_blocked, blocked_unique, blocked_only, own_event, no_second,
}

module _ ⦃crates : Crates⦄ (s : StateV1) (e : StoredOutbound) (rest : List StoredOutbound)
    (v : IsValid s) (t : Taken e rest s.outbox) where
  -- The state without the entry, under a reconnect and a settlement of its own.
  removed-IsValid :
      (rc : Option ℕ) (p : Option StoredInboundSettlement)
      → verify_pending s p ≡ ok tt
      → bool_beq (is_some p) (count_if is_report rest == 1) ≡ true
      → All
          (λ x. phase_valid (rebuilt s s.device_sequence s.command_journal rest rc p) x ≡ true)
          rest
      → reconnect_valid (rebuilt s s.device_sequence s.command_journal rest rc p) ≡ true
      → IsValid (rebuilt s s.device_sequence s.command_journal rest rc p)
  unfolding coordinates_valid
  removed-IsValid rc p pending iff phases reconnect = record {
    tenant = v.tenant;
    device = v.device;
    coordinates = ground (arith, v.coordinates, Taken-length t);
    entries =
        All-map rest
          (λ x.
            EntryIsValid-rebuilt s s.device_sequence s.command_journal rest rc p x (omega arith))
          (Taken-All _ t v.entries).1;
    event_ids = (Taken-Distinct outbound_id t v.event_ids).1;
    sequences = (Taken-Distinct sequence t v.sequences).1;
    commands = v.commands;
    command_ids = v.command_ids;
    pending =
        verify_pending-rebuilt s s.device_sequence s.command_journal rest rc p p (λ q _ h. h)
          pending;
    one_report = ground (arith, v.one_report, Taken-count_if is_report t);
    pending_iff = iff;
    phases = phases;
    reconnect = reconnect;
  }

module _ (s : StateV1) (ob : List StoredOutbound)
    (blocked : (r : ℕ) (c : Text)
      → any (is_blocked_report r c) ob ≡ any (is_blocked_report r c) s.outbox)
    (active : (r : ℕ) (c : Text)
      → any (is_activation r c) ob ≡ any (is_activation r c) s.outbox) where
  activation_valid_same :
      (a : StoredAck) (o : Option ℕ)
      → activation_valid (record s { outbox = ob }) a o ≡ activation_valid s a o
  unfolding activation_valid
  activation_valid_same a none = refl
  activation_valid_same a (some r) = rw (blocked r a.command_id)

  phase_valid_same :
      (x : StoredOutbound) → phase_valid (record s { outbox = ob }) x ≡ phase_valid s x
  unfolding phase_valid
  phase_valid_same (ack id a) = activation_valid_same a a.activates_revision
  phase_valid_same (report_blocked id p) = rw (active p.credential_revision p.command_id)
  phase_valid_same (report_ready id p) = refl

module _ ⦃crates : Crates⦄ (s : StateV1) (id : Text) (a : StoredAck) (rest : List StoredOutbound)
    (v : IsValid s) (t : Taken (ack id a) rest s.outbox) where
  -- An acknowledgement that activates nothing leaves every phase as it was.
  pub confirmed_passive : a.activates_revision ≡ none → IsValid (record s { outbox = rest })
  unfolding reconnect_valid report_payload is_blocked_report is_activation
  confirmed_passive passive =
      let reports = Taken-count_if is_report t in
      removed-IsValid s (ack id a) rest v t s.reconnect_revision s.pending_inbound v.pending
        (ground (arith, reports, v.pending_iff))
        (All-map rest
          (λ x h.
            phase_valid_same s rest (λ r c. ground (arith, Taken-any (is_blocked_report r c) t))
              (λ r c. ground (arith, Taken-any (is_activation r c) t)) x
            ∙ h)
          (Taken-All _ t v.phases).1)
        (ground (arith, reports, v.reconnect))

  -- An activating acknowledgement: the report that it unblocks waits for the reconnect.
  module _ (r : ℕ) (active : a.activates_revision ≡ some r) (own : All OwnActivation s.outbox) where
    pub activation_facts :
        (r ≡ s.current.credential_revision)
        × (any (is_blocked_report r a.command_id) s.outbox ≡ true)
        × (s.reconnect_revision ≡ none)
    unfolding phase_valid activation_valid
    activation_facts = ground (arith, active, (Taken-All _ t v.phases).0)

    awaiting : StateV1
    awaiting = record s { outbox = rest; reconnect_revision = some r }

    alone : any (is_activation r a.command_id) rest ≡ false
    unfolding outbound_id
    alone =
        no_second s r a.command_id rest
          (subst (λ i. contains (map outbound_id rest) i ≡ false)
            (own_event s id a (Taken-All _ t v.entries).0 ((Taken-All _ t own).0 (rw active refl)))
            (Taken-Distinct outbound_id t v.event_ids).0)
          (Taken-All _ t v.entries).1 (Taken-All _ t own).1

    awaiting_ack :
        (b : StoredAck) (o : Option ℕ)
        → activation_valid s b o ≡ true
        → (eq_some o r && b.command_id == a.command_id) ≡ false
        → activation_valid awaiting b o ≡ true
    unfolding activation_valid awaiting
    awaiting_ack b none h q = refl
    awaiting_ack b (some r') h q = ground (
      arith,
      activation_facts,
      blocked_unique r r' a.command_id b.command_id s.outbox v.one_report,
      ==_refl b.command_id,
    )

    awaiting_phase :
        (x : StoredOutbound)
        → phase_valid s x ≡ true
        → is_activation r a.command_id x ≡ false
        → (is_report x ≡ true → is_blocked_report r a.command_id x ≡ true)
        → phase_valid awaiting x ≡ true
    unfolding phase_valid is_activation is_blocked_report awaiting report_payload
    awaiting_phase (ack i b) h q k = awaiting_ack b b.activates_revision h q
    awaiting_phase (report_blocked i p) h q k =
        let same : (p.credential_revision == r && p.command_id == a.command_id) ≡ true = k refl in
        rw
          (
            eq_of_== p.credential_revision r (ground arith),
            eq_of_== p.command_id a.command_id (ground arith),
            alone,
          )
          (ground arith)
    awaiting_phase (report_ready i p) h q k = absurd (ground (arith, k refl))

    pub confirmed_activation : IsValid (record s { outbox = rest; reconnect_revision = some r })
    unfolding awaiting reconnect_valid report_payload
    confirmed_activation =
        let reports = Taken-count_if is_report t in
        removed-IsValid s (ack id a) rest v t (some r) s.pending_inbound v.pending
          (ground (arith, reports, v.pending_iff))
          (All-map₂ rest (λ x hq k. awaiting_phase x hq.0 hq.1 k)
            (All-map₂ {R = λ x. (phase_valid s x ≡ true) × (is_activation r a.command_id x ≡ false)}
              rest (λ x h q. (h, q)) (Taken-All _ t v.phases).1
              (All-not (is_activation r a.command_id) rest alone))
            (Taken-All _ t
              (blocked_only r a.command_id s.outbox v.one_report activation_facts.1)).1)
          (ground
            (arith, reports, v.one_report, activation_facts, none_blocked r a.command_id s.outbox))

-- No report is left where their number is zero.
All-answered :
    (es : List StoredOutbound) → count_if is_report es ≡ 0 → All (λ x. is_report x ≡ false) es
All-answered [] h = tt
All-answered (x ∷ es) h = ground (arith, All-answered es)

-- The confirmed report ends the rotation.
pub confirmed_report :
    ⦃crates : Crates⦄
    → (s : StateV1) (id : Text) (p : StoredReport) (rest : List StoredOutbound) → IsValid s
    → Taken (report_ready id p) rest s.outbox
    → IsValid (record s { outbox = rest; pending_inbound = none })
unfolding reconnect_valid verify_pending report_payload is_blocked_report phase_valid
confirmed_report s id p rest v t =
    let reports = Taken-count_if is_report t in
    let done : count_if is_report rest ≡ 0 = ground (arith, reports, v.one_report) in
    removed-IsValid s (report_ready id p) rest v t s.reconnect_revision none refl
      (ground (arith, done))
      (All-map₂ rest
        (λ x.
          phase_valid_idle s (record s { outbox = rest; pending_inbound = none }) x
            (λ r c. Taken-any (is_blocked_report r c) t ∙ none_blocked r c rest done))
        (Taken-All _ t v.phases).1 (All-answered rest done))
      (ground (arith, (Taken-All _ t v.phases).0))
