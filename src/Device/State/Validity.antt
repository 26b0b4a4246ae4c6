-- ===== src/Device/State/Validity.antt =====
-- What `validate` of state.rs promises of a state, as a predicate on its parts, and that the loops
-- decide it.
use rss_incubator.Base.{
  ℕ, ◌≡◌, refl, inl, inr, Result-cases, true, false, List, [], ◌∷◌, map, Text, arith, ◌==◌, nat_eq,
  list_eq, ltb, is_some, bool_beq, All, Distinct, Fresh, Fresh-cons, cons-Fresh, nil-Fresh,
  count_if, ok,
}
use rss_incubator.Crates.{Crates}
use rss_incubator.Device.Types.{
  DeviceIdentity, credential_generation_try_from, device_identity_try_new,
}
use rss_incubator.Device.State.Stored.{StateV1, StoredCommand, StoredOutbound}
use rss_incubator.Device.State.Entries.{
  command_semantic_valid, outbound_id, sequence, report_payload, outbound_semantic_valid,
}
use rss_incubator.Device.State.Verify.{
  coordinates_valid, is_report, phase_valid, verify_phases, verify_journal, reconnect_valid,
  reports_match, verify_outbox, verify_pending, verify, validate, current_identity,
}

-- The identity that a state stores.
abbrev pub stored_identity : StateV1 → DeviceIdentity
stored_identity s = record {
  tenant = s.identity.tenant_id;
  device = s.identity.device_id;
  credential_generation = s.identity.credential_generation;
}

abbrev command_ids : List StoredCommand → List Text
command_ids = map λ c. c.command_id

module _ ⦃crates : Crates⦄ where
  -- One entry of the outbox, by itself.
  pub record EntryIsValid (s : StateV1) (e : StoredOutbound) : Type 0 where
    pub started : (sequence e == 0) ≡ false
    pub issued : ltb s.device_sequence (sequence e) ≡ false
    pub meaningful : outbound_semantic_valid e ≡ true
    pub matching : reports_match s (report_payload e) ≡ true

  pub record IsValid (s : StateV1) : Type 0 where
    pub tenant : (s.identity.tenant_id == 0) ≡ false
    pub device : (s.identity.device_id == 0) ≡ false
    pub coordinates : coordinates_valid s (stored_identity s) ≡ true
    pub entries : All (EntryIsValid s) s.outbox
    pub event_ids : Distinct (map outbound_id s.outbox)
    pub sequences : Distinct (map sequence s.outbox)
    pub commands : All (λ c. command_semantic_valid c ≡ true) s.command_journal
    pub command_ids : Distinct (map (λ (c : StoredCommand). c.command_id) s.command_journal)
    pub pending : verify_pending s s.pending_inbound ≡ ok tt
    pub one_report : ltb 1 (count_if is_report s.outbox) ≡ false
    pub pending_iff : bool_beq (is_some s.pending_inbound) (count_if is_report s.outbox == 1) ≡ true
    pub phases : All (λ e. phase_valid s e ≡ true) s.outbox
    pub reconnect : reconnect_valid s ≡ true

  verify_outbox_sound :
      (s : StateV1) (ids : List Text) (sequences : List ℕ) (es : List StoredOutbound)
      → verify_outbox s ids sequences es ≡ ok tt
      → All (EntryIsValid s) es
        × Distinct (map outbound_id es)
        × Fresh ids (map outbound_id es)
        × Distinct (map sequence es)
        × Fresh sequences (map sequence es)
  unfolding verify_outbox
  verify_outbox_sound s ids sequences [] h = (tt, tt, tt, tt, tt)
  verify_outbox_sound s ids sequences (e ∷ es) h = ground (
    arith,
    verify_outbox_sound s (outbound_id e ∷ ids) (sequence e ∷ sequences) es,
    Fresh-cons (outbound_id e) ids (map outbound_id es),
    Fresh-cons (sequence e) sequences (map sequence es),
  )

  verify_outbox_complete :
      (s : StateV1) (ids : List Text) (sequences : List ℕ) (es : List StoredOutbound)
      → All (EntryIsValid s) es
      → Distinct (map outbound_id es)
      → Fresh ids (map outbound_id es)
      → Distinct (map sequence es)
      → Fresh sequences (map sequence es)
      → verify_outbox s ids sequences es ≡ ok tt
  unfolding verify_outbox
  verify_outbox_complete s ids sequences [] v d f d' f' = refl
  verify_outbox_complete s ids sequences (e ∷ es) v d f d' f' = ground (
    arith,
    verify_outbox_complete s (outbound_id e ∷ ids) (sequence e ∷ sequences) es,
    cons-Fresh (outbound_id e) ids (map outbound_id es),
    cons-Fresh (sequence e) sequences (map sequence es),
  )

  verify_journal_sound :
      (ids : List Text) (cs : List StoredCommand)
      → verify_journal ids cs ≡ ok tt
      → All (λ c. command_semantic_valid c ≡ true) cs
        × Distinct (command_ids cs)
        × Fresh ids (command_ids cs)
  unfolding verify_journal
  verify_journal_sound ids [] h = (tt, tt, tt)
  verify_journal_sound ids (c ∷ cs) h = ground (
    arith,
    verify_journal_sound (c.command_id ∷ ids) cs,
    Fresh-cons c.command_id ids (command_ids cs),
  )

  verify_journal_complete :
      (ids : List Text) (cs : List StoredCommand)
      → All (λ c. command_semantic_valid c ≡ true) cs
      → Distinct (command_ids cs)
      → Fresh ids (command_ids cs)
      → verify_journal ids cs ≡ ok tt
  unfolding verify_journal
  verify_journal_complete ids [] v d f = refl
  verify_journal_complete ids (c ∷ cs) v d f = ground (
    arith,
    verify_journal_complete (c.command_id ∷ ids) cs,
    cons-Fresh c.command_id ids (command_ids cs),
  )

  verify_phases_sound :
      (s : StateV1) (es : List StoredOutbound)
      → verify_phases s es ≡ ok tt
      → All (λ e. phase_valid s e ≡ true) es
  unfolding verify_phases
  verify_phases_sound s [] h = tt
  verify_phases_sound s (e ∷ es) h = ground (arith, verify_phases_sound s es)

  verify_phases_complete :
      (s : StateV1) (es : List StoredOutbound)
      → All (λ e. phase_valid s e ≡ true) es
      → verify_phases s es ≡ ok tt
  unfolding verify_phases
  verify_phases_complete s [] v = refl
  verify_phases_complete s (e ∷ es) v = ground (arith, verify_phases_complete s es)

  current_identity_sound :
      (s : StateV1) {identity : DeviceIdentity}
      → current_identity s ≡ ok identity
      → (identity ≡ stored_identity s)
        × ((s.identity.tenant_id == 0) ≡ false)
        × ((s.identity.device_id == 0) ≡ false)
  unfolding current_identity credential_generation_try_from device_identity_try_new
  current_identity_sound s h = ground arith

  pub current_identity_lem : (s : StateV1) → IsValid s → current_identity s ≡ ok (stored_identity s)
  unfolding current_identity credential_generation_try_from device_identity_try_new
      coordinates_valid
  current_identity_lem s v = ground (arith, v.tenant, v.device, v.coordinates)

  -- A state that validate accepts satisfies the predicate: valid coordinates, entries and
  -- journal, distinct event ids, sequences and command ids, at most one report, a pending
  -- settlement exactly with a report, and consistent phases.
  pub validate_sound : (s : StateV1) → validate s ≡ ok tt → IsValid s
  unfolding validate verify
  validate_sound s h = elim (Result-cases (current_identity s)) [
    | inl (identity, e) ↦
        let (own, tenant, device) = current_identity_sound s e in
        ground (
          arith,
          verify_outbox_sound s [] [] s.outbox,
          verify_journal_sound [] s.command_journal,
          verify_phases_sound s s.outbox,
        )
    | inr (x, e) ↦ ground arith
  ]

  -- validate accepts every state that satisfies the predicate.
  pub validate_complete : (s : StateV1) → IsValid s → validate s ≡ ok tt
  unfolding validate verify
  validate_complete s v =
      rw (current_identity_lem s v, validate, verify)
        (ground (
          arith,
          verify_outbox_complete s [] [] s.outbox v.entries v.event_ids (nil-Fresh _) v.sequences
              (nil-Fresh _),
          verify_journal_complete [] s.command_journal v.commands v.command_ids (nil-Fresh _),
          verify_phases_complete s s.outbox v.phases,
        ))
