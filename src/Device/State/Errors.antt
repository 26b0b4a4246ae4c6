-- ===== src/Device/State/Errors.antt =====
-- The only error of `validate` of state.rs.
use rss_incubator.Base.{
  ℕ, ◌≡◌, inl, inr, Option, none, some, List, [], ◌∷◌, Text, arith, err, Result-cases,
}
use rss_incubator.Crates.{Crates}
use rss_incubator.Device.Types.{
  DeviceIdentity, credential_generation_try_from, device_identity_try_new,
}
use rss_incubator.Device.State.Stored.{
  StateV1, StoredCommand, StoredOutbound, StoredInboundSettlement, StoreError, invalid_state,
}
use rss_incubator.Device.State.Entries.{outbound_id, sequence}
use rss_incubator.Device.State.Verify.{
  verify_phases, verify_journal, verify_outbox, verify_pending, verify, validate, current_identity,
}

verify_journal_error :
    (ids : List Text) (cs : List StoredCommand) (e : StoreError)
    → verify_journal ids cs ≡ err e
    → e ≡ invalid_state
unfolding verify_journal
verify_journal_error ids [] e h = cc
verify_journal_error ids (c ∷ cs) e h =
    ground (arith, verify_journal_error (c.command_id ∷ ids) cs e)

verify_phases_error :
    (s : StateV1) (es : List StoredOutbound) (e : StoreError)
    → verify_phases s es ≡ err e
    → e ≡ invalid_state
unfolding verify_phases
verify_phases_error s [] e h = cc
verify_phases_error s (o ∷ es) e h = ground (arith, verify_phases_error s es e)

module _ ⦃crates : Crates⦄ where
  verify_outbox_error :
      (s : StateV1) (ids : List Text) (ns : List ℕ) (es : List StoredOutbound) (e : StoreError)
      → verify_outbox s ids ns es ≡ err e
      → e ≡ invalid_state
  unfolding verify_outbox
  verify_outbox_error s ids ns [] e h = cc
  verify_outbox_error s ids ns (o ∷ es) e h =
      ground (arith, verify_outbox_error s (outbound_id o ∷ ids) (sequence o ∷ ns) es e)

  verify_pending_error :
      (s : StateV1) (p : Option StoredInboundSettlement) (e : StoreError)
      → verify_pending s p ≡ err e
      → e ≡ invalid_state
  unfolding verify_pending credential_generation_try_from device_identity_try_new
  verify_pending_error s none e h = cc
  verify_pending_error s (some p) e h = ground arith

  verify_error :
      (s : StateV1) (identity : DeviceIdentity) (e : StoreError)
      → verify s identity ≡ err e
      → e ≡ invalid_state
  unfolding verify
  verify_error s identity e h = ground (
    arith,
    verify_outbox_error s [] [] s.outbox e,
    verify_journal_error [] s.command_journal e,
    verify_pending_error s s.pending_inbound e,
    verify_phases_error s s.outbox e,
  )

  -- `validate` fails with `InvalidState` only.
  pub validate_error : (s : StateV1) (e : StoreError) → validate s ≡ err e → e ≡ invalid_state
  unfolding validate current_identity credential_generation_try_from device_identity_try_new
  validate_error s e h = elim (Result-cases (current_identity s)) [
    | inl (identity, i) ↦ ground (arith, i, verify_error s identity e)
    | inr (x, i) ↦ ground (arith, i, h)
  ]
