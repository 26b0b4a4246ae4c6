-- ===== src/Device/State/Preservation/Confirm.antt =====
-- `confirm_outbound` of state.rs on each of its branches.
use rss_incubator.Base.{
  ℕ, ◌≡◌, refl, Bool, true, false, Option, none, some, List, [], ◌∷◌, Text, arith, ◌==◌, nat_eq,
  list_eq, All, any, Taken, Taken-any, Bool-cases, inl, inr,
}
use rss_incubator.Crates.{Crates}
use rss_incubator.Device.State.Stored.{
  StateV1, StoredAck, StoredOutbound, ack, report_blocked, report_ready,
}
use rss_incubator.Device.State.Entries.{outbound_id}
use rss_incubator.Device.State.Verify.{is_blocked_report}
use rss_incubator.Device.State.Validity.{IsValid}
use rss_incubator.Device.State.Outbound.{
  take_event, is_report_ready, inbound_settled, is_blocked_revision, settle_confirmed, activate,
  confirm_outbound,
}
use rss_incubator.Device.State.Preservation.Outbox.{TakeEvent, take_event_lem, OwnActivation}
use rss_incubator.Device.State.Preservation.Settled.{
  confirmed_passive, activation_facts, confirmed_activation, confirmed_report,
}

-- A report that still waits for its reconnect, by its event id.
unfoldable pub is_blocked_event : Text → StoredOutbound → Bool
is_blocked_event event (ack id payload) = false
is_blocked_event event (report_blocked id payload) = id == event
is_blocked_event event (report_ready id payload) = false

blocked_revision :
    (r : ℕ) (c : Text) (es : List StoredOutbound)
    → any (is_blocked_report r c) es ≡ true
    → any (is_blocked_revision r) es ≡ true
unfolding is_blocked_report is_blocked_revision
blocked_revision r c [] h = cc
blocked_revision r c (ack id a ∷ es) h = blocked_revision r c es h
blocked_revision r c (report_ready id p ∷ es) h = blocked_revision r c es h
blocked_revision r c (report_blocked id p ∷ es) h = ground (arith, blocked_revision r c es)

module _ ⦃crates : Crates⦄ (s : StateV1) (v : IsValid s) (own : All OwnActivation s.outbox) where
  activated :
      (id : Text) (a : StoredAck) (rest : List StoredOutbound) (o : Option ℕ)
      → Taken (ack id a) rest s.outbox
      → a.activates_revision ≡ o
      → IsValid (activate (record s { outbox = rest }) o)
  unfolding activate is_blocked_report
  activated id a rest none t e = confirmed_passive s id a rest v t e
  activated id a rest (some r) t e =
      rw
        (blocked_revision r a.command_id rest (
          ground (
            arith,
            activation_facts s id a rest v t r e own,
            Taken-any (is_blocked_report r a.command_id) t,
          )))
        (confirmed_activation s id a rest v t r e own)

  confirmed :
      (event : Text) (o : Option (StoredOutbound × List StoredOutbound))
      → any (is_blocked_event event) s.outbox ≡ false
      → TakeEvent event s.outbox o
      → take_event event s.outbox ≡ o
      → IsValid (confirm_outbound s event).1
  unfolding confirm_outbound settle_confirmed is_report_ready is_blocked_event outbound_id
  confirmed event none h t e = rw (e, confirm_outbound) v
  confirmed event (some (ack id a, rest)) h t e =
      rw (e, confirm_outbound) (activated id a rest a.activates_revision t.0 refl)
  confirmed event (some (report_blocked id p, rest)) h t e =
      absurd (ground (arith, Taken-any (is_blocked_event event) t.0, t.1))
  confirmed event (some (report_ready id p, rest)) h t e = elim (Bool-cases (inbound_settled s)) [
    | inl yes' ↦ rw (e, yes', confirm_outbound) (confirmed_report s id p rest v t.0)
    | inr no' ↦ rw (e, no', confirm_outbound) v
  ]

  -- confirm_outbound keeps a valid state valid for every event id but that of a blocked report,
  -- where the activating acknowledgements answer their own commands.
  pub confirm_outbound-IsValid :
      (event : Text)
      → any (is_blocked_event event) s.outbox ≡ false
      → IsValid (confirm_outbound s event).1
  confirm_outbound-IsValid event h =
      confirmed event (take_event event s.outbox) h (take_event_lem event s.outbox) refl
