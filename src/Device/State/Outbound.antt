-- ===== src/Device/State/Outbound.antt =====
-- The outbox of state.rs: what is published next, its confirmation, the reconnect and the inbound
-- settlement. An operation on `&mut self` returns its result with the new state.
use rss_incubator.Base.{
  ℕ, Bool, true, false, not, ◌&&◌, Option, none, some, List, [], ◌∷◌, Text, ◌==◌, nat_eq, list_eq,
  if◌then◌else◌, is_some_and, eq_some, any, map, codes,
}
use rss_incubator.Crates.{Crates}
use rss_incubator.Device.Types.{OutboundFact}
use rss_incubator.Device.State.Stored.{StateV1, StoredOutbound, ack, report_blocked, report_ready}
use rss_incubator.Device.State.Hashes.{event_id}
use rss_incubator.Device.State.Entries.{outbound_id, ready_fact}
use rss_incubator.Device.State.Verify.{is_report}
use rss_incubator.Device.State.Transitions.{replay_cause}

unfoldable pub rotation_in_flight : StateV1 → Bool
rotation_in_flight s = any is_report s.outbox

unfoldable pub pending_settlement_token : StateV1 → Text → Text → Option Text
pending_settlement_token s command_id fingerprint = elim s.pending_inbound [
  | none ↦ none
  | some p ↦
      if p.command_id == command_id && p.fingerprint == fingerprint
      then some p.settlement_token
      else none
]

unfoldable pub has_conflicting_replay : ⦃crates : Crates⦄ → StateV1 → Text → Text → Bool
has_conflicting_replay s command_id fingerprint =
    let expected = event_id (codes "rejected") (replay_cause command_id fingerprint) in
    any (λ e. outbound_id e == expected) s.outbox

unfoldable pub is_ack_for : Text → StoredOutbound → Bool
is_ack_for command_id (ack id payload) = payload.command_id == command_id
is_ack_for command_id (report_blocked id payload) = false
is_ack_for command_id (report_ready id payload) = false

unfoldable pub has_command_ack : StateV1 → Text → Bool
has_command_ack s command_id = any (is_ack_for command_id) s.outbox

-- `pending_inbound.as_ref().is_some_and(|pending| pending.settled)`.
abbrev pub inbound_settled : StateV1 → Bool
inbound_settled s = is_some_and s.pending_inbound (λ p. p.settled)

unfoldable pub is_report_ready : StoredOutbound → Bool
is_report_ready (ack id payload) = false
is_report_ready (report_blocked id payload) = false
is_report_ready (report_ready id payload) = true

-- What the closure of `next_outbound` gives for one entry.
unfoldable pub publishable_fact : Bool → StoredOutbound → Option OutboundFact
publishable_fact settled e = if is_report_ready e && not settled then none else ready_fact e

-- `find_map`.
unfoldable pub first_fact : Bool → List StoredOutbound → Option OutboundFact
first_fact settled [] = none
first_fact settled (e ∷ es) = elim (publishable_fact settled e) [
  | some fact ↦ some fact
  | none ↦ first_fact settled es
]

unfoldable pub next_outbound : StateV1 → Option OutboundFact
unfolding first_fact
next_outbound s = first_fact (inbound_settled s) s.outbox

-- `position` by the event id, the entry at that index, and the outbox after `remove`.
unfoldable pub take_event :
    Text → List StoredOutbound → Option (StoredOutbound × List StoredOutbound)
take_event event_id [] = none
take_event event_id (e ∷ es) =
    if outbound_id e == event_id
    then some (e, es)
    else elim (take_event event_id es) [ none ↦ none | some (x, rest) ↦ some (x, e ∷ rest) ]

-- A blocked report of a revision.
unfoldable pub is_blocked_revision : ℕ → StoredOutbound → Bool
is_blocked_revision revision (ack id payload) = false
is_blocked_revision revision (report_blocked id payload) = payload.credential_revision == revision
is_blocked_revision revision (report_ready id payload) = false

unfoldable pub activate : StateV1 → Option ℕ → StateV1
activate s none = s
activate s (some revision) =
    if any (is_blocked_revision revision) s.outbox
    then record s { reconnect_revision = some revision }
    else s

-- What follows the removal of a confirmed entry.
unfoldable pub settle_confirmed : StateV1 → StoredOutbound → StateV1
unfolding activate
settle_confirmed s (ack id payload) = activate s payload.activates_revision
settle_confirmed s (report_blocked id payload) = s
settle_confirmed s (report_ready id payload) = record s { pending_inbound = none }

unfoldable pub confirm_outbound : StateV1 → Text → Bool × StateV1
unfolding settle_confirmed
confirm_outbound s event_id = elim (take_event event_id s.outbox) [
  | none ↦ (false, s)
  | some (e, rest) ↦
      if is_report_ready e && not (inbound_settled s)
      then (false, s)
      else (true, settle_confirmed (record s { outbox = rest }) e)
]

unfoldable pub unblock : StoredOutbound → StoredOutbound
unblock (ack id payload) = ack id payload
unblock (report_blocked id payload) = report_ready id payload
unblock (report_ready id payload) = report_ready id payload

unfoldable pub mark_reconnected : StateV1 → ℕ → Bool × StateV1
mark_reconnected s revision =
    if not (eq_some s.reconnect_revision revision)
    then (false, s)
    else (true, record s { outbox = map unblock s.outbox; reconnect_revision = none })

unfoldable pub mark_inbound_settled : StateV1 → Option Text → Bool × StateV1
mark_inbound_settled s token = elim s.pending_inbound [
  | none ↦ (false, s)
  | some p ↦
      if is_some_and token (λ t. not (t == p.settlement_token))
      then (false, s)
      else (true, record s { pending_inbound = some (record p { settled = true }) })
]
