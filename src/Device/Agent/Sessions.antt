-- ===== src/Device/Agent/Sessions.antt =====
-- The operations of agent.rs that a session drives: publication and its confirmation, reconnect,
-- settlement, and the scopes of a delivery.
use rss_incubator.Base.{
  ℕ, Bool, true, false, not, ◌&&◌, ◌||◌, Option, none, some, Text, ◌==◌, nat_eq, list_eq,
  if◌then◌else◌, is_none_or, is_ok, Result, ok, err, map_err, ◌>>=◌,
}
use rss_incubator.Crates.{Crates}
use rss_incubator.Device.Types.{
  DeviceIdentity, DeviceCommand, RecoveryCommandScope, credential_generation_try_from,
  device_identity_try_new, topic_set_new, accepts_command,
}
use rss_incubator.Device.State.Stored.{StateV1, StoredInboundSettlement, invalid_state}
use rss_incubator.Device.State.Verify.{current_identity}
use rss_incubator.Device.State.Journal.{command_journal_has_capacity, reserve_outbox}
use rss_incubator.Device.State.Outbound.{
  confirm_outbound, mark_reconnected, mark_inbound_settled, pending_settlement_token,
}
use rss_incubator.Device.Agent.Fingerprint.{command_fingerprint}
use rss_incubator.Device.Agent.Store.{
  Services, Agent, AgentError, store_error, unknown_outbound, unexpected_reconnect,
  unexpected_delivery, persist_candidate,
}

module _ ⦃crates : Crates⦄ {Store : Type 0} (services : Services Store) where
  -- A candidate that an operation changed, persisted, or the error of an operation that refused.
  unfoldable pub persist_changed :
      Agent Store → Bool × StateV1 → AgentError → Agent Store × Result AgentError (Unit {0})
  persist_changed agent (true, candidate) e = persist_candidate services agent candidate
  persist_changed agent (false, candidate) e = (agent, err e)

  unfoldable pub agent_confirm_outbound :
      Agent Store → Text → Agent Store × Result AgentError (Unit {0})
  unfolding persist_changed
  agent_confirm_outbound agent event_id =
      persist_changed agent (confirm_outbound agent.state event_id) unknown_outbound

  unfoldable pub mark_current_credential_connected :
      Agent Store → ℕ → Agent Store × Result AgentError (Unit {0})
  unfolding persist_changed
  mark_current_credential_connected agent revision =
      persist_changed agent (mark_reconnected agent.state revision) unexpected_reconnect

  -- `mark_pending_inbound_settled` with a token, `mark_pending_inbound_absent` without.
  unfoldable pub persist_inbound_settlement :
      Agent Store → Option Text → Agent Store × Result AgentError (Unit {0})
  unfolding persist_changed
  persist_inbound_settlement agent token =
      persist_changed agent (mark_inbound_settled agent.state token) unexpected_delivery

unfoldable pub reconnect_revision : StateV1 → Result AgentError (Option ℕ)
reconnect_revision s = elim s.reconnect_revision [
  | none ↦ ok none
  | some revision ↦ if revision == 0 then err (store_error invalid_state) else ok (some revision)
]

unfoldable pub command_intake_open : StateV1 → ℕ → Bool
command_intake_open s now = is_ok (reserve_outbox s 2) && command_journal_has_capacity s now

abbrev invalid {ℓ κ} : {E : Type ℓ} {A : Type κ} → Result E A → Result AgentError A
invalid r = map_err (λ e. store_error invalid_state) r

unfoldable pub pending_scope :
    StateV1 → Option StoredInboundSettlement → Result AgentError (Option RecoveryCommandScope)
pending_scope s none = ok none
pending_scope s (some p) = do
  current ← map_err store_error (current_identity s)
  generation ← invalid (credential_generation_try_from p.credential_generation)
  identity ← invalid (device_identity_try_new current.tenant current.device generation)
  ok (some (record { identity = identity; topic = p.topic; command_id = p.command_id }))

unfoldable pub pending_command_scope : StateV1 → Result AgentError (Option RecoveryCommandScope)
unfolding pending_scope
pending_command_scope s = pending_scope s s.pending_inbound

unfoldable pub pending_inbound_settled : StateV1 → Bool
pending_inbound_settled s = is_none_or s.pending_inbound (λ p. p.settled)

unfoldable pub command_settlement_token : ⦃crates : Crates⦄ → StateV1 → DeviceCommand → Option Text
command_settlement_token s command =
    pending_settlement_token s command.command_id (command_fingerprint command)

unfoldable pub pending_delivery_settlement_token : StateV1 → Text → Text → Option Text
pending_delivery_settlement_token s topic command_id = elim s.pending_inbound [
  | none ↦ none
  | some p ↦
      if p.topic == topic && p.command_id == command_id then some p.settlement_token else none
]

recovery_identity :
    DeviceIdentity → Text → Text → Option StoredInboundSettlement → Result AgentError DeviceIdentity
recovery_identity current topic command_id none = err unexpected_delivery
recovery_identity current topic command_id (some p) =
    if not (p.topic == topic) || not (p.command_id == command_id)
    then err unexpected_delivery
    else do
      generation ← invalid (credential_generation_try_from p.credential_generation)
      invalid (device_identity_try_new current.tenant current.device generation)

unfoldable pub delivery_identity :
    ⦃crates : Crates⦄ → StateV1 → Text → Text → Result AgentError DeviceIdentity
unfolding recovery_identity
delivery_identity s topic command_id = do
  current ← map_err store_error (current_identity s)
  (if accepts_command (topic_set_new current) topic
      then ok current
      else recovery_identity current topic command_id s.pending_inbound)
