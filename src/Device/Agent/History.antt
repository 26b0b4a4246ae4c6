-- ===== src/Device/Agent/History.antt =====
-- Any history of calls on the agent of agent.rs: commands, malformed deliveries, confirmations,
-- reconnects and settlements, in any order and with any outcome of the store.
use rss_incubator.Base.{
  ℕ, ◌≤◌, inl, inr, Option, List, [], ◌∷◌, Text, Bytes, arith, Result, ok, err, length, subst, sym,
}
use rss_incubator.Crates.{Crates}
use rss_incubator.Device.Types.{DeviceCommand}
use rss_incubator.Device.State.Stored.{StateV1, outbox_limit, command_journal_limit}
use rss_incubator.Device.State.Verify.{coordinates_valid}
use rss_incubator.Device.State.Validity.{IsValid}
use rss_incubator.Device.Agent.Store.{Services, Agent, AgentError}
use rss_incubator.Device.Agent.Commands.{apply_command, reject_malformed_delivery}
use rss_incubator.Device.Agent.Sessions.{
  agent_confirm_outbound, mark_current_credential_connected, persist_inbound_settlement,
}
use rss_incubator.Device.Agent.Atomicity.{
  Atomic, apply_command-Atomic, reject_malformed_delivery-Atomic, agent_confirm_outbound-Atomic,
  mark_current_credential_connected-Atomic, persist_inbound_settlement-Atomic,
}

pub data Call : Type 0 where
  applies : Text → DeviceCommand → ℕ → Call
  rejects_malformed : Text → Text → Bytes → ℕ → Call
  confirms : Text → Call
  connects : ℕ → Call
  settles_inbound : Option Text → Call

module _ ⦃crates : Crates⦄ {Store : Type 0} (services : Services Store) where
  unfoldable pub step : Agent Store → Call → Agent Store
  step agent (applies topic command now) = (apply_command services agent topic command now).0
  step agent (rejects_malformed topic command_id payload now) =
      (reject_malformed_delivery services agent topic command_id payload now).0
  step agent (confirms event) = (agent_confirm_outbound services agent event).0
  step agent (connects revision) = (mark_current_credential_connected services agent revision).0
  step agent (settles_inbound token) = (persist_inbound_settlement services agent token).0

  unfoldable pub run : Agent Store → List Call → Agent Store
  unfolding step
  run agent [] = agent
  run agent (c ∷ cs) = run (step agent c) cs

  pub settled-IsValid {ℓ} :
      {A : Type ℓ} (s : StateV1) (r : Agent Store × Result AgentError A)
      → IsValid s
      → Atomic s r
      → IsValid r.0.state
  settled-IsValid s (agent, ok a) v (inl w) = w
  settled-IsValid s (agent, ok a) v (inr e) = subst IsValid (sym e) v
  settled-IsValid s (agent, err x) v e = subst IsValid (sym e) v

  step-IsValid :
      (agent : Agent Store) (c : Call) → IsValid agent.state → IsValid (step agent c).state
  unfolding step
  step-IsValid agent (applies topic command now) v =
      settled-IsValid agent.state (apply_command services agent topic command now) v
        (apply_command-Atomic services agent topic command now)
  step-IsValid agent (rejects_malformed topic command_id payload now) v =
      settled-IsValid agent.state
        (reject_malformed_delivery services agent topic command_id payload now) v
        (reject_malformed_delivery-Atomic services agent topic command_id payload now)
  step-IsValid agent (confirms event) v =
      settled-IsValid agent.state (agent_confirm_outbound services agent event) v
        (agent_confirm_outbound-Atomic services agent event)
  step-IsValid agent (connects revision) v =
      settled-IsValid agent.state (mark_current_credential_connected services agent revision) v
        (mark_current_credential_connected-Atomic services agent revision)
  step-IsValid agent (settles_inbound token) v =
      settled-IsValid agent.state (persist_inbound_settlement services agent token) v
        (persist_inbound_settlement-Atomic services agent token)

  -- From a valid state, any sequence of commands, malformed deliveries, confirmations,
  -- reconnects and settlements, with any outcome of the store and of the catalog, leaves the
  -- agent in a valid state.
  pub run-IsValid :
      (agent : Agent Store) (cs : List Call) → IsValid agent.state → IsValid (run agent cs).state
  unfolding run
  run-IsValid agent [] v = v
  run-IsValid agent (c ∷ cs) v = run-IsValid (step agent c) cs (step-IsValid agent c v)

  -- After any sequence of calls from a valid state, the outbox and the command journal are
  -- within their limits.
  pub run_bounded :
      (agent : Agent Store) (cs : List Call)
      → IsValid agent.state
      → (length (run agent cs).state.outbox ≤ outbox_limit)
        × (length (run agent cs).state.command_journal ≤ command_journal_limit)
  unfolding coordinates_valid
  run_bounded agent cs v = ground (arith, (run-IsValid agent cs v).coordinates)
