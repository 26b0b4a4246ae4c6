-- ===== src/Device/Agent/Refusals.antt =====
-- What `confirm_outbound` of agent.rs answers for a report that is still blocked.
use rss_incubator.Base.{◌≡◌, refl, inl, inr, Bool, true, false, Text, any, ok, err, Result-cases}
use rss_incubator.Crates.{Crates}
use rss_incubator.Device.State.Stored.{StateV1, invalid_state}
use rss_incubator.Device.State.Verify.{validate}
use rss_incubator.Device.State.Validity.{IsValid}
use rss_incubator.Device.State.Errors.{validate_error}
use rss_incubator.Device.State.Outbound.{confirm_outbound}
use rss_incubator.Device.State.Preservation.Confirm.{is_blocked_event}
use rss_incubator.Device.State.Publication.{confirm_outbound-blocked}
use rss_incubator.Device.Agent.Store.{
  Services, Agent, store_error, unknown_outbound, persist_candidate,
}
use rss_incubator.Device.Agent.Sessions.{persist_changed, agent_confirm_outbound}

module _ ⦃crates : Crates⦄ {Store : Type 0} (services : Services Store) (agent : Agent Store) where
  refused_candidate :
      (t : StateV1)
      → ¬ (validate t ≡ ok tt)
      → persist_candidate services agent t ≡ (agent, err (store_error invalid_state))
  unfolding persist_candidate
  refused_candidate t bad = elim (Result-cases (validate t)) [
    | inl (_, v) ↦ absurd (bad v)
    | inr (x, v) ↦ rw (v, validate_error t x v, persist_candidate) refl
  ]

  refused_change :
      (r : Bool × StateV1)
      → r.0 ≡ true
      → ¬ (validate r.1 ≡ ok tt)
      → persist_changed services agent r unknown_outbound ≡ (agent, err (store_error invalid_state))
  unfolding persist_changed
  refused_change (true, t) h bad = refused_candidate t bad
  refused_change (false, t) h bad = cc

  -- In a valid state, to confirm a report that is still blocked is refused: the agent answers
  -- Store(InvalidState) and neither its state nor its store changes.
  pub agent_confirm_outbound-blocked :
      (event : Text)
      → IsValid agent.state
      → any (is_blocked_event event) agent.state.outbox ≡ true
      → agent_confirm_outbound services agent event ≡ (agent, err (store_error invalid_state))
  unfolding agent_confirm_outbound
  agent_confirm_outbound-blocked event v h =
      let (taken, bad) = confirm_outbound-blocked agent.state event v h in
      refused_change (confirm_outbound agent.state event) taken bad
