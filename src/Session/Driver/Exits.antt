-- ===== src/Session/Driver/Exits.antt =====
-- When the driver of main.rs ends its session to connect again.
use rss_incubator.Base.{
  ℕ, ◌≡◌, refl, inl, inr, Bool, true, false, Option, none, some, Text, arith, Bool-cases, if_cases,
  Result, ok, err, Result-cases, nat_eq, list_eq,
}
use rss_incubator.Crates.{Crates}
use rss_incubator.Device.State.Stored.{StateV1, StoreError}
use rss_incubator.Device.State.Verify.{validate}
use rss_incubator.Device.State.Outbound.{mark_inbound_settled}
use rss_incubator.Device.Agent.Store.{
  Agent, AgentError, persist_candidate, persisted, unexpected_delivery,
}
use rss_incubator.Device.Agent.Sessions.{
  persist_changed, persist_inbound_settlement, pending_inbound_settled,
}
use rss_incubator.Session.{
  CommandDelivery, MqttEvent, connected_event, subscribed, unsubscribed, transport_progress,
  command, outbound_acknowledged, inbound_acknowledged, SessionError, inactive, unsubscribe_pending,
  is_ready, UnsubscribeCompletion, exits, subscribes_again, waits, unsubscribe_completion,
  DriverControl, continues, reconnects,
}
use rss_incubator.Session.Driver.{
  Driver, Surroundings, Clock, Handler, proceed, ◌>>=◌, done, update, called, on_agent,
}
use rss_incubator.Session.Driver.Handlers.{
  after_confirmation, confirm_event, confirm_published, on_outbound_acknowledged, mark_absent,
  complete, completed_unsubscription, release_held, on_unsubscribed, after_settlement,
  on_inbound_acknowledged, handle_event,
}

-- A session that ends to connect again has the inbound command settled and no unsubscription open.
unfoldable pub SettledIfReconnects :
    {Store : Type 0} → Driver Store × Result SessionError DriverControl → Type 0
SettledIfReconnects (d, ok reconnects) =
    (pending_inbound_settled d.agent.state ≡ true) × (unsubscribe_pending d.state ≡ false)
SettledIfReconnects (d, ok continues) = Unit
SettledIfReconnects (d, err e) = Unit

continues-Settled : {Store : Type 0} (d : Driver Store) → SettledIfReconnects (d, ok continues)
unfolding SettledIfReconnects
continues-Settled d = tt

failure-Settled :
    {Store : Type 0} (d : Driver Store) (e : SessionError) → SettledIfReconnects (d, err e)
unfolding SettledIfReconnects
failure-Settled d e = tt

reconnects-Settled :
    {Store : Type 0} (d : Driver Store)
    → pending_inbound_settled d.agent.state ≡ true
    → unsubscribe_pending d.state ≡ false
    → SettledIfReconnects (d, ok reconnects)
unfolding SettledIfReconnects
reconnects-Settled d s u = (s, u)

bind-Settled :
    {Store A : Type 0} (m : Handler Store A) (k : A → Handler Store DriverControl)
    → ((a : A) (d : Driver Store) → SettledIfReconnects (k a d))
    → (d : Driver Store) → SettledIfReconnects ((m >>= k) d)
unfolding ◌>>=◌
bind-Settled {Store} {A} m k h d = next (m d)
  where
    next : (r : Driver Store × Result SessionError A) → SettledIfReconnects (proceed r k)
    next (d', ok a) = h a d'
    next (d', err e) = failure-Settled d' e

module _ ⦃crates : Crates⦄ {Store : Type 0} (around : Surroundings Store) where
  after_confirmation-Settled :
      (clock : Clock) (o : Option ℕ) (d : Driver Store)
      → SettledIfReconnects (after_confirmation around clock o d)
  unfolding after_confirmation
  after_confirmation-Settled clock none d =
      if_cases (λ (r : Driver Store × Result SessionError DriverControl). SettledIfReconnects r) _ _
        _ (bind-Settled _ (λ a. done continues) (λ a d'. continues-Settled d') d)
        (continues-Settled d)
  after_confirmation-Settled clock (some revision) d =
      elim (Bool-cases (unsubscribe_pending d.state)) [
        | inl e ↦ rw e (bind-Settled _ _ (λ a. bind-Settled _ _ (λ b d'. continues-Settled d')) d)
        | inr e ↦ elim (Bool-cases (pending_inbound_settled d.agent.state)) [
          | inl s ↦ rw (e, s) (reconnects-Settled d s e)
          | inr s ↦
              rw (e, s) (bind-Settled _ _ (λ a. bind-Settled _ _ (λ b d'. continues-Settled d')) d)
        ]
      ]

  acknowledged-Settled :
      (clock : Clock) (event_id : Text) (d : Driver Store)
      → SettledIfReconnects (on_outbound_acknowledged around clock event_id d)
  unfolding on_outbound_acknowledged confirm_published confirm_event
  acknowledged-Settled clock event_id d =
      if_cases (λ (r : Driver Store × Result SessionError DriverControl). SettledIfReconnects r) _ _
        _ (failure-Settled d _)
        (bind-Settled _ _
          (λ a.
            bind-Settled _ _
              (λ b. bind-Settled _ _ (λ revision. after_confirmation-Settled clock revision)))
          d)

  complete-Settled :
      (clock : Clock) (u : UnsubscribeCompletion) (d : Driver Store)
      → (u ≡ exits
          → (pending_inbound_settled d.agent.state ≡ true) × (unsubscribe_pending d.state ≡ false))
      → SettledIfReconnects (complete around clock u d)
  unfolding complete
  complete-Settled clock exits d h = reconnects-Settled d (h refl).0 (h refl).1
  complete-Settled clock subscribes_again d h =
      if_cases (λ (r : Driver Store × Result SessionError DriverControl). SettledIfReconnects r) _ _
        _ (bind-Settled _ (λ a. done continues) (λ a d'. continues-Settled d') d)
        (continues-Settled d)
  complete-Settled clock waits d h = continues-Settled d

  exits_settled : (r i f : Bool) → unsubscribe_completion r i f ≡ exits → i ≡ true
  unfolding unsubscribe_completion
  exits_settled r i f h = ground (arith, h)

  completed-Settled :
      (clock : Clock) (d : Driver Store)
      → d.state.subscription ≡ inactive
      → SettledIfReconnects (completed_unsubscription around clock d)
  unfolding completed_unsubscription unsubscribe_pending
  completed-Settled clock d s = complete-Settled clock _ d (λ e. (exits_settled _ _ _ e, rw s refl))

  absent_subscription :
      (d : Driver Store)
      → d.state.subscription ≡ inactive
      → (mark_absent around d).0.state.subscription ≡ inactive
  unfolding mark_absent on_agent
  absent_subscription d s =
      if_cases
        (λ (r : Driver Store × Result SessionError (Unit {0})). r.0.state.subscription ≡ inactive) _
        _ _ (agent_only (persist_inbound_settlement around.services d.agent none)) s
    where
      agent_only :
          (r : Agent Store × Result AgentError (Unit {0}))
          → (called d r).0.state.subscription ≡ inactive
      agent_only (agent, ok a) = s
      agent_only (agent, err e) = s

  held-Settled :
      (clock : Clock) (held : CommandDelivery × Option Text) (d : Driver Store)
      → SettledIfReconnects (release_held around clock (some held) d)
  unfolding release_held
  held-Settled clock (delivery, token) d =
      bind-Settled _ _ (λ a. bind-Settled _ (λ b. done continues) (λ b d'. continues-Settled d')) d

  released-Settled :
      (clock : Clock) (o : Option (CommandDelivery × Option Text)) (d : Driver Store)
      → d.state.subscription ≡ inactive
      → SettledIfReconnects (release_held around clock o d)
  unfolding release_held ◌>>=◌
  released-Settled clock (some held) d s = held-Settled clock held d
  released-Settled clock none d s = next (mark_absent around d) (absent_subscription d s)
    where
      next :
          (r : Driver Store × Result SessionError (Unit {0}))
          → r.0.state.subscription ≡ inactive
          → SettledIfReconnects (proceed r (λ a. completed_unsubscription around clock))
      next (d', ok a) h = completed-Settled clock d' h
      next (d', err e) h = failure-Settled d' e

  unsubscribed-Settled :
      (clock : Clock) (d : Driver Store) → SettledIfReconnects (on_unsubscribed around clock d)
  unfolding on_unsubscribed ◌>>=◌ update
  unsubscribed-Settled clock d =
      released-Settled clock d.state.pending_command_ack
        (record d { state = record d.state { subscription = inactive } }) refl

  -- A settlement that succeeds leaves the pending command settled.
  candidate_settled :
      (s : StateV1) (token : Option Text)
      → (mark_inbound_settled s token).0 ≡ true
      → pending_inbound_settled (mark_inbound_settled s token).1 ≡ true
  unfolding mark_inbound_settled pending_inbound_settled
  candidate_settled s token h = ground (arith, h)

  SettledIfOk : Agent Store × Result AgentError (Unit {0}) → Type 0
  SettledIfOk (agent, ok a) = pending_inbound_settled agent.state ≡ true
  SettledIfOk (agent, err e) = Unit

  settlement_settled :
      (agent : Agent Store) (token : Option Text)
      → SettledIfOk (persist_inbound_settlement around.services agent token)
  unfolding persist_inbound_settlement persist_changed persist_candidate persisted SettledIfOk
  settlement_settled agent token =
      changed (mark_inbound_settled agent.state token) (candidate_settled agent.state token)
    where
      persisted_settled :
          (candidate : StateV1) (r : Store × Result StoreError (Unit {0}))
          → pending_inbound_settled candidate ≡ true
          → SettledIfOk (persisted around.services agent candidate r)
      persisted_settled candidate (store, ok a) h = h
      persisted_settled candidate (store, err e) h = tt

      changed :
          (r : Bool × StateV1)
          → (r.0 ≡ true → pending_inbound_settled r.1 ≡ true)
          → SettledIfOk (persist_changed around.services agent r unexpected_delivery)
      changed (false, candidate) h = tt
      changed (true, candidate) h = elim (Result-cases (validate candidate)) [
        | inl (v, e) ↦
            rw (e, persist_candidate)
              (persisted_settled candidate (around.services.persist agent.store candidate) (h refl))
        | inr (x, e) ↦ rw (e, persist_candidate) tt
      ]

  inbound-Settled :
      (o : Option Text) (d : Driver Store)
      → SettledIfReconnects (on_inbound_acknowledged around o d)
  unfolding on_inbound_acknowledged ◌>>=◌ on_agent after_settlement SettledIfOk
  inbound-Settled none d = continues-Settled d
  inbound-Settled (some token) d =
      next (persist_inbound_settlement around.services d.agent (some token))
        (settlement_settled d.agent (some token))
    where
      next :
          (r : Agent Store × Result AgentError (Unit {0}))
          → SettledIfOk r
          → SettledIfReconnects (proceed (called d r) (λ a. after_settlement around))
      next (agent, err e) h = failure-Settled _ _
      next (agent, ok a) h = elim (Bool-cases (is_ready d.state.reconnect)) [
        | inr e ↦ rw e (continues-Settled _)
        | inl e ↦ elim (Bool-cases (unsubscribe_pending d.state)) [
          | inl u ↦ rw (e, u) (continues-Settled _)
          | inr u ↦ rw (e, u) (reconnects-Settled _ h u)
        ]
      ]

  -- The driver ends a session to connect again only when the pending inbound command is settled
  -- and no unsubscription is open, for every event and every state of the driver.
  pub handle_event-Settled :
      (clock : Clock) (event : MqttEvent) (d : Driver Store)
      → SettledIfReconnects (handle_event around clock event d)
  unfolding handle_event
  handle_event-Settled clock connected_event d =
      bind-Settled _ (λ a. done continues) (λ a d'. continues-Settled d') d
  handle_event-Settled clock subscribed d =
      bind-Settled _ (λ a. done continues) (λ a d'. continues-Settled d') d
  handle_event-Settled clock (command delivery) d =
      bind-Settled _ (λ a. done continues) (λ a d'. continues-Settled d') d
  handle_event-Settled clock (outbound_acknowledged event_id) d =
      acknowledged-Settled clock event_id d
  handle_event-Settled clock unsubscribed d = unsubscribed-Settled clock d
  handle_event-Settled clock (inbound_acknowledged token) d = inbound-Settled token d
  handle_event-Settled clock transport_progress d = continues-Settled d
