-- ===== src/Session/Driver/Rules.antt =====
-- What every handler of main.rs keeps, from what its steps keep.
use rss_incubator.Base.{
  ℕ, ◌≡◌, refl, inl, inr, if◌then◌else◌, Bool, true, false, ◌&&◌, Option, none, some, is_some, ◌∷◌,
  Text, arith, Bool-cases, Option-cases, if_cases, Result, ok, err,
}
use rss_incubator.Crates.{Crates}
use rss_incubator.Device.Types.{ApplyOutcome}
use rss_incubator.Device.State.Validity.{IsValid}
use rss_incubator.Device.Agent.Store.{Agent, AgentError}
use rss_incubator.Device.Agent.Atomicity.{
  Atomic, apply_command-Atomic, reject_malformed_delivery-Atomic, agent_confirm_outbound-Atomic,
  mark_current_credential_connected-Atomic, persist_inbound_settlement-Atomic,
}
use rss_incubator.Device.Agent.Sessions.{reconnect_revision, command_intake_open}
use rss_incubator.Device.Agent.History.{settled-IsValid}
use rss_incubator.Session.{
  MqttError, CommandDelivery, MqttEvent, connected_event, subscribed, unsubscribed,
  transport_progress, command, outbound_acknowledged, inbound_acknowledged, Request, subscribes,
  unsubscribes_command, unsubscribes_recovery, disconnects, publishes, acknowledges, SessionError,
  SessionState, can_unsubscribe, can_subscribe, UnsubscribeCompletion, exits, subscribes_again,
  waits, DriverControl, continues,
}
use rss_incubator.Session.Driver.{
  Driver, Surroundings, Clock, Handler, proceed, ◌>>=◌, done, update, answered, called, on_agent,
  unsubscribed_state,
}
use rss_incubator.Session.Driver.Handlers.{
  request, unsubscribe, unsubscribe_if_active, mark_reconnect, awaited_revision, connected_intake,
  on_connected, apply_delivery, settle_delivery, observe_recovery, on_command, after_confirmation,
  mark_absent, complete, completed_unsubscription, release_held, on_unsubscribed, after_settlement,
  on_inbound_acknowledged, handle_event, confirm_event,
}

-- A property of the driver that a handler keeps, whether it succeeds or not.
abbrev pub Keeps : {Store A : Type 0} → (Driver Store → Type 0) → Handler Store A → Type 0
Keeps {Store} {A} P m = (driver : Driver Store) → P driver → P (m driver).0

pub Keeps-bind :
    {Store A B : Type 0} (P : Driver Store → Type 0) (m : Handler Store A) (k : A → Handler Store B)
    → Keeps P m
    → ((a : A) → Keeps P (k a))
    → Keeps P (m >>= k)
unfolding ◌>>=◌
Keeps-bind {Store} {A} {B} P m k h ks driver p = proceeds (m driver) (h driver p)
  where
    proceeds : (r : Driver Store × Result SessionError A) → P r.0 → P (proceed r k).0
    proceeds (d, ok a) q = ks a d q
    proceeds (d, err e) q = q

-- The acknowledgement of a publication.
abbrev pub is_acknowledgement : MqttEvent → Bool
is_acknowledgement (outbound_acknowledged event_id) = true
is_acknowledgement connected_event = false
is_acknowledgement subscribed = false
is_acknowledgement unsubscribed = false
is_acknowledgement transport_progress = false
is_acknowledgement (command delivery) = false
is_acknowledgement (inbound_acknowledged token) = false

-- Neither a publication nor a subscription.
unfoldable pub is_quiet : Request → Bool
is_quiet subscribes = false
is_quiet unsubscribes_command = true
is_quiet unsubscribes_recovery = true
is_quiet disconnects = true
is_quiet (publishes encoded) = false
is_quiet (acknowledges delivery token) = true

-- The steps of the handlers that neither publish nor confirm, and subscribe before a shutdown only.
pub record Steps {Store : Type 0} ⦃crates : Crates⦄ (P : Driver Store → Type 0) : Type 0 where
  pub updated :
      (d : Driver Store) (s : SessionState)
      → s.publish ≡ d.state.publish
      → s.shutdown_deadline ≡ d.state.shutdown_deadline
      → P d
      → P (record d { state = s })
  pub asked :
      (d : Driver Store) (r : Request)
      → is_quiet r ≡ true
      → P d
      → P (record d { requests = r ∷ d.requests })
  pub intake :
      (d : Driver Store)
      → is_some d.state.shutdown_deadline ≡ false
      → P d
      → P (record d { requests = subscribes ∷ d.requests })
  pub changed :
      (d : Driver Store) (agent : Agent Store)
      → (IsValid d.agent.state → IsValid agent.state)
      → P d
      → P (record d { agent = agent })

module _ ⦃crates : Crates⦄ {Store : Type 0} (around : Surroundings Store)
    (P : Driver Store → Type 0) (steps : Steps P) where
  Keeps-update :
      (f : SessionState → SessionState)
      → ((s : SessionState)
          → ((f s).publish ≡ s.publish) × ((f s).shutdown_deadline ≡ s.shutdown_deadline))
      → Keeps P (update {Store = Store} f)
  unfolding update
  Keeps-update f h d p = steps.updated d (f d.state) (h d.state).0 (h d.state).1 p

  Keeps-done :
      (r : Driver Store × Result SessionError (Unit {0}))
      → P r.0
      → P (proceed r (λ a. done continues)).0
  Keeps-done (d, ok a) p = p
  Keeps-done (d, err e) p = p

  Keeps-request : (r : Request) → is_quiet r ≡ true → Keeps P (request around r)
  unfolding request
  Keeps-request r q d p = by_answer (around.answer d.requests r)
    where
      by_answer : (o : Option MqttError) → P (answered d r o).0
      by_answer none = steps.asked d r q p
      by_answer (some e) = p

  subscribe-kept :
      (d : Driver Store)
      → is_some d.state.shutdown_deadline ≡ false
      → P d
      → P (request around subscribes d).0
  unfolding request
  subscribe-kept d q p = by_answer (around.answer d.requests subscribes)
    where
      by_answer : (o : Option MqttError) → P (answered d subscribes o).0
      by_answer none = steps.intake d q p
      by_answer (some e) = p

  Keeps-on_agent :
      {A : Type 0} (call : Agent Store → Agent Store × Result AgentError A)
      → ((agent : Agent Store) → IsValid agent.state → IsValid (call agent).0.state)
      → Keeps P (on_agent call)
  unfolding on_agent
  Keeps-on_agent {A} call h d p = by_result (call d.agent) (h d.agent)
    where
      by_result :
          (r : Agent Store × Result AgentError A)
          → (IsValid d.agent.state → IsValid r.0.state)
          → P (called d r).0
      by_result (agent, ok a) v = steps.changed d agent v p
      by_result (agent, err e) v = steps.changed d agent v p

  Keeps-Atomic :
      {A : Type 0} (call : Agent Store → Agent Store × Result AgentError A)
      → ((agent : Agent Store) → Atomic agent.state (call agent))
      → Keeps P (on_agent call)
  Keeps-Atomic call h =
      Keeps-on_agent call
        (λ agent v. settled-IsValid around.services agent.state (call agent) v (h agent))

  Keeps-unsubscribe : (r : Request) → is_quiet r ≡ true → Keeps P (unsubscribe around r)
  unfolding unsubscribe
  Keeps-unsubscribe r q =
      Keeps-bind P _ _ (Keeps-request r q) λ a. Keeps-update unsubscribed_state (λ s. (refl, refl))

  pub Keeps-unsubscribe_if_active : Keeps P (unsubscribe_if_active around)
  unfolding unsubscribe_if_active is_quiet
  Keeps-unsubscribe_if_active d p =
      if_cases (λ (r : Driver Store × Result SessionError (Unit {0})). P r.0)
        (can_unsubscribe d.state) _ _ (Keeps-unsubscribe unsubscribes_command refl d p) p

  Keeps-awaited_revision : Keeps P (awaited_revision around)
  unfolding awaited_revision
  Keeps-awaited_revision =
      Keeps-on_agent (λ agent. (agent, reconnect_revision agent.state)) (λ agent v. v)

  Keeps-mark_reconnect : (o : Option ℕ) → Keeps P (mark_reconnect around o)
  unfolding mark_reconnect
  Keeps-mark_reconnect none d p = p
  Keeps-mark_reconnect (some revision) d p =
      Keeps-Atomic _
        (λ agent. mark_current_credential_connected-Atomic around.services agent revision) d p

  Keeps-connected_intake : (clock : Clock) → Keeps P (connected_intake around clock)
  unfolding connected_intake is_quiet
  Keeps-connected_intake clock d p =
      if_cases (λ (r : Driver Store × Result SessionError (Unit {0})). P r.0)
        (is_some d.recovery_command) _ _ (Keeps-unsubscribe unsubscribes_recovery refl d p)
        (elim (Bool-cases (is_some d.state.shutdown_deadline)) [
          | inl e ↦ rw e p
          | inr e ↦ rw e (
              if_cases (λ (r : Driver Store × Result SessionError (Unit {0})). P r.0) _ _ _
                (subscribe-kept d e p) p)
        ])

  Keeps-on_connected : (clock : Clock) → Keeps P (on_connected around clock)
  unfolding on_connected
  Keeps-on_connected clock = Keeps-bind P _ _ (Keeps-update _ (λ s. (refl, refl))) λ a.
      Keeps-bind P _ _ Keeps-awaited_revision λ revision.
        Keeps-bind P _ _ (Keeps-mark_reconnect revision) λ b. Keeps-connected_intake clock

  Keeps-apply_delivery :
      (clock : Clock) (delivery : CommandDelivery) → Keeps P (apply_delivery around clock delivery)
  unfolding apply_delivery
  Keeps-apply_delivery clock delivery =
      elim (Option-cases
        (around.decode_command delivery.identity delivery.command_id delivery.payload)) [
          | inl e ↦
              rw (e, apply_delivery)
                (Keeps-Atomic _ λ agent.
                  reject_malformed_delivery-Atomic around.services agent delivery.topic
                    delivery.command_id delivery.payload clock.now)
          | inr (decoded, e) ↦
              rw (e, apply_delivery)
                (Keeps-Atomic _ λ agent.
                  apply_command-Atomic around.services agent delivery.topic decoded clock.now)
        ]

  Keeps-settle_delivery :
      (clock : Clock) (delivery : CommandDelivery) (outcome : ApplyOutcome)
      → Keeps P (settle_delivery around clock delivery outcome)
  unfolding settle_delivery is_quiet
  Keeps-settle_delivery clock delivery outcome d p =
      if_cases (λ (r : Driver Store × Result SessionError (Unit {0})). P r.0) _ _ _
        (Keeps-bind P _ _ (Keeps-request unsubscribes_command refl)
          (λ a. Keeps-update _ (λ s. (refl, refl))) d p)
        (Keeps-request _ refl d p)

  Keeps-observe_recovery : (delivery : CommandDelivery) → Keeps P (observe_recovery around delivery)
  unfolding observe_recovery
  Keeps-observe_recovery delivery d p =
      if_cases (λ (r : Driver Store × Result SessionError (Unit {0})). P r.0) _ _ _
        (Keeps-update _ (λ s. (refl, refl)) d p) p

  Keeps-on_command :
      (clock : Clock) (delivery : CommandDelivery) → Keeps P (on_command around clock delivery)
  unfolding on_command
  Keeps-on_command clock delivery = Keeps-bind P _ _ (Keeps-observe_recovery delivery) λ a.
      Keeps-bind P _ _ (Keeps-apply_delivery clock delivery)
        λ outcome. Keeps-settle_delivery clock delivery outcome

  open_intake : (s : SessionState) → can_subscribe s ≡ true → is_some s.shutdown_deadline ≡ false
  unfolding can_subscribe
  open_intake s e = ground (arith, e)

  subscribe_again :
      (clock : Clock) (d : Driver Store)
      → P d
      → P
          (if can_subscribe d.state && command_intake_open d.agent.state clock.now
            then (request around subscribes >>= λ a. done continues) d
            else (d, ok continues)).0
  unfolding ◌>>=◌
  subscribe_again clock d p = elim (Bool-cases (can_subscribe d.state)) [
    | inl e ↦ rw e (
        if_cases (λ (r : Driver Store × Result SessionError DriverControl). P r.0)
          (command_intake_open d.agent.state clock.now) _ _
          (Keeps-done (request around subscribes d) (subscribe-kept d (open_intake d.state e) p)) p)
    | inr e ↦ rw e p
  ]

  Keeps-after_confirmation :
      (clock : Clock) (o : Option ℕ) → Keeps P (after_confirmation around clock o)
  unfolding after_confirmation
  Keeps-after_confirmation clock none d p = subscribe_again clock d p
  Keeps-after_confirmation clock (some revision) d p =
      if_cases (λ (r : Driver Store × Result SessionError DriverControl). P r.0) _ _ _ p
        (Keeps-bind P _ _ (Keeps-update _ (λ s. (refl, refl)))
          (λ a. Keeps-bind P _ _ Keeps-unsubscribe_if_active (λ b d q. q)) d p)

  Keeps-mark_absent : Keeps P (mark_absent around)
  unfolding mark_absent
  Keeps-mark_absent d p =
      if_cases (λ (r : Driver Store × Result SessionError (Unit {0})). P r.0) _ _ _
        (Keeps-Atomic _ (λ agent. persist_inbound_settlement-Atomic around.services agent none) d p)
        p

  Keeps-complete : (clock : Clock) (u : UnsubscribeCompletion) → Keeps P (complete around clock u)
  unfolding complete
  Keeps-complete clock exits d p = p
  Keeps-complete clock subscribes_again d p = subscribe_again clock d p
  Keeps-complete clock waits d p = p

  Keeps-completed_unsubscription : (clock : Clock) → Keeps P (completed_unsubscription around clock)
  unfolding completed_unsubscription
  Keeps-completed_unsubscription clock d p = Keeps-complete clock _ d p

  Keeps-release_held :
      (clock : Clock) (o : Option (CommandDelivery × Option Text))
      → Keeps P (release_held around clock o)
  unfolding release_held is_quiet
  Keeps-release_held clock (some (delivery, token)) d p =
      Keeps-bind P _ _ (Keeps-update _ (λ s. (refl, refl)))
        (λ a. Keeps-bind P _ _ (Keeps-request (acknowledges delivery token) refl) (λ b d q. q)) d p
  Keeps-release_held clock none d p =
      Keeps-bind P _ _ Keeps-mark_absent (λ a. Keeps-completed_unsubscription clock) d p

  Keeps-on_unsubscribed : (clock : Clock) → Keeps P (on_unsubscribed around clock)
  unfolding on_unsubscribed
  Keeps-on_unsubscribed clock =
      Keeps-bind P _ _ (Keeps-update _ (λ s. (refl, refl)))
        λ a d p. Keeps-release_held clock d.state.pending_command_ack d p

  Keeps-after_settlement : Keeps P (after_settlement around)
  unfolding after_settlement
  Keeps-after_settlement d p =
      if_cases (λ (r : Driver Store × Result SessionError DriverControl). P r.0) _ _ _ p p

  Keeps-on_inbound_acknowledged : (o : Option Text) → Keeps P (on_inbound_acknowledged around o)
  unfolding on_inbound_acknowledged
  Keeps-on_inbound_acknowledged none d p = p
  Keeps-on_inbound_acknowledged (some token) d p =
      Keeps-bind P _ _
        (Keeps-Atomic _
          (λ agent. persist_inbound_settlement-Atomic around.services agent (some token)))
        (λ a. Keeps-after_settlement) d p

  pub Keeps-confirm_event :
      (clock : Clock) (event_id : Text) → Keeps P (confirm_event around clock event_id)
  unfolding confirm_event
  Keeps-confirm_event clock event_id =
      Keeps-bind P _ _
        (Keeps-Atomic _ (λ agent. agent_confirm_outbound-Atomic around.services agent event_id))
        λ a.
          Keeps-bind P _ _ Keeps-awaited_revision
            λ revision. Keeps-after_confirmation clock revision

  -- Every event but the acknowledgement of a publication.
  pub Keeps-handle_event :
      (clock : Clock) (event : MqttEvent)
      → is_acknowledgement event ≡ false
      → Keeps P (handle_event around clock event)
  unfolding handle_event
  Keeps-handle_event clock connected_event x d p =
      Keeps-bind P _ _ (Keeps-on_connected clock) (λ a d q. q) d p
  Keeps-handle_event clock subscribed x d p =
      Keeps-bind P _ _ (Keeps-update _ (λ s. (refl, refl))) (λ a d q. q) d p
  Keeps-handle_event clock (command delivery) x d p =
      Keeps-bind P _ _ (Keeps-on_command clock delivery) (λ a d q. q) d p
  Keeps-handle_event clock (outbound_acknowledged event_id) x d p = cc
  Keeps-handle_event clock unsubscribed x d p = Keeps-on_unsubscribed clock d p
  Keeps-handle_event clock (inbound_acknowledged token) x d p =
      Keeps-on_inbound_acknowledged token d p
  Keeps-handle_event clock transport_progress x d p = p
