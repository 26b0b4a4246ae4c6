-- ===== src/Session/Driver/Handlers.antt =====
-- The handlers of `SessionDriver` in apps/reference-device-agent/src/main.rs, and its loop.
use rss_incubator.Base.{
  ℕ, ◌+◌, not, ◌&&◌, Option, none, some, is_some, List, [], ◌∷◌, Text, nat_eq, list_eq, ok, err,
  if◌then◌else◌,
}
use rss_incubator.Crates.{Crates}
use rss_incubator.Device.Types.{OutboundFact, ApplyOutcome}
use rss_incubator.Device.State.Outbound.{next_outbound, rotation_in_flight}
use rss_incubator.Device.Agent.Store.{unknown_outbound}
use rss_incubator.Device.Agent.Commands.{apply_command, reject_malformed_delivery}
use rss_incubator.Device.Agent.Sessions.{
  agent_confirm_outbound, mark_current_credential_connected, persist_inbound_settlement,
  reconnect_revision, command_intake_open, pending_inbound_settled,
  pending_delivery_settlement_token,
}
use rss_incubator.Session.{
  CommandDelivery, MqttEvent, connected_event, subscribed, unsubscribed, transport_progress,
  command, outbound_acknowledged, inbound_acknowledged, Request, subscribes, unsubscribes_command,
  unsubscribes_recovery, disconnects, publishes, acknowledges, agent_error, mqtt_error, wire_error,
  idle, pending, inactive, active, unsubscribing, connected, observed, ready, is_idle, is_ready,
  is_observed, unsubscribe_pending, can_publish, can_unsubscribe, can_subscribe,
  shutdown_is_quiescent, should_hold_command_ack, UnsubscribeCompletion, exits, subscribes_again,
  waits, unsubscribe_completion, DriverControl, continues, reconnects, SessionCompletion,
  shutdown_completion,
}
use rss_incubator.Session.Driver.{
  Clock, Driver, Handler, Polled, Ran, Surroundings, answered, controlled, done, expects_recovery,
  is_accepted, on_agent, poll_fails, polls, ran_on, shutdown_expires, shutdown_starts,
  unsubscribed_state, update, waiting, ◌>>=◌, ◌>>◌,
}

module _ ⦃crates : Crates⦄ {Store : Type 0} (around : Surroundings Store) where
  unfoldable pub request : Request → Handler Store (Unit {0})
  request r driver = answered driver r (around.answer driver.requests r)

  -- `unsubscribe_command` or `unsubscribe_recovery`, then the state waits for the answer.
  unfoldable pub unsubscribe : Request → Handler Store (Unit {0})
  unsubscribe r = do request r; update unsubscribed_state

  unfoldable pub unsubscribe_if_active : Handler Store (Unit {0})
  unsubscribe_if_active driver =
      if can_unsubscribe driver.state
      then unsubscribe unsubscribes_command driver
      else (driver, ok tt)

  -- `agent.next_outbound()`, encoded and published.
  unfoldable pub publish_fact : Option OutboundFact → Handler Store (Unit {0})
  publish_fact none driver = (driver, ok tt)
  publish_fact (some fact) driver = elim (around.encode_outbound driver.session_identity fact) [
    | none ↦ (driver, err wire_error)
    | some encoded ↦
        (do request (publishes encoded); update (λ s. record s { publish = pending })) driver
  ]

  unfoldable pub publish_next : Handler Store (Unit {0})
  publish_next driver =
      if can_publish driver.state
      then publish_fact (next_outbound driver.agent.state) driver
      else (driver, ok tt)

  -- The deadline is ten seconds ahead.
  unfoldable pub start_shutdown : Clock → Handler Store (Unit {0})
  start_shutdown clock = do
    update (λ s. record s { shutdown_deadline = some (clock.instant + 10) })
    unsubscribe_if_active

  unfoldable pub mark_reconnect : Option ℕ → Handler Store (Unit {0})
  mark_reconnect none = done tt
  mark_reconnect (some revision) =
      on_agent (λ agent. mark_current_credential_connected around.services agent revision)

  -- `self.agent.reconnect_revision()?`.
  unfoldable pub awaited_revision : Handler Store (Option ℕ)
  awaited_revision = on_agent (λ agent. (agent, reconnect_revision agent.state))

  unfoldable pub connected_intake : Clock → Handler Store (Unit {0})
  connected_intake clock driver =
      if is_some driver.recovery_command
      then unsubscribe unsubscribes_recovery driver
      else if not (is_some driver.state.shutdown_deadline)
          && (not (rotation_in_flight driver.agent.state)
              && command_intake_open driver.agent.state clock.now)
      then request subscribes driver
      else (driver, ok tt)

  unfoldable pub on_connected : Clock → Handler Store (Unit {0})
  on_connected clock = do
    update (λ s. record s { connection = connected clock.instant; subscription = inactive })
    revision ← awaited_revision
    mark_reconnect revision
    connected_intake clock

  -- The decoded command, or the delivery that did not decode.
  unfoldable pub apply_delivery : Clock → CommandDelivery → Handler Store ApplyOutcome
  apply_delivery clock delivery =
      elim (around.decode_command delivery.identity delivery.command_id delivery.payload) [
        | some decoded ↦
            on_agent (λ agent. apply_command around.services agent delivery.topic decoded clock.now)
        | none ↦ on_agent (λ agent.
            reject_malformed_delivery around.services agent delivery.topic delivery.command_id
              delivery.payload clock.now)
      ]

  -- The acknowledgement is held until the command topic is unsubscribed, or it is sent.
  unfoldable pub settle_delivery : Clock → CommandDelivery → ApplyOutcome → Handler Store (Unit {0})
  settle_delivery clock delivery outcome driver =
      let token =
        pending_delivery_settlement_token driver.agent.state delivery.topic delivery.command_id in
      if should_hold_command_ack (is_accepted outcome)
        (command_intake_open driver.agent.state clock.later)
        (is_some driver.state.shutdown_deadline)
      then (do
        request unsubscribes_command
        update (λ s. record s {
          subscription = unsubscribing;
          pending_command_ack = some (delivery, token);
        }))
          driver
      else request (acknowledges delivery token) driver

  unfoldable pub observe_recovery : CommandDelivery → Handler Store (Unit {0})
  observe_recovery delivery driver =
      if expects_recovery driver.recovery_command delivery.topic
      then update (λ s. record s { recovery_observation = observed }) driver
      else (driver, ok tt)

  unfoldable pub on_command : Clock → CommandDelivery → Handler Store (Unit {0})
  on_command clock delivery = do
    observe_recovery delivery
    outcome ← apply_delivery clock delivery
    settle_delivery clock delivery outcome

  -- What follows the confirmation of an outbound event.
  unfoldable pub after_confirmation : Clock → Option ℕ → Handler Store DriverControl
  after_confirmation clock (some revision) driver =
      if not (unsubscribe_pending driver.state) && pending_inbound_settled driver.agent.state
      then (driver, ok reconnects)
      else (do update (λ s. record s { reconnect = ready }); unsubscribe_if_active; done continues)
          driver
  after_confirmation clock none driver =
      if can_subscribe driver.state && command_intake_open driver.agent.state clock.now
      then (do request subscribes; done continues) driver
      else (driver, ok continues)

  unfoldable pub confirm_event : Clock → Text → Handler Store DriverControl
  confirm_event clock event_id = do
    on_agent (λ agent. agent_confirm_outbound around.services agent event_id)
    revision ← awaited_revision
    after_confirmation clock revision

  unfoldable pub confirm_published : Clock → Text → Handler Store DriverControl
  confirm_published clock event_id = do
    update (λ s. record s { publish = idle })
    confirm_event clock event_id

  unfoldable pub on_outbound_acknowledged : Clock → Text → Handler Store DriverControl
  on_outbound_acknowledged clock event_id driver =
      if is_idle driver.state.publish
      then (driver, err (agent_error unknown_outbound))
      else confirm_published clock event_id driver

  -- `mark_pending_inbound_absent` when the recovery subscription is gone without a delivery.
  unfoldable pub mark_absent : Handler Store (Unit {0})
  mark_absent driver =
      if is_some driver.recovery_command
        && (not (is_observed driver.state.recovery_observation)
            && not (pending_inbound_settled driver.agent.state))
      then on_agent (λ agent. persist_inbound_settlement around.services agent none) driver
      else (driver, ok tt)

  unfoldable pub complete : Clock → UnsubscribeCompletion → Handler Store DriverControl
  complete clock exits driver = (driver, ok reconnects)
  complete clock subscribes_again driver =
      if can_subscribe driver.state && command_intake_open driver.agent.state clock.now
      then (do request subscribes; done continues) driver
      else (driver, ok continues)
  complete clock waits driver = (driver, ok continues)

  unfoldable pub completed_unsubscription : Clock → Handler Store DriverControl
  completed_unsubscription clock driver =
      complete clock
        (unsubscribe_completion (is_ready driver.state.reconnect)
          (pending_inbound_settled driver.agent.state) (rotation_in_flight driver.agent.state))
        driver

  -- `pending_command_ack.take()`.
  unfoldable pub release_held :
      Clock → Option (CommandDelivery × Option Text) → Handler Store DriverControl
  release_held clock (some (delivery, token)) = do
    update (λ s. record s { pending_command_ack = none })
    request (acknowledges delivery token)
    done continues
  release_held clock none = do mark_absent; completed_unsubscription clock

  unfoldable pub on_unsubscribed : Clock → Handler Store DriverControl
  on_unsubscribed clock = do
    update (λ s. record s { subscription = inactive })
    λ driver. release_held clock driver.state.pending_command_ack driver

  unfoldable pub after_settlement : Handler Store DriverControl
  after_settlement driver =
      if is_ready driver.state.reconnect && not (unsubscribe_pending driver.state)
      then (driver, ok reconnects)
      else (driver, ok continues)

  unfoldable pub on_inbound_acknowledged : Option Text → Handler Store DriverControl
  on_inbound_acknowledged none = done continues
  on_inbound_acknowledged (some token) = do
    on_agent (λ agent. persist_inbound_settlement around.services agent (some token))
    after_settlement

  unfoldable pub handle_event : Clock → MqttEvent → Handler Store DriverControl
  handle_event clock connected_event = do on_connected clock; done continues
  handle_event clock subscribed = do
    update (λ s. record s { subscription = active })
    done continues
  handle_event clock (command delivery) = do on_command clock delivery; done continues
  handle_event clock (outbound_acknowledged event_id) = on_outbound_acknowledged clock event_id
  handle_event clock unsubscribed = on_unsubscribed clock
  handle_event clock (inbound_acknowledged token) = on_inbound_acknowledged token
  handle_event clock transport_progress = done continues

  -- A poll that the driver waits for: the shutdown starts once, and expires after it started.
  unfoldable pub on_polled : Polled → Handler Store (Option SessionCompletion)
  on_polled (poll_fails e) driver = (driver, err (mqtt_error e))
  on_polled (shutdown_starts clock) driver =
      if is_some driver.state.shutdown_deadline
      then (driver, ok none)
      else (do start_shutdown clock; done none) driver
  on_polled (shutdown_expires clock) driver =
      if is_some driver.state.shutdown_deadline
      then (driver, ok (some shutdown_completion))
      else (driver, ok none)
  on_polled (polls clock event) driver = controlled (handle_event clock event driver)

  -- One turn of the loop: publish, then disconnect when the shutdown is done, or poll.
  unfoldable pub turn : Polled → Handler Store (Option SessionCompletion)
  turn p = do
    publish_next
    λ driver.
        if shutdown_is_quiescent driver.state driver.agent
        then (do request disconnects; done (some shutdown_completion)) driver
        else on_polled p driver

  -- The loop over what is polled.
  unfoldable pub drive : Driver Store → List Polled → Driver Store × Ran
  unfolding turn
  drive driver [] = (driver, waiting)
  drive driver (p ∷ ps) = ran_on (turn p driver) (λ next. drive next ps)
