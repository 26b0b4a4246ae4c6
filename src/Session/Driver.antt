-- ===== src/Session/Driver.antt =====
-- `SessionDriver` of apps/reference-device-agent/src/main.rs: the driver over the agent, the
-- requests to the MQTT client in their order, and what its loop polls.
pub mod Handlers
pub mod Rules
pub mod Turns
pub mod Laws
pub mod Exits
use rss_incubator.Base.{
  ℕ, ◌+◌, Bool, true, false, not, ◌&&◌, Option, none, some, is_some, is_some_and, List, [], ◌∷◌,
  Text, Bytes, ◌==◌, nat_eq, list_eq, Result, ok, err, if◌then◌else◌,
}
use rss_incubator.Crates.{Crates}
use rss_incubator.Device.Types.{
  DeviceIdentity, DeviceCommand, OutboundFact, RecoveryCommandScope, ApplyOutcome, accepted,
  duplicate, rejected,
}
use rss_incubator.Device.State.Outbound.{next_outbound, rotation_in_flight}
use rss_incubator.Device.Agent.Store.{Services, Agent, AgentError, unknown_outbound}
use rss_incubator.Device.Agent.Commands.{apply_command, reject_malformed_delivery}
use rss_incubator.Device.Agent.Sessions.{
  agent_confirm_outbound, mark_current_credential_connected, persist_inbound_settlement,
  reconnect_revision, command_intake_open, pending_inbound_settled,
  pending_delivery_settlement_token,
}
use rss_incubator.Session.{
  MqttError, CommandDelivery, MqttEvent, connected_event, subscribed, unsubscribed,
  transport_progress, command, outbound_acknowledged, inbound_acknowledged, EncodedOutbound,
  Request, subscribes, unsubscribes_command, unsubscribes_recovery, disconnects, publishes,
  acknowledges, SessionError, agent_error, mqtt_error, wire_error, idle, pending, inactive, active,
  unsubscribing, connected, observed, ready, SessionState, is_idle, is_ready, is_observed,
  unsubscribe_pending, can_publish, can_unsubscribe, can_subscribe, shutdown_is_quiescent,
  should_hold_command_ack, UnsubscribeCompletion, exits, subscribes_again, waits,
  unsubscribe_completion, DriverControl, continues, reconnects, SessionCompletion,
  reconnect_completion, shutdown_completion,
}

-- The requests stand with the last one first.
pub record Driver (Store : Type 0) : Type 0 where
  pub agent : Agent Store
  pub requests : List Request
  pub session_identity : DeviceIdentity
  pub recovery_command : Option RecoveryCommandScope
  pub state : SessionState

-- What the driver is given: the services of the agent, `decode_command` and `encode_outbound` of
-- wire.rs, and what the client answers to a request after those that it has taken.
pub record Surroundings (Store : Type 0) : Type 0 where
  pub services : Services Store
  pub decode_command : DeviceIdentity → Text → Bytes → Option DeviceCommand
  pub encode_outbound : DeviceIdentity → OutboundFact → Option EncodedOutbound
  pub answer : List Request → Request → Option MqttError

-- The clocks that a handler reads: the Unix time twice, and the monotonic clock.
pub record Clock : Type 0 where
  pub now : ℕ
  pub later : ℕ
  pub instant : ℕ

abbrev pub Handler : Type 0 → Type 0 → Type 0
Handler Store A = Driver Store → Driver Store × Result SessionError A

abbrev pub proceed :
    {Store A B : Type 0}
    → Driver Store × Result SessionError A
    → (A → Handler Store B)
    → Driver Store × Result SessionError B
proceed (driver, ok a) k = k a driver
proceed (driver, err e) k = (driver, err e)

infixl 5 ◌>>=◌ ◌>>◌
unfoldable pub ◌>>=◌ :
    {Store A B : Type 0} → Handler Store A → (A → Handler Store B) → Handler Store B
◌>>=◌ m k driver = proceed (m driver) k

abbrev pub ◌>>◌ : {Store A B : Type 0} → Handler Store A → Handler Store B → Handler Store B
m >> k = m >>= λ _. k

abbrev pub done : {Store A : Type 0} → A → Handler Store A
done a driver = (driver, ok a)

unfoldable pub update : {Store : Type 0} → (SessionState → SessionState) → Handler Store (Unit {0})
update f driver = (record driver { state = f driver.state }, ok tt)

abbrev pub answered :
    {Store : Type 0}
    → Driver Store
    → Request
    → Option MqttError
    → Driver Store × Result SessionError (Unit {0})
answered driver r none = (record driver { requests = r ∷ driver.requests }, ok tt)
answered driver r (some e) = (driver, err (mqtt_error e))

abbrev pub called :
    {Store A : Type 0}
    → Driver Store
    → Agent Store × Result AgentError A
    → Driver Store × Result SessionError A
called driver (agent, ok a) = (record driver { agent = agent }, ok a)
called driver (agent, err e) = (record driver { agent = agent }, err (agent_error e))

-- A call on the agent, by `?`.
unfoldable pub on_agent :
    {Store A : Type 0} → (Agent Store → Agent Store × Result AgentError A) → Handler Store A
on_agent call driver = called driver (call driver.agent)

abbrev pub unsubscribed_state : SessionState → SessionState
unsubscribed_state s = record s { subscription = unsubscribing }

unfoldable pub expects_recovery : Option RecoveryCommandScope → Text → Bool
expects_recovery recovery topic = is_some_and recovery (λ scope. scope.topic == topic)

-- What a poll ends with.
pub data Polled : Type 0 where
  poll_fails : MqttError → Polled
  shutdown_starts shutdown_expires : Clock → Polled
  polls : Clock → MqttEvent → Polled

pub data Ran : Type 0 where
  waiting : Ran
  completed : SessionCompletion → Ran
  stopped : SessionError → Ran

abbrev pub controlled :
    {Store : Type 0}
    → Driver Store × Result SessionError DriverControl
    → Driver Store × Result SessionError (Option SessionCompletion)
controlled (driver, ok continues) = (driver, ok none)
controlled (driver, ok reconnects) = (driver, ok (some reconnect_completion))
controlled (driver, err e) = (driver, err e)

abbrev pub ran_on :
    {Store : Type 0}
    → Driver Store × Result SessionError (Option SessionCompletion)
    → (Driver Store → Driver Store × Ran)
    → Driver Store × Ran
ran_on (driver, ok none) next = next driver
ran_on (driver, ok (some completion)) next = (driver, completed completion)
ran_on (driver, err e) next = (driver, stopped e)

abbrev pub is_accepted : ApplyOutcome → Bool
is_accepted accepted = true
is_accepted duplicate = false
is_accepted (rejected r) = false
