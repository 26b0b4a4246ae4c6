-- ===== src/Session.antt =====
-- The session of apps/reference-device-agent: the state of the driver in main.rs, and the events,
-- requests and errors that it exchanges with the MQTT client of mqtt.rs.
pub mod Driver
pub mod Delivery
use rss_incubator.Base.{
  ℕ, Bool, true, false, not, ◌&&◌, ◌||◌, Option, none, some, is_some, List, Text, Bytes, leb, ◌-◌,
  if◌then◌else◌,
}
use rss_incubator.Device.Types.{DeviceIdentity, DeviceCommand, OutboundFact, RecoveryCommandScope}
use rss_incubator.Device.Agent.Store.{Agent, AgentError}
use rss_incubator.Device.State.Outbound.{next_outbound}

-- `rumqttc::v5::mqttbytes::v5::ConnectReturnCode`, as far as the source tells codes apart.
pub data ConnectReturnCode : Type 0 where
  service_unavailable server_unavailable server_busy quota_exceeded : ConnectReturnCode
  connection_rate_exceeded other_code : ConnectReturnCode

-- `rumqttc::v5::ConnectionError`.
pub data ConnectionError : Type 0 where
  timeout io other_connection_error : ConnectionError
  connection_refused : ConnectReturnCode → ConnectionError

pub data MqttError : Type 0 where
  credential_unavailable request_failed : MqttError
  connection : ConnectionError → MqttError
  invalid_command_frame unknown_pub_ack subscription_rejected assertion_rejected : MqttError

unfoldable pub retryable_code : ConnectReturnCode → Bool
retryable_code other_code = false
retryable_code service_unavailable = true
retryable_code server_unavailable = true
retryable_code server_busy = true
retryable_code quota_exceeded = true
retryable_code connection_rate_exceeded = true

unfoldable pub is_retryable : MqttError → Bool
unfolding retryable_code
is_retryable request_failed = true
is_retryable (connection timeout) = true
is_retryable (connection io) = true
is_retryable (connection other_connection_error) = false
is_retryable (connection (connection_refused code)) = retryable_code code
is_retryable credential_unavailable = false
is_retryable invalid_command_frame = false
is_retryable unknown_pub_ack = false
is_retryable subscription_rejected = false
is_retryable assertion_rejected = false

pub record CommandDelivery : Type 0 where
  pub topic : Text
  pub command_id : Text
  pub identity : DeviceIdentity
  pub payload : Bytes

pub data MqttEvent : Type 0 where
  connected_event subscribed unsubscribed transport_progress : MqttEvent
  command : CommandDelivery → MqttEvent
  outbound_acknowledged : Text → MqttEvent
  inbound_acknowledged : Option Text → MqttEvent

-- The fields of `EncodedOutbound` but the kind, which the fact has.
pub record EncodedOutbound : Type 0 where
  pub event_id : Text
  pub payload : Bytes

-- The calls of `MqttSession`.
pub data Request : Type 0 where
  subscribes unsubscribes_command unsubscribes_recovery disconnects : Request
  publishes : EncodedOutbound → Request
  acknowledges : CommandDelivery → Option Text → Request

pub data SessionError : Type 0 where
  agent_error : AgentError → SessionError
  mqtt_error : MqttError → SessionError
  wire_error : SessionError

pub data PublishState : Type 0 where
  idle pending : PublishState

pub data SubscriptionState : Type 0 where
  inactive active unsubscribing : SubscriptionState

-- `at` is an instant of the monotonic clock, in seconds.
pub data ConnectionState : Type 0 where
  connecting : ConnectionState
  connected : ℕ → ConnectionState

pub data RecoveryObservation : Type 0 where
  not_observed observed : RecoveryObservation

pub data ReconnectState : Type 0 where
  dormant ready : ReconnectState

pub record SessionState : Type 0 where
  pub publish : PublishState
  pub subscription : SubscriptionState
  pub connection : ConnectionState
  pub pending_command_ack : Option (CommandDelivery × Option Text)
  pub recovery_observation : RecoveryObservation
  pub reconnect : ReconnectState
  pub shutdown_deadline : Option ℕ

abbrev pub default_state : SessionState
default_state = record {
  publish = idle;
  subscription = inactive;
  connection = connecting;
  pending_command_ack = none;
  recovery_observation = not_observed;
  reconnect = dormant;
  shutdown_deadline = none;
}

abbrev pub is_idle : PublishState → Bool
is_idle idle = true
is_idle pending = false

abbrev pub is_active : SubscriptionState → Bool
is_active active = true
is_active inactive = false
is_active unsubscribing = false

abbrev pub is_inactive : SubscriptionState → Bool
is_inactive inactive = true
is_inactive active = false
is_inactive unsubscribing = false

abbrev pub is_unsubscribing : SubscriptionState → Bool
is_unsubscribing unsubscribing = true
is_unsubscribing inactive = false
is_unsubscribing active = false

abbrev pub is_connected : ConnectionState → Bool
is_connected connecting = false
is_connected (connected at) = true

abbrev pub is_ready : ReconnectState → Bool
is_ready ready = true
is_ready dormant = false

abbrev pub is_observed : RecoveryObservation → Bool
is_observed observed = true
is_observed not_observed = false

unfoldable pub unsubscribe_pending : SessionState → Bool
unsubscribe_pending s = is_unsubscribing s.subscription

unfoldable pub can_publish : SessionState → Bool
can_publish s =
    is_connected s.connection
    && (is_idle s.publish && (not (is_ready s.reconnect) && not (unsubscribe_pending s)))

unfoldable pub can_unsubscribe : SessionState → Bool
can_unsubscribe s = is_connected s.connection && is_active s.subscription

unfoldable pub can_subscribe : SessionState → Bool
can_subscribe s = is_inactive s.subscription && not (is_some s.shutdown_deadline)

-- `at.elapsed() >= Duration::from_mins(1)`.
unfoldable pub stable_since : ℕ → ConnectionState → Bool
stable_since instant connecting = false
stable_since instant (connected at) = leb 60 (instant - at)

unfoldable pub connection_is_stable : SessionState → ℕ → Bool
unfolding stable_since
connection_is_stable s instant = stable_since instant s.connection

unfoldable pub transport_is_quiescent : SessionState → Bool
transport_is_quiescent s =
    is_some s.shutdown_deadline
    && (is_connected s.connection
        && (is_idle s.publish
            && (not (is_some s.pending_command_ack) && not (unsubscribe_pending s))))

unfoldable pub shutdown_is_quiescent : {Store : Type 0} → SessionState → Agent Store → Bool
shutdown_is_quiescent s agent =
    transport_is_quiescent s && not (is_some (next_outbound agent.state))

unfoldable pub should_hold_command_ack : Bool → Bool → Bool → Bool
should_hold_command_ack accepted intake_open shutting_down =
    accepted || (not intake_open || shutting_down)

pub data UnsubscribeCompletion : Type 0 where
  exits subscribes_again waits : UnsubscribeCompletion

unfoldable pub unsubscribe_completion : Bool → Bool → Bool → UnsubscribeCompletion
unsubscribe_completion reconnect_ready inbound_flushed rotation_in_flight =
    if reconnect_ready && inbound_flushed
    then exits
    else if not rotation_in_flight
    then subscribes_again
    else waits

pub data DriverControl : Type 0 where
  continues reconnects : DriverControl

pub data SessionCompletion : Type 0 where
  reconnect_completion shutdown_completion : SessionCompletion
