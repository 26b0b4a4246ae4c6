-- ===== src/Scenarios/Drivers.antt =====
-- A session of the device with an accepted rotation: it connects, publishes its acknowledgement, and
-- shuts down.
use rss_incubator.Base.{ok, true, false, ◌+◌, ◌≤◌, ◌≡◌, refl, none, some, List, [], ◌∷◌, codes}
use rss_incubator.Device.State.Validity.{IsValid}
use rss_incubator.Session.{
  unsubscribing, unsubscribe_pending, unsubscribe_completion, reconnects, connected_event,
  unsubscribed, command, outbound_acknowledged, CommandDelivery, default_state, ready, SessionState,
}
use rss_incubator.Session.Driver.{
  ◌>>=◌, update, Driver, Surroundings, Clock, Polled, polls, shutdown_starts, shutdown_expires,
}
use rss_incubator.Session.Driver.Handlers.{
  handle_event, on_unsubscribed, release_held, mark_absent, completed_unsubscription, complete,
  drive,
}
use rss_incubator.Device.State.Initial.{initial}
use rss_incubator.Device.State.Transitions.{accept, accepted_state}
use rss_incubator.Device.State.Outbound.{mark_inbound_settled}
use rss_incubator.Device.Agent.Sessions.{pending_inbound_settled}
use rss_incubator.Session.Driver.Turns.{acknowledgements}
use rss_incubator.Session.Driver.Laws.{
  publications, subscriptions, drive-IsValid, drive_in_flight, drive_closed,
}
use rss_incubator.Session.Driver.Exits.{SettledIfReconnects, handle_event-Settled}
use rss_incubator.Scenarios.Samples.{
  sample_crates, sample_identity, sample_command, sample_services, sample_agent,
}
use rss_incubator.Scenarios.States.{sample_topic, accepted_sample, accepted-IsValid}

abbrev surroundings : Surroundings (Unit {0})
surroundings = record {
  services = sample_services;
  decode_command = λ identity id payload. some sample_command;
  encode_outbound = λ identity fact. some (record { event_id = codes "e"; payload = [] });
  answer = λ requests r. none;
}

abbrev clock : Clock
clock = record { now = 1000; later = 1001; instant = 50 }

abbrev delivery : CommandDelivery
delivery = record {
  topic = sample_topic;
  command_id = codes "c1";
  identity = sample_identity;
  payload = [];
}

abbrev opened : SessionState → Driver (Unit {0})
opened s = record {
  agent = sample_agent accepted_sample;
  requests = [];
  session_identity = sample_identity;
  recovery_command = none;
  state = s;
}

abbrev events : List Polled
events =
    polls clock connected_event
    ∷ polls clock (command delivery)
    ∷ polls clock (outbound_acknowledged (codes "e"))
    ∷ polls clock unsubscribed
    ∷ shutdown_starts clock
    ∷ shutdown_expires clock
    ∷ []

drive-IsValid_example : IsValid (drive surroundings (opened default_state) events).0.agent.state
drive-IsValid_example = drive-IsValid surroundings (opened default_state) events accepted-IsValid

drive_in_flight_example :
    publications (drive surroundings (opened default_state) events).0.requests
    ≤ acknowledgements events + 1
unfolding publications
drive_in_flight_example = drive_in_flight surroundings (opened default_state) events refl

abbrev closing_state : SessionState
closing_state = record default_state { shutdown_deadline = some 60 }

drive_closed_example :
    subscriptions (drive surroundings (opened closing_state) events).0.requests
    ≡ subscriptions (opened closing_state).requests
drive_closed_example = drive_closed surroundings (opened closing_state) events refl

-- The accepted command is settled with the broker and its connection waits for a new credential.
abbrev settled : Driver (Unit {0})
settled =
    record (opened (record default_state { subscription = unsubscribing; reconnect = ready })) {
      agent = sample_agent (mark_inbound_settled accepted_sample none).1;
    }

abbrev reconnected : Driver (Unit {0})
reconnected = (handle_event surroundings clock unsubscribed settled).0

settled_reconnects :
    handle_event surroundings clock unsubscribed settled ≡ (reconnected, ok reconnects)
unfolding handle_event on_unsubscribed release_held mark_absent completed_unsubscription complete
    unsubscribe_completion ◌>>=◌ update pending_inbound_settled mark_inbound_settled
    unsubscribe_pending accept accepted_state initial
settled_reconnects = refl

handle_event-Settled_example :
    (pending_inbound_settled reconnected.agent.state ≡ true)
    × (unsubscribe_pending reconnected.state ≡ false)
unfolding handle_event on_unsubscribed release_held mark_absent completed_unsubscription complete
    unsubscribe_completion ◌>>=◌ update pending_inbound_settled mark_inbound_settled
    unsubscribe_pending accept accepted_state initial SettledIfReconnects
handle_event-Settled_example = handle_event-Settled surroundings clock unsubscribed settled
