-- ===== src/Scenarios/Agents.antt =====
-- The properties at the states of one rotation.
use rss_incubator.Base.{
  err, ◌≤◌, ◌≡◌, refl, ap, arith, codes, ok, none, some, true, false, ==_refl, All, any, pos,
  nat_eq, list_eq, [], ◌∷◌, List, is_ok, length, Result,
}
use rss_incubator.Scenarios.Samples.{
  fresh_state, sample_crates, sample_laws, sample_identity, sample_command, sample_services,
  sample_agent, sample_artifact, sample_digest,
}
use rss_incubator.Scenarios.States.{
  sample_topic, fresh-IsValid, sample-IsAdmitted, sample_room, sample_formed, accepted_sample,
  accepted-IsValid,
}
use rss_incubator.Device.Types.{
  policy_rejected, ApplyOutcome, accepted, duplicate, OutboundFact, command_acknowledged,
  outbound_event_id,
}
use rss_incubator.Device.State.Initial.{initial}
use rss_incubator.Device.State.Stored.{invalid_state, StateV1, outbox_limit, command_journal_limit}
use rss_incubator.Device.State.Validity.{IsValid, validate_sound, validate_complete}
use rss_incubator.Device.State.Verify.{validate}
use rss_incubator.Device.State.Hashes.{event_id}
use rss_incubator.Device.State.Entries.{ready_fact, ack_fact_from, outbound_id}
use rss_incubator.Device.State.Journal.{command_match, expire_command_journal}
use rss_incubator.Device.State.Transitions.{accepted_state, reject}
use rss_incubator.Device.State.Outbound.{
  next_outbound, first_fact, publishable_fact, is_report_ready, confirm_outbound, mark_reconnected,
  mark_inbound_settled,
}
use rss_incubator.Device.State.Preservation.Outbox.{OwnActivation}
use rss_incubator.Device.State.Preservation.Confirm.{is_blocked_event}
use rss_incubator.Device.State.Preservation.Session.{
  mark_reconnected-IsValid, mark_inbound_settled-IsValid,
}
use rss_incubator.Device.State.Publication.{next_outbound-confirm}
use rss_incubator.Device.Agent.Store.{Agent, AgentError, store_error}
use rss_incubator.Device.Agent.Fingerprint.{command_fingerprint}
use rss_incubator.Device.Agent.Commands.{
  apply_command, retention_deadline, reject_malformed_delivery,
}
use rss_incubator.Device.Agent.Intake.{apply_command_accepts}
use rss_incubator.Device.Agent.Idempotence.{apply_command-again}
use rss_incubator.Device.Agent.Monotone.{Positioned, apply_command-Positioned}
use rss_incubator.Device.Agent.Atomicity.{
  Atomic, apply_command-Atomic, reject_malformed_delivery-Atomic,
}
use rss_incubator.Device.Agent.Sessions.{agent_confirm_outbound}
use rss_incubator.Device.Agent.Refusals.{agent_confirm_outbound-blocked}
use rss_incubator.Device.Agent.Redelivery.{apply_command-taken}
use rss_incubator.Device.Agent.History.{
  Call, applies, confirms, connects, settles_inbound, run, run-IsValid, run_bounded,
}

abbrev calls : List Call
calls =
    applies sample_topic sample_command 1000
    ∷ settles_inbound none
    ∷ confirms (codes "x")
    ∷ connects 2
    ∷ []

run-IsValid_example : IsValid (run sample_services (sample_agent fresh_state) calls).state
run-IsValid_example = run-IsValid sample_services (sample_agent fresh_state) calls fresh-IsValid

run_bounded_example :
    (length (run sample_services (sample_agent fresh_state) calls).state.outbox ≤ outbox_limit)
    × (length (run sample_services (sample_agent fresh_state) calls).state.command_journal
        ≤ command_journal_limit)
run_bounded_example = run_bounded sample_services (sample_agent fresh_state) calls fresh-IsValid

apply_command_accepts_example :
    apply_command sample_services (sample_agent fresh_state) sample_topic sample_command 1000
    ≡ (sample_agent accepted_sample, ok accepted)
apply_command_accepts_example =
    apply_command_accepts sample_laws sample_services (sample_agent fresh_state) sample_topic
      sample_command 1000 sample_identity sample_artifact fresh-IsValid sample-IsAdmitted
      sample_room sample_formed (omega arith) (omega arith) tt tt refl refl

first_accepted :
    apply_command sample_services (sample_agent fresh_state) sample_topic sample_command 1000
    ≡ (sample_agent accepted_sample, ok accepted)
first_accepted =
    apply_command_accepts sample_laws sample_services (sample_agent fresh_state) sample_topic
      sample_command 1000 sample_identity sample_artifact fresh-IsValid sample-IsAdmitted
      sample_room sample_formed (omega arith) (omega arith) tt tt refl refl

new_command :
    command_match fresh_state (codes "c1") (command_fingerprint sample_command) 1000 ≡ none
unfolding command_match initial
new_command = refl

apply_command-again_example :
    apply_command sample_services
      (apply_command sample_services (sample_agent fresh_state) sample_topic sample_command 1000).0
      sample_topic
      sample_command
      1200
    ≡ (
      (apply_command sample_services (sample_agent fresh_state) sample_topic sample_command 1000).0,
      ok duplicate,
    )
unfolding retention_deadline
apply_command-again_example =
    apply_command-again sample_services (sample_agent fresh_state) sample_topic sample_topic
      sample_command 1000 1200 (omega arith) (omega arith) (ground arith) new_command
      (ap (λ (r : Agent (Unit {0}) × Result AgentError ApplyOutcome). is_ok r.1) first_accepted)

apply_command-Positioned_example :
    Positioned sample_command fresh_state
      (apply_command sample_services (sample_agent fresh_state) sample_topic sample_command 1000)
apply_command-Positioned_example =
    apply_command-Positioned sample_services (sample_agent fresh_state) sample_topic sample_command
      1000

validate_complete_example : validate accepted_sample ≡ ok tt
validate_complete_example = validate_complete accepted_sample accepted-IsValid

accepted_validates : validate accepted_sample ≡ ok tt
accepted_validates = validate_complete accepted_sample accepted-IsValid

validate_sound_example : IsValid accepted_sample
validate_sound_example = validate_sound accepted_sample accepted_validates

apply_command-Atomic_example :
    Atomic fresh_state
      (apply_command sample_services (sample_agent fresh_state) sample_topic sample_command 1000)
apply_command-Atomic_example =
    apply_command-Atomic sample_services (sample_agent fresh_state) sample_topic sample_command 1000

reject_malformed_delivery-Atomic_example : Atomic accepted_sample (
    reject_malformed_delivery sample_services
      (sample_agent accepted_sample)
      sample_topic
      (codes "c2")
      []
      1000)
reject_malformed_delivery-Atomic_example =
    reject_malformed_delivery-Atomic sample_services (sample_agent accepted_sample) sample_topic
      (codes "c2") [] 1000

own_activation : All OwnActivation accepted_sample.outbox
unfolding accepted_state expire_command_journal initial
own_activation = ((λ h. refl), (tt, tt))

abbrev first_event : OutboundFact
first_event = command_acknowledged (event_id (codes "ack") (codes "c1")) (record {
  command_id = codes "c1";
  desired_generation = 2;
  fence_epoch = 1;
  device_sequence = 1;
  observed_at = pos 1000;
  rejection = none;
})

published : next_outbound accepted_sample ≡ some first_event
unfolding next_outbound first_fact publishable_fact ready_fact ack_fact_from is_report_ready
    accepted_state expire_command_journal initial
published = refl

next_outbound-confirm_example :
    ((confirm_outbound accepted_sample (outbound_event_id first_event)).0 ≡ true)
    × IsValid (confirm_outbound accepted_sample (outbound_event_id first_event)).1
next_outbound-confirm_example =
    next_outbound-confirm accepted_sample first_event accepted-IsValid own_activation published

report_waits :
    any (is_blocked_event (event_id (codes "report") (codes "c1"))) accepted_sample.outbox ≡ true
unfolding is_blocked_event accepted_state expire_command_journal initial
report_waits = ground (arith, ==_refl (event_id (codes "report") (codes "c1")))

-- The command was refused, and could be accepted by now: its retention is over, but the acknowledgement
-- of the refusal was not published.
abbrev refused : StateV1
refused = reject fresh_state (record {
  command_id = codes "c1";
  fingerprint = sample_digest;
  generation = 2;
  fence = 1;
  rejection = policy_rejected;
  observed_at = pos 1000;
  retain_until_epoch_seconds = 1600;
})

apply_command-taken_example :
    is_ok (apply_command sample_services (sample_agent refused) sample_topic sample_command 1700).1
    ≡ false
unfolding outbound_id command_match reject initial
apply_command-taken_example =
    apply_command-taken sample_services (sample_agent refused) sample_topic sample_command 1700 refl
      (ground (arith, ==_refl (event_id (codes "ack") (codes "c1"))))

mark_reconnected-IsValid_example : IsValid (mark_reconnected accepted_sample 2).1
mark_reconnected-IsValid_example = mark_reconnected-IsValid accepted_sample accepted-IsValid 2

mark_inbound_settled-IsValid_example : IsValid (mark_inbound_settled accepted_sample none).1
mark_inbound_settled-IsValid_example =
    mark_inbound_settled-IsValid accepted_sample accepted-IsValid none

agent_confirm_outbound-blocked_example :
    agent_confirm_outbound sample_services
      (sample_agent accepted_sample)
      (event_id (codes "report") (codes "c1"))
    ≡ (sample_agent accepted_sample, err (store_error invalid_state))
agent_confirm_outbound-blocked_example =
    agent_confirm_outbound-blocked sample_services (sample_agent accepted_sample)
      (event_id (codes "report") (codes "c1")) accepted-IsValid report_waits
