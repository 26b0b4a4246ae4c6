-- ===== src/Scenarios/States.antt =====
-- The state of a device before a rotation and after it accepted one.
use rss_incubator.Base.{utf8, utf8_char, ◌≡◌, refl, arith, codes, Text, true, pos, nat_eq, list_eq}
use rss_incubator.Scenarios.Samples.{
  fresh_state, sample_crates, sample_laws, sample_identity, sample_command, sample_services,
  sample_agent, sample_artifact, sample_digest,
}
use rss_incubator.Device.Types.{
  topic_set_new, sha256_digest_valid, is_hex_byte, credential_generation_try_from,
  device_identity_try_new,
}
use rss_incubator.Device.State.Initial.{initial, initial-IsValid}
use rss_incubator.Device.State.Validity.{IsValid}
use rss_incubator.Device.State.Stored.{StateV1}
use rss_incubator.Device.State.Verify.{current_identity}
use rss_incubator.Device.State.Journal.{command_match, expire_command_journal}
use rss_incubator.Device.State.Hashes.{event_id, event_message}
use rss_incubator.Device.State.Entries.{is_empty}
use rss_incubator.Device.State.Outbound.{rotation_in_flight}
use rss_incubator.Device.Agent.Cases.{IsAdmitted}
use rss_incubator.Device.Agent.Intake.{HasRoom, IsWellFormed, accepted_next, accepted_next-IsValid}

abbrev pub sample_topic : Text
sample_topic = (topic_set_new sample_identity).command

pub digest_valid : sha256_digest_valid sample_digest ≡ true
unfolding sha256_digest_valid is_hex_byte utf8 utf8_char
digest_valid = refl

pub fresh-IsValid : IsValid fresh_state
fresh-IsValid =
    initial-IsValid sample_identity _ sample_digest (pos 5000) (omega arith) (omega arith)
      (omega arith) (omega arith) (omega arith) (omega arith) digest_valid refl

pub sample-IsAdmitted :
    IsAdmitted sample_services fresh_state sample_topic sample_command 1000 sample_identity
      sample_artifact
unfolding command_match initial rotation_in_flight current_identity credential_generation_try_from
    device_identity_try_new
sample-IsAdmitted = record {
  unknown = refl;
  idle = refl;
  identified = refl;
  own_topic = refl;
  own_device = refl;
  deadline = omega arith;
  available = refl;
  fence = omega arith;
  generation = omega arith;
  credential = omega arith;
}

pub sample_room : HasRoom fresh_state (codes "c1") 1000
unfolding initial expire_command_journal event_id event_message
sample_room = record {
  outbox = omega arith;
  journal = omega arith;
  sequence = omega arith;
  revision = omega arith;
  ack_event = refl;
  report_event = refl;
  apart = refl;
}

pub sample_formed : IsWellFormed sample_command sample_artifact
unfolding is_empty
sample_formed = record { named = refl; digest = digest_valid; expires = refl }

abbrev pub accepted_sample : StateV1
accepted_sample =
    accepted_next sample_laws sample_services (sample_agent fresh_state) sample_topic sample_command
      1000 sample_identity sample_artifact

pub accepted-IsValid : IsValid accepted_sample
accepted-IsValid =
    accepted_next-IsValid sample_laws sample_services (sample_agent fresh_state) sample_topic
      sample_command 1000 sample_identity sample_artifact fresh-IsValid sample-IsAdmitted
      sample_room sample_formed (omega arith) (omega arith)
