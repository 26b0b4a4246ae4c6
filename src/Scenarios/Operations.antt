-- ===== src/Scenarios/Operations.antt =====
-- The operations of state.rs at the states of one rotation.
use rss_incubator.Base.{◌≡◌, refl, arith, codes, true, false, All, any, pos, nat_eq, list_eq, ◌++◌}
use rss_incubator.Crates.{lower_hex}
use rss_incubator.Crates.Digests.{printed_digest-valid}
use rss_incubator.Scenarios.Samples.{
  fresh_state, sample_crates, sample_laws, sample_identity, sample_digest,
}
use rss_incubator.Scenarios.States.{accepted_sample, accepted-IsValid, fresh-IsValid, digest_valid}
use rss_incubator.Device.Types.{sha256_digest_valid, policy_rejected}
use rss_incubator.Device.State.Initial.{initial, initial-IsValid}
use rss_incubator.Device.State.Stored.{AcceptedCommand, RejectedCommand}
use rss_incubator.Device.State.Rejection.{
  command_rejection_from, stored_rejection_from, command_rejection_from-stored,
}
use rss_incubator.Device.State.Validity.{IsValid, stored_identity}
use rss_incubator.Device.State.Hashes.{event_id, event_message}
use rss_incubator.Device.State.Entries.{is_empty}
use rss_incubator.Device.State.Journal.{expire_command_journal}
use rss_incubator.Device.State.Transitions.{accepted_state, reject, reject_conflicting_replay}
use rss_incubator.Device.State.Outbound.{
  rotation_in_flight, confirm_outbound, has_conflicting_replay,
}
use rss_incubator.Device.State.Preservation.Recorded.{
  RejectedIsValid, reject-IsValid, reject_conflicting_replay-IsValid,
}
use rss_incubator.Device.State.Preservation.Accept.{AcceptedIsValid, accepted_state-IsValid}
use rss_incubator.Device.State.Preservation.Outbox.{OwnActivation}
use rss_incubator.Device.State.Preservation.Confirm.{is_blocked_event, confirm_outbound-IsValid}

abbrev sample_accepted : AcceptedCommand
sample_accepted = record {
  command_id = codes "c1";
  fingerprint = sample_digest;
  generation = 2;
  fence = 1;
  credential_generation = 2;
  revision = 2;
  artifact_digest = sample_digest;
  expires_at = pos 9000;
  observed_at = pos 1000;
  retain_until_epoch_seconds = 1600;
}

sample_accepted-IsValid : AcceptedIsValid sample_accepted
unfolding is_empty
sample_accepted-IsValid = record {
  named = refl;
  generation = omega arith;
  fence = omega arith;
  credential_generation = omega arith;
  revision = omega arith;
  artifact_digest = digest_valid;
  expires = refl;
  observed = refl;
  fingerprint = digest_valid;
  retained = omega arith;
}

accepted_state-IsValid_example :
    IsValid (accepted_state fresh_state sample_accepted (stored_identity fresh_state))
unfolding rotation_in_flight initial event_id event_message
accepted_state-IsValid_example =
    accepted_state-IsValid sample_laws fresh_state sample_accepted fresh-IsValid
      sample_accepted-IsValid refl (omega arith) refl refl refl refl (omega arith) (omega arith)

abbrev sample_rejected : RejectedCommand
sample_rejected = record {
  command_id = codes "c2";
  fingerprint = sample_digest;
  generation = 2;
  fence = 1;
  rejection = policy_rejected;
  observed_at = pos 1000;
  retain_until_epoch_seconds = 1600;
}

sample_rejected-IsValid : RejectedIsValid sample_rejected
unfolding is_empty
sample_rejected-IsValid = record {
  named = refl;
  generation = omega arith;
  fence = omega arith;
  observed = refl;
  fingerprint = digest_valid;
  retained = omega arith;
}

reject-IsValid_example : IsValid (reject fresh_state sample_rejected)
unfolding initial
reject-IsValid_example =
    reject-IsValid fresh_state sample_rejected fresh-IsValid sample_rejected-IsValid refl refl
      (omega arith) (omega arith) (omega arith)

reject_conflicting_replay-IsValid_example :
    IsValid (reject_conflicting_replay fresh_state (codes "c1") sample_digest 2 1 (pos 1000))
unfolding initial has_conflicting_replay is_empty
reject_conflicting_replay-IsValid_example =
    reject_conflicting_replay-IsValid fresh_state (codes "c1") sample_digest 2 1 (pos 1000)
      fresh-IsValid refl (omega arith) (omega arith) refl refl (omega arith) (omega arith)

own_activation : All OwnActivation accepted_sample.outbox
unfolding accepted_state expire_command_journal initial
own_activation = ((λ h. refl), (tt, tt))

not_blocked :
    any (is_blocked_event (event_id (codes "ack") (codes "c1"))) accepted_sample.outbox ≡ false
unfolding is_blocked_event accepted_state expire_command_journal initial event_id event_message
not_blocked = refl

confirm_outbound-IsValid_example :
    IsValid (confirm_outbound accepted_sample (event_id (codes "ack") (codes "c1"))).1
confirm_outbound-IsValid_example =
    confirm_outbound-IsValid accepted_sample accepted-IsValid own_activation
      (event_id (codes "ack") (codes "c1")) not_blocked

initial-IsValid_example : IsValid fresh_state
initial-IsValid_example =
    initial-IsValid sample_identity
      (record { desired_generation = 1; fence_epoch = 1; credential_revision = 1 }) sample_digest
      (pos 5000) (omega arith) (omega arith) (omega arith) (omega arith) (omega arith) (omega arith)
      digest_valid refl

printed_digest-valid_example :
    sha256_digest_valid (codes "sha256:" ++ lower_hex (sample_crates.sha256 (codes "abc"))) ≡ true
printed_digest-valid_example = printed_digest-valid sample_crates sample_laws (codes "abc")

command_rejection_from-stored_example :
    command_rejection_from (stored_rejection_from policy_rejected) ≡ policy_rejected
command_rejection_from-stored_example = command_rejection_from-stored policy_rejected
