-- ===== src/Device/State/Rejection.antt =====
-- The stored form of a rejection in state.rs, and its two conversions.
use rss_incubator.Base.{◌≡◌, refl}
use rss_incubator.Device.Types.{CommandRejection}

pub data StoredRejection : Type 0 where
  artifact_unavailable artifact_digest_mismatch policy_rejected : StoredRejection
  generation_stale fence_epoch_stale malformed_command device_failure : StoredRejection

unfoldable pub stored_rejection_from : CommandRejection → StoredRejection
stored_rejection_from CommandRejection.artifact_unavailable = artifact_unavailable
stored_rejection_from CommandRejection.artifact_digest_mismatch = artifact_digest_mismatch
stored_rejection_from CommandRejection.policy_rejected = policy_rejected
stored_rejection_from CommandRejection.generation_stale = generation_stale
stored_rejection_from CommandRejection.fence_epoch_stale = fence_epoch_stale
stored_rejection_from CommandRejection.malformed_command = malformed_command
stored_rejection_from CommandRejection.device_failure = device_failure

unfoldable pub command_rejection_from : StoredRejection → CommandRejection
command_rejection_from artifact_unavailable = CommandRejection.artifact_unavailable
command_rejection_from artifact_digest_mismatch = CommandRejection.artifact_digest_mismatch
command_rejection_from policy_rejected = CommandRejection.policy_rejected
command_rejection_from generation_stale = CommandRejection.generation_stale
command_rejection_from fence_epoch_stale = CommandRejection.fence_epoch_stale
command_rejection_from malformed_command = CommandRejection.malformed_command
command_rejection_from device_failure = CommandRejection.device_failure

-- A rejection that is stored is read back as the one that was recorded.
pub command_rejection_from-stored :
    (r : CommandRejection) → command_rejection_from (stored_rejection_from r) ≡ r
unfolding command_rejection_from stored_rejection_from
command_rejection_from-stored CommandRejection.artifact_unavailable = refl
command_rejection_from-stored CommandRejection.artifact_digest_mismatch = refl
command_rejection_from-stored CommandRejection.policy_rejected = refl
command_rejection_from-stored CommandRejection.generation_stale = refl
command_rejection_from-stored CommandRejection.fence_epoch_stale = refl
command_rejection_from-stored CommandRejection.malformed_command = refl
command_rejection_from-stored CommandRejection.device_failure = refl
