-- ===== src/Rotation/Observations.antt =====
-- The coordinates and observations of crates/rotation-model/src/lib.rs: what the public boundary
-- reports of one rotation. Each is a record of its fields, which its constructor takes as they are.
use rss_incubator.Base.{ℕ, Text, Option, ℤ}

-- `DeviceSequence` is a `u64` and `UnixTimestamp` an `i64`.
pub record InstalledCredentialPosition : Type 0 where
  pub desired_generation : ℕ
  pub fence_epoch : ℕ
  pub credential_revision : ℕ

pub record OperationCorrelation : Type 0 where
  pub request_id : Text
  pub correlation_id : Text

pub record RotationCoordinates : Type 0 where
  pub rotation_id : Text
  pub tenant : Text
  pub device : Text

pub record RotationIntent : Type 0 where
  pub coordinates : RotationCoordinates
  pub requested_by : Text

pub data AcceptanceCondition : Type 0 where
  reconciling pending_device : AcceptanceCondition

pub record RotationAccepted : Type 0 where
  pub coordinates : RotationCoordinates
  pub authorization_receipt : Text
  pub accepted_generation : ℕ
  pub condition : AcceptanceCondition

pub data CommandRejectionReason : Type 0 where
  artifact_unavailable artifact_digest_mismatch policy_rejected : CommandRejectionReason
  generation_stale fence_epoch_stale malformed_command device_failure : CommandRejectionReason

pub data CommandAcknowledgementOutcome : Type 0 where
  received : CommandAcknowledgementOutcome
  rejected : CommandRejectionReason → CommandAcknowledgementOutcome

pub record CommandAckPosition : Type 0 where
  pub desired_generation : ℕ
  pub fence_epoch : ℕ
  pub device_sequence : ℕ
  pub observed_at : ℤ

pub record CommandAcknowledgement : Type 0 where
  pub coordinates : RotationCoordinates
  pub event : Text
  pub command : Text
  pub position : CommandAckPosition
  pub outcome : CommandAcknowledgementOutcome

pub record ReportPosition : Type 0 where
  pub observed_generation : ℕ
  pub fence_epoch : ℕ
  pub device_sequence : ℕ
  pub observed_at : ℤ

pub record CredentialReport : Type 0 where
  pub coordinates : RotationCoordinates
  pub event : Text
  pub position : ReportPosition
  pub state_hash : Text
  pub artifact_digest : Text
  pub expires_at : Option ℤ
