-- ===== src/Device/State/Stored.antt =====
-- The records of state.rs: the state of version 1, its journal, its outbox and its errors.
use rss_incubator.Base.{ℕ, Bool, List, Option, Text, ℤ}
use rss_incubator.Device.Types.{CommandRejection}
use rss_incubator.Device.State.Rejection.{StoredRejection}

pub data StoreError : Type 0 where
  unavailable invalid_state outbox_full revision_conflict already_open : StoreError
  command_journal_full : StoreError

pub record AcceptedCommand : Type 0 where
  pub command_id : Text
  pub fingerprint : Text
  pub generation : ℕ
  pub fence : ℕ
  pub credential_generation : ℕ
  pub revision : ℕ
  pub artifact_digest : Text
  pub expires_at : ℤ
  pub observed_at : ℤ
  pub retain_until_epoch_seconds : ℕ

pub record RejectedCommand : Type 0 where
  pub command_id : Text
  pub fingerprint : Text
  pub generation : ℕ
  pub fence : ℕ
  pub rejection : CommandRejection
  pub observed_at : ℤ
  pub retain_until_epoch_seconds : ℕ

pub record StoredInboundSettlement : Type 0 where
  pub topic : Text
  pub command_id : Text
  pub fingerprint : Text
  pub credential_generation : ℕ
  pub settlement_token : Text
  pub settled : Bool

pub record StoredIdentity : Type 0 where
  pub tenant_id : ℕ
  pub device_id : ℕ
  pub credential_generation : ℕ

pub record StoredCurrent : Type 0 where
  pub desired_generation : ℕ
  pub fence_epoch : ℕ
  pub credential_revision : ℕ
  pub artifact_digest : Text
  pub expires_at : ℤ

pub record StoredAck : Type 0 where
  pub command_id : Text
  pub event_cause : Text
  pub desired_generation : ℕ
  pub fence_epoch : ℕ
  pub device_sequence : ℕ
  pub observed_at : ℤ
  pub rejection : Option StoredRejection
  pub activates_revision : Option ℕ
  pub settled_replay : Bool

pub record StoredReport : Type 0 where
  pub command_id : Text
  pub observed_generation : ℕ
  pub fence_epoch : ℕ
  pub device_sequence : ℕ
  pub observed_at : ℤ
  pub state_hash : Text
  pub artifact_digest : Text
  pub expires_at : Option ℤ
  pub credential_generation : ℕ
  pub credential_revision : ℕ

pub record StoredCommand : Type 0 where
  pub command_id : Text
  pub fingerprint : Text
  pub acknowledgement : StoredAck
  pub retain_until_epoch_seconds : ℕ

-- Each constructor takes the event id and the payload.
pub data StoredOutbound : Type 0 where
  ack : Text → StoredAck → StoredOutbound
  report_blocked : Text → StoredReport → StoredOutbound
  report_ready : Text → StoredReport → StoredOutbound

pub record StateV1 : Type 0 where
  pub schema_version : ℕ
  pub identity : StoredIdentity
  pub current : StoredCurrent
  pub device_sequence : ℕ
  pub command_journal : List StoredCommand
  pub outbox : List StoredOutbound
  pub reconnect_revision : Option ℕ
  pub pending_inbound : Option StoredInboundSettlement

abbrev pub outbox_limit : ℕ
outbox_limit = 128

abbrev pub command_journal_limit : ℕ
command_journal_limit = 1024
