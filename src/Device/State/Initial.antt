-- ===== src/Device/State/Initial.antt =====
-- `StateV1::initial` of state.rs, with the position of rotation-model.
use rss_incubator.Base.{
  ◌<◌, ◌≡◌, refl, true, none, [], Text, ℤ, arith, nat_eq, list_eq, is_positive,
}
use rss_incubator.Crates.{Crates}
use rss_incubator.Device.Types.{DeviceIdentity, sha256_digest_valid}
use rss_incubator.Device.State.Stored.{StateV1}
use rss_incubator.Rotation.Observations.{InstalledCredentialPosition}
use rss_incubator.Device.State.Verify.{coordinates_valid, reconnect_valid, verify_pending}
use rss_incubator.Device.State.Validity.{IsValid}

-- `StoredIdentity::from_identity` is the first field.
unfoldable pub initial : DeviceIdentity → InstalledCredentialPosition → Text → ℤ → StateV1
initial identity position digest expires_at = record {
  schema_version = 1;
  identity = record {
    tenant_id = identity.tenant;
    device_id = identity.device;
    credential_generation = identity.credential_generation;
  };
  current = record {
    desired_generation = position.desired_generation;
    fence_epoch = position.fence_epoch;
    credential_revision = position.credential_revision;
    artifact_digest = digest;
    expires_at = expires_at;
  };
  device_sequence = 0;
  command_journal = [];
  outbox = [];
  reconnect_revision = none;
  pending_inbound = none;
}

-- The first state of a device is valid, for positive coordinates, a valid digest and a positive
-- expiry.
pub initial-IsValid :
    ⦃crates : Crates⦄
    → (identity : DeviceIdentity) (position : InstalledCredentialPosition) (digest : Text)
      (expires_at : ℤ)
    → 0 < identity.tenant
    → 0 < identity.device
    → 0 < identity.credential_generation
    → 0 < position.desired_generation
    → 0 < position.fence_epoch
    → 0 < position.credential_revision
    → sha256_digest_valid digest ≡ true
    → is_positive expires_at ≡ true
    → IsValid (initial identity position digest expires_at)
unfolding initial coordinates_valid reconnect_valid verify_pending
initial-IsValid identity position digest expires_at t d c g f r digest_ok expires = record {
  tenant = ground arith;
  device = ground arith;
  coordinates = ground arith;
  entries = tt;
  event_ids = tt;
  sequences = tt;
  commands = tt;
  command_ids = tt;
  pending = refl;
  one_report = refl;
  pending_iff = refl;
  phases = tt;
  reconnect = refl;
}
