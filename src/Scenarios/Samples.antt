-- ===== src/Scenarios/Samples.antt =====
-- The data of the runs: a small digest in place of SHA-256, a device, a rotation command, a store.
use rss_incubator.Base.{
  ℕ, ◌+◌, ◌*◌, ◌/◌, ◌%◌, refl, [], ◌∷◌, Text, Bytes, arith, codes, decimal, ok, pos,
}
use rss_incubator.Crates.{Crates, DigestLaws}
use rss_incubator.Device.Types.{DeviceIdentity, DeviceCommand}
use rss_incubator.Device.Artifact.{ResolvedArtifact}
use rss_incubator.Device.Agent.Store.{Services, Agent}
use rss_incubator.Device.State.Stored.{StateV1}
use rss_incubator.Device.State.Initial.{initial}

abbrev checksum : ℕ → Bytes → ℕ
checksum h [] = h
checksum h (b ∷ bs) = checksum ((h * 31 + b) % 65521) bs

abbrev zeros : Bytes
zeros =
    0 ∷ 0 ∷ 0 ∷ 0 ∷ 0 ∷ 0 ∷ 0 ∷ 0 ∷ 0 ∷ 0 ∷ 0 ∷ 0 ∷ 0 ∷ 0 ∷ 0 ∷ 0 ∷ 0 ∷ 0 ∷ 0 ∷ 0 ∷ 0 ∷ 0 ∷ 0 ∷ 0
    ∷ 0 ∷ 0 ∷ 0 ∷ 0 ∷ 0 ∷ 0 ∷ []

instance abbrev pub sample_crates : Crates
sample_crates = record {
  sha256 = λ m. (checksum 7 m / 256 % 256) ∷ (checksum 7 m % 256) ∷ zeros;
  hyphenated = decimal;
  uuid_bytes = λ u. (u / 256 % 256) ∷ (u % 256) ∷ [];
}

pub sample_laws : DigestLaws sample_crates
sample_laws = record { digest_length = λ m. refl; digest_bytes = λ m. ground arith }

abbrev pub sample_digest : Text
sample_digest = codes "sha256:aaaaaaaaaaaaaaaaaaaaaaaaaaaaaaaaaaaaaaaaaaaaaaaaaaaaaaaaaaaaaaaa"

abbrev pub sample_identity : DeviceIdentity
sample_identity = record { tenant = 1; device = 2; credential_generation = 1 }

abbrev pub fresh_state : StateV1
fresh_state =
    initial sample_identity
      (record { desired_generation = 1; fence_epoch = 1; credential_revision = 1 }) sample_digest
      (pos 5000)

abbrev pub sample_artifact : ResolvedArtifact
sample_artifact = record {
  credential_generation = 2;
  credential = record { ca = []; certificate = []; private_key = []; expires_at = pos 9000 };
  digest = sample_digest;
}

abbrev pub sample_command : DeviceCommand
sample_command = record {
  command_id = codes "c1";
  device_id = 2;
  artifact_id = codes "a1";
  artifact_digest = sample_digest;
  authorization_receipt_id = 3;
  deadline_epoch_seconds = 2000;
  desired_generation = 2;
  fence_epoch = 1;
  intent_digest = sample_digest;
  policy_hash = sample_digest;
}

abbrev pub sample_services : Services (Unit {0})
sample_services = record {
  persist = λ store state. (tt, ok tt);
  install_revision = λ store revision credential. (tt, ok tt);
  resolve = λ identity command now. ok sample_artifact;
}

abbrev pub sample_agent : StateV1 → Agent (Unit {0})
sample_agent s = record { store = tt; state = s; command_retention_seconds = 600 }
