-- ===== src/Device/Artifact.antt =====
-- The values of catalog.rs and material.rs that the agent handles, and its mapping of a failed
-- resolution to a rejection (`catalog_rejection` of agent.rs).
use rss_incubator.Base.{ℕ, Text, Bytes, ℤ}
use rss_incubator.Device.Types.{
  CommandRejection, artifact_unavailable, artifact_digest_mismatch, policy_rejected,
  malformed_command, device_failure,
}

pub record ValidatedCredential : Type 0 where
  pub ca : Bytes
  pub certificate : Bytes
  pub private_key : Bytes
  pub expires_at : ℤ

pub data CredentialError : Type 0 where
  unavailable malformed untrusted insecure_private_key identity_mismatch : CredentialError

pub data CatalogError : Type 0 where
  unavailable malformed not_found binding_mismatch digest_mismatch revoked : CatalogError
  credential : CredentialError → CatalogError

pub record ResolvedArtifact : Type 0 where
  pub credential_generation : ℕ
  pub credential : ValidatedCredential
  pub digest : Text

unfoldable pub catalog_rejection : CatalogError → CommandRejection
catalog_rejection CatalogError.not_found = artifact_unavailable
catalog_rejection CatalogError.unavailable = artifact_unavailable
catalog_rejection CatalogError.digest_mismatch = artifact_digest_mismatch
catalog_rejection CatalogError.binding_mismatch = policy_rejected
catalog_rejection CatalogError.revoked = policy_rejected
catalog_rejection (CatalogError.credential CredentialError.untrusted) = policy_rejected
catalog_rejection (CatalogError.credential CredentialError.identity_mismatch) = policy_rejected
catalog_rejection CatalogError.malformed = malformed_command
catalog_rejection (CatalogError.credential CredentialError.unavailable) = device_failure
catalog_rejection (CatalogError.credential CredentialError.malformed) = device_failure
catalog_rejection (CatalogError.credential CredentialError.insecure_private_key) = device_failure
