-- ===== src/Device/Agent/Store.antt =====
-- The agent of agent.rs over its durable store. What the agent asks of the store and of the artifact
-- catalog is an interface: an operation on the store returns the store also when it fails.
use rss_incubator.Base.{ℕ, Result, ok, err}
use rss_incubator.Crates.{Crates}
use rss_incubator.Device.Types.{DeviceIdentity, DeviceCommand}
use rss_incubator.Device.State.Stored.{StateV1, StoreError}
use rss_incubator.Device.State.Verify.{validate}
use rss_incubator.Device.Artifact.{
  ValidatedCredential, CredentialError, CatalogError, ResolvedArtifact,
}

-- `StateStore::persist`, `StateStore::install_revision` and `ArtifactCatalog::resolve`.
pub record Services (Store : Type 0) : Type 0 where
  pub persist : Store → StateV1 → Store × Result StoreError (Unit {0})
  pub install_revision : Store → ℕ → ValidatedCredential → Store × Result StoreError (Unit {0})
  pub resolve : DeviceIdentity → DeviceCommand → ℕ → Result CatalogError ResolvedArtifact

-- `ReferenceDeviceAgent`; the catalog is reached through the services.
pub record Agent (Store : Type 0) : Type 0 where
  pub store : Store
  pub state : StateV1
  pub command_retention_seconds : ℕ

pub data AgentError : Type 0 where
  store_error : StoreError → AgentError
  credential_error : CredentialError → AgentError
  initial_artifact_unavailable unknown_outbound unexpected_reconnect : AgentError
  unexpected_delivery rotation_in_flight_error : AgentError

-- `self.persist_candidate(candidate)?; Ok(outcome)`.
abbrev pub with_outcome {ℓ} :
    {Store : Type 0} {A : Type ℓ}
    → Agent Store × Result AgentError (Unit {0})
    → A
    → Agent Store × Result AgentError A
with_outcome (agent, ok done) outcome = (agent, ok outcome)
with_outcome (agent, err e) outcome = (agent, err e)

module _ ⦃crates : Crates⦄ {Store : Type 0} (services : Services Store) where
  -- What follows `store.persist(&candidate)`.
  unfoldable pub persisted :
      Agent Store
      → StateV1
      → Store × Result StoreError (Unit {0})
      → Agent Store × Result AgentError (Unit {0})
  persisted agent candidate (store, ok done) =
      (record agent { store = store; state = candidate }, ok tt)
  persisted agent candidate (store, err e) = (record agent { store = store }, err (store_error e))

  unfoldable pub persist_candidate :
      Agent Store → StateV1 → Agent Store × Result AgentError (Unit {0})
  unfolding persisted
  persist_candidate agent candidate = elim (validate candidate) [
    | err e ↦ (agent, err (store_error e))
    | ok valid ↦ persisted agent candidate (services.persist agent.store candidate)
  ]

  -- A candidate that is computed by fallible steps, persisted, and answered.
  unfoldable pub persist_outcome {ℓ} :
      {A : Type ℓ} → Agent Store → Result StoreError StateV1 → A → Agent Store × Result AgentError A
  unfolding persist_candidate
  persist_outcome agent (ok candidate) outcome =
      with_outcome (persist_candidate agent candidate) outcome
  persist_outcome agent (err e) outcome = (agent, err (store_error e))
