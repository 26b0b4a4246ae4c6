-- ===== src/Device/Restart.antt =====
-- The agent of agent.rs over the file store of state.rs: what a restart finds after any calls with
-- any failures of the file system.
use rss_incubator.Base.{
  ℕ, ◌≡◌, refl, ◌∙◌, inl, inr, true, Option, List, Text, Result, ok, err, is_ok,
}
use rss_incubator.Crates.{Crates}
use rss_incubator.Device.Types.{DeviceIdentity, DeviceCommand}
use rss_incubator.Device.Artifact.{ResolvedArtifact, ValidatedCredential, CatalogError}
use rss_incubator.Device.Disk.{Node, Disk, lookup, strip}
use rss_incubator.Device.State.Stored.{StateV1, StoreError}
use rss_incubator.Device.State.Validity.{IsValid}
use rss_incubator.Device.Agent.Store.{Services, Agent}
use rss_incubator.Device.Agent.Commands.{apply_command}
use rss_incubator.Device.Agent.Atomicity.{apply_command-Atomic}
use rss_incubator.Device.Agent.History.{Call, run, settled-IsValid}
use rss_incubator.Device.Agent.Durability.{
  BelongsTo, apply_command_written, apply_command-Sound, run-Sound,
}
use rss_incubator.Device.StateStore.{
  Json, state_path, store_persist, store_install_revision, read_state, staging_root, revision_root,
}
use rss_incubator.Device.StateStore.Persisting.{PersistedAs, store_persist-PersistedAs}
use rss_incubator.Device.StateStore.Recovery.{StoredAs, RoundTrips, restarted, read_stored}
use rss_incubator.Device.StateStore.Untouched.{Beside, store_install_revision_aside}

-- `StateStore` as the store of the agent.
abbrev pub file_services :
    Json
    → (DeviceIdentity → DeviceCommand → ℕ → Result CatalogError ResolvedArtifact)
    → Services Disk
file_services json resolve = record {
  persist = λ disk state. store_persist json state disk;
  install_revision = λ disk revision credential. store_install_revision revision credential disk;
  resolve = resolve;
}

module _ ⦃crates : Crates⦄ (json : Json) (tenant device : ℕ) where
  -- The state file holds a valid state of the device.
  pub record HoldsState (disk : Disk) : Type 0 where
    pub state : StateV1
    pub valid : IsValid state
    pub owned : BelongsTo tenant device state
    pub stored : StoredAs json state disk.entries

  persisted-HoldsState :
      (disk : Disk) (s : StateV1) (r : Disk × Result StoreError (Unit {0}))
      → IsValid s
      → BelongsTo tenant device s
      → HoldsState disk
      → PersistedAs json s (lookup disk.entries state_path) r
      → HoldsState r.0
  persisted-HoldsState disk s (after, ok persisted) v b h (bytes, e, p) = record {
    state = s;
    valid = v;
    owned = b;
    stored = record { bytes = bytes; encoded = e; written = p };
  }
  persisted-HoldsState disk s (after, err x) v b h (inl kept) = record {
    state = h.state;
    valid = h.valid;
    owned = h.owned;
    stored = record {
      bytes = h.stored.bytes;
      encoded = h.stored.encoded;
      written = kept ∙ h.stored.written;
    };
  }
  persisted-HoldsState disk s (after, err x) v b h (inr (bytes, e, p)) = record {
    state = s;
    valid = v;
    owned = b;
    stored = record { bytes = bytes; encoded = e; written = p };
  }

  persist-StoredAs :
      (disk : Disk) (s : StateV1) (old : Option Node) (r : Disk × Result StoreError (Unit {0}))
      → PersistedAs json s old r
      → is_ok r.1 ≡ true
      → StoredAs json s r.0.entries
  persist-StoredAs disk s old (after, ok persisted) (bytes, e, p) h = record {
    bytes = bytes;
    encoded = e;
    written = p;
  }
  persist-StoredAs disk s old (after, err x) p h = cc

  persists-HoldsState :
      (disk : Disk) (s : StateV1)
      → IsValid s
      → BelongsTo tenant device s
      → HoldsState disk
      → HoldsState (store_persist json s disk).0
  persists-HoldsState disk s v b h =
      persisted-HoldsState disk s (store_persist json s disk) v b h
        (store_persist-PersistedAs json s disk)

  written-StoredAs :
      (disk : Disk) (s : StateV1)
      → is_ok (store_persist json s disk).1 ≡ true
      → StoredAs json s (store_persist json s disk).0.entries
  written-StoredAs disk s =
      persist-StoredAs disk s (lookup disk.entries state_path) (store_persist json s disk)
        (store_persist-PersistedAs json s disk)

  state_beside_staging : (revision : ℕ) → Beside (staging_root revision) state_path
  unfolding strip
  state_beside_staging revision = refl

  state_beside_revision : (revision : ℕ) → Beside (revision_root revision) state_path
  unfolding strip
  state_beside_revision revision = refl

  installed-HoldsState :
      (disk : Disk) (revision : ℕ) (credential : ValidatedCredential)
      → HoldsState disk
      → HoldsState (store_install_revision revision credential disk).0
  installed-HoldsState disk revision credential h = record {
    state = h.state;
    valid = h.valid;
    owned = h.owned;
    stored = record {
      bytes = h.stored.bytes;
      encoded = h.stored.encoded;
      written =
          store_install_revision_aside revision credential disk state_path
            (state_beside_staging revision) (state_beside_revision revision)
          ∙ h.stored.written;
    };
  }

  module _
      (resolve : DeviceIdentity → DeviceCommand → ℕ → Result CatalogError ResolvedArtifact) where
    run-HoldsState :
        (agent : Agent Disk) (cs : List Call)
        → BelongsTo tenant device agent.state
        → HoldsState agent.store
        → HoldsState (run (file_services json resolve) agent cs).store
    run-HoldsState agent cs b h =
        (run-Sound (file_services json resolve) tenant device HoldsState persists-HoldsState
          (λ disk s. StoredAs json s disk.entries) written-StoredAs installed-HoldsState agent cs
          (b, h)).1

    apply_command_belongs :
        (agent : Agent Disk) (topic : Text) (command : DeviceCommand) (now : ℕ)
        → BelongsTo tenant device agent.state
        → HoldsState agent.store
        → BelongsTo tenant device
            (apply_command (file_services json resolve) agent topic command now).0.state
    apply_command_belongs agent topic command now b h =
        (apply_command-Sound (file_services json resolve) tenant device HoldsState
          persists-HoldsState (λ disk s. StoredAs json s disk.entries) written-StoredAs
          installed-HoldsState agent topic command now (b, h)).0

    apply_command_stored :
        (agent : Agent Disk) (topic : Text) (command : DeviceCommand) (now : ℕ)
        → BelongsTo tenant device agent.state
        → HoldsState agent.store
        → StoredAs json agent.state agent.store.entries
        → is_ok (apply_command (file_services json resolve) agent topic command now).1 ≡ true
        → StoredAs json
            (apply_command (file_services json resolve) agent topic command now).0.state
            (apply_command (file_services json resolve) agent topic command now).0.store.entries
    apply_command_stored agent topic command now b h =
        apply_command_written (file_services json resolve) tenant device HoldsState
          persists-HoldsState (λ disk s. StoredAs json s disk.entries) written-StoredAs
          installed-HoldsState agent topic command now (b, h)

-- What a restart reads is a valid state of the device.
pub record Restarts ⦃crates : Crates⦄ (json : Json) (identity : DeviceIdentity) (disk : Disk)
    : Type 0 where
  pub state : StateV1
  pub valid : IsValid state
  pub owned : BelongsTo identity.tenant identity.device state
  pub read : (read_state json identity (restarted disk)).1 ≡ ok state

module _ ⦃crates : Crates⦄ (json : Json) (identity : DeviceIdentity)
    (resolve : DeviceIdentity → DeviceCommand → ℕ → Result CatalogError ResolvedArtifact) where
  restarts :
      (trips : (s : StateV1) → RoundTrips json s) (disk : Disk)
      → HoldsState json identity.tenant identity.device disk
      → Restarts json identity disk
  restarts trips disk h = record {
    state = h.state;
    valid = h.valid;
    owned = h.owned;
    read = read_stored json identity h.state disk h.valid h.owned (trips h.state) h.stored;
  }

  holds :
      (agent : Agent Disk)
      → IsValid agent.state
      → BelongsTo identity.tenant identity.device agent.state
      → StoredAs json agent.state agent.store.entries
      → HoldsState json identity.tenant identity.device agent.store
  holds agent v b h = record { state = agent.state; valid = v; owned = b; stored = h }

  -- Where the state file holds the state of the agent, which is valid and of the configured
  -- device, then after any sequence of calls, whatever operations of the file system fail on the
  -- way and wherever an interruption falls, a restart reads a valid state of that device, when
  -- each state that is encoded is decoded again.
  pub restart_after_run :
      (trips : (s : StateV1) → RoundTrips json s) (agent : Agent Disk) (cs : List Call)
      → IsValid agent.state
      → BelongsTo identity.tenant identity.device agent.state
      → StoredAs json agent.state agent.store.entries
      → Restarts json identity (run (file_services json resolve) agent cs).store
  restart_after_run trips agent cs v b h =
      restarts trips (run (file_services json resolve) agent cs).store
        (run-HoldsState json identity.tenant identity.device resolve agent cs b (holds agent v b h))

  -- When apply_command answers with an outcome, a restart reads the state that the agent then
  -- holds, where the state file held the valid state of the agent before and the state is
  -- decoded as it was encoded.
  pub apply_command_durable :
      (agent : Agent Disk) (topic : Text) (command : DeviceCommand) (now : ℕ)
      → IsValid agent.state
      → BelongsTo identity.tenant identity.device agent.state
      → StoredAs json agent.state agent.store.entries
      → RoundTrips json (apply_command (file_services json resolve) agent topic command now).0.state
      → is_ok (apply_command (file_services json resolve) agent topic command now).1 ≡ true
      → (read_state json identity (
          restarted (apply_command (file_services json resolve) agent topic command now).0.store)).1
        ≡ ok (apply_command (file_services json resolve) agent topic command now).0.state
  apply_command_durable agent topic command now v b h trip e =
      let r = apply_command (file_services json resolve) agent topic command now in
      read_stored json identity r.0.state r.0.store
        (settled-IsValid (file_services json resolve) agent.state r v
          (apply_command-Atomic (file_services json resolve) agent topic command now))
        (apply_command_belongs json identity.tenant identity.device resolve agent topic command now
          b (holds agent v b h))
        trip
        (apply_command_stored json identity.tenant identity.device resolve agent topic command now b
          (holds agent v b h) h e)
