-- ===== src/Scenarios/Disks.antt =====
-- The store of a device on a small disk: a restart after an accepted command, after failures and after
-- an interruption, and the installation of a credential revision.
use rss_incubator.Base.{
  ℕ, ℤ, pos, negsuc, ◌≡◌, refl, sym, ap, arith, ok, none, some, Option, List, [], ◌∷◌, Text, Bytes,
  nat_eq, list_eq, is_ok, Result, decimal,
}
use rss_incubator.Device.Types.{accepted, ApplyOutcome}
use rss_incubator.Device.Disk.{
  file, directory, Fault, works, fails, Disk, lookup, add, remove, remove_tree, strip, relocate,
  relocated, primitive, map_io, ◌>>=◌, read, create, create_dir, write_all, remove_file,
  remove_dir_all, rename, sync, exists,
}
use rss_incubator.Device.State.Stored.{
  StateV1, StoredIdentity, StoredCommand, StoredOutbound, StoredInboundSettlement,
}
use rss_incubator.Device.State.Initial.{initial}
use rss_incubator.Device.Agent.Store.{Services, Agent, AgentError}
use rss_incubator.Device.Agent.Cases.{IsAdmitted}
use rss_incubator.Device.Agent.Commands.{apply_command}
use rss_incubator.Device.Agent.History.{applies, connects, run}
use rss_incubator.Device.Agent.Intake.{apply_command_accepts}
use rss_incubator.Device.StateStore.{
  Json, state_path, store_persist, store_install_revision, persist_bytes, read_state, revision_name,
  staging_name, sync_directory, write_synced, ignore_missing, remove_stale_file,
  remove_stale_directory, stage_revision, clean_staging, install_staged, install_missing,
  credentials_root,
}
use rss_incubator.Device.StateStore.Recovery.{StoredAs, RoundTrips, restarted}
use rss_incubator.Device.Restart.{file_services, Restarts, restart_after_run, apply_command_durable}
use rss_incubator.Scenarios.Samples.{
  fresh_state, sample_crates, sample_laws, sample_identity, sample_command, sample_artifact,
}
use rss_incubator.Scenarios.States.{
  sample_topic, fresh-IsValid, sample-IsAdmitted, sample_room, sample_formed, accepted_sample,
}

-- An encoding of the states without a rotation.
abbrev encode_idle :
    List StoredCommand
    → List StoredOutbound
    → Option ℕ
    → Option StoredInboundSettlement
    → ℤ
    → StateV1
    → Option Bytes
encode_idle [] [] none none (pos n) s = some (
    s.schema_version ∷ s.identity.tenant_id ∷ s.identity.device_id
    ∷ s.identity.credential_generation ∷ s.current.desired_generation ∷ s.current.fence_epoch
    ∷ s.current.credential_revision ∷ s.device_sequence ∷ n ∷ s.current.artifact_digest)
encode_idle [] [] none none (negsuc n) s = none
encode_idle [] [] none (some p) e s = none
encode_idle [] [] (some r) p e s = none
encode_idle [] (o ∷ os) r p e s = none
encode_idle (c ∷ cs) o r p e s = none

abbrev decode_idle : Bytes → Option StateV1
decode_idle
      (version ∷ tenant ∷ device ∷ credential ∷ generation ∷ fence ∷ revision ∷ sequence ∷ expires
        ∷ digest) =
    some (record {
      schema_version = version;
      identity = record {
        tenant_id = tenant;
        device_id = device;
        credential_generation = credential;
      };
      current = record {
        desired_generation = generation;
        fence_epoch = fence;
        credential_revision = revision;
        artifact_digest = digest;
        expires_at = pos expires;
      };
      device_sequence = sequence;
      command_journal = [];
      outbox = [];
      reconnect_revision = none;
      pending_inbound = none;
    })
decode_idle short = none

abbrev idle_json : Json
idle_json = record {
  to_vec = λ s.
      encode_idle s.command_journal s.outbox s.reconnect_revision s.pending_inbound
        s.current.expires_at s;
  from_slice = decode_idle;
}

abbrev decoded : Option Bytes → Option StateV1
decoded none = none
decoded (some bytes) = decode_idle bytes

idle-RoundTrips :
    (version sequence generation fence revision : ℕ) (identity : StoredIdentity) (digest : Text)
    (e : ℤ) (c : List StoredCommand) (o : List StoredOutbound) (r : Option ℕ)
    (p : Option StoredInboundSettlement)
    → RoundTrips idle_json (record {
      schema_version = version;
      identity = identity;
      current = record {
        desired_generation = generation;
        fence_epoch = fence;
        credential_revision = revision;
        artifact_digest = digest;
        expires_at = e;
      };
      device_sequence = sequence;
      command_journal = c;
      outbox = o;
      reconnect_revision = r;
      pending_inbound = p;
    })
idle-RoundTrips version sequence generation fence revision identity digest (pos n) [] [] none none
      bytes h =
    ap decoded (sym h)
idle-RoundTrips version sequence generation fence revision identity digest (negsuc n) [] [] none
      none bytes h =
    cc
idle-RoundTrips version sequence generation fence revision identity digest e [] [] none (some p)
      bytes h =
    cc
idle-RoundTrips version sequence generation fence revision identity digest e [] [] (some r) p bytes
      h =
    cc
idle-RoundTrips version sequence generation fence revision identity digest e [] (o ∷ os) r p bytes
      h =
    cc
idle-RoundTrips version sequence generation fence revision identity digest e (c ∷ cs) o r p bytes
      h =
    cc

idle_json-RoundTrips : (s : StateV1) → RoundTrips idle_json s
idle_json-RoundTrips s =
    idle-RoundTrips s.schema_version s.device_sequence s.current.desired_generation
      s.current.fence_epoch s.current.credential_revision s.identity s.current.artifact_digest
      s.current.expires_at s.command_journal s.outbox s.reconnect_revision s.pending_inbound

-- The disk of a fresh device; the third operation of its next command fails after one byte.
abbrev fresh_bytes : Bytes
fresh_bytes = 1 ∷ 1 ∷ 2 ∷ 1 ∷ 1 ∷ 1 ∷ 1 ∷ 0 ∷ 5000 ∷ fresh_state.current.artifact_digest

abbrev fresh_disk : List Fault → Disk
fresh_disk faults = record {
  entries = (state_path, file fresh_bytes) ∷ (credentials_root, directory) ∷ [];
  faults = faults;
}

abbrev disk_agent : Disk → Agent Disk
disk_agent disk = record { store = disk; state = fresh_state; command_retention_seconds = 600 }

abbrev disk_services : Json → Services Disk
disk_services json = file_services json (λ identity c now. ok sample_artifact)

fresh_stored : StoredAs idle_json fresh_state (fresh_disk []).entries
unfolding lookup initial
fresh_stored = record { bytes = fresh_bytes; encoded = refl; written = refl }

restart_after_run_example :
    Restarts idle_json sample_identity
      (run
        (disk_services idle_json)
        (disk_agent (fresh_disk (works ∷ works ∷ fails 1 ∷ [])))
        (applies sample_topic sample_command 1000 ∷ connects 2 ∷ [])).store
unfolding initial
restart_after_run_example =
    restart_after_run idle_json sample_identity (λ identity c now. ok sample_artifact)
      idle_json-RoundTrips (disk_agent (fresh_disk (works ∷ works ∷ fails 1 ∷ [])))
      (applies sample_topic sample_command 1000 ∷ connects 2 ∷ []) fresh-IsValid (refl, refl)
      fresh_stored

-- An encoding of one state only: the accepted one.
abbrev one_json : Json
one_json = record { to_vec = λ s. some (7 ∷ []); from_slice = λ bytes. some accepted_sample }

abbrev one_disk : Disk
one_disk = record {
  entries = (state_path, file (7 ∷ [])) ∷ (credentials_root, directory) ∷ [];
  faults = [];
}

one_stored : StoredAs one_json fresh_state one_disk.entries
unfolding lookup
one_stored = record { bytes = 7 ∷ []; encoded = refl; written = refl }

disk-IsAdmitted :
    IsAdmitted
      (disk_services one_json)
      fresh_state
      sample_topic
      sample_command
      1000
      sample_identity
      sample_artifact
disk-IsAdmitted = record {
  unknown = sample-IsAdmitted.unknown;
  idle = sample-IsAdmitted.idle;
  identified = sample-IsAdmitted.identified;
  own_topic = sample-IsAdmitted.own_topic;
  own_device = sample-IsAdmitted.own_device;
  deadline = sample-IsAdmitted.deadline;
  available = refl;
  fence = sample-IsAdmitted.fence;
  generation = sample-IsAdmitted.generation;
  credential = sample-IsAdmitted.credential;
}

abbrev installed_disk : Disk
installed_disk = (store_install_revision 2 sample_artifact.credential one_disk).0

abbrev stored_disk : Disk
stored_disk = (store_persist one_json accepted_sample installed_disk).0

disk_installs :
    store_install_revision 2 sample_artifact.credential one_disk ≡ (installed_disk, ok tt)
unfolding store_install_revision install_missing install_staged clean_staging stage_revision
    remove_stale_directory ignore_missing write_synced sync_directory map_io ◌>>=◌ primitive read
    create create_dir write_all remove_dir_all rename sync exists lookup add remove remove_tree
    strip relocate relocated revision_name staging_name decimal
disk_installs = refl

disk_persists : store_persist one_json accepted_sample installed_disk ≡ (stored_disk, ok tt)
unfolding store_persist persist_bytes remove_stale_file store_install_revision install_missing
    install_staged clean_staging stage_revision remove_stale_directory ignore_missing write_synced
    sync_directory map_io ◌>>=◌ primitive read create create_dir write_all remove_dir_all
    remove_file rename sync exists lookup add remove remove_tree strip relocate relocated
    revision_name staging_name decimal
disk_persists = refl

disk_accepts :
    apply_command (disk_services one_json) (disk_agent one_disk) sample_topic sample_command 1000
    ≡ (
      record { store = stored_disk; state = accepted_sample; command_retention_seconds = 600 },
      ok accepted,
    )
unfolding initial
disk_accepts =
    apply_command_accepts sample_laws (disk_services one_json) (disk_agent one_disk) sample_topic
      sample_command 1000 sample_identity sample_artifact fresh-IsValid disk-IsAdmitted sample_room
      sample_formed (omega arith) (omega arith) installed_disk stored_disk disk_installs
      disk_persists

disk_round_trip :
    RoundTrips one_json
      (apply_command
        (disk_services one_json)
        (disk_agent one_disk)
        sample_topic
        sample_command
        1000).0.state
disk_round_trip bytes e =
    ap (λ (r : Agent Disk × Result AgentError ApplyOutcome). some r.0.state) (sym disk_accepts)

apply_command_durable_example :
    (read_state one_json sample_identity (
      restarted
        (apply_command
          (disk_services one_json)
          (disk_agent one_disk)
          sample_topic
          sample_command
          1000).0.store)).1
    ≡ ok
        (apply_command
          (disk_services one_json)
          (disk_agent one_disk)
          sample_topic
          sample_command
          1000).0.state
unfolding initial
apply_command_durable_example =
    apply_command_durable one_json sample_identity (λ identity c now. ok sample_artifact)
      (disk_agent one_disk) sample_topic sample_command 1000 fresh-IsValid (refl, refl) one_stored
      disk_round_trip
      (ap (λ (r : Agent Disk × Result AgentError ApplyOutcome). is_ok r.1) disk_accepts)
