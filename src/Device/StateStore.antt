-- ===== src/Device/StateStore.antt =====
-- `StateStore` of crates/reference-device-agent-core/src/state.rs: the durable state file and the
-- installed credential revisions, below the state directory.
pub mod Rules
pub mod Persisting
pub mod Recovery
pub mod Installing
pub mod Installed
pub mod Revisions
pub mod Untouched
use rss_incubator.Base.{
  ℕ, Bool, true, false, not, ◌&&◌, Option, none, some, is_some, List, [], ◌∷◌, ◌++◌, Text, Bytes,
  ◌==◌, nat_eq, list_eq, any, codes, starts_with, decimal, Result, ok, err, if◌then◌else◌,
}
use rss_incubator.Crates.{Crates}
use rss_incubator.Device.Types.{DeviceIdentity}
use rss_incubator.Device.Artifact.{ValidatedCredential}
use rss_incubator.Device.Disk.{
  FilePath, Node, file, directory, Entry, IoError, missing, other, Disk, Io, ◌>>=◌, ◌>>◌, done,
  failed, map_io, lookup, add, primitive, unharmed, read, create, create_dir, create_dir_all,
  write_all, remove_file, remove_dir_all, rename, sync, exists,
}
use rss_incubator.Device.State.Stored.{
  StateV1, StoreError, unavailable, invalid_state, revision_conflict, already_open,
}
use rss_incubator.Device.State.Verify.{verify}
use rss_incubator.Device.State.Initial.{initial}
use rss_incubator.Rotation.Observations.{InstalledCredentialPosition}

-- `serde_json` on the state.
pub record Json : Type 0 where
  pub to_vec : StateV1 → Option Bytes
  pub from_slice : Bytes → Option StateV1

abbrev pub state_path : FilePath
state_path = codes "state.v1.json" ∷ []

abbrev pub temporary_path : FilePath
temporary_path = codes "state.v1.json.tmp" ∷ []

abbrev pub credentials_root : FilePath
credentials_root = codes "credentials" ∷ []

unfoldable pub revision_name : ℕ → Text
revision_name revision = codes "revision-" ++ decimal revision

unfoldable pub staging_name : ℕ → Text
staging_name revision = codes ".revision-" ++ (decimal revision ++ codes ".staging")

abbrev pub revision_root : ℕ → FilePath
revision_root revision = codes "credentials" ∷ revision_name revision ∷ []

abbrev pub staging_root : ℕ → FilePath
staging_root revision = codes "credentials" ∷ staging_name revision ∷ []

abbrev pub within : FilePath → Text → FilePath
within root name = root ++ name ∷ []

abbrev pub is_unavailable : {A : Type 0} → Io IoError A → Io StoreError A
is_unavailable m = map_io (λ e. unavailable) m

-- `sync_directory`.
unfoldable pub sync_directory : Io StoreError (Unit {0})
sync_directory = is_unavailable sync

unfoldable pub write_synced : FilePath → Bytes → Io StoreError (Unit {0})
write_synced path bytes = do
  is_unavailable (create path)
  is_unavailable (write_all path bytes)
  is_unavailable sync

-- What follows the removal of something that may be absent.
unfoldable pub ignore_missing :
    Disk × Result IoError (Unit {0}) → Disk × Result StoreError (Unit {0})
ignore_missing (disk, ok removed) = sync_directory disk
ignore_missing (disk, err missing) = (disk, ok tt)
ignore_missing (disk, err other) = (disk, err unavailable)

unfoldable pub remove_stale_file : FilePath → Io StoreError (Unit {0})
unfolding ignore_missing
remove_stale_file path disk = ignore_missing (remove_file path disk)

unfoldable pub remove_stale_directory : FilePath → Io StoreError (Unit {0})
unfolding ignore_missing
remove_stale_directory path disk = ignore_missing (remove_dir_all path disk)

unfoldable pub persist_bytes : Bytes → Io StoreError (Unit {0})
persist_bytes bytes = do
  remove_stale_file temporary_path
  write_synced temporary_path bytes
  is_unavailable (rename temporary_path state_path)
  sync_directory

unfoldable pub store_persist : Json → StateV1 → Io StoreError (Unit {0})
store_persist json state = elim (json.to_vec state) [
  | none ↦ failed invalid_state
  | some bytes ↦ persist_bytes bytes
]

-- `fs::read(path).ok().as_deref() == Some(bytes)`: a failed read is no match.
abbrev pub matched : Bytes → Disk × Result IoError Bytes → Disk × Bool
matched bytes (disk, ok found) = (disk, found == bytes)
matched bytes (disk, err e) = (disk, false)

abbrev pub and_then : Disk × Bool → (Disk → Disk × Bool) → Disk × Bool
and_then (disk, true) next = next disk
and_then (disk, false) next = (disk, false)

unfoldable pub file_matches : FilePath → Bytes → Disk → Disk × Bool
file_matches path bytes disk = matched bytes (read path disk)

abbrev pub agreed : Disk × Bool → Disk × Result StoreError (Unit {0})
agreed (disk, true) = (disk, ok tt)
agreed (disk, false) = (disk, err revision_conflict)

unfoldable pub verify_existing_revision : FilePath → ValidatedCredential → Io StoreError (Unit {0})
unfolding file_matches
verify_existing_revision root credential disk = agreed (
    and_then
      (and_then (file_matches (within root (codes "ca.pem")) credential.ca disk)
        (file_matches (within root (codes "certificate.pem")) credential.certificate))
      (file_matches (within root (codes "private-key.pem")) credential.private_key))

-- The closure of `install_revision`, up to the rename.
unfoldable pub stage_revision : ℕ → ValidatedCredential → Io StoreError (Unit {0})
stage_revision revision credential = do
  write_synced (within (staging_root revision) (codes "ca.pem")) credential.ca
  write_synced (within (staging_root revision) (codes "certificate.pem")) credential.certificate
  write_synced (within (staging_root revision) (codes "private-key.pem")) credential.private_key
  sync_directory
  is_unavailable (rename (staging_root revision) (revision_root revision))
  sync_directory

-- `let _ = fs::remove_dir_all(&staging)`, when it is there, after a failure.
unfoldable pub clean_existing : ℕ → StoreError → Disk × Bool → Disk × Result StoreError (Unit {0})
clean_existing revision e (disk, true) = ((remove_dir_all (staging_root revision) disk).0, err e)
clean_existing revision e (disk, false) = (disk, err e)

unfoldable pub clean_staging :
    ℕ → Disk × Result StoreError (Unit {0}) → Disk × Result StoreError (Unit {0})
unfolding clean_existing
clean_staging revision (disk, ok staged) = (disk, ok staged)
clean_staging revision (disk, err e) =
    clean_existing revision e (exists (staging_root revision) disk)

unfoldable pub install_staged : ℕ → ValidatedCredential → Io StoreError (Unit {0})
unfolding clean_staging
install_staged revision credential disk =
    clean_staging revision (stage_revision revision credential disk)

-- What follows the test for the revision's directory.
unfoldable pub install_missing :
    ℕ → ValidatedCredential → Disk × Bool → Disk × Result StoreError (Unit {0})
install_missing revision credential (disk, true) =
    verify_existing_revision (revision_root revision) credential disk
install_missing revision credential (disk, false) =
    (do
      remove_stale_directory (staging_root revision)
      is_unavailable (create_dir (staging_root revision))
      install_staged revision credential)
      disk

unfoldable pub store_install_revision : ℕ → ValidatedCredential → Io StoreError (Unit {0})
unfolding install_missing
store_install_revision revision credential disk =
    install_missing revision credential (exists (revision_root revision) disk)

-- `has_committed_revision`: what `read_dir` lists below the credentials.
unfoldable pub is_revision_entry : FilePath → Bool
is_revision_entry [] = false
is_revision_entry (root ∷ []) = false
is_revision_entry (root ∷ name ∷ []) =
    root == codes "credentials" && starts_with name (codes "revision-")
is_revision_entry (root ∷ name ∷ inner ∷ rest) = false

abbrev listing : List Entry → List Entry × Result IoError Bool
listing es = (
  es,
  elim (lookup es credentials_root) [
    | none ↦ err missing
    | some (file bytes) ↦ err other
    | some directory ↦ ok (any (λ (e : Entry). is_revision_entry e.0) es)
  ],
)

abbrev listed : Disk × Result IoError Bool → Disk × Result StoreError Bool
listed (disk, ok found) = (disk, ok found)
listed (disk, err missing) = (disk, ok false)
listed (disk, err other) = (disk, err unavailable)

unfoldable pub has_committed_revision : Io StoreError Bool
has_committed_revision disk = listed (primitive listing unharmed disk)

abbrev pub lock_path : FilePath
lock_path = codes "state.owner.lock" ∷ []

-- `OpenOptions` with `create`: the file is created when it is missing.
abbrev open_lock_act : List Entry → List Entry × Result IoError (Unit {0})
open_lock_act es = elim (lookup es lock_path) [
  | none ↦ (add lock_path (file []) es, ok tt)
  | some (file bytes) ↦ (es, ok tt)
  | some directory ↦ (es, err other)
]

-- `flock`: whether another process holds the lock is given.
unfoldable pub flock : Bool → Io StoreError (Unit {0})
flock held = if held then failed already_open else is_unavailable sync

-- `StateStore::open`.
unfoldable pub store_open : Bool → Io StoreError (Unit {0})
store_open held = do
  is_unavailable (create_dir_all [])
  is_unavailable (primitive open_lock_act unharmed)
  flock held

-- `serde_json::from_slice`, then `verify`.
unfoldable pub decode_state :
    ⦃crates : Crates⦄ → Json → DeviceIdentity → Bytes → Io StoreError StateV1
decode_state json identity bytes = elim (json.from_slice bytes) [
  | none ↦ failed invalid_state
  | some state ↦ elim (verify state identity) [ err e ↦ failed e | ok valid ↦ done state ]
]

unfoldable pub read_state : ⦃crates : Crates⦄ → Json → DeviceIdentity → Io StoreError StateV1
read_state json identity = is_unavailable (read state_path) >>= decode_state json identity

unfoldable pub load : ⦃crates : Crates⦄ → Json → Bool → DeviceIdentity → Io StoreError StateV1
load json held identity = do store_open held; read_state json identity

-- The state of a directory that holds none.
unfoldable pub initialize :
    Json
    → DeviceIdentity
    → InstalledCredentialPosition
    → ValidatedCredential
    → Text
    → Bool
    → Io StoreError StateV1
initialize json identity position credential digest committed =
    if committed then failed invalid_state else (do
      store_install_revision position.credential_revision credential
      store_persist json (initial identity position digest credential.expires_at)
      done (initial identity position digest credential.expires_at))

unfoldable pub initialize_missing :
    ⦃crates : Crates⦄
    → Json
    → DeviceIdentity
    → InstalledCredentialPosition
    → ValidatedCredential
    → Text
    → Disk × Bool
    → Disk × Result StoreError StateV1
initialize_missing json identity position credential digest (disk, true) =
    read_state json identity disk
initialize_missing json identity position credential digest (disk, false) =
    (has_committed_revision >>= initialize json identity position credential digest) disk

unfoldable pub open_or_initialize :
    ⦃crates : Crates⦄
    → Json
    → Bool
    → DeviceIdentity
    → InstalledCredentialPosition
    → ValidatedCredential
    → Text
    → Io StoreError StateV1
unfolding initialize_missing
open_or_initialize json held identity position credential digest = do
  store_open held
  is_unavailable (create_dir_all credentials_root)
  (λ disk. initialize_missing json identity position credential digest (exists state_path disk))
