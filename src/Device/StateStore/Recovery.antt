-- ===== src/Device/StateStore/Recovery.antt =====
-- What a restart finds in the state file, after `persist` with whatever failures.
use rss_incubator.Base.{
  ◌≡◌, refl, ap, true, false, Option, none, some, List, [], Bytes, arith, nat_eq, list_eq, ok,
}
use rss_incubator.Crates.{Crates}
use rss_incubator.Device.Types.{DeviceIdentity}
use rss_incubator.Device.Disk.{
  Node, file, directory, Entry, Disk, ◌>>=◌, ◌>>◌, map_io, lookup, add, remove, create, write_all,
  remove_file, rename, sync, read, primitive, acted, removed_file,
}
use rss_incubator.Device.Disk.Lookup.{lookup-add, lookup-remove}
use rss_incubator.Device.State.Stored.{StateV1}
use rss_incubator.Device.State.Verify.{verify, validate, coordinates_valid}
use rss_incubator.Device.State.Validity.{IsValid, validate_complete, current_identity_lem}
use rss_incubator.Device.StateStore.{
  Json, state_path, temporary_path, is_unavailable, sync_directory, write_synced, ignore_missing,
  remove_stale_file, persist_bytes, decode_state, read_state,
}
use rss_incubator.Device.StateStore.Persisting.{At}

-- A path where no directory stands.
abbrev pub IsFileOrNone : Option Node → Type 0
IsFileOrNone none = Unit
IsFileOrNone (some (file bytes)) = Unit
IsFileOrNone (some directory) = true ≡ false

fresh_succeeds :
    (bytes : Bytes) (es : List Entry)
    → IsFileOrNone (lookup es state_path)
    → lookup es temporary_path ≡ none
    → ((do
      write_synced temporary_path bytes
      is_unavailable (rename temporary_path state_path)
      sync_directory)
        (record { entries = es; faults = [] })).1
      ≡ ok tt
unfolding primitive write_synced create write_all sync sync_directory rename map_io ◌>>=◌
fresh_succeeds bytes es s t = ground (
  arith,
  lookup-add temporary_path (file bytes) (add temporary_path (file []) es) temporary_path,
  lookup-add temporary_path (file bytes) (add temporary_path (file []) es) state_path,
  lookup-add temporary_path (file []) es state_path,
)

stale_removed :
    (o : Option Node) (es : List Entry)
    → lookup es temporary_path ≡ o
    → remove_stale_file temporary_path (record { entries = es; faults = [] })
      ≡ ignore_missing (acted [] (removed_file temporary_path o es))
unfolding remove_stale_file remove_file primitive
stale_removed o es e = ap (λ n. ignore_missing (acted [] (removed_file temporary_path n es))) e

-- With nothing that fails, and no directory in the way, persist succeeds whatever an interrupted
-- one has left in the temporary file.
pub persist_bytes_succeeds :
    (bytes : Bytes) (es : List Entry)
    → IsFileOrNone (lookup es state_path)
    → IsFileOrNone (lookup es temporary_path)
    → (persist_bytes bytes (record { entries = es; faults = [] })).1 ≡ ok tt
unfolding persist_bytes ignore_missing primitive sync sync_directory map_io ◌>>=◌
persist_bytes_succeeds bytes es s t = by_temporary (lookup es temporary_path) refl t
  where
    by_temporary :
        (o : Option Node)
        → lookup es temporary_path ≡ o
        → IsFileOrNone o
        → (persist_bytes bytes (record { entries = es; faults = [] })).1 ≡ ok tt
    by_temporary none e h = rw (stale_removed none es e) (fresh_succeeds bytes es s e)
    by_temporary (some (file old)) e h = rw (stale_removed (some (file old)) es e) (
        fresh_succeeds bytes (remove temporary_path es) (rw lookup-remove s)
          (rw lookup-remove refl))
    by_temporary (some directory) e h = cc

-- The state file holds a state, and a disk on which nothing fails any more.
pub record StoredAs (json : Json) (state : StateV1) (es : List Entry) : Type 0 where
  pub bytes : Bytes
  pub encoded : json.to_vec state ≡ some bytes
  pub written : At state_path (some (file bytes)) es

abbrev pub restarted : Disk → Disk
restarted disk = record disk { faults = [] }

-- `serde_json` reads a state back that it wrote.
abbrev pub RoundTrips : Json → StateV1 → Type 0
RoundTrips json state =
    (bytes : Bytes) → json.to_vec state ≡ some bytes → json.from_slice bytes ≡ some state

abbrev pub InScope : DeviceIdentity → StateV1 → Type 0
InScope identity s =
    (s.identity.tenant_id ≡ identity.tenant) × (s.identity.device_id ≡ identity.device)

module _ ⦃crates : Crates⦄ (json : Json) (identity : DeviceIdentity) where
  verify-InScope : (s : StateV1) → IsValid s → InScope identity s → verify s identity ≡ ok tt
  unfolding validate verify coordinates_valid
  verify-InScope s v scope =
      ground (arith, scope.0, scope.1, validate_complete s v, current_identity_lem s v)

  pub read_stored :
      (s : StateV1) (disk : Disk)
      → IsValid s
      → InScope identity s
      → RoundTrips json s
      → StoredAs json s disk.entries
      → (read_state json identity (restarted disk)).1 ≡ ok s
  unfolding read_state read primitive map_io ◌>>=◌ decode_state
  read_stored s disk v scope trips h =
      ground (arith, h.written, trips h.bytes h.encoded, verify-InScope s v scope)
