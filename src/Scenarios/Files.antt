-- ===== src/Scenarios/Files.antt =====
-- Single operations of the store on a small disk, with failures.
use rss_incubator.Base.{◌≡◌, refl, pos, ok, some, List, [], ◌∷◌, nat_eq, list_eq, decimal}
use rss_incubator.Device.Artifact.{ValidatedCredential}
use rss_incubator.Device.Disk.{
  Entry, file, directory, Fault, works, fails, Disk, lookup, add, remove, remove_tree, strip,
  relocate, relocated, primitive, map_io, ◌>>=◌, read, create, create_dir, write_all,
  remove_dir_all, rename, sync, exists,
}
use rss_incubator.Device.StateStore.Installed.{Holds}
use rss_incubator.Device.StateStore.{
  Json, state_path, temporary_path, store_persist, store_install_revision, persist_bytes,
  revision_root, revision_name, staging_name, credentials_root, sync_directory, write_synced,
  ignore_missing, remove_stale_directory, stage_revision, clean_staging, install_staged,
  install_missing,
}
use rss_incubator.Device.StateStore.Persisting.{
  PersistedAs, store_persist-PersistedAs, store_persist_aside,
}
use rss_incubator.Device.StateStore.Recovery.{persist_bytes_succeeds}
use rss_incubator.Device.StateStore.Revisions.{store_install_revision-InstalledAs}
use rss_incubator.Device.StateStore.Untouched.{
  store_install_revision_aside, store_install_revision_committed,
}
use rss_incubator.Scenarios.Samples.{fresh_state, sample_artifact}

abbrev small_json : Json
small_json = record { to_vec = λ s. some (7 ∷ 8 ∷ []); from_slice = λ bytes. some fresh_state }

-- A state file, what an interrupted write has left, and an installed revision.
abbrev small_entries : List Entry
small_entries =
    (state_path, file (1 ∷ []))
    ∷ (temporary_path, file (7 ∷ []))
    ∷ (credentials_root, directory)
    ∷ (revision_root 2, directory)
    ∷ []

abbrev small_disk : List Fault → Disk
small_disk faults = record { entries = small_entries; faults = faults }

store_persist-PersistedAs_example :
    PersistedAs small_json fresh_state
      (lookup small_entries state_path)
      (store_persist small_json fresh_state (small_disk (works ∷ works ∷ works ∷ fails 1 ∷ [])))
store_persist-PersistedAs_example =
    store_persist-PersistedAs small_json fresh_state
      (small_disk (works ∷ works ∷ works ∷ fails 1 ∷ []))

store_persist_aside_example :
    lookup
      (store_persist small_json fresh_state (small_disk (works ∷ fails 0 ∷ []))).0.entries
      credentials_root
    ≡ lookup small_entries credentials_root
store_persist_aside_example =
    store_persist_aside small_json fresh_state (small_disk (works ∷ fails 0 ∷ [])) credentials_root
      refl refl

persist_bytes_succeeds_example :
    (persist_bytes (7 ∷ 8 ∷ []) (record { entries = small_entries; faults = [] })).1 ≡ ok tt
unfolding lookup
persist_bytes_succeeds_example = persist_bytes_succeeds (7 ∷ 8 ∷ []) small_entries tt tt

-- An installation that nothing hinders: the three files differ.
abbrev some_credential : ValidatedCredential
some_credential = record {
  ca = 1 ∷ 2 ∷ [];
  certificate = 3 ∷ [];
  private_key = 4 ∷ 5 ∷ [];
  expires_at = pos 9000;
}

abbrev with_revision : Disk
with_revision = (store_install_revision 3 some_credential (small_disk [])).0

revision_installs :
    store_install_revision 3 some_credential (small_disk []) ≡ (with_revision, ok tt)
unfolding store_install_revision install_missing install_staged clean_staging stage_revision
    remove_stale_directory ignore_missing write_synced sync_directory map_io ◌>>=◌ primitive read
    create create_dir write_all remove_dir_all rename sync exists lookup add remove remove_tree
    strip relocate relocated revision_name staging_name decimal
revision_installs = refl

store_install_revision-InstalledAs_example :
    Holds (revision_root 3) some_credential with_revision.entries
unfolding store_install_revision install_missing install_staged clean_staging stage_revision
    remove_stale_directory ignore_missing write_synced sync_directory map_io ◌>>=◌ primitive read
    create create_dir write_all remove_dir_all rename sync exists lookup add remove remove_tree
    strip relocate relocated revision_name staging_name decimal
store_install_revision-InstalledAs_example =
    store_install_revision-InstalledAs 3 some_credential (small_disk [])

store_install_revision_aside_example :
    lookup
      (store_install_revision 3 sample_artifact.credential (small_disk [])).0.entries
      state_path
    ≡ lookup small_entries state_path
unfolding strip
store_install_revision_aside_example =
    store_install_revision_aside 3 sample_artifact.credential (small_disk []) state_path refl refl

store_install_revision_committed_example :
    lookup
      (store_install_revision 2 sample_artifact.credential (small_disk (fails 0 ∷ []))).0.entries
      (revision_root 2)
    ≡ lookup small_entries (revision_root 2)
unfolding lookup strip revision_name staging_name decimal
store_install_revision_committed_example =
    store_install_revision_committed 2 sample_artifact.credential (small_disk (fails 0 ∷ []))
      (revision_root 2) refl refl
