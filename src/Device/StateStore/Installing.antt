-- ===== src/Device/StateStore/Installing.antt =====
-- `install_revision` of state.rs, whatever fails: which paths it leaves alone.
use rss_incubator.Base.{
  ℕ, ◌≡◌, refl, sym, ap, subst, Bool, true, false, Option, none, some, is_some, List, [], ◌∷◌, Text,
  Bytes, nat_eq, list_eq, Result, ok, err, codes,
}
use rss_incubator.Device.Artifact.{ValidatedCredential}
use rss_incubator.Device.Disk.{
  FilePath, Node, file, directory, Entry, IoError, missing, other, Fault, works, fails, Disk, ◌>>◌,
  lookup, add, remove_tree, remove_part, strip, create_dir, remove_dir_all, rename, primitive,
  faulty, unharmed, created, removed_tree, rename_onto, rename_from, exists, or_false,
}
use rss_incubator.Device.Disk.Lookup.{strip-append}
use rss_incubator.Device.Disk.Ends.{Ending, Acted, Ends-primitive, Ends-bind, Ends-map_io}
use rss_incubator.Device.State.Stored.{StoreError}
use rss_incubator.Device.StateStore.{
  is_unavailable, write_synced, ignore_missing, remove_stale_directory, within, staging_root,
  revision_root, stage_revision, clean_existing, clean_staging, install_staged,
}
use rss_incubator.Device.StateStore.Rules.{Keeps, Keeps-sync_directory, Keeps-write_synced}

-- A test of the disk leaves the entries.
pub exists_entries : (p : FilePath) (disk : Disk) → (exists p disk).0.entries ≡ disk.entries
unfolding exists primitive
exists_entries p disk = by_faults disk.faults
  where
    by_faults :
        (fs : List Fault)
        → (or_false
            (faulty (λ es. (es, ok (is_some (lookup es p)))) unharmed disk.entries fs)).0.entries
          ≡ disk.entries
    by_faults [] = refl
    by_faults (works ∷ fs) = refl
    by_faults (fails n ∷ fs) = refl

-- What every operation below the staging directory keeps, the installation keeps.
module _ (P : List Entry → Type 0) (revision : ℕ)
    (added : (q : FilePath) (n : Node) (es : List Entry)
      → is_some (strip (staging_root revision) q) ≡ true
      → P es
      → P (add q n es))
    (removed : (es : List Entry) → P es → P (remove_tree (staging_root revision) es))
    (parted : (k : ℕ) (es : List Entry) → P es → P (remove_part k (staging_root revision) es))
    (moved : (n : Node) (es : List Entry)
      → P es
      → Acted {E = IoError} {A = Unit {0}}
          (λ a. P)
          (λ e. P)
          (rename_onto n
            (lookup es (revision_root revision))
            (staging_root revision)
            (revision_root revision)
            es)) where
  removed_tree-Acted :
      (o : Option Node) (es : List Entry)
      → P es
      → Acted (λ a. P) (λ e. P) (removed_tree (staging_root revision) o es)
  removed_tree-Acted none es h = h
  removed_tree-Acted (some (file bytes)) es h = h
  removed_tree-Acted (some directory) es h = removed es h

  Keeps-remove_dir_all : Keeps P (remove_dir_all (staging_root revision))
  unfolding remove_dir_all
  Keeps-remove_dir_all =
      Ends-primitive P _ _ _ _ (λ es h. removed_tree-Acted (lookup es (staging_root revision)) es h)
        (λ n es h. parted n es h)

  ignored :
      (r : Disk × Result IoError (Unit {0}))
      → Ending (λ a. P) (λ e. P) r
      → Ending (λ a. P) (λ e. P) (ignore_missing r)
  unfolding ignore_missing
  ignored (disk, ok a) h = (Keeps-sync_directory P).at disk h
  ignored (disk, err missing) h = h
  ignored (disk, err other) h = h

  Keeps-remove_stale_directory : Keeps P (remove_stale_directory (staging_root revision))
  unfolding remove_stale_directory
  Keeps-remove_stale_directory = record {
    at = λ disk h.
        ignored (remove_dir_all (staging_root revision) disk) (Keeps-remove_dir_all.at disk h);
  }

  created-Acted :
      (o : Option Node) (es : List Entry)
      → P es
      → Acted (λ a. P) (λ e. P) (created (staging_root revision) directory o es)
  unfolding strip
  created-Acted none es h =
      added (staging_root revision) directory es
        (ap is_some (strip-append (staging_root revision) [])) h
  created-Acted (some n) es h = h

  Keeps-create_dir : Keeps P (create_dir (staging_root revision))
  unfolding create_dir
  Keeps-create_dir =
      Ends-primitive P _ _ _ _ (λ es h. created-Acted (lookup es (staging_root revision)) es h)
        (λ n es h. h)

  written :
      (name : Text) (bytes : Bytes)
      → Keeps P (write_synced (within (staging_root revision) name) bytes)
  written name bytes =
      Keeps-write_synced P (within (staging_root revision) name)
        (λ n es h.
          added (within (staging_root revision) name) n es
            (ap is_some (strip-append (staging_root revision) (name ∷ []))) h)
        bytes

  rename-Acted :
      (o : Option Node) (es : List Entry)
      → P es
      → Acted (λ a. P) (λ e. P) (rename_from o (staging_root revision) (revision_root revision) es)
  rename-Acted none es h = h
  rename-Acted (some n) es h = moved n es h

  Keeps-rename : Keeps P (rename (staging_root revision) (revision_root revision))
  unfolding rename
  Keeps-rename =
      Ends-primitive P _ _ _ _ (λ es h. rename-Acted (lookup es (staging_root revision)) es h)
        (λ n es h. h)

  module _ (credential : ValidatedCredential) where
    Keeps-stage_revision : Keeps P (stage_revision revision credential)
    unfolding stage_revision
    Keeps-stage_revision =
        Ends-bind P (λ a. P) _ _ _ _ (written (codes "ca.pem") credential.ca)
          λ a.
            Ends-bind P (λ a. P) _ _ _ _ (written (codes "certificate.pem") credential.certificate)
              λ b.
                Ends-bind P (λ a. P) _ _ _ _
                  (written (codes "private-key.pem") credential.private_key)
                  λ c.
                    Ends-bind P (λ a. P) _ _ _ _ (Keeps-sync_directory P)
                      λ d.
                        Ends-bind P (λ a. P) _ _ _ _ (Ends-map_io P _ _ _ _ Keeps-rename)
                          λ e. Keeps-sync_directory P

    after_removal :
        (r : Disk × Result IoError (Unit {0})) → Ending (λ a. P) (λ e. P) r → P r.0.entries
    after_removal (disk, ok a) h = h
    after_removal (disk, err e) h = h

    cleaned_existing :
        (e : StoreError) (r : Disk × Bool)
        → P r.0.entries
        → Ending (λ a. P) (λ e. P) (clean_existing revision e r)
    unfolding clean_existing
    cleaned_existing e (disk, true) h =
        after_removal (remove_dir_all (staging_root revision) disk) (Keeps-remove_dir_all.at disk h)
    cleaned_existing e (disk, false) h = h

    cleaned :
        (r : Disk × Result StoreError (Unit {0}))
        → Ending (λ a. P) (λ e. P) r
        → Ending (λ a. P) (λ e. P) (clean_staging revision r)
    unfolding clean_staging
    cleaned (disk, ok a) h = h
    cleaned (disk, err e) h =
        cleaned_existing e (exists (staging_root revision) disk)
          (subst P (sym (exists_entries (staging_root revision) disk)) h)

    Keeps-install_staged : Keeps P (install_staged revision credential)
    unfolding install_staged
    Keeps-install_staged = record {
      at = λ disk h.
          cleaned (stage_revision revision credential disk) (Keeps-stage_revision.at disk h);
    }

    pub Keeps-installs : Keeps P (do
      remove_stale_directory (staging_root revision)
      is_unavailable (create_dir (staging_root revision))
      install_staged revision credential)
    Keeps-installs =
        Ends-bind P (λ a. P) _ _ _ _ Keeps-remove_stale_directory
          λ a.
            Ends-bind P (λ a. P) _ _ _ _ (Ends-map_io P _ _ _ _ Keeps-create_dir)
              λ b. Keeps-install_staged
