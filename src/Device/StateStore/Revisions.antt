-- ===== src/Device/StateStore/Revisions.antt =====
-- The promise of `install_revision` of state.rs: a revision that it reports as installed holds the
-- credential, and everything but the staging directory and a revision that is free stays as it was.
use rss_incubator.Base.{
  ℕ, ◌≡◌, refl, ◌∙◌, sym, subst, Bool, true, false, Option, none, some, is_some, List, [], ◌∷◌,
  Text, Bytes, arith, nat_eq, list_eq, ==_refl, Result, ok, err, codes,
}
use rss_incubator.Device.Artifact.{ValidatedCredential}
use rss_incubator.Device.Disk.{
  FilePath, Node, file, directory, Entry, IoError, Disk, Io, lookup, add, remove_tree, strip,
  relocate, create_dir, write_all, rename, sync, created, rename_act, rename_onto, exists,
}
use rss_incubator.Device.Disk.Lookup.{lookup-add, lookup-relocate_moved}
use rss_incubator.Device.Disk.Ends.{Ends, Ending, Acted, Ends-primitive, Ends-bind, Ends-map_io}
use rss_incubator.Device.State.Stored.{StoreError}
use rss_incubator.Device.StateStore.{
  write_synced, within, staging_root, revision_root, staging_name, revision_name,
  verify_existing_revision, stage_revision, clean_existing, clean_staging, install_staged,
  install_missing, store_install_revision,
}
use rss_incubator.Device.StateStore.Rules.{Keeps-sync_directory, Keeps-create}
use rss_incubator.Device.StateStore.Persisting.{At, rename-source}
use rss_incubator.Device.StateStore.Installed.{verify_existing_revision-Ends, Holds}

abbrev Whatever : {E : Type 0} → E → List Entry → Type 0
Whatever e es = Unit

failing :
    {A : Type 0} (P : List Entry → Type 0) (Q : A → List Entry → Type 0) (m : Io StoreError A)
    → Ends P m Q (λ e. P)
    → Ends P m Q Whatever
failing {A} P Q m h = record { at = λ disk p. forgotten (m disk) (h.at disk p) }
  where
    forgotten : (r : Disk × Result StoreError A) → Ending Q (λ e. P) r → Ending Q Whatever r
    forgotten (disk, ok a) k = k
    forgotten (disk, err e) k = tt

-- A file that is written whole.
module _ (P : List Entry → Type 0) (path : FilePath)
    (added : (n : Node) (es : List Entry) → P es → P (add path n es)) where
  Ends-written :
      (bytes : Bytes)
      → Ends P (write_synced path bytes) (λ a es. P es × At path (some (file bytes)) es) Whatever
  unfolding write_synced write_all sync
  Ends-written bytes =
      Ends-bind P (λ a. P) _ Whatever _ _
        (failing P (λ a. P) _ (Ends-map_io P _ _ _ _ (Keeps-create P path added)))
        λ a.
          Ends-bind P (λ a es. P es × At path (some (file bytes)) es) _ Whatever _ _
            (Ends-map_io P _ Whatever _ _ (
              Ends-primitive P _ Whatever _ _
                (λ es h. (added (file bytes) es h, rw (lookup-add, ==_refl path) refl))
                (λ n es h. tt)))
            λ b.
              Ends-map_io _ _ Whatever _ _
                (Ends-primitive _ _ Whatever _ _ (λ es h. h) (λ n es h. tt))

module _ (revision : ℕ) (credential : ValidatedCredential) where
  abbrev Made : List Entry → Type 0
  Made es = At (staging_root revision) (some directory) es

  abbrev MadeCa : List Entry → Type 0
  MadeCa es =
      Made es × At (within (staging_root revision) (codes "ca.pem")) (some (file credential.ca)) es

  abbrev MadeCertificate : List Entry → Type 0
  MadeCertificate es =
      MadeCa es
      × At (within (staging_root revision) (codes "certificate.pem"))
          (some (file credential.certificate)) es

  abbrev MadeAll : List Entry → Type 0
  MadeAll es =
      MadeCertificate es
      × At (within (staging_root revision) (codes "private-key.pem"))
          (some (file credential.private_key)) es

  add-Made :
      (name : Text) (n : Node) (es : List Entry)
      → Made es
      → Made (add (within (staging_root revision) name) n es)
  add-Made name n es h = ground (
    arith,
    h,
    ==_refl (staging_name revision),
    lookup-add (within (staging_root revision) name) n es (staging_root revision),
  )

  ca_added :
      (n : Node) (es : List Entry)
      → MadeCa es
      → MadeCa (add (within (staging_root revision) (codes "certificate.pem")) n es)
  ca_added n es h = (
    add-Made (codes "certificate.pem") n es h.0,
    rw (lookup-add, ==_refl (staging_name revision)) h.1,
  )

  certificate_added :
      (n : Node) (es : List Entry)
      → MadeCertificate es
      → MadeCertificate (add (within (staging_root revision) (codes "private-key.pem")) n es)
  certificate_added n es h = (
    (
      add-Made (codes "private-key.pem") n es h.0.0,
      rw (lookup-add, ==_refl (staging_name revision)) h.0.1,
    ),
    rw (lookup-add, ==_refl (staging_name revision)) h.1,
  )

  apart :
      (name : Text)
      → is_some (strip (revision_root revision) (within (staging_root revision) name)) ≡ false
  unfolding strip staging_name revision_name
  apart name = refl

  moved_file :
      (name : Text) (bytes : Bytes) (es : List Entry)
      → At (within (staging_root revision) name) (some (file bytes)) es
      → At (within (revision_root revision) name) (some (file bytes)) (
          relocate
            (staging_root revision)
            (revision_root revision)
            (remove_tree (revision_root revision) es))
  moved_file name bytes es h =
      lookup-relocate_moved (staging_root revision) (revision_root revision) es (name ∷ [])
        (apart name)
      ∙ h

  renamed_onto :
      (t : Option Node) (es : List Entry)
      → MadeAll es
      → Acted {E = IoError} {A = Unit {0}}
          (λ a. Holds (revision_root revision) credential)
          Whatever
          (rename_onto directory t (staging_root revision) (revision_root revision) es)
  renamed_onto none es h = (
    moved_file (codes "ca.pem") credential.ca es h.0.0.1,
    moved_file (codes "certificate.pem") credential.certificate es h.0.1,
    moved_file (codes "private-key.pem") credential.private_key es h.1,
  )
  renamed_onto (some n) es h = tt

  renamed :
      (es : List Entry)
      → MadeAll es
      → Acted {E = IoError} {A = Unit {0}}
          (λ a. Holds (revision_root revision) credential)
          Whatever
          (rename_act (staging_root revision) (revision_root revision) es)
  renamed es h =
      subst (Acted (λ a. Holds (revision_root revision) credential) Whatever)
        (sym (rename-source (staging_root revision) (revision_root revision) directory es h.0.0.0))
        (renamed_onto (lookup es (revision_root revision)) es h)

  stage_revision-Ends :
      Ends Made
        (stage_revision revision credential)
        (λ a. Holds (revision_root revision) credential)
        Whatever
  unfolding stage_revision rename
  stage_revision-Ends =
      Ends-bind _ (λ a. MadeCa) _ Whatever _ _
        (Ends-written Made _ (add-Made (codes "ca.pem")) credential.ca)
        λ a.
          Ends-bind _ (λ a. MadeCertificate) _ Whatever _ _
            (Ends-written MadeCa _ ca_added credential.certificate)
            λ b.
              Ends-bind _ (λ a. MadeAll) _ Whatever _ _
                (Ends-written MadeCertificate _ certificate_added credential.private_key)
                λ c.
                  Ends-bind _ (λ a. MadeAll) _ Whatever _ _
                    (failing MadeAll (λ a. MadeAll) _ (Keeps-sync_directory MadeAll))
                    λ d.
                      Ends-bind _ (λ a. Holds (revision_root revision) credential) _ Whatever _ _
                        (Ends-map_io _ _ Whatever _ _
                          (Ends-primitive _ _ Whatever _ _ renamed (λ n es h. tt)))
                        λ e.
                          failing (Holds (revision_root revision) credential)
                            (λ a. Holds (revision_root revision) credential) _
                            (Keeps-sync_directory _)

  cleaned_existing :
      (e : StoreError) (r : Disk × Bool)
      → Ending
          (λ a. Holds (revision_root revision) credential)
          Whatever
          (clean_existing revision e r)
  unfolding clean_existing
  cleaned_existing e (disk, true) = tt
  cleaned_existing e (disk, false) = tt

  cleaned :
      (r : Disk × Result StoreError (Unit {0}))
      → Ending (λ a. Holds (revision_root revision) credential) Whatever r
      → Ending (λ a. Holds (revision_root revision) credential) Whatever (clean_staging revision r)
  unfolding clean_staging
  cleaned (disk, ok a) h = h
  cleaned (disk, err e) h = cleaned_existing e (exists (staging_root revision) disk)

  install_staged-Ends :
      Ends Made
        (install_staged revision credential)
        (λ a. Holds (revision_root revision) credential)
        Whatever
  unfolding install_staged
  install_staged-Ends = record {
    at =
        λ disk h. cleaned (stage_revision revision credential disk) (stage_revision-Ends.at disk h);
  }

  made :
      (o : Option Node) (es : List Entry)
      → Acted {E = IoError} {A = Unit {0}}
          (λ a. Made)
          Whatever
          (created (staging_root revision) directory o es)
  made none es = rw (lookup-add, ==_refl (staging_name revision)) refl
  made (some n) es = tt

  create_dir-Ends : Ends (λ es. Unit) (create_dir (staging_root revision)) (λ a. Made) Whatever
  unfolding create_dir
  create_dir-Ends =
      Ends-primitive _ _ Whatever _ _ (λ es h. made (lookup es (staging_root revision)) es)
        (λ n es h. tt)

  anything :
      {A : Type 0} (m : Io StoreError A) → Ends (λ es. Unit {0}) m (λ a es. Unit {0}) Whatever
  anything {A} m = record { at = λ disk h. ended (m disk) }
    where
      ended : (r : Disk × Result StoreError A) → Ending (λ a es. Unit {0}) Whatever r
      ended (disk, ok a) = tt
      ended (disk, err e) = tt

  missing-Ends :
      (r : Disk × Bool)
      → Ending
          (λ a. Holds (revision_root revision) credential)
          Whatever
          (install_missing revision credential r)
  unfolding install_missing
  missing-Ends (disk, true) =
      verified (verify_existing_revision (revision_root revision) credential disk) (
        (verify_existing_revision-Ends (λ es. Unit) (revision_root revision) credential).at disk tt)
    where
      verified :
          (r : Disk × Result StoreError (Unit {0}))
          → Ending (λ a es. Unit {0} × Holds (revision_root revision) credential es) Whatever r
          → Ending (λ a. Holds (revision_root revision) credential) Whatever r
      verified (after, ok a) h = h.1
      verified (after, err e) h = tt
  missing-Ends (disk, false) =
      (Ends-bind (λ es. Unit {0}) (λ a es. Unit) (λ a. Holds (revision_root revision) credential)
          Whatever _ _ (anything _)
          λ a.
            Ends-bind (λ es. Unit {0}) (λ a. Made) _ Whatever _ _
              (Ends-map_io _ _ Whatever _ _ create_dir-Ends) λ b. install_staged-Ends).at
        disk tt

abbrev pub InstalledAs : ℕ → ValidatedCredential → Disk × Result StoreError (Unit {0}) → Type 0
InstalledAs revision credential (disk, ok installed) =
    Holds (revision_root revision) credential disk.entries
InstalledAs revision credential (disk, err e) = Unit

-- When install_revision succeeds, on any disk and with any failures, the three files of the
-- credential stand below the directory of the revision, whether it was there before or not.
pub store_install_revision-InstalledAs :
    (revision : ℕ) (credential : ValidatedCredential) (disk : Disk)
    → InstalledAs revision credential (store_install_revision revision credential disk)
unfolding store_install_revision
store_install_revision-InstalledAs revision credential disk =
    as_installed (install_missing revision credential (exists (revision_root revision) disk))
      (missing-Ends revision credential (exists (revision_root revision) disk))
  where
    as_installed :
        (r : Disk × Result StoreError (Unit {0}))
        → Ending (λ a. Holds (revision_root revision) credential) Whatever r
        → InstalledAs revision credential r
    as_installed (after, ok a) h = h
    as_installed (after, err e) h = h
