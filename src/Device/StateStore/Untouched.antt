-- ===== src/Device/StateStore/Untouched.antt =====
-- What `install_revision` of state.rs leaves alone, whatever fails.
use rss_incubator.Base.{
  ℕ, ◌≡◌, refl, ◌∙◌, sym, ap, subst, inl, inr, Bool, true, false, Option, none, some, is_some, List,
  Bytes, arith, ◌==◌, nat_eq, list_eq, eq_of_==, Bool-cases, Result, ok, err, if◌then◌else◌,
}
use rss_incubator.Device.Artifact.{ValidatedCredential}
use rss_incubator.Device.Disk.{
  FilePath, Node, file, directory, Entry, IoError, Disk, lookup, add, remove, remove_tree,
  remove_part, strip, rename_onto, exists,
}
use rss_incubator.Device.Disk.Lookup.{
  lookup-add, lookup-remove, lookup-remove_tree, lookup-remove_part, lookup-relocate_beside,
  strip_self,
}
use rss_incubator.Device.Disk.Ends.{Ending, Acted}
use rss_incubator.Device.State.Stored.{StoreError}
use rss_incubator.Device.StateStore.{
  staging_root, revision_root, staging_name, revision_name, verify_existing_revision,
  install_missing, store_install_revision,
}
use rss_incubator.Device.StateStore.Rules.{Keeps}
use rss_incubator.Device.StateStore.Persisting.{At, Ending-At}
use rss_incubator.Device.StateStore.Installing.{exists_entries, Keeps-installs}
use rss_incubator.Device.StateStore.Installed.{verify_existing_revision-Ends, Holds}

module _ (P : List Entry → Type 0) (revision : ℕ)
    (added : (q : FilePath) (n : Node) (es : List Entry)
      → is_some (strip (staging_root revision) q) ≡ true
      → P es
      → P (add q n es))
    (removed : (es : List Entry) → P es → P (remove_tree (staging_root revision) es))
    (parted : (k : ℕ) (es : List Entry) → P es → P (remove_part k (staging_root revision) es))
    (moved : (n : Node) (es : List Entry)
      → P es
      → Acted {E = IoError} {A = Unit {0}}
          (λ a. P)
          (λ e. P)
          (rename_onto n
            (lookup es (revision_root revision))
            (staging_root revision)
            (revision_root revision)
            es))
    (credential : ValidatedCredential) where
  verified-Keeps :
      (r : Disk × Result StoreError (Unit {0}))
      → Ending (λ a es. P es × Holds (revision_root revision) credential es) (λ e. P) r
      → Ending (λ a. P) (λ e. P) r
  verified-Keeps (after, ok a) h = h.0
  verified-Keeps (after, err e) h = h

  missing-Keeps :
      (r : Disk × Bool)
      → P r.0.entries
      → Ending (λ a. P) (λ e. P) (install_missing revision credential r)
  unfolding install_missing
  missing-Keeps (disk, true) h =
      verified-Keeps (verify_existing_revision (revision_root revision) credential disk)
        ((verify_existing_revision-Ends P (revision_root revision) credential).at disk h)
  missing-Keeps (disk, false) h =
      (Keeps-installs P revision added removed parted moved credential).at disk h

  Keeps-store_install_revision : Keeps P (store_install_revision revision credential)
  unfolding store_install_revision
  Keeps-store_install_revision = record {
    at = λ disk h.
        missing-Keeps (exists (revision_root revision) disk)
          (subst P (sym (exists_entries (revision_root revision) disk)) h);
  }

abbrev pub Beside : FilePath → FilePath → Type 0
Beside root p = is_some (strip root p) ≡ false

module _ (p : FilePath) (o : Option Node) (revision : ℕ)
    (beside : Beside (staging_root revision) p) where
  add-At :
      (q : FilePath) (n : Node) (es : List Entry)
      → is_some (strip (staging_root revision) q) ≡ true
      → At p o es
      → At p o (add q n es)
  add-At q n es h k = rw (lookup-add, apart) k
    where
      apart : (q == p) ≡ false
      apart = elim (Bool-cases (q == p)) [
        | inl y ↦
            ground (
              arith,
              ap (λ x. is_some (strip (staging_root revision) x)) (eq_of_== q p y),
              h,
              beside,
            )
        | inr n' ↦ n'
      ]

  remove_tree-At : (es : List Entry) → At p o es → At p o (remove_tree (staging_root revision) es)
  remove_tree-At es k = rw (lookup-remove_tree, beside) k

  remove_part-At :
      (n : ℕ) (es : List Entry) → At p o es → At p o (remove_part n (staging_root revision) es)
  remove_part-At n es k = lookup-remove_part n (staging_root revision) es p beside ∙ k

  module _ (outside : Beside (revision_root revision) p) where
    root_apart : (root : FilePath) → Beside root p → (root == p) ≡ false
    root_apart root b = elim (Bool-cases (root == p)) [
      | inl y ↦
          ground (arith, ap (λ x. is_some (strip root x)) (eq_of_== root p y), strip_self root, b)
      | inr n ↦ n
    ]

    add_file-At :
        (bytes : Bytes) (es : List Entry)
        → At p o es
        → At p o (add (revision_root revision) (file bytes) (remove (staging_root revision) es))
    add_file-At bytes es k =
        rw
          (
            lookup-add,
            root_apart (revision_root revision) outside,
            lookup-remove,
            root_apart (staging_root revision) beside,
          )
          k

    rename_onto-At :
        (n : Node) (t : Option Node) (es : List Entry)
        → At p o es
        → Acted {E = IoError} {A = Unit {0}}
            (λ a. At p o)
            (λ e. At p o)
            (rename_onto n t (staging_root revision) (revision_root revision) es)
    rename_onto-At (file bytes) none es k = add_file-At bytes es k
    rename_onto-At (file bytes) (some (file old)) es k = add_file-At bytes es k
    rename_onto-At (file bytes) (some directory) es k = k
    rename_onto-At directory none es k =
        lookup-relocate_beside (staging_root revision) (revision_root revision)
          (remove_tree (revision_root revision) es) p beside outside
        ∙ lookup-remove_tree (revision_root revision) es p
        ∙ ap (λ b. if b then none else lookup es p) outside
        ∙ k
    rename_onto-At directory (some n) es k = k

    install-At :
        (credential : ValidatedCredential)
        → Keeps (At p o) (store_install_revision revision credential)
    install-At credential =
        Keeps-store_install_revision (At p o) revision add-At remove_tree-At remove_part-At
          (λ n es k. rename_onto-At n (lookup es (revision_root revision)) es k) credential

  -- A revision that is there.
  module _ (there : Beside (staging_root revision) (revision_root revision)) where
    abbrev Both : List Entry → Type 0
    Both es = At (revision_root revision) (some directory) es × At p o es

    rename_onto-Both :
        (n : Node) (t : Option Node) (es : List Entry)
        → t ≡ some directory
        → Both es
        → Acted {E = IoError} {A = Unit {0}}
            (λ a. Both)
            (λ e. Both)
            (rename_onto n t (staging_root revision) (revision_root revision) es)
    rename_onto-Both n none es e k = cc
    rename_onto-Both (file bytes) (some (file old)) es e k = cc
    rename_onto-Both (file bytes) (some directory) es e k = k
    rename_onto-Both directory (some m) es e k = k

-- Whatever fails, install_revision leaves every path beside the staging directory and the
-- directory of the revision as it was, the state file with them.
pub store_install_revision_aside :
    (revision : ℕ) (credential : ValidatedCredential) (disk : Disk) (p : FilePath)
    → Beside (staging_root revision) p
    → Beside (revision_root revision) p
    → lookup (store_install_revision revision credential disk).0.entries p ≡ lookup disk.entries p
store_install_revision_aside revision credential disk p beside outside =
    Ending-At p (lookup disk.entries p) (store_install_revision revision credential disk)
      ((install-At p (lookup disk.entries p) revision beside outside credential).at disk refl)

staging_beside : (revision : ℕ) → Beside (staging_root revision) (revision_root revision)
unfolding strip staging_name revision_name
staging_beside revision = refl

module _ (revision : ℕ) (credential : ValidatedCredential) (p : FilePath) (o : Option Node)
    (beside : Beside (staging_root revision) p) where
  committed_kept :
      Keeps
        (Both p o revision beside (staging_beside revision))
        (store_install_revision revision credential)
  committed_kept =
      Keeps-store_install_revision (Both p o revision beside (staging_beside revision)) revision
        (λ q n es h k. (
          add-At (revision_root revision) (some directory) revision (staging_beside revision) q n es
              h k.0,
          add-At p o revision beside q n es h k.1,
        ))
        (λ es k. (
          remove_tree-At (revision_root revision) (some directory) revision
              (staging_beside revision) es k.0,
          remove_tree-At p o revision beside es k.1,
        ))
        (λ n es k. (
          remove_part-At (revision_root revision) (some directory) revision
              (staging_beside revision) n es k.0,
          remove_part-At p o revision beside n es k.1,
        ))
        (λ n es k.
          rename_onto-Both p o revision beside (staging_beside revision) n
            (lookup es (revision_root revision)) es k.0 k)
        credential

-- When the directory of the revision is there, install_revision leaves every path beside the
-- staging directory as it was, whatever fails: a committed revision is never written again.
pub store_install_revision_committed :
    (revision : ℕ) (credential : ValidatedCredential) (disk : Disk) (p : FilePath)
    → lookup disk.entries (revision_root revision) ≡ some directory
    → Beside (staging_root revision) p
    → lookup (store_install_revision revision credential disk).0.entries p ≡ lookup disk.entries p
store_install_revision_committed revision credential disk p there beside =
    kept (store_install_revision revision credential disk)
      ((committed_kept revision credential p (lookup disk.entries p) beside).at disk (there, refl))
  where
    kept :
        (r : Disk × Result StoreError (Unit {0}))
        → Ending
            (λ a. Both p (lookup disk.entries p) revision beside (staging_beside revision))
            (λ e. Both p (lookup disk.entries p) revision beside (staging_beside revision))
            r
        → lookup r.0.entries p ≡ lookup disk.entries p
    kept (after, ok a) h = h.1
    kept (after, err e) h = h.1
