-- ===== src/Device/StateStore/Persisting.antt =====
-- `persist` of state.rs, whatever fails: the state file is replaced whole or not at all, and nothing
-- else below the directory changes but the temporary file.
use rss_incubator.Base.{
  ◌≡◌, refl, sym, ap, subst, ◌⊎◌, inl, inr, false, Option, none, some, Option-cases, List, Bytes,
  ◌==◌, nat_eq, list_eq, Result, ok, err,
}
use rss_incubator.Device.Disk.{
  FilePath, Node, file, directory, Entry, IoError, Disk, Io, lookup, add, remove, write_all, rename,
  sync, rename_act, rename_onto, rename_from,
}
use rss_incubator.Device.Disk.Lookup.{lookup-add, lookup-remove}
use rss_incubator.Device.Disk.Ends.{Ends, Ending, Acted, Ends-primitive, Ends-bind, Ends-map_io}
use rss_incubator.Device.State.Stored.{StateV1, StoreError}
use rss_incubator.Device.StateStore.{
  Json, state_path, temporary_path, sync_directory, write_synced, persist_bytes, store_persist,
}
use rss_incubator.Device.StateStore.Rules.{
  Keeps, Keeps-sync_directory, Keeps-create, Keeps-remove_stale_file,
}

-- What stands at a path.
abbrev pub At : FilePath → Option Node → List Entry → Type 0
At p o es = lookup es p ≡ o

pub rename-source :
    (from to : FilePath) (n : Node) (es : List Entry)
    → At from (some n) es
    → rename_act from to es ≡ rename_onto n (lookup es to) from to es
rename-source from to n es h = ap (λ o. rename_from o from to es) h

module _ (o : Option Node) (bytes : Bytes) where
  abbrev Written : List Entry → Type 0
  Written es = At state_path o es × At temporary_path (some (file bytes)) es

  abbrev Replaced : List Entry → Type 0
  Replaced es = At state_path o es ⊎ At state_path (some (file bytes)) es

  old_added :
      (n : Node) (es : List Entry) → At state_path o es → At state_path o (add temporary_path n es)
  old_added n es h = rw lookup-add h

  old_removed : (es : List Entry) → At state_path o es → At state_path o (remove temporary_path es)
  old_removed es h = rw lookup-remove h

  written : (es : List Entry) → At state_path o es → Written (add temporary_path (file bytes) es)
  written es h = (rw lookup-add h, rw lookup-add refl)

  sync-Written : Ends Written sync (λ a. Written) (λ e. At state_path o)
  unfolding sync
  sync-Written = Ends-primitive _ _ _ _ _ (λ es h. h) (λ n es h. h.0)

  write_temporary :
      Ends
        (At state_path o)
        (write_synced temporary_path bytes)
        (λ a. Written)
        (λ e. At state_path o)
  unfolding write_synced write_all
  write_temporary =
      Ends-bind _ (λ a. At state_path o) _ _ _ _
        (Ends-map_io _ _ _ _ _ (Keeps-create (At state_path o) temporary_path old_added))
        λ a.
          Ends-bind _ (λ a. Written) _ _ _ _
            (Ends-map_io _ _ _ _ _ (
              Ends-primitive _ (λ a. Written) (λ e. At state_path o) _ _ (λ es h. written es h)
                (λ n es h. old_added _ es h)))
            λ b. Ends-map_io _ _ _ _ _ sync-Written

  replaced :
      (es : List Entry)
      → At state_path (some (file bytes)) (add state_path (file bytes) (remove temporary_path es))
  replaced es = rw lookup-add refl

  renamed_onto :
      (t : Option Node) (es : List Entry)
      → At state_path o es
      → Acted {E = IoError} {A = Unit {0}}
          (λ a. At state_path (some (file bytes)))
          (λ e. At state_path o)
          (rename_onto (file bytes) t temporary_path state_path es)
  renamed_onto none es h = replaced es
  renamed_onto (some (file old)) es h = replaced es
  renamed_onto (some directory) es h = h

  renamed :
      (es : List Entry)
      → Written es
      → Acted {E = IoError} {A = Unit {0}}
          (λ a. At state_path (some (file bytes)))
          (λ e. At state_path o)
          (rename_act temporary_path state_path es)
  renamed es h =
      subst (Acted (λ x. At state_path (some (file bytes))) (λ x. At state_path o))
        (sym (rename-source temporary_path state_path (file bytes) es h.1))
        (renamed_onto (lookup es state_path) es h.0)

  rename_temporary :
      Ends Written
        (rename temporary_path state_path)
        (λ a. At state_path (some (file bytes)))
        (λ e. At state_path o)
  unfolding rename
  rename_temporary = Ends-primitive _ _ _ _ _ renamed (λ n es h. h.0)

  sync_directory-Replaced :
      Ends
        (At state_path (some (file bytes)))
        sync_directory
        (λ a. At state_path (some (file bytes)))
        (λ e. Replaced)
  unfolding sync_directory sync
  sync_directory-Replaced =
      Ends-map_io _ _ _ _ _ (Ends-primitive _ _ _ _ _ (λ es h. h) (λ n es h. inr h))

  weaken :
      {A : Type 0} (Q : A → List Entry → Type 0) (P : List Entry → Type 0) (m : Io StoreError A)
      → Ends P m Q (λ e. At state_path o)
      → Ends P m Q (λ e. Replaced)
  weaken {A} Q P m h = record { at = λ disk p. weakened (m disk) (h.at disk p) }
    where
      weakened :
          (r : Disk × Result StoreError A)
          → Ending Q (λ e. At state_path o) r
          → Ending Q (λ e. Replaced) r
      weakened (disk, ok a) k = k
      weakened (disk, err e) k = inl k

  persist_bytes-Ends :
      Ends
        (At state_path o)
        (persist_bytes bytes)
        (λ a. At state_path (some (file bytes)))
        (λ e. Replaced)
  unfolding persist_bytes
  persist_bytes-Ends =
      Ends-bind _ (λ a. At state_path o) _ _ _ _
        (weaken _ _ _ (Keeps-remove_stale_file (At state_path o) temporary_path old_removed))
        λ a.
          Ends-bind _ (λ a. Written) _ _ _ _ (weaken _ _ _ write_temporary)
            λ b.
              Ends-bind _ (λ a. At state_path (some (file bytes))) _ _ _ _
                (weaken _ _ _ (Ends-map_io _ _ _ _ _ rename_temporary)) λ c. sync_directory-Replaced

-- What the state file holds after `persist`: the new bytes when it succeeds; the old content or the
-- new bytes when it fails.
abbrev pub PersistedAs : Json → StateV1 → Option Node → Disk × Result StoreError (Unit {0}) → Type 0
PersistedAs json state old (disk, ok done') =
    (bytes : Bytes) × (json.to_vec state ≡ some bytes)
    × At state_path (some (file bytes)) disk.entries
PersistedAs json state old (disk, err e) =
    At state_path old disk.entries
    ⊎ ((bytes : Bytes) × (json.to_vec state ≡ some bytes)
        × At state_path (some (file bytes)) disk.entries)

persisted_bytes :
    (json : Json) (state : StateV1) (old : Option Node) (bytes : Bytes)
    (r : Disk × Result StoreError (Unit {0}))
    → json.to_vec state ≡ some bytes
    → Ending (λ a. At state_path (some (file bytes))) (λ e. Replaced old bytes) r
    → PersistedAs json state old r
persisted_bytes json state old bytes (disk, ok done') e h = (bytes, e, h)
persisted_bytes json state old bytes (disk, err x) e (inl h) = inl h
persisted_bytes json state old bytes (disk, err x) e (inr h) = inr (bytes, e, h)

-- Whatever operations fail, persist replaces the state file whole or not at all: after a success
-- it holds the new bytes, after a failure the old content or the new bytes.
pub store_persist-PersistedAs :
    (json : Json) (state : StateV1) (disk : Disk)
    → PersistedAs json state (lookup disk.entries state_path) (store_persist json state disk)
unfolding store_persist
store_persist-PersistedAs json state disk = elim (Option-cases (json.to_vec state)) [
  | inl e ↦ rw (e, store_persist) (inl refl)
  | inr (bytes, e) ↦
      rw (e, store_persist)
        (persisted_bytes json state (lookup disk.entries state_path) bytes
          (persist_bytes bytes disk) e
          ((persist_bytes-Ends (lookup disk.entries state_path) bytes).at disk refl))
]

module _ (p : FilePath) (o : Option Node) (apart : (state_path == p) ≡ false)
    (aside : (temporary_path == p) ≡ false) where
  aside_added : (n : Node) (es : List Entry) → At p o es → At p o (add temporary_path n es)
  aside_added n es h = rw (lookup-add, aside) h

  aside_removed : (es : List Entry) → At p o es → At p o (remove temporary_path es)
  aside_removed es h = rw (lookup-remove, aside) h

  aside_replaced :
      (bytes : Bytes) (es : List Entry)
      → At p o es
      → At p o (add state_path (file bytes) (remove temporary_path es))
  aside_replaced bytes es h = rw (lookup-add, apart, lookup-remove, aside) h

  aside_onto :
      (bytes : Bytes) (t : Option Node) (es : List Entry)
      → At p o es
      → Acted {E = IoError} {A = Unit {0}}
          (λ a. At p o)
          (λ e. At p o)
          (rename_onto (file bytes) t temporary_path state_path es)
  aside_onto bytes none es h = aside_replaced bytes es h
  aside_onto bytes (some (file old)) es h = aside_replaced bytes es h
  aside_onto bytes (some directory) es h = h

  abbrev Aside : List Entry → Type 0
  Aside es = At p o es × ((b : Bytes) × At temporary_path (some (file b)) es)

  rename-Aside :
      (es : List Entry)
      → Aside es
      → Acted {E = IoError} {A = Unit {0}}
          (λ a. At p o)
          (λ e. At p o)
          (rename_act temporary_path state_path es)
  rename-Aside es (h, (b, t)) =
      subst (Acted (λ x. At p o) (λ x. At p o))
        (sym (rename-source temporary_path state_path (file b) es t))
        (aside_onto b (lookup es state_path) es h)

  write_synced-Aside :
      (bytes : Bytes) → Ends (At p o) (write_synced temporary_path bytes) (λ a. Aside) (λ e. At p o)
  unfolding write_synced write_all sync
  write_synced-Aside bytes =
      Ends-bind _ (λ a. At p o) _ _ _ _
        (Ends-map_io _ _ _ _ _ (Keeps-create (At p o) temporary_path aside_added))
        λ a.
          Ends-bind _ (λ a. Aside) _ _ _ _
            (Ends-map_io _ _ _ _ _ (
              Ends-primitive _ (λ a. Aside) (λ e. At p o) _ _
                (λ es h. (aside_added (file bytes) es h, (bytes, rw lookup-add refl)))
                (λ n es h. aside_added _ es h)))
            λ b.
              Ends-map_io _ _ _ _ _
                (Ends-primitive Aside (λ a. Aside) (λ e. At p o) _ _ (λ es h. h) (λ n es h. h.0))

  persist_bytes-Keeps : (bytes : Bytes) → Keeps (At p o) (persist_bytes bytes)
  unfolding persist_bytes rename
  persist_bytes-Keeps bytes =
      Ends-bind _ (λ a. At p o) _ _ _ _
        (Keeps-remove_stale_file (At p o) temporary_path aside_removed)
        λ a.
          Ends-bind _ (λ a. Aside) _ _ _ _ (write_synced-Aside bytes)
            λ b.
              Ends-bind _ (λ a. At p o) _ _ _ _
                (Ends-map_io _ _ _ _ _ (
                  Ends-primitive Aside (λ a. At p o) (λ e. At p o) _ _ rename-Aside
                    (λ n es h. h.0)))
                λ c. Keeps-sync_directory (At p o)

pub Ending-At :
    {A : Type 0} (p : FilePath) (o : Option Node) (r : Disk × Result StoreError A)
    → Ending (λ a. At p o) (λ e. At p o) r
    → At p o r.0.entries
Ending-At p o (disk, ok a) h = h
Ending-At p o (disk, err e) h = h

-- Whatever fails, persist leaves every path but the state file and its temporary file as it was.
pub store_persist_aside :
    (json : Json) (state : StateV1) (disk : Disk) (p : FilePath)
    → (state_path == p) ≡ false
    → (temporary_path == p) ≡ false
    → lookup (store_persist json state disk).0.entries p ≡ lookup disk.entries p
unfolding store_persist
store_persist_aside json state disk p apart aside = elim (Option-cases (json.to_vec state)) [
  | inl e ↦ rw (e, store_persist)
  | inr (bytes, e) ↦
      rw (e, store_persist)
        (Ending-At p (lookup disk.entries p) (persist_bytes bytes disk)
          ((persist_bytes-Keeps p (lookup disk.entries p) apart aside bytes).at disk refl))
]
