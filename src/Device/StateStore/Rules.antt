-- ===== src/Device/StateStore/Rules.antt =====
-- What the file operations of state.rs keep, whatever fails.
use rss_incubator.Base.{Option, none, some, List, [], Bytes, nat_eq, list_eq, Result, ok, err, take}
use rss_incubator.Device.Disk.{
  FilePath, Node, file, directory, Entry, IoError, missing, other, Disk, Io, lookup, add, remove,
  create, write_all, remove_file, sync, created, removed_file,
}
use rss_incubator.Device.Disk.Ends.{Ends, Ending, Acted, Ends-primitive, Ends-bind, Ends-map_io}
use rss_incubator.Device.StateStore.{
  sync_directory, write_synced, ignore_missing, remove_stale_file,
}

-- What holds whether an operation ends with a result or with an error.
abbrev pub Keeps : {E A : Type 0} → (List Entry → Type 0) → Io E A → Type 0
Keeps P m = Ends P m (λ a. P) (λ e. P)

module _ (P : List Entry → Type 0) where
  pub Keeps-sync : Keeps P sync
  unfolding sync
  Keeps-sync = Ends-primitive P _ _ _ _ (λ es h. h) (λ n es h. h)

  pub Keeps-sync_directory : Keeps P sync_directory
  unfolding sync_directory
  Keeps-sync_directory = Ends-map_io P _ _ _ sync Keeps-sync

  module _ (path : FilePath) (added : (n : Node) (es : List Entry) → P es → P (add path n es)) where
    created-Acted :
        (new : Node) (o : Option Node) (es : List Entry)
        → P es
        → Acted (λ a. P) (λ e. P) (created path new o es)
    created-Acted new none es h = added new es h
    created-Acted new (some n) es h = h

    pub Keeps-create : Keeps P (create path)
    unfolding create
    Keeps-create =
        Ends-primitive P _ _ _ _ (λ es h. created-Acted (file []) (lookup es path) es h)
          (λ n es h. h)

    pub Keeps-write_all : (bytes : Bytes) → Keeps P (write_all path bytes)
    unfolding write_all
    Keeps-write_all bytes =
        Ends-primitive P _ _ _ _ (λ es h. added (file bytes) es h)
          (λ n es h. added (file (take n bytes)) es h)

    pub Keeps-write_synced : (bytes : Bytes) → Keeps P (write_synced path bytes)
    unfolding write_synced
    Keeps-write_synced bytes =
        Ends-bind P (λ a. P) _ _ _ _ (Ends-map_io P _ _ _ _ Keeps-create)
          λ a.
            Ends-bind P (λ a. P) _ _ _ _ (Ends-map_io P _ _ _ _ (Keeps-write_all bytes))
              λ b. Ends-map_io P _ _ _ sync Keeps-sync

module _ (P : List Entry → Type 0) (path : FilePath)
    (removed : (es : List Entry) → P es → P (remove path es)) where
  removed-Acted :
      (o : Option Node) (es : List Entry) → P es → Acted (λ a. P) (λ e. P) (removed_file path o es)
  removed-Acted none es h = h
  removed-Acted (some (file bytes)) es h = removed es h
  removed-Acted (some directory) es h = h

  pub Keeps-remove_file : Keeps P (remove_file path)
  unfolding remove_file
  Keeps-remove_file =
      Ends-primitive P _ _ _ _ (λ es h. removed-Acted (lookup es path) es h) (λ n es h. h)

  ignored :
      (r : Disk × Result IoError (Unit {0}))
      → Ending (λ a. P) (λ e. P) r
      → Ending (λ a. P) (λ e. P) (ignore_missing r)
  unfolding ignore_missing
  ignored (disk, ok a) h = (Keeps-sync_directory P).at disk h
  ignored (disk, err missing) h = h
  ignored (disk, err other) h = h

  pub Keeps-remove_stale_file : Keeps P (remove_stale_file path)
  unfolding remove_stale_file
  Keeps-remove_stale_file = record {
    at = λ disk h. ignored (remove_file path disk) (Keeps-remove_file.at disk h);
  }
