-- ===== src/Device/Disk.antt =====
-- The file operations of `std::fs` that crates/reference-device-agent-core/src/state.rs uses, on a
-- list of paths below the state directory. Any of them may fail; a write that fails may have
-- written a part. An interruption is a run in which every later operation fails.
pub mod Lookup
pub mod Ends
use rss_incubator.Base.{
  ℕ, zero, suc, Bool, true, false, not, ◌&&◌, Option, none, some, is_some, List, [], ◌∷◌, ◌++◌, map,
  Text, Bytes, ◌==◌, nat_eq, list_eq, retain, any, if◌then◌else◌, Result, ok, err, take,
}

abbrev pub FilePath : Type 0
FilePath = List Text

pub data Node : Type 0 where
  file : Bytes → Node
  directory : Node

abbrev pub Entry : Type 0
Entry = FilePath × Node

-- `std::io::ErrorKind`, as far as the source tells kinds apart.
pub data IoError : Type 0 where
  missing other : IoError

-- Whether an operation works, or fails after a part of its bytes.
pub data Fault : Type 0 where
  works : Fault
  fails : ℕ → Fault

pub record Disk : Type 0 where
  pub entries : List Entry
  pub faults : List Fault

abbrev pub Io : Type 0 → Type 0 → Type 0
Io E A = Disk → Disk × Result E A

unfoldable pub lookup : List Entry → FilePath → Option Node
lookup [] q = none
lookup ((p, n) ∷ es) q = if p == q then some n else lookup es q

unfoldable pub remove : FilePath → List Entry → List Entry
remove p [] = []
remove p ((q, n) ∷ es) = let rest = remove p es in if q == p then rest else (q, n) ∷ rest

unfoldable pub add : FilePath → Node → List Entry → List Entry
unfolding remove
add p n es = (p, n) ∷ remove p es

-- What follows a path in another one that goes on from it.
unfoldable pub strip : FilePath → FilePath → Option FilePath
strip [] q = some q
strip (c ∷ p) [] = none
strip (c ∷ p) (d ∷ q) = if c == d then strip p q else none

unfoldable pub remove_tree : FilePath → List Entry → List Entry
unfolding strip
remove_tree p [] = []
remove_tree p ((q, n) ∷ es) =
    let rest = remove_tree p es in if is_some (strip p q) then rest else (q, n) ∷ rest

-- The first entries below a path are gone.
unfoldable pub remove_part : ℕ → FilePath → List Entry → List Entry
unfolding strip
remove_part zero p es = es
remove_part (suc k) p [] = []
remove_part (suc k) p ((q, n) ∷ es) =
    if is_some (strip p q) && not (p == q)
    then remove_part k p es
    else (q, n) ∷ remove_part (suc k) p es

abbrev pub moved_to : FilePath → FilePath → Option FilePath → FilePath
moved_to to q none = q
moved_to to q (some rest) = to ++ rest

unfoldable pub relocated : FilePath → FilePath → FilePath → FilePath
relocated from to q = moved_to to q (strip from q)

-- The tree at one path stands at another one.
unfoldable pub relocate : FilePath → FilePath → List Entry → List Entry
unfolding relocated
relocate from to [] = []
relocate from to ((q, n) ∷ es) = (relocated from to q, n) ∷ relocate from to es

abbrev pub acted :
    {A : Type 0} → List Fault → List Entry × Result IoError A → Disk × Result IoError A
acted rest (es, r) = (record { entries = es; faults = rest }, r)

abbrev pub faulty :
    {A : Type 0}
    → (List Entry → List Entry × Result IoError A)
    → (ℕ → List Entry → List Entry)
    → List Entry
    → List Fault
    → Disk × Result IoError A
faulty act part es [] = acted [] (act es)
faulty act part es (works ∷ rest) = acted rest (act es)
faulty act part es (fails n ∷ rest) = (record { entries = part n es; faults = rest }, err other)

-- One operation: it takes the next fault.
unfoldable pub primitive :
    {A : Type 0}
    → (List Entry → List Entry × Result IoError A)
    → (ℕ → List Entry → List Entry)
    → Io IoError A
primitive act part disk = faulty act part disk.entries disk.faults

abbrev pub unharmed : ℕ → List Entry → List Entry
unharmed n es = es

abbrev pub continue : {E A B : Type 0} → Disk × Result E A → (A → Io E B) → Disk × Result E B
continue (disk, ok a) k = k a disk
continue (disk, err e) k = (disk, err e)

infixl 5 ◌>>=◌ ◌>>◌
unfoldable pub ◌>>=◌ : {E A B : Type 0} → Io E A → (A → Io E B) → Io E B
◌>>=◌ m k disk = continue (m disk) k

abbrev pub ◌>>◌ : {E A B : Type 0} → Io E A → Io E B → Io E B
m >> k = m >>= λ _. k

abbrev pub done : {E A : Type 0} → A → Io E A
done a disk = (disk, ok a)

abbrev pub failed : {E A : Type 0} → E → Io E A
failed e disk = (disk, err e)

abbrev pub mapped : {E F A : Type 0} → (E → F) → Disk × Result E A → Disk × Result F A
mapped f (disk, ok a) = (disk, ok a)
mapped f (disk, err e) = (disk, err (f e))

-- `Result::map_err` of an operation.
unfoldable pub map_io : {E F A : Type 0} → (E → F) → Io E A → Io F A
map_io f m disk = mapped f (m disk)

-- The entries after each operation, and its result.
abbrev pub read_node : Option Node → Result IoError Bytes
read_node none = err missing
read_node (some (file bytes)) = ok bytes
read_node (some directory) = err other

abbrev pub read_act : FilePath → List Entry → List Entry × Result IoError Bytes
read_act p es = (es, read_node (lookup es p))

-- Something new at a path that is free.
abbrev pub created :
    FilePath → Node → Option Node → List Entry → List Entry × Result IoError (Unit {0})
created p new none es = (add p new es, ok tt)
created p new (some n) es = (es, err other)

abbrev pub create_act : FilePath → Node → List Entry → List Entry × Result IoError (Unit {0})
create_act p new es = created p new (lookup es p) es

abbrev pub created_all :
    FilePath → Option Node → List Entry → List Entry × Result IoError (Unit {0})
created_all p none es = (add p directory es, ok tt)
created_all p (some (file bytes)) es = (es, err other)
created_all p (some directory) es = (es, ok tt)

abbrev pub create_dir_all_act : FilePath → List Entry → List Entry × Result IoError (Unit {0})
create_dir_all_act p es = created_all p (lookup es p) es

abbrev pub write_act : FilePath → Bytes → List Entry → List Entry × Result IoError (Unit {0})
write_act p bytes es = (add p (file bytes) es, ok tt)

abbrev pub removed_file :
    FilePath → Option Node → List Entry → List Entry × Result IoError (Unit {0})
removed_file p none es = (es, err missing)
removed_file p (some (file bytes)) es = (remove p es, ok tt)
removed_file p (some directory) es = (es, err other)

abbrev pub remove_file_act : FilePath → List Entry → List Entry × Result IoError (Unit {0})
remove_file_act p es = removed_file p (lookup es p) es

abbrev pub removed_tree :
    FilePath → Option Node → List Entry → List Entry × Result IoError (Unit {0})
removed_tree p none es = (es, err missing)
removed_tree p (some (file bytes)) es = (es, err other)
removed_tree p (some directory) es = (remove_tree p es, ok tt)

abbrev pub remove_dir_all_act : FilePath → List Entry → List Entry × Result IoError (Unit {0})
remove_dir_all_act p es = removed_tree p (lookup es p) es

-- A file replaces a file; a directory is renamed to a path that is free.
abbrev pub rename_onto :
    Node → Option Node → FilePath → FilePath → List Entry → List Entry × Result IoError (Unit {0})
rename_onto (file bytes) none from to es = (add to (file bytes) (remove from es), ok tt)
rename_onto (file bytes) (some (file old)) from to es =
    (add to (file bytes) (remove from es), ok tt)
rename_onto (file bytes) (some directory) from to es = (es, err other)
rename_onto directory none from to es = (relocate from to (remove_tree to es), ok tt)
rename_onto directory (some n) from to es = (es, err other)

abbrev pub rename_from :
    Option Node → FilePath → FilePath → List Entry → List Entry × Result IoError (Unit {0})
rename_from none from to es = (es, err missing)
rename_from (some n) from to es = rename_onto n (lookup es to) from to es

abbrev pub rename_act : FilePath → FilePath → List Entry → List Entry × Result IoError (Unit {0})
rename_act from to es = rename_from (lookup es from) from to es

unfoldable pub read : FilePath → Io IoError Bytes
read p = primitive (read_act p) unharmed

unfoldable pub create : FilePath → Io IoError (Unit {0})
create p = primitive (create_act p (file [])) unharmed

unfoldable pub create_dir : FilePath → Io IoError (Unit {0})
create_dir p = primitive (create_act p directory) unharmed

unfoldable pub create_dir_all : FilePath → Io IoError (Unit {0})
create_dir_all p = primitive (create_dir_all_act p) unharmed

-- `write_all` on the file that was created: a failure leaves the first bytes.
unfoldable pub write_all : FilePath → Bytes → Io IoError (Unit {0})
write_all p bytes = primitive (write_act p bytes) (λ n es. add p (file (take n bytes)) es)

unfoldable pub remove_file : FilePath → Io IoError (Unit {0})
remove_file p = primitive (remove_file_act p) unharmed

-- A failure may have removed some of what stands below the directory.
unfoldable pub remove_dir_all : FilePath → Io IoError (Unit {0})
remove_dir_all p = primitive (remove_dir_all_act p) (λ n es. remove_part n p es)

unfoldable pub rename : FilePath → FilePath → Io IoError (Unit {0})
rename from to = primitive (rename_act from to) unharmed

-- `sync_all`, of a file or of a directory.
unfoldable pub sync : Io IoError (Unit {0})
sync = primitive (λ es. (es, ok tt)) unharmed

abbrev pub or_false : Disk × Result IoError Bool → Disk × Bool
or_false (disk, ok b) = (disk, b)
or_false (disk, err e) = (disk, false)

-- `Path::exists`: a failure says that nothing is there.
unfoldable pub exists : FilePath → Disk → Disk × Bool
exists p disk = or_false (primitive (λ es. (es, ok (is_some (lookup es p)))) unharmed disk)
