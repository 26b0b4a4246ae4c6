-- ===== src/Device/StateStore/Installed.antt =====
-- What stands at a credential revision after `install_revision` of state.rs, whatever fails.
use rss_incubator.Base.{
  ◌≡◌, refl, ◌∙◌, ap, Bool, true, false, Option, none, some, List, [], ◌∷◌, Bytes, nat_eq, list_eq,
  eq_of_==, codes,
}
use rss_incubator.Device.Artifact.{ValidatedCredential}
use rss_incubator.Device.Disk.{
  FilePath, Node, file, directory, Entry, Fault, works, fails, Disk, lookup, primitive, acted,
  faulty, unharmed, read, read_act, read_node,
}
use rss_incubator.Device.Disk.Ends.{Ends, Ending}
use rss_incubator.Device.State.Stored.{StoreError}
use rss_incubator.Device.StateStore.{
  within, matched, and_then, agreed, file_matches, verify_existing_revision,
}
use rss_incubator.Device.StateStore.Persisting.{At}

-- A test keeps `P`, and when it says yes then `C` holds.
abbrev Tested : (List Entry → Type 0) → (List Entry → Type 0) → Disk × Bool → Type 0
Tested P C r = P r.0.entries × (r.1 ≡ true → C r.0.entries)

module _ (P : List Entry → Type 0) where
  read-Tested :
      (path : FilePath) (bytes : Bytes) (fs : List Fault) (es : List Entry) (o : Option Node)
      → lookup es path ≡ o
      → P es
      → Tested P (At path (some (file bytes))) (matched bytes (acted fs (es, read_node o)))
  read-Tested path bytes fs es none e h = (h, λ y. cc)
  read-Tested path bytes fs es (some directory) e h = (h, λ y. cc)
  read-Tested path bytes fs es (some (file found)) e h =
      (h, λ y. e ∙ ap (λ b. some (file b)) (eq_of_== found bytes y))

  matched-Tested :
      (path : FilePath) (bytes : Bytes) (fs : List Fault) (es : List Entry)
      → P es
      → Tested P
          (At path (some (file bytes)))
          (matched bytes (faulty (read_act path) unharmed es fs))
  matched-Tested path bytes [] es h = read-Tested path bytes [] es (lookup es path) refl h
  matched-Tested path bytes (works ∷ fs) es h = read-Tested path bytes fs es (lookup es path) refl h
  matched-Tested path bytes (fails n ∷ fs) es h = (h, λ y. cc)

  file_matches-Tested :
      (path : FilePath) (bytes : Bytes) (disk : Disk)
      → P disk.entries
      → Tested P (At path (some (file bytes))) (file_matches path bytes disk)
  unfolding file_matches read primitive
  file_matches-Tested path bytes disk h = matched-Tested path bytes disk.faults disk.entries h

  and_then-Tested :
      (C D : List Entry → Type 0) (r : Disk × Bool) (next : Disk → Disk × Bool)
      → Tested P C r
      → ((disk : Disk) → P disk.entries → C disk.entries → Tested P D (next disk))
      → Tested P D (and_then r next)
  and_then-Tested C D (disk, true) next h k = k disk h.0 (h.1 refl)
  and_then-Tested C D (disk, false) next h k = (h.0, λ y. cc)

  agreed-Ending :
      (C : List Entry → Type 0) (r : Disk × Bool)
      → Tested P C r
      → Ending {E = StoreError} {A = Unit {0}} (λ a es. P es × C es) (λ e. P) (agreed r)
  agreed-Ending C (disk, true) h = (h.0, h.1 refl)
  agreed-Ending C (disk, false) h = h.0

abbrev HasCa : FilePath → ValidatedCredential → List Entry → Type 0
HasCa root credential = At (within root (codes "ca.pem")) (some (file credential.ca))

abbrev HasCertificate : FilePath → ValidatedCredential → List Entry → Type 0
HasCertificate root credential =
    At (within root (codes "certificate.pem")) (some (file credential.certificate))

abbrev HasKey : FilePath → ValidatedCredential → List Entry → Type 0
HasKey root credential =
    At (within root (codes "private-key.pem")) (some (file credential.private_key))

-- The three files of a credential stand below a directory.
abbrev pub Holds : FilePath → ValidatedCredential → List Entry → Type 0
Holds root credential es =
    HasCa root credential es × HasCertificate root credential es × HasKey root credential es

weaken-Tested :
    (P Q C D : List Entry → Type 0) (r : Disk × Bool)
    → ((es : List Entry) → P es → Q es)
    → ((es : List Entry) → P es → C es → D es)
    → Tested P C r
    → Tested Q D r
weaken-Tested P Q C D r f g h = (f r.0.entries h.0, λ y. g r.0.entries h.0 (h.1 y))

module _ (P : List Entry → Type 0) (root : FilePath) (credential : ValidatedCredential) where
  abbrev Two : List Entry → Type 0
  Two es = HasCa root credential es × HasCertificate root credential es

  certificate-Tested :
      (disk : Disk)
      → P disk.entries
      → HasCa root credential disk.entries
      → Tested P Two
          (file_matches (within root (codes "certificate.pem")) credential.certificate disk)
  certificate-Tested disk p c =
      weaken-Tested (λ es. P es × HasCa root credential es) P (HasCertificate root credential) Two
        (file_matches (within root (codes "certificate.pem")) credential.certificate disk)
        (λ es x. x.0) (λ es x y. (x.1, y))
        (file_matches-Tested (λ es. P es × HasCa root credential es)
          (within root (codes "certificate.pem")) credential.certificate disk (p, c))

  key-Tested :
      (disk : Disk)
      → P disk.entries
      → Two disk.entries
      → Tested P
          (Holds root credential)
          (file_matches (within root (codes "private-key.pem")) credential.private_key disk)
  key-Tested disk p c =
      weaken-Tested (λ es. P es × Two es) P (HasKey root credential) (Holds root credential)
        (file_matches (within root (codes "private-key.pem")) credential.private_key disk)
        (λ es x. x.0) (λ es x y. (x.1.0, x.1.1, y))
        (file_matches-Tested (λ es. P es × Two es) (within root (codes "private-key.pem"))
          credential.private_key disk (p, c))

  pub verify_existing_revision-Ends :
      Ends P
        (verify_existing_revision root credential)
        (λ a es. P es × Holds root credential es)
        (λ e. P)
  unfolding verify_existing_revision
  verify_existing_revision-Ends = record {
    at = λ disk h. agreed-Ending P (Holds root credential) _ (
        and_then-Tested P Two (Holds root credential) _ _
          (and_then-Tested P (HasCa root credential) Two _ _
            (file_matches-Tested P (within root (codes "ca.pem")) credential.ca disk h)
            certificate-Tested)
          key-Tested);
  }
