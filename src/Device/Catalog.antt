-- ===== src/Device/Catalog.antt =====
-- crates/reference-device-agent-core/src/catalog.rs: the artifact that a command names, read from a
-- catalog below one directory. The decoder of the catalog and the X.509 checks are given.
pub mod Confined
pub mod Entries
pub mod Laws
use rss_incubator.Base.{
  ℕ, ◌+◌, ◌%◌, Bool, true, false, not, ◌&&◌, ◌||◌, Option, none, some, List, [], ◌∷◌, ◌++◌, Text,
  Bytes, ltb, ◌==◌, nat_eq, list_eq, codes, utf8, length, any, Result, ok, err, ◌>>=◌, ◌>>◌, guard,
  ok_or, map_err, if◌then◌else◌, u64_max, leb,
}
use rss_incubator.Crates.{Crates, lower_hex, to_be_bytes}
use rss_incubator.Device.Types.{
  DeviceIdentity, DeviceCommand, sha256_digest_try_from, credential_generation_try_from,
  device_identity_try_new,
}
use rss_incubator.Device.Artifact.{
  ValidatedCredential, CredentialError, CatalogError, ResolvedArtifact, insecure_private_key,
}

-- `std::path::Component` on Unix.
pub data Component : Type 0 where
  root_dir cur_dir parent_dir : Component
  normal : Text → Component

-- A directory tree without following symbolic links; a file has its permission bits. A file may fail
-- when it is read, and an entry when it is opened: the flag says whether that is a directory.
mutual
  pub data Tree : Type 0 where
    regular : ℕ → Bytes → Tree
    unreadable : ℕ → Tree
    closed : Bool → Tree
    symlink : Tree
    folder : Children → Tree

  pub data Children : Type 0 where
    no_child : Children
    child : Text → Tree → Children → Children

pub record CatalogEntryV1 : Type 0 where
  pub artifact_id : Text
  pub artifact_digest : Text
  pub tenant_id : ℕ
  pub device_id : ℕ
  pub credential_generation : ℕ
  pub desired_generation : ℕ
  pub fence_epoch : ℕ
  pub intent_digest : Text
  pub policy_hash : Text
  pub ca_path : Text
  pub certificate_path : Text
  pub private_key_path : Text
  pub revoked : Bool

pub record CatalogV1 : Type 0 where
  pub schema_version : ℕ
  pub artifacts : List CatalogEntryV1

-- The catalog file, its decoder, its directory, and `validate_credential_bytes` of material.rs.
pub record Sources : Type 0 where
  pub catalog_bytes : Option Bytes
  pub decode_catalog : Bytes → Option CatalogV1
  pub tree : Option Tree
  pub validate_credential_bytes :
      Bytes → Bytes → Bytes → DeviceIdentity → ℕ → Result CredentialError ValidatedCredential

abbrev pub Found : Type 0 → Type 0
Found A = Result CatalogError A

-- `Path::components`: separators that repeat, a trailing one and a `.` that is not the first are left
-- out. The name before the rest is gathered backwards.
abbrev component_of : Text → Component
component_of name =
    if name == codes "." then cur_dir else if name == codes ".." then parent_dir else normal name

unfoldable pub split_path : Text → Text → List Text
split_path name [] = name ∷ []
split_path name (c ∷ cs) =
    let rest = split_path [] cs in
    let longer = split_path (name ++ c ∷ []) cs in if c == b'/' then name ∷ rest else longer

unfoldable pub inner_components : List Text → List Component
inner_components [] = []
inner_components (name ∷ names) =
    let rest = inner_components names in
    if name == [] || name == codes "." then rest else component_of name ∷ rest

abbrev is_absolute : Text → Bool
is_absolute [] = false
is_absolute (c ∷ cs) = c == b'/'

abbrev first_component : List Text → List Component
first_component [] = []
first_component (name ∷ names) =
    if name == []
    then root_dir ∷ inner_components names
    else component_of name ∷ inner_components names

unfoldable pub components : Text → List Component
unfolding split_path inner_components
components [] = []
components (c ∷ cs) = first_component (split_path [] (c ∷ cs))

unfoldable pub leaves_root : Component → Bool
leaves_root parent_dir = true
leaves_root root_dir = true
leaves_root cur_dir = false
leaves_root (normal name) = false

abbrev is_nil : Text → Bool
is_nil [] = true
is_nil (c ∷ cs) = false

unfoldable pub validated_relative_path : Text → Found (List Component)
validated_relative_path raw =
    if is_nil raw || (is_absolute raw || any leaves_root (components raw))
    then err CatalogError.malformed
    else ok (components raw)

unfoldable pub find_child : Children → Text → Option Tree
find_child no_child name = none
find_child (child n t rest) name = if n == name then some t else find_child rest name

-- `read_open_catalog_file`: a private key has no permission for others.
unfoldable pub read_open_catalog_file : Tree → Bool → Found Bytes
read_open_catalog_file (regular mode bytes) private_key =
    if private_key && not (mode % 64 == 0)
    then err (CatalogError.credential insecure_private_key)
    else ok bytes
read_open_catalog_file (unreadable mode) private_key =
    if private_key && not (mode % 64 == 0)
    then err (CatalogError.credential insecure_private_key)
    else err CatalogError.unavailable
read_open_catalog_file (closed inner) private_key = err CatalogError.unavailable
read_open_catalog_file symlink private_key = err CatalogError.malformed
read_open_catalog_file (folder inner) private_key = err CatalogError.malformed

-- `openat` with `NOFOLLOW`, and with `DIRECTORY` before the last component.
abbrev pub opened : Bool → Option Tree → Found Tree
opened final none = err CatalogError.unavailable
opened final (some symlink) = err CatalogError.malformed
opened final (some (folder inner)) = ok (folder inner)
opened true (some (regular mode bytes)) = ok (regular mode bytes)
opened false (some (regular mode bytes)) = err CatalogError.malformed
opened true (some (unreadable mode)) = ok (unreadable mode)
opened false (some (unreadable mode)) = err CatalogError.malformed
opened true (some (closed inner)) = err CatalogError.unavailable
opened false (some (closed true)) = err CatalogError.unavailable
opened false (some (closed false)) = err CatalogError.malformed

-- One turn of the loop over the components.
unfoldable pub open_component : Tree → Component → Bool → Found Tree
open_component tree root_dir final = err CatalogError.malformed
open_component tree cur_dir final = err CatalogError.malformed
open_component tree parent_dir final = err CatalogError.malformed
open_component (folder inner) (normal name) final = opened final (find_child inner name)
open_component (regular mode bytes) (normal name) final = err CatalogError.malformed
open_component (unreadable mode) (normal name) final = err CatalogError.malformed
open_component (closed inner) (normal name) final = err CatalogError.malformed
open_component symlink (normal name) final = err CatalogError.malformed

-- Whether a component is the last one.
abbrev pub is_end : List Component → Bool
is_end [] = true
is_end (c ∷ cs) = false

unfoldable pub walk : Tree → List Component → Found Tree
unfolding open_component
walk tree [] = ok tree
walk tree (c ∷ cs) = open_component tree c (is_end cs) >>= λ next. walk next cs

unfoldable pub read_catalog_file : Option Tree → Text → Bool → Found Bytes
read_catalog_file root raw private_key = do
  relative ← validated_relative_path raw
  tree ← ok_or root CatalogError.unavailable
  last ← walk tree relative
  read_open_catalog_file last private_key

unfoldable pub validate_binding : DeviceIdentity → DeviceCommand → CatalogEntryV1 → Found (Unit {0})
validate_binding identity command entry =
    guard
      (entry.tenant_id == identity.tenant
        && (entry.device_id == identity.device
            && (entry.desired_generation == command.desired_generation
                && (entry.fence_epoch == command.fence_epoch
                    && (entry.intent_digest == command.intent_digest
                        && entry.policy_hash == command.policy_hash)))))
      CatalogError.binding_mismatch

-- `find` by the artifact id.
unfoldable pub find_entry : List CatalogEntryV1 → Text → Option CatalogEntryV1
find_entry [] id = none
find_entry (e ∷ es) id = if e.artifact_id == id then some e else find_entry es id

-- `u64::try_from(len).unwrap_or(u64::MAX)`, then the bytes.
unfoldable pub digest_part : Bytes → Bytes
digest_part bytes =
    to_be_bytes (if leb (length bytes) u64_max then length bytes else u64_max) ++ bytes

abbrev malformed_value : {E A : Type 0} → Result E A → Found A
malformed_value r = map_err (λ e. CatalogError.malformed) r

unfoldable pub artifact_message : Bytes → Bytes → Bytes → Bytes
artifact_message ca certificate private_key =
    utf8 (codes "rss.reference-device-agent.artifact.v1")
    ++ (0 ∷ [])
    ++ (digest_part ca ++ (digest_part certificate ++ digest_part private_key))

module _ ⦃crates : Crates⦄ where
  unfoldable pub compute_artifact_digest_bytes : Bytes → Bytes → Bytes → Found Text
  compute_artifact_digest_bytes ca certificate private_key = malformed_value (
      sha256_digest_try_from (
        codes "sha256:" ++ lower_hex (crates.sha256 (artifact_message ca certificate private_key))))

  -- What follows the checks of the entry.
  unfoldable pub resolve_entry :
      Sources → DeviceIdentity → DeviceCommand → ℕ → CatalogEntryV1 → Found ResolvedArtifact
  resolve_entry sources identity command now entry = do
    ca ← read_catalog_file sources.tree entry.ca_path false
    certificate ← read_catalog_file sources.tree entry.certificate_path false
    private_key ← read_catalog_file sources.tree entry.private_key_path true
    computed ← compute_artifact_digest_bytes ca certificate private_key
    declared ← malformed_value (sha256_digest_try_from entry.artifact_digest)
    guard (computed == command.artifact_digest && computed == declared) CatalogError.digest_mismatch
    generation ← malformed_value (credential_generation_try_from entry.credential_generation)
    target ←
        map_err (λ e. CatalogError.binding_mismatch)
          (device_identity_try_new identity.tenant identity.device generation)
    validated ←
        map_err CatalogError.credential
          (sources.validate_credential_bytes ca certificate private_key target now)
    ok (record { credential_generation = generation; credential = validated; digest = computed })

  unfoldable pub resolve : Sources → DeviceIdentity → DeviceCommand → ℕ → Found ResolvedArtifact
  resolve sources identity command now = do
    bytes ← ok_or sources.catalog_bytes CatalogError.unavailable
    catalog ← ok_or (sources.decode_catalog bytes) CatalogError.malformed
    guard (catalog.schema_version == 1) CatalogError.malformed
    entry ← ok_or (find_entry catalog.artifacts command.artifact_id) CatalogError.not_found
    validate_binding identity command entry
    guard (not entry.revoked) CatalogError.revoked
    resolve_entry sources identity command now entry
