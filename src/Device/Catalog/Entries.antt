-- ===== src/Device/Catalog/Entries.antt =====
-- What the checks of a catalog entry say: it is for the command, and its files are read.
use rss_incubator.Base.{
  ◌≡◌, refl, inl, inr, Bool, Option, none, some, Text, Bytes, arith, nat_eq, list_eq, eq_of_==, ok,
  Result-cases,
}
use rss_incubator.Device.Types.{DeviceIdentity, DeviceCommand}
use rss_incubator.Device.Catalog.{
  Tree, CatalogEntryV1, read_catalog_file, validate_binding, validated_relative_path, components,
}
use rss_incubator.Device.Catalog.Confined.{ReadFrom, read_catalog_file-ReadFrom}

-- An entry is for a command and a device.
pub record IsBound (identity : DeviceIdentity) (command : DeviceCommand) (entry : CatalogEntryV1)
    : Type 0 where
  pub tenant : entry.tenant_id ≡ identity.tenant
  pub device : entry.device_id ≡ identity.device
  pub generation : entry.desired_generation ≡ command.desired_generation
  pub fence : entry.fence_epoch ≡ command.fence_epoch
  pub intent : entry.intent_digest ≡ command.intent_digest
  pub policy : entry.policy_hash ≡ command.policy_hash

pub bound :
    (identity : DeviceIdentity) (command : DeviceCommand) (entry : CatalogEntryV1)
    → validate_binding identity command entry ≡ ok tt
    → IsBound identity command entry
unfolding validate_binding
bound identity command entry h = record {
  tenant = ground (arith, h);
  device = ground (arith, h);
  generation = ground (arith, h);
  fence = ground (arith, h);
  intent = eq_of_== entry.intent_digest command.intent_digest (ground (arith, h));
  policy = eq_of_== entry.policy_hash command.policy_hash (ground (arith, h));
}

-- The file of the catalog at a path, read below its directory.
pub record IsRead (tree : Option Tree) (path : Text) (private_key : Bool) (bytes : Bytes)
    : Type 0 where
  pub root : Tree
  pub is_root : tree ≡ some root
  pub source : ReadFrom root (components path) private_key bytes

pub read_catalog_file-IsRead :
    (tree : Option Tree) (path : Text) (private_key : Bool) (bytes : Bytes)
    → read_catalog_file tree path private_key ≡ ok bytes
    → IsRead tree path private_key bytes
unfolding read_catalog_file
read_catalog_file-IsRead none path private_key bytes h =
    elim (Result-cases (validated_relative_path path)) [
      | inl (cs, e) ↦ ground (arith, h, e)
      | inr (x, e) ↦ ground (arith, h, e)
    ]
read_catalog_file-IsRead (some root) path private_key bytes h = record {
  root = root;
  is_root = refl;
  source = read_catalog_file-ReadFrom root path private_key bytes h;
}
