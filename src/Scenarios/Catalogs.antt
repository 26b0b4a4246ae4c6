-- ===== src/Scenarios/Catalogs.antt =====
-- A catalog with one artifact, for a command of the sample device.
use rss_incubator.Base.{
  ◌≡◌, refl, false, some, [], ◌∷◌, ◌++◌, Text, codes, utf8, utf8_char, ok, pos, nat_eq, list_eq,
}
use rss_incubator.Crates.{lower_hex, hex_digit, to_be_bytes}
use rss_incubator.Device.Types.{
  DeviceCommand, sha256_digest_try_from, sha256_digest_valid, is_hex_byte,
  credential_generation_try_from, device_identity_try_new,
}
use rss_incubator.Device.Artifact.{ResolvedArtifact}
use rss_incubator.Device.Catalog.{
  Tree, regular, folder, no_child, child, CatalogEntryV1, Sources, split_path, inner_components,
  components, leaves_root, validated_relative_path, find_child, read_open_catalog_file,
  open_component, walk, read_catalog_file, validate_binding, find_entry, digest_part,
  artifact_message, compute_artifact_digest_bytes, resolve_entry, resolve,
}
use rss_incubator.Device.Catalog.Laws.{IsResolved, resolve-IsResolved}
use rss_incubator.Scenarios.Samples.{sample_crates, sample_identity, sample_command, sample_digest}

abbrev printed : Text
printed =
    codes "sha256:"
    ++ lower_hex (sample_crates.sha256 (artifact_message (1 ∷ []) (2 ∷ []) (3 ∷ [])))

abbrev catalog_command : DeviceCommand
catalog_command = record sample_command { artifact_digest = printed }

abbrev catalog_tree : Tree
catalog_tree = folder (
    child (codes "a")
      (folder (
        child (codes "ca") (regular 420 (1 ∷ [])) (
          child (codes "cert") (regular 420 (2 ∷ []))
            (child (codes "key") (regular 384 (3 ∷ [])) no_child))))
      no_child)

abbrev catalog_entry : CatalogEntryV1
catalog_entry = record {
  artifact_id = codes "a1";
  artifact_digest = printed;
  tenant_id = 1;
  device_id = 2;
  credential_generation = 2;
  desired_generation = 2;
  fence_epoch = 1;
  intent_digest = sample_digest;
  policy_hash = sample_digest;
  ca_path = codes "a/ca";
  certificate_path = codes "a//cert";
  private_key_path = codes "a/key";
  revoked = false;
}

abbrev sample_sources : Sources
sample_sources = record {
  catalog_bytes = some (7 ∷ []);
  decode_catalog = λ bytes. some (record { schema_version = 1; artifacts = catalog_entry ∷ [] });
  tree = some catalog_tree;
  validate_credential_bytes = λ ca certificate key identity now.
      ok (record { ca = ca; certificate = certificate; private_key = key; expires_at = pos 9000 });
}

abbrev catalog_artifact : ResolvedArtifact
catalog_artifact = record {
  credential_generation = 2;
  credential = record {
    ca = 1 ∷ [];
    certificate = 2 ∷ [];
    private_key = 3 ∷ [];
    expires_at = pos 9000;
  };
  digest = printed;
}

resolves : resolve sample_sources sample_identity catalog_command 1000 ≡ ok catalog_artifact
unfolding resolve resolve_entry find_entry validate_binding read_catalog_file
    validated_relative_path components split_path inner_components leaves_root find_child
    open_component walk read_open_catalog_file compute_artifact_digest_bytes artifact_message
    digest_part sha256_digest_try_from sha256_digest_valid is_hex_byte
    credential_generation_try_from device_identity_try_new lower_hex hex_digit to_be_bytes utf8
    utf8_char
resolves = refl

resolve-IsResolved_example :
    IsResolved sample_sources sample_identity catalog_command 1000 catalog_artifact
resolve-IsResolved_example =
    resolve-IsResolved sample_sources sample_identity catalog_command 1000 catalog_artifact resolves
