-- ===== src/Device/Catalog/Laws.antt =====
-- What an artifact that the catalog resolves is.
use rss_incubator.Base.{
  ℕ, ◌≡◌, ◌∙◌, sym, ap, true, false, not, ◌&&◌, some, Text, Bytes, arith, ◌==◌, nat_eq, list_eq,
  eq_of_==, ok, guard, ok_or, map_err, ◌>>=◌, >>=-eq-ok, >>-eq-ok, ok_or-eq-ok, map_err-eq-ok,
  ok-eq-ok, guard-eq-ok, ◌>>◌,
}
use rss_incubator.Crates.{Crates}
use rss_incubator.Device.Types.{
  DeviceIdentity, DeviceCommand, sha256_digest_try_from, credential_generation_try_from,
  device_identity_try_new,
}
use rss_incubator.Device.Artifact.{ValidatedCredential, CatalogError, ResolvedArtifact}
use rss_incubator.Device.Catalog.{
  CatalogEntryV1, CatalogV1, Sources, Found, read_catalog_file, validate_binding, find_entry,
  malformed_value, compute_artifact_digest_bytes, resolve_entry, resolve,
}
use rss_incubator.Device.Catalog.Entries.{IsBound, bound, IsRead, read_catalog_file-IsRead}

-- The files, the digest, the generation and the credential of an entry.
pub record IsTaken ⦃crates : Crates⦄ (sources : Sources) (identity : DeviceIdentity)
    (command : DeviceCommand) (now : ℕ) (entry : CatalogEntryV1) (artifact : ResolvedArtifact)
    : Type 0 where
  pub ca : Bytes
  pub certificate : Bytes
  pub private_key : Bytes
  pub ca_read : IsRead sources.tree entry.ca_path false ca
  pub certificate_read : IsRead sources.tree entry.certificate_path false certificate
  pub private_key_read : IsRead sources.tree entry.private_key_path true private_key
  pub digest : compute_artifact_digest_bytes ca certificate private_key ≡ ok command.artifact_digest
  pub declared : sha256_digest_try_from entry.artifact_digest ≡ ok command.artifact_digest
  pub generation : ℕ
  pub generated : credential_generation_try_from entry.credential_generation ≡ ok generation
  pub target : DeviceIdentity
  pub identified : device_identity_try_new identity.tenant identity.device generation ≡ ok target
  pub validated : ValidatedCredential
  pub validates :
      sources.validate_credential_bytes ca certificate private_key target now ≡ ok validated
  pub made :
      record {
        credential_generation = generation;
        credential = validated;
        digest = command.artifact_digest;
      }
      ≡ artifact

-- The artifact is the one of an entry of the catalog that is bound to the command and not revoked.
pub record IsResolved ⦃crates : Crates⦄ (sources : Sources) (identity : DeviceIdentity)
    (command : DeviceCommand) (now : ℕ) (artifact : ResolvedArtifact) : Type 0 where
  pub contents : Bytes
  pub catalog : CatalogV1
  pub entry : CatalogEntryV1
  pub stored : sources.catalog_bytes ≡ some contents
  pub decoded : sources.decode_catalog contents ≡ some catalog
  pub schema : (catalog.schema_version == 1) ≡ true
  pub found : find_entry catalog.artifacts command.artifact_id ≡ some entry
  pub binding : IsBound identity command entry
  pub live : not entry.revoked ≡ true
  pub taken : IsTaken sources identity command now entry artifact

module _ ⦃crates : Crates⦄ (sources : Sources) (identity : DeviceIdentity) (command : DeviceCommand)
    (now : ℕ) where
  -- After the files are read.
  abbrev finish : CatalogEntryV1 → Bytes → Bytes → Bytes → Text → Text → Found ResolvedArtifact
  finish entry ca certificate private_key computed declared = do
    generation ← malformed_value (credential_generation_try_from entry.credential_generation)
    target ←
        map_err (λ e. CatalogError.binding_mismatch)
          (device_identity_try_new identity.tenant identity.device generation)
    validated ←
        map_err CatalogError.credential
          (sources.validate_credential_bytes ca certificate private_key target now)
    ok (record { credential_generation = generation; credential = validated; digest = computed })

  abbrev digested : CatalogEntryV1 → Bytes → Bytes → Bytes → Text → Found ResolvedArtifact
  digested entry ca certificate private_key computed = do
    declared ← malformed_value (sha256_digest_try_from entry.artifact_digest)
    guard (computed == command.artifact_digest && computed == declared) CatalogError.digest_mismatch
    finish entry ca certificate private_key computed declared

  finish-IsTaken :
      (entry : CatalogEntryV1) (artifact : ResolvedArtifact) (ca certificate private_key : Bytes)
      (computed declared : Text)
      → IsRead sources.tree entry.ca_path false ca
      → IsRead sources.tree entry.certificate_path false certificate
      → IsRead sources.tree entry.private_key_path true private_key
      → compute_artifact_digest_bytes ca certificate private_key ≡ ok computed
      → sha256_digest_try_from entry.artifact_digest ≡ ok declared
      → computed ≡ command.artifact_digest
      → computed ≡ declared
      → finish entry ca certificate private_key computed declared ≡ ok artifact
      → IsTaken sources identity command now entry artifact
  finish-IsTaken entry artifact ca certificate private_key computed declared a b c d e p q h =
      let (generation, g, h1) =
        >>=-eq-ok (malformed_value (credential_generation_try_from entry.credential_generation)) _
          h in
      let (target, t, h2) =
        >>=-eq-ok
          (map_err (λ e. CatalogError.binding_mismatch)
            (device_identity_try_new identity.tenant identity.device generation))
          _ h1 in
      let (validated, v, h3) =
        >>=-eq-ok
          (map_err CatalogError.credential
            (sources.validate_credential_bytes ca certificate private_key target now))
          _ h2 in
      record {
        ca = ca;
        certificate = certificate;
        private_key = private_key;
        ca_read = a;
        certificate_read = b;
        private_key_read = c;
        digest = d ∙ ap ok p;
        declared = e ∙ ap ok (sym q ∙ p);
        generation = generation;
        generated =
            map_err-eq-ok (λ x. CatalogError.malformed)
              (credential_generation_try_from entry.credential_generation) g;
        target = target;
        identified =
            map_err-eq-ok (λ x. CatalogError.binding_mismatch)
              (device_identity_try_new identity.tenant identity.device generation) t;
        validated = validated;
        validates =
            map_err-eq-ok CatalogError.credential
              (sources.validate_credential_bytes ca certificate private_key target now) v;
        made =
            ap
              (λ x. record {
                credential_generation = generation;
                credential = validated;
                digest = x;
              })
              (sym p)
            ∙ ok-eq-ok {E = CatalogError}
                (record {
                  credential_generation = generation;
                  credential = validated;
                  digest = computed;
                })
                artifact h3;
      }

  digested-IsTaken :
      (entry : CatalogEntryV1) (artifact : ResolvedArtifact) (ca certificate private_key : Bytes)
      (computed : Text)
      → IsRead sources.tree entry.ca_path false ca
      → IsRead sources.tree entry.certificate_path false certificate
      → IsRead sources.tree entry.private_key_path true private_key
      → compute_artifact_digest_bytes ca certificate private_key ≡ ok computed
      → digested entry ca certificate private_key computed ≡ ok artifact
      → IsTaken sources identity command now entry artifact
  digested-IsTaken entry artifact ca certificate private_key computed a b c d h =
      let (declared, e, h1) =
        >>=-eq-ok (malformed_value (sha256_digest_try_from entry.artifact_digest)) _ h in
      let (g, h2) =
        >>-eq-ok
          (guard (computed == command.artifact_digest && computed == declared)
            CatalogError.digest_mismatch)
          _ h1 in
      let same =
        guard-eq-ok (computed == command.artifact_digest && computed == declared)
          CatalogError.digest_mismatch g in
      finish-IsTaken entry artifact ca certificate private_key computed declared a b c d
        (map_err-eq-ok (λ x. CatalogError.malformed) (sha256_digest_try_from entry.artifact_digest)
          e)
        (eq_of_== computed command.artifact_digest (ground (arith, same)))
        (eq_of_== computed declared (ground (arith, same))) h2

  resolve_entry-IsTaken :
      (entry : CatalogEntryV1) (artifact : ResolvedArtifact)
      → resolve_entry sources identity command now entry ≡ ok artifact
      → IsTaken sources identity command now entry artifact
  unfolding resolve_entry
  resolve_entry-IsTaken entry artifact h =
      let (ca, a, h1) = >>=-eq-ok (read_catalog_file sources.tree entry.ca_path false) _ h in
      let (certificate, b, h2) =
        >>=-eq-ok (read_catalog_file sources.tree entry.certificate_path false) _ h1 in
      let (private_key, c, h3) =
        >>=-eq-ok (read_catalog_file sources.tree entry.private_key_path true) _ h2 in
      let (computed, d, h4) =
        >>=-eq-ok (compute_artifact_digest_bytes ca certificate private_key)
          (digested entry ca certificate private_key) h3 in
      digested-IsTaken entry artifact ca certificate private_key computed
        (read_catalog_file-IsRead sources.tree entry.ca_path false ca a)
        (read_catalog_file-IsRead sources.tree entry.certificate_path false certificate b)
        (read_catalog_file-IsRead sources.tree entry.private_key_path true private_key c) d h4

  -- An artifact that the catalog resolves is the first entry with the artifact id of the
  -- command, bound to its device, generation, fence, intent and policy and not revoked; its
  -- three files are those at the paths of the entry for the CA, the certificate and the private
  -- key, which have names only, each below the directory of the catalog, through folders and
  -- through no link, and the file of the private key is for its owner only; the digest of the
  -- files is the one of the command and of the entry, and the credential was validated for the
  -- generation of the entry.
  pub resolve-IsResolved :
      (artifact : ResolvedArtifact)
      → resolve sources identity command now ≡ ok artifact
      → IsResolved sources identity command now artifact
  unfolding resolve
  resolve-IsResolved artifact h =
      let (contents, stored, h1) =
        >>=-eq-ok (ok_or sources.catalog_bytes CatalogError.unavailable) _ h in
      let (catalog, decoded, h2) =
        >>=-eq-ok (ok_or (sources.decode_catalog contents) CatalogError.malformed) _ h1 in
      let (schema, h3) =
        >>-eq-ok (guard (catalog.schema_version == 1) CatalogError.malformed) _ h2 in
      let (entry, found, h4) =
        >>=-eq-ok (ok_or (find_entry catalog.artifacts command.artifact_id) CatalogError.not_found)
          _ h3 in
      let (binding, h5) = >>-eq-ok (validate_binding identity command entry) _ h4 in
      let (live, h6) = >>-eq-ok (guard (not entry.revoked) CatalogError.revoked) _ h5 in
      record {
        contents = contents;
        catalog = catalog;
        entry = entry;
        stored = ok_or-eq-ok sources.catalog_bytes CatalogError.unavailable stored;
        decoded = ok_or-eq-ok (sources.decode_catalog contents) CatalogError.malformed decoded;
        schema = guard-eq-ok (catalog.schema_version == 1) CatalogError.malformed schema;
        found =
            ok_or-eq-ok (find_entry catalog.artifacts command.artifact_id) CatalogError.not_found
              found;
        binding = bound identity command entry binding;
        live = guard-eq-ok (not entry.revoked) CatalogError.revoked live;
        taken = resolve_entry-IsTaken entry artifact h6;
      }
