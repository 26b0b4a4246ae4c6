-- ===== src/Crates.antt =====
-- The third-party crates that the modelled code calls, as an interface: `sha2`, `uuid`. A UUID is
-- its 128-bit number. What the proofs rely on is stated as laws beside it.
pub mod Digests
use rss_incubator.Base.{
  ℕ, ◌+◌, ◌-◌, ◌/◌, ◌%◌, ◌^◌, ◌<◌, ◌≡◌, [], ◌∷◌, Text, Bytes, length, All, ltb, if◌then◌else◌,
}

pub record Crates : Type 0 where
  -- `Sha256::digest`.
  pub sha256 : Bytes → Bytes
  -- `Uuid::hyphenated`, which is also its `Display`.
  pub hyphenated : ℕ → Text
  -- `Uuid::as_bytes`.
  pub uuid_bytes : ℕ → Bytes

-- A SHA-256 digest has 32 bytes.
pub record DigestLaws (crates : Crates) : Type 0 where
  pub digest_length : (m : Bytes) → length (crates.sha256 m) ≡ 32
  pub digest_bytes : (m : Bytes) → All (λ b. b < 256) (crates.sha256 m)

-- `format!("{:x}", digest)`: two lowercase digits for each byte.
unfoldable pub hex_digit : ℕ → ℕ
hex_digit n = if ltb n 10 then b'0' + n else b'a' + n - 10

unfoldable pub lower_hex : Bytes → Text
unfolding hex_digit
lower_hex [] = []
lower_hex (b ∷ bs) = hex_digit (b / 16) ∷ hex_digit (b % 16) ∷ lower_hex bs

-- `u64::to_be_bytes`.
unfoldable pub to_be_bytes : ℕ → Bytes
to_be_bytes n =
    (n / 256 ^ 7 % 256)
    ∷ (n / 256 ^ 6 % 256)
    ∷ (n / 256 ^ 5 % 256)
    ∷ (n / 256 ^ 4 % 256)
    ∷ (n / 256 ^ 3 % 256)
    ∷ (n / 256 ^ 2 % 256)
    ∷ (n / 256 % 256)
    ∷ (n % 256)
    ∷ []
