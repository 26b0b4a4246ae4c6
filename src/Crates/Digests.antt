-- ===== src/Crates/Digests.antt =====
-- A text of the form `sha256:` and a printed digest is a valid digest reference.
use rss_incubator.Base.{
  ℕ, ◌<◌, ◌≡◌, refl, true, [], ◌∷◌, ◌++◌, arith, Bytes, All, all, length, codes, utf8, utf8_char,
  ◌*◌, ◌/◌, ◌%◌,
}
use rss_incubator.Crates.{Crates, DigestLaws, hex_digit, lower_hex}
use rss_incubator.Device.Types.{is_hex_byte, sha256_digest_valid}

hex_digit-is_hex : (n : ℕ) → n < 16 → (is_hex_byte (hex_digit n) ≡ true) × (hex_digit n < 128)
unfolding is_hex_byte hex_digit
hex_digit-is_hex n h = ground arith

utf8_char_ascii : (c : ℕ) → c < 128 → utf8_char c ≡ c ∷ []
unfolding utf8_char
utf8_char_ascii c h = ground arith

utf8-lower_hex : (bs : Bytes) → All (λ b. b < 256) bs → utf8 (lower_hex bs) ≡ lower_hex bs
unfolding utf8 lower_hex
utf8-lower_hex [] h = refl
utf8-lower_hex (b ∷ bs) h =
    let (_, high) = hex_digit-is_hex (b / 16) (omega arith) in
    let (_, low) = hex_digit-is_hex (b % 16) (omega arith) in
    rw (utf8_char_ascii _ high, utf8_char_ascii _ low, utf8-lower_hex bs h.1)

all-lower_hex : (bs : Bytes) → All (λ b. b < 256) bs → all is_hex_byte (lower_hex bs) ≡ true
unfolding lower_hex
all-lower_hex [] h = refl
all-lower_hex (b ∷ bs) h =
    let (high, _) = hex_digit-is_hex (b / 16) (omega arith) in
    let (low, _) = hex_digit-is_hex (b % 16) (omega arith) in rw (high, low) (all-lower_hex bs h.1)

length-lower_hex : (bs : Bytes) → length (lower_hex bs) ≡ 2 * length bs
unfolding lower_hex
length-lower_hex [] = refl
length-lower_hex (b ∷ bs) = omega (arith, length-lower_hex bs)

-- A text of the form sha256: and a printed digest is one that Sha256Digest::try_from accepts,
-- where a digest is 32 bytes.
pub printed_digest-valid :
    (crates : Crates)
    → DigestLaws crates
    → (m : Bytes) → sha256_digest_valid (codes "sha256:" ++ lower_hex (crates.sha256 m)) ≡ true
unfolding sha256_digest_valid utf8 utf8_char
printed_digest-valid crates laws m = rw (
  utf8-lower_hex (crates.sha256 m) (laws.digest_bytes m),
  all-lower_hex (crates.sha256 m) (laws.digest_bytes m),
  length-lower_hex (crates.sha256 m),
  laws.digest_length m,
)
