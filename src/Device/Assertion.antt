-- ===== src/Device/Assertion.antt =====
-- crates/reference-device-agent-core/src/assertion.rs: the broker's assertion on a command frame. The
-- base64 decoder and the signature check of `ring` are given.
pub mod Fields
pub mod Laws
use rss_incubator.Base.{
  ℕ, ◌/◌, ◌%◌, ◌^◌, Bool, true, false, not, ◌||◌, Option, none, some, is_some, List, [], ◌∷◌, ◌++◌,
  Text, Bytes, ltb, ◌==◌, nat_eq, list_eq, codes, utf8, starts_with, length, Result, ok, err, ◌>>=◌,
  ◌>>◌, guard, ok_or, if◌then◌else◌,
}
use rss_incubator.Crates.{Crates}
use rss_incubator.Device.Types.{DeviceIdentity, principal_urn}

-- `URL_SAFE_NO_PAD` and Ed25519 of `ring`: a public key, a message, a signature.
pub record Signatures : Type 0 where
  pub decode : Text → Option Bytes
  pub verify_signature : Bytes → Bytes → Bytes → Bool

abbrev pub assertion_domain : Bytes
assertion_domain = utf8 (codes "rss.mqtt.authn.v1") ++ 0 ∷ []

abbrev pub reserved_prefix : Text
reserved_prefix = codes "rss.authn.v1."

abbrev pub version_key : Text
version_key = codes "rss.authn.v1.version"

abbrev pub principal_key : Text
principal_key = codes "rss.authn.v1.principal"

abbrev pub signature_key : Text
signature_key = codes "rss.authn.v1.signature"

abbrev pub version : Text
version = codes "1"

pub data BrokerAssertionError : Type 0 where
  assertion_rejected : BrokerAssertionError

pub record BrokerPublishFrame : Type 0 where
  pub topic : Text
  pub payload : Bytes
  pub correlation : Bytes
  pub qos : ℕ
  pub retain : Bool
  pub properties : List (Text × Text)

pub record AssertionProperties : Type 0 where
  pub principal : Text
  pub signature : Text

-- The three slots of the loop.
pub record Slots : Type 0 where
  pub version_slot : Option Text
  pub principal_slot : Option Text
  pub signature_slot : Option Text

abbrev pub Checked : Type 0 → Type 0
Checked A = Result BrokerAssertionError A

-- `slot.replace(value).is_some()` is an error.
abbrev pub fill : Option Text → Text → (Option Text → Slots) → Checked Slots
fill none value put = ok (put (some value))
fill (some old) value put = err assertion_rejected

-- One turn of the loop over the properties.
unfoldable pub take_property : Slots → Text × Text → Checked Slots
take_property slots (key, value) =
    if not (starts_with key reserved_prefix)
    then ok slots
    else if key == version_key
    then fill slots.version_slot value (λ v. record slots { version_slot = v })
    else if key == principal_key
    then fill slots.principal_slot value (λ v. record slots { principal_slot = v })
    else if key == signature_key
    then fill slots.signature_slot value (λ v. record slots { signature_slot = v })
    else err assertion_rejected

unfoldable pub take_properties : Slots → List (Text × Text) → Checked Slots
unfolding take_property
take_properties slots [] = ok slots
take_properties slots (p ∷ ps) = take_property slots p >>= λ next. take_properties next ps

abbrev pub has_version : Option Text → Bool
has_version none = false
has_version (some v) = v == version

unfoldable pub assertion_properties : List (Text × Text) → Checked AssertionProperties
assertion_properties properties = do
  slots ←
      take_properties (record { version_slot = none; principal_slot = none; signature_slot = none })
        properties
  guard (has_version slots.version_slot) assertion_rejected
  principal ← ok_or slots.principal_slot assertion_rejected
  signature ← ok_or slots.signature_slot assertion_rejected
  ok (record { principal = principal; signature = signature })

-- `u32::to_be_bytes`.
unfoldable pub to_be_bytes_u32 : ℕ → Bytes
to_be_bytes_u32 n = (n / 16777216 % 256) ∷ (n / 65536 % 256) ∷ (n / 256 % 256) ∷ (n % 256) ∷ []

-- The length as a `u32`, then the value.
unfoldable pub append_field : Bytes → Bytes → Checked Bytes
append_field target value =
    if ltb (length value) 4294967296
    then ok (target ++ (to_be_bytes_u32 (length value) ++ value))
    else err assertion_rejected

abbrev pub flag : Bool → ℕ
flag true = 1
flag false = 0

unfoldable pub append_fields : Bytes → List Bytes → Checked Bytes
append_fields target [] = ok target
append_fields target (v ∷ vs) = append_field target v >>= λ next. append_fields next vs

-- The fields of the signed bytes in their order.
unfoldable pub signed_fields : ⦃crates : Crates⦄ → Text → BrokerPublishFrame → List Bytes
signed_fields ⦃crates⦄ principal frame =
    utf8 version
    ∷ utf8 principal
    ∷ utf8 frame.topic
    ∷ frame.correlation
    ∷ crates.sha256 frame.payload
    ∷ (frame.qos ∷ [])
    ∷ (flag frame.retain ∷ [])
    ∷ []

unfoldable pub canonical_bytes : ⦃crates : Crates⦄ → Text → BrokerPublishFrame → Checked Bytes
canonical_bytes principal frame = append_fields assertion_domain (signed_fields principal frame)

module _ ⦃crates : Crates⦄ (signatures : Signatures) where
  unfoldable pub verify_assertion : Bytes → DeviceIdentity → BrokerPublishFrame → Checked (Unit {0})
  verify_assertion public_key identity frame = do
    guard (frame.qos == 1) assertion_rejected
    guard (not frame.retain) assertion_rejected
    assertion ← assertion_properties frame.properties
    guard (assertion.principal == principal_urn identity) assertion_rejected
    signature ← ok_or (signatures.decode assertion.signature) assertion_rejected
    guard (length signature == 64) assertion_rejected
    signed ← canonical_bytes assertion.principal frame
    guard (signatures.verify_signature public_key signed signature) assertion_rejected
