-- ===== src/Rotation/References.antt =====
-- The opaque references and the positive numbers of crates/rotation-model/src/lib.rs. A reference is
-- its text; a positive number is a number that was checked.
use rss_incubator.Base.{
  ℕ, ◌≡◌, refl, Bool, true, false, not, ◌&&◌, ◌||◌, [], ◌∷◌, Text, arith, ◌==◌, nat_eq, leb,
  if◌then◌else◌, is_control, any, all, Result, ok, err, is_ok, ◌>>◌, Bool-cases, inl, inr,
}

pub data RotationModelError : Type 0 where
  empty_reference control_character : Text → RotationModelError
  zero_generation zero_fence_epoch zero_credential_revision invalid_policy : RotationModelError

-- `char::is_whitespace`: the Unicode property White_Space.
unfoldable pub is_whitespace : ℕ → Bool
is_whitespace c =
    (leb 0x9 c && leb c 0xd)
    || ((c == 0x20 || (c == 0x85 || (c == 0xa0 || c == 0x1680)))
        || ((leb 0x2000 c && leb c 0x200a)
            || (c == 0x2028 || (c == 0x2029 || (c == 0x202f || (c == 0x205f || c == 0x3000))))))

-- `str::trim`, from the front and then from the back.
unfoldable pub trim_start : Text → Text
trim_start [] = []
trim_start (c ∷ s) = if is_whitespace c then trim_start s else c ∷ s

unfoldable pub is_nil : Text → Bool
is_nil [] = true
is_nil (c ∷ s) = false

unfoldable pub trim_end : Text → Text
trim_end [] = []
trim_end (c ∷ s) = let rest = trim_end s in if is_whitespace c && is_nil rest then [] else c ∷ rest

unfoldable pub validate_reference : Text → Text → Result RotationModelError (Unit {0})
validate_reference value kind =
    if is_nil (trim_end (trim_start value))
    then err (empty_reference kind)
    else if any is_control value
    then err (control_character kind)
    else ok tt

-- `TryFrom` of the opaque references.
unfoldable pub reference_try_from : Text → Text → Result RotationModelError Text
reference_try_from kind value = do validate_reference value kind; ok value

unfoldable pub generation_try_from : ℕ → Result RotationModelError ℕ
generation_try_from value = if value == 0 then err zero_generation else ok value

unfoldable pub fence_epoch_try_from : ℕ → Result RotationModelError ℕ
fence_epoch_try_from value = if value == 0 then err zero_fence_epoch else ok value

unfoldable pub credential_revision_try_from : ℕ → Result RotationModelError ℕ
credential_revision_try_from value = if value == 0 then err zero_credential_revision else ok value

kept_end : (c : ℕ) (s : Text) → is_whitespace c ≡ false → is_nil (trim_end (c ∷ s)) ≡ false
unfolding trim_end is_nil
kept_end c s h = rw h refl

trim-is_nil : (s : Text) → is_nil (trim_end (trim_start s)) ≡ all is_whitespace s
unfolding trim_start trim_end is_nil
trim-is_nil [] = refl
trim-is_nil (c ∷ s) = elim (Bool-cases (is_whitespace c)) [
  | inl e ↦ rw (e, trim_start) (trim-is_nil s)
  | inr e ↦ rw (e, trim_start) (kept_end c s e)
]

-- A reference is accepted exactly when some character is not white space and none is a control
-- character.
pub reference_try_from_lem :
    (kind value : Text)
    → is_ok (reference_try_from kind value)
      ≡ not (all is_whitespace value) && not (any is_control value)
unfolding reference_try_from validate_reference
reference_try_from_lem kind value = ground (arith, trim-is_nil value)
