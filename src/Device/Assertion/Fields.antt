-- ===== src/Device/Assertion/Fields.antt =====
-- The signed fields of an assertion: a list of short fields can be read back from its bytes.
use rss_incubator.Base.{
  ℕ, Bool, ◌<◌, ◌≡◌, refl, ◌∙◌, sym, ap, inl, inr, true, false, List, [], ◌∷◌, ◌++◌, Bytes, ltb,
  arith, nat_eq, list_eq, Bool-cases, length, ok,
}
use rss_incubator.Device.Assertion.{to_be_bytes_u32, append_field, append_fields, flag}

-- The fields one after the other.
pub encoded : List Bytes → Bytes
unfolding to_be_bytes_u32
encoded [] = []
encoded (v ∷ vs) = to_be_bytes_u32 (length v) ++ (v ++ encoded vs)

abbrev pub AreShort : List Bytes → Type 0
AreShort [] = Unit
AreShort (v ∷ vs) = (length v < 4294967296) × AreShort vs

append_assoc : (a b c : Bytes) → (a ++ b) ++ c ≡ a ++ (b ++ c)
append_assoc [] b c = refl
append_assoc (x ∷ a) b c = ap (λ t. x ∷ t) (append_assoc a b c)

append_none : (a : Bytes) → a ++ [] ≡ a
append_none [] = refl
append_none (x ∷ a) = ap (λ t. x ∷ t) (append_none a)

append_step :
    (target v : Bytes) (vs : List Bytes)
    → ltb (length v) 4294967296 ≡ true
    → append_fields target (v ∷ vs) ≡ append_fields (target ++ (to_be_bytes_u32 (length v) ++ v)) vs
unfolding append_fields append_field
append_step target v vs e = rw e refl

pub append_fields-encoded :
    (target : Bytes) (vs : List Bytes) (b : Bytes)
    → append_fields target vs ≡ ok b
    → (b ≡ target ++ encoded vs) × AreShort vs
unfolding append_fields append_field encoded to_be_bytes_u32
append_fields-encoded target [] b h = (ground (arith, h, append_none target), tt)
append_fields-encoded target (v ∷ vs) b h = elim (Bool-cases (ltb (length v) 4294967296)) [
  | inr e ↦ ground (arith, h, e)
  | inl e ↦
      let (whole, short) =
        append_fields-encoded (target ++ (to_be_bytes_u32 (length v) ++ v)) vs b
          (sym (append_step target v vs e) ∙ h) in
      (
        whole
            ∙ append_assoc target (to_be_bytes_u32 (length v) ++ v) (encoded vs)
            ∙ ap (λ t. target ++ t) (append_assoc (to_be_bytes_u32 (length v)) v (encoded vs)),
        (ground (arith, e), short),
      )
]

pub cons_split : (a b : ℕ) (x y : Bytes) → (a ∷ x) ≡ (b ∷ y) → (a ≡ b) × (x ≡ y)
cons_split a b x y h = ground (arith, h)

length_split :
    (a b : ℕ) (x y : Bytes)
    → a < 4294967296
    → b < 4294967296
    → to_be_bytes_u32 a ++ x ≡ to_be_bytes_u32 b ++ y
    → (a ≡ b) × (x ≡ y)
unfolding to_be_bytes_u32
length_split a b x y s t h = ground (arith, h)

append_split : (v w x y : Bytes) → length v ≡ length w → v ++ x ≡ w ++ y → (v ≡ w) × (x ≡ y)
append_split [] [] x y l h = (refl, h)
append_split [] (b ∷ w) x y l h = ground (arith, l)
append_split (a ∷ v) [] x y l h = ground (arith, l)
append_split (a ∷ v) (b ∷ w) x y l h =
    let (head, tail) = cons_split a b (v ++ x) (w ++ y) h in
    let (same, rest) = append_split v w x y (ground (arith, l)) tail in
    (ground (arith, head, same), rest)

pub encoded_split :
    (vs ws : List Bytes) → AreShort vs → AreShort ws → encoded vs ≡ encoded ws → vs ≡ ws
unfolding encoded to_be_bytes_u32
encoded_split [] [] s t h = refl
encoded_split [] (w ∷ ws) s t h = cc
encoded_split (v ∷ vs) [] s t h = cc
encoded_split (v ∷ vs) (w ∷ ws) s t h =
    let (lengths, rest) =
      length_split (length v) (length w) (v ++ encoded vs) (w ++ encoded ws) s.0 t.0 h in
    let (same, more) = append_split v w (encoded vs) (encoded ws) lengths rest in
    ground (arith, same, encoded_split vs ws s.1 t.1 more)

pub prefix_split : (p x y : Bytes) → p ++ x ≡ p ++ y → x ≡ y
prefix_split [] x y h = h
prefix_split (a ∷ p) x y h = prefix_split p x y (cons_split a a (p ++ x) (p ++ y) h).1

pub head_split : (v w : Bytes) (vs ws : List Bytes) → (v ∷ vs) ≡ (w ∷ ws) → (v ≡ w) × (vs ≡ ws)
head_split v w vs ws h = ground (arith, h)

pub flag_injective : (x y : Bool) → flag x ≡ flag y → x ≡ y
flag_injective true true h = refl
flag_injective true false h = ground (arith, h)
flag_injective false true h = ground (arith, h)
flag_injective false false h = refl
