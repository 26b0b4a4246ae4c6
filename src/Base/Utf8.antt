-- ===== src/Base/Utf8.antt =====
-- The UTF-8 bytes of a text determine the text.
use Prim.Native.Nat.{ℕ}
use mathlib.Core.Path.{◌≡◌, refl, sym}
use mathlib.Core.Bool.{true, false}
use mathlib.Core.List.{[], ◌∷◌, ◌++◌}
use native.Mathlib.Omega.{arith}
use rss_incubator.Base.Encoding.{Text, Bytes, utf8_char, utf8}

char_split : (c d : ℕ) (x y : Bytes) → utf8_char c ++ x ≡ utf8_char d ++ y → (c ≡ d) × (x ≡ y)
unfolding utf8_char
char_split c d x y h = ground (arith, h)

char_some : (c : ℕ) (x : Bytes) → [] ≡ utf8_char c ++ x → false ≡ true
unfolding utf8_char
char_some c x h = ground (arith, h)

-- Two texts with the same bytes are the same.
pub utf8_injective : (s t : Text) → utf8 s ≡ utf8 t → s ≡ t
unfolding utf8
utf8_injective [] [] h = refl
utf8_injective [] (d ∷ t) h = ground (arith, char_some d (utf8 t) h)
utf8_injective (c ∷ s) [] h = ground (arith, char_some c (utf8 s) (sym h))
utf8_injective (c ∷ s) (d ∷ t) h =
    let (same, rest) = char_split c d (utf8 s) (utf8 t) h in
    ground (arith, same, utf8_injective s t rest)
