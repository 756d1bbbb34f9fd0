-- ===== src/Common/Text/Utf8.antt =====
-- A text is determined by its UTF-8 bytes.
use Prim.Native.Char.{code}
use Prim.Native.Nat.{ℕ}
use Prim.Native.String.{String}
use mathlib.Core.Path.{◌≡◌, refl, sym}
use mathlib.Core.List.{List, [], ◌++◌}
use native.Mathlib.Omega.{arith}
use text.Mathlib.TextEquality.{Char-path}
use nautilus_messaging_relay.Common.Text.{utf8, as_bytes, codes}

-- No encoding of a code point begins another.
utf8_prefix : (c d : ℕ) (r s : List ℕ) → utf8 c ++ r ≡ utf8 d ++ s → (c ≡ d) × (r ≡ s)
unfolding utf8
utf8_prefix c d r s e = ground arith

utf8_ne : (c : ℕ) (r : List ℕ) → utf8 c ++ r ≡ [] → ⊥
unfolding utf8
utf8_ne c r e = ground arith

pub as_bytes-injective : (s t : String) → as_bytes s ≡ as_bytes t → s ≡ t
unfolding as_bytes
as_bytes-injective String.[] String.[] e = refl
as_bytes-injective String.[] (String.◌∷◌ d t) e = absurd (utf8_ne (code d) (as_bytes t) (sym e))
as_bytes-injective (String.◌∷◌ c s) String.[] e = absurd (utf8_ne (code c) (as_bytes s) e)
as_bytes-injective (String.◌∷◌ c s) (String.◌∷◌ d t) e =
    let (same, rest) = utf8_prefix (code c) (code d) (as_bytes s) (as_bytes t) e in
    λ i. String.◌∷◌ (Char-path c d same i) (as_bytes-injective s t rest i)

-- A text is determined by its code points.
pub codes-injective : (s t : String) → codes s ≡ codes t → s ≡ t
codes-injective String.[] String.[] e = refl
codes-injective String.[] (String.◌∷◌ d t) e = absurd (cc)
codes-injective (String.◌∷◌ c s) String.[] e = absurd (cc)
codes-injective (String.◌∷◌ c s) (String.◌∷◌ d t) e =
    let same : code c ≡ code d = cc in
    let rest : codes s ≡ codes t = cc in
    λ i. String.◌∷◌ (Char-path c d same i) (codes-injective s t rest i)
