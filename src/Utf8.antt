-- ===== src/Utf8.antt =====
-- `str.encode()`: the UTF-8 bytes of a text. Distinct texts have distinct bytes, which the id set of
-- _history.py and the digests of _digest.py rely on.
use Prim.Native.Char.{code}
use Prim.Native.String.{String}
use text.Mathlib.TextEquality.{Char-path}
use jharness.Common.{
  ℕ, ◌+◌, ◌/◌, ◌%◌, ◌≡◌, refl, sym, ap₂, List, [], ◌∷◌, ◌++◌, ltb, if◌then◌else◌, arith,
}

unfoldable pub encode_char : ℕ → List ℕ
encode_char c =
    if ltb c 128
    then c ∷ []
    else (if ltb c 2048
        then (192 + c / 64) ∷ (128 + c % 64) ∷ []
        else (if ltb c 65536
            then (224 + c / 4096) ∷ (128 + c / 64 % 64) ∷ (128 + c % 64) ∷ []
            else (240 + c / 262144)
              ∷ (128 + c / 4096 % 64)
              ∷ (128 + c / 64 % 64)
              ∷ (128 + c % 64)
              ∷ []))

unfoldable pub encode : String → List ℕ
unfolding encode_char
encode String.[] = []
encode (String.◌∷◌ c s) = encode_char (code c) ++ encode s

-- The bytes of one character end where the next begin.
encode_char_prefix :
    (c d : ℕ) (r r' : List ℕ) → encode_char c ++ r ≡ encode_char d ++ r' → (c ≡ d) × (r ≡ r')
unfolding encode_char
encode_char_prefix c d r r' h = ground arith

encode_char-ne_nil : (c : ℕ) (r : List ℕ) → encode_char c ++ r ≡ [] → ⊥
unfolding encode_char
encode_char-ne_nil c r h = ground arith

-- Texts with the same UTF-8 bytes are equal.
pub encode-injective : (s t : String) → encode s ≡ encode t → s ≡ t
unfolding encode
encode-injective String.[] String.[] h = refl
encode-injective String.[] (String.◌∷◌ d t) h =
    absurd (encode_char-ne_nil (code d) (encode t) (sym h))
encode-injective (String.◌∷◌ c s) String.[] h = absurd (encode_char-ne_nil (code c) (encode s) h)
encode-injective (String.◌∷◌ c s) (String.◌∷◌ d t) h =
    let (same, rest) = encode_char_prefix (code c) (code d) (encode s) (encode t) h in
    ap₂ String.◌∷◌ (Char-path c d same) (encode-injective s t rest)
