-- ===== src/Digest/Laws.antt =====
-- The length-prefixed chunks of _digest.py can be read back, and composing call id digests is a fold.
use jharness.Common.{
  ℕ, ◌*◌, ◌/◌, ◌%◌, ◌<◌, ◌^◌, ◌≡◌, refl, sym, append_assoc, zero, suc, ◌∙◌, List, [], ◌∷◌, ◌++◌,
  length, arith, String, reverse, reverse-append,
}
use native.Mathlib.Nat.{pow-suc}
use jharness.Utf8.{encode, encode-injective}
use jharness.Digest.Writer.{to_bytes, chunk, string}
use jharness.Digest.{prepend_call_id_digest, compose_call_id_digest, prepend_all}

-- A fixed number of bytes determines the number that it writes, and what follows.
to_bytes_prefix :
    (count m n : ℕ) (r r' : List ℕ)
    → m < 256 ^ count
    → n < 256 ^ count
    → to_bytes count m ++ r ≡ to_bytes count n ++ r'
    → (m ≡ n) × (r ≡ r')
unfolding to_bytes
to_bytes_prefix zero m n r r' hm hn h = (omega arith, h)
to_bytes_prefix (suc count) m n r r' hm hn h =
    let hm' : m < 256 ^ count * 256 = rw pow-suc at hm in
    let hn' : n < 256 ^ count * 256 = rw pow-suc at hn in
    let h' : to_bytes count (m / 256) ++ ((m % 256) ∷ r)
        ≡ to_bytes count (n / 256) ++ ((n % 256) ∷ r') =
      sym (append_assoc (to_bytes count (m / 256)) ((m % 256) ∷ []) r)
      ∙ h
      ∙ append_assoc (to_bytes count (n / 256)) ((n % 256) ∷ []) r' in
    let (high, low) =
      to_bytes_prefix count (m / 256) (n / 256) ((m % 256) ∷ r) ((n % 256) ∷ r') (omega arith)
        (omega arith) h' in
    ground arith

append_cancel :
    (xs ys r r' : List ℕ) → length xs ≡ length ys → xs ++ r ≡ ys ++ r' → (xs ≡ ys) × (r ≡ r')
append_cancel [] [] r r' e h = (refl, h)
append_cancel [] (y ∷ ys) r r' e h = absurd (omega arith)
append_cancel (x ∷ xs) [] r r' e h = absurd (omega arith)
append_cancel (x ∷ xs) (y ∷ ys) r r' e h =
    let tails : xs ++ r ≡ ys ++ r' = cc in
    let (same, rest) = append_cancel xs ys r r' (omega arith) tails in (cc, rest)

-- A chunk can be read back from a longer text: its tag, its value and where it ends.
pub chunk_prefix :
    (s t : ℕ) (v w r r' : List ℕ)
    → length v < 2 ^ 64
    → length w < 2 ^ 64
    → chunk s v ++ r ≡ chunk t w ++ r'
    → (s ≡ t) × (v ≡ w) × (r ≡ r')
unfolding chunk
chunk_prefix s t v w r r' hv hw h =
    let tag : s ≡ t = cc in
    let rest : (to_bytes 8 (length v) ++ v) ++ r ≡ (to_bytes 8 (length w) ++ w) ++ r' = cc in
    let rest' : to_bytes 8 (length v) ++ (v ++ r) ≡ to_bytes 8 (length w) ++ (w ++ r') =
      sym (append_assoc (to_bytes 8 (length v)) v r)
      ∙ rest
      ∙ append_assoc (to_bytes 8 (length w)) w r' in
    let (size, body) = to_bytes_prefix 8 (length v) (length w) (v ++ r) (w ++ r') hv hw rest' in
    let (value, end) = append_cancel v w r r' size body in (tag, value, end)

-- If two texts of fewer than 2 ^ 64 bytes, each written by `string` with more after it, give the same
-- bytes, then the texts are equal, and so is what follows them.
pub string_prefix :
    (s t : String) (r r' : List ℕ)
    → length (encode s) < 2 ^ 64
    → length (encode t) < 2 ^ 64
    → string s ++ r ≡ string t ++ r'
    → (s ≡ t) × (r ≡ r')
unfolding string
string_prefix s t r r' hs ht h =
    let (tag, value, end) = chunk_prefix b's' b's' (encode s) (encode t) r r' hs ht h in
    (encode-injective s t value, end)

module _ (sha256 : List ℕ → List ℕ) where
  prepend_all-append :
      (digest : List ℕ) (xs ys : List String)
      → prepend_all sha256 digest (xs ++ ys) ≡ prepend_all sha256 (prepend_all sha256 digest xs) ys
  unfolding prepend_all
  prepend_all-append digest [] ys = refl
  prepend_all-append digest (x ∷ xs) ys =
      prepend_all-append (prepend_call_id_digest sha256 digest x) xs ys

  -- Composing over one more leading id prepends it to the rest.
  pub compose-cons :
      (id : String) (ids : List String) (suffix : List ℕ)
      → compose_call_id_digest sha256 (id ∷ ids) suffix
        ≡ prepend_call_id_digest sha256 (compose_call_id_digest sha256 ids suffix) id
  unfolding compose_call_id_digest
  compose-cons id ids suffix =
      rw (reverse-append (id ∷ []) ids, prepend_all-append suffix (reverse ids) (id ∷ []))

  pub compose-nil : (suffix : List ℕ) → compose_call_id_digest sha256 [] suffix ≡ suffix
  unfolding compose_call_id_digest
  compose-nil suffix = refl
