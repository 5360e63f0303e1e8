-- ===== src/State/Pending/Laws.antt =====
-- A cursor stands for the suffix of its calls, and its digests are those of that suffix.
use jharness.Common.{
  ℕ, zero, suc, ◌+◌, ◌≤◌, ◌<◌, ◌≡◌, refl, sym, ap, ◌∙◌, true, String, Option, none, some, List, [],
  ◌∷◌, ◌++◌, length, take, drop, drop-drop, ◌==◌, ==_iff, if◌then◌else◌, pos, arith, Bool-cases,
  inl, inr, length-drop, take-append-drop, map-append,
}
use jharness.Errors.{ok, err, value_error}
use jharness.Messages.{RuntimeToolCall, call_id}
use jharness.Digest.{empty_call_id_suffix_digest, compose_call_id_digest}
use jharness.Digest.Laws.{compose-cons, compose-nil}
use jharness.State.Pending.{
  PendingToolCalls, pending_of, unique_texts, ids_of, head_or, digest_at, suffix_digests,
  suffix_call_id_digests, pending_count, remaining_calls, pending_digest, call_id_digest, advance,
}

-- The calls behind an advanced cursor, if one is left.
abbrev pub remaining_or : Option PendingToolCalls → List RuntimeToolCall
remaining_or none = []
remaining_or (some p) = remaining_calls p

pub length-remaining : (p : PendingToolCalls) → length (remaining_calls p) ≡ pending_count p
unfolding remaining_calls pending_count
length-remaining p = length-drop p.offset p.calls

module _ (sha256 : List ℕ → List ℕ) where
  -- The cursor points at a call, and its digests are those of its calls' suffixes.
  pub record IsPending (p : PendingToolCalls) : Type 0 where
    pub pointing : p.offset < length p.calls
    pub unique : unique_texts (ids_of p.calls) ≡ true
    pub digested : p.digests ≡ suffix_digests sha256 p.calls
    pub ids_digested : p.call_id_digests ≡ suffix_call_id_digests sha256 p.calls

  -- The digests of a list of calls, computed afresh.
  abbrev pub calls_digest : List RuntimeToolCall → List ℕ
  calls_digest calls = head_or [] (suffix_digests sha256 calls)

  abbrev pub ids_digest : List String → List ℕ
  ids_digest ids = compose_call_id_digest sha256 ids (empty_call_id_suffix_digest sha256)

  head-suffix_call_id_digests :
      (calls : List RuntimeToolCall)
      → head_or [] (suffix_call_id_digests sha256 calls) ≡ ids_digest (ids_of calls)
  unfolding suffix_call_id_digests
  head-suffix_call_id_digests [] = sym (compose-nil sha256 (empty_call_id_suffix_digest sha256))
  head-suffix_call_id_digests (call ∷ calls) =
      rw (compose-cons sha256 (call_id call) (ids_of calls), head-suffix_call_id_digests calls)

  digest_at-suffix_digests :
      (calls : List RuntimeToolCall) (i : ℕ)
      → i ≤ length calls
      → digest_at (suffix_digests sha256 calls) i ≡ calls_digest (drop i calls)
  unfolding suffix_digests
  digest_at-suffix_digests [] zero h = refl
  digest_at-suffix_digests [] (suc i) h = absurd (omega arith)
  digest_at-suffix_digests (call ∷ calls) zero h = refl
  digest_at-suffix_digests (call ∷ calls) (suc i) h = digest_at-suffix_digests calls i (omega arith)

  digest_at-suffix_call_id_digests :
      (calls : List RuntimeToolCall) (i : ℕ)
      → i ≤ length calls
      → digest_at (suffix_call_id_digests sha256 calls) i ≡ ids_digest (ids_of (drop i calls))
  unfolding suffix_call_id_digests
  digest_at-suffix_call_id_digests [] zero h = head-suffix_call_id_digests []
  digest_at-suffix_call_id_digests [] (suc i) h = absurd (omega arith)
  digest_at-suffix_call_id_digests (call ∷ calls) zero h =
      head-suffix_call_id_digests (call ∷ calls)
  digest_at-suffix_call_id_digests (call ∷ calls) (suc i) h =
      digest_at-suffix_call_id_digests calls i (omega arith)

  pub pending_digest-remaining :
      (p : PendingToolCalls) → IsPending p → pending_digest p ≡ calls_digest (remaining_calls p)
  unfolding pending_digest remaining_calls
  pending_digest-remaining p v =
      rw (v.digested, digest_at-suffix_digests p.calls p.offset (omega (arith, v.pointing)))

  -- The id digest of a well-formed cursor is the digest of the ids of the calls that it has left.
  pub call_id_digest-remaining :
      (p : PendingToolCalls)
      → IsPending p
      → call_id_digest p ≡ ids_digest (ids_of (remaining_calls p))
  unfolding call_id_digest remaining_calls
  call_id_digest-remaining p v = rw (
    v.ids_digested,
    digest_at-suffix_call_id_digests p.calls p.offset (omega (arith, v.pointing)),
  )

  abbrev pub AllPending : Option PendingToolCalls → Type 0
  AllPending none = Unit
  AllPending (some p) = IsPending p

  drop_all : (n : ℕ) (calls : List RuntimeToolCall) → length calls ≤ n → drop n calls ≡ []
  drop_all zero [] h = refl
  drop_all zero (c ∷ cs) h = absurd (omega arith)
  drop_all (suc n) [] h = refl
  drop_all (suc n) (c ∷ cs) h = drop_all n cs (omega arith)

  moved : PendingToolCalls → ℕ → Option PendingToolCalls
  moved p n =
      if n == 0
      then some p
      else (if p.offset + n == length p.calls
          then none
          else some (record p { offset = p.offset + n }))

  moved-AllPending :
      (p : PendingToolCalls) (n : ℕ)
      → IsPending p
      → p.offset + n ≤ length p.calls
      → AllPending (moved p n)
  unfolding moved
  moved-AllPending p n v h = elim (Bool-cases (n == 0)) [
    | inl stay ↦ rw stay v
    | inr go ↦ elim (Bool-cases (p.offset + n == length p.calls)) [
      | inl end ↦ rw (go, end) tt
      | inr more ↦
          rw (go, more)
            (record {
              pointing = ground arith;
              unique = v.unique;
              digested = v.digested;
              ids_digested = v.ids_digested;
            })
    ]
  ]

  moved-remaining :
      (p : PendingToolCalls) (n : ℕ)
      → p.offset + n ≤ length p.calls
      → remaining_or (moved p n) ≡ drop n (remaining_calls p)
  unfolding moved remaining_calls
  moved-remaining p n h = elim (Bool-cases (n == 0)) [
    | inl stay ↦ let e = (==_iff n 0).0 stay in rw (stay, e)
    | inr go ↦ elim (Bool-cases (p.offset + n == length p.calls)) [
      | inl end ↦
          rw (go, end, drop-drop n p.offset p.calls)
            (sym (drop_all (p.offset + n) p.calls (ground arith)))
      | inr more ↦ rw (go, more) (sym (drop-drop n p.offset p.calls))
    ]
  ]

  advance-moved :
      (p : PendingToolCalls) (n : ℕ) → n ≤ pending_count p → advance p (pos n) ≡ ok (moved p n)
  unfolding advance moved
  advance-moved p n h = ground arith

  -- Advancing a well-formed cursor by no more calls than it has left succeeds, drops that many calls
  -- from those left (no cursor stands for none left), and gives a well-formed cursor, if any.
  pub advance-remaining :
      (p : PendingToolCalls) (n : ℕ)
      → IsPending p
      → n ≤ pending_count p
      → (q : Option PendingToolCalls) × (advance p (pos n) ≡ ok q)
        × (remaining_or q ≡ drop n (remaining_calls p))
        × AllPending q
  advance-remaining p n v h =
      let bound : p.offset + n ≤ length p.calls =
        unfold pending_count in omega (arith, v.pointing) in
      (moved p n, advance-moved p n h, moved-remaining p n bound, moved-AllPending p n v bound)

  pub advance_out_of_range :
      (p : PendingToolCalls) (n : ℕ)
      → pending_count p < n
      → advance p (pos n) ≡ err (value_error "pending tool call advance count is out of range")
  unfolding advance
  advance_out_of_range p n h = ground arith

  compose-append :
      (xs ys : List String) (suffix : List ℕ)
      → compose_call_id_digest sha256 (xs ++ ys) suffix
        ≡ compose_call_id_digest sha256 xs (compose_call_id_digest sha256 ys suffix)
  compose-append [] ys suffix = rw (compose-nil sha256)
  compose-append (x ∷ xs) ys suffix =
      rw (compose-cons sha256 x (xs ++ ys) suffix, compose-append xs ys suffix)
        (sym (compose-cons sha256 x xs (compose_call_id_digest sha256 ys suffix)))

  -- The digest of the ids of some calls is that of the ids of the first `n`, composed over the digest
  -- of the ids of the rest: the equation by which the verifier checks a batch.
  pub ids_digest-split :
      (n : ℕ) (calls : List RuntimeToolCall)
      → ids_digest (ids_of calls)
        ≡ compose_call_id_digest sha256 (ids_of (take n calls)) (ids_digest (ids_of (drop n calls)))
  ids_digest-split n calls =
      ap (λ c. ids_digest (ids_of c)) (sym (take-append-drop n calls))
      ∙ ap ids_digest (map-append call_id (take n calls) (drop n calls))
      ∙ compose-append (ids_of (take n calls)) (ids_of (drop n calls))
          (empty_call_id_suffix_digest sha256)

  pub pending_of-IsPending :
      (c : RuntimeToolCall) (cs : List RuntimeToolCall)
      → unique_texts (ids_of (c ∷ cs)) ≡ true
      → IsPending (pending_of sha256 (c ∷ cs))
  unfolding pending_of
  pending_of-IsPending c cs u = record {
    pointing = omega arith;
    unique = u;
    digested = refl;
    ids_digested = refl;
  }

  pub remaining-pending_of :
      (calls : List RuntimeToolCall) → remaining_calls (pending_of sha256 calls) ≡ calls
  unfolding pending_of remaining_calls
  remaining-pending_of calls = refl
