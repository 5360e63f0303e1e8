-- ===== src/State/Pending/Equal.antt =====
-- When two cursors of `PendingToolCalls` compare as equal.
use jharness.Common.{
  ℕ, zero, suc, ◌≡◌, refl, sym, ap, ◌∙◌, Bool, true, ◌&&◌, Option, none, some, List, [], ◌∷◌,
  length, drop, ◌==◌, ==_iff, decide, decide→, →decide, arith, ◌↔◌, map, length-map,
}
use jharness.Json.{Entries}
use jharness.Json.Canonical.{canonical_object}
use jharness.Digest.Writer.Canonical.{json_object-canonical}
use jharness.Messages.{
  RuntimeToolCall, structured, freeform, StructuredToolCall, FreeformToolCall, call_id,
}
use jharness.Digest.{write_optional_object, write_tool_call, prepend_tool_call_digest}
use jharness.State.Pending.{
  PendingToolCalls, ids_of, suffix_digests, pending_count, remaining_calls, pending_digest,
  same_pending, Bytes-discrete, Calls-discrete, canonical_call, canonical_arguments,
}
use jharness.State.Pending.Laws.{
  IsPending, calls_digest, length-remaining, pending_digest-remaining,
}

-- Calls as `==` sees them.
abbrev pub compared : List RuntimeToolCall → List RuntimeToolCall
compared = map canonical_call

same_pending_tests :
    (p q : PendingToolCalls)
    → (pending_count p == pending_count q) ≡ true
    → decide (Bytes-discrete (pending_digest p) (pending_digest q)) ≡ true
    → decide (Calls-discrete (compared (remaining_calls p)) (compared (remaining_calls q))) ≡ true
    → same_pending p q ≡ true
unfolding same_pending
same_pending_tests p q a b c = rw (a, b, c)

and_parts : (a b : Bool) → a && b ≡ true → (a ≡ true) × (b ≡ true)
and_parts a b h = ground arith

pub same_pending→ :
    (p q : PendingToolCalls)
    → same_pending p q ≡ true
    → compared (remaining_calls p) ≡ compared (remaining_calls q)
same_pending→ p q h =
    unfold same_pending in
    decide→ (Calls-discrete (compared (remaining_calls p)) (compared (remaining_calls q)))
      (and_parts (decide (Bytes-discrete (pending_digest p) (pending_digest q)))
        (decide (Calls-discrete (compared (remaining_calls p)) (compared (remaining_calls q))))
        (and_parts (pending_count p == pending_count q) _ h).1).1

call_id-canonical_call : (c : RuntimeToolCall) → call_id (canonical_call c) ≡ call_id c
unfolding canonical_call
call_id-canonical_call (structured c) = refl
call_id-canonical_call (freeform c) = refl

ids_of-compared : (cs : List RuntimeToolCall) → ids_of (compared cs) ≡ ids_of cs
ids_of-compared [] = refl
ids_of-compared (c ∷ cs) =
    rw (call_id-canonical_call c) (ap (λ t. call_id c ∷ t) (ids_of-compared cs))

-- Calls that compare as equal have the same ids, in order.
pub same_ids : (cs ds : List RuntimeToolCall) → compared cs ≡ compared ds → ids_of cs ≡ ids_of ds
same_ids cs ds h = sym (ids_of-compared cs) ∙ ap ids_of h ∙ ids_of-compared ds

pub drop-compared :
    (n : ℕ) (cs : List RuntimeToolCall) → compared (drop n cs) ≡ drop n (compared cs)
drop-compared zero cs = refl
drop-compared (suc n) [] = refl
drop-compared (suc n) (c ∷ cs) = drop-compared n cs

pub same_length : (cs ds : List RuntimeToolCall) → compared cs ≡ compared ds → length cs ≡ length ds
same_length cs ds h =
    sym (length-map canonical_call cs) ∙ ap length h ∙ length-map canonical_call ds

written_arguments :
    (o o' : Option Entries)
    → canonical_arguments o ≡ canonical_arguments o'
    → write_optional_object o ≡ write_optional_object o'
unfolding write_optional_object
written_arguments none none h = refl
written_arguments none (some es) h = cc
written_arguments (some es) none h = cc
written_arguments (some es) (some fs) h = json_object-canonical es fs (cc)

-- Calls that compare as equal are written alike to a digest.
write_tool_call-canonical :
    (c d : RuntimeToolCall)
    → canonical_call c ≡ canonical_call d
    → write_tool_call c ≡ write_tool_call d
unfolding canonical_call write_tool_call write_optional_object
write_tool_call-canonical (structured c) (freeform d) h = cc
write_tool_call-canonical (freeform c) (structured d) h = cc
write_tool_call-canonical (structured c) (structured d) h =
    let e : record c {
      arguments = canonical_arguments c.arguments;
      metadata = canonical_object c.metadata;
    }
        ≡ record d {
          arguments = canonical_arguments d.arguments;
          metadata = canonical_object d.metadata;
        } =
      cc in
    rw
      (
        ap (λ (x : StructuredToolCall). x.id) e,
        ap (λ (x : StructuredToolCall). x.name) e,
        written_arguments c.arguments d.arguments (ap (λ (x : StructuredToolCall). x.arguments) e),
        ap (λ (x : StructuredToolCall). x.raw_input) e,
        json_object-canonical c.metadata d.metadata (ap (λ (x : StructuredToolCall). x.metadata) e),
      )
      refl
write_tool_call-canonical (freeform c) (freeform d) h =
    let e : record c { metadata = canonical_object c.metadata }
        ≡ record d { metadata = canonical_object d.metadata } =
      cc in
    rw
      (
        ap (λ (x : FreeformToolCall). x.id) e,
        ap (λ (x : FreeformToolCall). x.name) e,
        ap (λ (x : FreeformToolCall). x.input) e,
        json_object-canonical c.metadata d.metadata (ap (λ (x : FreeformToolCall). x.metadata) e),
      )
      refl

module _ (sha256 : List ℕ → List ℕ) where
  -- Calls that compare as equal have the same digest.
  same_calls_digest :
      (cs ds : List RuntimeToolCall)
      → compared cs ≡ compared ds
      → calls_digest sha256 cs ≡ calls_digest sha256 ds
  unfolding suffix_digests prepend_tool_call_digest
  same_calls_digest [] [] h = refl
  same_calls_digest [] (d ∷ ds) h = cc
  same_calls_digest (c ∷ cs) [] h = cc
  same_calls_digest (c ∷ cs) (d ∷ ds) h =
      let first : canonical_call c ≡ canonical_call d = cc in
      let rest : compared cs ≡ compared ds = cc in
      rw (write_tool_call-canonical c d first, same_calls_digest cs ds rest) refl

  →same_pending :
      (p q : PendingToolCalls)
      → IsPending sha256 p
      → IsPending sha256 q
      → compared (remaining_calls p) ≡ compared (remaining_calls q)
      → same_pending p q ≡ true
  →same_pending p q v w e =
      let counts : pending_count p ≡ pending_count q =
        sym (length-remaining p)
        ∙ same_length (remaining_calls p) (remaining_calls q) e
        ∙ length-remaining q in
      let digests : pending_digest p ≡ pending_digest q =
        pending_digest-remaining sha256 p v
        ∙ same_calls_digest (remaining_calls p) (remaining_calls q) e
        ∙ sym (pending_digest-remaining sha256 q w) in
      let first : (pending_count p == pending_count q) ≡ true =
        (==_iff (pending_count p) (pending_count q)).1 counts in
      let second = →decide (Bytes-discrete (pending_digest p) (pending_digest q)) digests in
      let third =
        →decide (Calls-discrete (compared (remaining_calls p)) (compared (remaining_calls q))) e in
      same_pending_tests p q first second third

  -- Two well-formed cursors compare as equal exactly when the calls that they have left are the same
  -- in order, each up to the order of the keys in its mappings.
  pub same_pending_iff :
      (p q : PendingToolCalls)
      → IsPending sha256 p
      → IsPending sha256 q
      → (same_pending p q ≡ true) ↔ (compared (remaining_calls p) ≡ compared (remaining_calls q))
  same_pending_iff p q v w = (same_pending→ p q, →same_pending p q v w)
