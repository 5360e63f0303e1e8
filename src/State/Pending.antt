-- ===== src/State/Pending.antt =====
-- `PendingToolCalls` of packages/jharness-kernel/src/jharness/kernel/state.py: a cursor over the
-- calls of one model turn, with the digests of each suffix computed once.
pub mod Laws
pub mod Equal
use jharness.Common.{
  ℕ, zero, suc, ◌+◌, ◌-◌, Bool, true, false, not, ◌&&◌, ◌||◌, String, Option, none, some, List, [],
  ◌∷◌, ◌++◌, map, length, take, drop, min, ltb, leb, ◌==◌, if◌then◌else◌, ℤ, pos, negsuc, decide,
  String-discrete, ℕ_discrete,
}
use jharness.Errors.{Result, ok, err, value_error, index_error}
use jharness.Json.{Entries}
use jharness.Json.Canonical.{canonical_object}
use jharness.Messages.{RuntimeToolCall, structured, freeform, call_id, RuntimeToolCall-discrete}
use jharness.Digest.{
  empty_tool_call_suffix_digest, prepend_tool_call_digest, empty_call_id_suffix_digest,
  prepend_call_id_digest,
}

pub record PendingToolCalls : Type 0 where
  pub calls : List RuntimeToolCall
  pub offset : ℕ
  pub digests : List (List ℕ)
  pub call_id_digests : List (List ℕ)

unfoldable pub has_text : String → List String → Bool
unfolding String-discrete
has_text s [] = false
has_text s (t ∷ ts) = decide (String-discrete s t) || has_text s ts

-- `len(ids) == len(set(ids))`.
unfoldable pub unique_texts : List String → Bool
unfolding has_text
unique_texts [] = true
unique_texts (s ∷ ss) = not (has_text s ss) && unique_texts ss

abbrev pub ids_of : List RuntimeToolCall → List String
ids_of = map call_id

abbrev pub head_or : List ℕ → List (List ℕ) → List ℕ
head_or d [] = d
head_or d (x ∷ xs) = x

abbrev pub digest_at : List (List ℕ) → ℕ → List ℕ
digest_at [] i = []
digest_at (x ∷ xs) zero = x
digest_at (x ∷ xs) (suc i) = digest_at xs i

module _ (sha256 : List ℕ → List ℕ) where
  -- The arrays of suffix digests, filled from the last call to the first.
  unfoldable pub suffix_digests : List RuntimeToolCall → List (List ℕ)
  suffix_digests [] = empty_tool_call_suffix_digest sha256 ∷ []
  suffix_digests (call ∷ calls) =
      let later = suffix_digests calls in
      prepend_tool_call_digest sha256 (head_or [] later) call ∷ later

  unfoldable pub suffix_call_id_digests : List RuntimeToolCall → List (List ℕ)
  suffix_call_id_digests [] = empty_call_id_suffix_digest sha256 ∷ []
  suffix_call_id_digests (call ∷ calls) =
      let later = suffix_call_id_digests calls in
      prepend_call_id_digest sha256 (head_or [] later) (call_id call) ∷ later

  unfoldable pub pending_of : List RuntimeToolCall → PendingToolCalls
  unfolding suffix_digests suffix_call_id_digests
  pending_of calls = record {
    calls = calls;
    offset = 0;
    digests = suffix_digests calls;
    call_id_digests = suffix_call_id_digests calls;
  }

  -- `PendingToolCalls(calls)`.
  unfoldable pub pending_tool_calls : List RuntimeToolCall → Result PendingToolCalls
  unfolding unique_texts
  pending_tool_calls [] = err (value_error "pending tool calls require at least one call")
  pending_tool_calls (call ∷ calls) =
      if unique_texts (ids_of (call ∷ calls))
      then ok (pending_of (call ∷ calls))
      else err (value_error "pending tool call ids must be unique")

-- `__len__`.
unfoldable pub pending_count : PendingToolCalls → ℕ
pending_count p = length p.calls - p.offset

-- `__iter__`: the calls from the offset on.
unfoldable pub remaining_calls : PendingToolCalls → List RuntimeToolCall
remaining_calls p = drop p.offset p.calls

-- The properties `digest` and `call_id_digest`.
unfoldable pub pending_digest : PendingToolCalls → List ℕ
pending_digest p = digest_at p.digests p.offset

unfoldable pub call_id_digest : PendingToolCalls → List ℕ
call_id_digest p = digest_at p.call_id_digests p.offset

-- `prefix`: at most `count` leading calls.
unfoldable pub prefix : PendingToolCalls → ℤ → Result (List RuntimeToolCall)
unfolding pending_count
prefix p (negsuc n) = err (value_error "pending tool call prefix count must be >= 0")
prefix p (pos count) = ok (take (min count (pending_count p)) (drop p.offset p.calls))

-- `advance`: `none` when nothing is left.
unfoldable pub advance : PendingToolCalls → ℤ → Result (Option PendingToolCalls)
unfolding pending_count
advance p (negsuc n) = err (value_error "pending tool call advance count is out of range")
advance p (pos count) =
    if ltb (pending_count p) count
    then err (value_error "pending tool call advance count is out of range")
    else (if count == 0
        then ok (some p)
        else (if p.offset + count == length p.calls
            then ok none
            else ok (some (record p { offset = p.offset + count }))))

abbrev pub Bytes-discrete : Discrete (List ℕ)
Bytes-discrete = hlevel ℕ_discrete

abbrev pub Calls-discrete : Discrete (List RuntimeToolCall)
Calls-discrete = hlevel RuntimeToolCall-discrete

abbrev pub canonical_arguments : Option Entries → Option Entries
canonical_arguments none = none
canonical_arguments (some entries) = some (canonical_object entries)

-- A call as `==` sees it: its mappings are compared by their keys.
unfoldable pub canonical_call : RuntimeToolCall → RuntimeToolCall
canonical_call (structured c) = structured (record c {
  arguments = canonical_arguments c.arguments;
  metadata = canonical_object c.metadata;
})
canonical_call (freeform c) = freeform (record c { metadata = canonical_object c.metadata })

-- `__eq__`; cursors that share their calls, for which it has a shortcut, are equal by it.
unfoldable pub same_pending : PendingToolCalls → PendingToolCalls → Bool
unfolding pending_count pending_digest remaining_calls canonical_call
same_pending p q =
    pending_count p == pending_count q
    && (decide (Bytes-discrete (pending_digest p) (pending_digest q))
        && decide (
            Calls-discrete (map canonical_call (remaining_calls p))
              (map canonical_call (remaining_calls q))))
