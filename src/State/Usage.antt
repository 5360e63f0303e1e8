-- ===== src/State/Usage.antt =====
-- `ModelUsage` of packages/jharness-kernel/src/jharness/kernel/models.py.
use jharness.Common.{ℕ, ◌+◌, ◌≡◌, Option, none, some, arith}

pub record ModelUsage : Type 0 where
  pub input_tokens : Option ℕ
  pub output_tokens : Option ℕ
  pub total_tokens : Option ℕ
  pub reasoning_tokens : Option ℕ
  pub cache_read_tokens : Option ℕ
  pub cache_write_tokens : Option ℕ

-- `current or 0`.
abbrev pub or_zero : Option ℕ → ℕ
or_zero none = 0
or_zero (some n) = n

-- `current if added is None else (current or 0) + added`.
unfoldable pub add_field : Option ℕ → Option ℕ → Option ℕ
add_field current none = current
add_field current (some added) = some (or_zero current + added)

-- `first if first is not None else second`.
unfoldable pub first_reported : Option ℕ → Option ℕ → Option ℕ
first_reported none second = second
first_reported (some n) second = some n

abbrev on_fields : (Option ℕ → Option ℕ → Option ℕ) → ModelUsage → ModelUsage → ModelUsage
on_fields f u v = record {
  input_tokens = f u.input_tokens v.input_tokens;
  output_tokens = f u.output_tokens v.output_tokens;
  total_tokens = f u.total_tokens v.total_tokens;
  reasoning_tokens = f u.reasoning_tokens v.reasoning_tokens;
  cache_read_tokens = f u.cache_read_tokens v.cache_read_tokens;
  cache_write_tokens = f u.cache_write_tokens v.cache_write_tokens;
}

-- `add`.
unfoldable pub add_usage : ModelUsage → Option ModelUsage → ModelUsage
unfolding add_field
add_usage usage none = usage
add_usage usage (some other) = on_fields add_field usage other

-- `merge_snapshot`: a later cumulative report wins.
unfoldable pub merge_snapshot : ModelUsage → ModelUsage → ModelUsage
unfolding first_reported
merge_snapshot usage other = on_fields first_reported other usage

-- `with_fallback`.
unfoldable pub with_fallback : ModelUsage → Option ModelUsage → ModelUsage
unfolding first_reported
with_fallback usage none = usage
with_fallback usage (some fallback) = on_fields first_reported usage fallback

add_field_assoc : (a b c : Option ℕ) → add_field (add_field a b) c ≡ add_field a (add_field b c)
unfolding add_field
add_field_assoc a b c = ground arith

-- Adding two usage reports one after the other gives what adding their sum gives.
pub add_usage_assoc :
    (u v w : ModelUsage)
    → add_usage (add_usage u (some v)) (some w) ≡ add_usage u (some (add_usage v (some w)))
unfolding add_usage
add_usage_assoc u v w = unfold add_field in ground arith

-- A snapshot repeated changes nothing, and it wins over what was there before.
pub merge_snapshot_idempotent :
    (u v : ModelUsage) → merge_snapshot (merge_snapshot u v) v ≡ merge_snapshot u v
unfolding merge_snapshot
merge_snapshot_idempotent u v = ground arith
