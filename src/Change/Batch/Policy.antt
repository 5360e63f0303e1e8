-- ===== src/Change/Batch/Policy.antt =====
-- The default policy of tools.py keeps the contract that `_select` of tooling.py checks.
use jharness.Common.{
  ℕ, zero, suc, ◌-◌, ◌+◌, ◌≤◌, ◌≡◌, refl, Bool, true, false, not, ◌&&◌, ◌||◌, String, Option, List,
  [], ◌∷◌, length, ltb, ◌==◌, min, decide, →decide, Bool-cases, inl, inr, arith, String-discrete,
}
use jharness.Errors.{ok}
use jharness.Messages.{RuntimeToolCall, RuntimeToolCall-discrete, call_id, call_name}
use jharness.State.Pending.{ids_of, has_text, unique_texts}
use jharness.Change.Batch.{
  ToolBatch, new_batch, gather, select_default, is_prefix, check_batch, safe, all_safe,
}

or_false : (a b : Bool) → a || b ≡ false → (a ≡ false) × (b ≡ false)
or_false a b h = ground arith

unique_parts : (a b : Bool) → not a && b ≡ true → (a ≡ false) × (b ≡ true)
unique_parts a b h = ground arith

and_no : (a : Bool) → a && false ≡ false
and_no a = ground arith

module _ (spec : String → Option Bool) (batch_id : String → String) where
  length-gather :
      (room : ℕ) (calls : List RuntimeToolCall) → length (gather spec batch_id room calls) ≤ room
  unfolding gather
  length-gather zero calls = omega arith
  length-gather (suc room) [] = omega arith
  length-gather (suc room) (c ∷ cs) = elim (Bool-cases (safe spec batch_id (spec (call_name c)))) [
    | inl is_safe ↦ rw is_safe (omega (arith, length-gather room cs))
    | inr unsafe ↦ rw unsafe (omega arith)
  ]

  is_prefix-gather :
      (room : ℕ) (calls : List RuntimeToolCall)
      → is_prefix spec batch_id (gather spec batch_id room calls) calls ≡ true
  unfolding gather is_prefix
  is_prefix-gather zero calls = refl
  is_prefix-gather (suc room) [] = refl
  is_prefix-gather (suc room) (c ∷ cs) =
      elim (Bool-cases (safe spec batch_id (spec (call_name c)))) [
        | inl is_safe ↦
            rw (is_safe, →decide (RuntimeToolCall-discrete c c) refl) (is_prefix-gather room cs)
        | inr unsafe ↦ rw unsafe
      ]

  all_safe-gather :
      (room : ℕ) (calls : List RuntimeToolCall)
      → all_safe spec batch_id (gather spec batch_id room calls) ≡ true
  unfolding gather
  all_safe-gather zero calls = refl
  all_safe-gather (suc room) [] = refl
  all_safe-gather (suc room) (c ∷ cs) =
      elim (Bool-cases (safe spec batch_id (spec (call_name c)))) [
        | inl is_safe ↦ rw (is_safe, is_safe) (all_safe-gather room cs)
        | inr unsafe ↦ rw unsafe
      ]

  has_text-gather :
      (s : String) (room : ℕ) (calls : List RuntimeToolCall)
      → has_text s (ids_of calls) ≡ false
      → has_text s (ids_of (gather spec batch_id room calls)) ≡ false
  unfolding gather has_text
  has_text-gather s zero calls h = refl
  has_text-gather s (suc room) [] h = refl
  has_text-gather s (suc room) (c ∷ cs) h =
      elim (Bool-cases (safe spec batch_id (spec (call_name c)))) [
        | inl is_safe ↦
            let (apart, later) =
              or_false (decide (String-discrete s (call_id c))) (has_text s (ids_of cs)) h in
            rw (is_safe, apart, has_text-gather s room cs later)
        | inr unsafe ↦ rw unsafe
      ]

  unique_texts-gather :
      (room : ℕ) (calls : List RuntimeToolCall)
      → unique_texts (ids_of calls) ≡ true
      → unique_texts (ids_of (gather spec batch_id room calls)) ≡ true
  unfolding gather unique_texts
  unique_texts-gather zero calls h = refl
  unique_texts-gather (suc room) [] h = refl
  unique_texts-gather (suc room) (c ∷ cs) h =
      elim (Bool-cases (safe spec batch_id (spec (call_name c)))) [
        | inl is_safe ↦
            let (apart, later) =
              unique_parts (has_text (call_id c) (ids_of cs)) (unique_texts (ids_of cs)) h in
            rw (
              is_safe,
              has_text-gather (call_id c) room cs apart,
              unique_texts-gather room cs later,
            )
        | inr unsafe ↦ rw unsafe
      ]

  -- The batch of the first call and some calls after it.
  grouped :
      (first : RuntimeToolCall) (rest : List RuntimeToolCall) (max_size n : ℕ)
      → n + 1 ≤ max_size
      → unique_texts (ids_of (first ∷ rest)) ≡ true
      → safe spec batch_id (spec (call_name first)) ≡ true
      → let selected = first ∷ gather spec batch_id n rest in
        (batch : ToolBatch) × (new_batch
            (batch_id (call_id first))
            selected
            (ltb 1 (length selected))
          ≡ ok batch)
        × (check_batch spec batch_id batch (first ∷ rest) max_size ≡ ok batch)
  unfolding new_batch check_batch is_prefix unique_texts
  grouped first rest max_size n room unique is_safe =
      let selected = first ∷ gather spec batch_id n rest in
      let (apart, later) =
        unique_parts (has_text (call_id first) (ids_of rest)) (unique_texts (ids_of rest)) unique in
      let fresh = has_text-gather (call_id first) n rest apart in
      let distinct = unique_texts-gather n rest later in
      let size = length-gather n rest in
      let serial : not (ltb 1 (length selected)) && not (length selected == 1) ≡ false =
        ground arith in
      let fits : ltb max_size (length selected) ≡ false = ground arith in
      let parallel : ltb 1 (length selected) && not (all_safe spec batch_id selected) ≡ false =
        rw (is_safe, all_safe-gather n rest) (and_no (ltb 1 (length selected))) in
      (
        record {
          id = batch_id (call_id first);
          calls = selected;
          parallel = ltb 1 (length selected);
        },
        rw (fresh, distinct, serial),
        rw (
          fits,
          →decide (RuntimeToolCall-discrete first first) refl,
          is_prefix-gather n rest,
          parallel,
        ),
      )

  -- The batch of the first call alone.
  alone :
      (first : RuntimeToolCall) (rest : List RuntimeToolCall) (max_size : ℕ)
      → 1 ≤ max_size
      → (batch : ToolBatch) × (new_batch (batch_id (call_id first)) (first ∷ []) false ≡ ok batch)
        × (check_batch spec batch_id batch (first ∷ rest) max_size ≡ ok batch)
  unfolding new_batch check_batch is_prefix unique_texts has_text
  alone first rest max_size room =
      let fits : ltb max_size 1 ≡ false = ground arith in
      (
        record { id = batch_id (call_id first); calls = first ∷ []; parallel = false },
        refl,
        rw (fits, →decide (RuntimeToolCall-discrete first first) refl),
      )

  -- Of pending calls with distinct ids, at least one, and a limit of at least one call, the default
  -- policy selects a batch, and `_select` accepts it: it is within the limit, a prefix of the pending
  -- calls, and parallel only if every call in it is parallel-safe.
  pub check_batch-select_default :
      (first : RuntimeToolCall) (rest : List RuntimeToolCall) (max_size : ℕ)
      → 1 ≤ max_size
      → unique_texts (ids_of (first ∷ rest)) ≡ true
      → (batch : ToolBatch) × (select_default spec batch_id (first ∷ rest) max_size ≡ ok batch)
        × (check_batch spec batch_id batch (first ∷ rest) max_size ≡ ok batch)
  unfolding select_default
  check_batch-select_default first rest max_size room unique =
      elim (Bool-cases (safe spec batch_id (spec (call_name first)))) [
        | inl is_safe ↦ rw is_safe (
            grouped first rest max_size (min (length (first ∷ rest)) max_size - 1) (omega arith)
              unique is_safe)
        | inr unsafe ↦ rw unsafe (alone first rest max_size room)
      ]
