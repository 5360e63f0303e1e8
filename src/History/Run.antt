-- ===== src/History/Run.antt =====
-- `RunHistory` of history.py over its digits: construction, append, indexing and windows.
-- The digest of a message is a parameter here (`append_history_digest` of _digest.py).
pub mod Contents
pub mod Bounds
use jharness.Common.{
  ℕ, ◌+◌, ◌-◌, Bool, true, false, Option, none, some, List, [], ◌∷◌, reverse, ltb, leb, ◌==◌, ◌&&◌,
  ◌||◌, min, if◌then◌else◌, length, take, ℤ, pos, negsuc, decide,
}
use jharness.Errors.{
  Result, ok, err, value_error, index_error, assertion_error, ◌>>=◌, ◌>>◌, raise_if,
}
use jharness.History.{Digits, cons, iter_reversed, lookup_reverse, iter_digits}

pub record RunHistory {ℓ} (A : Type ℓ) : Type ℓ where
  pub digits : Digits A
  pub count : ℕ
  pub digest : List ℕ
  pub first : A

-- An index made non-negative; `none` is out of range.
unfoldable pub normalize_index : ℕ → ℤ → Option ℕ
normalize_index count (pos index) = if ltb index count then some index else none
normalize_index count (negsuc n) = if ltb n count then some (count - (n + 1)) else none

-- `slice(start, stop).indices(count)` at step 1: each bound is clamped to the history.
unfoldable pub clamp_index : ℕ → ℤ → ℕ
clamp_index count (pos index) = min index count
clamp_index count (negsuc n) = count - (n + 1)

unfoldable pub clamp_stop : ℕ → Option ℤ → ℕ
unfolding clamp_index
clamp_stop count none = count
clamp_stop count (some stop) = clamp_index count stop

module _ {ℓ} {A : Type ℓ} where
  -- `for message in messages: digits = _cons(digits, message)`.
  unfoldable pub cons_all : Digits A → List A → Digits A
  cons_all digits [] = digits
  cons_all digits (message ∷ messages) = cons_all (cons digits message) messages

  unfoldable pub or_assertion : Option A → Result A
  or_assertion none = err (assertion_error "history random-access structure is inconsistent")
  or_assertion (some message) = ok message

  unfoldable pub get_normalized : RunHistory A → Option ℕ → Result A
  unfolding or_assertion
  get_normalized h none = err (index_error "history index out of range")
  get_normalized h (some index) =
      if index == 0
      then ok h.first
      else or_assertion (lookup_reverse h.digits (h.count - index - 1))

  -- `__getitem__` at an `int`.
  unfoldable pub get_item : RunHistory A → ℤ → Result A
  unfolding normalize_index get_normalized
  get_item h index = get_normalized h (normalize_index h.count index)

  -- `__getitem__` at a slice of step 1, with both bounds written.
  unfoldable pub get_slice : RunHistory A → ℤ → ℤ → List A
  unfolding clamp_index
  get_slice h start stop =
      iter_digits h.digits h.count (clamp_index h.count start) (clamp_index h.count stop)

  -- `__iter__`: oldest first.
  unfoldable pub iter : RunHistory A → List A
  iter h = iter_digits h.digits h.count 0 h.count

  bad_window : Result (List A)
  bad_window = err (value_error "history window must satisfy 0 <= start <= stop <= len(history)")

  unfoldable pub checked_window : RunHistory A → ℤ → ℤ → Result (List A)
  unfolding bad_window
  checked_window h (pos start) (pos stop) =
      if ltb stop start || ltb h.count stop
      then bad_window
      else ok (iter_digits h.digits h.count start stop)
  checked_window h (pos start) (negsuc n) = bad_window
  checked_window h (negsuc n) stop = bad_window

  -- `iter_window`, whose default stop is the end.
  unfoldable pub iter_window : RunHistory A → ℤ → Option ℤ → Result (List A)
  unfolding checked_window
  iter_window h start none = checked_window h start (pos h.count)
  iter_window h start (some stop) = checked_window h start stop

  -- `iter_tail`: the first of `reversed(self)`, turned round.
  unfoldable pub iter_tail : RunHistory A → ℤ → Result (List A)
  iter_tail h (negsuc n) = err (value_error "history tail count must be >= 0")
  iter_tail h (pos count) = ok (reverse (take (min count h.count) (iter_reversed h.digits)))

  module _ (eq : Discrete A) where
    -- `index`: the position of the first equal message, counted from `at`.
    unfoldable pub find_from : A → ℕ → List A → Result ℕ
    find_from value at [] = err (value_error "value is not in RunHistory")
    find_from value at (message ∷ messages) =
        let later = find_from value (at + 1) messages in
        if decide (eq message value) then ok at else later

    unfoldable pub index : RunHistory A → A → ℤ → Option ℤ → Result ℕ
    unfolding find_from clamp_index clamp_stop
    index h value start stop =
        let normalized_start = clamp_index h.count start in
        find_from value normalized_start
          (iter_digits h.digits h.count normalized_start (clamp_stop h.count stop))

module _ {ℓ} {A : Type ℓ} (empty_digest : List ℕ) (append_digest : List ℕ → A → List ℕ) where
  unfoldable pub digest_all : List ℕ → List A → List ℕ
  digest_all digest [] = digest
  digest_all digest (message ∷ messages) = digest_all (append_digest digest message) messages

  unfoldable pub build : A → List A → RunHistory A
  unfolding cons_all digest_all
  build message messages = record {
    digits = cons_all [] (message ∷ messages);
    count = length (message ∷ messages);
    digest = digest_all empty_digest (message ∷ messages);
    first = message;
  }

  -- `RunHistory(messages)`.
  unfoldable pub run_history : List A → Result (RunHistory A)
  run_history [] = err (value_error "run history must not be empty")
  run_history (message ∷ messages) = ok (build message messages)

module _ {ℓ} {A : Type ℓ} where
  -- `_append`, which is handed the digest of the extended history.
  unfoldable pub append : RunHistory A → List A → List ℕ → RunHistory A
  unfolding cons_all
  append h [] digest = h
  append h (message ∷ messages) digest = record h {
    digits = cons_all h.digits (message ∷ messages);
    count = h.count + length (message ∷ messages);
    digest = digest;
  }
