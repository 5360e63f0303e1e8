-- ===== src/History/Pick.antt =====
-- The messages of a list whose positions lie in a window: what a window of history.py stands for.
use jharness.Common.{
  ℕ, ◌+◌, ◌-◌, ◌≤◌, suc, ◌≡◌, refl, ap, List, [], ◌∷◌, ◌++◌, arith, Bool-cases, leb, ltb, inl, inr,
  length, Bool, true, false, ◌&&◌, ◌⊎◌, min, max, if◌then◌else◌, reverse, reverse-append,
  append_assoc,
}
use jharness.History.{HistoryTree, iter_tree}

module _ {ℓ} {A : Type ℓ} where
  -- The elements whose position, counted from `offset`, lies in [start, stop).
  unfoldable pub pick : ℕ → ℕ → ℕ → List A → List A
  pick start stop offset [] = []
  pick start stop offset (x ∷ xs) =
      let later = pick start stop (offset + 1) xs in
      if leb start offset && ltb offset stop then x ∷ later else later

  pub pick-append :
      (start stop offset : ℕ) (xs ys : List A)
      → pick start stop offset (xs ++ ys)
        ≡ pick start stop offset xs ++ pick start stop (offset + length xs) ys
  unfolding pick
  pick-append start stop offset [] ys = ap (λ o. pick start stop o ys) (omega arith)
  pick-append start stop offset (x ∷ xs) ys =
      let e : offset + 1 + length xs ≡ offset + suc (length xs) = omega arith in
      elim (Bool-cases (leb start offset && ltb offset stop)) [
        | inl inside ↦ rw (inside, pick-append start stop (offset + 1) xs ys, e)
        | inr outside ↦ rw (outside, pick-append start stop (offset + 1) xs ys, e)
      ]

  pub pick_none :
      (start stop offset : ℕ) (xs : List A)
      → (stop ≤ start) ⊎ ((stop ≤ offset) ⊎ (offset + length xs ≤ start))
      → pick start stop offset xs ≡ []
  unfolding pick
  pick_none start stop offset [] h = refl
  pick_none start stop offset (x ∷ xs) h =
      let e : leb start offset && ltb offset stop ≡ false = ground arith in
      rw (e, pick_none start stop (offset + 1) xs (omega arith))

  pub pick_all :
      (start stop offset : ℕ) (xs : List A)
      → start ≤ offset
      → offset + length xs ≤ stop
      → pick start stop offset xs ≡ xs
  unfolding pick
  pick_all start stop offset [] h k = refl
  pick_all start stop offset (x ∷ xs) h k =
      let e : leb start offset && ltb offset stop ≡ true = ground arith in
      rw (e, pick_all start stop (offset + 1) xs (omega arith) (omega arith))

  -- A window in the positions of one digit is the window in the positions of all.
  pub pick_shift :
      (start stop base limit k : ℕ) (xs : List A)
      → base + k + length xs ≤ limit
      → pick (max start base - base) (min stop limit - base) k xs ≡ pick start stop (base + k) xs
  unfolding pick
  pick_shift start stop base limit k [] h = refl
  pick_shift start stop base limit k (x ∷ xs) h =
      let e : base + (k + 1) ≡ base + k + 1 = omega arith in
      let ih = pick_shift start stop base limit (k + 1) xs (omega arith) in
      let same : leb (max start base - base) k && ltb k (min stop limit - base)
          ≡ leb start (base + k) && ltb (base + k) stop =
        ground arith in
      rw (same, ih, e)

  pub reverse-append_three :
      (xs ys zs : List A) → reverse (xs ++ (ys ++ zs)) ≡ reverse zs ++ (reverse ys ++ reverse xs)
  reverse-append_three xs ys zs = simp (reverse-append, append_assoc)

  unfoldable pub own : Bool → A → List A
  own inside m = if inside then m ∷ [] else []

  pub reverse-own : (inside : Bool) (m : A) → reverse (own inside m) ≡ own inside m
  unfolding own
  reverse-own true m = refl
  reverse-own false m = refl

  pub pick-cons :
      (start stop offset : ℕ) (m : A) (xs : List A)
      → pick start stop offset (m ∷ xs)
        ≡ own (leb start offset && ltb offset stop) m ++ pick start stop (offset + 1) xs
  unfolding pick own
  pick-cons start stop offset m xs = ground arith

  pub pick-children :
      (start stop offset : ℕ) (m : A) (l r : HistoryTree A) (c : ℕ)
      → length (iter_tree l) ≡ c
      → reverse (pick start stop offset (m ∷ (iter_tree l ++ iter_tree r)))
        ≡ reverse (pick start stop (offset + c + 1) (iter_tree r))
          ++ (reverse (pick start stop (offset + 1) (iter_tree l))
              ++ own (leb start offset && ltb offset stop) m)
  pick-children start stop offset m l r c size =
      let e : offset + 1 + length (iter_tree l) ≡ offset + c + 1 = omega arith in
      rw (
        pick-cons start stop offset m (iter_tree l ++ iter_tree r),
        pick-append start stop (offset + 1) (iter_tree l) (iter_tree r),
        e,
        reverse-append_three,
        reverse-own,
      )
