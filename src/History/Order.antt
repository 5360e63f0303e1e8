-- ===== src/History/Order.antt =====
-- The order of the messages in the digits of history.py, and the skew-binary shape.
use native.Mathlib.Nat.{pow-suc}
use jharness.Common.{
  ℕ, ◌+◌, ◌*◌, ◌-◌, ◌/◌, ◌^◌, ◌≤◌, ◌<◌, ◌≡◌, refl, [], ◌∷◌, ◌++◌, arith, append_assoc, Bool-cases,
  ◌==◌, ==_iff, inl, inr, length, length-append, mul_mono,
}
use jharness.History.{HistoryTree, leaf, node, HistoryDigit, Digits, cons, iter_tree, iter_reversed}

-- A perfect tree of the weight that its digit carries.
abbrev pub IsPerfect {ℓ} : {A : Type ℓ} → HistoryTree A → ℕ → Type 0
IsPerfect (leaf message) weight = weight ≡ 1
IsPerfect (node message left right) weight =
    (weight ≡ 2 * ((weight - 1) / 2) + 1)
    × IsPerfect left ((weight - 1) / 2)
    × IsPerfect right ((weight - 1) / 2)

-- The weights behind a digit of weight `least` grow strictly.
abbrev pub IsGrowing {ℓ} : {A : Type ℓ} → ℕ → Digits A → Type 0
IsGrowing least [] = Unit
IsGrowing least (d ∷ rest) =
    IsPerfect d.tree d.weight × (least < d.weight) × IsGrowing d.weight rest

-- The skew-binary form: perfect trees of growing weight, of which the first two may be equal.
abbrev pub IsSkew {ℓ} : {A : Type ℓ} → Digits A → Type 0
IsSkew [] = Unit
IsSkew (d ∷ []) = IsPerfect d.tree d.weight × Unit
IsSkew (d ∷ second ∷ rest) =
    IsPerfect d.tree d.weight
    × IsPerfect second.tree second.weight
    × (d.weight ≤ second.weight)
    × IsGrowing second.weight rest

module _ {ℓ} {A : Type ℓ} where
  pub IsPerfect-pos : (t : HistoryTree A) (w : ℕ) → IsPerfect t w → 0 < w
  IsPerfect-pos (leaf m) w h = omega arith
  IsPerfect-pos (node m l r) w h = omega (arith, h.0)

  pub length-iter_tree : (t : HistoryTree A) (w : ℕ) → IsPerfect t w → length (iter_tree t) ≡ w
  unfolding iter_tree
  length-iter_tree (leaf m) w h = omega arith
  length-iter_tree (node m l r) w h = omega (
    arith,
    h.0,
    length-append (iter_tree l) (iter_tree r),
    length-iter_tree l ((w - 1) / 2) h.1,
    length-iter_tree r ((w - 1) / 2) h.2,
  )

  pub iter_reversed-cons :
      (ds : Digits A) (message : A) → iter_reversed (cons ds message) ≡ message ∷ iter_reversed ds
  unfolding cons iter_reversed iter_tree
  iter_reversed-cons [] message = refl
  iter_reversed-cons (d ∷ []) message = refl
  iter_reversed-cons (d ∷ second ∷ rest) message = elim (Bool-cases (d.weight == second.weight)) [
    | inl same ↦ rw same (simp append_assoc)
    | inr differ ↦ rw differ
  ]

  IsPerfect-join :
      (message : A) (l r : HistoryTree A) (w v : ℕ)
      → w ≡ v
      → IsPerfect l w
      → IsPerfect r v
      → IsPerfect (node message l r) (w * 2 + 1)
  IsPerfect-join message l r w v e hl hr =
      let half : w ≡ (w * 2 + 1 - 1) / 2 = omega arith in
      let half' : v ≡ (w * 2 + 1 - 1) / 2 = omega arith in
      (omega arith, rw half at hl, rw half' at hr)

  -- The weight of a perfect tree above another's is at least the next skew weight.
  next_weight-le :
      (t u : HistoryTree A) (w v : ℕ) → IsPerfect t w → IsPerfect u v → w < v → w * 2 + 1 ≤ v
  next_weight-le (leaf a) (leaf b) w v p q lt = absurd (omega arith)
  next_weight-le (leaf a) (node b l r) w v p q lt = omega (arith, q.0)
  next_weight-le (node a l r) (leaf b) w v p q lt = absurd (omega (arith, p.0))
  next_weight-le (node a l r) (node b l' r') w v p q lt = omega (
    arith,
    p.0,
    q.0,
    next_weight-le l l' ((w - 1) / 2) ((v - 1) / 2) p.1 q.1 (omega (arith, p.0, q.0)),
  )

  -- Two equal leading trees under a new root keep the form.
  IsSkew-merge :
      (message : A) (d second : HistoryDigit A) (rest : Digits A)
      → d.weight ≡ second.weight
      → IsSkew (d ∷ second ∷ rest)
      → IsSkew (record { weight = d.weight * 2 + 1; tree = node message d.tree second.tree } ∷ rest)
  IsSkew-merge message d second [] e h =
      (IsPerfect-join message d.tree second.tree d.weight second.weight e h.0 h.1, tt)
  IsSkew-merge message d second (third ∷ rest) e h =
      let grown =
        next_weight-le second.tree third.tree second.weight third.weight h.1 h.3.0 h.3.1 in
      (
        IsPerfect-join message d.tree second.tree d.weight second.weight e h.0 h.1,
        h.3.0,
        omega arith,
        h.3.2,
      )

  pub cons-IsSkew : (ds : Digits A) (message : A) → IsSkew ds → IsSkew (cons ds message)
  unfolding cons
  cons-IsSkew [] message h = (refl, tt)
  cons-IsSkew (d ∷ []) message h = (refl, h.0, IsPerfect-pos d.tree d.weight h.0, tt)
  cons-IsSkew (d ∷ second ∷ rest) message h = elim (Bool-cases (d.weight == second.weight)) [
    | inl same ↦ rw same (IsSkew-merge message d second rest ((==_iff _ _).0 same) h)
    | inr differ ↦
        rw differ (refl, h.0, IsPerfect-pos d.tree d.weight h.0, (h.1, ground arith, h.3))
  ]

  -- Each further digit doubles the weight that the digits hold.
  growing-length :
      (prev : HistoryDigit A) (ds : Digits A)
      → IsPerfect prev.tree prev.weight
      → IsGrowing prev.weight ds
      → (prev.weight + 1) * 2 ^ length ds ≤ length (iter_reversed ds) + prev.weight + 1
  unfolding iter_reversed
  growing-length prev [] p g = omega arith
  growing-length prev (d ∷ rest) p g =
      let grown = next_weight-le prev.tree d.tree prev.weight d.weight p g.0 g.1 in
      let later = growing-length d rest g.0 g.2 in
      let size = length-iter_tree d.tree d.weight g.0 in
      let scaled = mul_mono (2 * prev.weight + 2) (d.weight + 1) (2 ^ length rest) (omega arith) in
      rw (length-append (iter_tree d.tree) (iter_reversed rest), size, pow-suc) (omega arith)

  pub digits_logarithmic :
      (ds : Digits A) → IsSkew ds → 2 ^ length ds ≤ 2 * (length (iter_reversed ds) + 1)
  unfolding iter_reversed
  digits_logarithmic [] h = omega arith
  digits_logarithmic (d ∷ []) h = omega arith
  digits_logarithmic (d ∷ second ∷ rest) h =
      let later = growing-length second rest h.1 h.3 in
      let first_size = length-iter_tree d.tree d.weight h.0 in
      let second_size = length-iter_tree second.tree second.weight h.1 in
      let positive = IsPerfect-pos second.tree second.weight h.1 in
      let scaled = mul_mono 2 (second.weight + 1) (2 ^ length rest) (omega arith) in
      rw
        (
          length-append (iter_tree d.tree) (iter_tree second.tree ++ iter_reversed rest),
          length-append (iter_tree second.tree) (iter_reversed rest),
          pow-suc,
          pow-suc,
        )
        (omega arith)
