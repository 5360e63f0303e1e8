-- ===== src/Tooling/Execution/Counts.antt =====
-- Sums over the slots of an execution, and a slot that is written.
use jharness.Common.{
  ℕ, zero, suc, ◌+◌, ◌≤◌, ◌≡◌, refl, ap, dec_lt, Option, none, some, List, [], ◌∷◌, ◌++◌, get_elem?,
  set, length, map, subst, ◌==◌, ==_iff, if◌then◌else◌, arith,
}

module _ {A : Type 0} where
  pub total : (A → ℕ) → List A → ℕ
  total f [] = 0
  total f (x ∷ xs) = f x + total f xs

  pub total-cons : (f : A → ℕ) (x : A) (xs : List A) → total f (x ∷ xs) ≡ f x + total f xs
  unfolding total
  total-cons f x xs = refl

  pub total-set :
      (f : A → ℕ) (xs : List A) (i : ℕ) (x y : A)
      → get_elem? xs i ≡ some x
      → total f (set xs i y) + f x ≡ total f xs + f y
  unfolding total
  total-set f [] i x y h = cc
  total-set f (z ∷ xs) zero x y h = let same : z ≡ x = cc in omega (arith, ap f same)
  total-set f (z ∷ xs) (suc i) x y h = omega (arith, total-set f xs i x y h)

  pub total_mono : (f g : A → ℕ) (xs : List A) → ((x : A) → f x ≤ g x) → total f xs ≤ total g xs
  unfolding total
  total_mono f g [] below = omega arith
  total_mono f g (x ∷ xs) below = omega (arith, below x, total_mono f g xs below)

  pub le-total :
      (f : A → ℕ) (xs : List A) (i : ℕ) (x : A) → get_elem? xs i ≡ some x → f x ≤ total f xs
  unfolding total
  le-total f [] i x h = cc
  le-total f (z ∷ xs) zero x h = let same : z ≡ x = cc in omega (arith, ap f same)
  le-total f (z ∷ xs) (suc i) x h = omega (arith, le-total f xs i x h)

  -- What is not all zero is positive at some place.
  pub total_pos :
      (f : A → ℕ) (xs : List A)
      → 1 ≤ total f xs
      → (i : ℕ) × (x : A) × (get_elem? xs i ≡ some x) × (1 ≤ f x)
  unfolding total
  total_pos f [] h = absurd (omega arith)
  total_pos f (x ∷ xs) h = elim (dec_lt 0 (f x)) [
    | yes here ↦ (0, x, refl, here)
    | no none_here ↦
        let (i, y, found, positive) = total_pos f xs (omega arith) in (suc i, y, found, positive)
  ]

  pub get_elem?-set :
      (xs : List A) (i j : ℕ) (x y : A)
      → get_elem? xs i ≡ some x
      → get_elem? (set xs i y) j ≡ (if i == j then some y else get_elem? xs j)
  get_elem?-set [] i j x y h = cc
  get_elem?-set (z ∷ xs) zero zero x y h = refl
  get_elem?-set (z ∷ xs) zero (suc j) x y h = ground arith
  get_elem?-set (z ∷ xs) (suc i) zero x y h = ground arith
  get_elem?-set (z ∷ xs) (suc i) (suc j) x y h = ground (arith, get_elem?-set xs i j x y h)

  pub length-set : (xs : List A) (i : ℕ) (y : A) → length (set xs i y) ≡ length xs
  length-set [] i y = refl
  length-set (x ∷ xs) zero y = refl
  length-set (x ∷ xs) (suc i) y = ap suc (length-set xs i y)

  pub value_at : (A → ℕ) → Option A → ℕ
  value_at f none = 0
  value_at f (some x) = f x

  pub value_at-some : (f : A → ℕ) (o : Option A) (x : A) → o ≡ some x → value_at f o ≡ f x
  unfolding value_at
  value_at-some f o x h = ap (value_at f) h

  pub value_at_pos :
      (f : A → ℕ) (o : Option A) → 1 ≤ value_at f o → (x : A) × (o ≡ some x) × (1 ≤ f x)
  unfolding value_at
  value_at_pos f none h = absurd (omega arith)
  value_at_pos f (some x) h = (x, refl, h)

  pub value_at-set :
      (f : A → ℕ) (xs : List A) (i j : ℕ) (x y : A)
      → get_elem? xs i ≡ some x
      → value_at f (get_elem? (set xs i y) j) + (if i == j then f x else 0)
        ≡ value_at f (get_elem? xs j) + (if i == j then f y else 0)
  unfolding value_at
  value_at-set f [] i j x y h = cc
  value_at-set f (z ∷ xs) zero zero x y h = let same : z ≡ x = cc in omega (arith, ap f same)
  value_at-set f (z ∷ xs) zero (suc j) x y h = ground arith
  value_at-set f (z ∷ xs) (suc i) zero x y h = ground arith
  value_at-set f (z ∷ xs) (suc i) (suc j) x y h = ground (arith, value_at-set f xs i j x y h)

pub occurs : ℕ → List ℕ → ℕ
occurs i [] = 0
occurs i (j ∷ js) = (if j == i then 1 else 0) + occurs i js

pub occurs-cons :
    (i j : ℕ) (js : List ℕ) → occurs i (j ∷ js) ≡ (if j == i then 1 else 0) + occurs i js
unfolding occurs
occurs-cons i j js = refl

pub occurs_same : (j : ℕ) (js : List ℕ) → 1 ≤ occurs j (j ∷ js)
unfolding occurs
occurs_same j js = ground (arith, ==_iff j j)

pub occurs-nil : (i : ℕ) → occurs i [] ≡ 0
unfolding occurs
occurs-nil i = refl

pub occurs-append :
    (i : ℕ) (js : List ℕ) (j : ℕ)
    → occurs i (js ++ j ∷ []) ≡ occurs i js + (if j == i then 1 else 0)
unfolding occurs
occurs-append i [] j = omega arith
occurs-append i (k ∷ js) j = omega (arith, occurs-append i js j)

-- What is zero on all images of `g`.
module _ {A B : Type 0} (f : A → ℕ) (g : B → A) (none_counts : (b : B) → f (g b) ≡ 0) where
  pub total-map : (bs : List B) → total f (map g bs) ≡ 0
  unfolding total
  total-map [] = refl
  total-map (b ∷ bs) = omega (arith, none_counts b, total-map bs)

  pub value_at-map : (bs : List B) (i : ℕ) → value_at f (get_elem? (map g bs) i) ≡ 0
  unfolding value_at
  value_at-map [] i = refl
  value_at-map (b ∷ bs) zero = none_counts b
  value_at-map (b ∷ bs) (suc i) = value_at-map bs i

-- A property of all elements.
module _ {A : Type 0} (P : A → Type 0) where
  abbrev pub Everywhere : List A → Type 0
  Everywhere xs = (i : ℕ) (x : A) → get_elem? xs i ≡ some x → P x

  pub set-Everywhere :
      (xs : List A) (index : ℕ) (y : A) → P y → Everywhere xs → Everywhere (set xs index y)
  set-Everywhere [] index y new all i x h = cc
  set-Everywhere (z ∷ xs) zero y new all zero x h = let e : y ≡ x = cc in subst P e new
  set-Everywhere (z ∷ xs) zero y new all (suc i) x h = all (suc i) x h
  set-Everywhere (z ∷ xs) (suc index) y new all zero x h = all zero x h
  set-Everywhere (z ∷ xs) (suc index) y new all (suc i) x h =
      set-Everywhere xs index y new (λ j. all (suc j)) i x h

  pub map-Everywhere :
      {B : Type 0} (g : B → A) (bs : List B)
      → ((i : ℕ) (b : B) → get_elem? bs i ≡ some b → P (g b))
      → Everywhere (map g bs)
  map-Everywhere g [] made i x h = cc
  map-Everywhere g (b ∷ bs) made zero x h = let e : g b ≡ x = cc in subst P e (made 0 b refl)
  map-Everywhere g (b ∷ bs) made (suc i) x h = map-Everywhere g bs (λ j. made (suc j)) i x h
