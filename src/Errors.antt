-- ===== src/Errors.antt =====
-- The exceptions that the modelled code raises (packages/jharness-kernel/src/jharness/kernel/errors.py
-- and Python's own), and results of code that may raise. An exception carries its message where
-- the source writes a constant one.
use jharness.Common.{ℕ, String, ◌≡◌, refl, Option, Bool, true, false, if◌then◌else◌}

pub data Error : Type 0 where
  value_error type_error index_error assertion_error tool_error repository_error runtime_error
        key_error :
      String → Error
  request_error commit_error protocol_error : String → String → Error
  revision_conflict : Option ℕ → Option ℕ → Error

-- `ProtocolError(message)`, with its default code.
abbrev pub protocol : String → Error
protocol message = protocol_error "protocol_error" message

-- What code that may raise gives: an exception, or a value.
pub data Result {ℓ} (Value : Type ℓ) : Type ℓ where
  err : Error → Result Value
  ok : Value → Result Value

-- `if test: raise error`.
abbrev pub raise_if : Bool → Error → Result (Unit {0})
raise_if false raised = ok tt
raise_if true raised = err raised

-- The code after a call that may raise, with its value or without.
infixl 5 ◌>>=◌
abbrev pub ◌>>=◌ {κ ℓ} :
    {Value : Type κ} {Next : Type ℓ} → Result Value → (Value → Result Next) → Result Next
err raised >>= after = err raised
ok value >>= after = after value

infixl 5 ◌>>◌
abbrev pub ◌>>◌ {κ} : {Next : Type κ} → Result (Unit {0}) → Result Next → Result Next
call >> after = call >>= λ unused. after

-- A call chain that gives a value went through every call in it.
pub >>=-eq-ok {κ ℓ} :
    {Value : Type κ} {Next : Type ℓ} (call : Result Value) (after : Value → Result Next)
    {given : Next}
    → (call >>= after) ≡ ok given
    → (value : Value) × (call ≡ ok value) × (after value ≡ ok given)
>>=-eq-ok (err raised) after h = cc
>>=-eq-ok (ok value) after h = (value, refl, h)

-- Two results agree: both succeed with related values, or both raise the same exception.
abbrev pub Agree : {A B : Type 0} → (A → B → Type 0) → Result A → Result B → Type 0
Agree R (ok a) (ok b) = R a b
Agree R (err e) (err f) = e ≡ f
Agree R (ok a) (err f) = ⊥
Agree R (err e) (ok b) = ⊥

-- Agreement goes through a bind whose continuations agree.
pub Agree-bind :
    {A B C D : Type 0} (R : A → B → Type 0) (S : C → D → Type 0) (m : Result A) (n : Result B)
    (f : A → Result C) (g : B → Result D)
    → Agree R m n
    → ((a : A) (b : B) → R a b → Agree S (f a) (g b))
    → Agree S (m >>= f) (n >>= g)
Agree-bind R S (ok a) (ok b) f g h k = k a b h
Agree-bind R S (err e) (err e') f g h k = h
Agree-bind R S (ok a) (err e) f g h k = absurd h
Agree-bind R S (err e) (ok b) f g h k = absurd h

pub Agree-refl :
    {A : Type 0} (R : A → A → Type 0) → ((a : A) → R a a) → (m : Result A) → Agree R m m
Agree-refl R r (ok a) = r a
Agree-refl R r (err e) = refl

pub Agree-raise_unless :
    {A B : Type 0} (R : A → B → Type 0) (b : Bool) (e : Error) (m : Result A) (n : Result B)
    → Agree R m n
    → Agree R (if b then m else err e) (if b then n else err e)
Agree-raise_unless R true e m n h = h
Agree-raise_unless R false e m n h = refl

pub bind_assoc :
    {A B C : Type 0} (m : Result A) (f : A → Result B) (g : B → Result C)
    → (m >>= f >>= g) ≡ (m >>= λ a. f a >>= g)
bind_assoc (ok a) f g = refl
bind_assoc (err e) f g = refl

pub bind_cong :
    {A B : Type 0} (m : Result A) (f g : A → Result B)
    → ((a : A) → f a ≡ g a)
    → (m >>= f) ≡ (m >>= g)
bind_cong (ok a) f g h = h a
bind_cong (err e) f g h = refl

pub >>-eq-ok {ℓ} :
    {B : Type ℓ} (m : Result (Unit {0})) (n : Result B) {b : B}
    → (m >> n) ≡ ok b
    → (m ≡ ok tt) × (n ≡ ok b)
>>-eq-ok (ok u) n h = (refl, h)
>>-eq-ok (err e) n h = cc

pub raise_if-eq-ok : (b : Bool) (e : Error) → raise_if b e ≡ ok tt → b ≡ false
raise_if-eq-ok true e h = cc
raise_if-eq-ok false e h = refl
