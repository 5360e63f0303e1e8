-- ===== src/Common/Text.antt =====
-- Texts have decidable equality.
use Prim.Native.String.{String, ◌++◌}
use jharness.Common.Tests.{decide}
use mathlib.Core.Path.{◌≡◌, refl}
use mathlib.Core.Logic.{◌↔◌}
use mathlib.Core.Bool.{Bool, true, false}
use text.Mathlib.Text.{◌==◌}
use text.Mathlib.TextEquality.{eq_iff}

decide_text : (s t : String) (b : Bool) → (s == t) ≡ b → Dec (s ≡ t)
decide_text s t true h = yes ((eq_iff s t).0 h)
decide_text s t false h = no (λ e. contradiction (h' e))
  where
    h' : s ≡ t → (s == t) ≡ true
    h' e = (eq_iff s t).1 e

    contradiction : (s == t) ≡ true → ⊥
    contradiction k = cc

unfoldable pub String-discrete : Discrete String
unfolding decide_text
String-discrete s t = decide_text s t (s == t) refl

-- An f-string of two parts.
abbrev pub says : String → String → String
says label rest = label ++ rest

-- Python's `==` on texts.
abbrev pub same_string : String → String → Bool
same_string s t = s == t

pub same_string_iff : (s t : String) → (same_string s t ≡ true) ↔ (s ≡ t)
same_string_iff s t = eq_iff s t

decide-decide_text : (s t : String) (b : Bool) (h : (s == t) ≡ b) → decide (decide_text s t b h) ≡ b
unfolding decide_text
decide-decide_text s t true h = refl
decide-decide_text s t false h = refl

pub decide-String-discrete : (s t : String) → decide (String-discrete s t) ≡ same_string s t
unfolding String-discrete
decide-String-discrete s t = decide-decide_text s t (s == t) refl
