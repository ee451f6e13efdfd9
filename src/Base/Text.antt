-- ===== src/Base/Text.antt =====
-- Texts as lists of byte codes: equality, decimal printing (`format!`) and parsing (`str::parse`).
pub mod Decimal
use Prim.Native.Char.{code}
use Prim.Native.String.{String}
use Prim.Native.Nat.{ℕ, zero, suc, ◌+◌, ◌-◌, ◌*◌, ◌/◌, ◌%◌, ◌<◌, ◌≤◌}
use mathlib.Core.Path.{◌≡◌, refl}
use mathlib.Core.Logic.{◌↔◌}
use mathlib.Core.Bool.{Bool, true, false, ◌&&◌, ◌||◌}
use mathlib.Core.Option.{Option, none, some}
use mathlib.Core.List.{List, [], ◌∷◌, ◌++◌}
use native.Mathlib.Omega.{arith}
use simple_im.Base.Tests.{ltb, leb, eqb, eqb_iff, if◌then◌else◌}
use simple_im.Base.Interface.{Eq}
use simple_im.Base.Words.{u64_max}

abbrev pub Text : Type 0
Text = List ℕ

abbrev pub codes : String → Text
codes String.[] = []
codes (String.◌∷◌ c s) = code c ∷ codes s

unfoldable pub text_eq : Text → Text → Bool
text_eq [] [] = true
text_eq [] (y ∷ ys) = false
text_eq (x ∷ xs) [] = false
text_eq (x ∷ xs) (y ∷ ys) = eqb x y && text_eq xs ys

pub text_eq_iff : (a b : Text) → (text_eq a b ≡ true) ↔ (a ≡ b)
unfolding text_eq
text_eq_iff [] [] = ground arith
text_eq_iff [] (y ∷ ys) = ground arith
text_eq_iff (x ∷ xs) [] = ground arith
text_eq_iff (x ∷ xs) (y ∷ ys) = ground (arith, text_eq_iff xs ys, eqb_iff x y)

pub text_eq_self : (a : Text) → text_eq a a ≡ true
text_eq_self a = (text_eq_iff a a).1 refl

abbrev pair_eq : Text × Text → Text × Text → Bool
pair_eq (a, b) (c, d) = text_eq a c && text_eq b d

pair_eq_iff : (p q : Text × Text) → (pair_eq p q ≡ true) ↔ (p ≡ q)
pair_eq_iff (a, b) (c, d) = ground (arith, text_eq_iff a c, text_eq_iff b d)

instance abbrev pub text_Eq : Eq Text
text_Eq = record { beq = text_eq; beq_iff = text_eq_iff }

instance abbrev pub pair_Eq : Eq (Text × Text)
unfolding pair_eq_iff
pair_Eq = record { beq = pair_eq; beq_iff = pair_eq_iff }

-- `x.as_deref() == Some(y)`
abbrev pub is_text : Option Text → Text → Bool
is_text none y = false
is_text (some x) y = text_eq x y

pub is_text_iff : (o : Option Text) (x : Text) → (is_text o x ≡ true) ↔ (o ≡ some x)
is_text_iff none x = ground arith
is_text_iff (some y) x = ground (arith, text_eq_iff y x)
