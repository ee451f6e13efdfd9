-- ===== src/Base/Text/Decimal.antt =====
-- Decimal numbers as the standard library prints and parses them: `format!("{}", n)` and
-- `str::parse::<u64>`, and the searches in a text that the identifiers need.
use Prim.Native.Nat.{ℕ, zero, suc, ◌+◌, ◌-◌, ◌*◌, ◌/◌, ◌%◌, ◌<◌, ◌≤◌}
use mathlib.Core.Path.{◌≡◌, refl, ◌∙◌, ap, sym}
use mathlib.Core.Logic.{inl, inr, ◌≢◌}
use mathlib.Core.Bool.{Bool, true, false, ◌&&◌}
use mathlib.Core.Option.{Option, none, some}
use mathlib.Core.List.{[], ◌∷◌, ◌++◌, append_assoc, append-nil}
use native.Mathlib.Omega.{arith}
use simple_im.Base.Tests.{ltb, leb, eqb, if◌then◌else◌, Bool-cases}
use simple_im.Base.Lists.{All, any, length, length-append}
use simple_im.Base.Words.{u64_max}
use simple_im.Base.Text.{Text}

abbrev pub pow10 : ℕ → ℕ
pow10 zero = 1
pow10 (suc f) = 10 * pow10 f

decimal : ℕ → ℕ → Text
decimal zero n = []
decimal (suc f) n =
    let rest = decimal f (n / 10) in if ltb n 10 then (48 + n) ∷ [] else rest ++ (48 + n % 10) ∷ []

-- A `u64` has at most twenty digits.
unfoldable pub to_string : ℕ → Text
unfolding decimal
to_string n = decimal 20 n

abbrev is_digit : ℕ → Bool
is_digit c = leb 48 c && leb c 57

scan : Text → ℕ → Option ℕ
scan [] acc = some acc
scan (c ∷ s) acc =
    let rest = scan s (acc * 10 + (c - 48)) in
    if is_digit c && leb (acc * 10 + (c - 48)) u64_max then rest else none

-- `"".parse()` and `"+".parse()` are errors, and a leading `+` is passed over.
scan_sign : ℕ → Text → Option ℕ
unfolding scan
scan_sign c [] = scan (c ∷ []) 0
scan_sign c (d ∷ s) = if eqb c b'+' then scan (d ∷ s) 0 else scan (c ∷ d ∷ s) 0

unfoldable pub parse : Text → Option ℕ
unfolding scan_sign
parse [] = none
parse (c ∷ s) = scan_sign c s

-- `rsplit(sep).next()`: what follows the last separator, or the whole text.
unfoldable pub last_segment : ℕ → Text → Text
unfolding any
last_segment sep [] = []
last_segment sep (c ∷ s) =
    let rest = last_segment sep s in
    if any (eqb sep) s then rest else if eqb sep c then s else c ∷ s

-- `strip_prefix`
unfoldable pub strip_prefix : Text → Text → Option Text
strip_prefix [] s = some s
strip_prefix (p ∷ ps) [] = none
strip_prefix (p ∷ ps) (c ∷ s) = let rest = strip_prefix ps s in if eqb p c then rest else none

abbrev pub IsDigit : ℕ → Type 0
IsDigit c = (48 ≤ c) × (c ≤ 57)

All-snoc : (c : ℕ) (s : Text) → All IsDigit s → IsDigit c → All IsDigit (s ++ c ∷ [])
All-snoc c [] h k = (k, tt)
All-snoc c (d ∷ s) h k = (h.0, All-snoc c s h.1 k)

decimal-IsDigit : (f n : ℕ) → All IsDigit (decimal f n)
unfolding decimal
decimal-IsDigit zero n = tt
decimal-IsDigit (suc f) n = elim (Bool-cases (ltb n 10)) [
  | inl e ↦ rw e (ground arith)
  | inr e ↦ rw e (All-snoc _ _ (decimal-IsDigit f (n / 10)) (omega arith))
]

pub to_string-IsDigit : (n : ℕ) → All IsDigit (to_string n)
unfolding to_string
to_string-IsDigit n = decimal-IsDigit 20 n

decimal_small : (f n : ℕ) → ltb n 10 ≡ true → decimal (suc f) n ≡ (48 + n) ∷ []
unfolding decimal
decimal_small f n e = rw e

decimal_large :
    (f n : ℕ) → ltb n 10 ≡ false → decimal (suc f) n ≡ decimal f (n / 10) ++ (48 + n % 10) ∷ []
unfolding decimal
decimal_large f n e = rw e

scan_digit :
    (d acc : ℕ) (s : Text)
    → d < 10
    → acc * 10 + d ≤ u64_max
    → scan ((48 + d) ∷ s) acc ≡ scan s (acc * 10 + d)
unfolding scan
scan_digit d acc s h k = let e : (48 + d) - 48 ≡ d = omega arith in rw e (ground arith)

scan_first : (n : ℕ) (s : Text) → n < 10 → scan ((48 + n) ∷ s) 0 ≡ scan s n
scan_first n s h =
    let n_digit : 0 * 10 + n ≡ n = omega arith in
    scan_digit n 0 s h (omega arith) ∙ ap (scan s) n_digit

snoc-ne-nil : (s : Text) (c : ℕ) → s ++ c ∷ [] ≢ []
snoc-ne-nil [] c e = cc
snoc-ne-nil (d ∷ s) c e = cc

scan-decimal :
    (f n : ℕ) (s : Text)
    → n < pow10 (suc f)
    → n ≤ u64_max
    → scan (decimal (suc f) n ++ s) 0 ≡ scan s n
scan-decimal zero n s h k = rw (decimal_small 0 n (ground arith)) (scan_first n s (omega arith))
scan-decimal (suc f) n s h k = elim (Bool-cases (ltb n 10)) [
  | inl e ↦ rw (decimal_small (suc f) n e) (scan_first n s (ground arith))
  | inr e ↦
      let n_digits : n / 10 * 10 + n % 10 ≡ n = omega arith in
      rw
        (
          decimal_large (suc f) n e,
          append_assoc,
          scan-decimal f (n / 10) ((48 + n % 10) ∷ s) (omega arith) (omega arith),
        )
        (scan_digit (n % 10) (n / 10) s (omega arith) (omega arith) ∙ ap (scan s) n_digits)
]

-- What `parse` reads after a first digit is what `scan` reads.
parse-scan : (s : Text) → All IsDigit s → s ≢ [] → parse s ≡ scan s 0
unfolding parse
parse-scan [] h k = absurd (k refl)
parse-scan (c ∷ []) h k = refl
parse-scan (c ∷ d ∷ s) h k = ground arith

decimal-ne-nil : (f n : ℕ) → decimal (suc f) n ≢ []
decimal-ne-nil f n = elim (Bool-cases (ltb n 10)) [
  | inl e ↦ rw (decimal_small f n e) (cc)
  | inr e ↦ rw (decimal_large f n e) (snoc-ne-nil (decimal f (n / 10)) (48 + n % 10))
]

scan-nil : (n : ℕ) → scan [] n ≡ some n
unfolding scan
scan-nil n = refl

-- A printed number parses to itself.
pub parse-to_string : (n : ℕ) → n ≤ u64_max → parse (to_string n) ≡ some n
unfolding to_string
parse-to_string n h =
    parse-scan (decimal 20 n) (decimal-IsDigit 20 n) (decimal-ne-nil 19 n)
    ∙ sym (ap (λ t. scan t 0) (append-nil (decimal 20 n)))
    ∙ scan-decimal 19 n [] (omega arith) h
    ∙ scan-nil n

any_dash : (s : Text) → All IsDigit s → any (eqb b'-') s ≡ false
unfolding any
any_dash [] h = refl
any_dash (c ∷ s) h = ground (arith, any_dash s h.1)

any_dash-append : (p s : Text) → any (eqb b'-') (p ++ b'-' ∷ s) ≡ true
unfolding any
any_dash-append [] s = refl
any_dash-append (c ∷ p) s = ground (arith, any_dash-append p s)

-- What follows the dash of `format!("{}-{}", prefix, digits)`.
pub last_segment-append : (p s : Text) → All IsDigit s → last_segment b'-' (p ++ b'-' ∷ s) ≡ s
unfolding last_segment any
last_segment-append [] s h = ground (arith, any_dash s h)
last_segment-append (c ∷ p) s h = ground (arith, any_dash-append p s, last_segment-append p s h)

pub strip_prefix-append : (p s : Text) → strip_prefix p (p ++ s) ≡ some s
unfolding strip_prefix
strip_prefix-append [] s = refl
strip_prefix-append (c ∷ p) s = ground (arith, strip_prefix-append p s)

length-decimal :
    (k f n : ℕ) → k < f → pow10 k ≤ n → n < pow10 (suc k) → length (decimal f n) ≡ suc k
unfolding decimal
length-decimal k zero n h lo hi = absurd (omega arith)
length-decimal zero (suc f) n h lo hi = rw (decimal_small f n (ground arith))
length-decimal (suc k) (suc f) n h lo hi =
    rw
      (
        decimal_large f n (ground arith),
        length-append (decimal f (n / 10)) ((48 + n % 10) ∷ []),
        length-decimal k f (n / 10) (omega arith) (omega arith) (omega arith),
      )
      (omega arith)

-- A number between two powers of ten has as many digits as they say.
pub length-to_string :
    (k n : ℕ) → k < 20 → pow10 k ≤ n → n < pow10 (suc k) → length (to_string n) ≡ suc k
unfolding to_string
length-to_string k n h lo hi = length-decimal k 20 n h lo hi

-- Different numbers print differently.
pub to_string_injective : (m n : ℕ) → m ≤ u64_max → n ≤ u64_max → to_string m ≡ to_string n → m ≡ n
to_string_injective m n h k e =
    let printed : parse (to_string m) ≡ parse (to_string n) = ap parse e in
    ground (arith, printed, parse-to_string m h, parse-to_string n k)
