-- ===== src/Http/Filename.antt =====
-- http.rs: the file names of attachments are made safe for a header.
use simple_im.Base.{
  ℕ, zero, suc, ◌≤◌, ◌<◌, ◌≡◌, ◌≢◌, ◌⊎◌, refl, ap, retain, All-map, false, inl, inr, Bool, true,
  not, ◌&&◌, ◌||◌, [], ◌∷◌, arith, leb, eqb, length, All, retain-All, Bool-cases,
}
use simple_im.Base.Text.{Text, codes}
use simple_im.Http.Respond.{trim_start, trim_end, trim, is_blank, is_space}

abbrev is_control : ℕ → Bool
is_control c = leb c 31 || (leb 127 c && leb c 159)

-- Neither a control character, nor a quote, nor a backslash.
abbrev pub is_harmless : ℕ → Bool
is_harmless c = not (is_control c) && not (eqb c b'"') && not (eqb c 92)

-- `chars().take(n)`
unfoldable pub take : ℕ → Text → Text
take zero s = []
take (suc n) [] = []
take (suc n) (c ∷ s) = c ∷ take n s

abbrev or_file : Text → Text
or_file [] = codes "file"
or_file (c ∷ s) = take 255 (c ∷ s)

unfoldable pub sanitize_filename : Text → Text
unfolding retain trim take
sanitize_filename name = or_file (trim (retain is_harmless name))

trim_start-All : (P : ℕ → Type 0) (s : Text) → All P s → All P (trim_start s)
unfolding trim_start
trim_start-All P [] h = tt
trim_start-All P (c ∷ s) h = elim (Bool-cases (is_space c)) [
  | inl e ↦ rw e (trim_start-All P s h.1)
  | inr e ↦ rw e h
]

trim_end-All : (P : ℕ → Type 0) (s : Text) → All P s → All P (trim_end s)
unfolding trim_end
trim_end-All P [] h = tt
trim_end-All P (c ∷ s) h = elim (Bool-cases (is_blank (c ∷ s))) [
  | inl e ↦ rw e tt
  | inr e ↦ rw e (h.0, trim_end-All P s h.1)
]

take-All : (P : ℕ → Type 0) (n : ℕ) (s : Text) → All P s → All P (take n s)
unfolding take
take-All P zero s h = tt
take-All P (suc n) [] h = tt
take-All P (suc n) (c ∷ s) h = (h.0, take-All P n s h.1)

length-take-le : (n : ℕ) (s : Text) → length (take n s) ≤ n
unfolding take
length-take-le zero s = omega arith
length-take-le (suc n) [] = omega arith
length-take-le (suc n) (c ∷ s) = omega (arith, length-take-le n s)

-- A character that cannot end or split a header: no control character, no quote and no
-- backslash, by their code points.
abbrev pub IsSafe : ℕ → Type 0
IsSafe c = (32 ≤ c) × ((c < 127) ⊎ (160 ≤ c)) × (c ≢ 34) × (c ≢ 92)

harmless-IsSafe : (c : ℕ) → is_harmless c ≡ true → IsSafe c
harmless-IsSafe c e = (
  ground (arith, e),
  ground (arith, e),
  λ q. absurd (ground (arith, e, q)),
  λ q. absurd (ground (arith, e, q)),
)

or_file-IsSafe :
    (s : Text)
    → All IsSafe s
    → All IsSafe (or_file s) × (1 ≤ length (or_file s)) × (length (or_file s) ≤ 255)
unfolding take
or_file-IsSafe [] h = (
  (
    harmless-IsSafe 102 refl,
    (harmless-IsSafe 105 refl, (harmless-IsSafe 108 refl, (harmless-IsSafe 101 refl, tt))),
  ),
  omega arith,
  omega arith,
)
or_file-IsSafe (c ∷ s) h = (take-All IsSafe 255 (c ∷ s) h, omega arith, length-take-le 255 (c ∷ s))

-- A name that needs no change: safe characters, none of them a blank, and at most 255.
abbrev pub IsPlain : ℕ → Type 0
IsPlain c = IsSafe c × (is_space c ≡ false)

plain_harmless : (c : ℕ) → IsPlain c → is_harmless c ≡ true
plain_harmless c ((low, high, quote, slash), blank) = ground (arith, low, high, quote, slash)

retain-plain : (s : Text) → All IsPlain s → retain is_harmless s ≡ s
unfolding retain
retain-plain [] h = refl
retain-plain (c ∷ s) h = rw (plain_harmless c h.0) (ap (λ t. c ∷ t) (retain-plain s h.1))

trim_start-plain : (s : Text) → All IsPlain s → trim_start s ≡ s
unfolding trim_start
trim_start-plain [] h = refl
trim_start-plain (c ∷ s) h = rw (h.0.1) refl

trim_end-plain : (s : Text) → All IsPlain s → trim_end s ≡ s
unfolding trim_end
trim_end-plain [] h = refl
trim_end-plain (c ∷ s) h = rw (h.0.1) (ap (λ t. c ∷ t) (trim_end-plain s h.1))

take_all : (n : ℕ) (s : Text) → length s ≤ n → take n s ≡ s
unfolding take
take_all zero [] h = refl
take_all zero (c ∷ s) h = absurd (omega arith)
take_all (suc n) [] h = refl
take_all (suc n) (c ∷ s) h = ap (λ t. c ∷ t) (take_all n s (omega arith))

or_file-short : (s : Text) → 1 ≤ length s → length s ≤ 255 → or_file s ≡ s
or_file-short [] l h = absurd (omega arith)
or_file-short (c ∷ s) l h = take_all 255 (c ∷ s) h

-- A sanitized name has one to 255 characters, and none of them is a control character, a quote or a
-- backslash. A name of one to 255 such characters without white space is left as it is.
pub sanitize_filename_lem :
    (name : Text)
    → All IsSafe (sanitize_filename name)
      × (1 ≤ length (sanitize_filename name))
      × (length (sanitize_filename name) ≤ 255)
      × (All IsPlain name → 1 ≤ length name → length name ≤ 255 → sanitize_filename name ≡ name)
unfolding sanitize_filename trim
sanitize_filename_lem name =
    let (safe, some_left, bounded) = or_file-IsSafe (trim (retain is_harmless name)) (
      trim_end-All IsSafe (trim_start (retain is_harmless name)) (
        trim_start-All IsSafe (retain is_harmless name) (
          All-map (λ c. is_harmless c ≡ true) IsSafe (retain is_harmless name) harmless-IsSafe
            (retain-All is_harmless name)))) in
    (safe, some_left, bounded, λ p l h. kept p l h)
  where
    kept : All IsPlain name → 1 ≤ length name → length name ≤ 255 → sanitize_filename name ≡ name
    kept p l h =
        rw (retain-plain name p, trim_start-plain name p, trim_end-plain name p)
          (or_file-short name l h)
