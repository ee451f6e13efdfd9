-- ===== src/Hub/Sets.antt =====
-- `HashSet<String>` (delivery.rs) as a list with each text once.
use simple_im.Base.{
  ◌≡◌, ap, Bool, true, not, ◌&&◌, ◌||◌, List, [], ◌∷◌, ◌++◌, arith, if◌then◌else◌, ◌==◌, retain,
  any, all,
}
use simple_im.Base.Text.{Text, text_Eq, text_eq, text_eq_iff}

abbrev pub contains : List Text → Text → Bool
contains names name = any (λ n. n == name) names

unfoldable pub set_insert : Text → List Text → List Text
set_insert name names = if contains names name then names else names ++ name ∷ []

unfoldable pub set_remove : Text → List Text → List Text
set_remove name names = retain (λ n. not (n == name)) names

unfoldable pub is_subset : List Text → List Text → Bool
is_subset xs ys = all (contains ys) xs

contains-snoc : (a n : Text) (s : List Text) → contains (s ++ a ∷ []) n ≡ (a == n || contains s n)
unfolding any
contains-snoc a n [] = ground arith
contains-snoc a n (x ∷ s) = ground (arith, contains-snoc a n s)

contains_same : (a n : Text) (s : List Text) → text_eq a n ≡ true → contains s a ≡ contains s n
contains_same a n s e = ap (contains s) ((text_eq_iff a n).0 e)

pub contains-set_insert :
    (a n : Text) (s : List Text) → contains (set_insert a s) n ≡ (a == n || contains s n)
unfolding set_insert
contains-set_insert a n s = ground (arith, contains-snoc a n s, contains_same a n s)

pub contains-set_remove :
    (a n : Text) (s : List Text) → contains (set_remove a s) n ≡ (not (a == n) && contains s n)
unfolding set_remove retain any
contains-set_remove a n [] = ground arith
contains-set_remove a n (x ∷ s) =
    ground (arith, contains-set_remove a n s, text_eq_iff x a, text_eq_iff x n, text_eq_iff a n)

-- A member of the smaller set is one of the larger.
pub is_subset-contains :
    (xs ys : List Text) (n : Text)
    → is_subset xs ys ≡ true
    → contains xs n ≡ true
    → contains ys n ≡ true
unfolding is_subset all any
is_subset-contains [] ys n h m = absurd (ground arith)
is_subset-contains (x ∷ xs) ys n h m =
    ground (arith, is_subset-contains xs ys n, contains_same x n ys)
