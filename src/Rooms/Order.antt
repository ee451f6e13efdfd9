-- ===== src/Rooms/Order.antt =====
-- `sort_unstable` on texts (rooms.rs), in the byte order of `str`.
use simple_im.Base.{
  ◌≡◌, refl, inl, inr, Bool, true, false, ◌||◌, List, [], ◌∷◌, arith, ltb, eqb, if◌then◌else◌, any,
  All, Bool-cases,
}
use simple_im.Base.Text.{Text, text_eq, text_Eq}

-- `a <= b` on texts.
unfoldable pub text_le : Text → Text → Bool
text_le [] b = true
text_le (x ∷ a) [] = false
text_le (x ∷ a) (y ∷ b) =
    let rest = text_le a b in if ltb x y then true else if eqb x y then rest else false

insert_sorted : Text → List Text → List Text
insert_sorted a [] = a ∷ []
insert_sorted a (b ∷ bs) = if text_le a b then a ∷ b ∷ bs else b ∷ insert_sorted a bs

unfoldable pub sort : List Text → List Text
unfolding insert_sorted
sort [] = []
sort (a ∷ names) = insert_sorted a (sort names)

abbrev pub IsSorted : List Text → Type 0
IsSorted [] = Unit
IsSorted (a ∷ names) = All (λ b. text_le a b ≡ true) names × IsSorted names

text_le-total : (a b : Text) → text_le a b ≡ false → text_le b a ≡ true
unfolding text_le
text_le-total [] b h = absurd (ground arith)
text_le-total (x ∷ a) [] h = refl
text_le-total (x ∷ a) (y ∷ b) h = ground (arith, text_le-total a b)

text_le_trans : (a b c : Text) → text_le a b ≡ true → text_le b c ≡ true → text_le a c ≡ true
unfolding text_le
text_le_trans [] b c h k = refl
text_le_trans (x ∷ a) [] c h k = absurd (ground arith)
text_le_trans (x ∷ a) (y ∷ b) [] h k = absurd (ground arith)
text_le_trans (x ∷ a) (y ∷ b) (z ∷ c) h k = ground (arith, text_le_trans a b c)

insert_sorted-All :
    (P : Text → Type 0) (a : Text) (bs : List Text) → P a → All P bs → All P (insert_sorted a bs)
unfolding insert_sorted
insert_sorted-All P a [] p h = (p, tt)
insert_sorted-All P a (b ∷ bs) p h = elim (Bool-cases (text_le a b)) [
  | inl e ↦ rw e (p, h)
  | inr e ↦ rw e (h.0, insert_sorted-All P a bs p h.1)
]

All-le :
    (a b : Text) (bs : List Text)
    → text_le a b ≡ true
    → All (λ c. text_le b c ≡ true) bs
    → All (λ c. text_le a c ≡ true) bs
All-le a b [] h k = tt
All-le a b (c ∷ bs) h k = (text_le_trans a b c h k.0, All-le a b bs h k.1)

insert_sorted-IsSorted : (a : Text) (bs : List Text) → IsSorted bs → IsSorted (insert_sorted a bs)
unfolding insert_sorted
insert_sorted-IsSorted a [] s = (tt, tt)
insert_sorted-IsSorted a (b ∷ bs) s = elim (Bool-cases (text_le a b)) [
  | inl e ↦ rw e ((e, All-le a b bs e s.0), s)
  | inr e ↦ rw e (
    insert_sorted-All (λ c. text_le b c ≡ true) a bs (text_le-total a b e) s.0,
    insert_sorted-IsSorted a bs s.1,
  )
]

pub sort-IsSorted : (names : List Text) → IsSorted (sort names)
unfolding sort
sort-IsSorted [] = tt
sort-IsSorted (a ∷ names) = insert_sorted-IsSorted a (sort names) (sort-IsSorted names)

any-insert_sorted :
    (n a : Text) (bs : List Text)
    → any (text_eq n) (insert_sorted a bs) ≡ (text_eq n a || any (text_eq n) bs)
unfolding insert_sorted any
any-insert_sorted n a [] = refl
any-insert_sorted n a (b ∷ bs) = ground (arith, any-insert_sorted n a bs)

pub any-sort : (n : Text) (names : List Text) → any (text_eq n) (sort names) ≡ any (text_eq n) names
unfolding sort any
any-sort n [] = refl
any-sort n (a ∷ names) = ground (arith, any-insert_sorted n a (sort names), any-sort n names)
