-- ===== src/Trust/Purge.antt =====
-- What a check answers once grants of the trust chain (trust.rs) are purged or removed.
use simple_im.Base.{
  ℕ, ◌≤◌, ◌≡◌, ◌⊎◌, refl, Bool, true, false, not, Option, none, some, List, [], ◌∷◌, arith,
  if◌then◌else◌, ◌==◌, ltb, retain, find, any, All, All-map, retain-All, inl, inr, foldl, length,
}
use simple_im.Base.Text.{Text, text_Eq, text_eq, text_eq_iff}
use simple_im.Error.{err, no_grant}
use simple_im.Trust.Grant.{
  Grant, GrantDirection, matches_pair, symmetric, a_to_b, b_to_a, grant_covers_directed_with_names,
}
use simple_im.Trust.Chain.{TrustChain, has_id, remove_grant, mentions, purge_grants_for}
use simple_im.Trust.Check.{start, visit, check_grant_directed_with_names}

-- The names by which a participant is known to a check: as an identity, and by a stable name.
abbrev KnownAs : Text → Text → Option Text → Type 0
KnownAs name identity stable = (identity ≡ name) × ((stable ≡ none) ⊎ (stable ≡ some name))

not_party :
    (d : GrantDirection) (x y from to name : Text)
    → text_eq x name ≡ false
    → text_eq y name ≡ false
    → (from ≡ name) ⊎ (to ≡ name)
    → matches_pair d x y from to ≡ false
unfolding matches_pair
not_party symmetric x y from to name p q (inl e) = rw e (ground arith)
not_party symmetric x y from to name p q (inr e) = rw e (ground arith)
not_party a_to_b x y from to name p q (inl e) = rw e (ground arith)
not_party a_to_b x y from to name p q (inr e) = rw e (ground arith)
not_party b_to_a x y from to name p q (inl e) = rw e (ground arith)
not_party b_to_a x y from to name p q (inr e) = rw e (ground arith)

known_identity :
    (from to name : Text) (from_name to_name : Option Text)
    → KnownAs name from from_name ⊎ KnownAs name to to_name
    → (from ≡ name) ⊎ (to ≡ name)
known_identity from to name from_name to_name (inl c) = inl c.0
known_identity from to name from_name to_name (inr c) = inr c.0

known_name :
    (from to name f t : Text)
    → KnownAs name from (some f) ⊎ KnownAs name to (some t)
    → (f ≡ name) ⊎ (t ≡ name)
known_name from to name f t (inl (e, inl n)) = absurd (cc)
known_name from to name f t (inl (e, inr n)) = inl (cc)
known_name from to name f t (inr (e, inl n)) = absurd (cc)
known_name from to name f t (inr (e, inr n)) = inr (cc)

module _ (from to name : Text) (g : Grant) (m : mentions name g ≡ false) where
  covers_not :
      (from_name to_name name_a name_b : Option Text)
      → g.name_a ≡ name_a
      → g.name_b ≡ name_b
      → KnownAs name from from_name ⊎ KnownAs name to to_name
      → grant_covers_directed_with_names from to from_name to_name g ≡ false
  unfolding grant_covers_directed_with_names
  covers_not (some f) (some t) (some na) (some nb) p q c =
      ground (arith, not_party g.direction na nb f t name, known_name from to name f t c)
  covers_not from_name to_name none name_b p q c = ground (
    arith,
    not_party g.direction g.identity_a g.identity_b from to name,
    known_identity from to name from_name to_name c,
  )
  covers_not from_name to_name (some na) none p q c = ground (
    arith,
    not_party g.direction g.identity_a g.identity_b from to name,
    known_identity from to name from_name to_name c,
  )
  covers_not none to_name (some na) (some nb) p q c = ground (
    arith,
    not_party g.direction g.identity_a g.identity_b from to name,
    known_identity from to name none to_name c,
  )
  covers_not (some f) none (some na) (some nb) p q c = ground (
    arith,
    not_party g.direction g.identity_a g.identity_b from to name,
    known_identity from to name (some f) none c,
  )

no_cover :
    (p : Grant → Bool) (now : ℕ) (gs : List Grant)
    → All (λ g. p g ≡ false) gs
    → foldl (visit p now) start gs ≡ start
unfolding foldl visit
no_cover p now [] a = refl
no_cover p now (g ∷ gs) a = rw a.0 (no_cover p now gs a.1)

not-true : {b : Bool} → not b ≡ true → b ≡ false
not-true {b} h = ground arith

-- Once a participant's grants are purged, a check refuses it every sender and every recipient.
pub purge-check :
    (t : TrustChain) (now : ℕ) (name from to : Text) (from_name to_name : Option Text)
    → KnownAs name from from_name ⊎ KnownAs name to to_name
    → check_grant_directed_with_names (purge_grants_for t name).1 now from to from_name to_name
      ≡ err no_grant
unfolding check_grant_directed_with_names purge_grants_for
purge-check t now name from to from_name to_name c =
    let gs = retain (λ g. not (mentions name g)) t.grants in
    rw (
      no_cover (grant_covers_directed_with_names from to from_name to_name) now gs (
        All-map (λ g. not (mentions name g) ≡ true)
          (λ g. grant_covers_directed_with_names from to from_name to_name g ≡ false) gs
          (λ g m.
            covers_not from to name g (not-true m) from_name to_name g.name_a g.name_b refl refl c)
          (retain-All (λ g. not (mentions name g)) t.grants)))

length-retain-le : (p : Grant → Bool) (gs : List Grant) → length (retain p gs) ≤ length gs
unfolding retain
length-retain-le p [] = omega arith
length-retain-le p (g ∷ gs) = ground (arith, length-retain-le p gs)

retain_shrinks :
    (p : Grant → Bool) (gs : List Grant)
    → ltb (length (retain (λ g. not (p g)) gs)) (length gs) ≡ any p gs
unfolding retain any
retain_shrinks p [] = ground arith
retain_shrinks p (g ∷ gs) =
    ground (arith, retain_shrinks p gs, length-retain-le (λ h. not (p h)) gs)

find-retain :
    (id j : Text) (gs : List Grant)
    → find (has_id j) (retain (λ g. not (has_id id g)) gs)
      ≡ (if id == j then none else find (has_id j) gs)
unfolding find retain
find-retain id j [] = ground arith
find-retain id j (g ∷ gs) =
    ground (arith, find-retain id j gs, text_eq_iff g.id id, text_eq_iff g.id j, text_eq_iff id j)

-- Removing a grant answers whether there was one with the identifier. No grant with it is left,
-- and every other identifier finds what it found before.
remove_grant_lem :
    (t : TrustChain) (grant_id : Text) (j : Text)
    → ((remove_grant t grant_id).0 ≡ any (has_id grant_id) t.grants)
      × (find (has_id j) (remove_grant t grant_id).1.grants
          ≡ (if grant_id == j then none else find (has_id j) t.grants))
unfolding remove_grant
remove_grant_lem t grant_id j =
    (retain_shrinks (has_id grant_id) t.grants, find-retain grant_id j t.grants)
