-- ===== src/Trust/Listing/Laws.antt =====
-- How the listings of trust.rs agree with one another.
use simple_im.Base.{
  ℕ, ◌≡◌, ◌≢◌, refl, ap, Bool, false, not, ◌&&◌, ◌||◌, some, List, [], ◌∷◌, map, arith,
  if◌then◌else◌, ◌==◌, retain, any, All, Bool-cases, inl, inr, unwrap_or,
}
use simple_im.Base.Text.{Text, text_Eq, text_eq_iff, is_text}
use simple_im.Trust.Grant.{Grant, is_expired}
use simple_im.Trust.Chain.{TrustChain}
use simple_im.Trust.Listing.{
  GrantListItem, AllGrantItem, names, list_item, list_grants_for_name, all_item, passes,
  list_all_grants, is_party_a, is_party_b, other_party, counterparties, grant_counterparties_for,
}
use simple_im.Trust.Ids.{DistinctIds, IsFresh}

-- What a participant reads in a grant that the governor's listing shows.
abbrev as_seen_by : Text → AllGrantItem → GrantListItem
as_seen_by name i = record {
  id = i.id;
  counterparty = if is_text i.name_a name then unwrap_or i.name_b [] else unwrap_or i.name_a [];
  direction = i.direction;
  expires = i.expires;
}

seen_list :
    (now : ℕ) (name : Text) (gs : List Grant)
    → map (list_item name) (retain (λ g. if is_expired now g then false else names name g) gs)
      ≡ map
          (as_seen_by name)
          (map all_item (retain (λ g. if is_expired now g then false else passes (some name) g) gs))
unfolding retain
seen_list now name [] = refl
seen_list now name (g ∷ gs) = elim (Bool-cases (if is_expired now g then false else names name g)) [
  | inl e ↦ rw e (ap (◌∷◌ (list_item name g)) (seen_list now name gs))
  | inr e ↦ rw e (seen_list now name gs)
]

-- A participant's own listing is the governor's listing for that name, read from their side.
listings_agree :
    (t : TrustChain) (now : ℕ) (name : Text)
    → list_grants_for_name t now name ≡ map (as_seen_by name) (list_all_grants t now (some name))
unfolding list_grants_for_name list_all_grants
listings_agree t now name = seen_list now name t.grants

-- An unexpired grant with the participant on one of its sides.
abbrev pub involves : ℕ → Text → Text → Grant → Bool
involves now name identity g =
    not (is_expired now g) && (is_party_a name identity g || is_party_b name identity g)

-- None of the identifiers seen is one of the list's.
abbrev Unseen : List Text → List Grant → Type 0
Unseen ids gs = All (λ g. any (λ id. id == g.id) ids ≡ false) gs

Unseen-cons :
    (g : Grant) (ids : List Text) (gs : List Grant)
    → All (λ h. h.id ≢ g.id) gs
    → Unseen ids gs
    → Unseen (g.id ∷ ids) gs
unfolding any
Unseen-cons g ids [] a u = tt
Unseen-cons g ids (h ∷ gs) a u =
    (ground (arith, text_eq_iff g.id h.id, a.0, u.0), Unseen-cons g ids gs a.1 u.1)

counterparties_list :
    (now : ℕ) (name identity : Text) (ids : List Text) (gs : List Grant)
    → DistinctIds gs
    → Unseen ids gs
    → counterparties now name identity ids gs
      ≡ map (other_party name identity) (retain (involves now name identity) gs)
unfolding counterparties retain
counterparties_list now name identity ids [] d u = refl
counterparties_list now name identity ids (g ∷ gs) d u = ground (
  arith,
  u.0,
  counterparties_list now name identity ids gs d.1 u.1,
  counterparties_list now name identity (g.id ∷ ids) gs d.1 (Unseen-cons g ids gs d.0 u.1),
)

Unseen-nil : (gs : List Grant) → Unseen [] gs
unfolding any
Unseen-nil [] = tt
Unseen-nil (g ∷ gs) = (refl, Unseen-nil gs)

-- While identifiers are unique, the removal of duplicates removes nothing: the counterparties of a
-- participant are the other sides of the unexpired grants that involve it, in their order.
counterparties_lem :
    (t : TrustChain) (now : ℕ) (name identity : Text)
    → IsFresh t
    → grant_counterparties_for t now name identity
      ≡ map (other_party name identity) (retain (involves now name identity) t.grants)
unfolding grant_counterparties_for
counterparties_lem t now name identity v =
    counterparties_list now name identity [] t.grants v.distinct (Unseen-nil t.grants)
