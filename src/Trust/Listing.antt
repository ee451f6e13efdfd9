-- ===== src/Trust/Listing.antt =====
-- trust.rs: the listings of grants, for a participant, for the governor, and for presence events.
pub mod Laws
use simple_im.Base.{
  ℕ, Bool, true, false, not, ◌&&◌, ◌||◌, Option, none, some, List, [], ◌∷◌, ◌++◌, map,
  if◌then◌else◌, ◌==◌, unwrap_or, retain, any, option_map,
}
use simple_im.Base.Text.{Text, text_Eq, is_text}
use simple_im.Trust.Grant.{Grant, GrantDirection, is_expired}
use simple_im.Trust.Chain.{TrustChain}

pub record GrantListItem : Type 0 where
  pub id : Text
  pub counterparty : Text
  pub direction : GrantDirection
  pub expires : Option ℕ

pub record AllGrantItem : Type 0 where
  pub id : Text
  pub identity_a : Text
  pub identity_b : Text
  pub name_a : Option Text
  pub name_b : Option Text
  pub direction : GrantDirection
  pub expires : Option ℕ

-- The grant has the stable name on one of its sides.
abbrev pub names : Text → Grant → Bool
names name g = is_text g.name_a name || is_text g.name_b name

unfoldable grant_ids_for_handle : TrustChain → Text → List Text
grant_ids_for_handle t handle = map (λ g. g.id) (retain (names handle) t.grants)

-- The other side; `unwrap_or_default` of a missing name is the empty text.
abbrev counterparty_of : Text → Grant → Text
counterparty_of name g =
    if is_text g.name_a name then unwrap_or g.name_b [] else unwrap_or g.name_a []

abbrev pub list_item : Text → Grant → GrantListItem
list_item name g = record {
  id = g.id;
  counterparty = counterparty_of name g;
  direction = g.direction;
  expires = g.expires;
}

unfoldable pub list_grants_for_name : TrustChain → ℕ → Text → List GrantListItem
list_grants_for_name t now caller_name =
    map (list_item caller_name)
      (retain (λ g. if is_expired now g then false else names caller_name g) t.grants)

abbrev pub all_item : Grant → AllGrantItem
all_item g = record {
  id = g.id;
  identity_a = g.identity_a;
  identity_b = g.identity_b;
  name_a = g.name_a;
  name_b = g.name_b;
  direction = g.direction;
  expires = g.expires;
}

abbrev pub passes : Option Text → Grant → Bool
passes none g = true
passes (some name) g = names name g

unfoldable pub list_all_grants : TrustChain → ℕ → Option Text → List AllGrantItem
list_all_grants t now participant_filter =
    map all_item
      (retain (λ g. if is_expired now g then false else passes participant_filter g) t.grants)

abbrev pub is_party_a : Text → Text → Grant → Bool
is_party_a name identity g = is_text g.name_a name || g.identity_a == identity

abbrev pub is_party_b : Text → Text → Grant → Bool
is_party_b name identity g = is_text g.name_b name || g.identity_b == identity

abbrev pub other_party : Text → Text → Grant → Option Text × Text
other_party name identity g =
    if is_party_a name identity g then (g.name_b, g.identity_b) else (g.name_a, g.identity_a)

-- The loop, with the set of the identifiers that it has seen.
unfoldable pub counterparties : ℕ → Text → Text → List Text → List Grant → List (Option Text × Text)
counterparties now name identity seen_ids [] = []
counterparties now name identity seen_ids (g ∷ gs) =
    let skip = counterparties now name identity seen_ids gs in
    let take =
      other_party name identity g ∷ counterparties now name identity (g.id ∷ seen_ids) gs in
    if is_expired now g
    then skip
    else if not (is_party_a name identity g) && not (is_party_b name identity g)
    then skip
    else if any (λ id. id == g.id) seen_ids
    then skip
    else take

unfoldable pub grant_counterparties_for : TrustChain → ℕ → Text → Text → List (Option Text × Text)
unfolding counterparties any
grant_counterparties_for t now name identity = counterparties now name identity [] t.grants
