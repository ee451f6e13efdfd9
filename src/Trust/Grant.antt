-- ===== src/Trust/Grant.antt =====
-- trust.rs: a grant, which pairs it covers, and which of two grants is the better one.
use simple_im.Base.{
  ℕ, ◌*◌, Bool, true, false, not, ◌&&◌, ◌||◌, Option, none, some, leb, if◌then◌else◌, ◌==◌, ◌>>=◌,
  unwrap_or, u64_max, from_secs,
}
use simple_im.Base.Text.{Text, text_Eq, codes}
use simple_im.Base.Text.Decimal.{parse, strip_prefix, last_segment}

-- A hundred years (types.rs).
abbrev pub max_expiry : ℕ
max_expiry = from_secs (100 * 365 * 24 * 60 * 60)

pub data GrantDirection : Type 0 where
  symmetric a_to_b b_to_a : GrantDirection

pub data GrantMediation : Type 0 where
  bypass inspect notify : GrantMediation

pub record Grant : Type 0 where
  pub id : Text
  pub identity_a : Text
  pub identity_b : Text
  pub name_a : Option Text
  pub name_b : Option Text
  pub expires : Option ℕ
  pub direction : GrantDirection
  pub max_messages : Option ℕ
  pub messages_used : ℕ
  pub opens_reply_window : Bool
  pub governor_id : Text
  pub mediation : GrantMediation
  pub conditions : Option Text

pub record GrantRef : Type 0 where
  pub id : Text
  pub opens_reply_window : Bool
  pub mediation : GrantMediation
  pub governor_id : Text
  pub conditions : Option Text

pub record ApproveGrantRequest : Type 0 where
  pub direction : Option GrantDirection
  pub max_messages : Option ℕ
  pub opens_reply_window : Option Bool
  pub mediation : Option GrantMediation
  pub conditions : Option Text
  pub name_a : Option Text
  pub name_b : Option Text

abbrev pub default_request : ApproveGrantRequest
default_request = record {
  direction = none;
  max_messages = none;
  opens_reply_window = none;
  mediation = none;
  conditions = none;
  name_a = none;
  name_b = none;
}

-- The two parties of a grant, against a sender and a recipient.
unfoldable pub matches_pair : GrantDirection → Text → Text → Text → Text → Bool
matches_pair symmetric a b from to = a == from && b == to || a == to && b == from
matches_pair a_to_b a b from to = a == from && b == to
matches_pair b_to_a a b from to = a == to && b == from

-- The grant's two names and the caller's two, if all four are known.
abbrev four_names :
    Option Text → Option Text → Option Text → Option Text → Option (Text × Text × Text × Text)
four_names name_a name_b from_name to_name = do
  a ← name_a
  b ← name_b
  f ← from_name
  t ← to_name
  some (a, b, f, t)

unfoldable pub grant_covers_directed_with_names :
    Text → Text → Option Text → Option Text → Grant → Bool
unfolding matches_pair
grant_covers_directed_with_names from to from_name to_name g =
    elim (four_names g.name_a g.name_b from_name to_name) [
      | some (a, b, f, t) ↦ matches_pair g.direction a b f t
      | none ↦ matches_pair g.direction g.identity_a g.identity_b from to
    ]

unfoldable pub grant_id_num : Text → ℕ
unfolding parse strip_prefix
grant_id_num id = unwrap_or (strip_prefix (codes "grant-") id >>= parse) u64_max

-- `rsplit` always has a last segment.
unfoldable pub parse_counter_val : Text → ℕ
unfolding parse last_segment
parse_counter_val id = unwrap_or (parse (last_segment b'-' id)) 0

abbrev pub is_directed : GrantDirection → Bool
is_directed symmetric = false
is_directed _ = true

unfoldable pub select_better_grant : Grant → Grant → Grant
select_better_grant a b =
    if is_directed a.direction && not (is_directed b.direction)
    then a
    else if not (is_directed a.direction) && is_directed b.direction
    then b
    else if leb (grant_id_num a.id) (grant_id_num b.id)
    then a
    else b

-- `now >= exp`, for a grant that expires.
abbrev pub is_expired : ℕ → Grant → Bool
is_expired now g = elim g.expires [ none ↦ false | some exp ↦ leb exp now ]

-- `messages_used >= max`, for a grant with a budget.
abbrev pub is_exhausted : Grant → Bool
is_exhausted g = elim g.max_messages [ none ↦ false | some max ↦ leb max g.messages_used ]
