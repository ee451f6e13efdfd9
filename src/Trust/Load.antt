-- ===== src/Trust/Load.antt =====
-- trust.rs: the grants of the store (persistence.rs) are loaded at startup. An `i64` of the store
-- is given by its bit pattern, which `as u64` keeps. The two clocks are arguments.
pub mod Laws
use simple_im.Base.{
  ℕ, ◌+◌, ◌-◌, Bool, true, false, Option, none, some, List, [], ◌∷◌, ◌++◌, min, ltb, leb,
  if◌then◌else◌, ◌==◌, option_map, wrap64, from_secs,
}
use simple_im.Base.Text.{Text, text_Eq, codes}
use simple_im.Trust.Grant.{
  Grant, GrantDirection, symmetric, a_to_b, b_to_a, GrantMediation, bypass, inspect, notify,
  parse_counter_val, max_expiry,
}
use simple_im.Trust.Chain.{TrustChain}

pub record PersistedGrant : Type 0 where
  pub id : Text
  pub identity_a : Text
  pub identity_b : Text
  pub direction : Text
  pub mediation : Text
  pub max_messages : Option ℕ
  pub messages_used : ℕ
  pub conditions : Option Text
  pub opens_reply_window : Bool
  pub expires_at_secs : Option ℕ
  pub governor_id : Text
  pub name_a : Option Text
  pub name_b : Option Text

unfoldable parse_direction : Text → GrantDirection
parse_direction d =
    if d == codes "a_to_b" then a_to_b else if d == codes "b_to_a" then b_to_a else symmetric

unfoldable parse_mediation : Text → GrantMediation
parse_mediation m =
    if m == codes "inspect" then inspect else if m == codes "notify" then notify else bypass

-- The deadline of a stored grant has passed.
abbrev pub is_past : ℕ → Option ℕ → Bool
is_past now_unix none = false
is_past now_unix (some exp) = leb exp now_unix

abbrev pub remaining : ℕ → ℕ → Option ℕ → Option ℕ
remaining now_instant now_unix expires_at_secs =
    option_map (λ exp. now_instant + min (from_secs (exp - now_unix)) max_expiry) expires_at_secs

unfoldable pub loaded_grant : ℕ → ℕ → PersistedGrant → Grant
unfolding parse_direction parse_mediation
loaded_grant now_instant now_unix g = record {
  id = g.id;
  identity_a = g.identity_a;
  identity_b = g.identity_b;
  name_a = g.name_a;
  name_b = g.name_b;
  expires = remaining now_instant now_unix g.expires_at_secs;
  direction = parse_direction g.direction;
  max_messages = option_map (λ n. wrap64 n) g.max_messages;
  messages_used = wrap64 g.messages_used;
  opens_reply_window = g.opens_reply_window;
  governor_id = g.governor_id;
  mediation = parse_mediation g.mediation;
  conditions = g.conditions;
}

abbrev pub seed : ℕ → ℕ → ℕ
seed counter n = if ltb counter n then n else counter

-- The body of the loop.
unfoldable pub load_one : ℕ → ℕ → TrustChain → PersistedGrant → TrustChain
unfolding loaded_grant
load_one now_instant now_unix t g = if is_past now_unix g.expires_at_secs then t else (record t {
  counter = seed t.counter (parse_counter_val g.id);
  grants = t.grants ++ loaded_grant now_instant now_unix g ∷ [];
})

unfoldable pub load_from_store : TrustChain → ℕ → ℕ → List PersistedGrant → TrustChain
unfolding load_one
load_from_store t now_instant now_unix [] = t
load_from_store t now_instant now_unix (g ∷ gs) =
    load_from_store (load_one now_instant now_unix t g) now_instant now_unix gs
