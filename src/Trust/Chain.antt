-- ===== src/Trust/Chain.antt =====
-- trust.rs: the state of `TrustChain`, the governor pointer, and the operations on grants. The
-- clock is the argument `now`, read once by an operation, in nanoseconds.
use simple_im.Base.{
  ℕ, ◌+◌, ◌-◌, Bool, true, not, ◌&&◌, ◌||◌, Option, none, some, List, [], ◌∷◌, ◌++◌, map, min, ltb,
  if◌then◌else◌, ◌==◌, unwrap_or, option_map, is_some, retain, find, update_first, length, wrap64,
}
use simple_im.Base.Text.{Text, text_Eq, codes, is_text}
use simple_im.Base.Text.Decimal.{to_string}
use simple_im.Base.Map.{Map}
use simple_im.Error.{Result, ok}
use simple_im.Trust.Grant.{
  Grant, GrantDirection, GrantMediation, ApproveGrantRequest, default_request, max_expiry,
}

pub record PendingTransfer : Type 0 where
  pub from_identity : Text
  pub to_identity : Option Text

pub record TrustChain : Type 0 where
  pub governor_identity : Option Text
  pub grants : List Grant
  pub pending_transfers : Map Text PendingTransfer
  pub counter : ℕ

unfoldable pub with_clock : TrustChain
with_clock = record { governor_identity = none; grants = []; pending_transfers = []; counter = 0 }

-- `format!("{}-{}", prefix, n)`
abbrev pub id_text : Text → ℕ → Text
id_text prefix n = prefix ++ b'-' ∷ to_string n

unfoldable next_id : TrustChain → Text → Text × TrustChain
next_id t prefix = let n = wrap64 (t.counter + 1) in (id_text prefix n, record t { counter = n })

unfoldable pub has_active_governor : TrustChain → Bool
has_active_governor t = is_some t.governor_identity

unfoldable pub is_governor : TrustChain → Text → Bool
is_governor t identity = is_text t.governor_identity identity

unfoldable pub set_governor : TrustChain → Text → TrustChain
set_governor t identity = record t { governor_identity = some identity }

unfoldable pub clear_governor : TrustChain → TrustChain
clear_governor t = record t { governor_identity = none }

unfoldable pub clear_governor_if : TrustChain → Text → TrustChain
clear_governor_if t identity =
    if is_text t.governor_identity identity then record t { governor_identity = none } else t

-- `expiry.map(|d| now + d.min(MAX_EXPIRY))`
abbrev pub expires_at : ℕ → Option ℕ → Option ℕ
expires_at now expiry = option_map (λ d. now + min d max_expiry) expiry

unfoldable pub new_grant : Text → Text → Text → Text → Option ℕ → ApproveGrantRequest → Grant
new_grant id governor_id identity_a identity_b expires req = record {
  id = id;
  identity_a = identity_a;
  identity_b = identity_b;
  name_a = req.name_a;
  name_b = req.name_b;
  expires = expires;
  direction = unwrap_or req.direction GrantDirection.symmetric;
  max_messages = req.max_messages;
  messages_used = 0;
  opens_reply_window = unwrap_or req.opens_reply_window true;
  governor_id = governor_id;
  mediation = unwrap_or req.mediation GrantMediation.bypass;
  conditions = req.conditions;
}

unfoldable pub approve_grant_req :
    TrustChain → ℕ → Text → Text → Text → Option ℕ → ApproveGrantRequest → Result Text × TrustChain
unfolding new_grant next_id
approve_grant_req t now governor_identity identity_a identity_b expiry req =
    let expires = expires_at now expiry in
    let (id, t') = next_id t (codes "grant") in
    (
      ok id,
      record t' {
        grants = t'.grants ++ new_grant id governor_identity identity_a identity_b expires req ∷ [];
      },
    )

unfoldable approve_grant : TrustChain → ℕ → Text → Text → Text → Option ℕ → Result Text × TrustChain
unfolding approve_grant_req
approve_grant t now governor_identity identity_a identity_b expiry =
    approve_grant_req t now governor_identity identity_a identity_b expiry default_request

abbrev pub recipient_consent : Text
recipient_consent = codes "recipient-consent"

unfoldable pub create_consent_grant :
    TrustChain → ℕ → Text → Text → Option ℕ → ApproveGrantRequest → Result Text × TrustChain
unfolding new_grant next_id
create_consent_grant t now identity_a identity_b expiry req =
    let expires = expires_at now expiry in
    let (id, t') = next_id t (codes "grant") in
    (
      ok id,
      record t' {
        grants = t'.grants ++ new_grant id recipient_consent identity_a identity_b expires req ∷ [];
      },
    )

-- `g.id == grant_id`
abbrev pub has_id : Text → Grant → Bool
has_id grant_id g = g.id == grant_id

abbrev pub spend : Grant → Grant
spend g =
    if is_some g.max_messages then record g { messages_used = wrap64 (g.messages_used + 1) } else g

unfoldable pub consume_grant_message : TrustChain → Text → TrustChain
consume_grant_message t grant_id = record t {
  grants = update_first (has_id grant_id) spend t.grants;
}

abbrev pub refund : Grant → Grant
refund g =
    if is_some g.max_messages && ltb 0 g.messages_used
    then record g { messages_used = g.messages_used - 1 }
    else g

unfoldable pub restore_grant_message : TrustChain → Text → TrustChain
restore_grant_message t grant_id = record t {
  grants = update_first (has_id grant_id) refund t.grants;
}

unfoldable pub remove_grant : TrustChain → Text → Bool × TrustChain
remove_grant t grant_id =
    let before = length t.grants in
    let grants = retain (λ g. not (has_id grant_id g)) t.grants in
    (ltb (length grants) before, record t { grants = grants })

-- The grant refers to the name, as an identity or as a stable name, on either side.
abbrev pub mentions : Text → Grant → Bool
mentions name g =
    g.identity_a == name || g.identity_b == name || is_text g.name_a name || is_text g.name_b name

unfoldable pub purge_grants_for : TrustChain → Text → List Text × TrustChain
purge_grants_for t name = (
  map (λ g. g.id) (retain (mentions name) t.grants),
  record t { grants = retain (λ g. not (mentions name g)) t.grants },
)

unfoldable pub grant_parties : TrustChain → Text → Option (Text × Text × Option Text × Option Text)
grant_parties t grant_id =
    option_map (λ (g : Grant). (g.identity_a, g.identity_b, g.name_a, g.name_b))
      (find (has_id grant_id) t.grants)

unfoldable pub grant_governor_id : TrustChain → Text → Option Text
grant_governor_id t grant_id = option_map (λ g. g.governor_id) (find (has_id grant_id) t.grants)

unfoldable pub grant_opens_reply_window : TrustChain → Text → Option Bool
grant_opens_reply_window t grant_id =
    option_map (λ g. g.opens_reply_window) (find (has_id grant_id) t.grants)
