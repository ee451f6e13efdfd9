-- ===== src/Hub/Requests/Revoke.antt =====
-- delivery.rs: the governor revokes an established grant.
use simple_im.Base.{◌||◌, Option, none, some, List, [], ◌∷◌, ◌++◌, ◌==◌, find, option_map}
use simple_im.Base.Text.{Text, text_Eq}
use simple_im.Base.Map.{get}
use simple_im.Error.{Done, ok, err, no_grant}
use simple_im.Trust.Chain.{grant_parties, remove_grant}
use simple_im.Hub.State.{
  HubInner, Effect, send_event, grant_revoked, delete_grant, validate_governor_token,
}
use simple_im.Hub.Governance.{Reply}

-- The token of a party: by its name, or, of a grant without names, by an identity.
abbrev party_token : HubInner → Text → Text → Option Text → Option Text
party_token h identity_a identity_b (some name) = get name h.name_to_token
party_token h identity_a identity_b none =
    option_map (λ e. e.0) (find (λ e. e.1 == identity_a || e.1 == identity_b) h.token_to_name)

abbrev revoked_effects : HubInner → Text → Option Text → List Effect
revoked_effects h grant_id none = []
revoked_effects h grant_id (some tok) = elim (get tok h.listen_tokens) [
  | none ↦ []
  | some st ↦ elim st.sse_sender [
    | none ↦ []
    | some tx ↦ send_event tx (grant_revoked grant_id) ∷ []
  ]
]

unfoldable pub revoke_grant : HubInner → Text → Text → Reply Done
revoke_grant h grant_id gov = elim (validate_governor_token h gov) [
  | err e ↦ (err e, h, [])
  | ok _ ↦ elim (grant_parties h.trust grant_id) [
    | none ↦ (err no_grant, h, [])
    | some (identity_a, identity_b, name_a, name_b) ↦
        let h' = record h { trust = (remove_grant h.trust grant_id).1 } in
        (
          ok tt,
          h',
          revoked_effects h' grant_id (party_token h' identity_a identity_b name_a)
              ++ revoked_effects h' grant_id (party_token h' identity_a identity_b name_b)
              ++ delete_grant grant_id ∷ [],
        )
  ]
]
