-- ===== src/Hub/Authority.antt =====
-- delivery.rs: what a participant does with the governor flag outside of claims: grants approved
-- directly, and the transfer of the flag. The random bytes of a transfer token are an argument.
pub mod Handover
use simple_im.Base.{
  ℕ, ◌+◌, Bool, true, false, not, Option, none, some, List, [], ◌∷◌, if◌then◌else◌, ◌==◌, min,
  unwrap_or, option_map,
}
use simple_im.Base.Text.{Text, text_Eq, codes}
use simple_im.Base.Map.{get}
use simple_im.Error.{Error, Done, Result, ok, err, auth_failed, recipient_unknown}
use simple_im.Trust.Grant.{ApproveGrantRequest, default_request}
use simple_im.Trust.Chain.{TrustChain, approve_grant_req}
use simple_im.Trust.Transfer.{transfer_governor, accept_governor_transfer}
use simple_im.Hub.State.{
  HubInner, Effect, store_governor, store_approved_grant, validate_governor_token,
}
use simple_im.Hub.Governance.{Reply}

abbrev or_name : Option Text → Option Text → Option Text
or_name (some name) known = some name
or_name none known = known

-- Names that the caller does not give are looked up by the identities.
abbrev with_names : HubInner → Text → Text → ApproveGrantRequest → ApproveGrantRequest
with_names h id_a id_b req = record req {
  name_a = or_name req.name_a (get id_a h.token_to_name);
  name_b = or_name req.name_b (get id_b h.token_to_name);
}

abbrev approved_effects :
    Text → Text → Text → Option ℕ → ApproveGrantRequest → Result Text → List Effect
approved_effects gov id_a id_b expiry req (err e) = []
approved_effects gov id_a id_b expiry req (ok id) =
    store_approved_grant id id_a id_b gov expiry req ∷ []

-- A grant that the governor approves without a request.
unfoldable pub approve_directly :
    HubInner → ℕ → Text → Text → Text → Option ℕ → ApproveGrantRequest → Reply Text
approve_directly h now token id_a id_b expiry req = elim (validate_governor_token h token) [
  | err e ↦ (err e, h, [])
  | ok _ ↦
      let gov = unwrap_or (get token h.token_to_name) [] in
      let named = with_names h id_a id_b req in
      let (id, t) = approve_grant_req h.trust now gov id_a id_b expiry named in
      (id, record h { trust = t }, approved_effects gov id_a id_b expiry named id)
]

unfoldable pub begin_transfer : HubInner → List ℕ → Text → Option Text → Reply Text
begin_transfer h bytes token to_identity = elim (validate_governor_token h token) [
  | err e ↦ (err e, h, [])
  | ok _ ↦ elim (get token h.token_to_name) [
    | none ↦ (err auth_failed, h, [])
    | some from_identity ↦
        let (transfer_token, t) = transfer_governor h.trust bytes from_identity to_identity in
        (transfer_token, record h { trust = t }, [])
  ]
]

-- An unknown or stale transfer token is answered as not found.
abbrev as_unknown : Error → Error
as_unknown auth_failed = recipient_unknown
as_unknown e = e

abbrev concluded : HubInner → Text → Result Done × TrustChain → Reply Done
concluded h name (ok u, t) = (ok tt, record h { trust = t }, store_governor (some name) ∷ [])
concluded h name (err e, t) = (err (as_unknown e), record h { trust = t }, [])

unfoldable pub accept_transfer : HubInner → Text → Text → Reply Done
accept_transfer h bearer transfer_token =
    if not (elim (get bearer h.listen_tokens) [ none ↦ false | some s ↦ not s.revoked ])
    then (err auth_failed, h, [])
    else elim (get bearer h.token_to_name) [
      | none ↦ (err auth_failed, h, [])
      | some name ↦ concluded h name (accept_governor_transfer h.trust transfer_token name)
    ]
