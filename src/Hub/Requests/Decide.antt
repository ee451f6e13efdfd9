-- ===== src/Hub/Requests/Decide.antt =====
-- delivery.rs: what the governor and the recipient do with a grant request.
use simple_im.Base.{
  ℕ, ◌+◌, Bool, true, not, ◌&&◌, Option, none, some, List, [], ◌∷◌, ◌++◌, min, if◌then◌else◌, ◌==◌,
  unwrap_or,
}
use simple_im.Base.Text.{Text, text_Eq, codes}
use simple_im.Base.Map.{get, remove, update, contains_key}
use simple_im.Error.{Done, Result, ok, err, bad_request, forbidden}
use simple_im.Trust.Grant.{ApproveGrantRequest, default_request}
use simple_im.Trust.Chain.{TrustChain, approve_grant_req, create_consent_grant, recipient_consent}
use simple_im.Hub.State.{
  ConnectionRequest, ConnectionStage, pending_governor, pending_recipient, HubInner, Notice,
  grant_request, grant_established, grant_denied, grant_held, identity_persisted, Effect,
  send_event, store_grant, store_token, store_denial_block, holds_flag,
}
use simple_im.Hub.Queue.{deposit, take_notify}
use simple_im.Hub.Denial.{blocked_by}
use simple_im.Hub.Governance.{Reply, system_message, grant_request_timeout, summon, wake_effects}
use simple_im.Hub.Requests.{
  ApproveStatus, awaiting_recipient, established, put_request, nudge, persisted_effects,
}

-- The caller's token is the recipient's identity, and is known.
abbrev pub is_recipient : HubInner → Text → ConnectionRequest → Bool
is_recipient h token req = contains_key token h.listen_tokens && (token == req.to_identity)

-- The shorter of the two terms; no term is the longest.
unfoldable pub grant_expiry : Option ℕ → Option ℕ → Option ℕ
grant_expiry none none = none
grant_expiry (some g) none = some g
grant_expiry none (some r) = some r
grant_expiry (some g) (some r) = some (min g r)

abbrev pub named_request : ConnectionRequest → ApproveGrantRequest
named_request req = record default_request {
  name_a = some req.from_name;
  name_b = some req.to_name;
}

unfoldable pub make_grant :
    TrustChain → ℕ → Text → ConnectionRequest → Option ℕ → Result Text × TrustChain
make_grant t now gov req expiry =
    if gov == recipient_consent
    then create_consent_grant t now req.from_identity req.to_identity expiry (named_request req)
    else approve_grant_req t now gov req.from_identity req.to_identity expiry (named_request req)

abbrev mark_granted : HubInner → Text → HubInner
mark_granted h identity = record h {
  listen_tokens = update identity (λ st. record st { ever_granted = true }) h.listen_tokens;
}

-- The stream of an identity, told that it is now persistent.
abbrev sender_effects : HubInner → Text → List Effect
sender_effects h identity = elim (get identity h.listen_tokens) [
  | none ↦ []
  | some st ↦ elim st.sse_sender [ none ↦ [] | some tx ↦ send_event tx identity_persisted ∷ [] ]
]

abbrev token_effects : HubInner → Text → List Effect
token_effects h name = elim (get name h.name_to_token) [
  | none ↦ []
  | some tok ↦ store_token tok name ∷ []
]

module _ (render : Notice → List ℕ) where
  -- The governor's approval passes the request on to the recipient, with a fresh half hour.
  unfoldable pub pass_on :
      HubInner → ℕ → Text → Text → ConnectionRequest → Option ℕ → Reply ApproveStatus
  pass_on h now request_id approver req expiry =
      let passed = put_request h request_id λ r. record r {
        governor_expiry = expiry;
        approving_governor = some approver;
        stage = pending_recipient;
        expires_at = now + grant_request_timeout;
      } in
      let told = deposit passed req.to_name (
        system_message (render (grant_request request_id req.from_name req.reason true))
          (codes "grant_request")) in
      let (effects, h') = nudge told req.to_name in (ok awaiting_recipient, h', effects)

  -- The grant is made: the requester is told, and the request is closed.
  unfoldable pub conclude : HubInner → Text → Text → ConnectionRequest → Text → Reply ApproveStatus
  conclude h request_id gov req grant_id =
      let told = deposit h req.from_name (
        system_message (render (grant_established request_id req.to_name))
          (codes "grant_established")) in
      let (ntx, h') = take_notify told req.from_name in
      let marked = mark_granted (mark_granted h' req.from_identity) req.to_identity in
      (
        ok established,
        record marked { connection_requests = remove request_id marked.connection_requests },
        wake_effects told req.from_name
            ++ sender_effects h' req.from_identity
            ++ sender_effects h' req.to_identity
            ++ persisted_effects ntx
            ++ store_grant grant_id req.from_identity req.to_identity gov req.from_name req.to_name
                none
              ∷ (token_effects h' req.from_name ++ token_effects h' req.to_name),
      )

  abbrev pub conclude_if :
      HubInner → Text → Text → ConnectionRequest → Result Text × TrustChain → Reply ApproveStatus
  conclude_if h request_id gov req (ok grant_id, t) =
      conclude (record h { trust = t }) request_id gov req grant_id
  conclude_if h request_id gov req (err e, t) = (
    err e,
    record h { trust = t; connection_requests = remove request_id h.connection_requests },
    [],
  )

  -- The recipient's approval makes the grant.
  unfoldable pub settle : HubInner → ℕ → Text → ConnectionRequest → Option ℕ → Reply ApproveStatus
  settle h now request_id req expiry =
      let noted = put_request h request_id λ r. record r { recipient_expiry = expiry } in
      elim req.approving_governor [
        | none ↦ (err bad_request, noted, [])
        | some gov ↦
            conclude_if noted request_id gov req
              (make_grant h.trust now gov req (grant_expiry req.governor_expiry expiry))
      ]

  -- The governor decides first, and the governor or the recipient second.
  unfoldable pub approve_at :
      HubInner
      → ℕ
      → Text
      → Text
      → ConnectionRequest
      → Option ℕ
      → ConnectionStage
      → Reply ApproveStatus
  approve_at h now token request_id req expiry pending_governor =
      if not (holds_flag h token)
      then (err forbidden, h, [])
      else pass_on h now request_id (unwrap_or (get token h.token_to_name) token) req expiry
  approve_at h now token request_id req expiry pending_recipient =
      if not (holds_flag h token) && not (is_recipient h token req)
      then (err forbidden, h, [])
      else settle h now request_id req expiry

  unfoldable pub approve_grant_request : HubInner → ℕ → Text → Text → Option ℕ → Reply ApproveStatus
  approve_grant_request h now token request_id expiry =
      elim (get request_id h.connection_requests) [
        | none ↦ (err bad_request, h, [])
        | some req ↦ approve_at h now token request_id req expiry req.stage
      ]

  unfoldable pub deny_grant_request : HubInner → Text → Text → Text → Option ℕ → Reply Done
  deny_grant_request h token request_id reason expires_at =
      elim (get request_id h.connection_requests) [
        | none ↦ (err bad_request, h, [])
        | some req ↦
            if not (holds_flag h token) && not (is_recipient h token req)
            then (err forbidden, h, [])
            else (let blocked = blocked_by h req.from_identity req.to_name reason expires_at in
                let closed = record blocked {
                  connection_requests = remove request_id blocked.connection_requests;
                } in
                let told = deposit closed req.from_name (
                  system_message (render (grant_denied request_id req.to_name reason))
                    (codes "grant_denied")) in
                let (effects, h') = summon told req.from_name in
                (
                  ok tt,
                  h',
                  effects
                      ++ store_denial_block req.from_identity req.to_name reason expires_at ∷ [],
                ))
      ]

  unfoldable pub hold_grant_request : HubInner → Text → Text → Text → Reply Done
  hold_grant_request h token request_id reason = elim (get request_id h.connection_requests) [
    | none ↦ (err bad_request, h, [])
    | some req ↦
        if not (holds_flag h token) && not (is_recipient h token req)
        then (err forbidden, h, [])
        else (let held = put_request h request_id λ r. record r { stage = pending_governor } in
            let told = deposit held req.from_name (
              system_message (render (grant_held request_id req.to_name reason))
                (codes "grant_held")) in
            let (effects, h') = summon told req.from_name in (ok tt, h', effects))
  ]
