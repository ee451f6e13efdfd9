-- ===== src/Hub/Requests.antt =====
-- delivery.rs: the bilateral flow of grant requests. `now` and `now'` are two readings of the
-- clock, `now_secs` is the Unix time in seconds, and `render` stands for `serde_json`.
pub mod Decide
pub mod Approve
pub mod Blocks
pub mod Stages
pub mod Revoke
use simple_im.Base.{
  ℕ, ◌+◌, Bool, true, false, not, ◌&&◌, ◌||◌, Option, none, some, List, [], ◌∷◌, ◌++◌, min, ltb,
  if◌then◌else◌, ◌==◌, unwrap_or, option_map, find, wrap64,
}
use simple_im.Base.Text.{Text, text_Eq, pair_Eq, codes}
use simple_im.Base.Map.{Map, get, insert, remove, update, contains_key}
use simple_im.Error.{
  Error, Done, Result, ok, err, auth_failed, token_revoked, grant_blocked, recipient_unknown,
  bad_request, forbidden, request_pending, no_grant,
}
use simple_im.Trust.Grant.{ApproveGrantRequest, default_request}
use simple_im.Trust.Chain.{
  TrustChain, id_text, has_active_governor, approve_grant_req, create_consent_grant,
  recipient_consent, grant_parties, remove_grant,
}
use simple_im.Hub.State.{
  ConnectionRequest, ConnectionStage, pending_governor, pending_recipient, DenialBlock, HubInner,
  Notice, grant_request, grant_request_for_governor, grant_established, grant_denied, grant_held,
  SseEvent, identity_persisted, grant_revoked, Effect, wake, send_event, gov_event, store_grant,
  store_token, store_denial_block, delete_grant, holds_flag, validate_governor_token,
}
use simple_im.Hub.Queue.{deposit, take_notify}
use simple_im.Hub.Denial.{is_active, blocked_by}
use simple_im.Hub.Governance.{Reply, system_message, wake_effects, grant_request_timeout, summon}

pub data ApproveStatus : Type 0 where
  awaiting_recipient established : ApproveStatus

-- Without a governor a request goes straight to the recipient.
abbrev initial_stage : HubInner → ConnectionStage
initial_stage h = if has_active_governor h.trust then pending_governor else pending_recipient

abbrev initial_gov : HubInner → Option Text
initial_gov h = if has_active_governor h.trust then none else some recipient_consent

abbrev pub from_to : Text → Text → Text × ConnectionRequest → Bool
from_to from_name to_name e = e.1.from_name == from_name && e.1.to_name == to_name

abbrev pub put_request : HubInner → Text → (ConnectionRequest → ConnectionRequest) → HubInner
put_request h id f = record h { connection_requests = update id f h.connection_requests }

-- A held request is given a new reason, and goes back to the governor.
unfoldable update_request : HubInner → ℕ → Text → Text → Option Text → Result Text × HubInner
update_request h now' from_name uid reason = elim (get uid h.connection_requests) [
  | none ↦ (err bad_request, h)
  | some req ↦ if not (req.from_name == from_name) then (err forbidden, h) else (
    ok uid,
    put_request h uid λ r. record r {
      reason = reason;
      stage = pending_governor;
      expires_at = now' + grant_request_timeout;
    },
  )
]

-- A request that ran out is taken up again in place.
unfoldable renew_request :
    HubInner → ℕ → ℕ → ConnectionRequest → Option Text → Result Text × HubInner
renew_request h now now' existing reason =
    if ltb now existing.expires_at
    then (err request_pending, h)
    else if not (contains_key existing.request_id h.connection_requests)
    then (err bad_request, h)
    else (
      ok existing.request_id,
      put_request h existing.request_id λ r. record r {
        reason = reason;
        stage = initial_stage h;
        governor_expiry = none;
        recipient_expiry = none;
        approving_governor = initial_gov h;
        expires_at = now' + grant_request_timeout;
      },
    )

unfoldable add_request :
    HubInner → ℕ → Text → Text → Text → Text → Option Text → Result Text × HubInner
add_request h now' from_name to_name from_identity to_identity reason =
    let n = wrap64 (h.req_counter + 1) in
    let id = id_text (codes "req") n in
    (
      ok id,
      record h {
        req_counter = n;
        connection_requests =
            insert id
              (record {
                request_id = id;
                from_name = from_name;
                to_name = to_name;
                from_identity = from_identity;
                to_identity = to_identity;
                reason = reason;
                stage = initial_stage h;
                governor_expiry = none;
                recipient_expiry = none;
                approving_governor = initial_gov h;
                expires_at = now' + grant_request_timeout;
              })
              h.connection_requests;
      },
    )

unfoldable pub resolve_request :
    HubInner
    → ℕ
    → ℕ
    → Text
    → Text
    → Text
    → Text
    → Option Text
    → Option Text
    → Result Text × HubInner
unfolding update_request renew_request add_request
resolve_request h now now' from_name to_name from_identity to_identity reason update_id =
    elim update_id [
      | some uid ↦ update_request h now' from_name uid reason
      | none ↦ elim (find (from_to from_name to_name) h.connection_requests) [
        | some e ↦ renew_request h now now' e.1 reason
        | none ↦ add_request h now' from_name to_name from_identity to_identity reason
      ]
    ]

-- The block that stands against the pair, or the state without one that has run out.
unfoldable pub check_block : HubInner → ℕ → Text → Text → Result Done × HubInner
check_block h now_secs from_identity to_name = elim (get (from_identity, to_name) h.denial_blocks) [
  | none ↦ (ok tt, h)
  | some block ↦
      if is_active now_secs block
      then (err (grant_blocked block.reason), h)
      else (ok tt, record h { denial_blocks = remove (from_identity, to_name) h.denial_blocks })
]

abbrev pub persisted_effects : Option (ℕ × ℕ) → List Effect
persisted_effects none = []
persisted_effects (some (sender, pending)) = send_event sender identity_persisted ∷ []

-- Wake a reader of the name's queue, and nudge its stream.
unfoldable pub nudge : HubInner → Text → List Effect × HubInner
nudge h name =
    let (ntx, h') = take_notify h name in (wake_effects h name ++ persisted_effects ntx, h')

module _ (render : Notice → List ℕ) where
  -- The recipient is told when there is no governor, the governor otherwise.
  unfoldable pub announce_request : HubInner → Text → Text → Text → Option Text → Reply Text
  unfolding nudge
  announce_request h request_id from_name to_name reason =
      if has_active_governor h.trust
      then (
        ok request_id,
        h,
        gov_event (grant_request_for_governor request_id from_name to_name reason) ∷ [],
      )
      else (let told = deposit h to_name (
            system_message (render (grant_request request_id from_name reason false))
              (codes "grant_request")) in
          let (effects, h') = nudge told to_name in (ok request_id, h', effects))

  abbrev pub announce_if : Result Text × HubInner → Text → Text → Option Text → Reply Text
  announce_if (err e, h) from_name to_name reason = (err e, h, [])
  announce_if (ok id, h) from_name to_name reason = announce_request h id from_name to_name reason

  -- Past the check of the block: the recipient must be known.
  unfoldable pub request_unblocked :
      HubInner → ℕ → ℕ → Text → Text → Option Text → Option Text → Reply Text
  request_unblocked h now now' token to_name reason update_id =
      let from_name = unwrap_or (get token h.token_to_name) [] in
      elim (get to_name h.agents) [
        | none ↦ (err recipient_unknown, h, [])
        | some s ↦
            announce_if
              (resolve_request h now now' from_name to_name token s.identity reason update_id)
              from_name to_name reason
      ]

  abbrev pub request_if :
      Result Done × HubInner → ℕ → ℕ → Text → Text → Option Text → Option Text → Reply Text
  request_if (err e, h) now now' token to_name reason update_id = (err e, h, [])
  request_if (ok u, h) now now' token to_name reason update_id =
      request_unblocked h now now' token to_name reason update_id

  unfoldable pub request_grant :
      HubInner → ℕ → ℕ → ℕ → Text → Text → Option Text → Option Text → Reply Text
  request_grant h now now' now_secs token to_name reason update_id =
      elim (get token h.listen_tokens) [
        | none ↦ (err auth_failed, h, [])
        | some st ↦
            if st.revoked
            then (err token_revoked, h, [])
            else request_if (check_block h now_secs token to_name) now now' token to_name reason
                update_id
      ]
