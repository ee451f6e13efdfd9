-- ===== src/Http/Handlers/Grants.antt =====
-- http.rs: the handlers of grants, grant requests and denial blocks.
use simple_im.Base.{
  ℕ, Bool, false, not, ◌&&◌, Option, none, some, [], if◌then◌else◌, ◌==◌, option_map, unwrap_or,
  from_secs, ◌>>=◌,
}
use simple_im.Base.Text.{Text, text_Eq, codes}
use simple_im.Error.{bad_request}
use simple_im.Trust.Grant.{
  GrantDirection, symmetric, a_to_b, b_to_a, GrantMediation, bypass, inspect, notify,
  ApproveGrantRequest,
}
use simple_im.Trust.Listing.{GrantListItem, AllGrantItem}
use simple_im.Rooms.{shares_room}
use simple_im.Hub.State.{HubInner}
use simple_im.Hub.Denial.{unblock_grant, block_direct}
use simple_im.Hub.Requests.{ApproveStatus, awaiting_recipient, established, request_grant}
use simple_im.Hub.Requests.Decide.{approve_grant_request, deny_grant_request, hold_grant_request}
use simple_im.Hub.Requests.Revoke.{revoke_grant}
use simple_im.Hub.Authority.{approve_directly}
use simple_im.Hub.Tokens.{name_for_bearer_token}
use simple_im.Hub.Visible.{has_any_grant_with, list_grants_for_token, list_all_grants_gov}
use simple_im.Http.Time.{instant_to_iso8601}
use simple_im.Http.Respond.{
  Json, null, number, string, array, object, end, field, or_null, items_of, Response, respond,
  no_content, refusal, HeaderMap, bearer_token, err_response, auth_failed_response,
}
use simple_im.Http.Handlers.{Call, Served, with_bearer, respond_with, reading}

pub record ApproveGrantBody : Type 0 where
  pub identity_a : Text
  pub identity_b : Text
  pub expiry_secs : Option ℕ
  pub direction : Option Text
  pub max_messages : Option ℕ
  pub mediation : Option Text
  pub opens_reply_window : Option Bool
  pub conditions : Option Text

abbrev direction_of : Text → Option GrantDirection
direction_of t =
    if t == codes "symmetric"
    then some symmetric
    else if t == codes "a_to_b"
    then some a_to_b
    else if t == codes "b_to_a"
    then some b_to_a
    else none

abbrev mediation_of : Text → Option GrantMediation
mediation_of t =
    if t == codes "bypass"
    then some bypass
    else if t == codes "inspect"
    then some inspect
    else if t == codes "notify"
    then some notify
    else none

abbrev number_or_null : Option ℕ → Json
number_or_null none = null
number_or_null (some n) = number n

abbrev approved_response : ApproveGrantBody → Text → Text → Text → Response
approved_response body direction mediation grant_id = respond 200 (
    field (codes "grant_id") (string grant_id) (
      field (codes "direction") (string direction) (
        field (codes "max_messages") (number_or_null body.max_messages) (
          field (codes "mediation") (string mediation)
            (field (codes "conditions") (or_null body.conditions) end)))))

abbrev grant_params : ApproveGrantBody → GrantDirection → GrantMediation → ApproveGrantRequest
grant_params body direction mediation = record {
  direction = some direction;
  max_messages = body.max_messages;
  opens_reply_window = body.opens_reply_window;
  mediation = some mediation;
  conditions = body.conditions;
  name_a = none;
  name_b = none;
}

unfoldable pub handle_approve_grant : Call → HubInner → HeaderMap → ApproveGrantBody → Served
unfolding approve_directly bearer_token auth_failed_response err_response
handle_approve_grant c h headers body = with_bearer h headers λ token.
    let direction_str = unwrap_or body.direction (codes "symmetric") in
    let mediation_str = unwrap_or body.mediation (codes "bypass") in
    elim (direction_of direction_str) [
      | none ↦ (err_response bad_request, h, [])
      | some direction ↦ elim (mediation_of mediation_str) [
        | none ↦ (err_response bad_request, h, [])
        | some mediation ↦ respond_with (approved_response body direction_str mediation_str) (
            approve_directly h c.env.now token body.identity_a body.identity_b
              (option_map from_secs body.expiry_secs) (grant_params body direction mediation))
      ]
    ]

abbrev requested : Text → Response
requested request_id = respond 200 (field (codes "request_id") (string request_id) end)

-- A participant without a name, and one that neither holds a grant with the target nor shares a room
-- with it, are turned away.
unfoldable request_as : Call → HubInner → Text → Text → Text → Option Text → Option Text → Served
unfolding has_any_grant_with shares_room request_grant err_response
request_as c h token caller_name to reason request_id =
    let granted = has_any_grant_with h c.env.now token to in
    let (shared, store) =
      if granted
      then (false, h.room_store)
      else shares_room h.room_store c.env.now caller_name to in
    let looked = record h { room_store = store } in
    if not granted && not shared
    then (
      refusal 403 (codes "FORBIDDEN")
          (codes "must share a room or hold an existing grant to submit a grant request"),
      looked,
      [],
    )
    else respond_with requested (
        request_grant c.env.render looked c.env.now c.later c.env.now_secs token to reason
          request_id)

unfoldable pub handle_grant_request :
    Call → HubInner → HeaderMap → Text → Option Text → Option Text → Served
unfolding name_for_bearer_token request_as bearer_token auth_failed_response
handle_grant_request c h headers to reason request_id = with_bearer h headers λ token.
    elim (name_for_bearer_token h token) [
      | none ↦ (
        refusal 403 (codes "FORBIDDEN") (codes "must announce a name before requesting a grant"),
        h,
        [],
      )
      | some caller_name ↦ request_as c h token caller_name to reason request_id
    ]

unfoldable pub handle_grant_unblock : HubInner → HeaderMap → Text → Text → Served
unfolding unblock_grant bearer_token auth_failed_response err_response
handle_grant_unblock h headers from_identity to_name =
    with_bearer h headers
      λ token. respond_with (λ _. no_content) (unblock_grant h token from_identity to_name)

unfoldable pub handle_grant_block : HubInner → HeaderMap → Text → Text → Text → Option ℕ → Served
unfolding block_direct bearer_token auth_failed_response err_response
handle_grant_block h headers from_identity to_name reason expires_at =
    with_bearer h headers λ token.
      respond_with (λ _. no_content) (block_direct h token from_identity to_name reason expires_at)

pub record ActionBody : Type 0 where
  pub action : Text
  pub reason : Option Text
  pub expiry_secs : Option ℕ
  pub expires_at : Option ℕ

abbrev approval_response : ApproveStatus → Response
approval_response awaiting_recipient =
    respond 200 (field (codes "status") (string (codes "pending_recipient")) end)
approval_response established =
    respond 200 (field (codes "status") (string (codes "established")) end)

unfoldable act : Call → HubInner → Text → Text → ActionBody → Served
unfolding approve_grant_request deny_grant_request hold_grant_request err_response
act c h token id body =
    if body.action == codes "approve"
    then respond_with approval_response (
        approve_grant_request c.env.render h c.env.now token id
          (option_map from_secs body.expiry_secs))
    else if body.action == codes "deny"
    then respond_with (λ _. no_content)
        (deny_grant_request c.env.render h token id (unwrap_or body.reason []) body.expires_at)
    else if body.action == codes "hold"
    then elim body.reason [
      | none ↦
          (refusal 400 (codes "BAD_REQUEST") (codes "reason is required for hold action"), h, [])
      | some reason ↦
          respond_with (λ _. no_content) (hold_grant_request c.env.render h token id reason)
    ]
    else (refusal 400 (codes "BAD_REQUEST") (codes "action must be approve, deny, or hold"), h, [])

unfoldable pub handle_grant_request_action :
    Call → HubInner → HeaderMap → Text → ActionBody → Served
unfolding act bearer_token auth_failed_response
handle_grant_request_action c h headers id body =
    with_bearer h headers λ token. act c h token id body

unfoldable pub handle_revoke_grant : HubInner → HeaderMap → Text → Served
unfolding revoke_grant bearer_token auth_failed_response err_response
handle_revoke_grant h headers id =
    with_bearer h headers λ token. respond_with (λ _. no_content) (revoke_grant h id token)

abbrev direction_text : GrantDirection → Text
direction_text symmetric = codes "symmetric"
direction_text a_to_b = codes "a_to_b"
direction_text b_to_a = codes "b_to_a"

-- An expiry as a time; it stays null when there is none.
abbrev expires_json : Call → Option ℕ → Json
expires_json c expires = or_null (expires >>= λ i. instant_to_iso8601 c.env.now c.system_now i)

abbrev grant_json : Call → GrantListItem → Json
grant_json c g = object (
    field (codes "id") (string g.id) (
      field (codes "counterparty") (string g.counterparty) (
        field (codes "direction") (string (direction_text g.direction))
          (field (codes "expires") (expires_json c g.expires) end))))

abbrev any_grant_json : Call → AllGrantItem → Json
any_grant_json c g = object (
    field (codes "id") (string g.id) (
      field (codes "identity_a") (string g.identity_a) (
        field (codes "identity_b") (string g.identity_b) (
          field (codes "name_a") (or_null g.name_a) (
            field (codes "name_b") (or_null g.name_b) (
              field (codes "direction") (string (direction_text g.direction))
                (field (codes "expires") (expires_json c g.expires) end)))))))

unfoldable pub handle_list_grants : Call → HubInner → HeaderMap → Served
unfolding list_grants_for_token instant_to_iso8601 bearer_token auth_failed_response err_response
handle_list_grants c h headers = with_bearer h headers λ token.
    reading h
      (λ items. respond 200 (field (codes "grants") (array (items_of (grant_json c) items)) end))
      (list_grants_for_token h c.env.now token)

unfoldable pub handle_governor_list_grants : Call → HubInner → HeaderMap → Option Text → Served
unfolding list_all_grants_gov instant_to_iso8601 bearer_token auth_failed_response err_response
handle_governor_list_grants c h headers participant = with_bearer h headers λ token.
    reading h
      (λ items.
        respond 200 (field (codes "grants") (array (items_of (any_grant_json c) items)) end))
      (list_all_grants_gov h c.env.now token participant)
