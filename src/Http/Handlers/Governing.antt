-- ===== src/Http/Handlers/Governing.antt =====
-- http.rs: the handlers of the governor's office.
use simple_im.Base.{
  Bool, true, false, not, Option, none, some, List, [], if◌then◌else◌, ◌==◌, option_map,
}
use simple_im.Base.Text.{Text, text_Eq, codes, is_text}
use simple_im.Error.{Error, Done, Result, ok, err, bad_request, recipient_unknown, forbidden}
use simple_im.Hub.State.{HubInner, Effect, validate_governor_token, holds_flag}
use simple_im.Hub.Governance.{
  ClaimOutcome, granted, election_open, transfer_open, ClaimResolution, waiting, established,
  rejected, claim_governorship, respond_claim, admin_reset_governor,
}
use simple_im.Hub.Mediation.{
  MediationDecision, approve, block, modify, MediationResult, delivered, blocked, resolve_mediation,
}
use simple_im.Hub.Mediation
use simple_im.Hub.Authority.{begin_transfer, accept_transfer}
use simple_im.Http.Respond.{
  number, string, end, field, Response, stream, respond, refusal, HeaderMap, text_of, bearer_token,
  err_response, auth_failed_response,
}
use simple_im.Http.Handlers.{Call, Served, with_bearer, respond_with, reading}
use simple_im.Http.Handlers.People.{Settings}

unfoldable pub handle_transfer_governor : Call → HubInner → HeaderMap → Option Text → Served
unfolding begin_transfer bearer_token auth_failed_response err_response
handle_transfer_governor c h headers to_identity = with_bearer h headers λ token.
    respond_with (λ t. respond 200 (field (codes "transfer_token") (string t) end))
      (begin_transfer h c.bytes token to_identity)

abbrev accept_error : Error → Response
accept_error recipient_unknown =
    refusal 404 (codes "NOT_FOUND") (codes "transfer token not found or consumed")
accept_error forbidden =
    refusal 403 (codes "FORBIDDEN") (codes "transfer is bound to a different identity")
accept_error e = err_response e

abbrev accepted_by : Result Done × HubInner × List Effect → Served
accepted_by (ok u, h, effects) =
    (respond 200 (field (codes "status") (string (codes "accepted")) end), h, effects)
accepted_by (err e, h, effects) = (accept_error e, h, effects)

-- The governor itself is turned away. `transfer_token` is the field of the body.
unfoldable pub handle_accept_governor_transfer : HubInner → HeaderMap → Option Text → Served
unfolding accept_transfer bearer_token auth_failed_response err_response
handle_accept_governor_transfer h headers transfer_token = with_bearer h headers λ bearer.
    if holds_flag h bearer
    then (refusal 403 (codes "FORBIDDEN") (codes "a participant token is required"), h, [])
    else elim transfer_token [
      | none ↦ (refusal 400 (codes "MISSING_FIELD") (codes "missing transfer_token"), h, [])
      | some t ↦ accepted_by (accept_transfer h bearer t)
    ]

unfoldable pub handle_admin_governor_reset : Settings → HubInner → HeaderMap → Served
unfolding admin_reset_governor auth_failed_response
handle_admin_governor_reset s h headers = elim s.admin_secret [
  | none ↦ (refusal 501 (codes "NOT_IMPLEMENTED") (codes "admin secret not configured"), h, [])
  | some secret ↦
      if not (is_text (text_of (headers (codes "X-Admin-Secret"))) secret)
      then (auth_failed_response, h, [])
      else let (h', effects) = admin_reset_governor h in
        (respond 200 (field (codes "status") (string (codes "cleared")) end), h', effects)
]

abbrev claim_response : ClaimOutcome → Response
claim_response (granted identity) = respond 200 (
    field (codes "status") (string (codes "granted"))
      (field (codes "governor") (string identity) end))
claim_response (election_open claim_id voters) = respond 202 (
    field (codes "status") (string (codes "election"))
      (field (codes "claim_id") (string claim_id) (field (codes "voters") (number voters) end)))
claim_response (transfer_open claim_id) = respond 202 (
    field (codes "status") (string (codes "transfer_pending"))
      (field (codes "claim_id") (string claim_id) end))

unfoldable pub handle_claim_governorship : Call → HubInner → HeaderMap → Served
unfolding claim_governorship bearer_token auth_failed_response err_response
handle_claim_governorship c h headers =
    with_bearer h headers
      λ token. respond_with claim_response (claim_governorship c.env.render h c.env.now token)

abbrev vote_response : ClaimResolution → Response
vote_response (waiting approved required) = respond 200 (
    field (codes "status") (string (codes "waiting"))
      (field (codes "approved") (number approved) (field (codes "required") (number required) end)))
vote_response (established candidate_name) =
    respond 200 (field (codes "status") (string (codes "established")) end)
vote_response (rejected candidate_name) =
    respond 200 (field (codes "status") (string (codes "rejected")) end)

-- "approve" or "reject".
abbrev vote_of : Text → Option Bool
vote_of action =
    if action == codes "approve"
    then some true
    else if action == codes "reject"
    then some false
    else none

unfoldable pub handle_election_vote : Call → HubInner → HeaderMap → Text → Text → Served
unfolding respond_claim bearer_token auth_failed_response err_response
handle_election_vote c h headers claim_id action = with_bearer h headers λ token.
    elim (vote_of action) [
      | none ↦ (err_response bad_request, h, [])
      | some vote ↦
          respond_with vote_response (respond_claim c.env.render h c.env.now token claim_id vote)
    ]

-- "approve", "block", or "modify" with a payload.
abbrev decision_of : Text → Option Text → Option MediationDecision
decision_of decision payload =
    if decision == codes "approve"
    then some approve
    else if decision == codes "block"
    then some block
    else if decision == codes "modify"
    then option_map modify payload
    else none

abbrev mediation_response : MediationResult → Response
mediation_response (delivered to_name) =
    respond 200 (field (codes "status") (string (codes "delivered")) end)
mediation_response blocked = respond 200 (field (codes "status") (string (codes "blocked")) end)
mediation_response Mediation.recipient_offline = err_response Error.recipient_offline

unfoldable pub handle_mediate : Call → HubInner → HeaderMap → Text → Text → Option Text → Served
unfolding resolve_mediation bearer_token auth_failed_response err_response
handle_mediate c h headers mediation_id decision payload = with_bearer h headers λ token.
    elim (decision_of decision payload) [
      | none ↦ (err_response bad_request, h, [])
      | some d ↦
          respond_with mediation_response
            (resolve_mediation h c.readings.pruned_at c.env.now c.later token mediation_id d)
    ]

-- The stream of the governor's events, for the governor.
unfoldable pub handle_gov_events : Call → HubInner → HeaderMap → Served
unfolding bearer_token auth_failed_response err_response
handle_gov_events c h headers = with_bearer h headers λ token.
    reading h (λ _. record { status = 200; body = stream c.tx }) (validate_governor_token h token)
