-- ===== src/Http/Serve/Access.antt =====
-- http.rs: what a request without a token can do.
use simple_im.Base.{
  ◌≡◌, refl, sym, ap, arith, inl, inr, Bool, true, false, not, Option, none, some, [], ◌==◌,
  Option-cases,
}
use simple_im.Base.Text.{Text, text_Eq, codes, is_text}
use simple_im.Trust.Chain.{has_active_governor}
use simple_im.Hub.State.{HubInner}
use simple_im.Http.Respond.{
  Response, HeaderMap, text_of, bearer_token, auth_failed_response, listen_auth_required,
}
use simple_im.Http.Handlers.{Call, with_bearer}
use simple_im.Http.Handlers.People.{
  Settings, handle_register, handle_listen, handle_cancel_listen, handle_delete_self,
  handle_announce, handle_list_participants, handle_deregister, handle_presence,
  handle_set_presence_scope,
}
use simple_im.Http.Handlers.Mail.{
  handle_send, handle_dequeue, handle_dequeue_all, handle_pending, handle_latest_message_id,
  handle_latest_message,
}
use simple_im.Http.Handlers.Governing.{
  handle_claim_governorship, handle_election_vote, handle_transfer_governor,
  handle_accept_governor_transfer, handle_mediate, handle_gov_events, handle_admin_governor_reset,
}
use simple_im.Http.Handlers.Grants.{
  handle_governor_list_grants, handle_list_grants, handle_approve_grant, handle_grant_request,
  handle_grant_request_action, handle_grant_unblock, handle_grant_block, handle_revoke_grant,
}
use simple_im.Http.Handlers.RoomRoutes.{
  in_room, room_auth, room_auth_failed, handle_room_create, handle_room_join, handle_room_get,
  handle_room_leave,
}
use simple_im.Http.Handlers.Attachments.{handle_attach_upload, handle_attach_download}
use simple_im.Http.Serve.{
  Request, get_discovery, get_openapi, get_participant_skill, get_participant_listen_script,
  get_governor_skill, get_room_create, post_attachment, get_attachment, post_register, post_listen,
  delete_listen, delete_own_identity, post_announce, get_participants, delete_participant,
  get_presence, post_presence_scope, post_send, post_pop, delete_queue, get_pending, get_latest_id,
  get_latest, post_claim, post_vote, post_transfer, post_accept_transfer, post_mediate, get_events,
  get_all_grants, post_admin_reset, get_grants, post_approve, post_grant_request,
  patch_grant_request, post_unblock, post_block, delete_grant_by_id, post_room_create,
  post_room_join, get_room, post_room_leave, replied, without_effects, serve,
}

-- The requests that need the token of a bearer: all but those for the public documents, one that
-- reads the reserved path of rooms or names the reserved room, a registration while nobody governs,
-- and the operator's reset, which needs the secret.
abbrev is_protected : Settings → HubInner → HeaderMap → Request → Bool
is_protected s h headers get_discovery = false
is_protected s h headers get_openapi = false
is_protected s h headers get_participant_skill = false
is_protected s h headers get_participant_listen_script = false
is_protected s h headers get_governor_skill = false
is_protected s h headers get_room_create = false
is_protected s h headers (post_register name) = has_active_governor h.trust
is_protected s h headers post_admin_reset = elim s.admin_secret [
  | none ↦ false
  | some secret ↦ not (is_text (text_of (headers (codes "X-Admin-Secret"))) secret)
]
is_protected s h headers (post_room_join room_id ttl) = not (room_id == codes "create")
is_protected s h headers (get_room room_id) = not (room_id == codes "create")
is_protected s h headers (post_room_leave room_id) = not (room_id == codes "create")
is_protected s h headers r = true

-- The response to such a request when there is no token.
abbrev refusal_of : Request → Response
refusal_of (post_listen r) = listen_auth_required
refusal_of (post_room_create hi lo) = room_auth_failed
refusal_of (post_room_join room_id ttl) = room_auth_failed
refusal_of (get_room room_id) = room_auth_failed
refusal_of (post_room_leave room_id) = room_auth_failed
refusal_of r = auth_failed_response

no_room_auth :
    (h : HubInner) (headers : HeaderMap) → bearer_token headers ≡ none → room_auth h headers ≡ none
unfolding room_auth
no_room_auth h headers e = rw e refl

refusal-status : (r : Request) → (refusal_of r).status ≡ 401
unfolding auth_failed_response listen_auth_required
refusal-status r = elim r as (λ k. (refusal_of k).status ≡ 401) [
  | get_discovery ↦ refl
  | get_openapi ↦ refl
  | get_participant_skill ↦ refl
  | get_participant_listen_script ↦ refl
  | get_governor_skill ↦ refl
  | get_room_create ↦ refl
  | post_attachment _ ↦ refl
  | get_attachment _ ↦ refl
  | post_register _ ↦ refl
  | post_listen _ ↦ refl
  | delete_listen ↦ refl
  | delete_own_identity ↦ refl
  | post_announce _ ↦ refl
  | get_participants ↦ refl
  | delete_participant _ ↦ refl
  | get_presence _ ↦ refl
  | post_presence_scope _ ↦ refl
  | post_send _ ↦ refl
  | post_pop _ ↦ refl
  | delete_queue _ ↦ refl
  | get_pending ↦ refl
  | get_latest_id _ _ ↦ refl
  | get_latest ↦ refl
  | post_claim ↦ refl
  | post_vote _ _ ↦ refl
  | post_transfer _ ↦ refl
  | post_accept_transfer _ ↦ refl
  | post_mediate _ _ _ ↦ refl
  | get_events ↦ refl
  | get_all_grants _ ↦ refl
  | post_admin_reset ↦ refl
  | get_grants ↦ refl
  | post_approve _ ↦ refl
  | post_grant_request _ _ _ ↦ refl
  | patch_grant_request _ _ ↦ refl
  | post_unblock _ _ ↦ refl
  | post_block _ _ _ _ ↦ refl
  | delete_grant_by_id _ ↦ refl
  | post_room_create _ _ ↦ refl
  | post_room_join _ _ ↦ refl
  | get_room _ ↦ refl
  | post_room_leave _ ↦ refl
]

not_injective : (b : Bool) → not b ≡ true → b ≡ false
not_injective true e = sym e
not_injective false e = refl

no_secret :
    (s : Settings) (h : HubInner) (headers : HeaderMap)
    → is_protected s h headers post_admin_reset ≡ true
    → handle_admin_governor_reset s h headers ≡ (auth_failed_response, h, [])
unfolding handle_admin_governor_reset
no_secret s h headers p = elim (Option-cases s.admin_secret) [
  | inl e ↦ ground arith
  | inr (secret, e) ↦ ground arith
]

no_caller :
    (h : HubInner) (headers : HeaderMap) (room_id : Text) (f : Text → Option Response × HubInner)
    → bearer_token headers ≡ none
    → not (room_id == codes "create") ≡ true
    → in_room h headers room_id (λ r. (some r, h)) f ≡ (some room_auth_failed, h)
no_caller h headers room_id f e p =
    rw (not_injective (room_id == codes "create") p, no_room_auth h headers e) refl

-- The response, with the hub as it was and nothing done outside.
unauthenticated :
    (c : Call) (s : Settings) (h : HubInner) (headers : HeaderMap) (r : Request)
    → bearer_token headers ≡ none
    → is_protected s h headers r ≡ true
    → serve c s h headers r ≡ (some (refusal_of r), h, [])
unfolding serve handle_register handle_listen handle_cancel_listen handle_delete_self
    handle_announce handle_list_participants handle_deregister handle_presence
    handle_set_presence_scope handle_send handle_dequeue handle_dequeue_all handle_pending
    handle_latest_message_id handle_latest_message handle_claim_governorship handle_election_vote
    handle_transfer_governor handle_accept_governor_transfer handle_mediate handle_gov_events
    handle_governor_list_grants handle_list_grants handle_approve_grant handle_grant_request
    handle_grant_request_action handle_grant_unblock handle_grant_block handle_revoke_grant
    handle_room_join handle_room_get handle_room_leave handle_attach_upload handle_attach_download
unauthenticated c s h headers get_discovery e p = absurd (ground arith)
unauthenticated c s h headers get_openapi e p = absurd (ground arith)
unauthenticated c s h headers get_participant_skill e p = absurd (ground arith)
unauthenticated c s h headers get_participant_listen_script e p = absurd (ground arith)
unauthenticated c s h headers get_governor_skill e p = absurd (ground arith)
unauthenticated c s h headers get_room_create e p = absurd (ground arith)
unauthenticated c s h headers (post_attachment u) e p =
    rw (e, handle_attach_upload, with_bearer) refl
unauthenticated c s h headers (get_attachment id) e p =
    rw (e, handle_attach_download, with_bearer) refl
unauthenticated c s h headers (post_register name) e p = rw (p, e) refl
unauthenticated c s h headers post_admin_reset e p = ap replied (no_secret s h headers p)
unauthenticated c s h headers (post_room_create hi lo) e p =
    rw (no_room_auth h headers e, handle_room_create) refl
unauthenticated c s h headers (post_room_join room_id ttl) e p =
    ap without_effects (no_caller h headers room_id _ e p)
unauthenticated c s h headers (get_room room_id) e p =
    ap without_effects (no_caller h headers room_id _ e p)
unauthenticated c s h headers (post_room_leave room_id) e p =
    ap without_effects (no_caller h headers room_id _ e p)
unauthenticated c s h headers (post_listen r) e p = rw (e, handle_listen) refl
unauthenticated c s h headers delete_listen e p = rw (e, handle_cancel_listen, with_bearer) refl
unauthenticated c s h headers delete_own_identity e p = rw (e, handle_delete_self, with_bearer) refl
unauthenticated c s h headers (post_announce name) e p = rw (e, handle_announce, with_bearer) refl
unauthenticated c s h headers get_participants e p =
    rw (e, handle_list_participants, with_bearer) refl
unauthenticated c s h headers (delete_participant name) e p =
    rw (e, handle_deregister, with_bearer) refl
unauthenticated c s h headers (get_presence name) e p = rw (e, handle_presence, with_bearer) refl
unauthenticated c s h headers (post_presence_scope scope) e p =
    rw (e, handle_set_presence_scope, with_bearer) refl
unauthenticated c s h headers (post_send body) e p = rw (e, handle_send, with_bearer) refl
unauthenticated c s h headers (post_pop thread) e p = rw (e, handle_dequeue, with_bearer) refl
unauthenticated c s h headers (delete_queue thread) e p =
    rw (e, handle_dequeue_all, with_bearer) refl
unauthenticated c s h headers get_pending e p = rw (e, handle_pending, with_bearer) refl
unauthenticated c s h headers (get_latest_id since wait) e p =
    rw (e, handle_latest_message_id, with_bearer) refl
unauthenticated c s h headers get_latest e p = rw (e, handle_latest_message, with_bearer) refl
unauthenticated c s h headers post_claim e p = rw (e, handle_claim_governorship, with_bearer) refl
unauthenticated c s h headers (post_vote claim_id action) e p =
    rw (e, handle_election_vote, with_bearer) refl
unauthenticated c s h headers (post_transfer to_identity) e p =
    rw (e, handle_transfer_governor, with_bearer) refl
unauthenticated c s h headers (post_accept_transfer transfer_token) e p =
    rw (e, handle_accept_governor_transfer, with_bearer) refl
unauthenticated c s h headers (post_mediate mediation_id decision payload) e p =
    rw (e, handle_mediate, with_bearer) refl
unauthenticated c s h headers get_events e p = rw (e, handle_gov_events, with_bearer) refl
unauthenticated c s h headers (get_all_grants participant) e p =
    rw (e, handle_governor_list_grants, with_bearer) refl
unauthenticated c s h headers get_grants e p = rw (e, handle_list_grants, with_bearer) refl
unauthenticated c s h headers (post_approve body) e p =
    rw (e, handle_approve_grant, with_bearer) refl
unauthenticated c s h headers (post_grant_request recipient reason request_id) e p =
    rw (e, handle_grant_request, with_bearer) refl
unauthenticated c s h headers (patch_grant_request id body) e p =
    rw (e, handle_grant_request_action, with_bearer) refl
unauthenticated c s h headers (post_unblock from_identity to_name) e p =
    rw (e, handle_grant_unblock, with_bearer) refl
unauthenticated c s h headers (post_block from_identity to_name reason expires_at) e p =
    rw (e, handle_grant_block, with_bearer) refl
unauthenticated c s h headers (delete_grant_by_id id) e p =
    rw (e, handle_revoke_grant, with_bearer) refl

-- Without a bearer token, a request that a handler takes up is answered with status 401, changes
-- nothing in the hub and does nothing outside, unless it is one for a public document (GET /,
-- /openapi.yaml, or one of the three under /skills), one for the reserved room id (GET /room/create,
-- or the room called "create"), a registration while nobody governs, or an operator's reset with the
-- right secret or with none configured.
pub unauthenticated_refused :
    (c : Call) (s : Settings) (h : HubInner) (headers : HeaderMap) (r : Request)
    → bearer_token headers ≡ none
    → is_protected s h headers r ≡ true
    → (resp : Response) × (serve c s h headers r ≡ (some resp, h, [])) × (resp.status ≡ 401)
unauthenticated_refused c s h headers r e p =
    (refusal_of r, unauthenticated c s h headers r e p, refusal-status r)
