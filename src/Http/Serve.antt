-- ===== src/Http/Serve.antt =====
-- http.rs: the router. A request is given by the handler that its method and path lead to, with the
-- parts of the path, the query and the body that the handler reads.
pub mod Access
use simple_im.Base.{ℕ, Option, none, some, List, []}
use simple_im.Base.Text.{Text, codes}
use simple_im.Hub.State.{HubInner, Effect}
use simple_im.Http.Respond.{Response, document, HeaderMap}
use simple_im.Http.Handlers.Discovery.{handle_discovery}
use simple_im.Http.Handlers.Attachments.{Upload, handle_attach_upload, handle_attach_download}
use simple_im.Http.Handlers.{Call, Served}
use simple_im.Http.Handlers.People.{
  Documents, Settings, ListenRequest, handle_register, handle_listen, handle_cancel_listen,
  handle_delete_self, handle_announce, handle_list_participants, handle_deregister, handle_presence,
  handle_set_presence_scope,
}
use simple_im.Http.Handlers.Mail.{
  SendBody, handle_send, handle_dequeue, handle_dequeue_all, handle_pending,
  handle_latest_message_id, handle_latest_message,
}
use simple_im.Http.Handlers.Governing.{
  handle_claim_governorship, handle_election_vote, handle_transfer_governor,
  handle_accept_governor_transfer, handle_mediate, handle_gov_events, handle_admin_governor_reset,
}
use simple_im.Http.Handlers.Grants.{
  ApproveGrantBody, ActionBody, handle_governor_list_grants, handle_list_grants,
  handle_approve_grant, handle_grant_request, handle_grant_request_action, handle_grant_unblock,
  handle_grant_block, handle_revoke_grant,
}
use simple_im.Http.Handlers.RoomRoutes.{
  room_id_reserved, handle_room_create, handle_room_join, handle_room_get, handle_room_leave,
}

pub data Request : Type 0 where
  get_discovery : Request
  get_openapi : Request
  post_register : Option Text → Request
  post_listen : ListenRequest → Request
  delete_listen : Request
  delete_own_identity : Request
  post_announce : Option Text → Request
  get_participant_skill : Request
  get_participant_listen_script : Request
  get_governor_skill : Request
  get_participants : Request
  delete_participant : Text → Request
  get_presence : Text → Request
  post_presence_scope : Text → Request
  post_send : SendBody → Request
  post_pop : Option Text → Request
  delete_queue : Option Text → Request
  get_pending : Request
  get_latest_id : Option ℕ → Option ℕ → Request
  get_latest : Request
  post_claim : Request
  post_vote : Text → Text → Request
  post_transfer : Option Text → Request
  post_accept_transfer : Option Text → Request
  post_mediate : Text → Text → Option Text → Request
  get_events : Request
  get_all_grants : Option Text → Request
  post_admin_reset : Request
  get_grants : Request
  post_approve : ApproveGrantBody → Request
  post_grant_request : Text → Option Text → Option Text → Request
  patch_grant_request : Text → ActionBody → Request
  post_unblock : Text → Text → Request
  post_block : Text → Text → Text → Option ℕ → Request
  delete_grant_by_id : Text → Request
  post_attachment : Upload → Request
  get_attachment : Text → Request
  get_room_create : Request
  post_room_create : ℕ → ℕ → Request
  post_room_join : Text → Option ℕ → Request
  get_room : Text → Request
  post_room_leave : Text → Request

-- The response, if there is one; the hub that is left; and what is done outside.
abbrev pub Reply : Type 0
Reply = Option Response × HubInner × List Effect

abbrev pub replied : Served → Reply
replied (r, h, effects) = (some r, h, effects)

abbrev pub without_effects : Option Response × HubInner → Reply
without_effects (r, h) = (r, h, [])

-- A static text with its content type.
abbrev text_response : Text → Text → Response
text_response content_type t = record { status = 200; body = document content_type t }

unfoldable pub handle_openapi : Documents → Response
handle_openapi d = text_response (codes "text/yaml; charset=utf-8") d.openapi_yaml

unfoldable pub handle_skill_participant : Documents → Response
handle_skill_participant d =
    text_response (codes "text/plain; charset=utf-8") d.participant_skill_md

unfoldable pub handle_skill_participant_listen : Documents → Response
handle_skill_participant_listen d =
    text_response (codes "text/plain; charset=utf-8") d.participant_listen_sh

unfoldable pub handle_skill_governor : Documents → Response
handle_skill_governor d = text_response (codes "text/plain; charset=utf-8") d.governor_skill_md

unfoldable handle_room_create_get_reserved : Response
handle_room_create_get_reserved = room_id_reserved

abbrev replied_or : HubInner → Option Served → Reply
replied_or h none = (none, h, [])
replied_or h (some served) = replied served

unfoldable pub serve : Call → Settings → HubInner → HeaderMap → Request → Reply
unfolding handle_register handle_listen handle_cancel_listen handle_delete_self handle_announce
    handle_list_participants handle_deregister handle_presence handle_set_presence_scope handle_send
    handle_dequeue handle_dequeue_all handle_pending handle_latest_message_id handle_latest_message
    handle_claim_governorship handle_election_vote handle_transfer_governor
    handle_accept_governor_transfer handle_mediate handle_gov_events handle_admin_governor_reset
    handle_governor_list_grants handle_list_grants handle_approve_grant handle_grant_request
    handle_grant_request_action handle_grant_unblock handle_grant_block handle_revoke_grant
    handle_room_create handle_room_join handle_room_get handle_room_leave handle_discovery
    handle_openapi handle_skill_participant handle_skill_participant_listen handle_skill_governor
    handle_room_create_get_reserved handle_attach_upload handle_attach_download
serve c s h headers get_discovery = replied (handle_discovery, h, [])
serve c s h headers get_openapi = replied (handle_openapi s.documents, h, [])
serve c s h headers get_participant_skill = replied (handle_skill_participant s.documents, h, [])
serve c s h headers get_participant_listen_script =
    replied (handle_skill_participant_listen s.documents, h, [])
serve c s h headers get_governor_skill = replied (handle_skill_governor s.documents, h, [])
serve c s h headers get_room_create = replied (handle_room_create_get_reserved, h, [])
serve c s h headers (post_attachment u) = replied (handle_attach_upload c s h headers u)
serve c s h headers (get_attachment id) = replied (handle_attach_download c h headers id)
serve c s h headers (post_register name) = replied_or h (handle_register c s h headers name)
serve c s h headers (post_listen r) = replied (handle_listen c h headers r)
serve c s h headers delete_listen = replied (handle_cancel_listen c h headers)
serve c s h headers delete_own_identity = replied (handle_delete_self c h headers)
serve c s h headers (post_announce name) = replied (handle_announce c h headers name)
serve c s h headers get_participants = replied (handle_list_participants c h headers)
serve c s h headers (delete_participant name) = replied (handle_deregister c h headers name)
serve c s h headers (get_presence name) = replied (handle_presence c h headers name)
serve c s h headers (post_presence_scope scope) =
    replied (handle_set_presence_scope c h headers scope)
serve c s h headers (post_send body) = replied (handle_send c h headers body)
serve c s h headers (post_pop thread) = replied (handle_dequeue c h headers thread)
serve c s h headers (delete_queue thread) = replied (handle_dequeue_all c h headers thread)
serve c s h headers get_pending = replied (handle_pending c h headers)
serve c s h headers (get_latest_id since wait) =
    replied (handle_latest_message_id c h headers since wait)
serve c s h headers get_latest = replied (handle_latest_message c h headers)
serve c s h headers post_claim = replied (handle_claim_governorship c h headers)
serve c s h headers (post_vote claim_id action) =
    replied (handle_election_vote c h headers claim_id action)
serve c s h headers (post_transfer to_identity) =
    replied (handle_transfer_governor c h headers to_identity)
serve c s h headers (post_accept_transfer transfer_token) =
    replied (handle_accept_governor_transfer h headers transfer_token)
serve c s h headers (post_mediate mediation_id decision payload) =
    replied (handle_mediate c h headers mediation_id decision payload)
serve c s h headers get_events = replied (handle_gov_events c h headers)
serve c s h headers (get_all_grants participant) =
    replied (handle_governor_list_grants c h headers participant)
serve c s h headers post_admin_reset = replied (handle_admin_governor_reset s h headers)
serve c s h headers get_grants = replied (handle_list_grants c h headers)
serve c s h headers (post_approve body) = replied (handle_approve_grant c h headers body)
serve c s h headers (post_grant_request recipient reason request_id) =
    replied (handle_grant_request c h headers recipient reason request_id)
serve c s h headers (patch_grant_request id body) =
    replied (handle_grant_request_action c h headers id body)
serve c s h headers (post_unblock from_identity to_name) =
    replied (handle_grant_unblock h headers from_identity to_name)
serve c s h headers (post_block from_identity to_name reason expires_at) =
    replied (handle_grant_block h headers from_identity to_name reason expires_at)
serve c s h headers (delete_grant_by_id id) = replied (handle_revoke_grant h headers id)
serve c s h headers (post_room_create hi lo) = replied (handle_room_create h headers hi lo)
serve c s h headers (post_room_join room_id ttl) =
    without_effects (handle_room_join c h headers room_id ttl)
serve c s h headers (get_room room_id) = without_effects (handle_room_get c h headers room_id)
serve c s h headers (post_room_leave room_id) =
    without_effects (handle_room_leave c h headers room_id)
