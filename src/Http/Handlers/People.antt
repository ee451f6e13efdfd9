-- ===== src/Http/Handlers/People.antt =====
-- http.rs: the handlers of registration, listening, names, the roster and presence.
use simple_im.Base.{
  ℕ, Bool, true, false, not, Option, none, some, List, [], if◌then◌else◌, ◌==◌, ltb, unwrap_or,
  option_map, or_else,
}
use simple_im.Base.Text.{Text, text_Eq, codes}
use simple_im.Error.{Error, Result, ok, err, bad_request, recipient_unknown, forbidden}
use simple_im.Trust.Chain.{has_active_governor}
use simple_im.Hub.State.{HubInner, Effect}
use simple_im.Hub.Tokens.{register_participant, hide, show}
use simple_im.Hub.Names.{AnnounceResult, bound, name_in_use, announce}
use simple_im.Hub.Listening.{ListenArgs, open_listen}
use simple_im.Hub.Listening.Closing.{cancel_listen}
use simple_im.Hub.Removal.{revoke_by_name, delete_self}
use simple_im.Hub.Issue.{issue_participant_token}
use simple_im.Hub.Visible.{ParticipantInfo, list_participants}
use simple_im.Hub.Visible.Lookup.{presence_for_token}
use simple_im.Http.Respond.{
  Json, string, array, end, field, items_of, object, Response, respond, stream, no_content, refusal,
  HeaderMap, text_of, bearer_token, err_response, auth_failed_response, listen_auth_required, trim,
  first_part,
}
use simple_im.Http.Handlers.{Call, Served, with_bearer, respond_with, quietly, reading}

abbrev status_text : Bool → Text
status_text true = codes "online"
status_text false = codes "offline"

abbrev participant_json : ParticipantInfo → Json
participant_json a = object (
    field (codes "name") (string a.name) (
      field (codes "identity") (string a.identity)
        (field (codes "status") (string (status_text a.online)) end)))

unfoldable pub handle_list_participants : Call → HubInner → HeaderMap → Served
unfolding list_participants bearer_token auth_failed_response err_response
handle_list_participants c h headers = with_bearer h headers λ token.
    reading h
      (λ agents.
        respond 200 (field (codes "participants") (array (items_of participant_json agents)) end))
      (list_participants h c.env.now token)

unfoldable pub handle_deregister : Call → HubInner → HeaderMap → Text → Served
unfolding revoke_by_name bearer_token auth_failed_response err_response
handle_deregister c h headers name =
    with_bearer h headers
      λ token. respond_with (λ _. no_content) (revoke_by_name c.env h name token)

unfoldable pub handle_presence : Call → HubInner → HeaderMap → Text → Served
unfolding presence_for_token bearer_token auth_failed_response err_response
handle_presence c h headers name = with_bearer h headers λ token.
    quietly (λ online. respond 200 (field (codes "status") (string (status_text online)) end))
      (presence_for_token c.env h token name)

unfoldable pub handle_set_presence_scope : Call → HubInner → HeaderMap → Text → Served
unfolding hide show bearer_token auth_failed_response err_response
handle_set_presence_scope c h headers presence_scope = with_bearer h headers λ token.
    quietly (λ _. no_content)
      (if presence_scope == codes "hidden" then hide h token else show h token)

unfoldable pub handle_cancel_listen : Call → HubInner → HeaderMap → Served
unfolding cancel_listen bearer_token auth_failed_response
handle_cancel_listen c h headers = with_bearer h headers λ token.
    let (answer, h', effects) = cancel_listen c.env h token in
    elim answer [
      | ok _ ↦ (no_content, h', effects)
      | err e ↦ (refusal 404 (codes "NOT_FOUND") (codes "no active subscription"), h', effects)
    ]

unfoldable pub handle_delete_self : Call → HubInner → HeaderMap → Served
unfolding delete_self bearer_token auth_failed_response err_response
handle_delete_self c h headers =
    with_bearer h headers λ token. respond_with (λ _. no_content) (delete_self c.env h token)

abbrev in_use_response : Text → Response
in_use_response resolution_stream = respond 409 (
    field (codes "error") (string (codes "NAME_IN_USE")) (
      field (codes "message") (string (codes "name is currently in use")) (
        field (codes "resolution_stream") (string resolution_stream) (
          field (codes "resolution")
            (string (codes "contact the governor to rebind your identity to a new credential"))
            end))))

abbrev pub announced : AnnounceResult → Response
announced bound = no_content
announced (name_in_use resolution_stream) = in_use_response resolution_stream

-- `name` is the field of the body, if it is there and a text.
unfoldable pub handle_announce : Call → HubInner → HeaderMap → Option Text → Served
unfolding announce bearer_token auth_failed_response err_response
handle_announce c h headers name = with_bearer h headers λ token. elim name [
  | none ↦ (err_response bad_request, h, [])
  | some n ↦ respond_with announced (announce c.env h token n)
]

-- The address of the client, as a proxy forwards it.
abbrev pub peer_ip : HeaderMap → Option Text
peer_ip headers =
    option_map (λ v. trim (first_part b',' v))
      (text_of (or_else (headers (codes "X-Forwarded-For")) (headers (codes "X-Real-IP"))))

-- The query and the body of `POST /listen`.
pub record ListenRequest : Type 0 where
  pub force : Option Bool
  pub name : Option Text
  pub presence_push : Option Bool

abbrev listen_args : HeaderMap → ListenRequest → ListenArgs
listen_args headers r = record {
  peer_ip = peer_ip headers;
  name_to_bind = r.name;
  force = unwrap_or r.force false;
  presence_push = unwrap_or r.presence_push false;
}

unfoldable pub handle_listen : Call → HubInner → HeaderMap → ListenRequest → Served
unfolding open_listen bearer_token listen_auth_required err_response trim first_part
handle_listen c h headers r = elim (bearer_token headers) [
  | none ↦ (listen_auth_required, h, [])
  | some token ↦
      respond_with (λ _. record { status = 200; body = stream c.tx })
        (open_listen c.env h (some token) (listen_args headers r) c.tx)
]

-- The files that the build includes as texts.
pub record Documents : Type 0 where
  pub openapi_yaml : Text
  pub participant_skill_md : Text
  pub participant_listen_sh : Text
  pub governor_skill_md : Text

-- The parts of `AppState` beside the hub, and the included files.
pub record Settings : Type 0 where
  pub attachment_ttl : ℕ
  pub bootstrap_deadline : Option ℕ
  pub admin_secret : Option Text
  pub documents : Documents

abbrev window_closed : Call → Settings → Bool
window_closed c s = elim s.bootstrap_deadline [
  | none ↦ false
  | some deadline ↦ ltb deadline c.env.now
]

abbrev token_response : Text → Option Text → Response
token_response token none = respond 200 (field (codes "token") (string token) end)
token_response token (some name) =
    respond 200 (field (codes "token") (string token) (field (codes "name") (string name) end))

abbrev issue_error : Error → Response
issue_error recipient_unknown =
    refusal 404 (codes "RECIPIENT_UNKNOWN") (codes "name not found in identities")
issue_error forbidden =
    refusal 403 (codes "FORBIDDEN")
      (codes "a participant token cannot register participants; present the governor token")
issue_error e = err_response e

abbrev issued : Result (Text × Option Text) × HubInner × List Effect → Served
issued (ok (token, name), h, effects) = (token_response token name, h, effects)
issued (err e, h, effects) = (issue_error e, h, effects)

abbrev closed_response : Response
closed_response =
    respond 503
      (field (codes "error") (string (codes "bootstrap window closed; contact operator")) end)

-- Open to all while there is no governor and the window is open; else for the governor only. `none`
-- when the draws for a token run out.
unfoldable pub handle_register :
    Call → Settings → HubInner → HeaderMap → Option Text → Option Served
unfolding has_active_governor register_participant issue_participant_token bearer_token
    auth_failed_response err_response
handle_register c s h headers name =
    if not (has_active_governor h.trust)
    then (if window_closed c s
        then some (closed_response, h, [])
        else option_map (λ m. (token_response m.0 none, m.1, []))
            (register_participant h c.env.now c.draws))
    else elim (bearer_token headers) [
      | none ↦ some (auth_failed_response, h, [])
      | some gov ↦ option_map issued (issue_participant_token h c.env.now c.draws gov name)
    ]
