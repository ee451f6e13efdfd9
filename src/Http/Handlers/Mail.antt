-- ===== src/Http/Handlers/Mail.antt =====
-- http.rs: the handlers of messages.
use simple_im.Base.{ℕ, Option, none, some, List, []}
use simple_im.Base.Text.{Text, codes}
use simple_im.Base.Text.Decimal.{to_string}
use simple_im.Error.{ok, err, bad_request}
use simple_im.Hub.State.{QueuedMessage, HubInner}
use simple_im.Hub.Governance.{Reply}
use simple_im.Hub.Queue.{dequeue, pending_count, drain_queue}
use simple_im.Hub.Tokens.{latest_message_id, peek_latest_message, wait_for_new_message_id}
use simple_im.Hub.Sending.{Ack, accepted, pending_mediation, send}
use simple_im.Hub.Visible.{recipient_of_token}
use simple_im.Http.Respond.{
  Json, null, number, string, array, object, end, field, field_if, items_of, Response, plain, empty,
  respond, refusal, HeaderMap, bearer_token, err_response, auth_failed_response,
}
use simple_im.Http.Handlers.{Call, Served, with_bearer, respond_with, quietly, reading}

pub record SendBody : Type 0 where
  pub to : Option Text
  pub to_token : Option Text
  pub payload : Text
  pub thread_id : Option Text

-- A payload is the bytes of a text, so that `from_utf8_lossy` gives it back.
abbrev message_json : QueuedMessage → Json
message_json m = object (
    field (codes "payload") (string m.payload) (
      field (codes "from") (string m.from_name) (
        field_if (codes "reason") m.reason (
          field_if (codes "event_type") m.event_type
            (field_if (codes "thread_id") m.thread_id end)))))

abbrev ack_response : Ack → Response
ack_response accepted = respond 202 (field (codes "status") (string (codes "accepted")) end)
ack_response (pending_mediation mediation_id) = respond 200 (
    field (codes "status") (string (codes "pending_mediation"))
      (field (codes "mediation_id") (string mediation_id) end))

-- The name behind the token of the recipient is looked up first, then the message is sent to it.
unfoldable send_to_token : Call → HubInner → Text → Text → List ℕ → Option Text → Reply Ack
unfolding recipient_of_token send
send_to_token c h token to_token payload thread_id = elim (recipient_of_token h to_token) [
  | err e ↦ (err e, h, [])
  | ok to_name ↦ send c.env.render h c.readings token to_name payload thread_id
]

-- A name goes before a token.
unfoldable pub handle_send : Call → HubInner → HeaderMap → SendBody → Served
unfolding send send_to_token bearer_token auth_failed_response err_response
handle_send c h headers body = with_bearer h headers λ token. elim body.to [
  | some to_name ↦
      respond_with ack_response
        (send c.env.render h c.readings token to_name body.payload body.thread_id)
  | none ↦ elim body.to_token [
    | some to_token ↦
        respond_with ack_response (send_to_token c h token to_token body.payload body.thread_id)
    | none ↦ (err_response bad_request, h, [])
  ]
]

-- `remaining` is written as 0 when there is no message.
abbrev pub popped : Option QueuedMessage × ℕ → Response
popped (none, remaining) =
    respond 200 (field (codes "message") null (field (codes "remaining") (number 0) end))
popped (some m, remaining) =
    respond 200
      (field (codes "message") (message_json m) (field (codes "remaining") (number remaining) end))

unfoldable pub handle_dequeue : Call → HubInner → HeaderMap → Option Text → Served
unfolding dequeue bearer_token auth_failed_response err_response
handle_dequeue c h headers thread =
    with_bearer h headers λ token. quietly popped (dequeue h c.env.now token thread)

unfoldable pub handle_dequeue_all : Call → HubInner → HeaderMap → Option Text → Served
unfolding drain_queue bearer_token auth_failed_response err_response
handle_dequeue_all c h headers thread = with_bearer h headers λ token.
    quietly (λ ms. respond 200 (field (codes "messages") (array (items_of message_json ms)) end))
      (drain_queue h token thread)

unfoldable pub handle_pending : Call → HubInner → HeaderMap → Served
unfolding pending_count bearer_token auth_failed_response err_response
handle_pending c h headers = with_bearer h headers λ token.
    reading h (λ n. respond 200 (field (codes "pending") (number n) end)) (pending_count h token)

abbrev id_response : ℕ → Option ℕ → Response
id_response missing none = record { status = missing; body = empty }
id_response missing (some id) = record { status = 200; body = plain (to_string id) }

-- With both parameters the call waits, at most five minutes; `arrivals` are the values that come in
-- that time.
unfoldable pub handle_latest_message_id : Call → HubInner → HeaderMap → Option ℕ → Option ℕ → Served
unfolding latest_message_id wait_for_new_message_id bearer_token auth_failed_response err_response
    to_string
handle_latest_message_id c h headers since wait = with_bearer h headers λ token. elim since [
  | none ↦ reading h (id_response 404) (latest_message_id h token)
  | some n ↦ elim wait [
    | none ↦ reading h (id_response 404) (latest_message_id h token)
    | some secs ↦ reading h (id_response 204) (wait_for_new_message_id h c.arrivals token n)
  ]
]

abbrev peeked : Option QueuedMessage → Response
peeked none = refusal 404 (codes "NO_MESSAGES") (codes "no messages in queue")
peeked (some m) = respond 200 (field (codes "message") (message_json m) end)

unfoldable pub handle_latest_message : Call → HubInner → HeaderMap → Served
unfolding peek_latest_message bearer_token auth_failed_response err_response
handle_latest_message c h headers =
    with_bearer h headers λ token. reading h peeked (peek_latest_message h token)
