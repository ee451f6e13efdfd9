-- ===== src/Http/Handlers/RoomRoutes.antt =====
-- http.rs: the handlers of rooms. The room store is the hub's.
use simple_im.Base.{ℕ, Option, none, some, List, [], if◌then◌else◌, ◌==◌, ◌>>=◌}
use simple_im.Base.Text.{Text, text_Eq, codes}
use simple_im.Rooms.{
  RoomStore, RoomError, room_not_found, not_member, Outcome, returned, refused, panicked, create,
  join, members, leave,
}
use simple_im.Hub.State.{HubInner}
use simple_im.Hub.Tokens.{name_for_bearer_token}
use simple_im.Hub.Visible.{presence}
use simple_im.Http.Respond.{
  Json, boolean, string, array, object, end, field, items_of, Response, respond, refusal, HeaderMap,
  bearer_token,
}
use simple_im.Http.Handlers.{Call, Served}

-- The name that the bearer has announced.
unfoldable pub room_auth : HubInner → HeaderMap → Option Text
unfolding bearer_token name_for_bearer_token
room_auth h headers = bearer_token headers >>= name_for_bearer_token h

abbrev pub room_auth_failed : Response
room_auth_failed =
    refusal 401 (codes "AUTH_FAILED") (codes "valid bearer token with announced name required")

abbrev pub room_id_reserved : Response
room_id_reserved =
    refusal 400 (codes "BAD_REQUEST")
      (codes "\"create\" is a reserved name and cannot be used as a room_id")

-- The two random words of a room id are arguments.
unfoldable pub handle_room_create : HubInner → HeaderMap → ℕ → ℕ → Served
unfolding room_auth create
handle_room_create h headers hi lo = elim (room_auth h headers) [
  | none ↦ (room_auth_failed, h, [])
  | some caller ↦
      let (room_id, store) = create h.room_store hi lo in
      (
        respond 200 (field (codes "room_id") (string room_id) end),
        record h { room_store = store },
        [],
      )
]

-- The guards of the three handlers of a room.
abbrev pub in_room {ℓ} :
    {A : Type ℓ} → HubInner → HeaderMap → Text → (Response → A) → (Text → A) → A
in_room h headers room_id refuse f =
    if room_id == codes "create"
    then refuse room_id_reserved
    else elim (room_auth h headers) [ none ↦ refuse room_auth_failed | some caller ↦ f caller ]

abbrev member_json : Call → HubInner → Text → Json
member_json c h n =
    object
      (field (codes "name") (string n) (field (codes "online") (boolean (presence c.env h n)) end))

abbrev room_error : RoomError → Response
room_error room_not_found = refusal 404 (codes "NOT_FOUND") (codes "room not found")
room_error not_member =
    refusal 403 (codes "FORBIDDEN") (codes "caller is not a member of this room")

-- There is no response when the call panics.
abbrev roomed : Call → HubInner → Outcome (List Text) × RoomStore → Option Response × HubInner
roomed c h (returned names, store) =
    let h' = record h { room_store = store } in
    (
      some (respond 200 (field (codes "members") (array (items_of (member_json c h') names)) end)),
      h',
    )
roomed c h (refused e, store) = (some (room_error e), record h { room_store = store })
roomed c h (panicked, store) = (none, record h { room_store = store })

unfoldable pub handle_room_join :
    Call → HubInner → HeaderMap → Text → Option ℕ → Option Response × HubInner
unfolding room_auth join presence
handle_room_join c h headers room_id ttl =
    in_room h headers room_id (λ r. (some r, h))
      λ caller. roomed c h (join h.room_store c.env.now c.later room_id caller ttl)

unfoldable pub handle_room_get : Call → HubInner → HeaderMap → Text → Option Response × HubInner
unfolding room_auth members presence
handle_room_get c h headers room_id =
    in_room h headers room_id (λ r. (some r, h))
      λ caller. roomed c h (members h.room_store c.env.now room_id caller)

unfoldable pub handle_room_leave : Call → HubInner → HeaderMap → Text → Option Response × HubInner
unfolding room_auth leave
handle_room_leave c h headers room_id =
    in_room h headers room_id (λ r. (some r, h))
      λ caller. (
        some (respond 200 (field (codes "status") (string (codes "ok")) end)),
        record h { room_store = leave h.room_store c.env.now room_id caller },
      )
