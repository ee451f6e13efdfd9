-- ===== src/Hub/Listening/Closing.antt =====
-- delivery.rs: the loss of a stream, and its cancellation.
use simple_im.Base.{
  ℕ, ◌-◌, Bool, false, not, ◌&&◌, Option, none, some, List, [], ◌∷◌, ◌++◌, if◌then◌else◌, unwrap_or,
  option_map, leb,
}
use simple_im.Base.Text.{Text, text_Eq}
use simple_im.Base.Map.{get, remove, update}
use simple_im.Error.{Done, Result, ok, err, token_rejected, token_revoked, recipient_offline}
use simple_im.Registry.{force_deregister}
use simple_im.Hub.State.{
  ListenTokenState, HubInner, Effect, is_sse_alive_in_hub, send_event, cancelled,
}
use simple_im.Hub.Peers.{Env, begin_settle_offline, spawn_settle_task}
use simple_im.Hub.Listening.{on_state}

abbrev is_revoked : HubInner → Text → Bool
is_revoked h token = unwrap_or (option_map (λ st. st.revoked) (get token h.listen_tokens)) false

-- One stream fewer; the count is taken out with the last one.
abbrev pub uncount_stream : HubInner → Text → HubInner
uncount_stream h token = elim (get token h.sse_connections) [
  | none ↦ h
  | some count ↦
      if leb count 1
      then record h { sse_connections = remove token h.sse_connections }
      else record h { sse_connections = update token (λ c. c - 1) h.sse_connections }
]

abbrev pub clear_closed : Env → ListenTokenState → ListenTokenState
clear_closed env st = elim st.sse_sender [
  | none ↦ st
  | some tx ↦ if env.is_closed tx then record st { sse_sender = none } else st
]

-- The name that an unexpected loss of the last stream leaves without one.
abbrev pub dropped_name : HubInner → Text → Option Text
dropped_name h token =
    if not (is_revoked h token) && leb (unwrap_or (get token h.sse_connections) 0) 1
    then get token h.token_to_name
    else none

abbrev pub settle_for : Env → HubInner → Option Text → List Effect × HubInner
settle_for env h none = ([], h)
settle_for env h (some name) =
    let (senders, h') = begin_settle_offline env h name in (spawn_settle_task h' name senders, h')

unfoldable pub close_listen : Env → HubInner → Text → HubInner × List Effect
unfolding begin_settle_offline
close_listen env h token =
    let (timer, begun) = settle_for env h (dropped_name h token) in
    (on_state (uncount_stream begun token) token (clear_closed env), timer)

-- What a cancelled token loses with its name.
abbrev pub unbind : HubInner → Text → Option Text → HubInner
unbind h token none = h
unbind h token (some name) = record h {
  token_to_name = remove token h.token_to_name;
  name_to_token = remove name h.name_to_token;
  agents = remove name h.agents;
  registry = force_deregister h.registry name;
}

abbrev cancel_effects : Option ℕ → List Effect
cancel_effects none = []
cancel_effects (some tx) = send_event tx cancelled ∷ []

unfoldable pub cancel_listen : Env → HubInner → Text → Result Done × HubInner × List Effect
unfolding begin_settle_offline force_deregister
cancel_listen env h token = elim (get token h.listen_tokens) [
  | none ↦ (err token_rejected, h, [])
  | some st ↦
      if st.revoked
      then (err token_revoked, h, [])
      else if not (is_sse_alive_in_hub token h.sse_connections)
      then (err recipient_offline, h, [])
      else let name = get token h.token_to_name in
        let (timer, begun) = settle_for env h name in
        let unbound =
          unbind (record begun { sse_connections = remove token begun.sse_connections }) token
            name in
        (
          ok tt,
          on_state unbound token (λ s. record s { name = none; sse_sender = none }),
          cancel_effects st.sse_sender ++ timer,
        )
]
