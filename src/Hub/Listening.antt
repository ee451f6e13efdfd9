-- ===== src/Hub/Listening.antt =====
-- delivery.rs: the streams of the tokens, opened with or without a name to bind. The new stream is
-- known by the number `tx`.
pub mod Closing
use simple_im.Base.{
  ℕ, ◌+◌, ◌-◌, Bool, true, false, not, ◌&&◌, ◌||◌, Option, none, some, List, [], ◌∷◌, ◌++◌, map,
  if◌then◌else◌, ◌==◌, unwrap_or, is_some, option_map, ◌>>=◌, ltb, leb, eqb, length,
}
use simple_im.Base.Text.{Text, text_Eq, codes}
use simple_im.Base.Map.{get, insert, remove, update, contains_key}
use simple_im.Error.{
  Done, Result, ok, err, auth_failed, token_rejected, token_revoked, active_subscription,
  recipient_offline,
}
use simple_im.Trust.Chain.{is_governor}
use simple_im.Registry.{is_online, force_deregister}
use simple_im.Hub.Sets.{contains}
use simple_im.Hub.State.{
  ListenTokenState, HubInner, Effect, SseEvent, is_sse_alive_in_hub, send_event, gov_event,
  concurrent_use_alert, superseded, cancelled, welcome, sub, sim_online, notify_pending,
  store_identity, store_token,
}
use simple_im.Hub.Queue.{queue_of}
use simple_im.Hub.Peers.{
  Env, grant_peer_presence_senders, begin_settle_offline, cancel_settle_online, spawn_settle_task,
}
use simple_im.Hub.Names.{
  AnnounceResult, bound, name_in_use, resolution_stream, bind_name, gc_tokens,
  maybe_enqueue_governor_breadcrumb, bound_effects, push_online,
}

-- What a caller of `open_listen` asks for, beside its token.
pub record ListenArgs : Type 0 where
  pub peer_ip : Option Text
  pub name_to_bind : Option Text
  pub force : Bool
  pub presence_push : Bool

-- Sixty seconds, in nanoseconds.
abbrev concurrent_window : ℕ
concurrent_window = 60000000000

abbrev pub on_state : HubInner → Text → (ListenTokenState → ListenTokenState) → HubInner
on_state h token f = record h { listen_tokens = update token f h.listen_tokens }

-- A token whose stored name has lost its entry gets it back.
abbrev pub reattach : HubInner → Text → Option Text → HubInner
reattach h token none = h
reattach h token (some name) = if contains_key name h.name_to_token then h else record h {
  name_to_token = insert name token h.name_to_token;
  token_to_name = insert token name h.token_to_name;
  agents =
      if contains_key name h.agents
      then h.agents
      else insert name (record { identity = token }) h.agents;
}

-- Another address used the token less than a minute ago.
abbrev concurrent_use : ℕ → Text → Text → ListenTokenState → List Effect
concurrent_use now token ip st = elim st.last_ip [
  | none ↦ []
  | some last_ip ↦ elim st.last_ip_at [
    | none ↦ []
    | some last_at ↦
        if not (last_ip == ip) && ltb (now - last_at) concurrent_window
        then gov_event (concurrent_use_alert token ip last_ip) ∷ []
        else []
  ]
]

abbrev pub note_ip : ℕ → Text → Option Text → ListenTokenState → List Effect × ListenTokenState
note_ip now token none st = ([], st)
note_ip now token (some ip) st =
    (concurrent_use now token ip st, record st { last_ip = some ip; last_ip_at = some now })

-- The earlier stream of the token is told that it is superseded.
abbrev supersede : Option ℕ → List Effect
supersede none = []
supersede (some old_tx) = send_event old_tx (superseded (codes "new_listen_created")) ∷ []

-- The marks of a token with an open stream.
abbrev pub opened : ℕ → Bool → ℕ → ListenTokenState → ListenTokenState
opened now presence_push tx st = record st {
  sse_sender = some tx;
  ever_listened = true;
  pending_first_listen = false;
  presence_push = presence_push;
  last_active = now;
}

abbrev pub count_stream : HubInner → Text → HubInner
count_stream h token = record h {
  sse_connections = insert token (unwrap_or (get token h.sse_connections) 0 + 1) h.sse_connections;
}

-- The outcome of the binding, and the streams that hear of a fresh one.
pub record Binding : Type 0 where
  pub outcome : Option AnnounceResult
  pub fresh : Bool
  pub senders : List ℕ

abbrev kept_as : Option AnnounceResult → Binding
kept_as outcome = record { outcome = outcome; fresh = false; senders = [] }

-- A fresh name: bound, its settle timer cancelled, and a governor reminded.
unfoldable pub bind_fresh : Env → HubInner → Text → Text → Binding × HubInner
unfolding bind_name cancel_settle_online maybe_enqueue_governor_breadcrumb
    grant_peer_presence_senders
bind_fresh env h token name =
    let named = cancel_settle_online (bind_name h token name) name in
    let reminded =
      if is_governor named.trust name
      then maybe_enqueue_governor_breadcrumb env named name
      else named in
    let (senders, h') = grant_peer_presence_senders env reminded name in
    (record { outcome = some bound; fresh = true; senders = senders }, h')

unfoldable pub bind_as : Env → HubInner → Text → Text → Option Text → Binding × HubInner
unfolding bind_fresh cancel_settle_online
bind_as env h token name (some holder) =
    if holder == token
    then (kept_as (some bound), cancel_settle_online h name)
    else (kept_as (some (name_in_use (resolution_stream name))), h)
bind_as env h token name none =
    if is_online h.registry env.now name || contains h.identities name
    then (kept_as (some (name_in_use (resolution_stream name))), h)
    else bind_fresh env h token name

unfoldable pub bind_inline : Env → HubInner → Text → Option Text → Binding × HubInner
unfolding bind_as
bind_inline env h token none = (kept_as none, h)
bind_inline env h token (some name) = bind_as env h token name (get name h.name_to_token)

abbrev stream_of : Option AnnounceResult → Option Text
stream_of (some (name_in_use s)) = some s
stream_of outcome = none

abbrev own_name : HubInner → Text → Option Text
own_name h token = get token h.listen_tokens >>= λ st. st.name

abbrev last_message_id : HubInner → Text → ℕ
last_message_id h token = unwrap_or (option_map (λ st. st.msg_id) (get token h.listen_tokens)) 0

-- The events that greet a new stream.
abbrev greeting : HubInner → Text → ℕ → Option AnnounceResult → List Effect
greeting h token tx outcome =
    send_event tx (welcome token (own_name h token) (stream_of outcome))
    ∷ send_event tx (sub (last_message_id h token))
    ∷ (if h.startup_announced then [] else send_event tx sim_online ∷ [])

-- The number of messages that wait for the name of the token.
abbrev pub waiting : HubInner → Text → ℕ
waiting h token = elim (own_name h token) [ none ↦ 0 | some name ↦ length (queue_of h name) ]

-- The notice is armed again; if messages wait it is given at once.
abbrev pub catch_up : HubInner → Text → ℕ → List Effect × HubInner
catch_up h token tx =
    if eqb (waiting h token) 0
    then ([], on_state h token (λ s. record s { notify_suppressed = false }))
    else (
      send_event tx (notify_pending (waiting h token)) ∷ [],
      on_state h token (λ s. record s { notify_suppressed = true }),
    )

abbrev fresh_effects : Text → Binding → Option Text → List Effect
fresh_effects token b none = []
fresh_effects token b (some name) =
    if b.fresh then push_online name b.senders ++ bound_effects token name else []

-- The steps past the guards, for the state that the token has. The timers of the collection are
-- started when the lock is released.
unfoldable pub open_for :
    Env
    → HubInner
    → List Effect
    → Text
    → ListenArgs
    → ℕ
    → ListenTokenState
    → Result (Text × Option AnnounceResult) × HubInner × List Effect
unfolding bind_inline
open_for env h timers token args tx st =
    let attached = reattach h token st.name in
    let (alert, noted) = note_ip env.now token args.peer_ip st in
    let opened_hub =
      count_stream
        (record attached {
          listen_tokens =
              update token (λ _. opened env.now args.presence_push tx noted) attached.listen_tokens;
        })
        token in
    let (b, named) = bind_inline env opened_hub token args.name_to_bind in
    let (notice, h') = catch_up (record named { startup_announced = true }) token tx in
    (
      ok (token, b.outcome),
      h',
      alert
          ++ supersede noted.sse_sender
          ++ greeting named token tx b.outcome
          ++ notice
          ++ timers
          ++ fresh_effects token b args.name_to_bind,
    )

-- The guards of a known token: it is revoked; it has a stream and the caller does not force.
unfoldable pub open_past :
    Env
    → HubInner
    → List Effect
    → Text
    → ListenArgs
    → ℕ
    → ListenTokenState
    → Bool
    → Bool
    → Result (Text × Option AnnounceResult) × HubInner × List Effect
unfolding open_for
open_past env h timers token args tx st true has_active_sse = (err token_revoked, h, timers)
open_past env h timers token args tx st false true = (err active_subscription, h, timers)
open_past env h timers token args tx st false false = open_for env h timers token args tx st

unfoldable pub open_collected :
    Env
    → HubInner
    → List Effect
    → Text
    → ListenArgs
    → ℕ
    → Result (Text × Option AnnounceResult) × HubInner × List Effect
unfolding open_past
open_collected env h timers token args tx = elim (get token h.listen_tokens) [
  | none ↦ (err auth_failed, h, timers)
  | some st ↦
      open_past env h timers token args tx st st.revoked
        (is_sse_alive_in_hub token h.sse_connections && not args.force)
]

unfoldable pub open_listen :
    Env
    → HubInner
    → Option Text
    → ListenArgs
    → ℕ
    → Result (Text × Option AnnounceResult) × HubInner × List Effect
unfolding gc_tokens open_collected
open_listen env h none args tx = (err auth_failed, h, [])
open_listen env h (some token) args tx =
    let (h', timers) = gc_tokens env h in open_collected env h' timers token args tx
