-- ===== src/Hub/Names.antt =====
-- delivery.rs: names bound to tokens. The garbage collection of tokens, and the announcement of a
-- name.
pub mod Book
use simple_im.Base.{
  ℕ, ◌-◌, Bool, true, false, not, ◌&&◌, ◌||◌, Option, none, some, List, [], ◌∷◌, ◌++◌, map,
  if◌then◌else◌, ◌==◌, unwrap_or, is_some, option_map, retain, any, ltb,
}
use simple_im.Base.Text.{Text, text_Eq, codes, is_text}
use simple_im.Base.Map.{get, insert, remove, update, contains_key, keys}
use simple_im.Error.{Result, ok, err, token_rejected, token_revoked}
use simple_im.Trust.Chain.{is_governor}
use simple_im.Registry.{grant_scoped, is_online, register}
use simple_im.Hub.Sets.{contains, set_insert, set_remove}
use simple_im.Hub.State.{
  QueuedMessage, ListenTokenState, HubInner, Effect, governor_role, send_event, notify_pending,
  presence_online, store_identity, store_token,
}
use simple_im.Hub.Queue.{queue_of, push_back, take_notify, touch_token}
use simple_im.Hub.Peers.{
  Env, begin_settle_offline, cancel_settle_online, grant_peer_presence_senders, spawn_settle_task,
}

abbrev pub name_token : HubInner → Text → Text → HubInner
name_token h token name = record h {
  listen_tokens = update token (λ st. record st { name = some name }) h.listen_tokens;
}

-- The identity is entered in the roster, and the name in both maps, in the agents and in the state
-- of the token.
unfoldable pub bind_name : HubInner → Text → Text → HubInner
unfolding set_insert
bind_name h token name =
    name_token
      (record h {
        identities = set_insert name h.identities;
        name_to_token = insert name token h.name_to_token;
        token_to_name = insert token name h.token_to_name;
        agents = insert name (record { identity = token }) h.agents;
      })
      token name

abbrev is_rostered : HubInner → Option Text → Bool
is_rostered h none = false
is_rostered h (some name) = contains h.identities name

-- The filter of the collection: how long a token may be idle, by how far it got.
unfoldable pub is_expired : HubInner → ℕ → ListenTokenState → Bool
is_expired h now st =
    let idle = now - st.last_active in
    if st.revoked
    then false
    else if is_rostered h st.name
    then false
    else if st.pending_first_listen
    then ltb h.gc_registration_grace idle
    else if not st.ever_listened
    then ltb h.gc_ttl_unlisten idle
    else if not st.ever_granted && not (is_some st.name)
    then ltb h.gc_ttl_no_grant idle
    else false

-- What the collection takes away with the name of a token.
abbrev forget_name : HubInner → Text → Text → HubInner
forget_name h tok name = record h {
  name_to_token = remove name h.name_to_token;
  agents = remove name h.agents;
  token_to_name = remove tok h.token_to_name;
  message_queues = remove name h.message_queues;
  kick_pending = set_remove name h.kick_pending;
}

abbrev settle_if : Bool → Env → HubInner → Text → List ℕ × HubInner
settle_if true env h name = begin_settle_offline env h name
settle_if false env h name = ([], h)

-- One round of the second loop, for the state that the token had.
unfoldable pub collected : Env → HubInner → Text → Option ListenTokenState → HubInner × List Effect
unfolding begin_settle_offline set_remove
collected env h tok none = (h, [])
collected env h tok (some st) =
    let dropped = record h { listen_tokens = remove tok h.listen_tokens } in
    elim st.name [
      | none ↦ (dropped, [])
      | some name ↦
          let (senders, begun) = settle_if st.ever_granted env dropped name in
          (forget_name begun tok name, spawn_settle_task begun name senders)
    ]

unfoldable pub collect_all : Env → HubInner → List Text → HubInner × List Effect
unfolding collected
collect_all env h [] = (h, [])
collect_all env h (tok ∷ toks) =
    let closed = record h { sse_connections = remove tok h.sse_connections } in
    let (h', timer) = collected env closed tok (get tok h.listen_tokens) in
    let (h'', timers) = collect_all env h' toks in (h'', timer ++ timers)

unfoldable pub gc_tokens : Env → HubInner → HubInner × List Effect
unfolding collect_all is_expired
gc_tokens env h = collect_all env h (keys (retain (λ e. is_expired h env.now e.1) h.listen_tokens))

abbrev pub is_breadcrumb : QueuedMessage → Bool
is_breadcrumb m = is_text m.event_type (codes "governor_role")

-- The reminder of its duties that a governor finds in its queue, unless one is there.
unfoldable pub maybe_enqueue_governor_breadcrumb : Env → HubInner → Text → HubInner
unfolding push_back set_insert
maybe_enqueue_governor_breadcrumb env h name =
    if any is_breadcrumb (queue_of h name)
    then h
    else let queued = push_back h name (record {
      payload = env.render governor_role;
      from_name = codes "system";
      reason = some (codes "governor_role_breadcrumb");
      event_type = some (codes "governor_role");
      thread_id = none;
    }) in
      record queued { kick_pending = set_insert name queued.kick_pending }

pub data AnnounceResult : Type 0 where
  bound : AnnounceResult
  name_in_use : Text → AnnounceResult

-- `format!("/sessions/{}/events", name)`
abbrev pub resolution_stream : Text → Text
resolution_stream name = codes "/sessions/" ++ name ++ codes "/events"

abbrev pub registered : Env → HubInner → Text → Text → HubInner
registered env h token name = record h {
  registry = (register h.registry env.now name (record { id = some token }) grant_scoped).1;
}

-- The breadcrumb of a governor, and the notice of it.
abbrev pub remind_governor : Env → HubInner → Text → Option (ℕ × ℕ) × HubInner
remind_governor env h name =
    if is_governor h.trust name
    then take_notify (maybe_enqueue_governor_breadcrumb env h name) name
    else (none, h)

abbrev notify_effects : Option (ℕ × ℕ) → List Effect
notify_effects none = []
notify_effects (some (sender, pending)) = send_event sender (notify_pending pending) ∷ []

-- `push_presence_event`, for a participant that came online.
abbrev pub push_online : Text → List ℕ → List Effect
push_online name senders = map (λ tx. send_event tx (presence_online name)) senders

abbrev pub bound_effects : Text → Text → List Effect
bound_effects token name = store_identity name ∷ store_token token name ∷ []

-- The guards have passed: the token takes the name.
unfoldable pub claim_name :
    Env → HubInner → Text → Text → Result AnnounceResult × HubInner × List Effect
unfolding bind_name maybe_enqueue_governor_breadcrumb take_notify cancel_settle_online
    grant_peer_presence_senders
claim_name env h token name =
    let claimed = registered env (bind_name h token name) token name in
    let (notify, reminded) = remind_governor env claimed name in
    let (senders, h') = grant_peer_presence_senders env (cancel_settle_online reminded name) name in
    (ok bound, h', bound_effects token name ++ notify_effects notify ++ push_online name senders)

-- A name that is dangling loses its entry; a name that a minted agent or a registered identity
-- holds is in use.
unfoldable pub announce_unheld :
    Env → HubInner → Text → Text → Result AnnounceResult × HubInner × List Effect
unfolding claim_name
announce_unheld env h token name =
    if is_online h.registry env.now name || contains h.identities name
    then (ok (name_in_use (resolution_stream name)), h, [])
    else claim_name env h token name

unfoldable pub announce_as :
    Env → HubInner → Text → Text → Option Text → Result AnnounceResult × HubInner × List Effect
unfolding announce_unheld cancel_settle_online
announce_as env h token name none = announce_unheld env h token name
announce_as env h token name (some holder) =
    if holder == token
    then (ok bound, cancel_settle_online (registered env h token name) name, [])
    else if contains_key holder h.listen_tokens
    then (ok (name_in_use (resolution_stream name)), h, [])
    else announce_unheld env (record h { name_to_token = remove name h.name_to_token }) token name

-- The body of `announce`, once the collection is done.
unfoldable pub announce_collected :
    Env → HubInner → Text → Text → Result AnnounceResult × HubInner × List Effect
unfolding announce_as touch_token
announce_collected env h token name = elim (get token h.listen_tokens) [
  | none ↦ (err token_rejected, h, [])
  | some st ↦
      if st.revoked
      then (err token_revoked, h, [])
      else announce_as env (touch_token h env.now token) token name (get name h.name_to_token)
]

-- The timers of the collection are started before the store is written.
unfoldable pub announce :
    Env → HubInner → Text → Text → Result AnnounceResult × HubInner × List Effect
unfolding gc_tokens announce_collected
announce env h token name =
    let (h', timers) = gc_tokens env h in
    let (answer, h'', effects) = announce_collected env h' token name in
    (answer, h'', timers ++ effects)
