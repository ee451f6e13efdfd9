-- ===== src/Hub/Peers.antt =====
-- delivery.rs: who hears of a participant's presence, and the settle timers that wait before a
-- participant is said to be offline.
use simple_im.Base.{
  ℕ, Bool, false, not, ◌&&◌, Option, none, some, List, [], ◌∷◌, ◌++◌, if◌then◌else◌, ◌==◌,
  unwrap_or, or_else, option_map, ◌>>=◌, foldl,
}
use simple_im.Base.Text.{Text, text_Eq, pair_Eq}
use simple_im.Base.Map.{get, contains_key, keys}
use simple_im.Trust.Listing.{grant_counterparties_for}
use simple_im.Rooms.{RoomStore, shares_room}
use simple_im.Hub.Sets.{contains, set_insert, set_remove}
use simple_im.Hub.State.{ListenTokenState, HubInner, Notice, Effect, settle_offline}
use simple_im.Hub.Denial.{is_denial_active}

-- What the handlers read from the outside: the clocks, in nanoseconds and in Unix seconds; whether
-- the receiver of a stream, or of the settle timer of a name, is gone; and the JSON printer.
pub record Env : Type 0 where
  pub now : ℕ
  pub now_secs : ℕ
  pub is_closed : ℕ → Bool
  pub timer_is_closed : Text → Bool
  pub render : Notice → List ℕ

-- The identity of a name, or the name itself.
abbrev identity_of : HubInner → Text → Text
identity_of h name = unwrap_or (option_map (λ s. s.identity) (get name h.agents)) name

-- The token of a counterparty: by its name, else by its identity.
unfoldable token_of_peer : HubInner → Option Text × Text → Option Text
token_of_peer h (cp_name, cp_identity) =
    or_else (cp_name >>= λ n. get n h.name_to_token)
      (if contains_key cp_identity h.listen_tokens then some cp_identity else none)

-- The stream of a token that asked for presence events.
abbrev opted_in : Env → ListenTokenState → Option ℕ
opted_in env st = elim st.sse_sender [
  | none ↦ none
  | some tx ↦ if st.presence_push && not (env.is_closed tx) then some tx else none
]

unfoldable open_stream : Env → HubInner → Text → Option ℕ
open_stream env h tok = get tok h.listen_tokens >>= opted_in env

-- The two local variables of the loops.
record Gathered : Type 0 where
  pub senders : List ℕ
  pub seen_tokens : List Text

unfoldable gather : Env → HubInner → Gathered → Text → Gathered
unfolding open_stream
gather env h g tok = if contains g.seen_tokens tok then g else record {
  senders = elim (open_stream env h tok) [ none ↦ g.senders | some tx ↦ g.senders ++ tx ∷ [] ];
  seen_tokens = g.seen_tokens ++ tok ∷ [];
}

unfoldable gather_granted : Env → HubInner → Text → Gathered → Option Text × Text → Gathered
unfolding gather token_of_peer
gather_granted env h name g cp =
    if is_denial_active h env.now_secs cp.1 name
    then g
    else elim (token_of_peer h cp) [ none ↦ g | some tok ↦ gather env h g tok ]

unfoldable gather_present : Env → HubInner → Text → Gathered → Text → Gathered
unfolding gather
gather_present env h name g cp_name = elim (get cp_name h.name_to_token) [
  | none ↦ g
  | some tok ↦ if is_denial_active h env.now_secs tok name then g else gather env h g tok
]

-- The names that share a room with `name`; every look at the rooms drops their lapsed members.
unfoldable room_peers : ℕ → Text → List Text → RoomStore → List Text × RoomStore
room_peers now name [] s = ([], s)
room_peers now name (cp_name ∷ names) s =
    let (shared, s') = if cp_name == name then (false, s) else shares_room s now name cp_name in
    let (rest, s'') = room_peers now name names s' in (if shared then cp_name ∷ rest else rest, s'')

unfoldable pub grant_peer_presence_senders : Env → HubInner → Text → List ℕ × HubInner
unfolding gather_granted gather_present room_peers foldl
grant_peer_presence_senders env h name =
    let counterparties = grant_counterparties_for h.trust env.now name (identity_of h name) in
    let granted =
      foldl (gather_granted env h name) (record { senders = []; seen_tokens = [] })
        counterparties in
    let (peers, store) = room_peers env.now name (keys h.name_to_token) h.room_store in
    ((foldl (gather_present env h name) granted peers).senders, record h { room_store = store })

-- The timer of a name replaces the one that it had, if somebody is to be told.
abbrev pub settle_of : Text → List ℕ × HubInner → List ℕ × HubInner
settle_of name ([], h) = ([], h)
settle_of name (tx ∷ more, h) =
    (tx ∷ more, record h { settle_tasks = set_insert name (set_remove name h.settle_tasks) })

unfoldable pub begin_settle_offline : Env → HubInner → Text → List ℕ × HubInner
unfolding grant_peer_presence_senders set_insert set_remove
begin_settle_offline env h name = settle_of name (grant_peer_presence_senders env h name)

unfoldable pub cancel_settle_online : HubInner → Text → HubInner
unfolding set_remove
cancel_settle_online h name = record h { settle_tasks = set_remove name h.settle_tasks }

unfoldable pub is_settle_pending : Env → HubInner → Text → Bool
is_settle_pending env h name = contains h.settle_tasks name && not (env.timer_is_closed name)

-- `spawn_settle_task`, for the timers that begin_settle_offline began.
abbrev pub spawn_settle_task : HubInner → Text → List ℕ → List Effect
spawn_settle_task h name [] = []
spawn_settle_task h name (tx ∷ senders) = settle_offline name (tx ∷ senders) h.settle_window ∷ []
