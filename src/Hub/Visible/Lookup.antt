-- ===== src/Hub/Visible/Lookup.antt =====
-- delivery.rs: the presence of one participant as another may see it (presence_for_token), and that
-- nothing is seen without a grant or a shared room.
use simple_im.Base.{ℕ, ◌≡◌, Bool, false, not, ◌&&◌, ◌||◌, Option, none, some, arith, if◌then◌else◌}
use simple_im.Base.Text.{Text, text_Eq}
use simple_im.Base.Map.{get}
use simple_im.Error.{Result, ok, err, recipient_unknown, token_rejected, token_revoked}
use simple_im.Registry.{is_online}
use simple_im.Rooms.{shares_room}
use simple_im.Hub.Sets.{contains}
use simple_im.Hub.State.{ListenTokenState, HubInner, is_sse_alive_in_hub}
use simple_im.Hub.Denial.{is_denial_active}
use simple_im.Hub.Peers.{Env, is_settle_pending}
use simple_im.Hub.Visible.{has_grant_between, target_identity, is_online_effective}

-- The querier and the target share a room; the look drops lapsed members.
abbrev co_present : HubInner → ℕ → Option Text → Text → Bool × HubInner
co_present h now none target_name = (false, h)
co_present h now (some querier) target_name =
    let (shared, store) = shares_room h.room_store now querier target_name in
    (shared, record h { room_store = store })

abbrev holds_grant : HubInner → ℕ → Text → Option Text → Text → Bool
holds_grant h now token querier_name target_name = elim (target_identity h target_name) [
  | none ↦ false
  | some id ↦ has_grant_between h now token id querier_name (some target_name)
]

-- A participant that is no known token is seen by its registration.
abbrev seen_by_name : Env → HubInner → Text → Bool
seen_by_name env h target_name =
    is_online_effective h env.now target_name || is_settle_pending env h target_name

-- What is answered of a target that the querier may see.
unfoldable pub real_presence : Env → HubInner → Text → Bool
unfolding is_online_effective is_settle_pending
real_presence env h target_name = elim (get target_name h.name_to_token) [
  | none ↦ seen_by_name env h target_name
  | some tok ↦ elim (get tok h.listen_tokens) [
    | none ↦ seen_by_name env h target_name
    | some st ↦
        if st.hidden
        then false
        else is_sse_alive_in_hub tok h.sse_connections
          || is_online h.registry env.now target_name
          || is_settle_pending env h target_name
  ]
]

abbrev answer_if : Bool → Bool → Result Bool
answer_if visible online = if visible then ok online else err recipient_unknown

-- For a querier that is live.
unfoldable look_up : Env → HubInner → Text → Option Text → Text → Result Bool × HubInner
unfolding real_presence
look_up env h token querier_name target_name =
    if not (contains h.identities target_name)
    then (err recipient_unknown, h)
    else if is_denial_active h env.now_secs token target_name
    then (err recipient_unknown, h)
    else let (shares, h') = co_present h env.now querier_name target_name in
      (
        answer_if (holds_grant h env.now token querier_name target_name || shares)
            (real_presence env h' target_name),
        h',
      )

unfoldable pub presence_for_token : Env → HubInner → Text → Text → Result Bool × HubInner
unfolding look_up
presence_for_token env h token target_name = elim (get token h.listen_tokens) [
  | none ↦ (err token_rejected, h)
  | some querier ↦
      if querier.revoked
      then (err token_revoked, h)
      else look_up env h token querier.name target_name
]

-- What opens the view on a target: it is in the roster, no denial block of the querier against it
-- is active, and there is a grant between the two or a room that both are in.
abbrev pub may_see : Env → HubInner → Text → Option Text → Text → Bool
may_see env h token querier_name target_name =
    contains h.identities target_name
    && not (is_denial_active h env.now_secs token target_name)
    && (holds_grant h env.now token querier_name target_name
        || (co_present h env.now querier_name target_name).0)

-- A live querier is answered with the presence of a target that it may see. In every other case,
-- and so for a name that was never registered, the answer is the same "recipient unknown".
presence_lem :
    (env : Env) (h : HubInner) (token target_name : Text) (querier : ListenTokenState)
    → get token h.listen_tokens ≡ some querier
    → querier.revoked ≡ false
    → (presence_for_token env h token target_name).0 ≡ (
        if may_see env h token querier.name target_name
        then ok (real_presence env (co_present h env.now querier.name target_name).1 target_name)
        else err recipient_unknown)
unfolding presence_for_token look_up
presence_lem env h token target_name querier e r = rw (e, r, presence_for_token) (ground arith)
