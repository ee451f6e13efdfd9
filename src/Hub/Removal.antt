-- ===== src/Hub/Removal.antt =====
-- delivery.rs: tokens that are revoked, participants that are deleted by a governor or by
-- themselves.
pub mod Traces
use simple_im.Base.{
  ℕ, Bool, true, false, not, ◌&&◌, ◌||◌, Option, none, some, List, [], ◌∷◌, ◌++◌, map,
  if◌then◌else◌, ◌==◌, retain,
}
use simple_im.Base.Text.{Text, text_Eq, codes}
use simple_im.Base.Map.{Map, get, insert, remove, update}
use simple_im.Error.{Done, Result, ok, err, token_rejected, token_revoked, recipient_unknown}
use simple_im.Trust.Chain.{TrustChain, is_governor, clear_governor_if, purge_grants_for}
use simple_im.Registry.{force_deregister}
use simple_im.Hub.Sets.{contains, set_remove}
use simple_im.Hub.State.{
  ConnectionRequest, ListenTokenState, HubInner, Effect, SseEvent, validate_governor_token,
  send_event, superseded, revoked, store_governor, delete_grant, delete_denial_block,
  store_identity, store_token, delete_identity, delete_token,
}
use simple_im.Hub.Denial.{purge_denial_blocks_for}
use simple_im.Hub.Peers.{Env, begin_settle_offline, spawn_settle_task}
use simple_im.Hub.Tokens.{pending_state, mint}
use simple_im.Hub.Names.{bind_name}
use simple_im.Hub.Listening.{on_state}
use simple_im.Hub.Listening.Closing.{settle_for}

-- The stream of a token is told of an event and let go.
abbrev pub tell : SseEvent → Option ListenTokenState → List Effect
tell event none = []
tell event (some st) = elim st.sse_sender [ none ↦ [] | some tx ↦ send_event tx event ∷ [] ]

abbrev pub mark_revoked : ListenTokenState → ListenTokenState
mark_revoked st = record st { revoked = true; sse_sender = none }

-- The settle timer is begun before the tests of the token.
unfoldable pub revoke_token : Env → HubInner → Text → Text → Result Done × HubInner × List Effect
unfolding begin_settle_offline
revoke_token env h token gov = elim (validate_governor_token h gov) [
  | err e ↦ (err e, h, [])
  | ok _ ↦
      let (timer, begun) = settle_for env h (get token h.token_to_name) in
      elim (get token begun.listen_tokens) [
        | none ↦ (err token_rejected, begun, [])
        | some st ↦
            if st.revoked
            then (err token_revoked, begun, [])
            else (ok tt, on_state begun token mark_revoked, tell revoked (some st) ++ timer)
      ]
]

-- A pending request of which the name is not a party.
abbrev pub unrelated : Text → Text × ConnectionRequest → Bool
unrelated name e = not (e.1.from_name == name) && not (e.1.to_name == name)

-- What the two deletions share: the live traces of the name go.
abbrev pub forget_live : HubInner → Text → HubInner
forget_live h name = record h {
  registry = force_deregister h.registry name;
  agents = remove name h.agents;
  name_to_token = remove name h.name_to_token;
  active_sse_connections = remove name h.active_sse_connections;
  message_queues = remove name h.message_queues;
  kick_pending = set_remove name h.kick_pending;
  connection_requests = retain (unrelated name) h.connection_requests;
}

-- The identity goes, with the governor flag, the grants and the denial blocks.
unfoldable pub forget_identity : HubInner → Text → Text → HubInner × List Effect
unfolding is_governor clear_governor_if purge_grants_for purge_denial_blocks_for set_remove
forget_identity h name identity =
    let was_gov = is_governor h.trust name in
    let (ids, t) = purge_grants_for (clear_governor_if h.trust name) name in
    let (pairs, h') =
      purge_denial_blocks_for (record h { identities = set_remove name h.identities; trust = t })
        name identity in
    (
      h',
      delete_identity name ∷ (if was_gov then store_governor none ∷ [] else [])
          ++ map delete_grant ids
          ++ map (λ p. delete_denial_block p.0 p.1) pairs,
    )

-- The token that holds the name is revoked; its identity is the token, or the empty text.
abbrev pub revoke_holder : HubInner → Option Text → Text × HubInner × List Effect
revoke_holder h none = ([], h, [])
revoke_holder h (some tok) =
    (tok, on_state h tok mark_revoked, tell revoked (get tok h.listen_tokens))

unfoldable pub revoke_by_name : Env → HubInner → Text → Text → Result Done × HubInner × List Effect
unfolding begin_settle_offline force_deregister forget_identity set_remove
revoke_by_name env h name gov = elim (validate_governor_token h gov) [
  | err e ↦ (err e, h, [])
  | ok _ ↦
      let (senders, begun) = begin_settle_offline env h name in
      let live = forget_live begun name in
      let unnamed = record live {
        token_to_name = retain (λ e. not (e.1 == name)) live.token_to_name;
      } in
      let (identity, silenced, told) = revoke_holder unnamed (get name begun.name_to_token) in
      let (h', purged) = forget_identity silenced name identity in
      (ok tt, h', told ++ spawn_settle_task begun name senders ++ purged)
]

abbrev pub forget_named : Env → HubInner → Text → Option Text → HubInner × List Effect × List Effect
forget_named env h token none = (h, [], [])
forget_named env h token (some name) =
    let (senders, begun) = begin_settle_offline env h name in
    let (h', purged) = forget_identity (forget_live begun name) name token in
    (h', spawn_settle_task begun name senders, purged)

-- A participant deletes itself. The row of its token is deleted too.
unfoldable pub delete_self : Env → HubInner → Text → Result Done × HubInner × List Effect
unfolding begin_settle_offline force_deregister forget_identity set_remove
delete_self env h token = elim (get token h.listen_tokens) [
  | none ↦ (err token_rejected, h, [])
  | some st ↦
      if st.revoked
      then (err token_revoked, h, [])
      else let (forgotten, timer, purged) = forget_named env h token (get token h.token_to_name) in
        let unnamed = record forgotten { token_to_name = remove token forgotten.token_to_name } in
        (
          ok tt,
          on_state unnamed token mark_revoked,
          tell revoked (some st) ++ timer ++ delete_token token ∷ purged,
        )
]
