-- ===== src/Hub/Tokens.antt =====
-- delivery.rs: listen tokens, from their minting to what a bearer may ask about itself. The numbers
-- that the generator draws are an argument, in the order of the draws.
pub mod Mint
use simple_im.Base.{
  ℕ, Bool, true, false, not, Option, none, some, List, [], ◌∷◌, if◌then◌else◌, eqb, ltb, option_map,
}
use simple_im.Base.Text.{Text, text_Eq}
use simple_im.Base.Text.Decimal.{to_string}
use simple_im.Base.Map.{get, insert, update, contains_key}
use simple_im.Error.{Done, Result, ok, err, ◌>>=◌, token_rejected, token_revoked}
use simple_im.Hub.State.{QueuedMessage, ListenTokenState, HubInner}
use simple_im.Hub.Queue.{queue_of}

-- `ListenTokenState::new`, at the time `now`.
unfoldable pub new_state : ℕ → ListenTokenState
new_state now = record {
  last_active = now;
  ever_listened = false;
  ever_granted = false;
  name = none;
  revoked = false;
  hidden = false;
  sse_sender = none;
  notify_suppressed = false;
  last_ip = none;
  last_ip_at = none;
  msg_id = 0;
  pending_first_listen = false;
  presence_push = false;
}

-- The state of a token that waits for its first `open_listen`.
unfoldable pub pending_state : ℕ → ListenTokenState
unfolding new_state
pending_state now = record (new_state now) { pending_first_listen = true }

abbrev pub with_token : HubInner → Text → ListenTokenState → HubInner
with_token h tok st = record h { listen_tokens = insert tok st h.listen_tokens }

-- The loop that draws until the token is new; `none` when the draws run out.
unfoldable pub mint : HubInner → ListenTokenState → List ℕ → Option (Text × HubInner)
mint h st [] = none
mint h st (digits ∷ draws) =
    let again = mint h st draws in
    let tok = to_string digits in
    if contains_key tok h.listen_tokens then again else some (tok, with_token h tok st)

unfoldable pub register_participant : HubInner → ℕ → List ℕ → Option (Text × HubInner)
unfolding mint pending_state
register_participant h now draws = mint h (pending_state now) draws

unfoldable is_participant_token : HubInner → Text → Bool
is_participant_token h token = elim (get token h.listen_tokens) [
  | none ↦ false
  | some s ↦ not s.revoked
]

-- The token is known and not revoked: `listen_tokens.get(token).ok_or(TokenRejected)?` and the
-- test that follows it in the handlers.
unfoldable pub live_state : HubInner → Text → Result ListenTokenState
live_state h token = elim (get token h.listen_tokens) [
  | none ↦ err token_rejected
  | some state ↦ if state.revoked then err token_revoked else ok state
]

unfoldable validate_token : HubInner → Text → Result (Option Text)
unfolding live_state
validate_token h token = do state ← live_state h token; ok state.name

unfoldable pub name_for_bearer_token : HubInner → Text → Option Text
name_for_bearer_token h token = elim (get token h.listen_tokens) [
  | some state ↦ if state.revoked then none else state.name
  | none ↦ get token h.token_to_name
]

abbrev pub set_hidden : HubInner → Text → Bool → HubInner
set_hidden h token hidden = record h {
  listen_tokens = update token (λ s. record s { hidden = hidden }) h.listen_tokens;
}

unfoldable pub hide : HubInner → Text → Result Done × HubInner
unfolding live_state
hide h token = elim (live_state h token) [
  | err e ↦ (err e, h)
  | ok _ ↦ (ok tt, set_hidden h token true)
]

unfoldable pub show : HubInner → Text → Result Done × HubInner
unfolding live_state
show h token = elim (live_state h token) [
  | err e ↦ (err e, h)
  | ok _ ↦ (ok tt, set_hidden h token false)
]

unfoldable pub latest_message_id : HubInner → Text → Result (Option ℕ)
unfolding live_state
latest_message_id h token = do
  state ← live_state h token
  ok (if eqb state.msg_id 0 then none else some state.msg_id)

-- `VecDeque::back`
unfoldable pub back : List QueuedMessage → Option QueuedMessage
back [] = none
back (m ∷ []) = some m
back (m ∷ n ∷ ms) = back (n ∷ ms)

unfoldable pub peek_latest_message : HubInner → Text → Result (Option QueuedMessage)
unfolding live_state back
peek_latest_message h token = do
  state ← live_state h token
  elim state.name [ none ↦ ok none | some name ↦ ok (back (queue_of h name)) ]

-- The first value past `since` among those that the watch channel shows while the wait lasts.
first_past : ℕ → List ℕ → Option ℕ
first_past since [] = none
first_past since (v ∷ later) = if ltb since v then some v else first_past since later

-- `later` are the values that arrive before `max_wait` is over.
unfoldable pub wait_for_new_message_id : HubInner → List ℕ → Text → ℕ → Result (Option ℕ)
unfolding live_state first_past
wait_for_new_message_id h later token since = do
  state ← live_state h token
  ok (first_past since (state.msg_id ∷ later))
