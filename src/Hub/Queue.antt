-- ===== src/Hub/Queue.antt =====
-- The message queues of delivery.rs: depositing, popping, the pending mark and the notify interlock.
pub mod Fifo
pub mod Kick
use simple_im.Base.{
  ℕ, ◌+◌, Bool, true, false, not, ◌&&◌, ◌||◌, Option, none, some, List, [], ◌∷◌, ◌++◌,
  if◌then◌else◌, ◌==◌, unwrap_or, option_map, retain, find, any, length, wrap64,
}
use simple_im.Base.Text.{Text, text_Eq, is_text}
use simple_im.Base.Map.{get, insert, remove, update}
use simple_im.Error.{Error, Result, ok, err, token_rejected, token_revoked}
use simple_im.Hub.Sets.{contains, set_insert, set_remove}
use simple_im.Hub.State.{
  QueuedMessage, ListenTokenState, HubInner, Effect, send_event, wake, notify_pending,
  is_sse_alive_in_hub,
}

-- The queue of a name, empty if it has none.
abbrev pub queue_of : HubInner → Text → List QueuedMessage
queue_of h name = unwrap_or (get name h.message_queues) []

unfoldable pub push_back : HubInner → Text → QueuedMessage → HubInner
push_back h name m = record h {
  message_queues = insert name (queue_of h name ++ m ∷ []) h.message_queues;
}

unfoldable pub increment_msg_id_for_name : HubInner → Text → HubInner
increment_msg_id_for_name h name = elim (get name h.name_to_token) [
  | none ↦ h
  | some tok ↦ record h {
    listen_tokens =
        update tok (λ st. record st { msg_id = wrap64 (st.msg_id + 1) }) h.listen_tokens;
  }
]

-- A message is queued, the name marked as pending, and the counter of its token moved on.
unfoldable pub deposit : HubInner → Text → QueuedMessage → HubInner
unfolding push_back increment_msg_id_for_name set_insert
deposit h name m =
    let queued = push_back h name m in
    increment_msg_id_for_name (record queued { kick_pending = set_insert name queued.kick_pending })
      name

unfoldable pub take_notify : HubInner → Text → Option (ℕ × ℕ) × HubInner
take_notify h name = elim (get name h.name_to_token) [
  | none ↦ (none, h)
  | some token ↦ elim (get token h.listen_tokens) [
    | none ↦ (none, h)
    | some st ↦
        if st.notify_suppressed || not (is_sse_alive_in_hub token h.sse_connections)
        then (none, h)
        else (
          option_map (λ sender. (sender, length (queue_of h name))) st.sse_sender,
          record h {
            listen_tokens =
                update token (λ s. record s { notify_suppressed = true }) h.listen_tokens;
          },
        )
  ]
]

unfoldable pub kick_pending_for : HubInner → Text → Bool
kick_pending_for h name = contains h.kick_pending name

abbrev pub rest_of : List QueuedMessage → List QueuedMessage
rest_of [] = []
rest_of (m ∷ ms) = ms

abbrev pub front : List QueuedMessage → Option QueuedMessage
front [] = none
front (m ∷ ms) = some m

abbrev pub is_empty : List QueuedMessage → Bool
is_empty [] = true
is_empty (m ∷ ms) = false

-- The mark is cleared when the queue is empty or absent.
abbrev pub settle_kick : HubInner → Text → HubInner
settle_kick h name =
    if is_empty (queue_of h name)
    then record h { kick_pending = set_remove name h.kick_pending }
    else h

unfoldable pub pop_message : HubInner → Text → Option QueuedMessage × HubInner
pop_message h name =
    let popped = record h { message_queues = update name rest_of h.message_queues } in
    (front (queue_of h name), settle_kick popped name)

abbrev pub in_thread : Text → QueuedMessage → Bool
in_thread tid m = is_text m.thread_id tid

-- `queue.remove(pos)` at the first message that passes.
unfoldable pub remove_first : (QueuedMessage → Bool) → List QueuedMessage → List QueuedMessage
remove_first p [] = []
remove_first p (m ∷ ms) = if p m then ms else m ∷ remove_first p ms

unfoldable pub pop_thread : HubInner → Text → Text → Option QueuedMessage × HubInner
unfolding remove_first
pop_thread h name tid = elim (find (in_thread tid) (queue_of h name)) [
  | none ↦ (none, h)
  | some m ↦ (
    some m,
    settle_kick
        (record h { message_queues = update name (remove_first (in_thread tid)) h.message_queues })
        name,
  )
]

-- A read is active use, and arms the notification again.
abbrev pub rearm : HubInner → Text → HubInner
rearm h token = record h {
  listen_tokens = update token (λ s. record s { notify_suppressed = false }) h.listen_tokens;
}

unfoldable pub touch_token : HubInner → ℕ → Text → HubInner
touch_token h now token = record h {
  listen_tokens = update token (λ s. record s { last_active = now }) h.listen_tokens;
}

abbrev pub pop_for : HubInner → Text → Option Text → Option QueuedMessage × HubInner
pop_for h name none = pop_message h name
pop_for h name (some tid) = pop_thread h name tid

unfoldable pub dequeue :
    HubInner → ℕ → Text → Option Text → Result (Option QueuedMessage × ℕ) × HubInner
unfolding pop_message pop_thread touch_token
dequeue h now token thread = elim (get token h.listen_tokens) [
  | none ↦ (err token_rejected, h)
  | some state ↦ if state.revoked then (err token_revoked, h) else elim state.name [
    | none ↦ (ok (none, 0), h)
    | some name ↦
        let (msg, h') = pop_for (rearm (touch_token h now token) token) name thread in
        (ok (msg, length (queue_of h' name)), h')
  ]
]

unfoldable pub pending_count : HubInner → Text → Result ℕ
pending_count h token = elim (get token h.listen_tokens) [
  | none ↦ err token_rejected
  | some state ↦
      if state.revoked
      then err token_revoked
      else elim state.name [ none ↦ ok 0 | some name ↦ ok (length (queue_of h name)) ]
]

abbrev pub drained : Option Text → List QueuedMessage → List QueuedMessage
drained none q = q
drained (some tid) q = retain (in_thread tid) q

unfoldable pub drain_queue : HubInner → Text → Option Text → Result (List QueuedMessage) × HubInner
drain_queue h token thread = elim (get token h.listen_tokens) [
  | none ↦ (err token_rejected, h)
  | some state ↦ if state.revoked then (err token_revoked, h) else elim state.name [
    | none ↦ (ok [], h)
    | some name ↦
        let armed = rearm h token in
        (
          ok (drained thread (queue_of armed name)),
          record armed {
            message_queues = insert name [] armed.message_queues;
            kick_pending = set_remove name armed.kick_pending;
          },
        )
  ]
]
