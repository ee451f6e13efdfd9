-- ===== src/Hub/Inbox.antt =====
-- What a participant reads from the queue of delivery.rs: one message, one of a thread, or all.
use simple_im.Base.{
  ℕ, ◌≡◌, refl, ap, ◌∙◌, ◌⊎◌, ◌≢◌, inl, inr, true, false, retain, Bool-cases, Option-cases, Option,
  none, some, List, [], ◌∷◌, ◌++◌, arith, if◌then◌else◌, ◌==◌, find, length, All,
}
use simple_im.Base.Text.{Text, text_Eq, text_eq_self, text_eq_iff}
use simple_im.Base.Map.{get, update, get-insert}
use simple_im.Error.{ok}
use simple_im.Hub.State.{QueuedMessage, ListenTokenState, HubInner}
use simple_im.Hub.Queue.{
  queue_of, front, rest_of, pop_message, in_thread, remove_first, pop_thread, rearm, touch_token,
  dequeue, pop_for, drained, drain_queue,
}
use simple_im.Hub.Queue.Fifo.{
  queue_of-update, queue_of-settle_kick, queue_of-pop, absent, taken, removal,
}

-- The bearer is a live token that is bound to the name.
pub record Bound (h : HubInner) (token name : Text) : Type 0 where
  pub state : ListenTokenState
  pub found : get token h.listen_tokens ≡ some state
  pub live : state.revoked ≡ false
  pub named : state.name ≡ some name

pop_message-front : (h : HubInner) (name : Text) → (pop_message h name).0 ≡ front (queue_of h name)
unfolding pop_message
pop_message-front h name = refl

pop_thread-none :
    (h : HubInner) (name tid : Text)
    → find (in_thread tid) (queue_of h name) ≡ none
    → pop_thread h name tid ≡ (none, h)
unfolding pop_thread
pop_thread-none h name tid e = rw (e, pop_thread)

pop_thread-some :
    (h : HubInner) (name tid : Text) (m : QueuedMessage)
    → find (in_thread tid) (queue_of h name) ≡ some m
    → ((pop_thread h name tid).0 ≡ some m)
      × (queue_of (pop_thread h name tid).1 name ≡ remove_first (in_thread tid) (queue_of h name))
unfolding pop_thread
pop_thread-some h name tid m e =
    rw (e, pop_thread)
      (
        refl,
        queue_of-settle_kick
              (record h {
                message_queues = update name (remove_first (in_thread tid)) h.message_queues;
              })
              name name
            ∙ queue_of-update h name name (remove_first (in_thread tid))
                (unfold remove_first in refl)
            ∙ rw (text_eq_self name),
      )

module _ (h : HubInner) (now : ℕ) (token name : Text) (b : Bound h token name) where
  abbrev armed : HubInner
  armed = rearm (touch_token h now token) token

  queue_of-armed : (n : Text) → queue_of armed n ≡ queue_of h n
  unfolding touch_token
  queue_of-armed n = refl

  dequeue_eq :
      (thread : Option Text)
      → dequeue h now token thread ≡ (
        ok ((pop_for armed name thread).0, length (queue_of (pop_for armed name thread).1 name)),
        (pop_for armed name thread).1,
      )
  unfolding dequeue
  dequeue_eq thread = rw (b.found, b.live, b.named, dequeue)

  -- Without a thread, the oldest message of the reader's own queue is returned and taken out, with
  -- the number of those left. No other queue changes.
  dequeue_oldest :
      (n : Text)
      → ((dequeue h now token none).0
          ≡ ok (front (queue_of h name), length (rest_of (queue_of h name))))
        × (queue_of (dequeue h now token none).1 n
            ≡ (if name == n then rest_of (queue_of h n) else queue_of h n))
  unfolding touch_token
  dequeue_oldest n = ground (
    arith,
    dequeue_eq none,
    pop_message-front armed name,
    queue_of-pop armed name n,
    queue_of-pop armed name name,
    text_eq_self name,
  )

  thread_absent :
      (tid : Text)
      → find (in_thread tid) (queue_of h name) ≡ none
      → ((dequeue h now token (some tid)).0 ≡ ok (none, length (queue_of h name)))
        × (queue_of (dequeue h now token (some tid)).1 name ≡ queue_of h name)
  unfolding touch_token
  thread_absent tid e = ground (arith, dequeue_eq (some tid), pop_thread-none armed name tid e)

  thread_taken :
      (tid : Text) (m : QueuedMessage) (rest : List QueuedMessage)
      → find (in_thread tid) (queue_of h name) ≡ some m
      → remove_first (in_thread tid) (queue_of h name) ≡ rest
      → ((dequeue h now token (some tid)).0 ≡ ok (some m, length rest))
        × (queue_of (dequeue h now token (some tid)).1 name ≡ rest)
  unfolding touch_token
  thread_taken tid m rest e r =
      ground (arith, dequeue_eq (some tid), pop_thread-some armed name tid m e)

  -- With a thread, the oldest message of that thread is taken out and returned, and the others
  -- stay in their order; if there is none, nothing is returned and the queue stays.
  dequeue_thread :
      (tid : Text)
      → ((All (λ m. in_thread tid m ≡ false) (queue_of h name)
          × ((dequeue h now token (some tid)).0 ≡ ok (none, length (queue_of h name)))
          × (queue_of (dequeue h now token (some tid)).1 name ≡ queue_of h name)))
        ⊎ ((before : List QueuedMessage) × (m : QueuedMessage) × (after : List QueuedMessage)
            × (queue_of h name ≡ before ++ m ∷ after)
            × (in_thread tid m ≡ true)
            × All (λ x. in_thread tid x ≡ false) before
            × ((dequeue h now token (some tid)).0 ≡ ok (some m, length (before ++ after)))
            × (queue_of (dequeue h now token (some tid)).1 name ≡ before ++ after))
  dequeue_thread tid = elim (removal (in_thread tid) (queue_of h name)) [
    | absent a f ↦ let (answer, queue) = thread_absent tid f in inl (a, answer, queue)
    | taken before m after q t a f r ↦
        let (answer, queue) = thread_taken tid m (before ++ after) f r in
        inr (before, m, after, q, t, a, answer, queue)
  ]

-- The messages of a thread, in the order of the queue: those that carry its identifier, and no other.
pub data ThreadOf (tid : Text) : List QueuedMessage → List QueuedMessage → Type 0 where
  ends : ThreadOf tid [] []
  takes :
      (m : QueuedMessage) {queue kept : List QueuedMessage}
      → m.thread_id ≡ some tid
      → ThreadOf tid queue kept
      → ThreadOf tid (m ∷ queue) (m ∷ kept)
  drops :
      (m : QueuedMessage) {queue kept : List QueuedMessage}
      → m.thread_id ≢ some tid
      → ThreadOf tid queue kept
      → ThreadOf tid (m ∷ queue) kept

-- What a reader asked for: everything, or one thread.
abbrev pub Asked : Option Text → List QueuedMessage → List QueuedMessage → Type 0
Asked none queue kept = kept ≡ queue
Asked (some tid) queue kept = ThreadOf tid queue kept

in_thread_iff :
    (tid : Text) (m : QueuedMessage)
    → ((in_thread tid m ≡ true) → m.thread_id ≡ some tid)
      × ((in_thread tid m ≡ false) → m.thread_id ≢ some tid)
in_thread_iff tid m = elim (Option-cases m.thread_id) [
  | inl e ↦ rw e (λ q. absurd (ground (arith, q)), λ q k. absurd (ground (arith, k)))
  | inr (t, e) ↦ rw e (
    λ q. ap some ((text_eq_iff t tid).0 q),
    λ q k. absurd (ground (arith, q, k, text_eq_iff t tid, e)),
  )
]

retain-ThreadOf : (tid : Text) (q : List QueuedMessage) → ThreadOf tid q (retain (in_thread tid) q)
unfolding retain
retain-ThreadOf tid [] = ends
retain-ThreadOf tid (m ∷ q) = elim (Bool-cases (in_thread tid m)) [
  | inl e ↦ rw e (takes m ((in_thread_iff tid m).0 e) (retain-ThreadOf tid q))
  | inr e ↦ rw e (drops m ((in_thread_iff tid m).1 e) (retain-ThreadOf tid q))
]

drained-Asked : (thread : Option Text) (q : List QueuedMessage) → Asked thread q (drained thread q)
drained-Asked none q = refl
drained-Asked (some tid) q = retain-ThreadOf tid q

-- Draining answers the messages that carry the thread's identifier, or all of them, in their order,
-- and empties the whole queue: the messages of other threads are dropped and no later read returns
-- them. No other queue changes.
pub drain_queue_lem :
    (h : HubInner) (token name n : Text) (thread : Option Text)
    → Bound h token name
    → (kept : List QueuedMessage) × ((drain_queue h token thread).0 ≡ ok kept)
      × Asked thread (queue_of h name) kept
      × (queue_of (drain_queue h token thread).1 n ≡ (if name == n then [] else queue_of h n))
unfolding drain_queue
drain_queue_lem h token name n thread b = (
  drained thread (queue_of h name),
  rw (b.found, b.live, b.named, drain_queue) refl,
  drained-Asked thread (queue_of h name),
  rw (b.found, b.live, b.named, drain_queue)
      (ground (arith, get-insert name n [] h.message_queues)),
)
