-- ===== src/Hub/Queue/Kick.antt =====
-- The pending marks of delivery.rs: a name is marked exactly while its queue holds a message.
use simple_im.Base.{
  ℕ, ◌≡◌, refl, ◌⊎◌, inl, inr, Bool, false, not, ◌||◌, Option, none, some, List, [], ◌∷◌, ◌++◌,
  arith, ◌==◌, find, Bool-cases, Option-cases,
}
use simple_im.Base.Text.{Text, text_Eq, text_eq_iff, text_eq_self}
use simple_im.Base.Map.{get, insert, update, get-insert}
use simple_im.Hub.State.{QueuedMessage, HubInner}
use simple_im.Hub.Sets.{set_remove, contains-set_insert, contains-set_remove}
use simple_im.Hub.Queue.{
  queue_of, deposit, kick_pending_for, rest_of, is_empty, settle_kick, pop_message, in_thread,
  remove_first, pop_thread, rearm, touch_token, dequeue, drain_queue, pop_for,
}
use simple_im.Hub.Queue.Fifo.{queue_of-deposit, queue_of-update}

-- The mark of every name agrees with its queue.
pub record IsKicked (h : HubInner) : Type 0 where
  pub at : (n : Text) → kick_pending_for h n ≡ not (is_empty (queue_of h n))

queue_of-message : (q : List QueuedMessage) (m : QueuedMessage) → is_empty (q ++ m ∷ []) ≡ false
queue_of-message [] m = refl
queue_of-message (x ∷ q) m = refl

deposit_mark :
    (h : HubInner) (name n : Text) (m : QueuedMessage)
    → kick_pending_for (deposit h name m) n ≡ (name == n || kick_pending_for h n)
unfolding kick_pending_for deposit
deposit_mark h name n m = ground (arith, contains-set_insert name n h.kick_pending)

-- Depositing a message keeps the marks right.
pub deposit-IsKicked :
    (h : HubInner) (name : Text) (m : QueuedMessage) → IsKicked h → IsKicked (deposit h name m)
deposit-IsKicked h name m k = record {
  at = λ n. ground (
    arith,
    deposit_mark h name n m,
    queue_of-deposit h name n m,
    queue_of-message (queue_of h name) m,
    k.at n,
  );
}

-- A write to one queue that leaves it no fuller, followed by the clearing of its mark.
shrink-IsKicked :
    (h : HubInner) (name : Text) (f : List QueuedMessage → List QueuedMessage)
    → f [] ≡ []
    → (is_empty (f (queue_of h name)) ≡ false → is_empty (queue_of h name) ≡ false)
    → IsKicked h
    → IsKicked (settle_kick (record h { message_queues = update name f h.message_queues }) name)
unfolding kick_pending_for
shrink-IsKicked h name f e less k = record {
  at = λ n. ground (
    arith,
    queue_of-update h name n f e,
    queue_of-update h name name f e,
    text_eq_self name,
    text_eq_iff name n,
    contains-set_remove name n h.kick_pending,
    k.at n,
    k.at name,
    less,
  );
}

rest_less : (q : List QueuedMessage) → is_empty (rest_of q) ≡ false → is_empty q ≡ false
rest_less [] h = h
rest_less (m ∷ q) h = refl

remove_less :
    (p : QueuedMessage → Bool) (q : List QueuedMessage)
    → is_empty (remove_first p q) ≡ false
    → is_empty q ≡ false
unfolding remove_first
remove_less p [] h = h
remove_less p (m ∷ q) h = refl

pop_for-IsKicked :
    (h : HubInner) (name : Text) (thread : Option Text)
    → IsKicked h
    → IsKicked (pop_for h name thread).1
unfolding pop_message pop_thread
pop_for-IsKicked h name none k = shrink-IsKicked h name rest_of refl (rest_less (queue_of h name)) k
pop_for-IsKicked h name (some tid) k =
    elim (Option-cases (find (in_thread tid) (queue_of h name))) [
      | inl e ↦ rw (e, pop_thread) k
      | inr (m, e) ↦
          rw (e, pop_thread)
            (shrink-IsKicked h name (remove_first (in_thread tid)) (unfold remove_first in refl)
              (remove_less (in_thread tid) (queue_of h name)) k)
    ]

rearm-IsKicked :
    (h : HubInner) (now : ℕ) (token : Text)
    → IsKicked h
    → IsKicked (rearm (touch_token h now token) token)
unfolding touch_token kick_pending_for
rearm-IsKicked h now token k = record { at = k.at }

dequeue_cases :
    (h : HubInner) (now : ℕ) (token : Text) (thread : Option Text)
    → ((dequeue h now token thread).1 ≡ h)
      ⊎ ((name : Text) × ((dequeue h now token thread).1
            ≡ (pop_for (rearm (touch_token h now token) token) name thread).1))
unfolding dequeue
dequeue_cases h now token thread = elim (Option-cases (get token h.listen_tokens)) [
  | inl e ↦ inl (rw (e, dequeue))
  | inr (st, e) ↦ elim (Bool-cases st.revoked) [
    | inl r ↦ inl (rw (e, r, dequeue))
    | inr r ↦ elim (Option-cases st.name) [
      | inl n ↦ inl (rw (e, r, n, dequeue))
      | inr (name, n) ↦ inr (name, rw (e, r, n, dequeue))
    ]
  ]
]

drain_cases :
    (h : HubInner) (token : Text) (thread : Option Text)
    → ((drain_queue h token thread).1 ≡ h)
      ⊎ ((name : Text) × ((drain_queue h token thread).1 ≡ record (rearm h token) {
        message_queues = insert name [] h.message_queues;
        kick_pending = set_remove name h.kick_pending;
      }))
unfolding drain_queue
drain_cases h token thread = elim (Option-cases (get token h.listen_tokens)) [
  | inl e ↦ inl (rw (e, drain_queue))
  | inr (st, e) ↦ elim (Bool-cases st.revoked) [
    | inl r ↦ inl (rw (e, r, drain_queue))
    | inr r ↦ elim (Option-cases st.name) [
      | inl n ↦ inl (rw (e, r, n, drain_queue))
      | inr (name, n) ↦ inr (name, rw (e, r, n, drain_queue))
    ]
  ]
]

emptied-IsKicked :
    (h : HubInner) (token name : Text)
    → IsKicked h
    → IsKicked (record (rearm h token) {
      message_queues = insert name [] h.message_queues;
      kick_pending = set_remove name h.kick_pending;
    })
unfolding kick_pending_for
emptied-IsKicked h token name k = record {
  at = λ n. ground (
    arith,
    get-insert name n [] h.message_queues,
    contains-set_remove name n h.kick_pending,
    k.at n,
  );
}

-- Depositing, reading one message, of a thread or of any, and draining keep every mark right: a
-- name is marked exactly while its queue holds a message.
pub inbox-IsKicked :
    (h : HubInner) (now : ℕ) (name token : Text) (m : QueuedMessage) (thread : Option Text)
    → IsKicked h
    → IsKicked (deposit h name m)
      × IsKicked (dequeue h now token thread).1
      × IsKicked (drain_queue h token thread).1
inbox-IsKicked h now name token m thread k = (
  deposit-IsKicked h name m k,
  elim (dequeue_cases h now token thread) [
    | inl e ↦ rw e k
    | inr (n, e) ↦ rw e (
        pop_for-IsKicked (rearm (touch_token h now token) token) n thread
          (rearm-IsKicked h now token k))
  ],
  elim (drain_cases h token thread) [
    | inl e ↦ rw e k
    | inr (n, e) ↦ rw e (emptied-IsKicked h token n k)
  ],
)
