-- ===== src/Hub/Sending/Hints.antt =====
-- What a refused `send` (delivery.rs) leaves in the sender's own queue.
use mathlib.Core.List.{append_assoc}
use simple_im.Base.{ℕ, ◌≡◌, refl, ap, ◌∙◌, false, List, [], ◌∷◌, ◌++◌, arith, any, ◌==◌}
use simple_im.Base.Text.{Text, text_Eq, text_eq_self, codes}
use simple_im.Base.Map.{get-insert}
use simple_im.Error.{err, no_grant}
use simple_im.Hub.State.{QueuedMessage, HubInner, Notice, no_grant_hint}
use simple_im.Hub.Queue.{
  queue_of, push_back, increment_msg_id_for_name, take_notify, kick_pending_for,
}
use simple_im.Hub.Governance.{system_message}
use simple_im.Hub.Requests.{from_to}
use simple_im.Hub.Sending.{Sending, hint, refuse}
use simple_im.Hub.Sending.Laws.{queue_of-take_notify}

module _ (render : Notice → List ℕ) (s : Sending) where
  abbrev pub hint_message : QueuedMessage
  hint_message = system_message (render (no_grant_hint s.to_name)) (codes "no_grant")

  queue_of-hint :
      (h : HubInner)
      → queue_of (hint render h s) s.from_name ≡ queue_of h s.from_name ++ hint_message ∷ []
  unfolding hint push_back increment_msg_id_for_name
  queue_of-hint h = ground (
    arith,
    get-insert s.from_name s.from_name (queue_of h s.from_name ++ hint_message ∷ [])
        h.message_queues,
    text_eq_self s.from_name,
  )

  hint_frame :
      (h : HubInner)
      → ((take_notify (hint render h s) s.from_name).1.kick_pending ≡ h.kick_pending)
        × ((take_notify (hint render h s) s.from_name).1.connection_requests
            ≡ h.connection_requests)
  unfolding hint push_back increment_msg_id_for_name take_notify
  hint_frame h = ground arith

  refuse_once :
      (h : HubInner)
      → any (from_to s.from_name s.to_name) h.connection_requests ≡ false
      → ((refuse render h s no_grant).0 ≡ err no_grant)
        × (queue_of (refuse render h s no_grant).1 s.from_name
            ≡ queue_of h s.from_name ++ hint_message ∷ [])
        × ((refuse render h s no_grant).1.kick_pending ≡ h.kick_pending)
        × ((refuse render h s no_grant).1.connection_requests ≡ h.connection_requests)
  unfolding refuse
  refuse_once h none_pending =
      let (k, r) = hint_frame h in
      rw (refuse, none_pending)
        (
          refl,
          queue_of-take_notify (hint render h s) s.from_name s.from_name ∙ queue_of-hint h,
          k,
          r,
        )

  -- While no request of the sender for the recipient is pending, every message that is refused for
  -- want of a grant puts a hint into the sender's queue: two of them put two. No queue is marked
  -- as pending by it.
  pub hints_repeat :
      (h : HubInner)
      → any (from_to s.from_name s.to_name) h.connection_requests ≡ false
      → (queue_of (refuse render (refuse render h s no_grant).1 s no_grant).1 s.from_name
          ≡ queue_of h s.from_name ++ hint_message ∷ hint_message ∷ [])
        × ((n : Text)
            → kick_pending_for (refuse render (refuse render h s no_grant).1 s no_grant).1 n
              ≡ kick_pending_for h n)
  unfolding kick_pending_for
  hints_repeat h none_pending =
      let (_, q, k, r) = refuse_once h none_pending in
      let (_, q', k', _) =
        refuse_once (refuse render h s no_grant).1
          (ap (any (from_to s.from_name s.to_name)) r ∙ none_pending) in
      (
        q'
            ∙ ap (λ v. v ++ hint_message ∷ []) q
            ∙ append_assoc (queue_of h s.from_name) (hint_message ∷ []) (hint_message ∷ []),
        λ n. ap (λ names. any (λ j. j == n) names) (k' ∙ k),
      )
