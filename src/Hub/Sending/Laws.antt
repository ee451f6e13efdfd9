-- ===== src/Hub/Sending/Laws.antt =====
-- When `send` of delivery.rs accepts a message, and where the message goes.
use simple_im.Base.{
  ℕ, ◌≡◌, ◌≢◌, refl, sym, ◌∙◌, ◌⊎◌, inl, inr, Bool, true, false, Option, some, List, [], ◌∷◌, ◌++◌,
  arith, any, if◌then◌else◌, ◌==◌, Bool-cases, Option-cases,
}
use simple_im.Base.Text.{Text, text_Eq, pair_Eq}
use simple_im.Base.Map.{Map, get}
use simple_im.Error.{Error, Result, ok, err, no_grant}
use simple_im.Trust.Grant.{GrantRef, GrantMediation, bypass, inspect, notify}
use simple_im.Trust.Chain.{is_governor, consume_grant_message}
use simple_im.Hub.State.{ParticipantState, DenialBlock, HubInner, Notice}
use simple_im.Hub.Queue.{queue_of, deposit, take_notify}
use simple_im.Hub.Queue.Fifo.{queue_of-deposit}
use simple_im.Hub.Denial.{is_active}
use simple_im.Hub.Governance.{summon}
use simple_im.Hub.Requests.{check_block, from_to}
use simple_im.Hub.Sending.{
  accepted, Readings, Sending, prune_expired, message_of, open_window, deliver_by_grant, admits,
  deliver_by_window, hold_message, send_by_grant, refuse, send_without_grant, send_checked,
  check_of, sending, send_unblocked, send,
}

pub queue_of-take_notify :
    (h : HubInner) (name n : Text) → queue_of (take_notify h name).1 n ≡ queue_of h n
unfolding take_notify
queue_of-take_notify h name n = ground arith

pub queue_of-summon : (h : HubInner) (name n : Text) → queue_of (summon h name).1 n ≡ queue_of h n
unfolding summon
queue_of-summon h name n = queue_of-take_notify h name n

-- The message is at the end of the recipient's queue, and every other queue is as it was.
abbrev Queued : HubInner → Sending → HubInner → Type 0
Queued h s h' =
    (n : Text)
    → queue_of h' n
      ≡ (if s.to_name == n then queue_of h s.to_name ++ message_of s ∷ [] else queue_of h n)

deliver_by_grant-Queued :
    (h : HubInner) (now : ℕ) (s : Sending) (grant : GrantRef)
    → Queued h s (deliver_by_grant h now s grant).1
unfolding deliver_by_grant
deliver_by_grant-Queued h now s grant n =
    let charged = record h { trust = consume_grant_message h.trust grant.id } in
    let told = deposit charged s.to_name (message_of s) in
    queue_of-summon
      (if grant.opens_reply_window then open_window told now s.to_name s.from_name else told)
      s.to_name n
    ∙ opened grant.opens_reply_window told
    ∙ queue_of-deposit charged s.to_name n (message_of s)
  where
    opened :
        (b : Bool) (told : HubInner)
        → queue_of (if b then open_window told now s.to_name s.from_name else told) n
          ≡ queue_of told n
    opened true told = refl
    opened false told = refl

deliver_by_window-Queued :
    (h : HubInner) (at : Readings) (s : Sending) → Queued h s (deliver_by_window h at s).1
unfolding deliver_by_window
deliver_by_window-Queued h at s n =
    queue_of-summon _ s.to_name n ∙ queue_of-deposit _ s.to_name n (message_of s)

-- What lets a message through: a grant that does not want the governor to see it first, or, where
-- the check refuses, an open reply window.
abbrev Let : HubInner → Readings → Sending → Result GrantRef → Type 0
Let h at s c =
    ((ref : GrantRef) × (c ≡ ok ref) × (ref.mediation ≢ inspect))
    ⊎ ((e : Error) × (c ≡ err e)
        × (any (admits at.now s.from_name s.to_name) h.reply_windows ≡ true))

module _ (render : Notice → List ℕ) (h : HubInner) (at : Readings) (s : Sending) where
  refuse-err : (e : Error) → (refuse render h s e).0 ≢ ok accepted
  unfolding refuse
  refuse-err no_grant =
      elim (Bool-cases (any (from_to s.from_name s.to_name) h.connection_requests)) [
        | inl e ↦ rw e (λ q. cc)
        | inr e ↦ rw e (λ q. cc)
      ]
  refuse-err _ = λ q. cc

  hold_message-pending : (grant : GrantRef) → (hold_message render h at.now s grant).0 ≢ ok accepted
  unfolding hold_message
  hold_message-pending grant = elim (Bool-cases (is_governor h.trust grant.governor_id)) [
    | inl e ↦ rw e (λ q. cc)
    | inr e ↦ rw e (λ q. cc)
  ]

  by_grant :
      (grant : GrantRef) (m : GrantMediation)
      → (send_by_grant render h at.now s grant m).0 ≡ ok accepted
      → (m ≢ inspect) × Queued h s (send_by_grant render h at.now s grant m).1
  unfolding send_by_grant
  by_grant grant inspect q = absurd (hold_message-pending grant q)
  by_grant grant bypass q = (λ e. cc, deliver_by_grant-Queued h at.now s grant)
  by_grant grant notify q = (λ e. cc, deliver_by_grant-Queued h at.now s grant)

  checked :
      (c : Result GrantRef)
      → (send_checked render h at s c).0 ≡ ok accepted
      → Let h at s c × Queued h s (send_checked render h at s c).1
  unfolding send_checked send_without_grant
  checked (ok grant) =
      λ q. let (m, d) = by_grant grant grant.mediation q in (inl (grant, refl, m), d)
  checked (err e) = elim (Bool-cases (any (admits at.now s.from_name s.to_name) h.reply_windows)) [
    | inl found ↦ rw found (λ q. (inr (e, refl, refl), deliver_by_window-Queued h at s))
    | inr shut ↦ rw shut (λ q. absurd (refuse-err e q))
  ]

-- Either the block refuses and the state stays, or only the blocks change.
pub check_block_cases :
    (h : HubInner) (now_secs : ℕ) (token to_name : Text)
    → ((e : Error) × (check_block h now_secs token to_name ≡ (err e, h)))
      ⊎ ((m : Map (Text × Text) DenialBlock) × (check_block h now_secs token to_name
            ≡ (ok tt, record h { denial_blocks = m })))
unfolding check_block
check_block_cases h now_secs token to_name =
    elim (Option-cases (get (token, to_name) h.denial_blocks)) [
      | inl e ↦ rw (e, check_block) (inr (h.denial_blocks, refl))
      | inr (block, e) ↦ elim (Bool-cases (is_active now_secs block)) [
        | inl a ↦ rw (e, a, check_block) (inl (_, refl))
        | inr a ↦ rw (e, a, check_block) (inr (_, refl))
      ]
    ]

-- Why a message was accepted, and what became of it.
abbrev pub Accepted : HubInner → Readings → Text → Text → List ℕ → Option Text → HubInner → Type 0
Accepted h at token to_name payload thread_id h' =
    (from_name : Text) × (st : ParticipantState) × (get token h.token_to_name ≡ some from_name)
    × (get to_name h.agents ≡ some st)
    × Let (prune_expired h at.pruned_at) at
        (sending token from_name to_name st.identity payload thread_id)
        (check_of h at.checked_at (sending token from_name to_name st.identity payload thread_id))
    × Queued h (sending token from_name to_name st.identity payload thread_id) h'

module _ (render : Notice → List ℕ) (h : HubInner) (at : Readings) (token to_name : Text)
    (payload : List ℕ) (thread_id : Option Text) where
  unblocked :
      (m : Map (Text × Text) DenialBlock) (from_name : Text)
      → get token h.token_to_name ≡ some from_name
      → (send_unblocked render
          (record (prune_expired h at.pruned_at) { denial_blocks = m })
          at
          token
          from_name
          to_name
          payload
          thread_id).0
        ≡ ok accepted
      → Accepted h at token to_name payload thread_id
          (send_unblocked render
            (record (prune_expired h at.pruned_at) { denial_blocks = m })
            at
            token
            from_name
            to_name
            payload
            thread_id).1
  unfolding send_unblocked prune_expired
  unblocked m from_name n = elim (Option-cases (get to_name h.agents)) [
    | inl e ↦ rw (e, send_unblocked) (λ q. absurd (cc))
    | inr (st, e) ↦
        rw (e, send_unblocked)
          λ q.
            let s = sending token from_name to_name st.identity payload thread_id in
            let g = record (prune_expired h at.pruned_at) { denial_blocks = m } in
            let (l, d) = checked render g at s (check_of h at.checked_at s) q in
            (from_name, st, n, refl, l, d)
  ]

  -- An accepted message had a sender who is announced and a recipient who is known, and either a
  -- grant that the check returned and that does not want the governor to see the message first, or
  -- a reply window that was open when the check refused. It stands at the end of the recipient's
  -- queue, under the sender's name, and no other queue has changed.
  pub accepted_lem :
      (send render h at token to_name payload thread_id).0 ≡ ok accepted
      → Accepted h at token to_name payload thread_id
          (send render h at token to_name payload thread_id).1
  unfolding send prune_expired
  accepted_lem = elim (Option-cases (get token h.listen_tokens)) [
    | inl e ↦ rw (e, send) (λ q. absurd (cc))
    | inr (st, e) ↦ elim (Bool-cases st.revoked) [
      | inl r ↦ rw (e, r, send) (λ q. absurd (cc))
      | inr r ↦ elim (Option-cases (get token h.token_to_name)) [
        | inl n ↦ rw (e, r, n, send) (λ q. absurd (cc))
        | inr (from_name, n) ↦
            elim (check_block_cases (prune_expired h at.pruned_at) at.now_secs token to_name) [
              | inl (x, b) ↦ rw (e, r, n, b, send) (λ q. absurd (cc))
              | inr (m, b) ↦
                  rw (e, r, n, b, send)
                    λ q.
                      let (sender, known, k, a, l, d) = unblocked m from_name n q in
                      (sender, known, sym n ∙ k, a, l, d)
            ]
      ]
    ]
  ]
