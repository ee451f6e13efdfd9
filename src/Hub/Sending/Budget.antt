-- ===== src/Hub/Sending/Budget.antt =====
-- What `send` of delivery.rs charges: the grant that let the message through, and nothing else.
use mathlib.Core.Path.{subst}
use simple_im.Base.{
  ℕ, ◌≡◌, refl, sym, ◌∙◌, ◌⊎◌, inl, inr, Bool, true, false, Option, some, List, [], arith, any, All,
  if◌then◌else◌, Bool-cases, Option-cases,
}
use simple_im.Base.Text.{Text, text_Eq, pair_Eq}
use simple_im.Base.Map.{Map, get}
use simple_im.Error.{Error, Result, ok, err, no_grant}
use simple_im.Trust.Grant.{GrantRef, GrantMediation, bypass, inspect, notify}
use simple_im.Trust.Chain.{TrustChain, consume_grant_message}
use simple_im.Trust.Check.{check_grant_directed_with_names}
use simple_im.Trust.Ids.{IsFresh, step-IsFresh}
use simple_im.Trust.Budget.{WithinBudget, check-consume}
use simple_im.Hub.State.{DenialBlock, HubInner, Notice}
use simple_im.Hub.Queue.{deposit, take_notify, push_back, increment_msg_id_for_name}
use simple_im.Hub.Governance.Frame.{deposit-Frame, summon-Frame, take_notify-Frame}
use simple_im.Hub.Requests.{from_to}
use simple_im.Hub.Sending.{
  Readings, Sending, prune_expired, message_of, open_window, deliver_by_grant, admits,
  deliver_by_window, hold_message, send_by_grant, hint, refuse, send_without_grant, send_checked,
  check_of, sending, send_unblocked, send,
}
use simple_im.Hub.Sending.Laws.{check_block_cases}

deliver_by_grant-trust :
    (h : HubInner) (now : ℕ) (s : Sending) (grant : GrantRef)
    → (deliver_by_grant h now s grant).1.trust ≡ consume_grant_message h.trust grant.id
unfolding deliver_by_grant
deliver_by_grant-trust h now s grant =
    let charged = record h { trust = consume_grant_message h.trust grant.id } in
    let told = deposit charged s.to_name (message_of s) in
    (summon-Frame
      (if grant.opens_reply_window then open_window told now s.to_name s.from_name else told)
      s.to_name).trust
    ∙ opened grant.opens_reply_window told
    ∙ (deposit-Frame charged s.to_name (message_of s)).trust
  where
    opened :
        (b : Bool) (told : HubInner)
        → (if b then open_window told now s.to_name s.from_name else told).trust ≡ told.trust
    opened true told = refl
    opened false told = refl

deliver_by_window-trust :
    (h : HubInner) (at : Readings) (s : Sending) → (deliver_by_window h at s).1.trust ≡ h.trust
unfolding deliver_by_window
deliver_by_window-trust h at s =
    (summon-Frame _ s.to_name).trust ∙ (deposit-Frame _ s.to_name (message_of s)).trust

-- The state's trust chain is as it was, or the grant that the check returned is charged.
abbrev Charged : TrustChain → Result GrantRef → TrustChain → Type 0
Charged t c t' =
    (t' ≡ t) ⊎ ((ref : GrantRef) × (c ≡ ok ref) × (t' ≡ consume_grant_message t ref.id))

module _ (render : Notice → List ℕ) (h : HubInner) (at : Readings) (s : Sending) where
  hint-trust : (take_notify (hint render h s) s.from_name).1.trust ≡ h.trust
  unfolding hint push_back increment_msg_id_for_name
  hint-trust = (take_notify-Frame (hint render h s) s.from_name).trust ∙ ground arith

  refuse-trust : (e : Error) → (refuse render h s e).1.trust ≡ h.trust
  unfolding refuse
  refuse-trust no_grant =
      elim (Bool-cases (any (from_to s.from_name s.to_name) h.connection_requests)) [
        | inl e ↦ rw e refl
        | inr e ↦ rw e hint-trust
      ]
  refuse-trust _ = refl

  hold_message-trust : (grant : GrantRef) → (hold_message render h at.now s grant).1.trust ≡ h.trust
  unfolding hold_message
  hold_message-trust grant = ground arith

  send_by_grant-Charged :
      (grant : GrantRef) (m : GrantMediation)
      → Charged h.trust (ok grant) (send_by_grant render h at.now s grant m).1.trust
  unfolding send_by_grant
  send_by_grant-Charged grant inspect = inl (hold_message-trust grant)
  send_by_grant-Charged grant bypass = inr (grant, refl, deliver_by_grant-trust h at.now s grant)
  send_by_grant-Charged grant notify = inr (grant, refl, deliver_by_grant-trust h at.now s grant)

  send_checked-Charged :
      (c : Result GrantRef) → Charged h.trust c (send_checked render h at s c).1.trust
  unfolding send_checked send_without_grant
  send_checked-Charged (ok grant) = send_by_grant-Charged grant grant.mediation
  send_checked-Charged (err e) =
      elim (Bool-cases (any (admits at.now s.from_name s.to_name) h.reply_windows)) [
        | inl found ↦ rw found (inl (deliver_by_window-trust h at s))
        | inr shut ↦ rw shut (inl (refuse-trust e))
      ]

-- Identifiers are unique and every grant is within its budget.
abbrev pub Sound : TrustChain → Type 0
Sound t = IsFresh t × All WithinBudget t.grants

Sound-Charged :
    (t t' : TrustChain) (now : ℕ) (from to : Text) (from_name to_name : Option Text)
    → Sound t
    → Charged t (check_grant_directed_with_names t now from to from_name to_name) t'
    → Sound t'
Sound-Charged t t' now from to from_name to_name v (inl e) = subst Sound (sym e) v
Sound-Charged t t' now from to from_name to_name v (inr (ref, c, e)) =
    subst Sound (sym e) (
      (step-IsFresh t ref.id [] v.0).0,
      check-consume t now from to from_name to_name ref v.0 v.1 c,
    )

module _ (render : Notice → List ℕ) (h : HubInner) (at : Readings) (token to_name : Text)
    (payload : List ℕ) (thread_id : Option Text) (v : Sound h.trust) where
  send_unblocked-Sound :
      (m : Map (Text × Text) DenialBlock) (from_name : Text)
      → Sound
          (send_unblocked render
            (record (prune_expired h at.pruned_at) { denial_blocks = m })
            at
            token
            from_name
            to_name
            payload
            thread_id).1.trust
  unfolding send_unblocked prune_expired
  send_unblocked-Sound m from_name = elim (Option-cases (get to_name h.agents)) [
    | inl e ↦ rw (e, send_unblocked) v
    | inr (st, e) ↦
        let s = sending token from_name to_name st.identity payload thread_id in
        let g = record (prune_expired h at.pruned_at) { denial_blocks = m } in
        let c = check_of h at.checked_at s in
        rw (e, send_unblocked)
          (Sound-Charged h.trust (send_checked render g at s c).1.trust at.checked_at token
            st.identity (some from_name) (some to_name) v (send_checked-Charged render g at s c))
  ]

  -- Whatever a call of `send` answers, it keeps the identifiers of grants unique and every grant
  -- within its budget.
  pub send-Sound : Sound (send render h at token to_name payload thread_id).1.trust
  unfolding send prune_expired
  send-Sound = elim (Option-cases (get token h.listen_tokens)) [
    | inl e ↦ rw (e, send) v
    | inr (st, e) ↦ elim (Bool-cases st.revoked) [
      | inl r ↦ rw (e, r, send) v
      | inr r ↦ elim (Option-cases (get token h.token_to_name)) [
        | inl n ↦ rw (e, r, n, send) v
        | inr (from_name, n) ↦
            elim (check_block_cases (prune_expired h at.pruned_at) at.now_secs token to_name) [
              | inl (x, b) ↦ rw (e, r, n, b, send) v
              | inr (m, b) ↦ rw (e, r, n, b, send) (send_unblocked-Sound m from_name)
            ]
      ]
    ]
  ]
