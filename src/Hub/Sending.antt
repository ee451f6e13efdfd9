-- ===== src/Hub/Sending.antt =====
-- delivery.rs: sending a message, by a grant, by a reply window, or through the governor's hands.
pub mod Laws
pub mod Windows
pub mod Hints
pub mod Budget
use simple_im.Base.{
  ℕ, ◌+◌, Bool, true, false, not, ◌&&◌, Option, none, some, List, [], ◌∷◌, ◌++◌, ltb, if◌then◌else◌,
  ◌==◌, find, retain, any, update_first, wrap64,
}
use simple_im.Base.Text.{Text, text_Eq, pair_Eq, codes}
use simple_im.Base.Map.{get}
use simple_im.Error.{
  Error, Done, Result, ok, err, auth_failed, token_revoked, announce_required, recipient_unknown,
  mediation_unavailable, no_grant,
}
use simple_im.Trust.Grant.{GrantRef, GrantMediation, bypass, inspect, notify}
use simple_im.Trust.Chain.{TrustChain, id_text, is_governor, consume_grant_message}
use simple_im.Trust.Check.{check_grant_directed_with_names}
use simple_im.Hub.State.{
  QueuedMessage, ReplyWindow, MediationHold, HubInner, Notice, mediation, delivered, no_grant_hint,
  Effect, gov_event, increment_grant_usage,
}
use simple_im.Hub.Queue.{push_back, increment_msg_id_for_name, deposit, take_notify}
use simple_im.Hub.Governance.{Reply, system_message, send_effects, summon}
use simple_im.Hub.Requests.{from_to, check_block}

pub data Ack : Type 0 where
  accepted : Ack
  pending_mediation : Text → Ack

-- The clock readings of one call: at the pruning, of the Unix time, in the grant check, at the
-- expiry of a hold or of a first window or the search for a window, and at the expiry of the
-- window that a reply opens.
pub record Readings : Type 0 where
  pub pruned_at : ℕ
  pub now_secs : ℕ
  pub checked_at : ℕ
  pub now : ℕ
  pub replied_at : ℕ

-- What is sent: the sender's token and name, the recipient's name and identity, and the message.
pub record Sending : Type 0 where
  pub from_identity : Text
  pub from_name : Text
  pub to_name : Text
  pub to_identity : Text
  pub payload : List ℕ
  pub thread_id : Option Text

unfoldable pub prune_expired : HubInner → ℕ → HubInner
prune_expired h now = record h {
  reply_windows = retain (λ w. ltb now w.expires) h.reply_windows;
  mediation_holds = retain (λ m. not m.resolved && ltb now m.expires) h.mediation_holds;
}

abbrev pub message_of : Sending → QueuedMessage
message_of s = record {
  payload = s.payload;
  from_name = s.from_name;
  reason = none;
  event_type = none;
  thread_id = s.thread_id;
}

-- The recipient may answer until the window expires.
abbrev pub open_window : HubInner → ℕ → Text → Text → HubInner
open_window h now recipient sender = record h {
  reply_windows =
      h.reply_windows
      ++ record {
        recipient = recipient;
        sender = sender;
        expires = now + h.reply_ttl;
        used = false;
      }
        ∷ [];
}

-- The grant is charged, the message queued, and a window opened if the grant says so.
unfoldable pub deliver_by_grant : HubInner → ℕ → Sending → GrantRef → Reply Ack
deliver_by_grant h now s grant =
    let charged = record h { trust = consume_grant_message h.trust grant.id } in
    let told = deposit charged s.to_name (message_of s) in
    let opened =
      if grant.opens_reply_window then open_window told now s.to_name s.from_name else told in
    let (effects, h') = summon opened s.to_name in
    (ok accepted, h', increment_grant_usage grant.id ∷ effects)

-- Whether the window lets the sender answer the recipient.
abbrev pub admits : ℕ → Text → Text → ReplyWindow → Bool
admits now from_name to_name w =
    w.recipient == from_name && w.sender == to_name && not w.used && ltb now w.expires

abbrev pub use_window : ReplyWindow → ReplyWindow
use_window w = record w { used = true }

-- The first window is used up, and the answer opens one in the other direction.
unfoldable pub deliver_by_window : HubInner → Readings → Sending → Reply Ack
deliver_by_window h at s =
    let used = record h {
      reply_windows = update_first (admits at.now s.from_name s.to_name) use_window h.reply_windows;
    } in
    let told = deposit used s.to_name (message_of s) in
    let (effects, h') = summon (open_window told at.replied_at s.to_name s.from_name) s.to_name in
    (ok accepted, h', effects)

-- The grant check, by identities and by names.
abbrev pub check_of : HubInner → ℕ → Sending → Result GrantRef
check_of h checked_at s =
    check_grant_directed_with_names h.trust checked_at s.from_identity s.to_identity
      (some s.from_name) (some s.to_name)

abbrev pub sending : Text → Text → Text → Text → List ℕ → Option Text → Sending
sending from_identity from_name to_name to_identity payload thread_id = record {
  from_identity = from_identity;
  from_name = from_name;
  to_name = to_name;
  to_identity = to_identity;
  payload = payload;
  thread_id = thread_id;
}

module _ (render : Notice → List ℕ) where
  -- The message waits for the governor who made the grant, if he still governs.
  unfoldable pub hold_message : HubInner → ℕ → Sending → GrantRef → Reply Ack
  hold_message h now s grant =
      if not (is_governor h.trust grant.governor_id)
      then (err mediation_unavailable, h, [])
      else (let n = wrap64 (h.med_counter + 1) in
          let id = id_text (codes "med") n in
          (
            ok (pending_mediation id),
            record h {
              med_counter = n;
              mediation_holds =
                  h.mediation_holds
                  ++ record {
                    mediation_id = id;
                    from_name = s.from_name;
                    to_name = s.to_name;
                    from_identity = s.from_identity;
                    to_identity = s.to_identity;
                    payload = s.payload;
                    reason = [];
                    expires = now + h.hold_ttl;
                    resolved = false;
                    grant_id = some grant.id;
                  }
                    ∷ [];
            },
            gov_event (mediation id s.from_name s.to_name s.payload grant.id grant.conditions) ∷ [],
          ))

  unfoldable pub send_by_grant : HubInner → ℕ → Sending → GrantRef → GrantMediation → Reply Ack
  send_by_grant h now s grant inspect = hold_message h now s grant
  send_by_grant h now s grant bypass = deliver_by_grant h now s grant
  send_by_grant h now s grant notify =
      let (answer, h', effects) = deliver_by_grant h now s grant in
      (
        answer,
        h',
        gov_event (delivered s.from_name s.to_name s.payload grant.id grant.conditions) ∷ effects,
      )

  -- The hint how to ask for a grant; unlike every other message it does not mark the queue.
  unfoldable pub hint : HubInner → Sending → HubInner
  hint h s =
      increment_msg_id_for_name
        (push_back h s.from_name
          (system_message (render (no_grant_hint s.to_name)) (codes "no_grant")))
        s.from_name

  unfoldable pub refuse : HubInner → Sending → Error → Reply Ack
  refuse h s no_grant =
      if any (from_to s.from_name s.to_name) h.connection_requests
      then (err no_grant, h, [])
      else (let (ntx, h') = take_notify (hint h s) s.from_name in
          (err no_grant, h', send_effects ntx))
  refuse h s e = (err e, h, [])

  unfoldable pub send_without_grant : HubInner → Readings → Sending → Error → Reply Ack
  send_without_grant h at s e =
      if any (admits at.now s.from_name s.to_name) h.reply_windows
      then deliver_by_window h at s
      else refuse h s e

  unfoldable pub send_checked : HubInner → Readings → Sending → Result GrantRef → Reply Ack
  send_checked h at s (ok grant) = send_by_grant h at.now s grant grant.mediation
  send_checked h at s (err e) = send_without_grant h at s e

  unfoldable pub send_unblocked :
      HubInner → Readings → Text → Text → Text → List ℕ → Option Text → Reply Ack
  send_unblocked h at token from_name to_name payload thread_id = elim (get to_name h.agents) [
    | none ↦ (err recipient_unknown, h, [])
    | some st ↦
        let s = sending token from_name to_name st.identity payload thread_id in
        send_checked h at s (check_of h at.checked_at s)
  ]

  abbrev pub send_if :
      Result Done × HubInner → Readings → Text → Text → Text → List ℕ → Option Text → Reply Ack
  send_if (err e, h) at token from_name to_name payload thread_id = (err e, h, [])
  send_if (ok u, h) at token from_name to_name payload thread_id =
      send_unblocked h at token from_name to_name payload thread_id

  unfoldable pub send : HubInner → Readings → Text → Text → List ℕ → Option Text → Reply Ack
  send h at token to_name payload thread_id =
      let pruned = prune_expired h at.pruned_at in
      elim (get token pruned.listen_tokens) [
        | none ↦ (err auth_failed, pruned, [])
        | some st ↦
            if st.revoked
            then (err token_revoked, pruned, [])
            else elim (get token pruned.token_to_name) [
              | none ↦ (err announce_required, pruned, [])
              | some from_name ↦
                  send_if (check_block pruned at.now_secs token to_name) at token from_name to_name
                    payload thread_id
            ]
      ]
