-- ===== src/Examples/Sent.antt =====
-- Examples for `send` of delivery.rs: Carol has let Alice send to Bob, and Bob may answer once.
use simple_im.Base.{
  ℕ, ◌+◌, ◌<◌, ◌≡◌, refl, true, false, none, some, [], ◌∷◌, ◌++◌, any, find, foldl, retain,
}
use simple_im.Base.Text.{Text, text_Eq, text_eq, codes}
use simple_im.Base.Map.{get}
use simple_im.Error.{ok, no_grant}
use simple_im.Trust.Grant.{Grant, symmetric, bypass, matches_pair, grant_covers_directed_with_names}
use simple_im.Trust.Chain.{is_governor, grant_governor_id}
use simple_im.Trust.Check.{visit, verdict, check_grant_directed_with_names}
use simple_im.Hub.State.{ReplyWindow, MediationHold, HubInner, validate_governor_token}
use simple_im.Hub.Queue.{queue_of, kick_pending_for}
use simple_im.Hub.Requests.{check_block}
use simple_im.Hub.Sending.{
  accepted, Readings, Sending, prune_expired, admits, deliver_by_grant, send_by_grant,
  send_without_grant, send_checked, send_unblocked, refuse, send,
}
use simple_im.Hub.Sending.Laws.{Accepted, accepted_lem}
use simple_im.Hub.Sending.Windows.{admitted, reply_once}
use simple_im.Hub.Sending.Hints.{hint_message, hints_repeat}
use simple_im.Hub.Mediation.{
  approve, MediationResult, decide_for, decide, hand_over, resolve_mediation,
}
use simple_im.Hub.Mediation.Laws.{Decided, resolve_lem}
use simple_im.Trust.Grant.{default_request}
use simple_im.Trust.Chain.{TrustChain, with_clock, new_grant, approve_grant_req}
use simple_im.Trust.Ids.{approve-IsFresh}
use simple_im.Base.{arith}
use simple_im.Hub.Sending.Budget.{Sound, send-Sound}
use simple_im.Examples.Sample.{alice, bob, carol, hub, blank, apart}

abbrev grant : Grant
grant = record {
  id = codes "grant-1";
  identity_a = codes "ta";
  identity_b = codes "tb";
  name_a = none;
  name_b = none;
  expires = none;
  direction = symmetric;
  max_messages = some 3;
  messages_used = 1;
  opens_reply_window = true;
  governor_id = carol;
  mediation = bypass;
  conditions = none;
}

abbrev window : ReplyWindow
window = record { recipient = bob; sender = alice; expires = 90; used = false }

abbrev sent_hub : HubInner
sent_hub =
    record (hub
      (record {
        governor_identity = some carol;
        grants = grant ∷ [];
        pending_transfers = [];
        counter = 1;
      })
      []) { reply_windows = window ∷ [] }

abbrev at : Readings
at = record { pruned_at = 5; now_secs = 1000; checked_at = 6; now = 7; replied_at = 8 }

accepted_example :
    Accepted sent_hub at
      (codes "ta")
      bob
      (1 ∷ [])
      none
      (send blank sent_hub at (codes "ta") bob (1 ∷ []) none).1
unfolding send prune_expired get text_eq check_block send_unblocked send_checked send_by_grant
    deliver_by_grant check_grant_directed_with_names visit verdict grant_covers_directed_with_names
    matches_pair foldl
accepted_example = accepted_lem blank sent_hub at (codes "ta") bob (1 ∷ []) none refl

abbrev answer : Sending
answer = record {
  from_identity = codes "tb";
  from_name = bob;
  to_name = alice;
  to_identity = codes "ta";
  payload = 2 ∷ [];
  thread_id = none;
}

reply_example :
    ((send_without_grant blank sent_hub at answer no_grant).0 ≡ ok accepted)
    × (admitted 7 bob alice (send_without_grant blank sent_hub at answer no_grant).1.reply_windows
          + 1
        ≡ admitted 7 bob alice (window ∷ []))
    × ((later : ℕ)
        → later < 608
        → any
            (admits later alice bob)
            (send_without_grant blank sent_hub at answer no_grant).1.reply_windows
          ≡ true)
unfolding text_eq any
reply_example = reply_once blank sent_hub at answer no_grant (apart bob alice refl) refl

hints_example :
    (queue_of (refuse blank (refuse blank sent_hub answer no_grant).1 answer no_grant).1 bob
      ≡ queue_of sent_hub bob ++ hint_message blank answer ∷ hint_message blank answer ∷ [])
    × ((n : Text)
        → kick_pending_for
            (refuse blank (refuse blank sent_hub answer no_grant).1 answer no_grant).1
            n
          ≡ kick_pending_for sent_hub n)
unfolding any
hints_example = hints_repeat blank answer sent_hub refl

abbrev held : MediationHold
held = record {
  mediation_id = codes "med-1";
  from_name = alice;
  to_name = bob;
  from_identity = codes "ta";
  to_identity = codes "tb";
  payload = 3 ∷ [];
  reason = [];
  expires = 90;
  resolved = false;
  grant_id = some (codes "grant-1");
}

abbrev holding_hub : HubInner
holding_hub = record sent_hub { mediation_holds = held ∷ [] }

resolve_example :
    Decided holding_hub 5 7
      (codes "tc")
      (codes "med-1")
      (resolve_mediation holding_hub 5 7 8 (codes "tc") (codes "med-1") approve).1
unfolding resolve_mediation prune_expired retain find get text_eq validate_governor_token
    is_governor decide_for grant_governor_id decide hand_over
resolve_example =
    resolve_lem holding_hub 5 7 8 (codes "tc") (codes "med-1") approve
      (MediationResult.delivered bob) refl

-- The chain after Carol's approval of one message.
abbrev approved : TrustChain
approved =
    (approve_grant_req with_clock 0 carol (codes "ta") (codes "tb") none
      (record default_request { max_messages = some 1 })).1

approved-Sound : Sound approved
unfolding with_clock approve_grant_req new_grant
approved-Sound = (
  (approve-IsFresh with_clock 0 carol (codes "ta") (codes "tb") none
      (record default_request { max_messages = some 1 }) (record { distinct = tt; seeded = tt })
      (omega arith)).0,
  ((omega arith, omega arith), tt),
)

charges_example : Sound (send blank (hub approved []) at (codes "ta") bob (1 ∷ []) none).1.trust
charges_example =
    send-Sound blank (hub approved []) at (codes "ta") bob (1 ∷ []) none approved-Sound
