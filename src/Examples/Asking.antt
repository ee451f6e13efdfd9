-- ===== src/Examples/Asking.antt =====
-- Examples for the grant requests of delivery.rs: Bob asks to reach Alice, and Carol may govern.
use simple_im.Base.{◌≡◌, refl, true, Option, none, some, [], ◌∷◌, arith, any}
use simple_im.Base.Text.{Text, text_Eq, text_eq, codes}
use simple_im.Base.Map.{get, insert, update}
use simple_im.Error.{ok, err, grant_blocked, forbidden}
use simple_im.Trust.Grant.{GrantRef}
use simple_im.Trust.Chain.{is_governor, approve_grant_req, recipient_consent}
use simple_im.Trust.Check.{check_grant_directed_with_names}
use simple_im.Hub.State.{ConnectionRequest, pending_recipient, HubInner, validate_governor_token}
use simple_im.Hub.Sets.{set_insert}
use simple_im.Hub.Queue.{deposit, take_notify}
use simple_im.Hub.Governance.{summon}
use simple_im.Hub.Requests.{request_grant}
use simple_im.Hub.Requests.Decide.{
  grant_expiry, make_grant, conclude, settle, approve_at, approve_grant_request, deny_grant_request,
  hold_grant_request,
}
use simple_im.Hub.Requests.Approve.{Outcome, approve_lem, established_reaches}
use simple_im.Hub.Requests.Blocks.{denied_is_blocked}
use simple_im.Hub.Requests.Stages.{held_strands}
use simple_im.Examples.Sample.{alice, bob, carol, listening, hub, blank}

abbrev id : Text
id = codes "req-1"

abbrev asked : Option Text → ConnectionRequest
asked approving_governor = record {
  request_id = id;
  from_name = bob;
  to_name = alice;
  from_identity = codes "tb";
  to_identity = codes "ta";
  reason = none;
  stage = pending_recipient;
  governor_expiry = some 100;
  recipient_expiry = none;
  approving_governor = approving_governor;
  expires_at = 1000;
}

-- Carol governs, and has approved the request.
abbrev governed : HubInner
governed =
    hub
      (record { governor_identity = some carol; grants = []; pending_transfers = []; counter = 0 })
      ((id, asked (some carol)) ∷ [])

-- Nobody governs.
abbrev free : HubInner
free =
    hub (record { governor_identity = none; grants = []; pending_transfers = []; counter = 0 })
      ((id, asked (some recipient_consent)) ∷ [])

approve_example :
    Outcome governed 5
      (codes "ta")
      id
      none
      (approve_grant_request blank governed 5 (codes "ta") id none)
approve_example = approve_lem blank governed 5 (codes "ta") id none

established_example :
    (ref : GrantRef) × (check_grant_directed_with_names
        (approve_grant_request blank governed 5 (codes "ta") id none).1.trust
        50
        (codes "tb")
        (codes "ta")
        (some bob)
        (some alice)
      ≡ ok ref)
unfolding get text_eq validate_governor_token is_governor approve_grant_request approve_at settle
    make_grant approve_grant_req conclude grant_expiry
established_example =
    established_reaches blank governed 5 (codes "ta") id none (asked (some carol)) 50 refl refl
      (omega arith)

denied_example :
    (request_grant blank
      (deny_grant_request blank governed (codes "ta") id (codes "no") none).1
      6
      7
      8
      (codes "tb")
      alice
      none
      none).0
    ≡ err (grant_blocked (codes "no"))
unfolding get text_eq update insert any set_insert validate_governor_token is_governor
    deny_grant_request deposit take_notify summon
denied_example =
    denied_is_blocked blank governed (codes "ta") id (codes "no") none (asked (some carol)) 6 7 8
      none none (record (listening bob) { msg_id = 1; notify_suppressed = true }) refl refl refl
      refl refl

held_example :
    approve_grant_request blank
      (hold_grant_request blank free (codes "ta") id (codes "later")).1
      9
      (codes "ta")
      id
      none
    ≡ (err forbidden, (hold_grant_request blank free (codes "ta") id (codes "later")).1, [])
unfolding get text_eq validate_governor_token is_governor hold_grant_request
held_example =
    held_strands blank free (codes "ta") id (codes "later") (asked (some recipient_consent)) 9
      (codes "ta") none refl refl refl
