-- ===== src/Examples/Governing.antt =====
-- Examples for the claims of delivery.rs: Carol stands for governor, and Alice and Bob must approve.
use simple_im.Base.{◌≡◌, ◌≢◌, refl, true, List, [], ◌∷◌, arith, any, all}
use simple_im.Base.Text.{Text, text_Eq, text_eq, codes}
use simple_im.Base.Map.{get, update}
use simple_im.Error.{ok}
use simple_im.Trust.Chain.{with_clock}
use simple_im.Hub.State.{GovernanceClaim, election, HubInner}
use simple_im.Hub.Sets.{set_insert, is_subset}
use simple_im.Hub.Governance.{
  established, claim_governorship, may_vote, approve_claim, respond_claim,
}
use simple_im.Hub.Governance.Electorate.{Claimed, claim_lem}
use simple_im.Hub.Governance.Claims.{Verdict, respond_lem}
use simple_im.Hub.Governance.Moves.{votes, run, step, Unvoted}
use simple_im.Hub.Governance.Votes.{no_bypass}
use simple_im.Base.{some}
use simple_im.Error.{err, forbidden}
use simple_im.Trust.Transfer.{hex_text}
use simple_im.Hub.State.{validate_governor_token}
use simple_im.Hub.Authority.{begin_transfer, accept_transfer}
use simple_im.Hub.Authority.Handover.{handover}
use simple_im.Examples.Sample.{alice, bob, carol, hub, listening, blank, apart, some_apart}

abbrev id : Text
id = codes "claim-1"

abbrev candidacy : List Text → GovernanceClaim
candidacy approved = record {
  candidate_token = codes "tc";
  candidate_name = carol;
  kind = election;
  required = alice ∷ bob ∷ [];
  approved = approved;
  expires_at = 100;
}

abbrev polling : List Text → HubInner
polling approved = record (hub with_clock []) { pending_claims = (id, candidacy approved) ∷ [] }

claim_example :
    Claimed
      (polling [])
      (claim_governorship blank (polling []) 5 (codes "tc")).1
      5
      (codes "tc")
      carol
unfolding get text_eq
claim_example = claim_lem blank (polling []) 5 (codes "tc") carol refl

respond_example :
    Verdict
      (polling (bob ∷ []))
      5
      (codes "ta")
      id
      (respond_claim blank (polling (bob ∷ [])) 5 (codes "ta") id true)
respond_example = respond_lem blank (polling (bob ∷ [])) 5 (codes "ta") id true

nobody_voted : Unvoted alice (polling []).pending_claims
unfolding get any
nobody_voted = record { at = λ claim_id claim e. ground arith }

no_bypass_example :
    (respond_claim blank
      (run blank (polling []) ((5, votes (codes "tb") id true) ∷ []))
      6
      (codes "tb")
      id
      true).0
    ≢ ok (established carol)
unfolding get text_eq update any run step respond_claim approve_claim may_vote is_subset set_insert
    all
no_bypass_example =
    no_bypass blank alice (polling []) ((5, votes (codes "tb") id true) ∷ []) 6 (codes "tb") id
      carol true (candidacy (bob ∷ [])) nobody_voted (some_apart bob alice refl, tt)
      (some_apart bob alice refl) refl refl

-- Carol governs.
abbrev ruled : HubInner
ruled =
    hub
      (record { governor_identity = some carol; grants = []; pending_transfers = []; counter = 0 })
      []

handover_example :
    ((begin_transfer ruled (240 ∷ 7 ∷ []) (codes "tc") (some bob)).0 ≡ ok (hex_text (240 ∷ 7 ∷ [])))
    × ((accept_transfer
          (begin_transfer ruled (240 ∷ 7 ∷ []) (codes "tc") (some bob)).1
          (codes "tb")
          (hex_text (240 ∷ 7 ∷ []))).0
        ≡ ok tt)
    × (validate_governor_token
          (accept_transfer
            (begin_transfer ruled (240 ∷ 7 ∷ []) (codes "tc") (some bob)).1
            (codes "tb")
            (hex_text (240 ∷ 7 ∷ []))).1
          (codes "tb")
        ≡ ok tt)
    × (validate_governor_token
          (accept_transfer
            (begin_transfer ruled (240 ∷ 7 ∷ []) (codes "tc") (some bob)).1
            (codes "tb")
            (hex_text (240 ∷ 7 ∷ []))).1
          (codes "tc")
        ≡ err forbidden)
unfolding get text_eq
handover_example =
    handover ruled (240 ∷ 7 ∷ []) (codes "tc") (codes "tb") carol bob (listening carol)
      (listening bob) refl refl refl refl refl refl refl (apart carol bob refl)
