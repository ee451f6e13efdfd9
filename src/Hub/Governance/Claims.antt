-- ===== src/Hub/Governance/Claims.antt =====
-- When a claim of governorship (delivery.rs) is granted, and by whom.
use simple_im.Base.{
  ℕ, ◌<◌, ◌≡◌, ◌≢◌, refl, ◌⊎◌, inl, inr, Bool, true, false, not, some, List, arith, leb,
  if◌then◌else◌, Bool-cases, Option-cases,
}
use simple_im.Base.Text.{Text, text_Eq}
use simple_im.Base.Map.{get, remove, update}
use simple_im.Error.{ok}
use simple_im.Trust.Chain.{set_governor}
use simple_im.Hub.State.{GovernanceClaim, HubInner, Notice}
use simple_im.Hub.Sets.{set_insert, is_subset}
use simple_im.Hub.Governance.{
  ClaimResolution, established, rejected, Reply, may_vote, reject_claim, candidate_still_live,
  establish, approve_claim, respond_claim,
}
use simple_im.Hub.Governance.Frame.{told-Frame}

-- What a vote needs in order to carry a claim.
pub record Carries (h : HubInner) (now : ℕ) (token claim_id : Text) (claim : GovernanceClaim)
    (voter : Text) : Type 0 where
  pub pending : get claim_id h.pending_claims ≡ some claim
  pub in_time : now < claim.expires_at
  pub voter_named : get token h.token_to_name ≡ some voter
  pub entitled : may_vote h claim voter ≡ true
  pub unanimous : is_subset claim.required (set_insert voter claim.approved) ≡ true
  pub candidate_live : candidate_still_live h claim ≡ true

-- Either a vote leaves the governor as it was and establishes nothing, or it carries a claim and
-- makes its candidate the governor.
abbrev pub Verdict : HubInner → ℕ → Text → Text → Reply ClaimResolution → Type 0
Verdict h now token claim_id r =
    ((r.1.trust ≡ h.trust) × ((name : Text) → r.0 ≢ ok (established name)))
    ⊎ ((claim : GovernanceClaim) × (voter : Text) × Carries h now token claim_id claim voter
        × (r.0 ≡ ok (established claim.candidate_name))
        × (r.1.trust ≡ set_governor h.trust claim.candidate_name))

live_after :
    (h : HubInner) (claim_id voter : Text) (claim : GovernanceClaim)
    → candidate_still_live
        (record h {
          pending_claims =
              update claim_id
                (λ _. record claim { approved = set_insert voter claim.approved })
                h.pending_claims;
        })
        (record claim { approved = set_insert voter claim.approved })
      ≡ candidate_still_live h claim
unfolding candidate_still_live
live_after h claim_id voter claim = refl

module _ (render : Notice → List ℕ) where
  reject-trust :
      (h : HubInner) (claim_id : Text) (claim : GovernanceClaim)
      → ((reject_claim render h claim_id claim).1.trust ≡ h.trust)
        × ((reject_claim render h claim_id claim).0 ≡ ok (rejected claim.candidate_name))
  unfolding reject_claim
  reject-trust h claim_id claim = (
    (told-Frame (record h { pending_claims = remove claim_id h.pending_claims })
        claim.candidate_name _).trust,
    refl,
  )

  establish-trust :
      (h : HubInner) (claim_id : Text) (claim : GovernanceClaim)
      → ((establish render h claim_id claim).1.trust ≡ set_governor h.trust claim.candidate_name)
        × ((establish render h claim_id claim).0 ≡ ok (established claim.candidate_name))
  unfolding establish
  establish-trust h claim_id claim = (
    (told-Frame
        (record h {
          trust = set_governor h.trust claim.candidate_name;
          pending_claims = remove claim_id h.pending_claims;
        })
        claim.candidate_name _).trust,
    refl,
  )

  module _ (h : HubInner) (now : ℕ) (token claim_id : Text) (claim : GovernanceClaim) (voter : Text)
      (pending : get claim_id h.pending_claims ≡ some claim)
      (in_time : leb claim.expires_at now ≡ false)
      (voter_named : get token h.token_to_name ≡ some voter)
      (entitled : may_vote h claim voter ≡ true) where
    approve-Verdict : Verdict h now token claim_id (approve_claim render h claim_id claim voter)
    unfolding approve_claim
    approve-Verdict =
        elim (Bool-cases (is_subset claim.required (set_insert voter claim.approved))) [
          | inr few ↦ inl (rw few (refl, λ name e. cc))
          | inl all ↦ elim (Bool-cases (candidate_still_live h claim)) [
            | inr gone ↦
                inl (rw (all, live_after h claim_id voter claim, gone) (refl, λ name e. cc))
            | inl live ↦
                let est =
                  establish-trust
                    (record h {
                      pending_claims =
                          update claim_id
                            (λ _. record claim { approved = set_insert voter claim.approved })
                            h.pending_claims;
                    })
                    claim_id (record claim { approved = set_insert voter claim.approved }) in
                rw (all, live_after h claim_id voter claim, live)
                  (inr (
                    claim,
                    voter,
                    record {
                      pending = pending;
                      in_time = ground arith;
                      voter_named = voter_named;
                      entitled = entitled;
                      unanimous = all;
                      candidate_live = live;
                    },
                    est.1,
                    est.0,
                  ))
          ]
        ]

    vote-Verdict :
        (approve : Bool)
        → Verdict h now token claim_id (
            if not approve
            then reject_claim render h claim_id claim
            else approve_claim render h claim_id claim voter)
    vote-Verdict true = approve-Verdict
    vote-Verdict false = let (t, a) = reject-trust h claim_id claim in inl (t, λ name e. cc)

  -- A vote makes somebody governor only if it carries its claim: the claim is pending and in time,
  -- the voter is entitled, with this vote all those required have approved, and the candidate's
  -- token still stands under the candidate's name. Then the candidate is governor; every other
  -- vote leaves the governor as it was.
  pub respond_lem :
      (h : HubInner) (now : ℕ) (token claim_id : Text) (approve : Bool)
      → Verdict h now token claim_id (respond_claim render h now token claim_id approve)
  unfolding respond_claim
  respond_lem h now token claim_id approve = elim (Option-cases (get claim_id h.pending_claims)) [
    | inl e ↦ rw (e, respond_claim) (inl (refl, λ name q. cc))
    | inr (claim, e) ↦ elim (Bool-cases (leb claim.expires_at now)) [
      | inl late ↦ rw (e, late, respond_claim) (inl (refl, λ name q. cc))
      | inr in_time ↦ elim (Option-cases (get token h.token_to_name)) [
        | inl n ↦ rw (e, in_time, n, respond_claim) (inl (refl, λ name q. cc))
        | inr (voter, n) ↦ elim (Bool-cases (may_vote h claim voter)) [
          | inr no_right ↦ rw (e, in_time, n, no_right, respond_claim) (inl (refl, λ name q. cc))
          | inl right ↦
              rw (e, in_time, n, right, respond_claim)
                (vote-Verdict h now token claim_id claim voter e in_time n right approve)
        ]
      ]
    ]
  ]
