-- ===== src/Hub/Governance.antt =====
-- delivery.rs: claims of governorship, by election or by transfer. The JSON text of a notice is
-- given by the argument `render`, which stands for `serde_json`.
pub mod Frame
pub mod Electorate
pub mod Claims
pub mod Moves
pub mod Votes
use simple_im.Base.{
  ℕ, ◌+◌, ◌*◌, Bool, true, false, not, ◌&&◌, ◌||◌, Option, none, some, List, [], ◌∷◌, ◌++◌, leb,
  if◌then◌else◌, ◌==◌, retain, length, wrap64, from_secs,
}
use simple_im.Base.Text.{Text, text_Eq, codes, is_text}
use simple_im.Base.Map.{get, insert, remove, update, contains_key, keys}
use simple_im.Error.{
  Error, Result, ok, err, announce_required, bad_request, forbidden, recipient_unknown,
}
use simple_im.Trust.Chain.{
  TrustChain, id_text, has_active_governor, is_governor, set_governor, clear_governor,
}
use simple_im.Trust.Transfer.{clear_pending_transfers}
use simple_im.Hub.State.{
  QueuedMessage, GovernanceClaim, ClaimKind, election, transfer, ListenTokenState, HubInner, Notice,
  transfer_request, election_request, claim_rejected, governorship_granted, notify_pending, Effect,
  wake, send_event, gov_event, store_governor, is_sse_alive_in_hub,
}
use simple_im.Hub.Sets.{contains, set_insert, is_subset}
use simple_im.Hub.Queue.{deposit, take_notify}

-- Thirty minutes.
abbrev pub grant_request_timeout : ℕ
grant_request_timeout = from_secs (30 * 60)

pub data ClaimOutcome : Type 0 where
  granted : Text → ClaimOutcome
  election_open : Text → ℕ → ClaimOutcome
  transfer_open : Text → ClaimOutcome

pub data ClaimResolution : Type 0 where
  waiting : ℕ → ℕ → ClaimResolution
  established : Text → ClaimResolution
  rejected : Text → ClaimResolution

-- A handler's answer, the state that it leaves and what it does outside the lock.
abbrev pub Reply : Type 0 → Type 0
Reply A = Result A × HubInner × List Effect

abbrev pub system_message : List ℕ → Text → QueuedMessage
system_message payload event_type = record {
  payload = payload;
  from_name = codes "system";
  reason = none;
  event_type = some event_type;
  thread_id = none;
}

abbrev pub wake_effects : HubInner → Text → List Effect
wake_effects h name = if contains_key name h.agents then wake name ∷ [] else []

abbrev pub send_effects : Option (ℕ × ℕ) → List Effect
send_effects none = []
send_effects (some (sender, pending)) = send_event sender (notify_pending pending) ∷ []

-- Wake a reader of the name's queue and notify its stream.
unfoldable pub summon : HubInner → Text → List Effect × HubInner
summon h name = let (ntx, h') = take_notify h name in (wake_effects h name ++ send_effects ntx, h')

-- The names of the other participants whose stream is open.
unfoldable pub live_others : HubInner → Text → List Text
live_others h candidate_name =
    retain
      (λ n. not (n == candidate_name) && elim (get n h.name_to_token) [
        | none ↦ false
        | some tok ↦ is_sse_alive_in_hub tok h.sse_connections
      ])
      (keys h.agents)

abbrev pub new_claim : Text → Text → ClaimKind → List Text → ℕ → GovernanceClaim
new_claim candidate_token candidate_name kind required now = record {
  candidate_token = candidate_token;
  candidate_name = candidate_name;
  kind = kind;
  required = required;
  approved = [];
  expires_at = now + grant_request_timeout;
}

abbrev pub governor_set : Option Text → List Text
governor_set none = []
governor_set (some name) = name ∷ []

-- Whether the name may vote on the claim.
unfoldable pub may_vote : HubInner → GovernanceClaim → Text → Bool
may_vote h claim name = elim claim.kind [
  | transfer ↦ not (not (is_governor h.trust name) || not (contains claim.required name))
  | election ↦ contains claim.required name
]

-- The candidate's token still stands and still has the candidate's name.
unfoldable pub candidate_still_live : HubInner → GovernanceClaim → Bool
candidate_still_live h claim =
    elim (get claim.candidate_token h.listen_tokens) [ none ↦ false | some s ↦ not s.revoked ]
    && is_text (get claim.candidate_token h.token_to_name) claim.candidate_name

module _ (render : Notice → List ℕ) where
  -- Each voter is told of the election.
  unfoldable pub notify_voters : HubInner → List Text → Text → Text → List Effect × HubInner
  unfolding summon
  notify_voters h [] claim_id candidate = ([], h)
  notify_voters h (voter ∷ voters) claim_id candidate =
      let told =
        deposit h voter
          (system_message (render (election_request claim_id candidate)) (codes "governance")) in
      let (effects, h') = summon told voter in
      let (more, h'') = notify_voters h' voters claim_id candidate in (effects ++ more, h'')

  -- With a governor: the claim waits for the governor's approval.
  unfoldable pub open_transfer : HubInner → ℕ → Text → Text → Text → Reply ClaimOutcome
  open_transfer h now claimant_token candidate_name claim_id = (
    ok (transfer_open claim_id),
    record h {
      pending_claims =
          insert claim_id
            (new_claim claimant_token candidate_name transfer
              (governor_set h.trust.governor_identity) now)
            h.pending_claims;
    },
    gov_event (transfer_request claim_id candidate_name) ∷ [],
  )

  -- Without a governor: granted at once if nobody else is there, else put to the vote.
  unfoldable pub open_election : HubInner → ℕ → Text → Text → Text → List Text → Reply ClaimOutcome
  unfolding notify_voters
  open_election h now claimant_token candidate_name claim_id [] = (
    ok (granted candidate_name),
    record h { trust = set_governor h.trust candidate_name },
    store_governor (some candidate_name) ∷ [],
  )
  open_election h now claimant_token candidate_name claim_id (voter ∷ voters) =
      let required = voter ∷ voters in
      let (effects, h') = notify_voters h required claim_id candidate_name in
      (
        ok (election_open claim_id (length required)),
        record h' {
          pending_claims =
              insert claim_id (new_claim claimant_token candidate_name election required now)
                h'.pending_claims;
        },
        effects,
      )

  unfoldable pub claim_governorship : HubInner → ℕ → Text → Reply ClaimOutcome
  claim_governorship h now claimant_token = elim (get claimant_token h.token_to_name) [
    | none ↦ (err announce_required, h, [])
    | some candidate_name ↦
        let n = wrap64 (h.claim_counter + 1) in
        let claim_id = id_text (codes "claim") n in
        let counted = record h { claim_counter = n } in
        if has_active_governor h.trust
        then open_transfer counted now claimant_token candidate_name claim_id
        else open_election counted now claimant_token candidate_name claim_id
            (live_others counted candidate_name)
  ]

  unfoldable pub reject_claim : HubInner → Text → GovernanceClaim → Reply ClaimResolution
  unfolding summon
  reject_claim h claim_id claim =
      let name = claim.candidate_name in
      let told =
        deposit (record h { pending_claims = remove claim_id h.pending_claims }) name
          (system_message (render (claim_rejected claim_id)) (codes "governance")) in
      let (effects, h') = summon told name in (ok (rejected name), h', effects)

  unfoldable pub establish : HubInner → Text → GovernanceClaim → Reply ClaimResolution
  unfolding summon
  establish h claim_id claim =
      let name = claim.candidate_name in
      let told =
        deposit
          (record h {
            trust = set_governor h.trust name;
            pending_claims = remove claim_id h.pending_claims;
          })
          name
          (system_message (render (governorship_granted claim_id name)) (codes "governance")) in
      let (effects, h') = summon told name in
      (ok (established name), h', store_governor (some name) ∷ effects)

  unfoldable pub approve_claim : HubInner → Text → GovernanceClaim → Text → Reply ClaimResolution
  approve_claim h claim_id claim name =
      let voted : GovernanceClaim = record claim { approved = set_insert name claim.approved } in
      let h' = record h { pending_claims = update claim_id (λ _. voted) h.pending_claims } in
      if not (is_subset voted.required voted.approved)
      then (ok (waiting (length voted.approved) (length voted.required)), h', [])
      else if not (candidate_still_live h' voted)
      then (
        err recipient_unknown,
        record h' { pending_claims = remove claim_id h'.pending_claims },
        [],
      )
      else establish h' claim_id voted

  unfoldable pub respond_claim : HubInner → ℕ → Text → Text → Bool → Reply ClaimResolution
  respond_claim h now approver_token claim_id approve = elim (get claim_id h.pending_claims) [
    | none ↦ (err bad_request, h, [])
    | some claim ↦
        if leb claim.expires_at now
        then (err bad_request, record h { pending_claims = remove claim_id h.pending_claims }, [])
        else elim (get approver_token h.token_to_name) [
          | none ↦ (err forbidden, h, [])
          | some name ↦
              if not (may_vote h claim name)
              then (err forbidden, h, [])
              else if not approve
              then reject_claim h claim_id claim
              else approve_claim h claim_id claim name
        ]
  ]

-- The operator's way out: no governor, and no transfer that could bring one back.
unfoldable pub admin_reset_governor : HubInner → HubInner × List Effect
admin_reset_governor h = (
  record h { trust = clear_pending_transfers (clear_governor h.trust) },
  store_governor none ∷ [],
)
