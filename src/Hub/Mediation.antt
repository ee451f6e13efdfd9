-- ===== src/Hub/Mediation.antt =====
-- delivery.rs: the governor decides on a message that `send` has put on hold.
pub mod Laws
use simple_im.Base.{
  ℕ, ◌+◌, Bool, true, false, not, ◌&&◌, Option, none, some, List, [], ◌∷◌, ◌++◌, ltb, if◌then◌else◌,
  ◌==◌, find, update_first, unwrap_or,
}
use simple_im.Base.Text.{Text, text_Eq}
use simple_im.Base.Map.{get, contains_key}
use simple_im.Error.{Error, Done, Result, ok, err, mediation_unavailable, forbidden}
use simple_im.Trust.Chain.{
  TrustChain, consume_grant_message, grant_governor_id, grant_opens_reply_window,
}
use simple_im.Hub.State.{
  QueuedMessage, MediationHold, HubInner, Effect, increment_grant_usage, validate_governor_token,
}
use simple_im.Hub.Queue.{deposit}
use simple_im.Hub.Governance.{Reply, summon}
use simple_im.Hub.Sending.{prune_expired, open_window}

pub data MediationDecision : Type 0 where
  approve block : MediationDecision
  modify : List ℕ → MediationDecision

pub data MediationResult : Type 0 where
  delivered : Text → MediationResult
  blocked recipient_offline : MediationResult

-- The hold is known, unresolved and in time.
abbrev pub awaits : ℕ → Text → MediationHold → Bool
awaits now id m = m.mediation_id == id && not m.resolved && ltb now m.expires

abbrev pub resolve : MediationHold → MediationHold
resolve m = record m { resolved = true }

-- What is delivered: nothing, the message, or the governor's text.
abbrev pub payload_of : MediationDecision → MediationHold → Option (List ℕ)
payload_of approve m = some m.payload
payload_of block m = none
payload_of (modify payload) m = some payload

abbrev pub mediated : MediationHold → List ℕ → QueuedMessage
mediated m payload = record {
  payload = payload;
  from_name = m.from_name;
  reason = some m.reason;
  event_type = none;
  thread_id = none;
}

abbrev usage_effects : Option Text → List Effect
usage_effects none = []
usage_effects (some grant_id) = increment_grant_usage grant_id ∷ []

unfoldable pub hand_over :
    HubInner → ℕ → MediationHold → List ℕ → Bool → Option Text → Reply MediationResult
hand_over h now m payload opens_reply_window consumed =
    if not (contains_key m.to_name h.agents)
    then (ok recipient_offline, h, [])
    else (let told = deposit h m.to_name (mediated m payload) in
        let opened =
          if opens_reply_window then open_window told now m.to_name m.from_name else told in
        let (effects, h') = summon opened m.to_name in
        (ok (delivered m.to_name), h', usage_effects consumed ++ effects))

-- The hold is resolved, whatever the decision.
unfoldable pub decide :
    HubInner
    → ℕ
    → ℕ
    → Text
    → MediationHold
    → MediationDecision
    → Bool
    → Option Text
    → Reply MediationResult
decide h now replied_at id m decision opens_reply_window consumed =
    let marked = record h {
      mediation_holds = update_first (awaits now id) resolve h.mediation_holds;
    } in
    elim (payload_of decision m) [
      | none ↦ (ok blocked, marked, [])
      | some payload ↦ hand_over marked replied_at m payload opens_reply_window consumed
    ]

-- A message that the governor lets through is charged to its grant.
abbrev pub charge : HubInner → Text → MediationDecision → HubInner
charge h grant_id block = h
charge h grant_id _ = record h { trust = consume_grant_message h.trust grant_id }

abbrev pub charged_to : Text → MediationDecision → Option Text
charged_to grant_id block = none
charged_to grant_id _ = some grant_id

-- The decision is the governor's who made the grant.
unfoldable pub decide_for :
    HubInner
    → ℕ
    → ℕ
    → Text
    → Text
    → MediationHold
    → MediationDecision
    → Option Text
    → Reply MediationResult
decide_for h now replied_at token id m decision none =
    decide h now replied_at id m decision true none
decide_for h now replied_at token id m decision (some grant_id) =
    elim (grant_governor_id h.trust grant_id) [
      | none ↦ (err mediation_unavailable, h, [])
      | some expected ↦
          if not (unwrap_or (get token h.token_to_name) [] == expected)
          then (err forbidden, h, [])
          else (let h' = charge h grant_id decision in
              decide h' now replied_at id m decision
                (unwrap_or (grant_opens_reply_window h'.trust grant_id) false)
                (charged_to grant_id decision))
    ]

unfoldable pub resolve_mediation :
    HubInner → ℕ → ℕ → ℕ → Text → Text → MediationDecision → Reply MediationResult
resolve_mediation h pruned_at now replied_at token id decision =
    let pruned = prune_expired h pruned_at in
    elim (validate_governor_token pruned token) [
      | err e ↦ (err e, pruned, [])
      | ok _ ↦ elim (find (awaits now id) pruned.mediation_holds) [
        | none ↦ (err mediation_unavailable, pruned, [])
        | some m ↦ decide_for pruned now replied_at token id m decision m.grant_id
      ]
    ]
