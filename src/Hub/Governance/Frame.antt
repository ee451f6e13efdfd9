-- ===== src/Hub/Governance/Frame.antt =====
-- Depositing a message and notifying its reader (delivery.rs) touch queues, marks and tokens only.
use simple_im.Base.{ℕ, ◌≡◌, ◌∙◌, List, [], ◌∷◌, arith}
use simple_im.Base.Text.{Text, text_Eq, codes}
use simple_im.Hub.State.{QueuedMessage, HubInner, Notice, election_request}
use simple_im.Hub.Queue.{deposit, take_notify}
use simple_im.Hub.Governance.{summon, notify_voters, system_message}

pub record Frame (h h' : HubInner) : Type 0 where
  pub trust : h'.trust ≡ h.trust
  pub agents : h'.agents ≡ h.agents
  pub token_to_name : h'.token_to_name ≡ h.token_to_name
  pub connection_requests : h'.connection_requests ≡ h.connection_requests
  pub req_counter : h'.req_counter ≡ h.req_counter
  pub denial_blocks : h'.denial_blocks ≡ h.denial_blocks
  pub pending_claims : h'.pending_claims ≡ h.pending_claims
  pub claim_counter : h'.claim_counter ≡ h.claim_counter

Frame-trans : (f g h : HubInner) → Frame f g → Frame g h → Frame f h
Frame-trans f g h p q = record {
  trust = q.trust ∙ p.trust;
  agents = q.agents ∙ p.agents;
  token_to_name = q.token_to_name ∙ p.token_to_name;
  connection_requests = q.connection_requests ∙ p.connection_requests;
  req_counter = q.req_counter ∙ p.req_counter;
  denial_blocks = q.denial_blocks ∙ p.denial_blocks;
  pending_claims = q.pending_claims ∙ p.pending_claims;
  claim_counter = q.claim_counter ∙ p.claim_counter;
}

pub deposit-Frame : (h : HubInner) (name : Text) (m : QueuedMessage) → Frame h (deposit h name m)
unfolding deposit
deposit-Frame h name m = ground arith

pub take_notify-Frame : (h : HubInner) (name : Text) → Frame h (take_notify h name).1
unfolding take_notify
take_notify-Frame h name = ground arith

pub summon-Frame : (h : HubInner) (name : Text) → Frame h (summon h name).1
unfolding summon
summon-Frame h name = take_notify-Frame h name

-- A deposit and its notification.
pub told-Frame :
    (h : HubInner) (name : Text) (m : QueuedMessage) → Frame h (summon (deposit h name m) name).1
told-Frame h name m =
    Frame-trans h (deposit h name m) (summon (deposit h name m) name).1 (deposit-Frame h name m)
      (summon-Frame (deposit h name m) name)

pub notify_voters-Frame :
    (render : Notice → List ℕ) (h : HubInner) (voters : List Text) (claim_id candidate : Text)
    → Frame h (notify_voters render h voters claim_id candidate).1
unfolding notify_voters
notify_voters-Frame render h [] claim_id candidate = ground arith
notify_voters-Frame render h (voter ∷ voters) claim_id candidate =
    let m = system_message (render (election_request claim_id candidate)) (codes "governance") in
    let h' = (summon (deposit h voter m) voter).1 in
    Frame-trans h h' (notify_voters render h' voters claim_id candidate).1 (told-Frame h voter m)
      (notify_voters-Frame render h' voters claim_id candidate)
