-- ===== src/Hub/State.antt =====
-- The state of the hub (delivery.rs, types.rs), what it says to the outside, and the small steps
-- that its handlers share. What leaves the lock comes back as a list of effects.
use simple_im.Base.{ℕ, Bool, true, false, Option, none, some, List, ltb, if◌then◌else◌, unwrap_or}
use simple_im.Base.Text.{Text, text_Eq, pair_Eq}
use simple_im.Base.Map.{Map, get}
use simple_im.Error.{Done, Result, ok, err, auth_failed, forbidden}
use simple_im.Trust.Grant.{ApproveGrantRequest}
use simple_im.Trust.Chain.{TrustChain, is_governor}
use simple_im.Registry.{Registry}
use simple_im.Rooms.{RoomStore}

pub record QueuedMessage : Type 0 where
  pub payload : List ℕ
  pub from_name : Text
  pub reason : Option Text
  pub event_type : Option Text
  pub thread_id : Option Text

pub data ConnectionStage : Type 0 where
  pending_governor pending_recipient : ConnectionStage

pub record ConnectionRequest : Type 0 where
  pub request_id : Text
  pub from_name : Text
  pub to_name : Text
  pub from_identity : Text
  pub to_identity : Text
  pub reason : Option Text
  pub stage : ConnectionStage
  pub governor_expiry : Option ℕ
  pub recipient_expiry : Option ℕ
  pub approving_governor : Option Text
  pub expires_at : ℕ

pub record DenialBlock : Type 0 where
  pub reason : Text
  pub expires_at : Option ℕ

pub data ClaimKind : Type 0 where
  election transfer : ClaimKind

pub record GovernanceClaim : Type 0 where
  pub candidate_token : Text
  pub candidate_name : Text
  pub kind : ClaimKind
  pub required : List Text
  pub approved : List Text
  pub expires_at : ℕ

-- A live channel is known by a number; a `watch` channel by its last value.
pub record ListenTokenState : Type 0 where
  pub last_active : ℕ
  pub ever_listened : Bool
  pub ever_granted : Bool
  pub name : Option Text
  pub revoked : Bool
  pub hidden : Bool
  pub sse_sender : Option ℕ
  pub notify_suppressed : Bool
  pub last_ip : Option Text
  pub last_ip_at : Option ℕ
  pub msg_id : ℕ
  pub pending_first_listen : Bool
  pub presence_push : Bool

-- A short permission to answer a sender.
pub record ReplyWindow : Type 0 where
  pub recipient : Text
  pub sender : Text
  pub expires : ℕ
  pub used : Bool

-- A message that waits for the governor's decision.
pub record MediationHold : Type 0 where
  pub mediation_id : Text
  pub from_name : Text
  pub to_name : Text
  pub from_identity : Text
  pub to_identity : Text
  pub payload : List ℕ
  pub reason : Text
  pub expires : ℕ
  pub resolved : Bool
  pub grant_id : Option Text

-- The identity of an announced participant; the `Notify` of its reader is the effect `wake`.
pub record ParticipantState : Type 0 where
  pub identity : Text

-- The broadcast channel `gov_events` is the effect `gov_event`. A settle timer is known by its name.
pub record HubInner : Type 0 where
  pub trust : TrustChain
  pub agents : Map Text ParticipantState
  pub token_to_name : Map Text Text
  pub message_queues : Map Text (List QueuedMessage)
  pub kick_pending : List Text
  pub reply_windows : List ReplyWindow
  pub mediation_holds : List MediationHold
  pub connection_requests : Map Text ConnectionRequest
  pub reply_ttl : ℕ
  pub hold_ttl : ℕ
  pub med_counter : ℕ
  pub req_counter : ℕ
  pub listen_tokens : Map Text ListenTokenState
  pub name_to_token : Map Text Text
  pub sse_connections : Map Text ℕ
  pub denial_blocks : Map (Text × Text) DenialBlock
  pub pending_claims : Map Text GovernanceClaim
  pub claim_counter : ℕ
  pub registry : Registry
  pub active_sse_connections : Map Text ℕ
  pub identities : List Text
  pub gc_ttl_unlisten : ℕ
  pub gc_ttl_no_grant : ℕ
  pub gc_registration_grace : ℕ
  pub startup_announced : Bool
  pub settle_tasks : List Text
  pub settle_window : ℕ
  pub room_store : RoomStore

-- The JSON objects that the hub writes; `serde_json` turns them into text.
pub data Notice : Type 0 where
  transfer_request : Text → Text → Notice
  election_request : Text → Text → Notice
  claim_rejected : Text → Notice
  governorship_granted : Text → Text → Notice
  grant_request : Text → Text → Option Text → Bool → Notice
  grant_request_for_governor : Text → Text → Text → Option Text → Notice
  grant_established : Text → Text → Notice
  grant_denied : Text → Text → Text → Notice
  grant_held : Text → Text → Text → Notice
  mediation : Text → Text → Text → List ℕ → Text → Option Text → Notice
  delivered : Text → Text → List ℕ → Text → Option Text → Notice
  no_grant_hint : Text → Notice
  governor_role : Notice
  concurrent_use_alert : Text → Text → Text → Notice
  attachment : Text → Text → Text → ℕ → Text → Option Text → Notice

pub data SseEvent : Type 0 where
  notify_pending : ℕ → SseEvent
  identity_persisted : SseEvent
  grant_revoked : Text → SseEvent
  welcome : Text → Option Text → Option Text → SseEvent
  sub : ℕ → SseEvent
  sim_online : SseEvent
  superseded : Text → SseEvent
  cancelled : SseEvent
  revoked : SseEvent
  presence_online : Text → SseEvent

-- What a handler does beside its answer: wake a long poll, send on a stream, tell the governor's
-- stream, write to the store, or say after a while that a participant went offline.
pub data Effect : Type 0 where
  wake : Text → Effect
  send_event : ℕ → SseEvent → Effect
  gov_event : Notice → Effect
  store_governor : Option Text → Effect
  store_grant : Text → Text → Text → Text → Text → Text → Option ℕ → Effect
  store_approved_grant : Text → Text → Text → Text → Option ℕ → ApproveGrantRequest → Effect
  delete_grant : Text → Effect
  increment_grant_usage : Text → Effect
  store_token : Text → Text → Effect
  store_denial_block : Text → Text → Text → Option ℕ → Effect
  delete_denial_block : Text → Text → Effect
  store_identity : Text → Effect
  delete_identity : Text → Effect
  delete_token : Text → Effect
  settle_offline : Text → List ℕ → ℕ → Effect
  gc_expired_attachments : ℕ → Effect
  insert_attachment : Text → Text → Text → Text → Text → List ℕ → ℕ → Effect
  delete_attachment : Text → Effect

abbrev pub is_sse_alive_in_hub : Text → Map Text ℕ → Bool
is_sse_alive_in_hub token sse_connections = ltb 0 (unwrap_or (get token sse_connections) 0)

unfoldable pub validate_governor_token : HubInner → Text → Result Done
validate_governor_token h token = elim (get token h.listen_tokens) [
  | none ↦ err auth_failed
  | some st ↦
      if st.revoked
      then err auth_failed
      else if (elim (get token h.token_to_name) [
        | none ↦ false
        | some name ↦ is_governor h.trust name
      ])
      then ok tt
      else err forbidden
]

-- `validate_governor_token(..).is_ok()`
abbrev pub holds_flag : HubInner → Text → Bool
holds_flag h token = elim (validate_governor_token h token) [ ok _ ↦ true | err _ ↦ false ]
