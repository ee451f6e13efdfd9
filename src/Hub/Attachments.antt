-- ===== src/Hub/Attachments.antt =====
-- delivery.rs: attachments. The store is the database's: what it answers to the calls of one request
-- is the record `StoreAnswers`.
pub mod Access
pub mod Laws
use simple_im.Base.{
  ℕ, ◌+◌, Bool, not, ◌||◌, Option, none, some, List, [], ◌∷◌, ◌++◌, if◌then◌else◌, leb, length,
  u64_max, ◌==◌,
}
use simple_im.Base.Text.{Text, text_Eq, codes, is_text}
use simple_im.Base.Map.{get}
use simple_im.Error.{
  Result, ok, err, auth_failed, token_revoked, announce_required, recipient_unknown, no_grant,
  internal, forbidden, attachment_not_found,
}
use simple_im.Trust.Transfer.{hex_text}
use simple_im.Trust.Check.{check_grant_directed_with_names}
use simple_im.Hub.State.{
  QueuedMessage, HubInner, Notice, attachment, Effect, gc_expired_attachments, insert_attachment,
  delete_attachment,
}
use simple_im.Hub.Queue.{deposit}
use simple_im.Hub.Governance.{summon}

-- `StoredAttachment` of persistence.rs
pub record StoredAttachment : Type 0 where
  pub from_identity : Text
  pub to_name : Text
  pub filename : Text
  pub mime : Text
  pub bytes : List ℕ
  pub expires_at_secs : ℕ

-- Whether the insertion succeeds; what is stored under an identifier, `none` for a failure; and what
-- other calls do to the hub while the attachment is stored.
pub record StoreAnswers : Type 0 where
  pub inserts : Bool
  pub stored : Text → Option (Option StoredAttachment)
  pub meanwhile : HubInner → HubInner

-- What is attached, beside the sender's token.
pub record Attaching : Type 0 where
  pub to_name : Text
  pub filename : Text
  pub mime : Text
  pub bytes : List ℕ
  pub note : Option Text
  pub ttl : ℕ

pub record AttachmentMeta : Type 0 where
  pub id : Text
  pub filename : Text
  pub mime : Text
  pub size : ℕ

-- The first lock: the name of the sender, if a grant covers the sending.
unfoldable pub may_attach : HubInner → ℕ → Text → Text → Result Text
unfolding check_grant_directed_with_names
may_attach h now from_token to_name = elim (get from_token h.listen_tokens) [
  | none ↦ err auth_failed
  | some st ↦ if st.revoked then err token_revoked else elim (get from_token h.token_to_name) [
    | none ↦ err announce_required
    | some from_name ↦ elim (get to_name h.agents) [
      | none ↦ err recipient_unknown
      | some s ↦
          elim (check_grant_directed_with_names h.trust now from_token s.identity (some from_name)
            (some to_name)) [ ok _ ↦ ok from_name | err _ ↦ err no_grant ]
    ]
  ]
]

abbrev saturated : ℕ → ℕ
saturated n = if leb n u64_max then n else u64_max

unfoldable pub meta_of : List ℕ → Attaching → AttachmentMeta
unfolding hex_text
meta_of random a = record {
  id = codes "att-" ++ hex_text random;
  filename = a.filename;
  mime = a.mime;
  size = length a.bytes;
}

abbrev attached_message : (Notice → List ℕ) → AttachmentMeta → Text → Option Text → QueuedMessage
attached_message render m from_name note = record {
  payload = render (attachment m.id m.filename m.mime m.size from_name note);
  from_name = from_name;
  reason = none;
  event_type = some (codes "attachment");
  thread_id = none;
}

-- The random bytes of the identifier are an argument, as are the two clocks.
unfoldable pub attach :
    (Notice → List ℕ)
    → Option StoreAnswers
    → HubInner
    → ℕ
    → ℕ
    → List ℕ
    → Text
    → Attaching
    → Result AttachmentMeta × HubInner × List Effect
unfolding may_attach meta_of deposit summon
attach render store h now now_secs random from_token a = elim store [
  | none ↦ (err internal, h, [])
  | some db ↦ elim (may_attach h now from_token a.to_name) [
    | err e ↦ (err e, h, [])
    | ok from_name ↦
        let m = meta_of random a in
        let stored =
          gc_expired_attachments now_secs
          ∷ insert_attachment m.id from_token a.to_name a.filename a.mime a.bytes
              (saturated (now_secs + a.ttl))
          ∷ [] in
        if not db.inserts
        then (err internal, db.meanwhile h, stored)
        else (let told =
              deposit (db.meanwhile h) a.to_name (attached_message render m from_name a.note) in
            let (effects, h') = summon told a.to_name in (ok m, h', stored ++ effects))
  ]
]

-- For the sender's token, or the token that has announced the recipient's name.
unfoldable may_fetch : HubInner → Text → StoredAttachment → Bool
may_fetch h token att =
    att.from_identity == token || is_text (get token h.token_to_name) att.to_name

-- The hub is only read.
unfoldable pub fetch_attachment :
    Option StoreAnswers → HubInner → ℕ → Text → Text → Result (List ℕ × Text × Text) × List Effect
unfolding may_fetch
fetch_attachment store h now_secs token attachment_id = elim store [
  | none ↦ (err internal, [])
  | some db ↦ elim (get token h.listen_tokens) [
    | none ↦ (err auth_failed, [])
    | some st ↦ if st.revoked then (err token_revoked, []) else elim (db.stored attachment_id) [
      | none ↦ (err internal, gc_expired_attachments now_secs ∷ [])
      | some none ↦ (err attachment_not_found, gc_expired_attachments now_secs ∷ [])
      | some (some att) ↦
          if leb att.expires_at_secs now_secs
          then (
            err attachment_not_found,
            gc_expired_attachments now_secs ∷ delete_attachment attachment_id ∷ [],
          )
          else if may_fetch h token att
          then (ok (att.bytes, att.filename, att.mime), gc_expired_attachments now_secs ∷ [])
          else (err forbidden, gc_expired_attachments now_secs ∷ [])
    ]
  ]
]
