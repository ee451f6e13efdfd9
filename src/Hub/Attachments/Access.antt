-- ===== src/Hub/Attachments/Access.antt =====
-- delivery.rs: who gets back what was attached.
use simple_im.Base.{
  ℕ, ◌<◌, ◌+◌, ◌≡◌, ◌↔◌, ◌∙◌, ◌⊎◌, refl, sym, ap, arith, inl, inr, Bool, true, false, Option, none,
  some, List, [], ◌∷◌, if◌then◌else◌, Bool-cases, leb, ◌==◌, u64_max,
}
use simple_im.Base.Text.{Text, text_Eq, text_eq_iff, is_text_iff}
use simple_im.Base.Map.{get}
use simple_im.Error.{Result, ok, err, forbidden, Result-cases}
use simple_im.Hub.State.{ListenTokenState, HubInner, Effect, insert_attachment, Notice}
use simple_im.Hub.Attachments.{
  StoredAttachment, StoreAnswers, Attaching, AttachmentMeta, meta_of, may_attach, attach, may_fetch,
  fetch_attachment, saturated,
}

abbrev row_of : Text → Attaching → ℕ → StoredAttachment
row_of from a expires = record {
  from_identity = from;
  to_name = a.to_name;
  filename = a.filename;
  mime = a.mime;
  bytes = a.bytes;
  expires_at_secs = expires;
}

-- The row that a store holds under an identifier after a sequence of writes to an empty table.
unfoldable pub inserted : Text → List Effect → Option StoredAttachment
inserted id [] = none
inserted id (insert_attachment key from to_name filename mime bytes expires ∷ more) =
    let rest = inserted id more in
    if key == id
    then some (record {
      from_identity = from;
      to_name = to_name;
      filename = filename;
      mime = mime;
      bytes = bytes;
      expires_at_secs = expires;
    })
    else rest
inserted id (_ ∷ more) = inserted id more

abbrev expiry : ℕ → Attaching → ℕ
expiry now_secs a = saturated (now_secs + a.ttl)

abbrev answered_row : Result AttachmentMeta × HubInner × List Effect → Option StoredAttachment
answered_row (ok m, h, effects) = inserted m.id effects
answered_row (err e, h, effects) = none

row_inserted :
    (render : Notice → List ℕ) (db : StoreAnswers) (h : HubInner) (now now_secs : ℕ)
    (random : List ℕ) (from : Text) (a : Attaching) (m : AttachmentMeta) (h' : HubInner)
    (effects : List Effect)
    → attach render (some db) h now now_secs random from a ≡ (ok m, h', effects)
    → inserted m.id effects ≡ some (row_of from a (expiry now_secs a))
unfolding attach inserted
row_inserted render db h now now_secs random from a m h' effects =
    let own_id = (text_eq_iff (meta_of random a).id (meta_of random a).id).1 refl in
    elim (Result-cases (may_attach h now from a.to_name)) [
      | inr (e, q) ↦ rw (q, attach) (λ done. absurd (cc))
      | inl (name, q) ↦ elim (Bool-cases db.inserts) [
        | inr b ↦ rw (q, b, attach) (λ done. absurd (cc))
        | inl b ↦ rw (q, b, attach) (λ done. ap answered_row (sym done) ∙ rw own_id refl)
      ]
    ]

the_time : (n at : ℕ) → at < n → at < u64_max → leb (saturated n) at ≡ false
the_time n at lo hi = ground arith

-- The sender's token, or one that resolves to the name of the recipient.
abbrev pub IsParty : HubInner → Text → Attaching → Text → Type 0
IsParty k from a reader = (from ≡ reader) ⊎ (get reader k.token_to_name ≡ some a.to_name)

may_fetch_iff :
    (k : HubInner) (from : Text) (a : Attaching) (reader : Text) (expires : ℕ)
    → (may_fetch k reader (row_of from a expires) ≡ true) ↔ IsParty k from a reader
unfolding may_fetch
may_fetch_iff k from a reader expires =
    ground (arith, text_eq_iff from reader, is_text_iff (get reader k.token_to_name) a.to_name)

fetched :
    (later : StoreAnswers) (k : HubInner) (at : ℕ) (reader id : Text) (st : ListenTokenState)
    (att : StoredAttachment)
    → later.stored id ≡ some (some att)
    → leb att.expires_at_secs at ≡ false
    → get reader k.listen_tokens ≡ some st
    → st.revoked ≡ false
    → (fetch_attachment (some later) k at reader id).0
      ≡ (if may_fetch k reader att then ok (att.bytes, att.filename, att.mime) else err forbidden)
unfolding fetch_attachment
fetched later k at reader id st att stored in_time known live =
    elim (Bool-cases (may_fetch k reader att)) [
      | inl e ↦ rw (known, live, stored, in_time, e, fetch_attachment) refl
      | inr e ↦ rw (known, live, stored, in_time, e, fetch_attachment) refl
    ]

-- Exactly a party gets what was attached; anybody else is answered `forbidden`.
abbrev pub Answered : Result (List ℕ × Text × Text) → Attaching → Type 0 → Type 0
Answered answer a party =
    ((answer ≡ ok (a.bytes, a.filename, a.mime)) ↔ party)
    × ((answer ≡ ok (a.bytes, a.filename, a.mime)) ⊎ (answer ≡ err forbidden))

answered :
    {party : Type 0} (b : Bool) (a : Attaching)
    → ((b ≡ true) ↔ party)
    → Answered (if b then ok (a.bytes, a.filename, a.mime) else err forbidden) a party
answered true a h = ((λ _. h.0 refl, λ _. refl), inl refl)
answered false a h = ((λ e. absurd (cc), λ p. absurd (ground (arith, h.1 p))), inr refl)

-- A file was attached, and the store answers the row that was inserted for it. Until its time is
-- over, a live token that asks for it gets its bytes, its name and its type as they were sent
-- exactly if it is the sender's or has announced the recipient's name; any other live token is
-- answered `forbidden`.
pub attach-fetch :
    (render : Notice → List ℕ) (db : StoreAnswers) (h : HubInner) (now now_secs : ℕ)
    (random : List ℕ) (from : Text) (a : Attaching) (m : AttachmentMeta) (h' : HubInner)
    (effects : List Effect)
    → attach render (some db) h now now_secs random from a ≡ (ok m, h', effects)
    → (later : StoreAnswers) (k : HubInner) (at : ℕ) (reader : Text) (st : ListenTokenState)
    → later.stored m.id ≡ some (inserted m.id effects)
    → at < now_secs + a.ttl
    → at < u64_max
    → get reader k.listen_tokens ≡ some st
    → st.revoked ≡ false
    → Answered (fetch_attachment (some later) k at reader m.id).0 a (IsParty k from a reader)
attach-fetch render db h now now_secs random from a m h' effects done later k at reader st holds_row
      in_time in_range known live =
    let inserted_row = row_inserted render db h now now_secs random from a m h' effects done in
    let expires = expiry now_secs a in
    rw
      (fetched later k at reader m.id st (row_of from a expires) (holds_row ∙ ap some inserted_row)
        (the_time (now_secs + a.ttl) at in_time in_range) known live)
      (answered (may_fetch k reader (row_of from a expires)) a
        (may_fetch_iff k from a reader expires))
