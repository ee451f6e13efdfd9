-- ===== src/Hub/Attachments/Laws.antt =====
-- delivery.rs: when a file is attached, and what the recipient is told.
use mathlib.Core.Path.{subst}
use simple_im.Base.{
  ℕ, ◌≡◌, ◌≢◌, refl, sym, ◌∙◌, inl, inr, true, false, none, some, List, [], ◌∷◌, ◌++◌,
  if◌then◌else◌, ◌==◌, Bool-cases, Option-cases, length,
}
use simple_im.Base.Text.{Text, text_Eq, codes}
use simple_im.Base.Map.{get}
use simple_im.Error.{
  Error, ok, err, auth_failed, token_revoked, announce_required, recipient_unknown, no_grant,
  Result-cases,
}
use simple_im.Trust.Grant.{GrantRef}
use simple_im.Trust.Check.{check_grant_directed_with_names}
use simple_im.Hub.State.{ListenTokenState, ParticipantState, HubInner, Notice, attachment}
use simple_im.Hub.Queue.{queue_of, deposit}
use simple_im.Hub.Queue.Fifo.{queue_of-deposit}
use simple_im.Hub.Governance.{summon}
use simple_im.Hub.Sending.Laws.{queue_of-summon}
use simple_im.Hub.Attachments.{
  StoreAnswers, Attaching, AttachmentMeta, meta_of, may_attach, attached_message, attach,
}

-- A live token with a name, a known recipient, and a grant that the check returns for the two.
abbrev pub Allowed : HubInner → ℕ → Text → Text → Text → Type 0
Allowed h now from to_name from_name =
    (st : ListenTokenState) × (to : ParticipantState) × (ref : GrantRef) × (get from h.listen_tokens
      ≡ some st)
    × (st.revoked ≡ false)
    × (get from h.token_to_name ≡ some from_name)
    × (get to_name h.agents ≡ some to)
    × (check_grant_directed_with_names h.trust now from to.identity (some from_name) (some to_name)
        ≡ ok ref)

ok_injective {ℓ} : {A : Type ℓ} {x y : A} → ok x ≡ ok y → x ≡ y
ok_injective e = cc

refused :
    (h : HubInner) (now : ℕ) (from to_name from_name : Text) (e : Error)
    → may_attach h now from to_name ≡ err e
    → may_attach h now from to_name ≢ ok from_name
refused h now from to_name from_name e p q = cc

Allowed-same :
    (h : HubInner) (now : ℕ) (from to_name name from_name : Text)
    → may_attach h now from to_name ≡ ok name
    → may_attach h now from to_name ≡ ok from_name
    → Allowed h now from to_name name
    → Allowed h now from to_name from_name
Allowed-same h now from to_name name from_name p q =
    subst (λ x. Allowed h now from to_name x) (ok_injective (sym p ∙ q))

may_attach-Allowed :
    (h : HubInner) (now : ℕ) (from to_name from_name : Text)
    → may_attach h now from to_name ≡ ok from_name
    → Allowed h now from to_name from_name
unfolding may_attach
may_attach-Allowed h now from to_name from_name q = elim (Option-cases (get from h.listen_tokens)) [
  | inl e ↦ absurd (refused h now from to_name from_name auth_failed (rw (e, may_attach) refl) q)
  | inr (st, e) ↦ elim (Bool-cases st.revoked) [
    | inl r ↦
        absurd (refused h now from to_name from_name token_revoked (rw (e, r, may_attach) refl) q)
    | inr r ↦ elim (Option-cases (get from h.token_to_name)) [
      | inl n ↦
          absurd (
            refused h now from to_name from_name announce_required (rw (e, r, n, may_attach) refl)
              q)
      | inr (name, n) ↦ elim (Option-cases (get to_name h.agents)) [
        | inl a ↦ absurd (
            refused h now from to_name from_name recipient_unknown
              (rw (e, r, n, a, may_attach) refl) q)
        | inr (to, a) ↦
            elim (Result-cases (
              check_grant_directed_with_names h.trust now from to.identity (some name)
                (some to_name))) [
                  | inr (x, c) ↦ absurd (
                      refused h now from to_name from_name no_grant
                        (rw (e, r, n, a, c, may_attach) refl) q)
                  | inl (ref, c) ↦
                      Allowed-same h now from to_name name from_name
                        (rw (e, r, n, a, c, may_attach) refl) q (st, to, ref, e, r, n, a, c)
                ]
      ]
    ]
  ]
]

-- The recipient's queue has the notice at its end, and every other queue is as it was.
abbrev pub Notified : (Notice → List ℕ) → HubInner → Attaching → Text → Text → HubInner → Type 0
Notified render h a id from_name h' =
    (n : Text)
    → queue_of h' n ≡ (
        if a.to_name == n
        then queue_of h a.to_name
          ++ record {
            payload = render (attachment id a.filename a.mime (length a.bytes) from_name a.note);
            from_name = from_name;
            reason = none;
            event_type = some (codes "attachment");
            thread_id = none;
          }
            ∷ []
        else queue_of h n)

notified :
    (render : Notice → List ℕ) (g : HubInner) (random : List ℕ) (from_name : Text) (a : Attaching)
    (m : AttachmentMeta)
    → meta_of random a ≡ m
    → Notified render g a m.id from_name
        (summon
          (deposit g a.to_name (attached_message render (meta_of random a) from_name a.note))
          a.to_name).1
unfolding meta_of
notified render g random from_name a m p =
    let message = attached_message render (meta_of random a) from_name a.note in
    subst
      (λ x. Notified render g a x.id from_name (summon (deposit g a.to_name message) a.to_name).1) p
      (λ n. queue_of-summon _ a.to_name n ∙ queue_of-deposit g a.to_name n message)

-- A file that is attached came from a live token with a name, for a known recipient, under a grant
-- that the check returned for the two, and the store took it. The recipient is told the file's
-- identifier, name, type and size, but not its bytes, at the end of the queue that the hub has for
-- the recipient by then, and no other queue changes.
pub attach_lem :
    (render : Notice → List ℕ) (db : StoreAnswers) (h : HubInner) (now now_secs : ℕ)
    (random : List ℕ) (from : Text) (a : Attaching) (m : AttachmentMeta)
    → (attach render (some db) h now now_secs random from a).0 ≡ ok m
    → (from_name : Text) × Allowed h now from a.to_name from_name
      × (db.inserts ≡ true)
      × Notified render
          (db.meanwhile h)
          a
          m.id
          from_name
          (attach render (some db) h now now_secs random from a).1
unfolding attach meta_of
attach_lem render db h now now_secs random from a m =
    elim (Result-cases (may_attach h now from a.to_name)) [
      | inr (e, q) ↦ rw (q, attach) (λ done. absurd (cc))
      | inl (from_name, q) ↦ elim (Bool-cases db.inserts) [
        | inr b ↦ rw (q, b, attach) (λ done. absurd (cc))
        | inl b ↦
            rw (q, b, attach)
              (λ done. (
                from_name,
                may_attach-Allowed h now from a.to_name from_name q,
                refl,
                notified render (db.meanwhile h) random from_name a m (ok_injective done),
              ))
      ]
    ]
