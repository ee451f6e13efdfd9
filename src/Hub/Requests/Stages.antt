-- ===== src/Hub/Requests/Stages.antt =====
-- What becomes of a held request (delivery.rs) when nobody governs.
use simple_im.Base.{
  ℕ, ◌≡◌, refl, ap, ◌∙◌, false, not, ◌&&◌, Option, none, some, List, [], Bool-cases, Option-cases,
  inl, inr,
}
use simple_im.Base.Text.{Text, text_Eq, text_eq_self, codes}
use simple_im.Base.Map.{get, get-update}
use simple_im.Error.{ok, err, forbidden}
use simple_im.Trust.Chain.{is_governor}
use simple_im.Hub.State.{
  ConnectionRequest, pending_governor, HubInner, Notice, grant_held, holds_flag,
  validate_governor_token,
}
use simple_im.Hub.Governance.{system_message}
use simple_im.Hub.Governance.Frame.{told-Frame}
use simple_im.Hub.Requests.{put_request}
use simple_im.Hub.Requests.Decide.{
  is_recipient, approve_at, approve_grant_request, hold_grant_request,
}

no_governor-holds_flag :
    (h : HubInner) (token : Text) → h.trust.governor_identity ≡ none → holds_flag h token ≡ false
unfolding validate_governor_token is_governor
no_governor-holds_flag h token e = elim (Option-cases (get token h.listen_tokens)) [
  | inl l ↦ rw (holds_flag, validate_governor_token, l) refl
  | inr (st, l) ↦ elim (Bool-cases st.revoked) [
    | inl r ↦ rw (holds_flag, validate_governor_token, l, r) refl
    | inr r ↦ elim (Option-cases (get token h.token_to_name)) [
      | inl n ↦ rw (holds_flag, validate_governor_token, l, r, n) refl
      | inr (name, n) ↦ rw (holds_flag, validate_governor_token, l, r, n, e) refl
    ]
  ]
]

module _ (render : Notice → List ℕ) where
  hold_lem :
      (h : HubInner) (token request_id reason : Text) (req : ConnectionRequest)
      → get request_id h.connection_requests ≡ some req
      → (hold_grant_request render h token request_id reason).0 ≡ ok tt
      → ((hold_grant_request render h token request_id reason).1.trust ≡ h.trust)
        × (get request_id
              (hold_grant_request render h token request_id reason).1.connection_requests
            ≡ some (record req { stage = pending_governor }))
  unfolding hold_grant_request
  hold_lem h token request_id reason req e =
      elim (Bool-cases (not (holds_flag h token) && not (is_recipient h token req))) [
        | inl refused ↦ rw (e, refused, hold_grant_request) (λ q. cc)
        | inr allowed ↦
            let held = put_request h request_id λ r. record r { stage = pending_governor } in
            let f = told-Frame held req.from_name (
              system_message (render (grant_held request_id req.to_name reason))
                (codes "grant_held")) in
            rw (e, allowed, hold_grant_request)
              (λ q. (
                f.trust,
                ap (get request_id) f.connection_requests
                    ∙ get-update request_id request_id (λ r. record r { stage = pending_governor })
                        h.connection_requests
                    ∙ rw (text_eq_self request_id, e) refl,
              ))
      ]

  -- When nobody governs, holding a request leaves it where no approval reaches it: after a hold
  -- that succeeds, `approve_grant_request` answers `forbidden` to every token, the recipient's
  -- included, and changes nothing.
  pub held_strands :
      (h : HubInner) (token request_id reason : Text) (req : ConnectionRequest) (now : ℕ)
      (approver : Text) (expiry : Option ℕ)
      → h.trust.governor_identity ≡ none
      → get request_id h.connection_requests ≡ some req
      → (hold_grant_request render h token request_id reason).0 ≡ ok tt
      → approve_grant_request render
          (hold_grant_request render h token request_id reason).1
          now
          approver
          request_id
          expiry
        ≡ (err forbidden, (hold_grant_request render h token request_id reason).1, [])
  unfolding approve_grant_request approve_at
  held_strands h token request_id reason req now approver expiry none_governs e q =
      let (same, held) = hold_lem h token request_id reason req e q in
      let h' = (hold_grant_request render h token request_id reason).1 in
      rw
        (
          approve_grant_request,
          held,
          approve_at,
          no_governor-holds_flag h' approver (ap (λ t. t.governor_identity) same ∙ none_governs),
        )
        refl
