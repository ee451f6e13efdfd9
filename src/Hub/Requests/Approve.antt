-- ===== src/Hub/Requests/Approve.antt =====
-- Who makes a grant out of a request (delivery.rs), and which grant it is.
use mathlib.Core.Path.{subst}
use simple_im.Base.{
  ℕ, ◌+◌, ◌≡◌, ◌≢◌, refl, sym, ap, ◌∙◌, ◌⊎◌, inl, inr, Bool, true, false, not, ◌&&◌, ◌||◌, Option,
  none, some, leb, List, [], ◌∷◌, ◌++◌, arith, unwrap_or, wrap64, Bool-cases, Option-cases,
}
use simple_im.Base.Text.{Text, text_Eq, text_eq, text_eq_iff, codes}
use simple_im.Base.Map.{get}
use simple_im.Error.{ok}
use simple_im.Trust.Grant.{Grant, GrantRef}
use simple_im.Trust.Chain.{
  TrustChain, id_text, new_grant, expires_at, approve_grant_req, create_consent_grant,
  recipient_consent,
}
use simple_im.Trust.Check.{check_grant_directed_with_names}
use simple_im.Trust.Access.{Running, reaches}
use simple_im.Hub.State.{
  ConnectionRequest, ConnectionStage, pending_governor, pending_recipient, HubInner, Notice,
  grant_request, grant_established, holds_flag,
}
use simple_im.Hub.Queue.{deposit}
use simple_im.Hub.Governance.{Reply, system_message, grant_request_timeout}
use simple_im.Hub.Governance.Frame.{Frame, deposit-Frame, take_notify-Frame}
use simple_im.Hub.Requests.{ApproveStatus, established, put_request, nudge}
use simple_im.Hub.Requests.Decide.{
  is_recipient, grant_expiry, named_request, make_grant, pass_on, conclude, settle, approve_at,
  approve_grant_request,
}

both_not : (a b : Bool) → (a || b) ≡ false → (not a && not b) ≡ true
both_not false false p = refl
both_not false true p = ground arith
both_not true b p = ground arith

refused_neither : (a b : Bool) → (a || b) ≡ true → (not a && not b) ≡ false
refused_neither true b p = refl
refused_neither false b p = rw p refl

-- The grant that a request leads to.
abbrev pub made : TrustChain → ℕ → Text → ConnectionRequest → Option ℕ → Grant
made t now gov req expiry =
    new_grant (id_text (codes "grant") (wrap64 (t.counter + 1))) gov req.from_identity
      req.to_identity (expires_at now (grant_expiry req.governor_expiry expiry)) (named_request req)

-- The first term is over no later than the second.
abbrev pub ends_by : Option ℕ → Option ℕ → Bool
ends_by t none = true
ends_by none (some b) = false
ends_by (some t) (some b) = leb t b

-- The shorter of two terms, of which either may be missing: it is one of them, and is over no later
-- than either.
abbrev pub IsShorter : Option ℕ → Option ℕ → Option ℕ → Type 0
IsShorter a b t = (ends_by t a ≡ true) × (ends_by t b ≡ true) × ((t ≡ a) ⊎ (t ≡ b))

grant_expiry-IsShorter : (a b : Option ℕ) → IsShorter a b (grant_expiry a b)
unfolding grant_expiry
grant_expiry-IsShorter none none = (refl, refl, inl refl)
grant_expiry-IsShorter (some g) none = (ground arith, refl, inl refl)
grant_expiry-IsShorter none (some r) = (refl, ground arith, inr refl)
grant_expiry-IsShorter (some g) (some r) = (ground arith, ground arith, ground arith)

-- The grant of a request for a term.
abbrev pub lasting : TrustChain → ℕ → Text → ConnectionRequest → Option ℕ → Grant
lasting t now gov req term =
    new_grant (id_text (codes "grant") (wrap64 (t.counter + 1))) gov req.from_identity
      req.to_identity (expires_at now term) (named_request req)

make_grant_lem :
    (t : TrustChain) (now : ℕ) (gov : Text) (req : ConnectionRequest) (expiry : Option ℕ)
    → ((make_grant t now gov req (grant_expiry req.governor_expiry expiry)).1.grants
        ≡ t.grants ++ made t now gov req expiry ∷ [])
      × ((make_grant t now gov req (grant_expiry req.governor_expiry expiry)).1.governor_identity
          ≡ t.governor_identity)
      × ((id : Text) × ((make_grant t now gov req (grant_expiry req.governor_expiry expiry)).0
            ≡ ok id))
unfolding make_grant approve_grant_req create_consent_grant
make_grant_lem t now gov req expiry = elim (Bool-cases (text_eq gov recipient_consent)) [
  | inl e ↦ rw e (
    ap
        (λ g.
          t.grants
          ++ new_grant (id_text (codes "grant") (wrap64 (t.counter + 1))) g req.from_identity
              req.to_identity (expires_at now (grant_expiry req.governor_expiry expiry))
              (named_request req)
            ∷ [])
        (sym ((text_eq_iff gov recipient_consent).0 e)),
    refl,
    (id_text (codes "grant") (wrap64 (t.counter + 1)), refl),
  )
  | inr e ↦ rw e (refl, refl, (id_text (codes "grant") (wrap64 (t.counter + 1)), refl))
]

nudge-Frame : (h : HubInner) (name : Text) → Frame h (nudge h name).1
unfolding nudge
nudge-Frame h name = take_notify-Frame h name

-- What an approval does, with the term as the code computes it.
abbrev Computed : HubInner → ℕ → Text → Text → Option ℕ → Reply ApproveStatus → Type 0
Computed h now token request_id expiry r =
    ((r.1.trust ≡ h.trust) × (r.0 ≢ ok established))
    ⊎ ((req : ConnectionRequest) × (gov : Text) × (get request_id h.connection_requests ≡ some req)
        × (req.stage ≡ pending_recipient)
        × ((holds_flag h token || is_recipient h token req) ≡ true)
        × (req.approving_governor ≡ some gov)
        × (r.0 ≡ ok established)
        × (r.1.trust.grants ≡ h.trust.grants ++ made h.trust now gov req expiry ∷ [])
        × (r.1.trust.governor_identity ≡ h.trust.governor_identity))

-- What an approval may do: nothing to the trust chain; or make the grant of a request that waited
-- for its recipient, on the word of the governor or of that recipient, for the shorter term.
abbrev pub Outcome : HubInner → ℕ → Text → Text → Option ℕ → Reply ApproveStatus → Type 0
Outcome h now token request_id expiry r =
    ((r.1.trust ≡ h.trust) × (r.0 ≢ ok established))
    ⊎ ((req : ConnectionRequest) × (gov : Text) × (term : Option ℕ) × (get request_id
            h.connection_requests
          ≡ some req)
        × (req.stage ≡ pending_recipient)
        × ((holds_flag h token || is_recipient h token req) ≡ true)
        × (req.approving_governor ≡ some gov)
        × (r.0 ≡ ok established)
        × IsShorter req.governor_expiry expiry term
        × (r.1.trust.grants ≡ h.trust.grants ++ lasting h.trust now gov req term ∷ [])
        × (r.1.trust.governor_identity ≡ h.trust.governor_identity))

module _ (render : Notice → List ℕ) where
  pass_on-trust :
      (h : HubInner) (now : ℕ) (request_id approver : Text) (req : ConnectionRequest)
      (expiry : Option ℕ)
      → ((pass_on render h now request_id approver req expiry).1.trust ≡ h.trust)
        × ((pass_on render h now request_id approver req expiry).0 ≢ ok established)
  unfolding pass_on
  pass_on-trust h now request_id approver req expiry =
      let passed = put_request h request_id λ r. record r {
        governor_expiry = expiry;
        approving_governor = some approver;
        stage = pending_recipient;
        expires_at = now + grant_request_timeout;
      } in
      let m =
        system_message (render (grant_request request_id req.from_name req.reason true))
          (codes "grant_request") in
      (
        (nudge-Frame (deposit passed req.to_name m) req.to_name).trust
            ∙ (deposit-Frame passed req.to_name m).trust,
        λ e. cc,
      )

  conclude-trust :
      (h : HubInner) (request_id gov : Text) (req : ConnectionRequest) (grant_id : Text)
      → ((conclude render h request_id gov req grant_id).1.trust ≡ h.trust)
        × ((conclude render h request_id gov req grant_id).0 ≡ ok established)
  unfolding conclude
  conclude-trust h request_id gov req grant_id =
      let m =
        system_message (render (grant_established request_id req.to_name))
          (codes "grant_established") in
      (
        (take_notify-Frame (deposit h req.from_name m) req.from_name).trust
            ∙ (deposit-Frame h req.from_name m).trust,
        refl,
      )

  -- The grant is made, and the request is closed.
  Settled : HubInner → ℕ → ConnectionRequest → Option ℕ → Reply ApproveStatus → Type 0
  Settled h now req expiry r =
      ((r.1.trust ≡ h.trust) × (r.0 ≢ ok established))
      ⊎ ((gov : Text) × (req.approving_governor ≡ some gov)
          × (r.0 ≡ ok established)
          × (r.1.trust.grants ≡ h.trust.grants ++ made h.trust now gov req expiry ∷ [])
          × (r.1.trust.governor_identity ≡ h.trust.governor_identity))

  settle-Settled :
      (h : HubInner) (now : ℕ) (request_id : Text) (req : ConnectionRequest) (expiry : Option ℕ)
      → Settled h now req expiry (settle render h now request_id req expiry)
  unfolding settle Settled
  settle-Settled h now request_id req expiry = elim (Option-cases req.approving_governor) [
    | inl none_yet ↦ rw (none_yet, settle) (inl (refl, λ e. cc))
    | inr (gov, e) ↦
        let (grants, governor, (id, q)) = make_grant_lem h.trust now gov req expiry in
        let t' = (make_grant h.trust now gov req (grant_expiry req.governor_expiry expiry)).1 in
        let noted = put_request h request_id λ r. record r { recipient_expiry = expiry } in
        let (same, est) = conclude-trust (record noted { trust = t' }) request_id gov req id in
        rw (e, q, settle)
          (inr (
            gov,
            refl,
            est,
            ap (λ t. t.grants) same ∙ grants,
            ap (λ t. t.governor_identity) same ∙ governor,
          ))
  ]

  at_stage :
      (h : HubInner) (now : ℕ) (token request_id : Text) (expiry : Option ℕ)
      (req : ConnectionRequest)
      → get request_id h.connection_requests ≡ some req
      → (stage : ConnectionStage) → req.stage ≡ stage
      → approve_grant_request render h now token request_id expiry
        ≡ approve_at render h now token request_id req expiry stage
  unfolding approve_grant_request
  at_stage h now token request_id expiry req e stage s =
      rw (e, approve_grant_request) (ap (approve_at render h now token request_id req expiry) s)

  stage_lem :
      (h : HubInner) (now : ℕ) (token request_id : Text) (expiry : Option ℕ)
      (req : ConnectionRequest)
      → get request_id h.connection_requests ≡ some req
      → (stage : ConnectionStage) → req.stage ≡ stage
      → Computed h now token request_id expiry
          (approve_at render h now token request_id req expiry stage)
  unfolding approve_at Settled
  stage_lem h now token request_id expiry req e pending_governor s =
      elim (Bool-cases (holds_flag h token)) [
        | inr no_flag ↦ rw (no_flag, approve_at) (inl (refl, λ q. cc))
        | inl flag ↦
            rw (flag, approve_at)
              (inl (
                pass_on-trust h now request_id (unwrap_or (get token h.token_to_name) token) req
                  expiry))
      ]
  stage_lem h now token request_id expiry req e pending_recipient s =
      elim (Bool-cases (holds_flag h token || is_recipient h token req)) [
        | inr neither ↦ rw (both_not _ _ neither, approve_at) (inl (refl, λ q. cc))
        | inl allowed ↦
            rw (refused_neither _ _ allowed, approve_at)
              (elim (settle-Settled h now request_id req expiry) [
                | inl same ↦ inl same
                | inr (gov, a, est, grants, governor) ↦
                    inr (req, gov, e, s, allowed, a, est, grants, governor)
              ])
      ]

  approve-Computed :
      (h : HubInner) (now : ℕ) (token request_id : Text) (expiry : Option ℕ)
      → Computed h now token request_id expiry
          (approve_grant_request render h now token request_id expiry)
  unfolding approve_grant_request
  approve-Computed h now token request_id expiry =
      elim (Option-cases (get request_id h.connection_requests)) [
        | inl e ↦ rw (e, approve_grant_request) (inl (refl, λ q. cc))
        | inr (req, e) ↦
            rw (at_stage h now token request_id expiry req e req.stage refl)
              (stage_lem h now token request_id expiry req e req.stage refl)
      ]

  -- A call of `approve_grant_request` that answers `established` found the request waiting for
  -- its recipient, with an approving governor on it, and was made by the governor or by that
  -- recipient; it appends exactly one grant between the two parties, whose term is the shorter of
  -- the governor's and the recipient's, where a missing one counts as endless. Every other answer leaves the trust chain as it was.
  pub approve_lem :
      (h : HubInner) (now : ℕ) (token request_id : Text) (expiry : Option ℕ)
      → Outcome h now token request_id expiry
          (approve_grant_request render h now token request_id expiry)
  approve_lem h now token request_id expiry =
      elim (approve-Computed h now token request_id expiry) [
        | inl same ↦ inl same
        | inr (req, gov, e, stage, allowed, approved, est, grants, governor) ↦ inr (
          req,
          gov,
          grant_expiry req.governor_expiry expiry,
          e,
          stage,
          allowed,
          approved,
          est,
          grant_expiry-IsShorter req.governor_expiry expiry,
          grants,
          governor,
        )
      ]

  -- Once `approve_grant_request` answers `established`, the requester reaches the recipient by
  -- their identities and names, until the shorter of the two terms runs out.
  pub established_reaches :
      (h : HubInner) (now : ℕ) (token request_id : Text) (expiry : Option ℕ)
      (req : ConnectionRequest) (later : ℕ)
      → get request_id h.connection_requests ≡ some req
      → (approve_grant_request render h now token request_id expiry).0 ≡ ok established
      → Running now (grant_expiry req.governor_expiry expiry) later
      → (ref : GrantRef) × (check_grant_directed_with_names
            (approve_grant_request render h now token request_id expiry).1.trust
            later
            req.from_identity
            req.to_identity
            (some req.from_name)
            (some req.to_name)
          ≡ ok ref)
  established_reaches h now token request_id expiry req later e q r =
      elim (approve-Computed h now token request_id expiry) [
        | inl (_, refused) ↦ absurd (refused q)
        | inr (req', gov, e', _, _, _, _, grants, _) ↦
            let same : req' ≡ req = cc in
            reaches now gov req.from_identity req.to_identity
              (grant_expiry req.governor_expiry expiry) (named_request req) later r tt (λ d. cc)
              (approve_grant_request render h now token request_id expiry).1.trust h.trust.grants
              (id_text (codes "grant") (wrap64 (h.trust.counter + 1)))
              (subst
                (λ x.
                  (approve_grant_request render h now token request_id expiry).1.trust.grants
                  ≡ h.trust.grants ++ made h.trust now gov x expiry ∷ [])
                same grants)
      ]
