-- ===== src/Hub/Mediation/Laws.antt =====
-- A held message (delivery.rs) is decided once, by the governor who made its grant.
use simple_im.Base.{
  ℕ, ◌+◌, ◌≡◌, refl, sym, ap, ◌∙◌, ◌⊎◌, inl, inr, Bool, true, false, not, Option, none, some, List,
  [], ◌∷◌, arith, length, find, retain, update_first, if◌then◌else◌, ◌==◌, Bool-cases, Option-cases,
  unwrap_or,
}
use simple_im.Base.Text.{Text, text_Eq, text_eq_iff}
use simple_im.Base.Map.{get, contains_key}
use simple_im.Error.{Error, Done, Result, ok, err}
use simple_im.Trust.Chain.{grant_governor_id, grant_opens_reply_window}
use simple_im.Hub.State.{QueuedMessage, MediationHold, HubInner, validate_governor_token}
use simple_im.Hub.Queue.{deposit, take_notify}
use simple_im.Hub.Governance.{summon}
use simple_im.Hub.Sending.{prune_expired, open_window}
use simple_im.Hub.Mediation.{
  MediationDecision, approve, block, modify, MediationResult, awaits, resolve, payload_of, mediated,
  hand_over, decide, charge, charged_to, decide_for, resolve_mediation,
}

-- How many holds with the identifier await a decision.
abbrev awaiting : ℕ → Text → List MediationHold → ℕ
awaiting now id ms = length (retain (awaits now id) ms)

awaiting-resolve :
    (now : ℕ) (id : Text) (m : MediationHold) (ms : List MediationHold)
    → find (awaits now id) ms ≡ some m
    → awaiting now id (update_first (awaits now id) resolve ms) + 1 ≡ awaiting now id ms
unfolding retain update_first find
awaiting-resolve now id m [] e = absurd (cc)
awaiting-resolve now id m (w ∷ ms) e = ground (arith, awaiting-resolve now id m ms)

holds-deposit :
    (h : HubInner) (name : Text) (m : QueuedMessage)
    → (deposit h name m).mediation_holds ≡ h.mediation_holds
unfolding deposit
holds-deposit h name m = ground arith

holds-summon : (h : HubInner) (name : Text) → (summon h name).1.mediation_holds ≡ h.mediation_holds
unfolding summon take_notify
holds-summon h name = ground arith

module _ (h : HubInner) (now replied_at : ℕ) (id : Text) (m : MediationHold)
    (decision : MediationDecision) where
  holds-hand_over :
      (g : HubInner) (payload : List ℕ) (opens : Bool) (consumed : Option Text)
      → (hand_over g replied_at m payload opens consumed).1.mediation_holds ≡ g.mediation_holds
  unfolding hand_over
  holds-hand_over g payload opens consumed =
      elim (Bool-cases (not (contains_key m.to_name g.agents))) [
        | inl e ↦ rw e refl
        | inr e ↦ rw e (
            holds-summon _ m.to_name
            ∙ opened opens (deposit g m.to_name (mediated m payload))
            ∙ holds-deposit g m.to_name (mediated m payload))
      ]
    where
      opened :
          (b : Bool) (told : HubInner)
          → (if b then open_window told replied_at m.to_name m.from_name else told).mediation_holds
            ≡ told.mediation_holds
      opened true told = refl
      opened false told = refl

  holds-decide :
      (opens : Bool) (consumed : Option Text)
      → (decide h now replied_at id m decision opens consumed).1.mediation_holds
        ≡ update_first (awaits now id) resolve h.mediation_holds
  unfolding decide
  holds-decide opens consumed = elim (Option-cases (payload_of decision m)) [
    | inl e ↦ rw (e, decide) refl
    | inr (payload, e) ↦ rw (e, decide) (holds-hand_over _ payload opens consumed)
  ]

-- The answer is no error: the caller governs, and made the grant of the hold if it has one, and
-- the first hold with the identifier that awaited a decision has been resolved.
abbrev pub Decided : HubInner → ℕ → ℕ → Text → Text → HubInner → Type 0
Decided h pruned_at now token id h' =
    (m : MediationHold) × (validate_governor_token h token ≡ ok tt)
    × (find (awaits now id) (prune_expired h pruned_at).mediation_holds ≡ some m)
    × ((m.grant_id ≡ none)
        ⊎ ((grant_id : Text) × (m.grant_id ≡ some grant_id)
            × (grant_governor_id h.trust grant_id
                ≡ some (unwrap_or (get token h.token_to_name) []))))
    × (awaiting now id h'.mediation_holds + 1
        ≡ awaiting now id (prune_expired h pruned_at).mediation_holds)

-- The first part of the state is untouched by the charge.
holds-charge :
    (h : HubInner) (grant_id : Text) (d : MediationDecision)
    → (charge h grant_id d).mediation_holds ≡ h.mediation_holds
holds-charge h grant_id approve = refl
holds-charge h grant_id block = refl
holds-charge h grant_id (modify payload) = refl

module _ (h : HubInner) (pruned_at now replied_at : ℕ) (token id : Text)
    (decision : MediationDecision) (answer : MediationResult) where
  abbrev pruned : HubInner
  pruned = prune_expired h pruned_at

  decide_for-Decided :
      (m : MediationHold) (o : Option Text)
      → m.grant_id ≡ o
      → validate_governor_token h token ≡ ok tt
      → find (awaits now id) pruned.mediation_holds ≡ some m
      → (decide_for pruned now replied_at token id m decision o).0 ≡ ok answer
      → Decided h pruned_at now token id (decide_for pruned now replied_at token id m decision o).1
  unfolding decide_for prune_expired
  decide_for-Decided m none g v f = λ q. (
    m,
    v,
    f,
    inl g,
    ap (λ ms. awaiting now id ms + 1) (holds-decide pruned now replied_at id m decision true none)
        ∙ awaiting-resolve now id m pruned.mediation_holds f,
  )
  decide_for-Decided m (some grant_id) g v f =
      elim (Option-cases (grant_governor_id h.trust grant_id)) [
        | inl e ↦ rw (e, decide_for) (λ q. absurd (cc))
        | inr (expected, e) ↦
            elim (Bool-cases (unwrap_or (get token h.token_to_name) [] == expected)) [
              | inr other ↦ rw (e, other, decide_for) (λ q. absurd (cc))
              | inl same ↦
                  rw (e, same, decide_for)
                    λ q.
                      let h' = charge pruned grant_id decision in
                      let opens = unwrap_or (grant_opens_reply_window h'.trust grant_id) false in
                      (
                        m,
                        v,
                        f,
                        inr (
                          grant_id,
                          g,
                          e
                              ∙ ap some (
                                  sym (
                                    (text_eq_iff (unwrap_or (get token h.token_to_name) [])
                                        expected).0
                                      same)),
                        ),
                        ap (λ ms. awaiting now id ms + 1)
                              (holds-decide h' now replied_at id m decision opens
                                  (charged_to grant_id decision)
                                ∙ ap (update_first (awaits now id) resolve)
                                    (holds-charge pruned grant_id decision))
                            ∙ awaiting-resolve now id m pruned.mediation_holds f,
                      )
            ]
      ]

  -- A decision that is not refused was made by the governor who made the grant of the hold, on a
  -- hold that awaited it and was in time; whatever the decision, that hold awaits no further one:
  -- one hold less with the identifier is left.
  pub resolve_lem :
      (resolve_mediation h pruned_at now replied_at token id decision).0 ≡ ok answer
      → Decided h pruned_at now token id
          (resolve_mediation h pruned_at now replied_at token id decision).1
  unfolding resolve_mediation
  resolve_lem = elim (governs h token) [
    | inr (x, e) ↦ rw (valid_pruned ∙ e, resolve_mediation) (λ q. absurd (cc))
    | inl e ↦ elim (Option-cases (find (awaits now id) pruned.mediation_holds)) [
      | inl f ↦ rw (valid_pruned ∙ e, f, resolve_mediation) (λ q. absurd (cc))
      | inr (m, f) ↦
          rw (valid_pruned ∙ e, resolve_mediation)
            (rw f λ q.
              let (hold, v, k, g, c) = decide_for-Decided m m.grant_id refl e f q in
              (hold, v, sym f ∙ k, g, c))
    ]
  ]
    where
      valid_pruned : validate_governor_token pruned token ≡ validate_governor_token h token
      valid_pruned = unfold validate_governor_token prune_expired in refl

      outcome : (r : Result Done) → (r ≡ ok tt) ⊎ ((x : Error) × (r ≡ err x))
      outcome (ok u) = inl refl
      outcome (err x) = inr (x, refl)

      governs :
          (g : HubInner) (t : Text)
          → (validate_governor_token g t ≡ ok tt)
            ⊎ ((x : Error) × (validate_governor_token g t ≡ err x))
      governs g t = outcome (validate_governor_token g t)
