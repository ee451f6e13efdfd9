-- ===== src/Hub/Governance/Moves.antt =====
-- What claims and votes (delivery.rs) do to the approvals of one participant.
use mathlib.Core.Path.{subst}
use simple_im.Base.{
  ℕ, ◌≡◌, ◌≢◌, refl, sym, ap, ◌∙◌, inl, inr, Bool, true, false, not, none, some, List, [], ◌∷◌,
  arith, if◌then◌else◌, any, All, Bool-cases, Option-cases, leb,
}
use simple_im.Base.Text.{Text, text_Eq, text_eq_iff}
use simple_im.Base.Map.{Map, get, insert, remove, update, get-insert, get-remove, get-update}
use simple_im.Trust.Chain.{set_governor}
use simple_im.Hub.State.{GovernanceClaim, ClaimKind, transfer, election, HubInner, Notice}
use simple_im.Hub.Sets.{contains, set_insert, is_subset, contains-set_insert}
use simple_im.Hub.Governance.{
  claim_governorship, may_vote, reject_claim, candidate_still_live, establish, approve_claim,
  respond_claim,
}
use simple_im.Hub.Governance.Frame.{told-Frame}
use simple_im.Hub.Governance.Electorate.{next_claim, Waits, Claimed, claim_lem}

pub data Move : Type 0 where
  claims : Text → Move
  votes : Text → Text → Bool → Move

module _ (render : Notice → List ℕ) where
  unfoldable pub step : HubInner → ℕ × Move → HubInner
  step h (now, claims token) = (claim_governorship render h now token).1
  step h (now, votes token claim_id approve) = (respond_claim render h now token claim_id approve).1

  unfoldable pub run : HubInner → List (ℕ × Move) → HubInner
  run h [] = h
  run h (m ∷ ms) = run (step h m) ms

-- Not a vote by the participant of that name.
abbrev pub NotBy : Text → Map Text Text → ℕ × Move → Type 0
NotBy v names (now, claims token) = Unit {0}
NotBy v names (now, votes token claim_id approve) = get token names ≢ some v

-- The participant has approved none of the claims.
pub record Unvoted (v : Text) (m : Map Text GovernanceClaim) : Type 0 where
  pub at :
      (claim_id : Text) (claim : GovernanceClaim)
      → get claim_id m ≡ some claim
      → contains claim.approved v ≡ false

module _ (v : Text) (m : Map Text GovernanceClaim) (u : Unvoted v m) (id : Text) where
  Unvoted-remove : Unvoted v (remove id m)
  Unvoted-remove = record { at = λ j claim e. ground (arith, get-remove id j m, u.at j claim) }

  Unvoted-insert :
      (new : GovernanceClaim) → contains new.approved v ≡ false → Unvoted v (insert id new m)
  Unvoted-insert new n = record {
    at = λ j claim e. ground (arith, get-insert id j new m, u.at j claim);
  }

  Unvoted-update :
      (old new : GovernanceClaim)
      → get id m ≡ some old
      → contains new.approved v ≡ false
      → Unvoted v (update id (λ _. new) m)
  Unvoted-update old new h n = record {
    at = λ j claim e. ground (arith, get-update id j (λ _. new) m, u.at j claim, text_eq_iff id j);
  }

-- What a step may do to the pending claims.
abbrev Kept : Text → HubInner → HubInner → Type 0
Kept v h h' = Unvoted v h'.pending_claims × (h'.token_to_name ≡ h.token_to_name)

-- A vote by somebody else.
module _ (render : Notice → List ℕ) (v : Text) (h : HubInner) (u : Unvoted v h.pending_claims)
    (claim_id : Text) (claim : GovernanceClaim)
    (pending : get claim_id h.pending_claims ≡ some claim) where
  reject-Kept : Kept v h (reject_claim render h claim_id claim).1
  unfolding reject_claim
  reject-Kept =
      let f =
        told-Frame (record h { pending_claims = remove claim_id h.pending_claims })
          claim.candidate_name _ in
      (
        subst (Unvoted v) (sym f.pending_claims) (Unvoted-remove v h.pending_claims u claim_id),
        f.token_to_name,
      )

  establish-Kept :
      (g : HubInner) (voted : GovernanceClaim)
      → Unvoted v g.pending_claims
      → g.token_to_name ≡ h.token_to_name
      → Kept v h (establish render g claim_id voted).1
  unfolding establish
  establish-Kept g voted w e =
      let f =
        told-Frame
          (record g {
            trust = set_governor g.trust voted.candidate_name;
            pending_claims = remove claim_id g.pending_claims;
          })
          voted.candidate_name _ in
      (
        subst (Unvoted v) (sym f.pending_claims) (Unvoted-remove v g.pending_claims w claim_id),
        f.token_to_name ∙ e,
      )

  approve-Kept :
      (voter : Text) → voter ≢ v → Kept v h (approve_claim render h claim_id claim voter).1
  unfolding approve_claim
  approve-Kept voter other =
      let voted : GovernanceClaim = record claim { approved = set_insert voter claim.approved } in
      let not_v : contains voted.approved v ≡ false = ground (
        arith,
        contains-set_insert voter v claim.approved,
        u.at claim_id claim pending,
        text_eq_iff voter v,
      ) in
      let w = Unvoted-update v h.pending_claims u claim_id claim voted pending not_v in
      let g : HubInner = record h {
        pending_claims = update claim_id (λ _. voted) h.pending_claims;
      } in
      elim (Bool-cases (is_subset voted.required voted.approved)) [
        | inr few ↦ rw few (w, refl)
        | inl all ↦ elim (Bool-cases (candidate_still_live g voted)) [
          | inr gone ↦ rw (all, gone) (Unvoted-remove v g.pending_claims w claim_id, refl)
          | inl live ↦ rw (all, live) (establish-Kept g voted w refl)
        ]
      ]

  vote-Kept :
      (voter : Text) (approve : Bool)
      → voter ≢ v
      → Kept v h
          (if not approve
            then reject_claim render h claim_id claim
            else approve_claim render h claim_id claim voter).1
  vote-Kept voter true other = approve-Kept voter other
  vote-Kept voter false other = reject-Kept

module _ (render : Notice → List ℕ) (v : Text) where
  claim-Kept :
      (h : HubInner) (now : ℕ) (token : Text)
      → Unvoted v h.pending_claims
      → Kept v h (claim_governorship render h now token).1
  claim-Kept h now token u = elim (Option-cases (get token h.token_to_name)) [
    | inl e ↦ unknown e
    | inr (candidate, e) ↦ announced candidate (claim_lem render h now token candidate e)
  ]
    where
      unknown :
          get token h.token_to_name ≡ none → Kept v h (claim_governorship render h now token).1
      unknown e = unfold claim_governorship in rw (e, claim_governorship) (u, refl)

      entered :
          (h' : HubInner) (candidate : Text) (kind : ClaimKind) (required : List Text)
          → Waits h h' now token candidate kind required
          → Kept v h h'
      entered h' candidate kind required w = (
        subst (Unvoted v) (sym w.entered) (
            Unvoted-insert v h.pending_claims u (next_claim h) w.claim
              (unfold any in rw w.unapproved refl)),
        w.same_names,
      )

      announced :
          (candidate : Text)
          → Claimed h (claim_governorship render h now token).1 now token candidate
          → Kept v h (claim_governorship render h now token).1
      announced candidate (inl (gov, g, w)) = entered _ candidate transfer (gov ∷ []) w
      announced candidate (inr (inl (g, alone, t, p, names))) = (subst (Unvoted v) (sym p) u, names)
      announced candidate (inr (inr (g, voter, others, e, w))) =
          entered _ candidate election (voter ∷ others) w

  respond-Kept :
      (h : HubInner) (now : ℕ) (token claim_id : Text) (approve : Bool)
      → Unvoted v h.pending_claims
      → get token h.token_to_name ≢ some v
      → Kept v h (respond_claim render h now token claim_id approve).1
  unfolding respond_claim
  respond-Kept h now token claim_id approve u other =
      elim (Option-cases (get claim_id h.pending_claims)) [
        | inl e ↦ rw (e, respond_claim) (u, refl)
        | inr (claim, e) ↦ elim (Bool-cases (leb claim.expires_at now)) [
          | inl late ↦
              rw (e, late, respond_claim) (Unvoted-remove v h.pending_claims u claim_id, refl)
          | inr in_time ↦ elim (Option-cases (get token h.token_to_name)) [
            | inl n ↦ rw (e, in_time, n, respond_claim) (u, refl)
            | inr (voter, n) ↦ elim (Bool-cases (may_vote h claim voter)) [
              | inr no_right ↦ rw (e, in_time, n, no_right, respond_claim) (u, refl)
              | inl right ↦
                  rw (e, in_time, n, right, respond_claim)
                    (vote-Kept render v h u claim_id claim e voter approve
                      (λ q. other (n ∙ ap some q)))
            ]
          ]
        ]
      ]

  step-Kept :
      (h : HubInner) (m : ℕ × Move)
      → Unvoted v h.pending_claims
      → NotBy v h.token_to_name m
      → Kept v h (step render h m)
  unfolding step
  step-Kept h (now, claims token) u o = claim-Kept h now token u
  step-Kept h (now, votes token claim_id approve) u o =
      respond-Kept h now token claim_id approve u o

  pub run-Kept :
      (h : HubInner) (ms : List (ℕ × Move))
      → Unvoted v h.pending_claims
      → All (NotBy v h.token_to_name) ms
      → Kept v h (run render h ms)
  unfolding run
  run-Kept h [] u a = (u, refl)
  run-Kept h (m ∷ ms) u a =
      let (u', e) = step-Kept h m u a.0 in
      let (w, e') =
        run-Kept (step render h m) ms u' (subst (λ names. All (NotBy v names) ms) (sym e) a.1) in
      (w, e' ∙ e)
