-- ===== src/Hub/Governance/Votes.antt =====
-- Nobody becomes governor over the head of a required voter (delivery.rs).
use simple_im.Base.{
  ℕ, ◌≡◌, ◌≢◌, sym, ap, ◌∙◌, inl, inr, Bool, true, false, ◌||◌, some, List, arith, All,
}
use simple_im.Base.Text.{Text, text_Eq, text_eq, text_eq_iff}
use simple_im.Base.Map.{get}
use simple_im.Error.{ok}
use simple_im.Hub.State.{GovernanceClaim, HubInner, Notice}
use simple_im.Hub.Sets.{contains, set_insert, contains-set_insert, is_subset-contains}
use simple_im.Hub.Governance.{established, respond_claim}
use simple_im.Hub.Governance.Claims.{Carries, respond_lem}
use simple_im.Hub.Governance.Moves.{Move, run, NotBy, Unvoted, run-Kept}

false-ne-true : false ≡ true → ⊥
false-ne-true e = cc

other_text : (x y : Text) → x ≢ y → text_eq x y ≡ false
other_text x y n = ground (arith, text_eq_iff x y)

module _ (render : Notice → List ℕ) (v : Text) where
  -- A required voter who has approved nothing so far cannot be passed over: whatever claims and
  -- votes others make, in any order and however many, no vote of another's then establishes a claim
  -- that requires this voter.
  pub no_bypass :
      (h : HubInner) (ms : List (ℕ × Move)) (now : ℕ) (token claim_id name : Text) (approve : Bool)
      (claim : GovernanceClaim)
      → Unvoted v h.pending_claims
      → All (NotBy v h.token_to_name) ms
      → get token h.token_to_name ≢ some v
      → get claim_id (run render h ms).pending_claims ≡ some claim
      → contains claim.required v ≡ true
      → (respond_claim render (run render h ms) now token claim_id approve).0
        ≢ ok (established name)
  no_bypass h ms now token claim_id name approve claim u a other pending needed e =
      let (w, names) = run-Kept render v h ms u a in
      elim (respond_lem render (run render h ms) now token claim_id approve) [
        | inl (_, never) ↦ never name e
        | inr (c, voter, carries, _, _) ↦
            missing c voter carries (w.at claim_id claim pending) names
      ]
    where
      missing :
          (c : GovernanceClaim) (voter : Text)
          → Carries (run render h ms) now token claim_id c voter
          → contains claim.approved v ≡ false
          → (run render h ms).token_to_name ≡ h.token_to_name
          → ⊥
      missing c voter carries unvoted names =
          let same : c ≡ claim = cc (carries.pending) in
          let voter_other : text_eq voter v ≡ false =
            other_text voter v
              (λ q. other (ap (get token) (sym names) ∙ carries.voter_named ∙ ap some q)) in
          let has : contains (set_insert voter c.approved) v ≡ true =
            is_subset-contains c.required (set_insert voter c.approved) v carries.unanimous
              (ap (λ (k : GovernanceClaim). contains k.required v) same ∙ needed) in
          false-ne-true (
            sym (
              contains-set_insert voter v c.approved
              ∙ ap (λ b. b || contains c.approved v) voter_other
              ∙ ap (λ (k : GovernanceClaim). contains k.approved v) same
              ∙ unvoted)
            ∙ has)
