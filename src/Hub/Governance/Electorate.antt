-- ===== src/Hub/Governance/Electorate.antt =====
-- Who is asked when governorship is claimed (delivery.rs), and what the claim then waits for.
use simple_im.Base.{
  ◌∙◌, ◌≤◌, ◌&&◌, none, retain, any, is_some, ltb, ◌==◌, ℕ, ◌+◌, ◌≡◌, ◌≢◌, refl, ap, ◌⊎◌, inl, inr,
  Bool, true, false, not, some, List, [], ◌∷◌, arith, wrap64, Bool-cases, Option-cases,
}
use simple_im.Base.Text.{Text, text_Eq, text_eq, text_eq_iff, codes}
use simple_im.Base.Map.{Map, keys, get, insert}
use simple_im.Trust.Chain.{TrustChain, id_text, has_active_governor, set_governor}
use simple_im.Hub.State.{
  ParticipantState, is_sse_alive_in_hub, GovernanceClaim, ClaimKind, election, transfer, HubInner,
  Notice,
}
use simple_im.Hub.Sets.{contains}
use simple_im.Hub.Governance.{
  live_others, new_claim, governor_set, open_transfer, open_election, claim_governorship,
}
use simple_im.Hub.Governance.Frame.{notify_voters-Frame}

abbrev pub next_claim : HubInner → Text
next_claim h = id_text (codes "claim") (wrap64 (h.claim_counter + 1))

-- The name is that of an agent other than the candidate, and its token has an open stream.
pub record IsOpenOther (h : HubInner) (candidate n : Text) : Type 0 where
  pub other : n ≢ candidate
  pub agent : ParticipantState
  pub is_agent : get n h.agents ≡ some agent
  pub token : Text
  pub held : get n h.name_to_token ≡ some token
  pub streams : ℕ
  pub counted : get token h.sse_connections ≡ some streams
  pub is_open : 1 ≤ streams

-- The members are exactly the others whose stream is open.
abbrev pub IsElectorate : HubInner → Text → List Text → Type 0
IsElectorate h candidate voters =
    (n : Text)
    → (contains voters n ≡ true → IsOpenOther h candidate n)
      × (IsOpenOther h candidate n → contains voters n ≡ true)

-- The governor and the names are as before, and the claim waits under its new id for those who must approve it, for
-- thirty minutes and with no approval yet.
pub record Waits (h h' : HubInner) (now : ℕ) (token candidate : Text) (kind : ClaimKind)
    (required : List Text) : Type 0 where
  pub same_governor : h'.trust ≡ h.trust
  pub same_names : h'.token_to_name ≡ h.token_to_name
  pub claim : GovernanceClaim
  pub entered : h'.pending_claims ≡ insert (next_claim h) claim h.pending_claims
  pub by_token : claim.candidate_token ≡ token
  pub by_name : claim.candidate_name ≡ candidate
  pub of_kind : claim.kind ≡ kind
  pub must_approve : claim.required ≡ required
  pub unapproved : claim.approved ≡ []
  pub expires : claim.expires_at ≡ now + 1800000000000

-- A claim is put to the governor, if there is one. Without a governor it is granted at once when no
-- other stream is open, and is put to the vote of all the others when one is. The names stay.
abbrev pub Claimed : HubInner → HubInner → ℕ → Text → Text → Type 0
Claimed h h' now token candidate =
    ((gov : Text) × (h.trust.governor_identity ≡ some gov)
      × Waits h h' now token candidate transfer (gov ∷ []))
    ⊎ ((h.trust.governor_identity ≡ none)
        × ((n : Text) → ¬ IsOpenOther h candidate n)
        × (h'.trust ≡ set_governor h.trust candidate)
        × (h'.pending_claims ≡ h.pending_claims)
        × (h'.token_to_name ≡ h.token_to_name))
    ⊎ ((h.trust.governor_identity ≡ none)
        × (voter : Text) × (others : List Text) × IsElectorate h candidate (voter ∷ others)
        × Waits h h' now token candidate election (voter ∷ others))

contains-keys {ℓ} :
    {V : Type ℓ} (j : Text) (m : Map Text V) → contains (keys m) j ≡ is_some (get j m)
unfolding get any
contains-keys j [] = refl
contains-keys j ((k, v) ∷ m) = ground (arith, contains-keys j m)

contains-retain :
    (p : Text → Bool) (s : List Text) (n : Text) → contains (retain p s) n ≡ (p n && contains s n)
unfolding retain any
contains-retain p [] n = ground arith
contains-retain p (x ∷ s) n = elim (Bool-cases (text_eq x n)) [
  | inl e ↦ ground (arith, e, text_eq_iff x n, contains-retain p s n)
  | inr e ↦ ground (arith, e, contains-retain p s n)
]

contains-live_others :
    (h : HubInner) (candidate n : Text)
    → contains (live_others h candidate) n ≡ (
        not (n == candidate)
        && elim (get n h.name_to_token) [
          | none ↦ false
          | some tok ↦ is_sse_alive_in_hub tok h.sse_connections
        ]
        && is_some (get n h.agents))
unfolding live_others
contains-live_others h candidate n = ground (
  arith,
  contains-retain
      (λ k. not (k == candidate) && elim (get k h.name_to_token) [
        | none ↦ false
        | some tok ↦ is_sse_alive_in_hub tok h.sse_connections
      ])
      (keys h.agents) n,
  contains-keys n h.agents,
)

asked_open :
    (h : HubInner) (candidate n : Text)
    → contains (live_others h candidate) n ≡ true
    → IsOpenOther h candidate n
asked_open h candidate n m = elim (Option-cases (get n h.agents)) [
  | inl a ↦ absurd (ground (arith, m, contains-live_others h candidate n, a))
  | inr (agent, a) ↦ elim (Option-cases (get n h.name_to_token)) [
    | inl t ↦ absurd (ground (arith, m, contains-live_others h candidate n, t))
    | inr (tok, t) ↦ elim (Option-cases (get tok h.sse_connections)) [
      | inl c ↦ absurd (ground (arith, m, contains-live_others h candidate n, t, c))
      | inr (count, c) ↦ record {
        other =
            λ q. ground (arith, m, contains-live_others h candidate n, q, text_eq_iff n candidate);
        agent = agent;
        is_agent = a;
        token = tok;
        held = t;
        streams = count;
        counted = c;
        is_open = ground (arith, m, contains-live_others h candidate n, t, c);
      }
    ]
  ]
]

open_asked :
    (h : HubInner) (candidate n : Text)
    → IsOpenOther h candidate n
    → contains (live_others h candidate) n ≡ true
open_asked h candidate n o =
    let alive : ltb 0 o.streams ≡ true = ground (arith, o.is_open) in
    contains-live_others h candidate n
    ∙ rw (o.held, o.is_agent, o.counted, alive) (ground (arith, o.other, text_eq_iff n candidate))

live_others-IsElectorate :
    (h : HubInner) (candidate : Text) → IsElectorate h candidate (live_others h candidate)
live_others-IsElectorate h candidate n = (asked_open h candidate n, open_asked h candidate n)

governed :
    (t : TrustChain) (gov : Text) → t.governor_identity ≡ some gov → has_active_governor t ≡ true
unfolding has_active_governor
governed t gov e = rw e refl

ungoverned : (t : TrustChain) → t.governor_identity ≡ none → has_active_governor t ≡ false
unfolding has_active_governor
ungoverned t e = rw e refl

module _ (render : Notice → List ℕ) where
  transfer-Waits :
      (h : HubInner) (now : ℕ) (token candidate gov : Text)
      → h.trust.governor_identity ≡ some gov
      → Waits h
          (open_transfer render
            (record h { claim_counter = wrap64 (h.claim_counter + 1) })
            now
            token
            candidate
            (next_claim h)).1
          now
          token
          candidate
          transfer
          (gov ∷ [])
  unfolding open_transfer
  transfer-Waits h now token candidate gov e = record {
    same_governor = refl;
    same_names = refl;
    claim = new_claim token candidate transfer (governor_set h.trust.governor_identity) now;
    entered = refl;
    by_token = refl;
    by_name = refl;
    of_kind = refl;
    must_approve = rw e refl;
    unapproved = refl;
    expires = refl;
  }

  -- The list of voters that an election starts with.
  vote-Claimed :
      (h : HubInner) (now : ℕ) (token candidate : Text) (voters : List Text)
      → h.trust.governor_identity ≡ none
      → IsElectorate h candidate voters
      → Claimed h
          (open_election render
            (record h { claim_counter = wrap64 (h.claim_counter + 1) })
            now
            token
            candidate
            (next_claim h)
            voters).1
          now
          token
          candidate
  unfolding open_election any
  vote-Claimed h now token candidate [] e v =
      inr (inl (e, λ n o. absurd (ground (arith, (v n).1 o)), refl, refl, refl))
  vote-Claimed h now token candidate (voter ∷ others) e v =
      let counted = record h { claim_counter = wrap64 (h.claim_counter + 1) } in
      let f = notify_voters-Frame render counted (voter ∷ others) (next_claim h) candidate in
      let claim = new_claim token candidate election (voter ∷ others) now in
      inr (
        inr (
          e,
          voter,
          others,
          v,
          record {
            same_governor = f.trust;
            same_names = f.token_to_name;
            claim = claim;
            entered = ap (insert (next_claim h) claim) f.pending_claims;
            by_token = refl;
            by_name = refl;
            of_kind = refl;
            must_approve = refl;
            unapproved = refl;
            expires = refl;
          },
        ))

  -- A claim by an announced participant, which leaves the names of the tokens. If somebody governs, the governor stays, and the claim waits
  -- for the governor's approval alone. If nobody governs and no other agent's token has an open
  -- stream, the claimant governs at once, and the pending claims stay. Otherwise nobody governs yet,
  -- and the claim waits for exactly the other agents whose tokens have an open stream. A waiting
  -- claim has its new id, no approval yet, and thirty minutes.
  pub claim_lem :
      (h : HubInner) (now : ℕ) (token candidate : Text)
      → get token h.token_to_name ≡ some candidate
      → Claimed h (claim_governorship render h now token).1 now token candidate
  unfolding claim_governorship live_others
  claim_lem h now token candidate e = elim (Option-cases h.trust.governor_identity) [
    | inr (gov, g) ↦
        rw (e, governed h.trust gov g, claim_governorship)
          (inl (gov, g, transfer-Waits h now token candidate gov g))
    | inl g ↦
        rw (e, ungoverned h.trust g, claim_governorship)
          (vote-Claimed h now token candidate (live_others h candidate) g
            (live_others-IsElectorate h candidate))
  ]
