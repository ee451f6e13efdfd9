-- ===== src/Hub/Names/Book/Collect.antt =====
-- The collection of idle tokens (gc_tokens of delivery.rs) never touches a name.
use simple_im.Base.{
  ℕ, ◌-◌, ◌≡◌, ◌≢◌, refl, ap, ◌∙◌, inl, inr, Bool, true, false, not, ◌&&◌, ltb, Option, none, some,
  List, [], ◌∷◌, arith, if◌then◌else◌, is_some, retain, any, All, All-map, Option-cases,
}
use simple_im.Base.Text.{Text, text_Eq, text_eq_iff}
use simple_im.Base.Map.{Map, get, remove, keys, get-remove}
use simple_im.Base.Map.Distinct.{kept, get-retain}
use simple_im.Hub.Sets.{contains}
use simple_im.Hub.State.{ListenTokenState, HubInner}
use simple_im.Hub.Peers.{Env}
use simple_im.Hub.Names.{is_expired, collected, collect_all, gc_tokens}
use simple_im.Hub.Names.Book.{face, IsBound, drop-IsBound}

-- How long a token without a name may be idle: until its first stream, while it has never listened,
-- and while it was never granted a thing; then for ever.
abbrev pub allowance : HubInner → ListenTokenState → Option ℕ
allowance h st =
    if st.pending_first_listen
    then some h.gc_registration_grace
    else if not st.ever_listened
    then some h.gc_ttl_unlisten
    else if not st.ever_granted
    then some h.gc_ttl_no_grant
    else none

-- A live token without a name that was idle for longer.
abbrev pub has_lapsed : HubInner → ℕ → ListenTokenState → Bool
has_lapsed h now st =
    not st.revoked
    && not (is_some st.name)
    && elim (allowance h st) [ none ↦ false | some limit ↦ ltb limit (now - st.last_active) ]

abbrev Nameless : HubInner → Text → Type 0
Nameless h t = (st : ListenTokenState) → get t h.listen_tokens ≡ some st → st.name ≡ none

-- Nothing that belongs to a name differs.
pub record SameNames (h h' : HubInner) : Type 0 where
  pub token_to_name : h'.token_to_name ≡ h.token_to_name
  pub name_to_token : h'.name_to_token ≡ h.name_to_token
  pub identities : h'.identities ≡ h.identities
  pub agents : h'.agents ≡ h.agents
  pub message_queues : h'.message_queues ≡ h.message_queues
  pub kick_pending : h'.kick_pending ≡ h.kick_pending
  pub registry : h'.registry ≡ h.registry

SameNames-trans : {a b c : HubInner} → SameNames a b → SameNames b c → SameNames a c
SameNames-trans p q = record {
  token_to_name = q.token_to_name ∙ p.token_to_name;
  name_to_token = q.name_to_token ∙ p.name_to_token;
  identities = q.identities ∙ p.identities;
  agents = q.agents ∙ p.agents;
  message_queues = q.message_queues ∙ p.message_queues;
  kick_pending = q.kick_pending ∙ p.kick_pending;
  registry = q.registry ∙ p.registry;
}

SameNames-self : (h : HubInner) → SameNames h h
SameNames-self h = record {
  token_to_name = refl;
  name_to_token = refl;
  identities = refl;
  agents = refl;
  message_queues = refl;
  kick_pending = refl;
  registry = refl;
}

-- The tokens of the list are gone, and nothing else.
record Gone (h h' : HubInner) (toks : List Text) : Type 0 where
  names : SameNames h h'
  bound : IsBound h'
  left :
      (j : Text)
      → get j h'.listen_tokens ≡ (if contains toks j then none else get j h.listen_tokens)

Nameless-face :
    (h : HubInner) (t : Text) → Nameless h t → (n : Text) (r : Bool) → face h t ≢ some (some n, r)
Nameless-face h t none_of n r e = elim (Option-cases (get t h.listen_tokens)) [
  | inl f ↦ ground (arith, f)
  | inr (st, f) ↦ ground (arith, f, none_of st)
]

module _ (env : Env) where
  abbrev closed : HubInner → Text → HubInner
  closed h tok = record h { sse_connections = remove tok h.sse_connections }

  closed-IsBound : (h : HubInner) (tok : Text) → IsBound h → IsBound (closed h tok)
  closed-IsBound h tok b = record {
    owner = b.owner;
    known = b.known;
    spoken = b.spoken;
    rostered = b.rostered;
    distinct = b.distinct;
    unique = b.unique;
  }

  abbrev dropped : HubInner → Text → HubInner
  dropped h tok = record (closed h tok) { listen_tokens = remove tok h.listen_tokens }

  names_of : (h : HubInner) (tok : Text) → SameNames h (closed h tok)
  names_of h tok = record {
    token_to_name = refl;
    name_to_token = refl;
    identities = refl;
    agents = refl;
    message_queues = refl;
    kick_pending = refl;
    registry = refl;
  }

  names_dropped : (h : HubInner) (tok : Text) → SameNames h (dropped h tok)
  names_dropped h tok = record {
    token_to_name = refl;
    name_to_token = refl;
    identities = refl;
    agents = refl;
    message_queues = refl;
    kick_pending = refl;
    registry = refl;
  }

  -- One round takes away one token, and starts no timer.
  round :
      (h : HubInner) (tok : Text)
      → IsBound h
      → Nameless h tok
      → Gone h (collected env (closed h tok) tok (get tok h.listen_tokens)).0 (tok ∷ [])
        × ((collected env (closed h tok) tok (get tok h.listen_tokens)).1 ≡ [])
  unfolding collected any
  round h tok b n = elim (Option-cases (get tok h.listen_tokens)) [
    | inl e ↦
        rw (e, collected)
          (
            record {
              names = names_of h tok;
              bound = closed-IsBound h tok b;
              left = λ j. ground (arith, text_eq_iff tok j, e);
            },
            refl,
          )
    | inr (st, e) ↦
        rw (e, n st e, collected)
          (
            record {
              names = names_dropped h tok;
              bound =
                  drop-IsBound (closed h tok) (closed-IsBound h tok b) tok (Nameless-face h tok n);
              left = λ j. ground (arith, get-remove tok j h.listen_tokens);
            },
            refl,
          )
  ]

  Nameless-later :
      (h h' : HubInner) (tok t : Text) → Gone h h' (tok ∷ []) → Nameless h t → Nameless h' t
  unfolding any
  Nameless-later h h' tok t g n st e = n st (ground (arith, g.left t))

  Gone-both :
      {h h' h'' : HubInner} (tok : Text) (toks : List Text)
      → Gone h h' (tok ∷ [])
      → Gone h' h'' toks
      → Gone h h'' (tok ∷ toks)
  unfolding any
  Gone-both tok toks p q = record {
    names = SameNames-trans p.names q.names;
    bound = q.bound;
    left = λ j. ground (arith, p.left j, q.left j);
  }

  rounds :
      (h : HubInner) (toks : List Text)
      → IsBound h
      → All (Nameless h) toks
      → Gone h (collect_all env h toks).0 toks × ((collect_all env h toks).1 ≡ [])
  unfolding collect_all any
  rounds h [] b n = (record { names = SameNames-self h; bound = b; left = λ j. refl }, refl)
  rounds h (tok ∷ toks) b (n, ns) =
      let (first, quiet) = round h tok b n in
      let h' = (collected env (closed h tok) tok (get tok h.listen_tokens)).0 in
      let (more, still) =
        rounds h' toks first.bound
          (All-map (Nameless h) (Nameless h') toks (λ t. Nameless-later h h' tok t first) ns) in
      (Gone-both tok toks first more, rw (quiet, still))

contains-keys : (j : Text) (m : Map Text ListenTokenState) → contains (keys m) j ≡ is_some (get j m)
unfolding any get
contains-keys j [] = refl
contains-keys j ((k, v) ∷ m) = ground (arith, contains-keys j m)

All-contains :
    (P : Text → Type 0) (xs : List Text) → ((t : Text) → contains xs t ≡ true → P t) → All P xs
unfolding any
All-contains P [] f = tt
All-contains P (x ∷ xs) f =
    (f x (ground (arith, text_eq_iff x x)), All-contains P xs (λ t m. f t (ground (arith, m))))

module _ (env : Env) (h : HubInner) (b : IsBound h) where
  abbrev expired : Text × ListenTokenState → Bool
  expired e = is_expired h env.now e.1

  -- A token with a name is exempt, for its name is in the roster.
  expired_nameless :
      (t : Text) (st : ListenTokenState)
      → get t h.listen_tokens ≡ some st
      → is_expired h env.now st ≡ true
      → st.name ≡ none
  unfolding is_expired
  expired_nameless t st e x = elim (Option-cases st.name) [
    | inl q ↦ q
    | inr (n, q) ↦ ground (arith, e, q, x, b.rostered t n)
  ]

  expired_lapsed :
      (t : Text) (st : ListenTokenState)
      → get t h.listen_tokens ≡ some st
      → is_expired h env.now st ≡ has_lapsed h env.now st
  unfolding is_expired
  expired_lapsed t st e = elim (Option-cases st.name) [
    | inl q ↦ ground (arith, q)
    | inr (n, q) ↦ ground (arith, e, q, b.rostered t n)
  ]

  to_remove :
      (j : Text)
      → contains (keys (retain expired h.listen_tokens)) j
        ≡ is_some (kept expired j (get j h.listen_tokens))
  to_remove j =
      contains-keys j (retain expired h.listen_tokens)
      ∙ ap is_some (get-retain expired j h.listen_tokens b.distinct)

  removed-Nameless :
      (t : Text) → contains (keys (retain expired h.listen_tokens)) t ≡ true → Nameless h t
  removed-Nameless t m st e = expired_nameless t st e (ground (arith, to_remove t, m, e))

  -- The collection takes away the live tokens without a name that were idle for longer than their
  -- allowance, and no others. The names, the queues and the roster stay, no timer is started, and
  -- the invariant is kept.
  pub gc_tokens_lem :
      (j : Text)
      → ((gc_tokens env h).1 ≡ [])
        × (get j (gc_tokens env h).0.listen_tokens ≡ elim (get j h.listen_tokens) [
          | none ↦ none
          | some st ↦ if has_lapsed h env.now st then none else some st
        ])
        × SameNames h (gc_tokens env h).0
        × IsBound (gc_tokens env h).0
  unfolding gc_tokens
  gc_tokens_lem j =
      let (gone, quiet) =
        rounds env h (keys (retain expired h.listen_tokens)) b
          (All-contains (Nameless h) _ removed-Nameless) in
      (quiet, left_by j (gone.left j), gone.names, gone.bound)
    where
      left_by :
          (k : Text)
          → get k (gc_tokens env h).0.listen_tokens ≡ (
              if contains (keys (retain expired h.listen_tokens)) k
              then none
              else get k h.listen_tokens)
          → get k (gc_tokens env h).0.listen_tokens ≡ elim (get k h.listen_tokens) [
            | none ↦ none
            | some st ↦ if has_lapsed h env.now st then none else some st
          ]
      left_by k e = elim (Option-cases (get k h.listen_tokens)) [
        | inl f ↦ ground (arith, e, to_remove k, f)
        | inr (st, f) ↦ rw (f, ← expired_lapsed k st f) (ground (arith, e, to_remove k, f))
      ]
