-- ===== src/Hub/Removal/Traces.antt =====
-- What is left of a participant once a governor or itself has deleted it (revoke_by_name and
-- delete_self of delivery.rs).
use mathlib.Core.Path.{subst}
use simple_im.Base.{
  ℕ, List, ◌∷◌, ◌==◌, ◌≢◌, ◌≡◌, refl, sym, ap, ◌∙◌, inl, inr, true, false, not, Option, none, some,
  [], arith, unwrap_or, retain, All, retain-All, Bool-cases,
}
use simple_im.Base.Text.{Text, text_Eq, text_eq, text_eq_iff, text_eq_self, is_text}
use simple_im.Base.Map.{Map, get, update, remove, get-remove, get-remove_self, get-update}
use simple_im.Error.{ok, err, token_revoked}
use simple_im.Trust.Chain.{TrustChain, is_governor, clear_governor_if, mentions, purge_grants_for}
use simple_im.Registry.{force_deregister}
use simple_im.Hub.Sets.{contains, set_remove, contains-set_remove}
use simple_im.Hub.State.{ListenTokenState, HubInner, validate_governor_token}
use simple_im.Hub.Denial.{concerns, purge_denial_blocks_for}
use simple_im.Hub.Peers.{Env, begin_settle_offline, grant_peer_presence_senders, settle_of}
use simple_im.Hub.Tokens.{live_state, name_for_bearer_token}
use simple_im.Hub.Names.Book.{IsBound}
use simple_im.Hub.Names.Book.Quiet.{settle-SameBook, settle_tokens}
use simple_im.Hub.Names.Book.Evict.{silenced, deleted}
use simple_im.Hub.Listening.{on_state}
use simple_im.Hub.Removal.{
  mark_revoked, unrelated, forget_live, forget_identity, revoke_by_name, delete_self,
}

-- No token resolves to the name and the name has no token, agent, registration, count of streams,
-- queue or mark of a queue; no pending request is from it or to it; and it has no entry of the
-- roster, no governor flag, no grant and no denial block.
pub record Forgotten (h : HubInner) (name identity : Text) : Type 0 where
  pub unnamed : (t : Text) → get t h.token_to_name ≢ some name
  pub unheld : get name h.name_to_token ≡ none
  pub no_agent : get name h.agents ≡ none
  pub unregistered : get name h.registry.entries ≡ none
  pub no_streams : get name h.active_sse_connections ≡ none
  pub no_queue : get name h.message_queues ≡ none
  pub unmarked : contains h.kick_pending name ≡ false
  pub unrostered : contains h.identities name ≡ false
  pub not_governor : is_governor h.trust name ≡ false
  pub no_grants : All (λ g. not (mentions name g) ≡ true) h.trust.grants
  pub no_requests : All (λ r. unrelated name r ≡ true) h.connection_requests
  pub no_blocks : All (λ b. not (concerns name identity b) ≡ true) h.denial_blocks

-- What the deletions leave as it was, whether it is about the participant or not.
pub record Untouched (h h' : HubInner) : Type 0 where
  pub pending_claims : h'.pending_claims ≡ h.pending_claims
  pub reply_windows : h'.reply_windows ≡ h.reply_windows
  pub mediation_holds : h'.mediation_holds ≡ h.mediation_holds

settle-Untouched :
    (env : Env) (h : HubInner) (name : Text) → Untouched h (begin_settle_offline env h name).1
unfolding begin_settle_offline grant_peer_presence_senders
settle-Untouched env h name =
    settled (grant_peer_presence_senders env h name)
      (record { pending_claims = refl; reply_windows = refl; mediation_holds = refl })
  where
    settled : (p : List ℕ × HubInner) → Untouched h p.1 → Untouched h (settle_of name p).1
    settled ([], h') u = u
    settled (tx ∷ more, h') u = record {
      pending_claims = u.pending_claims;
      reply_windows = u.reply_windows;
      mediation_holds = u.mediation_holds;
    }

-- No entry with the name is left.
retain-unnamed :
    (name : Text) (m : Map Text Text) (t : Text)
    → get t (retain (λ e. not (e.1 == name)) m) ≢ some name
unfolding retain get
retain-unnamed name [] t = λ q. cc
retain-unnamed name ((k, v) ∷ m) t = elim (Bool-cases (text_eq v name)) [
  | inl e ↦ rw e (retain-unnamed name m t)
  | inr e ↦ rw e (elim (Bool-cases (text_eq k t)) [
    | inl f ↦ rw f (λ q. absurd (ground (arith, e, q, text_eq_iff v name)))
    | inr f ↦ rw f (retain-unnamed name m t)
  ])
]

-- The token that has the name is the only one.
remove-unnamed :
    (h : HubInner) (token name t : Text)
    → IsBound h
    → get token h.token_to_name ≡ some name
    → get t (remove token h.token_to_name) ≢ some name
remove-unnamed h token name t b q = λ r. absurd (
    ground (
      arith,
      r,
      get-remove token t h.token_to_name,
      text_eq_iff token t,
      b.owner t name,
      b.owner token name q,
    ))

cleared : (t : TrustChain) (name : Text) → is_governor (clear_governor_if t name) name ≡ false
unfolding is_governor clear_governor_if
cleared t name = elim (Bool-cases (is_text t.governor_identity name)) [
  | inl e ↦ rw e refl
  | inr e ↦ rw e e
]

-- The shared part of the two deletions.
abbrev erased : HubInner → Text → Text → HubInner
erased h name identity = (forget_identity h name identity).0

-- The hub `h` is `g` without the live traces of the name; its tokens may still change.
erased-Forgotten :
    (h g : HubInner) (name identity : Text) (names : Map Text Text)
    (tokens : Map Text ListenTokenState)
    → ((t : Text) → get t names ≢ some name)
    → h.name_to_token ≡ remove name g.name_to_token
    → h.active_sse_connections ≡ remove name g.active_sse_connections
    → h.agents ≡ remove name g.agents
    → h.registry ≡ force_deregister g.registry name
    → h.message_queues ≡ remove name g.message_queues
    → h.kick_pending ≡ set_remove name g.kick_pending
    → h.connection_requests ≡ retain (unrelated name) g.connection_requests
    → Forgotten
        (record (erased h name identity) { token_to_name = names; listen_tokens = tokens })
        name
        identity
unfolding forget_identity purge_grants_for purge_denial_blocks_for force_deregister is_governor
erased-Forgotten h g name identity names tokens u n s a r q k c = record {
  unnamed = u;
  no_streams = rw s (get-remove_self name g.active_sse_connections);
  unheld = rw n (get-remove_self name g.name_to_token);
  no_agent = rw a (get-remove_self name g.agents);
  unregistered = rw r (get-remove_self name g.registry.entries);
  no_queue = rw q (get-remove_self name g.message_queues);
  unmarked = ground (arith, k, contains-set_remove name name g.kick_pending, text_eq_self name);
  unrostered = ground (arith, contains-set_remove name name h.identities, text_eq_self name);
  not_governor = cleared h.trust name;
  no_grants = retain-All (λ g. not (mentions name g)) (clear_governor_if h.trust name).grants;
  no_requests = rw c (retain-All (unrelated name) g.connection_requests);
  no_blocks = retain-All (λ b. not (concerns name identity b)) h.denial_blocks;
}

marked_state :
    (h : HubInner) (token : Text) (st : ListenTokenState)
    → get token h.listen_tokens ≡ some st
    → get token (on_state h token mark_revoked).listen_tokens ≡ some (mark_revoked st)
marked_state h token st e =
    get-update token token mark_revoked h.listen_tokens ∙ rw (text_eq_self token, e) refl

-- A token that is marked as revoked resolves to no name, and every call with it is refused.
revoked_mute :
    (h : HubInner) (token : Text) (st : ListenTokenState)
    → get token h.listen_tokens ≡ some (mark_revoked st)
    → (name_for_bearer_token h token ≡ none) × (live_state h token ≡ err token_revoked)
unfolding name_for_bearer_token live_state
revoked_mute h token st e = (rw (e, name_for_bearer_token) refl, rw (e, live_state) refl)

erased_tokens :
    (h : HubInner) (name identity : Text) → (erased h name identity).listen_tokens ≡ h.listen_tokens
unfolding forget_identity purge_grants_for purge_denial_blocks_for
erased_tokens h name identity = refl

deleted-Forgotten :
    (h : HubInner) (name : Text) (o : Option Text)
    → Forgotten (deleted h name o) name (unwrap_or o [])
unfolding forget_identity purge_grants_for purge_denial_blocks_for
deleted-Forgotten h name o = of o (retain-unnamed name h.token_to_name)
  where
    of :
        (p : Option Text)
        → ((t : Text) → get t (retain (λ e. not (e.1 == name)) h.token_to_name) ≢ some name)
        → Forgotten (deleted h name p) name (unwrap_or p [])
    of none u =
        erased-Forgotten (silenced h name none).1 h name [] _ h.listen_tokens u refl refl refl refl
          refl refl refl
    of (some tok) u =
        erased-Forgotten (silenced h name (some tok)).1 h name tok _
          (update tok mark_revoked h.listen_tokens) u refl refl refl refl refl refl refl

deleted-Untouched : (h : HubInner) (name : Text) (o : Option Text) → Untouched h (deleted h name o)
unfolding forget_identity purge_grants_for purge_denial_blocks_for
deleted-Untouched h name none = record {
  pending_claims = refl;
  reply_windows = refl;
  mediation_holds = refl;
}
deleted-Untouched h name (some tok) = record {
  pending_claims = refl;
  reply_windows = refl;
  mediation_holds = refl;
}

Untouched-trans : {f g h : HubInner} → Untouched f g → Untouched g h → Untouched f h
Untouched-trans p q = record {
  pending_claims = q.pending_claims ∙ p.pending_claims;
  reply_windows = q.reply_windows ∙ p.reply_windows;
  mediation_holds = q.mediation_holds ∙ p.mediation_holds;
}

erased-Untouched :
    (h : HubInner) (name identity : Text) (names : Map Text Text)
    (tokens : Map Text ListenTokenState)
    → Untouched h (record (erased (forget_live h name) name identity) {
      token_to_name = names;
      listen_tokens = tokens;
    })
unfolding forget_identity purge_grants_for purge_denial_blocks_for
erased-Untouched h name identity names tokens = record {
  pending_claims = refl;
  reply_windows = refl;
  mediation_holds = refl;
}

erased_names :
    (h : HubInner) (name identity : Text) → (erased h name identity).token_to_name ≡ h.token_to_name
unfolding forget_identity purge_grants_for purge_denial_blocks_for
erased_names h name identity = refl

deleted_state :
    (h : HubInner) (name tok : Text) (st : ListenTokenState)
    → get tok h.listen_tokens ≡ some st
    → get tok (deleted h name (some tok)).listen_tokens ≡ some (mark_revoked st)
deleted_state h name tok st e =
    ap (get tok) (erased_tokens (silenced h name (some tok)).1 name tok) ∙ marked_state h tok st e

module _ (env : Env) (h : HubInner) where
  -- Names and tokens agree, and a live participant with a name deletes itself: the call succeeds. Then
  -- no token resolves to the name, and the name has no token, agent, registration, count of streams,
  -- queue, pending request, entry of the roster, governor flag, grant or denial block. Claims, reply
  -- windows and held messages stay as they were. The token is refused.
  pub delete_self_lem :
      (token name : Text) (st : ListenTokenState)
      → IsBound h
      → get token h.listen_tokens ≡ some st
      → st.revoked ≡ false
      → get token h.token_to_name ≡ some name
      → ((delete_self env h token).0 ≡ ok tt)
        × Forgotten (delete_self env h token).1 name token
        × Untouched h (delete_self env h token).1
        × (name_for_bearer_token (delete_self env h token).1 token ≡ none)
        × (live_state (delete_self env h token).1 token ≡ err token_revoked)
  unfolding delete_self
  delete_self_lem token name st b e r q =
      let begun = (begin_settle_offline env h name).1 in
      let gone = erased (forget_live begun name) name token in
      let left = remove token gone.token_to_name in
      let unnamed = record gone { token_to_name = left } in
      let tokens = update token mark_revoked gone.listen_tokens in
      let there =
        ap (get token)
          (erased_tokens (forget_live begun name) name token ∙ settle_tokens env h name)
        ∙ e in
      let (mute, refused) =
        revoked_mute (on_state unnamed token mark_revoked) token st
          (marked_state unnamed token st there) in
      let names =
        erased_names (forget_live begun name) name token
        ∙ (settle-SameBook env h name).token_to_name in
      rw (e, r, q, delete_self)
        (
          refl,
          erased-Forgotten (forget_live begun name) begun name token left tokens
              (λ t.
                subst (λ m. get t (remove token m) ≢ some name) (sym names)
                  (remove-unnamed h token name t b q))
              refl refl refl refl refl refl refl,
          Untouched-trans (settle-Untouched env h name)
              (erased-Untouched begun name token left tokens),
          mute,
          refused,
        )

  -- A governor deletes a participant: the call succeeds. Then no token resolves to the name, and the
  -- name has no token, agent, registration, count of streams, queue, pending request, entry of the
  -- roster, governor flag, grant or denial block. Claims, reply windows and held messages stay as they
  -- were. The token that held the name, if it is known, resolves to no name and is refused.
  pub revoke_by_name_lem :
      (name gov : Text)
      → validate_governor_token h gov ≡ ok tt
      → ((revoke_by_name env h name gov).0 ≡ ok tt)
        × Forgotten (revoke_by_name env h name gov).1 name (unwrap_or (get name h.name_to_token) [])
        × Untouched h (revoke_by_name env h name gov).1
        × ((token : Text) (st : ListenTokenState)
            → get name h.name_to_token ≡ some token
            → get token h.listen_tokens ≡ some st
            → (name_for_bearer_token (revoke_by_name env h name gov).1 token ≡ none)
              × (live_state (revoke_by_name env h name gov).1 token ≡ err token_revoked))
  unfolding revoke_by_name
  revoke_by_name_lem name gov v =
      let begun = (begin_settle_offline env h name).1 in
      let same = (settle-SameBook env h name).name_to_token in
      let whole = deleted begun name (get name begun.name_to_token) in
      rw (v, revoke_by_name)
        (
          refl,
          subst (λ m. Forgotten whole name (unwrap_or (get name m) [])) same
              (deleted-Forgotten begun name (get name begun.name_to_token)),
          Untouched-trans (settle-Untouched env h name)
              (deleted-Untouched begun name (get name begun.name_to_token)),
          λ token st q e.
              subst
                (λ o.
                  (name_for_bearer_token (deleted begun name o) token ≡ none)
                  × (live_state (deleted begun name o) token ≡ err token_revoked))
                (sym (ap (get name) same ∙ q))
                (revoked_mute (deleted begun name (some token)) token st (
                  deleted_state begun name token st
                    (ap (get token) (settle_tokens env h name) ∙ e))),
        )
