-- ===== src/Hub/Names/Book/Leave.antt =====
-- A participant that cancels its stream or deletes itself, and a token that is revoked
-- (cancel_listen, delete_self and revoke_token of delivery.rs), keep the book.
use simple_im.Base.{
  ◌≡◌, refl, ap, ◌∙◌, inl, inr, true, false, Option, none, some, arith, if◌then◌else◌, ◌==◌,
  Bool-cases, Option-cases,
}
use simple_im.Base.Text.{Text, text_Eq, text_eq_iff}
use simple_im.Base.Map.{get, remove, get-remove, get-update}
use simple_im.Base.Map.Distinct.{remove-Distinct, update-Distinct}
use simple_im.Error.{Result-cases}
use simple_im.Trust.Chain.{purge_grants_for}
use simple_im.Hub.Sets.{set_remove, contains-set_remove}
use simple_im.Hub.State.{ListenTokenState, HubInner, is_sse_alive_in_hub, validate_governor_token}
use simple_im.Hub.Denial.{purge_denial_blocks_for}
use simple_im.Hub.Peers.{Env, begin_settle_offline}
use simple_im.Hub.Names.Book.{face, face_of, IsBound, SameBook-IsBound}
use simple_im.Hub.Names.Book.Quiet.{settle-SameBook, settle_tokens}
use simple_im.Hub.Names.Book.Streams.{settle_for-SameBook}
use simple_im.Hub.Names.Book.Parting.{Stripped, Stripped-Parted, Parted-IsBound}
use simple_im.Hub.Listening.{on_state}
use simple_im.Hub.Listening.Closing.{settle_for, unbind, cancel_listen}
use simple_im.Hub.Removal.{mark_revoked, revoke_token, forget_live, forget_identity, delete_self}

-- The face of every token after one state is written.
face-on_state :
    (h : HubInner) (t j : Text) (f : ListenTokenState → ListenTokenState) (st : ListenTokenState)
    → get t h.listen_tokens ≡ some st
    → face (on_state h t f) j ≡ (if t == j then some (face_of (f st)) else face h j)
face-on_state h t j f st e = elim (Option-cases (get j h.listen_tokens)) [
  | inl q ↦ ground (arith, q, e, get-update t j f h.listen_tokens, text_eq_iff t j)
  | inr (s, q) ↦ ground (arith, q, e, get-update t j f h.listen_tokens, text_eq_iff t j)
]

-- The cancelled token, without its name, on a hub with the same book as `h`.
module _ (h : HubInner) (t : Text) (st : ListenTokenState) (b : IsBound h)
    (e : get t h.listen_tokens ≡ some st) (live : st.revoked ≡ false) where
  abbrev blank : ListenTokenState → ListenTokenState
  blank s = record s { name = none; sse_sender = none }

  abbrev disconnected : HubInner
  disconnected = record h { sse_connections = remove t h.sse_connections }

  -- A token that resolves to no name has none.
  unnamed-Stripped :
      get t h.token_to_name ≡ none → Stripped h (on_state disconnected t blank) t (none, false)
  unnamed-Stripped q = record {
    names = λ j. ground (arith, q, text_eq_iff t j);
    held = λ m. rw q;
    faces = λ j. ground (arith, live, face-on_state disconnected t j blank st e);
    roster = λ m g i. i;
    silent = λ n k. cc;
    distinct = update-Distinct t blank h.listen_tokens b.distinct;
    unique = b.unique;
  }

  named-Stripped :
      (name : Text)
      → get t h.token_to_name ≡ some name
      → Stripped h (on_state (unbind disconnected t (some name)) t blank) t (none, false)
  named-Stripped name q = record {
    names = λ j. get-remove t j h.token_to_name;
    held = λ m. rw q (get-remove name m h.name_to_token);
    faces = λ j. ground (arith, live, face-on_state disconnected t j blank st e);
    roster = λ m g i. i;
    silent = λ n k. cc;
    distinct = update-Distinct t blank h.listen_tokens b.distinct;
    unique = remove-Distinct t h.token_to_name b.unique;
  }

  cancelled-IsBound :
      (o : Option Text)
      → get t h.token_to_name ≡ o
      → IsBound (on_state (unbind disconnected t o) t blank)
  cancelled-IsBound none q =
      Parted-IsBound h _ _ b (Stripped-Parted h _ t (none, false) b (unnamed-Stripped q))
  cancelled-IsBound (some name) q =
      Parted-IsBound h _ _ b (Stripped-Parted h _ t (none, false) b (named-Stripped name q))

-- Any token may be marked as revoked.
revoked-IsBound : (h : HubInner) (t : Text) → IsBound h → IsBound (on_state h t mark_revoked)
revoked-IsBound h t b = record {
  owner = b.owner;
  known = λ j m q. ground (
    arith,
    get-update t j mark_revoked h.listen_tokens,
    Option-cases (get j h.listen_tokens),
    b.known j m q,
  );
  spoken = λ j m q. ground (
    arith,
    get-update t j mark_revoked h.listen_tokens,
    Option-cases (get j h.listen_tokens),
    b.spoken j m,
  );
  rostered = λ j m q. ground (
    arith,
    get-update t j mark_revoked h.listen_tokens,
    Option-cases (get j h.listen_tokens),
    b.rostered j m,
  );
  distinct = update-Distinct t mark_revoked h.listen_tokens b.distinct;
  unique = b.unique;
}

settle_for_tokens :
    (env : Env) (h : HubInner) (name : Option Text)
    → (settle_for env h name).1.listen_tokens ≡ h.listen_tokens
settle_for_tokens env h none = refl
settle_for_tokens env h (some name) = settle_tokens env h name

module _ (env : Env) (h : HubInner) (token : Text) (b : IsBound h) where
  pub cancel_listen-IsBound : IsBound (cancel_listen env h token).1
  unfolding cancel_listen
  cancel_listen-IsBound = elim (Option-cases (get token h.listen_tokens)) [
    | inl e ↦ rw (e, cancel_listen) b
    | inr (st, e) ↦ elim (Bool-cases st.revoked) [
      | inl r ↦ rw (e, r, cancel_listen) b
      | inr r ↦ elim (Bool-cases (is_sse_alive_in_hub token h.sse_connections)) [
        | inr a ↦ rw (e, r, a, cancel_listen) b
        | inl a ↦
            let name = get token h.token_to_name in
            let s = settle_for-SameBook env h name in
            let begun = (settle_for env h name).1 in
            rw (e, r, a, cancel_listen)
              (cancelled-IsBound begun token st (SameBook-IsBound h begun s b)
                (ap (get token) (settle_for_tokens env h name) ∙ e) r name
                (ap (get token) s.token_to_name))
      ]
    ]
  ]

  pub revoke_token-IsBound : (gov : Text) → IsBound (revoke_token env h token gov).1
  unfolding revoke_token
  revoke_token-IsBound gov =
      let name = get token h.token_to_name in
      let begun = (settle_for env h name).1 in
      let kept = SameBook-IsBound h begun (settle_for-SameBook env h name) b in
      elim (Result-cases (validate_governor_token h gov)) [
        | inr (x, e) ↦ rw (e, revoke_token) b
        | inl (x, e) ↦ elim (Option-cases (get token begun.listen_tokens)) [
          | inl q ↦ rw (e, q, revoke_token) kept
          | inr (st, q) ↦ elim (Bool-cases st.revoked) [
            | inl r ↦ rw (e, q, r, revoke_token) kept
            | inr r ↦ rw (e, q, r, revoke_token) (revoked-IsBound begun token kept)
          ]
        ]
      ]

-- The identity goes from the roster, and nothing else of the book.
record Purged (h h' : HubInner) (name : Text) : Type 0 where
  pub token_to_name : h'.token_to_name ≡ h.token_to_name
  pub name_to_token : h'.name_to_token ≡ h.name_to_token
  pub identities : h'.identities ≡ set_remove name h.identities
  pub listen_tokens : h'.listen_tokens ≡ h.listen_tokens

forget_identity-Purged :
    (h : HubInner) (name identity : Text) → Purged h (forget_identity h name identity).0 name
unfolding forget_identity purge_grants_for purge_denial_blocks_for
forget_identity-Purged h name identity = record {
  token_to_name = refl;
  name_to_token = refl;
  identities = refl;
  listen_tokens = refl;
}

module _ (h : HubInner) (token name : Text) (st : ListenTokenState) (b : IsBound h)
    (e : get token h.listen_tokens ≡ some st) (q : get token h.token_to_name ≡ some name) where
  abbrev forgotten : Text → HubInner
  forgotten identity = (forget_identity (forget_live h name) name identity).0

  abbrev left : Text → HubInner
  left identity =
      on_state
        (record (forgotten identity) {
          token_to_name = remove token (forgotten identity).token_to_name;
        })
        token mark_revoked

  -- What is left by a participant that deletes itself.
  deleted-Stripped : (identity : Text) → Stripped h (left identity) token (st.name, true)
  unfolding forget_identity purge_grants_for purge_denial_blocks_for
  deleted-Stripped identity = record {
    names = λ j. get-remove token j h.token_to_name;
    held = λ m. rw q (get-remove name m h.name_to_token);
    faces = λ j. ground (
      arith,
      e,
      get-update token j mark_revoked h.listen_tokens,
      Option-cases (get j h.listen_tokens),
      text_eq_iff token j,
    );
    roster = λ m g i. ground (arith, contains-set_remove name m h.identities, g, q, i);
    silent = λ n k. cc;
    distinct = update-Distinct token mark_revoked h.listen_tokens b.distinct;
    unique = remove-Distinct token h.token_to_name b.unique;
  }

  deleted-IsBound : (identity : Text) → IsBound (left identity)
  deleted-IsBound identity =
      Parted-IsBound h _ _ b
        (Stripped-Parted h _ token (st.name, true) b (deleted-Stripped identity))

-- A token without a name is deleted.
module _ (h : HubInner) (token : Text) (st : ListenTokenState) (b : IsBound h)
    (e : get token h.listen_tokens ≡ some st) (q : get token h.token_to_name ≡ none) where
  abbrev plain : HubInner
  plain = record h { token_to_name = remove token h.token_to_name }

  plain-Stripped : Stripped h (on_state plain token mark_revoked) token (st.name, true)
  plain-Stripped = record {
    names = λ j. get-remove token j h.token_to_name;
    held = λ m. rw q;
    faces = λ j. ground (
      arith,
      e,
      get-update token j mark_revoked h.listen_tokens,
      Option-cases (get j h.listen_tokens),
      text_eq_iff token j,
    );
    roster = λ m g i. i;
    silent = λ n k. cc;
    distinct = update-Distinct token mark_revoked h.listen_tokens b.distinct;
    unique = remove-Distinct token h.token_to_name b.unique;
  }

pub delete_self-IsBound :
    (env : Env) (h : HubInner) (token : Text) → IsBound h → IsBound (delete_self env h token).1
unfolding delete_self
delete_self-IsBound env h token b = elim (Option-cases (get token h.listen_tokens)) [
  | inl e ↦ rw (e, delete_self) b
  | inr (st, e) ↦ elim (Bool-cases st.revoked) [
    | inl r ↦ rw (e, r, delete_self) b
    | inr r ↦ elim (Option-cases (get token h.token_to_name)) [
      | inl q ↦
          rw (e, r, q, delete_self)
            (Parted-IsBound h (on_state (plain h token st b e q) token mark_revoked) _ b
              (Stripped-Parted h _ token (st.name, true) b (plain-Stripped h token st b e q)))
      | inr (name, q) ↦
          let s = settle-SameBook env h name in
          let begun = (begin_settle_offline env h name).1 in
          rw (e, r, q, delete_self)
            (deleted-IsBound begun token name st (SameBook-IsBound h begun s b)
              (ap (get token) (settle_tokens env h name) ∙ e) (ap (get token) s.token_to_name ∙ q)
              token)
    ]
  ]
]
