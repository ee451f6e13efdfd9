-- ===== src/Hub/Names/Book/Announce.antt =====
-- The announcement of a name (announce of delivery.rs): who gets the name, and who keeps theirs.
use simple_im.Base.{
  ◌≡◌, ◌∙◌, inl, inr, true, false, ◌||◌, Option, none, some, [], arith, Bool-cases, Option-cases,
}
use simple_im.Base.Text.{Text, text_Eq, text_eq, text_eq_iff}
use simple_im.Base.Map.{get, remove, get-insert, get-remove, get-remove_self}
use simple_im.Registry.{is_online}
use simple_im.Hub.Sets.{contains}
use simple_im.Hub.State.{ListenTokenState, HubInner}
use simple_im.Hub.Peers.{Env, cancel_settle_online}
use simple_im.Hub.Queue.{touch_token}
use simple_im.Hub.Names.{
  bind_name, gc_tokens, registered, announce_unheld, announce_as, announce_collected, announce,
}
use simple_im.Hub.Names.Book.{
  face, IsBound, SameBook, SameBook-trans, SameBook-IsBound, bind-IsBound,
}
use simple_im.Hub.Names.Book.Collect.{gc_tokens_lem}
use simple_im.Hub.Names.Book.Quiet.{
  touch-SameBook, cancel-SameBook, registered-SameBook, claim_name-SameBook, self-SameBook,
}

-- The invariant goes on to hold; whoever a token speaks for, it still holds; and a name of the
-- roster that nobody holds is still held by nobody.
pub record Safe (h h' : HubInner) : Type 0 where
  pub bound : IsBound h'
  pub holds : (t m : Text) → get t h.token_to_name ≡ some m → get m h'.name_to_token ≡ some t
  pub orphans :
      (m : Text)
      → contains h.identities m ≡ true
      → get m h.name_to_token ≡ none
      → get m h'.name_to_token ≡ none

pub SameBook-Safe : (h h' : HubInner) → IsBound h → SameBook h h' → Safe h h'
SameBook-Safe h h' b s = record {
  bound = SameBook-IsBound h h' s b;
  holds = λ t m e. rw s.name_to_token (b.owner t m e);
  orphans = λ m i e. rw s.name_to_token e;
}

-- A dangling entry is cleaned up.
abbrev undangled : HubInner → Text → HubInner
undangled h name = record h { name_to_token = remove name h.name_to_token }

undangled-Safe :
    (h : HubInner) (name holder : Text)
    → IsBound h
    → get name h.name_to_token ≡ some holder
    → get holder h.listen_tokens ≡ none
    → Safe h (undangled h name)
undangled-Safe h name holder b e gone = record {
  bound = record {
    owner = λ t n q. owned t n q;
    known = b.known;
    spoken = b.spoken;
    rostered = b.rostered;
    distinct = b.distinct;
    unique = b.unique;
  };
  holds = owned;
  orphans = λ m i q. ground (arith, get-remove name m h.name_to_token);
}
  where
    owned :
        (t n : Text) → get t h.token_to_name ≡ some n → get n (remove name h.name_to_token) ≡ some t
    owned t n q = ground (
      arith,
      get-remove name n h.name_to_token,
      text_eq_iff name n,
      b.owner t n q,
      b.known t n q,
      e,
      gone,
    )

-- A live token takes a name that nobody holds and that is not in the roster.
pub bind-Safe :
    (h : HubInner) (token name : Text) (o : Option Text)
    → IsBound h
    → face h token ≡ some (o, false)
    → get name h.name_to_token ≡ none
    → contains h.identities name ≡ false
    → Safe h (bind_name h token name)
unfolding bind_name
bind-Safe h token name o b live free new = record {
  bound = bind-IsBound h b token name o live free;
  holds = λ t m e.
      ground
        (arith, get-insert name m token h.name_to_token, text_eq_iff name m, b.owner t m e, free);
  orphans =
      λ m i e. ground (arith, get-insert name m token h.name_to_token, text_eq_iff name m, new, i);
}

pub Safe-SameBook : {a b c : HubInner} → Safe a b → SameBook b c → Safe a c
Safe-SameBook {a} {b} {c} p q = record {
  bound = SameBook-IsBound b c q p.bound;
  holds = λ t m e. rw q.name_to_token (p.holds t m e);
  orphans = λ m i e. rw q.name_to_token (p.orphans m i e);
}

undangled-then :
    (h : HubInner) (name holder : Text) (h' : HubInner)
    → IsBound h
    → get name h.name_to_token ≡ some holder
    → get holder h.listen_tokens ≡ none
    → Safe (undangled h name) h'
    → Safe h h'
undangled-then h name holder h' b e gone s = record {
  bound = s.bound;
  holds = s.holds;
  orphans = λ m i q. s.orphans m i (ground (arith, get-remove name m h.name_to_token, q));
}

pub SameBook-then : {a b c : HubInner} → SameBook a b → Safe b c → Safe a c
SameBook-then {a} {b} {c} q p = record {
  bound = p.bound;
  holds = λ t m e. p.holds t m (rw q.token_to_name e);
  orphans = λ m i e. p.orphans m (rw q.identities i) (rw q.name_to_token e);
}

-- What the collection keeps is kept.
pub collected-Safe :
    (env : Env) (h h' : HubInner) → IsBound h → Safe (gc_tokens env h).0 h' → Safe h h'
collected-Safe env h h' b s =
    let (quiet, left, names, kept) = gc_tokens_lem env h b [] in
    record {
      bound = s.bound;
      holds = λ t m e. s.holds t m (rw names.token_to_name e);
      orphans = λ m i e. s.orphans m (rw names.identities i) (rw names.name_to_token e);
    }

module _ (env : Env) (token name : Text) where
  unheld-Safe :
      (h : HubInner) (o : Option Text)
      → IsBound h
      → face h token ≡ some (o, false)
      → get name h.name_to_token ≡ none
      → Safe h (announce_unheld env h token name).1
  unfolding announce_unheld
  unheld-Safe h o b live free =
      elim (Bool-cases (is_online h.registry env.now name || contains h.identities name)) [
        | inl e ↦ rw (e, announce_unheld) (SameBook-Safe h h b (self-SameBook h))
        | inr e ↦
            rw (e, announce_unheld)
              (Safe-SameBook (bind-Safe h token name o b live free (ground (arith, e)))
                (claim_name-SameBook env h token name))
      ]

  as-Safe :
      (h : HubInner) (o : Option Text)
      → IsBound h
      → face h token ≡ some (o, false)
      → Safe h (announce_as env h token name (get name h.name_to_token)).1
  unfolding announce_as
  as-Safe h o b live = elim (Option-cases (get name h.name_to_token)) [
    | inl e ↦ rw (e, announce_as) (unheld-Safe h o b live e)
    | inr (holder, e) ↦ elim (Bool-cases (text_eq holder token)) [
      | inl q ↦
          rw (e, q, announce_as)
            (SameBook-Safe h (cancel_settle_online (registered env h token name) name) b (
              SameBook-trans (registered-SameBook env h token name)
                (cancel-SameBook (registered env h token name) name)))
      | inr q ↦ elim (Option-cases (get holder h.listen_tokens)) [
        | inr (st, f) ↦ rw (e, q, f, announce_as) (SameBook-Safe h h b (self-SameBook h))
        | inl f ↦
            rw (e, q, f, announce_as)
              (undangled-then h name holder (announce_unheld env (undangled h name) token name).1 b
                e f
                (unheld-Safe (undangled h name) o (undangled-Safe h name holder b e f).bound live
                  (get-remove_self name h.name_to_token)))
      ]
    ]
  ]

  face_touched :
      (h : HubInner) (st : ListenTokenState)
      → get token h.listen_tokens ≡ some st
      → st.revoked ≡ false
      → face h token ≡ some (st.name, false)
  face_touched h st e r = ground (arith, e, r)

  announce_collected-Safe :
      (h : HubInner) → IsBound h → Safe h (announce_collected env h token name).1
  unfolding announce_collected touch_token
  announce_collected-Safe h b = elim (Option-cases (get token h.listen_tokens)) [
    | inl e ↦ rw (e, announce_collected) (SameBook-Safe h h b (self-SameBook h))
    | inr (st, e) ↦ elim (Bool-cases st.revoked) [
      | inl r ↦ rw (e, r, announce_collected) (SameBook-Safe h h b (self-SameBook h))
      | inr r ↦
          let touch = touch-SameBook h env token in
          let h' = touch_token h env.now token in
          let s =
            as-Safe h' st.name (SameBook-IsBound h h' touch b)
              (touch.faces token ∙ face_touched h st e r) in
          rw (e, r, announce_collected) (SameBook-then touch s)
    ]
  ]

  -- Announcing a name keeps the invariant. Whoever a token speaks for, it still holds that name:
  -- nobody takes over a name that is held, live or stale. And a registered identity that nobody
  -- holds is still held by nobody.
  pub announce-Safe : (h : HubInner) → IsBound h → Safe h (announce env h token name).1
  unfolding announce
  announce-Safe h b =
      let (quiet, left, names, kept) = gc_tokens_lem env h b [] in
      collected-Safe env h (announce env h token name).1 b
        (announce_collected-Safe (gc_tokens env h).0 kept)
