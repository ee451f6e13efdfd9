-- ===== src/Hub/Names/Book/Streams.antt =====
-- Opening and losing a stream (open_listen and close_listen of delivery.rs) keep the book, and bind
-- a name only where an announcement would.
use simple_im.Base.{
  ℕ, ◌≡◌, refl, ◌∙◌, inl, inr, Bool, true, false, ◌||◌, ◌-◌, Option, none, some, List, [], arith,
  eqb, leb, Bool-cases, Option-cases,
}
use simple_im.Base.Text.{Text, text_Eq, text_eq}
use simple_im.Base.Map.{Map, get, update, remove}
use simple_im.Trust.Chain.{is_governor}
use simple_im.Registry.{is_online}
use simple_im.Hub.Sets.{contains}
use simple_im.Hub.State.{ListenTokenState, HubInner, Effect}
use simple_im.Hub.Peers.{Env, cancel_settle_online}
use simple_im.Hub.Names.{bind_name, gc_tokens, maybe_enqueue_governor_breadcrumb}
use simple_im.Hub.Names.Book.{
  face, face_of, IsBound, SameBook, SameBook-trans, SameBook-IsBound, rewrite-SameBook,
  update-SameBook,
}
use simple_im.Hub.Names.Book.Collect.{gc_tokens_lem}
use simple_im.Hub.Names.Book.Quiet.{
  self-SameBook, senders-SameBook, settle-SameBook, cancel-SameBook, breadcrumb-SameBook,
}
use simple_im.Hub.Names.Book.Announce.{
  Safe, SameBook-Safe, SameBook-then, Safe-SameBook, bind-Safe, collected-Safe,
}
use simple_im.Hub.Listening.{
  ListenArgs, reattach, note_ip, opened, count_stream, bind_fresh, bind_as, bind_inline, waiting,
  catch_up, open_for, open_past, open_collected, open_listen,
}
use simple_im.Hub.Listening.Closing.{
  dropped_name, uncount_stream, clear_closed, settle_for, close_listen,
}

-- A live token that has a name has its entry.
reattach_id :
    (h : HubInner) (token : Text) (st : ListenTokenState)
    → IsBound h
    → get token h.listen_tokens ≡ some st
    → st.revoked ≡ false
    → reattach h token st.name ≡ h
reattach_id h token st b e r = elim (Option-cases st.name) [
  | inl q ↦ rw q
  | inr (name, q) ↦
      let spoken : get token h.token_to_name ≡ some name =
        b.spoken token name (ground (arith, e, r, q)) in
      rw (q, b.owner token name spoken)
]

note_face :
    (now : ℕ) (token : Text) (ip : Option Text) (st : ListenTokenState)
    → face_of (note_ip now token ip st).1 ≡ face_of st
note_face now token none st = refl
note_face now token (some ip) st = refl

module _ (env : Env) (token : Text) where
  fresh-SameBook :
      (h : HubInner) (name : Text)
      → SameBook (bind_name h token name) (bind_fresh env h token name).1
  unfolding bind_fresh
  fresh-SameBook h name =
      let named = cancel_settle_online (bind_name h token name) name in
      SameBook-trans (cancel-SameBook (bind_name h token name) name)
        (elim (Bool-cases (is_governor named.trust name)) [
          | inl e ↦ rw e (
              SameBook-trans (breadcrumb-SameBook env named name)
                (senders-SameBook env (maybe_enqueue_governor_breadcrumb env named name) name))
          | inr e ↦ rw e (senders-SameBook env named name)
        ])

  bind_as-Safe :
      (h : HubInner) (name : Text) (st o : Option Text)
      → IsBound h
      → face h token ≡ some (st, false)
      → get name h.name_to_token ≡ o
      → Safe h (bind_as env h token name o).1
  unfolding bind_as
  bind_as-Safe h name st (some holder) b live e = elim (Bool-cases (text_eq holder token)) [
    | inl q ↦
        rw (q, bind_as) (SameBook-Safe h (cancel_settle_online h name) b (cancel-SameBook h name))
    | inr q ↦ rw (q, bind_as) (SameBook-Safe h h b (self-SameBook h))
  ]
  bind_as-Safe h name st none b live e =
      elim (Bool-cases (is_online h.registry env.now name || contains h.identities name)) [
        | inl q ↦ rw (q, bind_as) (SameBook-Safe h h b (self-SameBook h))
        | inr q ↦
            rw (q, bind_as)
              (Safe-SameBook (bind-Safe h token name st b live e (ground (arith, q)))
                (fresh-SameBook h name))
      ]

  bind_inline-Safe :
      (h : HubInner) (name st : Option Text)
      → IsBound h
      → face h token ≡ some (st, false)
      → Safe h (bind_inline env h token name).1
  unfolding bind_inline
  bind_inline-Safe h none st b live = SameBook-Safe h h b (self-SameBook h)
  bind_inline-Safe h (some name) st b live = bind_as-Safe h name st _ b live refl

  abbrev started : HubInner → HubInner
  started h = record h { startup_announced = true }

  started-SameBook : (h : HubInner) → SameBook h (started h)
  started-SameBook h = record {
    token_to_name = refl;
    name_to_token = refl;
    identities = refl;
    faces = λ t. refl;
    distinct = λ d. d;
  }

  catch_up-SameBook : (h : HubInner) (tx : ℕ) → SameBook h (catch_up (started h) token tx).1
  catch_up-SameBook h tx =
      SameBook-trans (started-SameBook h) (elim (Bool-cases (eqb (waiting (started h) token) 0)) [
        | inl e ↦ rw e (
            update-SameBook (started h) token (λ s. record s { notify_suppressed = false })
              (λ s. refl))
        | inr e ↦ rw e (
            update-SameBook (started h) token (λ s. record s { notify_suppressed = true })
              (λ s. refl))
      ])

  module _ (args : ListenArgs) (tx : ℕ) where
    abbrev streaming : HubInner → ListenTokenState → HubInner
    streaming h st =
        count_stream
          (record h {
            listen_tokens =
                update token
                  (λ _.
                    opened env.now args.presence_push tx (note_ip env.now token args.peer_ip st).1)
                  h.listen_tokens;
          })
          token

    streaming-SameBook :
        (h : HubInner) (st : ListenTokenState)
        → get token h.listen_tokens ≡ some st
        → SameBook h (streaming h st)
    streaming-SameBook h st e =
        let s =
          rewrite-SameBook h token
            (λ _. opened env.now args.presence_push tx (note_ip env.now token args.peer_ip st).1)
            (λ s q. ground (arith, e, q, note_face env.now token args.peer_ip st)) in
        record {
          token_to_name = refl;
          name_to_token = refl;
          identities = refl;
          faces = s.faces;
          distinct = s.distinct;
        }

    -- Past the guards: the stream is opened, the name bound as asked, and the waiting notice given.
    opened-Safe :
        (h : HubInner) (st : ListenTokenState)
        → IsBound h
        → get token h.listen_tokens ≡ some st
        → st.revoked ≡ false
        → Safe h
            (catch_up
              (started (bind_inline env (streaming h st) token args.name_to_bind).1)
              token
              tx).1
    opened-Safe h st b e r =
        let s = streaming-SameBook h st e in
        let live : face h token ≡ some (st.name, false) = ground (arith, e, r) in
        SameBook-then s (
          Safe-SameBook
            (bind_inline-Safe (streaming h st) args.name_to_bind st.name
              (SameBook-IsBound h (streaming h st) s b) (s.faces token ∙ live))
            (catch_up-SameBook (bind_inline env (streaming h st) token args.name_to_bind).1 tx))

    open_for-Safe :
        (h : HubInner) (timers : List Effect) (st : ListenTokenState)
        → IsBound h
        → get token h.listen_tokens ≡ some st
        → st.revoked ≡ false
        → Safe h (open_for env h timers token args tx st).1
    unfolding open_for
    open_for-Safe h timers st b e r =
        rw (open_for, reattach_id h token st b e r) (opened-Safe h st b e r)

    open_past-Safe :
        (h : HubInner) (timers : List Effect) (st : ListenTokenState) (revoked active : Bool)
        → IsBound h
        → get token h.listen_tokens ≡ some st
        → st.revoked ≡ revoked
        → Safe h (open_past env h timers token args tx st revoked active).1
    unfolding open_past
    open_past-Safe h timers st true active b e r = SameBook-Safe h h b (self-SameBook h)
    open_past-Safe h timers st false true b e r = SameBook-Safe h h b (self-SameBook h)
    open_past-Safe h timers st false false b e r = open_for-Safe h timers st b e r

    open_collected-Safe :
        (h : HubInner) (timers : List Effect)
        → IsBound h
        → Safe h (open_collected env h timers token args tx).1
    unfolding open_collected
    open_collected-Safe h timers b = elim (Option-cases (get token h.listen_tokens)) [
      | inl e ↦ rw (e, open_collected) (SameBook-Safe h h b (self-SameBook h))
      | inr (st, e) ↦ rw (e, open_collected) (open_past-Safe h timers st st.revoked _ b e refl)
    ]

-- Opening a stream keeps the invariant. Whoever a token speaks for, it still holds that name, and a
-- registered identity that nobody holds is still held by nobody: binding a name while listening
-- takes no name that an announcement would not.
pub open_listen-Safe :
    (env : Env) (token : Option Text) (args : ListenArgs) (tx : ℕ) (h : HubInner)
    → IsBound h
    → Safe h (open_listen env h token args tx).1
unfolding open_listen
open_listen-Safe env none args tx h b = SameBook-Safe h h b (self-SameBook h)
open_listen-Safe env (some token) args tx h b =
    let (quiet, left, names, kept) = gc_tokens_lem env h b [] in
    collected-Safe env h (open_listen env h (some token) args tx).1 b
      (open_collected-Safe env token args tx (gc_tokens env h).0 (gc_tokens env h).1 kept)

pub settle_for-SameBook :
    (env : Env) (h : HubInner) (name : Option Text) → SameBook h (settle_for env h name).1
settle_for-SameBook env h none = self-SameBook h
settle_for-SameBook env h (some name) = settle-SameBook env h name

uncount-SameBook : (h : HubInner) (token : Text) → SameBook h (uncount_stream h token)
uncount-SameBook h token = elim (Option-cases (get token h.sse_connections)) [
  | inl e ↦ rw (e, uncount_stream) (self-SameBook h)
  | inr (count, e) ↦ elim (Bool-cases (leb count 1)) [
    | inl q ↦ rw (e, q, uncount_stream) (counted-SameBook h (remove token h.sse_connections))
    | inr q ↦
        rw (e, q, uncount_stream) (counted-SameBook h (update token (λ c. c - 1) h.sse_connections))
  ]
]
  where
    counted-SameBook :
        (g : HubInner) (m : Map Text ℕ) → SameBook g (record g { sse_connections = m })
    counted-SameBook g m = record {
      token_to_name = refl;
      name_to_token = refl;
      identities = refl;
      faces = λ t. refl;
      distinct = λ d. d;
    }

clear_face : (env : Env) (st : ListenTokenState) → face_of (clear_closed env st) ≡ face_of st
clear_face env st = ground arith

-- The loss of a stream changes no name.
pub close_listen-SameBook :
    (env : Env) (h : HubInner) (token : Text) → SameBook h (close_listen env h token).0
unfolding close_listen
close_listen-SameBook env h token =
    let begun = (settle_for env h (dropped_name h token)).1 in
    SameBook-trans (settle_for-SameBook env h (dropped_name h token)) (
      SameBook-trans (uncount-SameBook begun token)
        (update-SameBook (uncount_stream begun token) token (clear_closed env) (clear_face env)))
