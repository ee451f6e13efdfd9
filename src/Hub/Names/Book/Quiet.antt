-- ===== src/Hub/Names/Book/Quiet.antt =====
-- Steps of delivery.rs that leave the names, the roster and what tokens are called as they are.
use simple_im.Base.{
  ℕ, ◌≡◌, refl, inl, inr, true, List, [], ◌∷◌, any, Bool-cases, Option-cases, not, ◌||◌,
}
use simple_im.Base.Text.{Text, text_Eq}
use simple_im.Base.Map.{get}
use simple_im.Hub.State.{HubInner, is_sse_alive_in_hub}
use simple_im.Trust.Chain.{is_governor}
use simple_im.Hub.Queue.{queue_of, push_back, take_notify, touch_token}
use simple_im.Hub.Peers.{
  Env, grant_peer_presence_senders, settle_of, begin_settle_offline, cancel_settle_online,
}
use simple_im.Hub.Names.{
  is_breadcrumb, maybe_enqueue_governor_breadcrumb, registered, remind_governor, bind_name,
  claim_name,
}
use simple_im.Hub.Names.Book.{SameBook, SameBook-trans, update-SameBook}

-- The four fields are the same, by computation.
pub self-SameBook : (h : HubInner) → SameBook h h
self-SameBook h = record {
  token_to_name = refl;
  name_to_token = refl;
  identities = refl;
  faces = λ t. refl;
  distinct = λ d. d;
}

pub senders-SameBook :
    (env : Env) (h : HubInner) (name : Text) → SameBook h (grant_peer_presence_senders env h name).1
unfolding grant_peer_presence_senders
senders-SameBook env h name = record {
  token_to_name = refl;
  name_to_token = refl;
  identities = refl;
  faces = λ t. refl;
  distinct = λ d. d;
}

pub settle-SameBook :
    (env : Env) (h : HubInner) (name : Text) → SameBook h (begin_settle_offline env h name).1
unfolding begin_settle_offline
settle-SameBook env h name =
    settled (grant_peer_presence_senders env h name) (senders-SameBook env h name)
  where
    settled : (p : List ℕ × HubInner) → SameBook h p.1 → SameBook h (settle_of name p).1
    settled ([], h') s = s
    settled (tx ∷ more, h') s = record {
      token_to_name = s.token_to_name;
      name_to_token = s.name_to_token;
      identities = s.identities;
      faces = s.faces;
      distinct = s.distinct;
    }

-- The settle timer touches no token.
pub settle_tokens :
    (env : Env) (h : HubInner) (name : Text)
    → (begin_settle_offline env h name).1.listen_tokens ≡ h.listen_tokens
unfolding begin_settle_offline grant_peer_presence_senders
settle_tokens env h name = settled (grant_peer_presence_senders env h name) refl
  where
    settled :
        (p : List ℕ × HubInner)
        → p.1.listen_tokens ≡ h.listen_tokens
        → (settle_of name p).1.listen_tokens ≡ h.listen_tokens
    settled ([], h') s = s
    settled (tx ∷ more, h') s = s

pub touch-SameBook :
    (h : HubInner) (env : Env) (token : Text) → SameBook h (touch_token h env.now token)
unfolding touch_token
touch-SameBook h env token = update-SameBook h token _ (λ st. refl)

pub cancel-SameBook : (h : HubInner) (name : Text) → SameBook h (cancel_settle_online h name)
unfolding cancel_settle_online
cancel-SameBook h name = record {
  token_to_name = refl;
  name_to_token = refl;
  identities = refl;
  faces = λ t. refl;
  distinct = λ d. d;
}

pub registered-SameBook :
    (env : Env) (h : HubInner) (token name : Text) → SameBook h (registered env h token name)
registered-SameBook env h token name = record {
  token_to_name = refl;
  name_to_token = refl;
  identities = refl;
  faces = λ t. refl;
  distinct = λ d. d;
}

pub breadcrumb-SameBook :
    (env : Env) (h : HubInner) (name : Text)
    → SameBook h (maybe_enqueue_governor_breadcrumb env h name)
unfolding maybe_enqueue_governor_breadcrumb push_back
breadcrumb-SameBook env h name = elim (Bool-cases (any is_breadcrumb (queue_of h name))) [
  | inl e ↦ rw (e, maybe_enqueue_governor_breadcrumb) (self-SameBook h)
  | inr e ↦
      rw (e, maybe_enqueue_governor_breadcrumb)
        (record {
          token_to_name = refl;
          name_to_token = refl;
          identities = refl;
          faces = λ t. refl;
          distinct = λ d. d;
        })
]

take_notify-SameBook : (h : HubInner) (name : Text) → SameBook h (take_notify h name).1
unfolding take_notify
take_notify-SameBook h name = elim (Option-cases (get name h.name_to_token)) [
  | inl e ↦ rw (e, take_notify) (self-SameBook h)
  | inr (token, e) ↦ elim (Option-cases (get token h.listen_tokens)) [
    | inl f ↦ rw (e, f, take_notify) (self-SameBook h)
    | inr (st, f) ↦
        elim (Bool-cases
          (st.notify_suppressed || not (is_sse_alive_in_hub token h.sse_connections))) [
            | inl q ↦ rw (e, f, q, take_notify) (self-SameBook h)
            | inr q ↦
                rw (e, f, q, take_notify)
                  (update-SameBook h token (λ s. record s { notify_suppressed = true }) (λ s. refl))
          ]
  ]
]

remind-SameBook :
    (env : Env) (h : HubInner) (name : Text) → SameBook h (remind_governor env h name).1
remind-SameBook env h name = elim (Bool-cases (is_governor h.trust name)) [
  | inl e ↦ rw e (
      SameBook-trans (breadcrumb-SameBook env h name)
        (take_notify-SameBook (maybe_enqueue_governor_breadcrumb env h name) name))
  | inr e ↦ rw e (self-SameBook h)
]

-- Past the guards, the announcement is the binding and steps that leave the book alone.
pub claim_name-SameBook :
    (env : Env) (h : HubInner) (token name : Text)
    → SameBook (bind_name h token name) (claim_name env h token name).1
unfolding claim_name
claim_name-SameBook env h token name =
    let claimed = registered env (bind_name h token name) token name in
    let reminded = (remind_governor env claimed name).1 in
    SameBook-trans (registered-SameBook env (bind_name h token name) token name) (
      SameBook-trans (remind-SameBook env claimed name) (
        SameBook-trans (cancel-SameBook reminded name)
          (senders-SameBook env (cancel_settle_online reminded name) name)))
