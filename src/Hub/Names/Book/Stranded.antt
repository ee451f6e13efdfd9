-- ===== src/Hub/Names/Book/Stranded.antt =====
-- A token that announces a second name keeps the first (announce of delivery.rs), and the first
-- outlives the token.
use simple_im.Base.{
  ◌≡◌, ◌≢◌, refl, ap, ◌∙◌, inl, inr, true, false, ◌||◌, none, some, arith, Option-cases,
}
use simple_im.Base.Text.{Text, text_Eq, text_eq_iff, text_eq_self}
use simple_im.Base.Map.{get, remove, get-insert_self, get-remove}
use simple_im.Registry.{is_online}
use simple_im.Trust.Chain.{purge_grants_for}
use simple_im.Hub.Sets.{contains}
use simple_im.Hub.State.{ListenTokenState, HubInner}
use simple_im.Hub.Queue.{touch_token}
use simple_im.Hub.Denial.{purge_denial_blocks_for}
use simple_im.Hub.Peers.{Env}
use simple_im.Hub.Tokens.{name_for_bearer_token}
use simple_im.Hub.Names.{
  bind_name, gc_tokens, claim_name, announce_unheld, announce_as, announce_collected, announce,
}
use simple_im.Hub.Names.Book.{face, IsBound, face-name_token}
use simple_im.Hub.Names.Book.Quiet.{claim_name-SameBook, touch-SameBook, settle-SameBook}
use simple_im.Hub.Names.Book.Announce.{announce-Safe}
use simple_im.Hub.Names.Book.Taking.{is_free}
use simple_im.Hub.Removal.{delete_self, forget_identity}
use simple_im.Hub.Removal.Traces.{delete_self_lem}

module _ (env : Env) (h : HubInner) (token name : Text) (st : ListenTokenState)
    (e : get token (gc_tokens env h).0.listen_tokens ≡ some st) (r : st.revoked ≡ false)
    (free : get name (gc_tokens env h).0.name_to_token ≡ none)
    (open_to_all : is_free env (gc_tokens env h).0 name ≡ true) where
  abbrev touched : HubInner
  touched = touch_token (gc_tokens env h).0 env.now token

  claim_is : (is_online touched.registry env.now name || contains touched.identities name) ≡ false
  unfolding touch_token
  claim_is = ground (arith, open_to_all)

  -- The announcement of a free name is the claim.
  claims : (announce env h token name).1 ≡ (claim_name env touched token name).1
  unfolding announce announce_collected announce_as announce_unheld touch_token
  claims = rw (e, r, free, claim_is, announce, announce_collected, announce_as, announce_unheld)

  face_live : face touched token ≡ some (st.name, false)
  face_live = (touch-SameBook (gc_tokens env h).0 env token).faces token ∙ ground (arith, e, r)

  -- The token resolves to the new name, and is live.
  resolves_new : get token (announce env h token name).1.token_to_name ≡ some name
  unfolding bind_name
  resolves_new = rw claims (
      ap (get token) (claim_name-SameBook env touched token name).token_to_name
      ∙ get-insert_self token name touched.token_to_name)

  live_new : face (announce env h token name).1 token ≡ some (some name, false)
  unfolding bind_name
  live_new = rw claims (
      (claim_name-SameBook env touched token name).faces token
      ∙ face-name_token touched token name st.name token face_live
      ∙ rw (text_eq_self token) refl)

state_of :
    (h : HubInner) (t n : Text)
    → face h t ≡ some (some n, false)
    → (st : ListenTokenState) × (get t h.listen_tokens ≡ some st) × (st.revoked ≡ false)
state_of h t n e = elim (Option-cases (get t h.listen_tokens)) [
  | inl q ↦ absurd (ground (arith, q, e))
  | inr (st, q) ↦ (st, q, ground (arith, q, e))
]

-- A participant that deletes itself gives up the name that its token resolves to, and no other.
delete_self_names :
    (env : Env) (h : HubInner) (token name : Text) (st : ListenTokenState)
    → get token h.listen_tokens ≡ some st
    → st.revoked ≡ false
    → get token h.token_to_name ≡ some name
    → (delete_self env h token).1.name_to_token ≡ remove name h.name_to_token
unfolding delete_self forget_identity purge_grants_for purge_denial_blocks_for
delete_self_names env h token name st e r q =
    rw (e, r, q, delete_self) (ap (remove name) (settle-SameBook env h name).name_to_token)

-- A live token that resolves to a first name announces a second, free one, and then deletes itself.
-- Its token resolves to nothing, but still holds the first name.
pub first_name_stranded :
    (env later : Env) (h : HubInner) (token first second : Text) (st : ListenTokenState)
    → IsBound h
    → get token h.token_to_name ≡ some first
    → first ≢ second
    → get token (gc_tokens env h).0.listen_tokens ≡ some st
    → st.revoked ≡ false
    → get second (gc_tokens env h).0.name_to_token ≡ none
    → is_free env (gc_tokens env h).0 second ≡ true
    → (get first (delete_self later (announce env h token second).1 token).1.name_to_token
        ≡ some token)
      × (name_for_bearer_token (delete_self later (announce env h token second).1 token).1 token
          ≡ none)
first_name_stranded env later h token first second st b q ne e r free open_to_all =
    let h' = (announce env h token second).1 in
    let (state, found, live) =
      state_of h' token second (live_new env h token second st e r free open_to_all) in
    let resolves = resolves_new env h token second st e r free open_to_all in
    let (done, gone, kept, mute, refused) =
      delete_self_lem later h' token second state (announce-Safe env token second h b).bound found
        live resolves in
    (
      ap (get first) (delete_self_names later h' token second state found live resolves)
          ∙ ground (
            arith,
            get-remove second first h'.name_to_token,
            text_eq_iff second first,
            ne,
            (announce-Safe env token second h b).holds token first q,
          ),
      mute,
    )
