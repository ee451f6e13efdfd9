-- ===== src/Hub/Names/Book/Taking.antt =====
-- When an announcement succeeds (announce of delivery.rs), and what a success means.
use simple_im.Base.{
  List, ◌≡◌, refl, ap, ◌∙◌, inl, inr, Bool, true, false, not, ◌&&◌, ◌||◌, Option, none, some, arith,
  if◌then◌else◌, ◌==◌, Bool-cases, Option-cases,
}
use simple_im.Base.Text.{Text, text_Eq, text_eq, text_eq_iff}
use simple_im.Base.Map.{get, remove, contains_key, get-insert_self, get-update}
use simple_im.Error.{Result, ok}
use simple_im.Registry.{is_online}
use simple_im.Hub.Sets.{contains}
use simple_im.Hub.State.{ListenTokenState, HubInner, Effect}
use simple_im.Hub.Peers.{Env}
use simple_im.Hub.Queue.{touch_token}
use simple_im.Hub.Names.{
  AnnounceResult, bind_name, gc_tokens, bound, name_in_use, resolution_stream, claim_name,
  announce_unheld, announce_as, announce_collected, announce,
}
use simple_im.Hub.Names.Book.Quiet.{claim_name-SameBook}

-- Neither a live registration nor a registered identity stands under the name.
abbrev pub is_free : Env → HubInner → Text → Bool
is_free env h name = not (is_online h.registry env.now name || contains h.identities name)

-- The token is the holder, or the holder, if any, is no known token and the name is free.
abbrev may_take : Env → HubInner → Text → Text → Option Text → Bool
may_take env h token name none = is_free env h name
may_take env h token name (some holder) =
    holder == token || (not (contains_key holder h.listen_tokens) && is_free env h name)

-- The answer that a Boolean test decides, and the holder after a success.
abbrev pub Answered : Bool → Text → Text → Result AnnounceResult × HubInner × List Effect → Type 0
Answered taken token name r =
    (r.0 ≡ (if taken then ok bound else ok (name_in_use (resolution_stream name))))
    × (taken ≡ true → get name r.1.name_to_token ≡ some token)

module _ (env : Env) (token name : Text) where
  claim_holds : (h : HubInner) → get name (claim_name env h token name).1.name_to_token ≡ some token
  unfolding bind_name
  claim_holds h =
      ap (get name) (claim_name-SameBook env h token name).name_to_token
      ∙ get-insert_self name token h.name_to_token

  claim_answer : (h : HubInner) → (claim_name env h token name).0 ≡ ok bound
  unfolding claim_name
  claim_answer h = refl

  unheld_answer :
      (h : HubInner) → Answered (is_free env h name) token name (announce_unheld env h token name)
  unfolding announce_unheld
  unheld_answer h = ground (arith, claim_holds h, claim_answer h)

  as_answer :
      (h : HubInner) (o : Option Text)
      → get name h.name_to_token ≡ o
      → Answered (may_take env h token name o) token name (announce_as env h token name o)
  unfolding announce_as
  as_answer h none e = unheld_answer h
  as_answer h (some holder) e = elim (Bool-cases (text_eq holder token)) [
    | inl q ↦ rw (q, announce_as) (refl, λ _. ground (arith, e, q, text_eq_iff holder token))
    | inr q ↦ elim (Option-cases (get holder h.listen_tokens)) [
      | inl f ↦
          rw (q, f, announce_as)
            (unheld_answer (record h { name_to_token = remove name h.name_to_token }))
      | inr (st, f) ↦ rw (q, f, announce_as) (refl, λ x. absurd (ground (arith, x)))
    ]
  ]

  may_take_touched :
      (h : HubInner) (o : Option Text)
      → may_take env (touch_token h env.now token) token name o ≡ may_take env h token name o
  unfolding touch_token
  may_take_touched h none = refl
  may_take_touched h (some holder) = elim (Option-cases (get holder h.listen_tokens)) [
    | inl f ↦ ground (
      arith,
      f,
      get-update token holder (λ s. record s { last_active = env.now }) h.listen_tokens,
    )
    | inr (st, f) ↦ ground (
      arith,
      f,
      get-update token holder (λ s. record s { last_active = env.now }) h.listen_tokens,
    )
  ]

  Answered-by :
      (may taken : Bool) (r : Result AnnounceResult × HubInner × List Effect)
      → may ≡ taken
      → Answered may token name r
      → Answered taken token name r
  Answered-by may taken r e a = rw (← e) a

  -- For a live token, once the collection is done, the announcement answers `bound` exactly when the
  -- token holds the name, or when the name's holder, if any, is no known token, no live
  -- registration stands under the name, and the roster has not got it. Else it answers that the
  -- name is in use. After `bound` the token holds the name.
  pub announce_lem :
      (h : HubInner) (st : ListenTokenState)
      → get token (gc_tokens env h).0.listen_tokens ≡ some st
      → st.revoked ≡ false
      → Answered
          (may_take env (gc_tokens env h).0 token name (get name (gc_tokens env h).0.name_to_token))
          token
          name
          (announce env h token name)
  unfolding announce announce_collected touch_token
  announce_lem h st e r =
      let g = (gc_tokens env h).0 in
      let o = get name g.name_to_token in
      rw (e, r, announce, announce_collected)
        (Answered-by (may_take env (touch_token g env.now token) token name o)
          (may_take env g token name o) (announce_as env (touch_token g env.now token) token name o)
          (may_take_touched g o) (as_answer (touch_token g env.now token) o refl))
