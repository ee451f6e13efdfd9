-- ===== src/Hub/Authority/Handover.antt =====
-- The transfer of the governor flag (delivery.rs), from the governor's call to the new governor's.
use simple_im.Base.{ℕ, ◌≡◌, ◌≢◌, refl, ap, ◌∙◌, true, false, some, List, [], ◌∷◌, arith}
use simple_im.Base.Text.{Text, text_Eq, text_eq_iff, text_eq_self, is_text}
use simple_im.Base.Map.{get, remove, get-insert_self}
use simple_im.Error.{ok, err, forbidden}
use simple_im.Trust.Chain.{TrustChain, is_governor}
use simple_im.Trust.Transfer.{hex_text, transfer_governor, accept_governor_transfer}
use simple_im.Hub.State.{ListenTokenState, HubInner, store_governor, validate_governor_token}
use simple_im.Hub.Authority.{begin_transfer, accept_transfer}

module _ (h : HubInner) (bytes : List ℕ) (token bearer from name : Text)
    (st heir : ListenTokenState) (listening : get token h.listen_tokens ≡ some st)
    (live : st.revoked ≡ false) (named : get token h.token_to_name ≡ some from)
    (governs : h.trust.governor_identity ≡ some from)
    (heir_listening : get bearer h.listen_tokens ≡ some heir) (heir_live : heir.revoked ≡ false)
    (heir_named : get bearer h.token_to_name ≡ some name) where
  abbrev offered : HubInner
  offered = (begin_transfer h bytes token (some name)).1

  holds_flag : is_text h.trust.governor_identity from ≡ true
  holds_flag = ap (λ o. is_text o from) governs ∙ text_eq_self from

  valid : validate_governor_token h token ≡ ok tt
  unfolding validate_governor_token is_governor
  valid = rw (validate_governor_token, listening, live, named, is_governor, holds_flag) refl

  begun : begin_transfer h bytes token (some name) ≡ (
    ok (hex_text bytes),
    record h { trust = (transfer_governor h.trust bytes from (some name)).1 },
    [],
  )
  unfolding begin_transfer transfer_governor
  begun = rw (begin_transfer, valid, named) refl

  -- The trust chain once the flag has moved.
  abbrev moved : TrustChain
  moved =
      let t = (transfer_governor h.trust bytes from (some name)).1 in
      record t {
        pending_transfers = remove (hex_text bytes) t.pending_transfers;
        governor_identity = some name;
      }

  taken :
      accept_governor_transfer
        (transfer_governor h.trust bytes from (some name)).1
        (hex_text bytes)
        name
      ≡ (ok tt, moved)
  unfolding accept_governor_transfer transfer_governor
  taken =
      rw
        (
          accept_governor_transfer,
          get-insert_self (hex_text bytes)
              (record { from_identity = from; to_identity = some name }) h.trust.pending_transfers,
          text_eq_self name,
          holds_flag,
        )
        refl

  accepts :
      accept_transfer
        (record h { trust = (transfer_governor h.trust bytes from (some name)).1 })
        bearer
        (hex_text bytes)
      ≡ (ok tt, record h { trust = moved }, store_governor (some name) ∷ [])
  unfolding accept_transfer transfer_governor
  accepts = rw (accept_transfer, heir_listening, heir_live, heir_named, taken) refl

  loses : from ≢ name → validate_governor_token (record h { trust = moved }) token ≡ err forbidden
  unfolding validate_governor_token is_governor
  loses other = ground (arith, listening, live, named, text_eq_iff name from)

  gains : validate_governor_token (record h { trust = moved }) bearer ≡ ok tt
  unfolding validate_governor_token is_governor
  gains = ground (arith, heir_listening, heir_live, heir_named, text_eq_self name)

  -- A transfer that the governor begins for a named participant, and that this participant accepts
  -- with a live token, moves the flag: the participant's token passes the governor check from then
  -- on, and the old governor's is refused.
  pub handover :
      from ≢ name
      → ((begin_transfer h bytes token (some name)).0 ≡ ok (hex_text bytes))
        × ((accept_transfer offered bearer (hex_text bytes)).0 ≡ ok tt)
        × (validate_governor_token (accept_transfer offered bearer (hex_text bytes)).1 bearer
            ≡ ok tt)
        × (validate_governor_token (accept_transfer offered bearer (hex_text bytes)).1 token
            ≡ err forbidden)
  handover other =
      let ended = ap (λ r. accept_transfer r.1 bearer (hex_text bytes)) begun ∙ accepts in
      (
        ap (λ r. r.0) begun,
        ap (λ r. r.0) ended,
        ap (λ r. validate_governor_token r.1 bearer) ended ∙ gains,
        ap (λ r. validate_governor_token r.1 token) ended ∙ loses other,
      )
