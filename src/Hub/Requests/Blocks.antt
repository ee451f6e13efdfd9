-- ===== src/Hub/Requests/Blocks.antt =====
-- What a denial block (delivery.rs) does to the requests of the sender it names.
use simple_im.Base.{
  ℕ, ◌≡◌, refl, ap, ◌∙◌, true, false, not, ◌&&◌, Option, some, List, [], Bool-cases, inl, inr,
}
use simple_im.Base.Text.{Text, text_Eq, pair_Eq, codes}
use simple_im.Base.Map.{get, insert, remove, get-insert_self}
use simple_im.Error.{ok, err, grant_blocked}
use simple_im.Hub.State.{
  ConnectionRequest, DenialBlock, HubInner, Notice, ListenTokenState, grant_denied, holds_flag,
}
use simple_im.Hub.Denial.{is_active, blocked_by}
use simple_im.Hub.Governance.{system_message}
use simple_im.Hub.Governance.Frame.{told-Frame}
use simple_im.Hub.Requests.{check_block, request_grant}
use simple_im.Hub.Requests.Decide.{is_recipient, deny_grant_request}

module _ (render : Notice → List ℕ) where
  -- While a block stands against a sender and a recipient, `request_grant` from that sender
  -- answers with the reason of the block, and neither the state nor the outside sees anything,
  -- whatever the clock, the reason given and the request to update.
  pub blocked_lem :
      (h : HubInner) (now now' now_secs : ℕ) (token to_name : Text) (reason update_id : Option Text)
      (st : ListenTokenState) (block : DenialBlock)
      → get token h.listen_tokens ≡ some st
      → st.revoked ≡ false
      → get (token, to_name) h.denial_blocks ≡ some block
      → is_active now_secs block ≡ true
      → request_grant render h now now' now_secs token to_name reason update_id
        ≡ (err (grant_blocked block.reason), h, [])
  unfolding request_grant check_block
  blocked_lem h now now' now_secs token to_name reason update_id st block listening live blocked
        active =
      rw (request_grant, listening, live, check_block, blocked, active) refl

  deny-blocks :
      (h : HubInner) (token request_id reason : Text) (expires_at : Option ℕ)
      (req : ConnectionRequest)
      → get request_id h.connection_requests ≡ some req
      → (deny_grant_request render h token request_id reason expires_at).0 ≡ ok tt
      → (deny_grant_request render h token request_id reason expires_at).1.denial_blocks
        ≡ insert
            (req.from_identity, req.to_name)
            (record { reason = reason; expires_at = expires_at })
            h.denial_blocks
  unfolding deny_grant_request
  deny-blocks h token request_id reason expires_at req e =
      elim (Bool-cases (not (holds_flag h token) && not (is_recipient h token req))) [
        | inl refused ↦ rw (e, refused, deny_grant_request) (λ q. cc)
        | inr allowed ↦
            let blocked = blocked_by h req.from_identity req.to_name reason expires_at in
            let closed = record blocked {
              connection_requests = remove request_id blocked.connection_requests;
            } in
            rw (e, allowed, deny_grant_request)
              (λ q.
                (told-Frame closed req.from_name (
                  system_message (render (grant_denied request_id req.to_name reason))
                    (codes "grant_denied"))).denial_blocks)
      ]

  -- Once a request is denied, its sender is refused with the reason of the denial at every further
  -- request for that recipient, as long as the denial has not run out and the sender's token is
  -- live.
  pub denied_is_blocked :
      (h : HubInner) (token request_id reason : Text) (expires_at : Option ℕ)
      (req : ConnectionRequest) (now now' now_secs : ℕ) (why update_id : Option Text)
      (st : ListenTokenState)
      → get request_id h.connection_requests ≡ some req
      → (deny_grant_request render h token request_id reason expires_at).0 ≡ ok tt
      → get req.from_identity
          (deny_grant_request render h token request_id reason expires_at).1.listen_tokens
        ≡ some st
      → st.revoked ≡ false
      → is_active now_secs (record { reason = reason; expires_at = expires_at }) ≡ true
      → (request_grant render
          (deny_grant_request render h token request_id reason expires_at).1
          now
          now'
          now_secs
          req.from_identity
          req.to_name
          why
          update_id).0
        ≡ err (grant_blocked reason)
  denied_is_blocked h token request_id reason expires_at req now now' now_secs why update_id st e q
        l v a =
      let blocks = deny-blocks h token request_id reason expires_at req e q in
      let block : DenialBlock = record { reason = reason; expires_at = expires_at } in
      ap (λ r. r.0)
        (blocked_lem (deny_grant_request render h token request_id reason expires_at).1 now now'
          now_secs req.from_identity req.to_name why update_id st block l v
          (ap (get (req.from_identity, req.to_name)) blocks
            ∙ get-insert_self (req.from_identity, req.to_name) block h.denial_blocks)
          a)
