-- ===== src/Trust/Transfer/Laws.antt =====
-- When a governor transfer (trust.rs) succeeds, and what it changes.
use simple_im.Base.{◌≡◌, ◌≢◌, ◌⊎◌, ◌↔◌, false, Option, none, some, arith}
use simple_im.Base.Text.{Text, text_Eq, text_eq_iff, is_text_iff}
use simple_im.Base.Map.{get, get-remove_self}
use simple_im.Error.{ok, err, auth_failed}
use simple_im.Trust.Chain.{TrustChain, PendingTransfer, set_governor, clear_governor}
use simple_im.Trust.Transfer.{
  clear_pending_transfers, addressed_elsewhere, accept_governor_transfer,
}

-- The transfer is open to the identity, and its author is still the governor.
abbrev pub Open : TrustChain → PendingTransfer → Text → Type 0
Open t p identity =
    ((p.to_identity ≡ none) ⊎ (p.to_identity ≡ some identity))
    × (t.governor_identity ≡ some p.from_identity)

elsewhere_iff :
    (o : Option Text) (x : Text) (from : Text)
    → (addressed_elsewhere (record { from_identity = from; to_identity = o }) x ≡ false)
      ↔ ((o ≡ none) ⊎ (o ≡ some x))
elsewhere_iff none x from = ground arith
elsewhere_iff (some y) x from = ground (arith, text_eq_iff y x)

module _ (t : TrustChain) (token identity : Text) where
  -- A transfer is accepted exactly when its token is pending, it is addressed to the presenter or
  -- to nobody in particular, and its author is still the governor. Then the presenter is the
  -- governor, and the token is used up: presented again, by anybody, it is refused.
  accept_iff :
      (p : PendingTransfer) (again : Text)
      → get token t.pending_transfers ≡ some p
      → ((accept_governor_transfer t token identity).0 ≡ ok tt ↔ Open t p identity)
        × ((accept_governor_transfer t token identity).0 ≡ ok tt
            → ((accept_governor_transfer t token identity).1.governor_identity ≡ some identity)
              × ((accept_governor_transfer
                    (accept_governor_transfer t token identity).1
                    token
                    again).0
                  ≡ err auth_failed))
        × ((accept_governor_transfer t token identity).0 ≢ ok tt
            → (accept_governor_transfer t token identity).1.governor_identity ≡ t.governor_identity)
  unfolding accept_governor_transfer
  accept_iff p again h = ground (
    arith,
    elsewhere_iff p.to_identity identity p.from_identity,
    is_text_iff t.governor_identity p.from_identity,
    get-remove_self token t.pending_transfers,
  )

-- An operator's reset makes every transfer that was pending void, whoever presents it, also after
-- another identity has become governor.
reset_voids :
    (t : TrustChain) (token identity heir : Text)
    → (accept_governor_transfer (clear_pending_transfers (clear_governor t)) token identity).0
        ≡ err auth_failed
      × ((accept_governor_transfer
            (set_governor (clear_pending_transfers (clear_governor t)) heir)
            token
            identity).1.governor_identity
          ≡ some heir)
unfolding accept_governor_transfer get clear_pending_transfers clear_governor set_governor
reset_voids t token identity heir = ground arith
