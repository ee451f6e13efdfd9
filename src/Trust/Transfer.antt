-- ===== src/Trust/Transfer.antt =====
-- trust.rs: the one-time transfer of the governor flag. The sixteen random bytes of a transfer
-- token come from the `rand` crate and are an argument.
pub mod Laws
use simple_im.Base.{
  ℕ, ◌+◌, ◌-◌, ◌/◌, ◌%◌, Bool, true, false, not, ◌&&◌, Option, none, some, List, [], ◌∷◌, ltb,
  if◌then◌else◌, ◌==◌, ◌≡◌,
}
use simple_im.Base.Text.{Text, text_Eq, is_text}
use simple_im.Base.Map.{get, insert, remove}
use simple_im.Error.{Error, Done, Result, ok, err, auth_failed, forbidden}
use simple_im.Trust.Chain.{TrustChain, PendingTransfer}

-- `format!("{:02x}", b)`
abbrev pub hex_digit : ℕ → ℕ
hex_digit d = if ltb d 10 then b'0' + d else b'a' + (d - 10)

unfoldable pub hex_text : List ℕ → Text
hex_text [] = []
hex_text (b ∷ bs) = hex_digit (b / 16) ∷ hex_digit (b % 16) ∷ hex_text bs

unfoldable pub transfer_governor :
    TrustChain → List ℕ → Text → Option Text → Result Text × TrustChain
transfer_governor t bytes from_identity to_identity =
    let transfer_token = hex_text bytes in
    (
      ok transfer_token,
      record t {
        pending_transfers =
            insert transfer_token
              (record { from_identity = from_identity; to_identity = to_identity })
              t.pending_transfers;
      },
    )

unfoldable pub clear_pending_transfers : TrustChain → TrustChain
clear_pending_transfers t = record t { pending_transfers = [] }

-- The transfer names somebody else.
abbrev pub addressed_elsewhere : PendingTransfer → Text → Bool
addressed_elsewhere p identity = elim p.to_identity [
  | none ↦ false
  | some expected ↦ not (expected == identity)
]

unfoldable pub accept_governor_transfer : TrustChain → Text → Text → Result Done × TrustChain
accept_governor_transfer t transfer_token verified_bearer_identity =
    elim (get transfer_token t.pending_transfers) [
      | none ↦ (err auth_failed, t)
      | some pending ↦
          if addressed_elsewhere pending verified_bearer_identity
          then (err forbidden, t)
          else (let used = record t {
            pending_transfers = remove transfer_token t.pending_transfers;
          } in
              if not (is_text t.governor_identity pending.from_identity)
              then (err auth_failed, used)
              else (ok tt, record used { governor_identity = some verified_bearer_identity }))
    ]
