-- ===== src/Hub/Denial.antt =====
-- delivery.rs: persistent denial blocks, keyed by the sender's identity and the recipient's name.
-- `now_secs` is the Unix time in seconds.
use simple_im.Base.{
  ℕ, Bool, true, false, not, ◌||◌, Option, none, some, List, [], ◌∷◌, map, ltb, if◌then◌else◌, ◌==◌,
  retain,
}
use simple_im.Base.Text.{Text, text_Eq, pair_Eq}
use simple_im.Base.Map.{get, insert, remove}
use simple_im.Error.{Done, Result, ok, err, forbidden}
use simple_im.Hub.State.{
  DenialBlock, HubInner, Effect, store_denial_block, delete_denial_block, validate_governor_token,
  holds_flag,
}

-- A block with no deadline stands for ever.
abbrev pub is_active : ℕ → DenialBlock → Bool
is_active now_secs block = elim block.expires_at [ none ↦ true | some exp ↦ ltb now_secs exp ]

unfoldable pub is_denial_active : HubInner → ℕ → Text → Text → Bool
is_denial_active h now_secs from_identity to_name =
    elim (get (from_identity, to_name) h.denial_blocks) [
      | none ↦ false
      | some block ↦ is_active now_secs block
    ]

-- The block concerns the participant, as recipient or as sender.
abbrev pub concerns : Text → Text → (Text × Text) × DenialBlock → Bool
concerns name identity e = e.0.1 == name || e.0.0 == name || e.0.0 == identity

unfoldable pub purge_denial_blocks_for : HubInner → Text → Text → List (Text × Text) × HubInner
purge_denial_blocks_for h name identity = (
  map (λ e. e.0) (retain (concerns name identity) h.denial_blocks),
  record h { denial_blocks = retain (λ e. not (concerns name identity e)) h.denial_blocks },
)

abbrev pub blocked_by : HubInner → Text → Text → Text → Option ℕ → HubInner
blocked_by h from_identity to_name reason expires_at = record h {
  denial_blocks =
      insert (from_identity, to_name) (record { reason = reason; expires_at = expires_at })
        h.denial_blocks;
}

unfoldable pub unblock_grant : HubInner → Text → Text → Text → Result Done × HubInner × List Effect
unblock_grant h token from_identity to_name =
    if not (holds_flag h token) then (err forbidden, h, []) else (
      ok tt,
      record h { denial_blocks = remove (from_identity, to_name) h.denial_blocks },
      delete_denial_block from_identity to_name ∷ [],
    )

unfoldable pub block_direct :
    HubInner → Text → Text → Text → Text → Option ℕ → Result Done × HubInner × List Effect
block_direct h gov from_identity to_name reason expires_at = elim (validate_governor_token h gov) [
  | err e ↦ (err e, h, [])
  | ok _ ↦ (
    ok tt,
    blocked_by h from_identity to_name reason expires_at,
    store_denial_block from_identity to_name reason expires_at ∷ [],
  )
]
