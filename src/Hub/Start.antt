-- ===== src/Hub/Start.antt =====
-- delivery.rs: a hub at its start, fresh or from what the store has kept. The environment variables
-- are arguments, absent or a text.
pub mod Restored
use simple_im.Base.{
  ℕ, ◌*◌, Bool, true, false, not, ◌||◌, Option, none, some, List, [], ◌∷◌, if◌then◌else◌, ◌==◌,
  unwrap_or, ◌>>=◌, ltb, foldl, retain, from_secs,
}
use simple_im.Base.Text.{Text, text_Eq, pair_Eq, codes}
use simple_im.Base.Text.Decimal.{parse}
use simple_im.Base.Map.{insert}
use simple_im.Trust.Chain.{with_clock, set_governor}
use simple_im.Trust.Load.{PersistedGrant, load_from_store}
use simple_im.Registry
use simple_im.Hub.Sets.{contains, set_insert}
use simple_im.Hub.State.{ListenTokenState, HubInner}
use simple_im.Hub.Tokens.{new_state, with_token}

abbrev pub clamp : ℕ → ℕ → ℕ → ℕ
clamp lo hi n = if ltb n lo then lo else if ltb hi n then hi else n

-- A number of seconds from the environment, in nanoseconds.
unfoldable pub clamp_env_secs : Option Text → ℕ → ℕ → ℕ → ℕ
clamp_env_secs var lo hi default = from_secs (clamp lo hi (unwrap_or (var >>= parse) default))

-- The variables `SIMPLE_IM_…_SECS`.
pub record Settings : Type 0 where
  pub reply_ttl : Option Text
  pub hold_ttl : Option Text
  pub gc_unlisten : Option Text
  pub gc_no_grant : Option Text
  pub settle_window : Option Text

-- Sixty seconds, in nanoseconds.
abbrev registration_grace : ℕ
registration_grace = 60000000000

unfoldable pub new : ℕ → Settings → HubInner
unfolding clamp_env_secs with_clock Registry.with_clock
new lapse_after s = record {
  trust = with_clock;
  agents = [];
  token_to_name = [];
  message_queues = [];
  kick_pending = [];
  reply_windows = [];
  mediation_holds = [];
  connection_requests = [];
  reply_ttl = clamp_env_secs s.reply_ttl 5 600 120;
  hold_ttl = clamp_env_secs s.hold_ttl 10 300 60;
  med_counter = 0;
  req_counter = 0;
  listen_tokens = [];
  name_to_token = [];
  sse_connections = [];
  denial_blocks = [];
  pending_claims = [];
  claim_counter = 0;
  registry = Registry.with_clock lapse_after;
  active_sse_connections = [];
  identities = [];
  gc_ttl_unlisten = clamp_env_secs s.gc_unlisten 60 3600 300;
  gc_ttl_no_grant = clamp_env_secs s.gc_no_grant 120 7200 1800;
  gc_registration_grace = registration_grace;
  startup_announced = false;
  settle_tasks = [];
  settle_window = clamp_env_secs s.settle_window 1 300 30;
  room_store = record { inner = [] };
}

pub record PersistedToken : Type 0 where
  pub token : Text
  pub token_type : Text
  pub identity : Text

pub record PersistedDenialBlock : Type 0 where
  pub from_identity : Text
  pub to_name : Text
  pub reason : Text
  pub expires_at : Option ℕ

-- What the store had kept.
pub record Persisted : Type 0 where
  pub tokens : List PersistedToken
  pub grants : List PersistedGrant
  pub denial_blocks : List PersistedDenialBlock
  pub identities : List Text
  pub governor : Option Text

abbrev pub is_listen_row : PersistedToken → Bool
is_listen_row t = t.token_type == codes "participant" || t.token_type == codes "listen"

-- The state of a restored token, with its name unless the row has none.
abbrev pub restored_state : ℕ → PersistedToken → Option Text → ListenTokenState
restored_state now t name = record (new_state now) {
  ever_listened = true;
  ever_granted = true;
  name = name;
}

abbrev pub resolved_name : PersistedToken → Option Text
resolved_name t = elim t.identity [ [] ↦ none | c ∷ cs ↦ some (c ∷ cs) ]

abbrev pub rebound : HubInner → Text → Option Text → HubInner
rebound h token none = h
rebound h token (some name) = record h {
  identities = set_insert name h.identities;
  name_to_token = insert name token h.name_to_token;
  token_to_name = insert token name h.token_to_name;
  agents = insert name (record { identity = token }) h.agents;
}

unfoldable pub restore_token : ℕ → HubInner → PersistedToken → HubInner
unfolding set_insert new_state
restore_token now h t =
    with_token (rebound h t.token (resolved_name t)) t.token
      (restored_state now t (resolved_name t))

abbrev pub restore_block : HubInner → PersistedDenialBlock → HubInner
restore_block h b = record h {
  denial_blocks =
      insert (b.from_identity, b.to_name) (record { reason = b.reason; expires_at = b.expires_at })
        h.denial_blocks;
}

abbrev pub restore_identity : HubInner → Text → HubInner
restore_identity h name = record h { identities = set_insert name h.identities }

-- A governor that is no loaded identity is dropped.
abbrev pub restore_governor : HubInner → Option Text → HubInner
restore_governor h none = h
restore_governor h (some name) =
    if contains h.identities name then record h { trust = set_governor h.trust name } else h

-- The grants first, then the roster, the tokens, the denial blocks and the governor.
unfoldable pub new_with_persisted_state : ℕ → Settings → ℕ → ℕ → Persisted → HubInner
unfolding new load_from_store foldl restore_token retain set_governor set_insert
new_with_persisted_state lapse_after s now now_secs p =
    let fresh = new lapse_after s in
    let granted = record fresh { trust = load_from_store fresh.trust now now_secs p.grants } in
    let rostered = foldl restore_identity granted p.identities in
    let listening = foldl (restore_token now) rostered (retain is_listen_row p.tokens) in
    restore_governor (foldl restore_block listening p.denial_blocks) p.governor
