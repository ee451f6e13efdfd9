-- ===== src/Examples/Naming.antt =====
-- Examples for tokens and names of delivery.rs, at a hub that was restored with the tokens of Alice
-- and Bob, and with Dave in the roster.
use mathlib.Core.Path.{subst}
use simple_im.Base.{
  ℕ, ◌≡◌, refl, true, false, none, some, List, [], ◌∷◌, arith, All, any, foldl, retain,
}
use simple_im.Base.Text.{Text, text_Eq, text_eq, codes}
use simple_im.Base.Map.{get, insert, update}
use simple_im.Error.{ok, err, token_revoked}
use simple_im.Trust.Chain.{with_clock, is_governor, set_governor}
use simple_im.Trust.Load.{load_from_store}
use simple_im.Hub.Sets.{set_insert}
use simple_im.Hub.State.{ListenTokenState, HubInner, validate_governor_token}
use simple_im.Hub.Tokens.{mint, new_state, pending_state, name_for_bearer_token, live_state}
use simple_im.Hub.Tokens.Mint.{IsDraw, Distinct, Minted, mint_lem}
use simple_im.Registry.{is_online}
use simple_im.Hub.Queue.{touch_token, take_notify}
use simple_im.Hub.Peers.{Env}
use simple_im.Hub.Names.{
  gc_tokens, collect_all, is_expired, announce, announce_collected, announce_as, announce_unheld,
  claim_name, bind_name,
}
use simple_im.Hub.Names.Book.{IsBound}
use simple_im.Hub.Names.Book.Announce.{Safe, announce-Safe}
use simple_im.Hub.Names.Book.Collect.{SameNames, gc_tokens_lem}
use simple_im.Hub.Names.Book.Run.{Run, restored, next, announces, Run-IsBound, one_voice}
use simple_im.Hub.Names.Book.Stranded.{first_name_stranded}
use simple_im.Hub.Names.Book.Taking.{Answered, announce_lem}
use simple_im.Hub.Removal.{delete_self, revoke_by_name}
use simple_im.Hub.Removal.Traces.{Forgotten, Untouched, delete_self_lem, revoke_by_name_lem}
use simple_im.Hub.Start.{
  Settings, PersistedToken, Persisted, is_listen_row, clamp_env_secs, new, restore_token,
  new_with_persisted_state,
}
use simple_im.Hub.Start.Restored.{Apart}
use simple_im.Examples.Sample.{alice, bob, carol, hub, listening, blank, apart, some_apart}

abbrev dave : Text
dave = codes "dave"

abbrev unset : Settings
unset = record {
  reply_ttl = none;
  hold_ttl = none;
  gc_unlisten = none;
  gc_no_grant = none;
  settle_window = none;
}

abbrev row : Text → Text → PersistedToken
row token name = record { token = token; token_type = codes "participant"; identity = name }

abbrev rows : Persisted
rows = record {
  tokens = row (codes "ta") alice ∷ row (codes "tb") bob ∷ [];
  grants = [];
  denial_blocks = [];
  identities = dave ∷ [];
  governor = some bob;
}

abbrev restored_token : Text → ListenTokenState
restored_token name = record (listening name) { ever_granted = true }

abbrev restarted : HubInner
restarted = record (hub (record with_clock { governor_identity = some bob }) []) {
  agents = (alice, record { identity = codes "ta" }) ∷ (bob, record { identity = codes "tb" }) ∷ [];
  token_to_name = (codes "ta", alice) ∷ (codes "tb", bob) ∷ [];
  reply_ttl = 120000000000;
  hold_ttl = 60000000000;
  listen_tokens = (codes "ta", restored_token alice) ∷ (codes "tb", restored_token bob) ∷ [];
  name_to_token = (alice, codes "ta") ∷ (bob, codes "tb") ∷ [];
  sse_connections = [];
  identities = dave ∷ alice ∷ bob ∷ [];
  gc_ttl_unlisten = 300000000000;
  gc_ttl_no_grant = 1800000000000;
  gc_registration_grace = 60000000000;
  startup_announced = false;
  settle_window = 30000000000;
}

restart : new_with_persisted_state 30000000000 unset 0 1000 rows ≡ restarted
unfolding new_with_persisted_state new restore_token new_state foldl retain text_eq get insert any
    set_insert set_governor load_from_store clamp_env_secs
restart = refl

rows-Apart : Apart (retain is_listen_row rows.tokens)
unfolding retain text_eq
rows-Apart = (
  ((apart (codes "ta") (codes "tb") refl, λ n e. ground (arith, e, some_apart alice bob refl)), tt),
  (tt, tt),
)

restarted-Run : Run restarted
restarted-Run = subst Run restart (restored 30000000000 unset 0 1000 rows rows-Apart)

restarted-IsBound : IsBound restarted
restarted-IsBound = Run-IsBound restarted-Run

abbrev env : Env
env = record {
  now = 100;
  now_secs = 1000;
  is_closed = λ _. false;
  timer_is_closed = λ _. false;
  render = blank;
}

abbrev renamed : HubInner
renamed = (announce env restarted (codes "ta") carol).1

renamed-Run : Run renamed
renamed-Run = next restarted-Run (announces env (codes "ta") carol refl)

-- What the announcement computes to.
resolves_renamed : name_for_bearer_token renamed (codes "ta") ≡ some carol
unfolding name_for_bearer_token announce gc_tokens collect_all is_expired announce_collected
    announce_as announce_unheld claim_name bind_name touch_token get update insert text_eq retain
    any is_online take_notify simple_im.Registry.with_clock is_governor
resolves_renamed = refl

one_voice_example : codes "ta" ≡ codes "ta"
one_voice_example =
    one_voice renamed (codes "ta") (codes "ta") carol renamed-Run resolves_renamed resolves_renamed

announce-Safe_example : Safe restarted renamed
announce-Safe_example = announce-Safe env (codes "ta") carol restarted restarted-IsBound

collected_alice :
    get (codes "ta") (gc_tokens env restarted).0.listen_tokens ≡ some (restored_token alice)
unfolding gc_tokens collect_all is_expired get text_eq retain any
collected_alice = refl

announce_example : Answered true (codes "ta") carol (announce env restarted (codes "ta") carol)
unfolding gc_tokens collect_all is_expired get text_eq retain any is_online
    simple_im.Registry.with_clock
announce_example =
    announce_lem env (codes "ta") carol restarted (restored_token alice) collected_alice refl

gc_tokens_example :
    ((gc_tokens env restarted).1 ≡ [])
    × (get (codes "tb") (gc_tokens env restarted).0.listen_tokens ≡ some (restored_token bob))
    × SameNames restarted (gc_tokens env restarted).0
    × IsBound (gc_tokens env restarted).0
unfolding get text_eq is_expired any
gc_tokens_example = gc_tokens_lem env restarted restarted-IsBound (codes "tb")

first_name_stranded_example :
    (get alice (delete_self env renamed (codes "ta")).1.name_to_token ≡ some (codes "ta"))
    × (name_for_bearer_token (delete_self env renamed (codes "ta")).1 (codes "ta") ≡ none)
unfolding gc_tokens collect_all is_expired get text_eq retain any is_online
    simple_im.Registry.with_clock
first_name_stranded_example =
    first_name_stranded env env restarted (codes "ta") alice carol (restored_token alice)
      restarted-IsBound refl (apart alice carol refl) collected_alice refl refl refl

delete_self_example :
    ((delete_self env restarted (codes "ta")).0 ≡ ok tt)
    × Forgotten (delete_self env restarted (codes "ta")).1 alice (codes "ta")
    × Untouched restarted (delete_self env restarted (codes "ta")).1
    × (name_for_bearer_token (delete_self env restarted (codes "ta")).1 (codes "ta") ≡ none)
    × (live_state (delete_self env restarted (codes "ta")).1 (codes "ta") ≡ err token_revoked)
unfolding get text_eq
delete_self_example =
    delete_self_lem env restarted (codes "ta") alice (restored_token alice) restarted-IsBound refl
      refl refl

-- Bob governs.
revoke_by_name_example :
    ((revoke_by_name env restarted alice (codes "tb")).0 ≡ ok tt)
    × Forgotten (revoke_by_name env restarted alice (codes "tb")).1 alice (codes "ta")
    × Untouched restarted (revoke_by_name env restarted alice (codes "tb")).1
    × ((token : Text) (st : ListenTokenState)
        → get alice restarted.name_to_token ≡ some token
        → get token restarted.listen_tokens ≡ some st
        → (name_for_bearer_token (revoke_by_name env restarted alice (codes "tb")).1 token ≡ none)
          × (live_state (revoke_by_name env restarted alice (codes "tb")).1 token
              ≡ err token_revoked))
unfolding validate_governor_token get text_eq is_governor
revoke_by_name_example = revoke_by_name_lem env restarted alice (codes "tb") refl

abbrev draws : List ℕ
draws = 12345678 ∷ 87654321 ∷ 99999999 ∷ []

draws_in_range : All IsDraw draws
draws_in_range = (
  (ground arith, ground arith),
  ((ground arith, ground arith), ((ground arith, ground arith), tt)),
)

draws-Distinct : Distinct draws
draws-Distinct = ((ground arith, (ground arith, tt)), ((ground arith, tt), (tt, tt)))

mint_example :
    (tok : Text) × (h' : HubInner) × (mint restarted (pending_state 100) draws ≡ some (tok, h'))
    × Minted restarted (pending_state 100) tok h'
mint_example =
    mint_lem restarted (pending_state 100) draws draws_in_range draws-Distinct (ground arith)
