-- ===== src/Examples/Sample.antt =====
-- The participants of the examples, and a hub at which Alice, Bob and Carol listen.
use simple_im.Base.{ℕ, ◌≡◌, ◌≢◌, false, true, none, some, List, [], ◌∷◌, arith}
use simple_im.Base.Text.{Text, text_eq, text_eq_iff, codes}
use simple_im.Base.Map.{Map}
use simple_im.Trust.Chain.{TrustChain}
use simple_im.Registry.{with_clock}
use simple_im.Hub.State.{ConnectionRequest, ListenTokenState, HubInner, Notice}

abbrev pub alice : Text
alice = codes "alice"

abbrev pub bob : Text
bob = codes "bob"

abbrev pub carol : Text
carol = codes "carol"

-- Two texts that the test tells apart are different.
pub apart : (x y : Text) → text_eq x y ≡ false → x ≢ y
apart x y e = ground (arith, text_eq_iff x y)

pub some_apart : (x y : Text) → text_eq x y ≡ false → some x ≢ some y
some_apart x y e = ground (arith, text_eq_iff x y)

abbrev pub listening : Text → ListenTokenState
listening name = record {
  last_active = 0;
  ever_listened = true;
  ever_granted = false;
  name = some name;
  revoked = false;
  hidden = false;
  sse_sender = none;
  notify_suppressed = false;
  last_ip = none;
  last_ip_at = none;
  msg_id = 0;
  pending_first_listen = false;
  presence_push = false;
}

-- The streams of Alice, Bob and Carol are open.
abbrev pub hub : TrustChain → Map Text ConnectionRequest → HubInner
hub trust requests = record {
  trust = trust;
  agents =
      (alice, record { identity = codes "ta" })
      ∷ (bob, record { identity = codes "tb" })
      ∷ (carol, record { identity = codes "tc" })
      ∷ [];
  token_to_name = (codes "ta", alice) ∷ (codes "tb", bob) ∷ (codes "tc", carol) ∷ [];
  message_queues = [];
  kick_pending = [];
  reply_windows = [];
  mediation_holds = [];
  connection_requests = requests;
  reply_ttl = 600;
  hold_ttl = 600;
  med_counter = 0;
  req_counter = 0;
  listen_tokens =
      (codes "ta", listening alice)
      ∷ (codes "tb", listening bob)
      ∷ (codes "tc", listening carol)
      ∷ [];
  name_to_token = (alice, codes "ta") ∷ (bob, codes "tb") ∷ (carol, codes "tc") ∷ [];
  sse_connections = (codes "ta", 1) ∷ (codes "tb", 1) ∷ (codes "tc", 1) ∷ [];
  denial_blocks = [];
  pending_claims = [];
  claim_counter = 0;
  registry = with_clock 30000000000;
  active_sse_connections = [];
  identities = alice ∷ bob ∷ carol ∷ [];
  gc_ttl_unlisten = 300;
  gc_ttl_no_grant = 1800;
  gc_registration_grace = 60;
  startup_announced = true;
  settle_tasks = [];
  settle_window = 30;
  room_store = record { inner = [] };
}

-- A rendering of the notices.
abbrev pub blank : Notice → List ℕ
blank n = []
