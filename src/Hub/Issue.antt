-- ===== src/Hub/Issue.antt =====
-- delivery.rs: tokens that a governor issues, with or without a name to bind again, and the
-- installation of a governor. The draws of the generator are an argument, as in Tokens.
use simple_im.Base.{
  ℕ, true, false, not, Option, none, some, List, [], ◌∷◌, ◌++◌, if◌then◌else◌, option_map, ◌>>=◌,
}
use simple_im.Base.Text.{Text, text_Eq, codes}
use simple_im.Base.Map.{get, remove}
use simple_im.Error.{Result, ok, err, recipient_unknown}
use simple_im.Trust.Chain.{set_governor}
use simple_im.Registry.{force_deregister}
use simple_im.Hub.Sets.{contains}
use simple_im.Hub.State.{
  HubInner, Effect, validate_governor_token, superseded, store_governor, delete_token,
}
use simple_im.Hub.Peers.{Env}
use simple_im.Hub.Tokens.{pending_state, mint, register_participant}
use simple_im.Hub.Names.{AnnounceResult, bind_name, bound_effects}
use simple_im.Hub.Listening.{ListenArgs, on_state, open_listen}
use simple_im.Hub.Removal.{tell}

-- The holder of the name is told, and its token is forgotten.
abbrev pub detach_holder : HubInner → Option Text → List Effect × HubInner
detach_holder h none = ([], h)
detach_holder h (some old) = (
  tell (superseded (codes "governor_rebind")) (get old h.listen_tokens),
  record h {
    listen_tokens = remove old h.listen_tokens;
    sse_connections = remove old h.sse_connections;
    token_to_name = remove old h.token_to_name;
  },
)

-- The name is without a holder, an agent and a registration.
unfoldable pub vacate : HubInner → Text → List Effect × HubInner
unfolding force_deregister
vacate h name =
    let (told, detached) = detach_holder h (get name h.name_to_token) in
    (
      told,
      record detached {
        name_to_token = remove name detached.name_to_token;
        agents = remove name detached.agents;
        registry = force_deregister detached.registry name;
      },
    )

abbrev delete_old : Option Text → List Effect
delete_old none = []
delete_old (some old) = delete_token old ∷ []

-- The answer of a call that may run out of draws.
abbrev pub Issued : Type 0
Issued = Option (Result (Text × Option Text) × HubInner × List Effect)

-- The new token takes the name over.
unfoldable pub rebind : HubInner → ℕ → List ℕ → Text → Issued
unfolding vacate mint bind_name pending_state
rebind h now draws name =
    let (told, vacant) = vacate h name in
    option_map
      (λ m. (
        ok (m.0, some name),
        bind_name (on_state m.1 m.0 (λ s. record s { ever_granted = true })) m.0 name,
        told ++ delete_old (get name h.name_to_token) ++ bound_effects m.0 name,
      ))
      (mint vacant (pending_state now) draws)

unfoldable pub issue_participant_token : HubInner → ℕ → List ℕ → Text → Option Text → Issued
unfolding mint rebind pending_state
issue_participant_token h now draws gov name = elim (validate_governor_token h gov) [
  | err e ↦ some (err e, h, [])
  | ok _ ↦ elim name [
    | none ↦ option_map (λ m. (ok (m.0, none), m.1, [])) (mint h (pending_state now) draws)
    | some n ↦
        if not (contains h.identities n)
        then some (err recipient_unknown, h, [])
        else rebind h now draws n
  ]
]

abbrev governor_name : Text → Text
governor_name reg = codes "governor-" ++ reg

abbrev governor_args : Text → ListenArgs
governor_args name = record {
  peer_ip = none;
  name_to_bind = some name;
  force = false;
  presence_push = false;
}

-- A fresh participant is made the governor and listens under a synthetic name.
unfoldable install_governor :
    Env
    → HubInner
    → List ℕ
    → ℕ
    → Option (Result (Text × Option AnnounceResult) × HubInner × List Effect)
unfolding register_participant set_governor open_listen
install_governor env h draws tx = do
  (reg, registered) ← register_participant h env.now draws
  let flagged = record registered { trust = set_governor registered.trust (governor_name reg) }
  let (answer, h', effects) =
      open_listen env flagged (some reg) (governor_args (governor_name reg)) tx
  some (answer, h', effects ++ store_governor (some (governor_name reg)) ∷ [])
