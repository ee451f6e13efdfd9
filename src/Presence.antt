-- ===== src/Presence.antt =====
-- presence.rs: the registry seen as online or offline; an offline answer drops lapsed entries.
use simple_im.Base.{ℕ, ◌≤◌, ◌≡◌, arith, if◌then◌else◌, is_some}
use simple_im.Base.Text.{Text}
use simple_im.Error.{Done, Result}
use simple_im.Registry.{
  ParticipantIdentity, PresenceScope, Registry, with_clock, register, deregister, is_online, reap,
}
use simple_im.Registry.Laws.{IsValid, live_registration, reap_invisible, is_online_lem}

pub data PresenceStatus : Type 0 where
  online offline : PresenceStatus

pub record PresenceModule : Type 0 where
  pub registry : Registry

-- Thirty seconds.
abbrev default_liveness_window : ℕ
default_liveness_window = 30000000000

unfoldable pub new : ℕ → PresenceModule
new lapse_after = record { registry = with_clock lapse_after }

unfoldable pub enter :
    PresenceModule → ℕ → Text → ParticipantIdentity → PresenceScope → Result Done × PresenceModule
enter p now name identity scope =
    let (res, r) = register p.registry now name identity scope in (res, record { registry = r })

unfoldable pub exit : PresenceModule → ℕ → Text → ParticipantIdentity → Result Done × PresenceModule
exit p now name identity =
    let (res, r) = deregister p.registry now name identity in (res, record { registry = r })

unfoldable pub query : PresenceModule → ℕ → Text → PresenceStatus × PresenceModule
query p now name =
    if is_online p.registry now name
    then (online, p)
    else (offline, record { registry = reap p.registry now })

-- A query answers `online` exactly for a name that shows a registration, and no query changes what
-- any name shows, then or later: the lapsed entries that it drops were seen by nobody.
pub query_lem :
    (p : PresenceModule) (now later : ℕ) (name j : Text)
    → IsValid p.registry
    → now ≤ later
    → ((query p now name).0
        ≡ (if is_some (live_registration p.registry now name) then online else offline))
      × (live_registration (query p now name).1.registry later j
          ≡ live_registration p.registry later j)
unfolding query
query_lem p now later name j v h =
    ground (arith, is_online_lem p.registry now name, reap_invisible p.registry now later j v h)
