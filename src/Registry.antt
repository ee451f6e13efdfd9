-- ===== src/Registry.antt =====
-- registry.rs: names bound to identities, with a liveness window. The clock `now` is an argument of
-- each operation, in nanoseconds; `duration_since` is 0 when the clock stands behind.
pub mod Laws
pub mod Ownership
use simple_im.Base.{
  ℕ, ◌-◌, Bool, true, false, not, Option, none, some, List, [], ◌∷◌, leb, ltb, if◌then◌else◌, ◌==◌,
  retain, option_map, unwrap_or, ◌>>=◌,
}
use simple_im.Base.Text.{Text, text_Eq, text_eq}
use simple_im.Base.Map.{Map, get, insert, remove, update}
use simple_im.Error.{Error, Done, Result, ok, err, auth_failed, name_in_use, forbidden}

-- `none` is an absent or invalid token.
pub record ParticipantIdentity : Type 0 where
  pub id : Option Text

pub data PresenceScope : Type 0 where
  public grant_scoped hidden : PresenceScope

pub record Registration : Type 0 where
  pub identity : Text
  pub last_seen : ℕ
  pub presence_scope : PresenceScope

pub record Registry : Type 0 where
  pub entries : Map Text Registration
  pub lapse_after : ℕ

unfoldable pub with_clock : ℕ → Registry
with_clock lapse_after = record { entries = []; lapse_after = lapse_after }

-- `now.duration_since(reg.last_seen) < lapse`
abbrev pub is_live : ℕ → ℕ → Registration → Bool
is_live now lapse reg = ltb (now - reg.last_seen) lapse

insert_new : Registry → ℕ → Text → Text → PresenceScope → Registry
insert_new r now name id scope = record r {
  entries =
      insert name (record { identity = id; last_seen = now; presence_scope = scope }) r.entries;
}

register_as :
    Registry → ℕ → Text → Text → PresenceScope → Option Registration → Result Done × Registry
unfolding insert_new
register_as r now name id scope none = (ok tt, insert_new r now name id scope)
register_as r now name id scope (some reg) =
    if is_live now r.lapse_after reg
    then (if reg.identity == id
        then (
          ok tt,
          record r {
            entries =
                update name (λ g. record g { last_seen = now; presence_scope = scope }) r.entries;
          },
        )
        else (err name_in_use, r))
    else (ok tt, insert_new r now name id scope)

unfoldable pub register :
    Registry → ℕ → Text → ParticipantIdentity → PresenceScope → Result Done × Registry
unfolding register_as
register r now name identity scope = elim identity.id [
  | none ↦ (err auth_failed, r)
  | some id ↦ register_as r now name id scope (get name r.entries)
]

unfoldable pub presence_scope : Registry → ℕ → Text → Option PresenceScope
presence_scope r now name = do
  reg ← get name r.entries
  if is_live now r.lapse_after reg then some reg.presence_scope else none

unfoldable pub presence_scope_unconditional : Registry → Text → Option PresenceScope
presence_scope_unconditional r name = option_map (λ reg. reg.presence_scope) (get name r.entries)

set_scope_of :
    Registry → ℕ → Text → Text → PresenceScope → Option Registration → Result Done × Registry
set_scope_of r now name id scope none = (ok tt, r)
set_scope_of r now name id scope (some reg) =
    if leb r.lapse_after (now - reg.last_seen)
    then (ok tt, r)
    else if not (reg.identity == id)
    then (err forbidden, r)
    else (
      ok tt,
      record r { entries = update name (λ g. record g { presence_scope = scope }) r.entries },
    )

unfoldable pub set_presence_scope :
    Registry → ℕ → Text → ParticipantIdentity → PresenceScope → Result Done × Registry
unfolding set_scope_of
set_presence_scope r now name identity scope = elim identity.id [
  | none ↦ (err auth_failed, r)
  | some id ↦ set_scope_of r now name id scope (get name r.entries)
]

unfoldable pub force_deregister : Registry → Text → Registry
force_deregister r name = record r { entries = remove name r.entries }

-- The owner of a live registration, compared with the caller.
verdict : Registry → ℕ → Text → Text → Option Bool
verdict r now name id = do
  reg ← get name r.entries
  if is_live now r.lapse_after reg then some (reg.identity == id) else none

unfoldable pub deregister : Registry → ℕ → Text → ParticipantIdentity → Result Done × Registry
unfolding verdict force_deregister
deregister r now name identity = elim identity.id [
  | none ↦ (err auth_failed, r)
  | some id ↦ elim (verdict r now name id) [
    | none ↦ (ok tt, r)
    | some true ↦ (ok tt, record r { entries = remove name r.entries })
    | some false ↦ (err forbidden, r)
  ]
]

unfoldable pub is_online : Registry → ℕ → Text → Bool
is_online r now name =
    unwrap_or (option_map (λ reg. is_live now r.lapse_after reg) (get name r.entries)) false

unfoldable pub reap : Registry → ℕ → Registry
reap r now = record r { entries = retain (λ e. is_live now r.lapse_after e.1) r.entries }
