-- ===== src/Registry/Laws.antt =====
-- What the operations of registry.rs answer, on every branch.
use simple_im.Base.{
  ℕ, ◌≤◌, ◌≡◌, refl, Bool, true, false, Option, none, some, arith, if◌then◌else◌, is_some,
  option_map, ◌&&◌, ◌==◌,
}
use simple_im.Base.Text.{Text, text_Eq, text_eq_iff}
use simple_im.Base.Map.{get, get-insert, get-update, get-remove}
use simple_im.Base.Map.Distinct.{Distinct, get-retain}
use simple_im.Error.{Done, Result, ok, err, name_in_use, forbidden}
use simple_im.Registry.{
  PresenceScope, Registration, Registry, is_live, register, presence_scope, set_presence_scope,
  deregister, is_online, reap,
}

-- A registry whose map holds one registration for each name, as a `HashMap` does.
pub record IsValid (r : Registry) : Type 0 where
  pub distinct : Distinct r.entries

-- The registration that stands for a name at a time: none once it has lapsed.
abbrev pub live_registration : Registry → ℕ → Text → Option Registration
live_registration r now name = elim (get name r.entries) [
  | none ↦ none
  | some reg ↦ if is_live now r.lapse_after reg then some reg else none
]

-- What a registration shows at a time.
abbrev pub shown : ℕ → ℕ → Registration → Option Registration
shown lapse now reg = if is_live now lapse reg then some reg else none

-- Whether a caller may claim a name that shows the registration.
abbrev pub claim : Option Registration → Text → Result Done
claim none id = ok tt
claim (some reg) id = if reg.identity == id then ok tt else err name_in_use

abbrev pub accepted : Result Done → Bool
accepted (ok u) = true
accepted (err e) = false

-- The caller holds the name: it shows a registration of this identity.
abbrev pub holds : Option Registration → Text → Bool
holds none id = false
holds (some reg) id = reg.identity == id

module _ (r : Registry) (now : ℕ) (name id : Text) (scope : PresenceScope) where
  abbrev pub renewed : Registration
  renewed = record { identity = id; last_seen = now; presence_scope = scope }

  register_of :
      (o : Option Registration) (j : Text)
      → get name r.entries ≡ o
      → ((register r now name (record { id = some id }) scope).0
          ≡ claim (live_registration r now name) id)
        × (get j (register r now name (record { id = some id }) scope).1.entries ≡ (
            if (name == j) && accepted (claim (live_registration r now name) id)
            then some renewed
            else get j r.entries))
        × ((register r now name (record { id = some id }) scope).1.lapse_after ≡ r.lapse_after)
  unfolding register
  register_of none j h = ground (arith, text_eq_iff name j, get-insert name j renewed r.entries)
  register_of (some reg) j h = ground (
    arith,
    text_eq_iff name j,
    text_eq_iff reg.identity id,
    get-insert name j renewed r.entries,
    get-update name j (λ g. record g { last_seen = now; presence_scope = scope }) r.entries,
  )

  pub get-register :
      (j : Text)
      → ((register r now name (record { id = some id }) scope).0
          ≡ claim (live_registration r now name) id)
        × (get j (register r now name (record { id = some id }) scope).1.entries ≡ (
            if (name == j) && accepted (claim (live_registration r now name) id)
            then some renewed
            else get j r.entries))
        × ((register r now name (record { id = some id }) scope).1.lapse_after ≡ r.lapse_after)
  get-register j = register_of (get name r.entries) j refl

  -- Registering a name is refused exactly when another identity holds it at that time. An accepted
  -- call gives the name to the caller for one window from now on, and changes no other name; a
  -- refused call changes nothing.
  pub register_lem :
      (later : ℕ) (j : Text)
      → ((register r now name (record { id = some id }) scope).0
          ≡ claim (live_registration r now name) id)
        × (live_registration (register r now name (record { id = some id }) scope).1 later j ≡ (
            if (name == j) && accepted (claim (live_registration r now name) id)
            then shown r.lapse_after later renewed
            else live_registration r later j))
  register_lem later j = ground (arith, get-register j)

  deregister_of :
      (o : Option Registration) (j : Text)
      → get name r.entries ≡ o
      → ((deregister r now name (record { id = some id })).0
          ≡ (if accepted (claim (live_registration r now name) id) then ok tt else err forbidden))
        × (get j (deregister r now name (record { id = some id })).1.entries ≡ (
            if (name == j) && holds (live_registration r now name) id
            then none
            else get j r.entries))
        × ((deregister r now name (record { id = some id })).1.lapse_after ≡ r.lapse_after)
  unfolding deregister
  deregister_of none j h = ground (arith, text_eq_iff name j, get-remove name j r.entries)
  deregister_of (some reg) j h =
      ground (arith, text_eq_iff name j, get-remove name j r.entries, text_eq_iff reg.identity id)

  pub get-deregister :
      (j : Text)
      → ((deregister r now name (record { id = some id })).0
          ≡ (if accepted (claim (live_registration r now name) id) then ok tt else err forbidden))
        × (get j (deregister r now name (record { id = some id })).1.entries ≡ (
            if (name == j) && holds (live_registration r now name) id
            then none
            else get j r.entries))
        × ((deregister r now name (record { id = some id })).1.lapse_after ≡ r.lapse_after)
  get-deregister j = deregister_of (get name r.entries) j refl

  -- Leaving a name is refused exactly when another identity holds it. The holder's call frees the
  -- name; nothing else that shows is changed, and a name that shows nobody stays free.
  deregister_lem :
      (later : ℕ) (j : Text)
      → now ≤ later
      → ((deregister r now name (record { id = some id })).0
          ≡ (if accepted (claim (live_registration r now name) id) then ok tt else err forbidden))
        × (live_registration (deregister r now name (record { id = some id })).1 later j ≡ (
            if (name == j) && accepted (claim (live_registration r now name) id)
            then none
            else live_registration r later j))
  deregister_lem later j h = ground (arith, get-deregister j, text_eq_iff name j)

  abbrev rescope : Registration → Registration
  rescope g = record g { presence_scope = scope }

  set_scope_of_lem :
      (o : Option Registration) (j : Text)
      → get name r.entries ≡ o
      → ((set_presence_scope r now name (record { id = some id }) scope).0
          ≡ (if accepted (claim (live_registration r now name) id) then ok tt else err forbidden))
        × (get j (set_presence_scope r now name (record { id = some id }) scope).1.entries ≡ (
            if (name == j) && holds (live_registration r now name) id
            then option_map rescope (get j r.entries)
            else get j r.entries))
        × ((set_presence_scope r now name (record { id = some id }) scope).1.lapse_after
            ≡ r.lapse_after)
  unfolding set_presence_scope
  set_scope_of_lem none j h = ground (arith, text_eq_iff name j)
  set_scope_of_lem (some reg) j h =
      ground (
        arith,
        text_eq_iff name j,
        text_eq_iff reg.identity id,
        get-update name j rescope r.entries,
      )

  pub get-set_presence_scope :
      (j : Text)
      → ((set_presence_scope r now name (record { id = some id }) scope).0
          ≡ (if accepted (claim (live_registration r now name) id) then ok tt else err forbidden))
        × (get j (set_presence_scope r now name (record { id = some id }) scope).1.entries ≡ (
            if (name == j) && holds (live_registration r now name) id
            then option_map rescope (get j r.entries)
            else get j r.entries))
        × ((set_presence_scope r now name (record { id = some id }) scope).1.lapse_after
            ≡ r.lapse_after)
  get-set_presence_scope j = set_scope_of_lem (get name r.entries) j refl

-- A reap is not seen by anyone, at that time or later.
pub reap_invisible :
    (r : Registry) (t now : ℕ) (name : Text)
    → IsValid r
    → t ≤ now
    → live_registration (reap r t) now name ≡ live_registration r now name
unfolding reap
reap_invisible r t now name v h =
    ground (arith, get-retain (λ e. is_live t r.lapse_after e.1) name r.entries v.distinct)

-- The queries read what shows of the name.
pub is_online_lem :
    (r : Registry) (now : ℕ) (name : Text)
    → (is_online r now name ≡ is_some (live_registration r now name))
      × (presence_scope r now name
          ≡ option_map (λ reg. reg.presence_scope) (live_registration r now name))
unfolding is_online presence_scope
is_online_lem r now name = ground arith
