-- ===== src/Registry/Ownership.antt =====
-- A live name in registry.rs stays with its holder, whatever other identities do.
use simple_im.Base.{ℕ, ◌-◌, ◌<◌, ◌≡◌, ◌≢◌, refl, Option, none, some, List, [], ◌∷◌, arith, All}
use simple_im.Base.Text.{Text, text_Eq, text_eq_iff}
use simple_im.Base.Map.{get}
use simple_im.Base.Map.Distinct.{
  Distinct, get-retain, insert-Distinct, remove-Distinct, update-Distinct, retain-Distinct,
}
use simple_im.Registry.{
  ParticipantIdentity, PresenceScope, Registration, Registry, is_live, register, set_presence_scope,
  deregister, reap,
}
use simple_im.Registry.Laws.{IsValid, renewed, get-register, get-set_presence_scope, get-deregister}

pub data Call : Type 0 where
  registers : Text → ParticipantIdentity → PresenceScope → Call
  sets_scope : Text → ParticipantIdentity → PresenceScope → Call
  deregisters : Text → ParticipantIdentity → Call
  reaps : Call

pub step : Registry → ℕ × Call → Registry
step r (now, registers name identity scope) = (register r now name identity scope).1
step r (now, sets_scope name identity scope) = (set_presence_scope r now name identity scope).1
step r (now, deregisters name identity) = (deregister r now name identity).1
step r (now, reaps) = reap r now

pub run : Registry → List (ℕ × Call) → Registry
run r [] = r
run r (c ∷ cs) = run (step r c) cs

-- The call is not one of the identity's own, and comes within the registration's window.
abbrev ByOther : Registration → ℕ → ℕ × Call → Type 0
ByOther reg lapse (now, registers name identity scope) =
    (now - reg.last_seen < lapse) × (identity.id ≢ some reg.identity)
ByOther reg lapse (now, sets_scope name identity scope) =
    (now - reg.last_seen < lapse) × (identity.id ≢ some reg.identity)
ByOther reg lapse (now, deregisters name identity) =
    (now - reg.last_seen < lapse) × (identity.id ≢ some reg.identity)
ByOther reg lapse (now, reaps) = (now - reg.last_seen < lapse) × Unit {0}

module _ (r : Registry) (now : ℕ) (j : Text) (scope : PresenceScope) (v : IsValid r) where
  registers-IsValid :
      (o : Option Text) (reg : Option Registration)
      → get j r.entries ≡ reg
      → Distinct (register r now j (record { id = o }) scope).1.entries
        × ((register r now j (record { id = o }) scope).1.lapse_after ≡ r.lapse_after)
  unfolding register
  registers-IsValid none reg h = ground (arith, v.distinct)
  registers-IsValid (some id) none h =
      ground (arith, insert-Distinct j (renewed r now j id scope) r.entries v.distinct)
  registers-IsValid (some id) (some reg) h = ground (
    arith,
    v.distinct,
    insert-Distinct j (renewed r now j id scope) r.entries v.distinct,
    update-Distinct j (λ g. record g { last_seen = now; presence_scope = scope }) r.entries
        v.distinct,
  )

  sets_scope-IsValid :
      (o : Option Text)
      → Distinct (set_presence_scope r now j (record { id = o }) scope).1.entries
        × ((set_presence_scope r now j (record { id = o }) scope).1.lapse_after ≡ r.lapse_after)
  unfolding set_presence_scope
  sets_scope-IsValid o = ground (
    arith,
    v.distinct,
    update-Distinct j (λ g. record g { presence_scope = scope }) r.entries v.distinct,
  )

  deregisters-IsValid :
      (o : Option Text)
      → Distinct (deregister r now j (record { id = o })).1.entries
        × ((deregister r now j (record { id = o })).1.lapse_after ≡ r.lapse_after)
  unfolding deregister
  deregisters-IsValid o = ground (arith, v.distinct, remove-Distinct j r.entries v.distinct)

-- Every call keeps one registration for each name, and the length of the window.
step-IsValid :
    (r : Registry) (c : ℕ × Call)
    → IsValid r
    → IsValid (step r c) × ((step r c).lapse_after ≡ r.lapse_after)
unfolding step reap
step-IsValid r (now, registers name identity scope) v =
    let (d, l) = registers-IsValid r now name scope v identity.id (get name r.entries) refl in
    (record { distinct = d }, l)
step-IsValid r (now, sets_scope name identity scope) v =
    let (d, l) = sets_scope-IsValid r now name scope v identity.id in (record { distinct = d }, l)
step-IsValid r (now, deregisters name identity) v =
    let (d, l) = deregisters-IsValid r now name PresenceScope.hidden v identity.id in
    (record { distinct = d }, l)
step-IsValid r (now, reaps) v = (
  record { distinct = retain-Distinct (λ e. is_live now r.lapse_after e.1) r.entries v.distinct },
  refl,
)

module _ (r : Registry) (now : ℕ) (j name : Text) (scope : PresenceScope) (reg : Registration)
    (h : get name r.entries ≡ some reg) (live : now - reg.last_seen < r.lapse_after) where
  registers_keep :
      (o : Option Text)
      → o ≢ some reg.identity
      → get name (register r now j (record { id = o }) scope).1.entries ≡ some reg
  registers_keep none other = unfold register in h
  registers_keep (some id) other =
      ground
        (arith, get-register r now j id scope name, text_eq_iff j name, text_eq_iff reg.identity id)

  sets_scope_keep :
      (o : Option Text)
      → o ≢ some reg.identity
      → get name (set_presence_scope r now j (record { id = o }) scope).1.entries ≡ some reg
  sets_scope_keep none other = unfold set_presence_scope in h
  sets_scope_keep (some id) other = ground (
    arith,
    get-set_presence_scope r now j id scope name,
    text_eq_iff j name,
    text_eq_iff reg.identity id,
  )

  deregisters_keep :
      (o : Option Text)
      → o ≢ some reg.identity
      → get name (deregister r now j (record { id = o })).1.entries ≡ some reg
  deregisters_keep none other = unfold deregister in h
  deregisters_keep (some id) other =
      ground (
        arith,
        get-deregister r now j id scope name,
        text_eq_iff j name,
        text_eq_iff reg.identity id,
      )

step_keeps :
    (r : Registry) (c : ℕ × Call) (name : Text) (reg : Registration)
    → IsValid r
    → ByOther reg r.lapse_after c
    → get name r.entries ≡ some reg
    → get name (step r c).entries ≡ some reg
unfolding step reap
step_keeps r (now, registers j identity scope) name reg v o h =
    registers_keep r now j name scope reg h o.0 identity.id o.1
step_keeps r (now, sets_scope j identity scope) name reg v o h =
    sets_scope_keep r now j name scope reg h o.0 identity.id o.1
step_keeps r (now, deregisters j identity) name reg v o h =
    deregisters_keep r now j name PresenceScope.hidden reg h o.0 identity.id o.1
step_keeps r (now, reaps) name reg v o h =
    ground (arith, get-retain (λ e. is_live now r.lapse_after e.1) name r.entries v.distinct)

-- Whatever calls other identities make within the window, in any order, the name keeps its
-- registration as it was.
pub run_keeps :
    (r : Registry) (cs : List (ℕ × Call)) (name : Text) (reg : Registration)
    → IsValid r
    → All (ByOther reg r.lapse_after) cs
    → get name r.entries ≡ some reg
    → get name (run r cs).entries ≡ some reg
unfolding run
run_keeps r [] name reg v o h = h
run_keeps r (c ∷ cs) name reg v o h =
    let (w, l) = step-IsValid r c v in
    run_keeps (step r c) cs name reg w (rw l o.1) (step_keeps r c name reg v o.0 h)
