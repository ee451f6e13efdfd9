-- ===== src/Examples/Names.antt =====
-- Examples for registry.rs, presence.rs and error.rs: Alice registers at 10 with a window of 100.
use simple_im.Base.{ℕ, ◌≡◌, refl, ◌&&◌, some, List, [], ◌∷◌, arith, if◌then◌else◌, ◌==◌, is_some}
use simple_im.Base.Text.{Text, text_Eq, text_eq}
use simple_im.Base.Map.{get}
use simple_im.Registry.{ParticipantIdentity, Registration, Registry, register, public, hidden}
use simple_im.Registry.Laws.{
  IsValid, live_registration, shown, claim, accepted, renewed, register_lem,
}
use simple_im.Registry.Ownership.{Call, registers, deregisters, reaps, run, run_keeps}
use simple_im.Presence.{PresenceModule, online, offline, query, query_lem}
use simple_im.Examples.Sample.{alice, bob, carol, some_apart}

abbrev alices : Registration
alices = record { identity = alice; last_seen = 10; presence_scope = public }

abbrev names : Registry
names = record { entries = (alice, alices) ∷ []; lapse_after = 100 }

names-IsValid : IsValid names
unfolding get
names-IsValid = record { distinct = (refl, tt) }

abbrev as_identity : Text → ParticipantIdentity
as_identity i = record { id = some i }

register_example :
    ((register names 50 alice (record { id = some bob }) public).0
      ≡ claim (live_registration names 50 alice) bob)
    × (live_registration (register names 50 alice (record { id = some bob }) public).1 60 alice ≡ (
        if (alice == alice) && accepted (claim (live_registration names 50 alice) bob)
        then shown 100 60 (renewed names 50 alice bob public)
        else live_registration names 60 alice))
register_example = register_lem names 50 alice bob public 60 alice

abbrev others : List (ℕ × Call)
others =
    (20, registers alice (record { id = some bob }) hidden)
    ∷ (30, deregisters alice (record { id = some carol }))
    ∷ (40, reaps)
    ∷ []

run_keeps_example : get alice (run names others).entries ≡ some alices
unfolding get text_eq
run_keeps_example =
    run_keeps names others alice alices names-IsValid
      (
        (omega arith, some_apart bob alice refl),
        ((omega arith, some_apart carol alice refl), ((omega arith, tt), tt)),
      )
      refl

abbrev presences : PresenceModule
presences = record { registry = names }

query_example :
    ((query presences 200 alice).0
      ≡ (if is_some (live_registration names 200 alice) then online else offline))
    × (live_registration (query presences 200 alice).1.registry 210 alice
        ≡ live_registration names 210 alice)
query_example = query_lem presences 200 210 alice alice names-IsValid (omega arith)
