-- ===== src/Base/Map/Distinct.antt =====
-- A map holds one entry for each key: every operation keeps this, and filtering by entry then is
-- filtering what `get` returns.
use mathlib.Core.Path.{◌≡◌, refl, subst}
use mathlib.Core.Logic.{inl, inr}
use mathlib.Core.Bool.{Bool}
use mathlib.Core.Option.{Option, none, some}
use mathlib.Core.List.{[], ◌∷◌}
use native.Mathlib.Omega.{arith}
use simple_im.Base.Tests.{if◌then◌else◌, Bool-cases}
use simple_im.Base.Lists.{retain, All}
use simple_im.Base.Interface.{Eq, ◌==◌}
use simple_im.Base.Map.{Map, get, insert, remove, update, get-insert, get-remove, get-update}

module _ {ℓ} {K : Type ℓ} {V : Type ℓ} ⦃e : Eq K⦄ where
  abbrev pub Distinct : Map K V → Type ℓ
  Distinct [] = Unit
  Distinct ((k, v) ∷ m) = (get k m ≡ none) × Distinct m

  pub insert-Distinct : (k : K) (v : V) (m : Map K V) → Distinct m → Distinct (insert k v m)
  unfolding get insert
  insert-Distinct k v [] d = (refl, tt)
  insert-Distinct k v ((j, w) ∷ m) d =
      ground (arith, e.beq_iff j k, e.beq_iff k j, insert-Distinct k v m d.1, get-insert k j v m)

  pub remove-Distinct : (k : K) (m : Map K V) → Distinct m → Distinct (remove k m)
  unfolding get remove
  remove-Distinct k [] d = tt
  remove-Distinct k ((j, w) ∷ m) d =
      ground (arith, e.beq_iff j k, e.beq_iff k j, remove-Distinct k m d.1, get-remove k j m)

  pub update-Distinct : (k : K) (f : V → V) (m : Map K V) → Distinct m → Distinct (update k f m)
  unfolding get update
  update-Distinct k f [] d = tt
  update-Distinct k f ((j, w) ∷ m) d =
      ground (arith, e.beq_iff j k, e.beq_iff k j, update-Distinct k f m d.1, get-update k j f m)

  -- What `get` finds after a filter.
  abbrev pub kept : (K × V → Bool) → K → Option V → Option V
  kept p k none = none
  kept p k (some v) = if p (k, v) then some v else none

  pub get-retain :
      (p : K × V → Bool) (k : K) (m : Map K V)
      → Distinct m
      → get k (retain p m) ≡ kept p k (get k m)
  unfolding get retain
  get-retain p k [] d = refl
  get-retain p k ((j, w) ∷ m) d = ground (arith, e.beq_iff j k, get-retain p k m d.1)

  pub retain-Distinct : (p : K × V → Bool) (m : Map K V) → Distinct m → Distinct (retain p m)
  unfolding get retain
  retain-Distinct p [] d = tt
  retain-Distinct p ((j, w) ∷ m) d = ground (arith, retain-Distinct p m d.1, get-retain p j m d.1)

-- What holds of every value goes on to hold.
module _ {ℓ κ} {K : Type ℓ} {V : Type ℓ} ⦃e : Eq K⦄ (P : V → Type κ) where
  pub All-insert :
      (k : K) (v : V) (m : Map K V) → P v → All (λ x. P x.1) m → All (λ x. P x.1) (insert k v m)
  unfolding insert
  All-insert k v [] p a = (p, tt)
  All-insert k v ((j, w) ∷ m) p a = elim (Bool-cases (j == k)) [
    | inl h ↦ rw h (p, a.1)
    | inr h ↦ rw h (a.0, All-insert k v m p a.1)
  ]

  pub All-remove : (k : K) (m : Map K V) → All (λ x. P x.1) m → All (λ x. P x.1) (remove k m)
  unfolding remove
  All-remove k [] a = tt
  All-remove k ((j, w) ∷ m) a = elim (Bool-cases (j == k)) [
    | inl h ↦ rw h (All-remove k m a.1)
    | inr h ↦ rw h (a.0, All-remove k m a.1)
  ]

  pub All-update :
      (k : K) (f : V → V) (m : Map K V)
      → ((v : V) → P v → P (f v))
      → All (λ x. P x.1) m
      → All (λ x. P x.1) (update k f m)
  unfolding update
  All-update k f [] p a = tt
  All-update k f ((j, w) ∷ m) p a = elim (Bool-cases (j == k)) [
    | inl h ↦ rw h (p w a.0, a.1)
    | inr h ↦ rw h (a.0, All-update k f m p a.1)
  ]

  -- A value that `get` finds is one of the values.
  pub All-get : (k : K) (m : Map K V) (v : V) → All (λ x. P x.1) m → get k m ≡ some v → P v
  unfolding get
  All-get k [] v a h = absurd (cc)
  All-get k ((j, w) ∷ m) v a h = elim (Bool-cases (j == k)) [
    | inl q ↦ subst P (ground arith) a.0
    | inr q ↦ All-get k m v a.1 (ground arith)
  ]
