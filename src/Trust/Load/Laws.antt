-- ===== src/Trust/Load/Laws.antt =====
-- A chain loaded from the store (trust.rs) gives out only new identifiers.
use mathlib.Core.Path.{subst}
use simple_im.Base.{
  ℕ, ◌≤◌, ◌≡◌, ◌≢◌, refl, sym, ◌∙◌, true, false, List, [], ◌∷◌, ◌++◌, arith, All, All-append,
  All-map, Bool-cases, inl, inr,
}
use native.Mathlib.Nat.{le_trans}
use simple_im.Trust.Grant.{Grant, parse_counter_val}
use simple_im.Trust.Chain.{TrustChain, with_clock}
use simple_im.Trust.Load.{PersistedGrant, is_past, loaded_grant, seed, load_one, load_from_store}
use simple_im.Trust.Ids.{DistinctIds-snoc, IsFresh}

-- The identifier is the primary key of the table.
abbrev DistinctRows : List PersistedGrant → Type 0
DistinctRows [] = Unit
DistinctRows (g ∷ gs) = All (λ q. q.id ≢ g.id) gs × DistinctRows gs

-- No row has the identifier of a grant in the chain.
abbrev NotLoaded : TrustChain → List PersistedGrant → Type 0
NotLoaded t gs = All (λ p. All (λ (h : Grant). h.id ≢ p.id) t.grants) gs

module _ (now_instant now_unix : ℕ) where
  loaded-id : (g : PersistedGrant) → (loaded_grant now_instant now_unix g).id ≡ g.id
  unfolding loaded_grant
  loaded-id g = refl

  seed_bounds : (counter n : ℕ) → (counter ≤ seed counter n) × (n ≤ seed counter n)
  seed_bounds counter n = ground arith

  module _ (t : TrustChain) (g : PersistedGrant) where
    -- The chain with the row's grant at its end.
    abbrev extended : TrustChain
    extended = record t {
      counter = seed t.counter (parse_counter_val g.id);
      grants = t.grants ++ loaded_grant now_instant now_unix g ∷ [];
    }

    extended-IsFresh : IsFresh t → All (λ (h : Grant). h.id ≢ g.id) t.grants → IsFresh extended
    extended-IsFresh v a =
        let (below, above) = seed_bounds t.counter (parse_counter_val g.id) in
        record {
          distinct = DistinctIds-snoc t.grants (loaded_grant now_instant now_unix g) v.distinct (
              All-map (λ h. h.id ≢ g.id) (λ h. h.id ≢ (loaded_grant now_instant now_unix g).id)
                t.grants (λ h n e. n (e ∙ loaded-id g)) a);
          seeded =
              All-append (λ h. parse_counter_val h.id ≤ extended.counter) t.grants
                (loaded_grant now_instant now_unix g ∷ [])
                (All-map (λ h. parse_counter_val h.id ≤ t.counter)
                  (λ h. parse_counter_val h.id ≤ extended.counter) t.grants
                  (λ h le. le_trans le below) v.seeded)
                (rw (loaded-id g) above, tt);
        }

    extended-NotLoaded :
        (gs : List PersistedGrant)
        → All (λ q. q.id ≢ g.id) gs
        → NotLoaded t gs
        → NotLoaded extended gs
    extended-NotLoaded [] d n = tt
    extended-NotLoaded (q ∷ gs) d n = (
      All-append (λ (h : Grant). h.id ≢ q.id) t.grants (loaded_grant now_instant now_unix g ∷ [])
          n.0 (λ e. d.0 (sym e ∙ loaded-id g), tt),
      extended-NotLoaded gs d.1 n.1,
    )

  load_skips :
      (t : TrustChain) (g : PersistedGrant)
      → is_past now_unix g.expires_at_secs ≡ true
      → load_one now_instant now_unix t g ≡ t
  unfolding load_one
  load_skips t g e = rw e

  load_adds :
      (t : TrustChain) (g : PersistedGrant)
      → is_past now_unix g.expires_at_secs ≡ false
      → load_one now_instant now_unix t g ≡ extended t g
  unfolding load_one
  load_adds t g e = rw e

  load_list :
      (t : TrustChain) (gs : List PersistedGrant)
      → IsFresh t
      → DistinctRows gs
      → NotLoaded t gs
      → IsFresh (load_from_store t now_instant now_unix gs)
  unfolding load_from_store
  load_list t [] v d n = v
  load_list t (g ∷ gs) v d n = elim (Bool-cases (is_past now_unix g.expires_at_secs)) [
    | inl e ↦
        subst (λ u. IsFresh (load_from_store u now_instant now_unix gs)) (sym (load_skips t g e))
          (load_list t gs v d.1 n.1)
    | inr e ↦
        subst (λ u. IsFresh (load_from_store u now_instant now_unix gs)) (sym (load_adds t g e))
          (load_list (extended t g) gs (extended-IsFresh t g v n.0) d.1
            (extended-NotLoaded t g gs d.0 n.1))
  ]

  NotLoaded-empty : (gs : List PersistedGrant) → NotLoaded with_clock gs
  unfolding with_clock
  NotLoaded-empty [] = tt
  NotLoaded-empty (g ∷ gs) = (tt, NotLoaded-empty gs)

  IsFresh-empty : IsFresh with_clock
  unfolding with_clock
  IsFresh-empty = record { distinct = tt; seeded = tt }

  -- After a restart the counter stands at least at the number of every grant loaded, and the
  -- grants loaded have distinct identifiers, so that no identifier given out later is one of theirs.
  load-IsFresh :
      (gs : List PersistedGrant)
      → DistinctRows gs
      → IsFresh (load_from_store with_clock now_instant now_unix gs)
  load-IsFresh gs d = load_list with_clock gs IsFresh-empty d (NotLoaded-empty gs)
