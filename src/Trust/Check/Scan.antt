-- ===== src/Trust/Check/Scan.antt =====
-- The loop of `check_grant_directed_with_names` (trust.rs), from any state of its variables.
use mathlib.Core.Path.{subst}
use simple_im.Base.{
  ℕ, ◌≤◌, ◌≡◌, refl, sym, ap, ◌∙◌, ◌⊎◌, inl, inr, Bool, true, false, not, ◌&&◌, ◌||◌, Option, none,
  some, List, [], ◌∷◌, arith, if◌then◌else◌, foldl, any, All, Any, Bool-cases,
}
use simple_im.Trust.Grant.{
  Grant, grant_id_num, is_directed, select_better_grant, is_expired, is_exhausted,
}
use simple_im.Trust.Check.{LoopState, visit, better_of}

-- The first grant is at least as good as the second: a directed one is better than a symmetric
-- one, and of two of one kind the lower number is better.
pub record NotWorse (g h : Grant) : Type 0 where
  pub kind : is_directed h.direction ≡ true → is_directed g.direction ≡ true
  pub number :
      is_directed g.direction ≡ is_directed h.direction → grant_id_num g.id ≤ grant_id_num h.id

NotWorse-refl : (g : Grant) → NotWorse g g
NotWorse-refl g = record { kind = λ e. e; number = λ e. omega arith }

NotWorse-trans : (f g h : Grant) → NotWorse f g → NotWorse g h → NotWorse f h
NotWorse-trans f g h p q = ground arith

select_better_grant-NotWorse :
    (a b : Grant) → NotWorse (select_better_grant a b) a × NotWorse (select_better_grant a b) b
unfolding select_better_grant
select_better_grant-NotWorse a b = ground arith

-- Which of two.
select_better_grant-cases :
    (a b : Grant) → (select_better_grant a b ≡ a) ⊎ (select_better_grant a b ≡ b)
unfolding select_better_grant
select_better_grant-cases a b = ground arith

some_inj : {g h : Grant} → some g ≡ some h → g ≡ h
some_inj e = cc

some-ne-none : {g : Grant} → some g ≡ none → ⊥
some-ne-none e = cc

true-ne-false : true ≡ false → ⊥
true-ne-false e = cc

module _ (covers : Grant → Bool) (now : ℕ) where
  -- A grant that lets the message through.
  abbrev pub usable : Grant → Bool
  usable g = covers g && not (is_expired now g) && not (is_exhausted g)

  -- A grant that would, but for its spent budget, or but for its age.
  abbrev pub spent : Grant → Bool
  spent g = covers g && not (is_expired now g) && is_exhausted g

  abbrev pub lapsed : Grant → Bool
  lapsed g = covers g && is_expired now g

  visit_flags :
      (s : LoopState) (g : Grant)
      → ((visit covers now s g).found_exhausted ≡ (s.found_exhausted || spent g))
        × ((visit covers now s g).found_expired ≡ (s.found_expired || lapsed g))
        × ((visit covers now s g).best_valid
            ≡ (if usable g then some (better_of s.best_valid g) else s.best_valid))
  unfolding visit
  visit_flags s g = ground arith

  pub loop_flags :
      (gs : List Grant) (s : LoopState)
      → ((foldl (visit covers now) s gs).found_exhausted ≡ (s.found_exhausted || any spent gs))
        × ((foldl (visit covers now) s gs).found_expired ≡ (s.found_expired || any lapsed gs))
  unfolding foldl any
  loop_flags [] s = ground arith
  loop_flags (g ∷ gs) s = ground (arith, visit_flags s g, loop_flags gs (visit covers now s g))

  -- `best` is the best grant of those before the loop and of the usable ones in the list.
  abbrev pub Best : Option Grant → Option Grant → List Grant → Type 0
  Best before none gs = (before ≡ none) × All (λ h. usable h ≡ false) gs
  Best before (some g) gs =
      ((before ≡ some g) ⊎ Any (λ h. (h ≡ g) × (usable h ≡ true)) gs)
      × ((b : Grant) → before ≡ some b → NotWorse g b)
      × All (λ h. usable h ≡ true → NotWorse g h) gs

  Best-used :
      (before : Option Grant) (g : Grant) (gs : List Grant) (r : Option Grant)
      → usable g ≡ true
      → Best (some (better_of before g)) r gs
      → Best before r (g ∷ gs)
  Best-used before g gs none u b = absurd (some-ne-none b.0)
  Best-used none g gs (some x) u b = (
    elim b.0 [ inl e ↦ inr (inl (some_inj e, u)) | inr m ↦ inr (inr m) ],
    λ c e. absurd (some-ne-none (sym e)),
    (λ _. b.1 g refl, b.2),
  )
  Best-used (some c) g gs (some x) u b =
      let s = select_better_grant-NotWorse c g in
      let first = b.1 (select_better_grant c g) refl in
      (
        elim b.0 [
          | inl e ↦ elim (select_better_grant-cases c g) [
            | inl k ↦ inl (cc)
            | inr k ↦ inr (inl (cc, u))
          ]
          | inr m ↦ inr (inr m)
        ],
        λ d e.
            subst (NotWorse x) (some_inj e)
              (NotWorse-trans x (select_better_grant c g) c first s.0),
        (λ _. NotWorse-trans x (select_better_grant c g) g first s.1, b.2),
      )

  Best-skipped :
      (before : Option Grant) (g : Grant) (gs : List Grant) (r : Option Grant)
      → usable g ≡ false
      → Best before r gs
      → Best before r (g ∷ gs)
  Best-skipped before g gs none u b = (b.0, (u, b.1))
  Best-skipped before g gs (some x) u b = (
    elim b.0 [ inl e ↦ inl e | inr m ↦ inr (inr m) ],
    b.1,
    (λ k. absurd (true-ne-false (sym k ∙ u)), b.2),
  )

  Best-start : (o : Option Grant) → Best o o []
  Best-start none = (refl, tt)
  Best-start (some g) = (inl refl, λ b e. subst (NotWorse g) (some_inj e) (NotWorse-refl g), tt)

  pub loop-Best :
      (gs : List Grant) (s : LoopState)
      → Best s.best_valid (foldl (visit covers now) s gs).best_valid gs
  unfolding foldl
  loop-Best [] s = Best-start s.best_valid
  loop-Best (g ∷ gs) s =
      let r = (foldl (visit covers now) (visit covers now s g) gs).best_valid in
      let ih = loop-Best gs (visit covers now s g) in
      let (_, _, e) = visit_flags s g in
      elim (Bool-cases (usable g)) [
        | inl u ↦ Best-used s.best_valid g gs r u (
            subst (λ o. Best o r gs)
              (e ∙ ap (λ b. if b then some (better_of s.best_valid g) else s.best_valid) u) ih)
        | inr u ↦ Best-skipped s.best_valid g gs r u (
            subst (λ o. Best o r gs)
              (e ∙ ap (λ b. if b then some (better_of s.best_valid g) else s.best_valid) u) ih)
      ]
