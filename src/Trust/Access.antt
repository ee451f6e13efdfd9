-- ===== src/Trust/Access.antt =====
-- What approvals, removals and deletions (trust.rs) do to who may reach whom.
use mathlib.Core.Path.{subst}
use simple_im.Base.{
  ℕ, ◌+◌, ◌<◌, ◌≡◌, ◌≢◌, refl, sym, ◌∙◌, true, false, Option, none, some, List, [], ◌∷◌, ◌++◌,
  arith, min, All, unwrap_or, inl, inr, wrap64,
}
use simple_im.Base.Text.{Text, text_Eq, text_eq_self, codes}
use simple_im.Error.{ok, Result-cases}
use simple_im.Trust.Grant.{
  Grant, GrantDirection, GrantRef, ApproveGrantRequest, matches_pair, symmetric, a_to_b, b_to_a,
  grant_covers_directed_with_names, is_expired, is_exhausted, max_expiry,
}
use simple_im.Trust.Chain.{
  TrustChain, id_text, new_grant, expires_at, approve_grant_req, create_consent_grant,
  recipient_consent,
}
use simple_im.Trust.Check.{check_grant_directed_with_names}
use simple_im.Trust.Check.Scan.{usable}
use simple_im.Trust.Check.Laws.{covers, check_err}

All-last : (P : Grant → Type 0) (gs : List Grant) (g : Grant) → All P (gs ++ g ∷ []) → P g
All-last P [] g a = a.0
All-last P (h ∷ gs) g a = All-last P gs g a.1

true-ne-false : true ≡ false → ⊥
true-ne-false e = cc

-- The approval has not run out at a later time.
abbrev pub Running : ℕ → Option ℕ → ℕ → Type 0
Running now none later = Unit {0}
Running now (some d) later = later < now + min d max_expiry

-- The approval lets at least one message through.
abbrev HasBudget : Option ℕ → Type 0
HasBudget none = Unit {0}
HasBudget (some max) = 0 < max

matches_self :
    (d : Option GrantDirection) (x y : Text)
    → d ≢ some b_to_a
    → matches_pair (unwrap_or d symmetric) x y x y ≡ true
unfolding matches_pair
matches_self none x y n = ground (arith, text_eq_self x, text_eq_self y)
matches_self (some symmetric) x y n = ground (arith, text_eq_self x, text_eq_self y)
matches_self (some a_to_b) x y n = ground (arith, text_eq_self x, text_eq_self y)
matches_self (some b_to_a) x y n = absurd (n refl)

covers_self :
    (d : Option GrantDirection) (a b : Text) (name_a name_b : Option Text) (g : Grant)
    → d ≢ some b_to_a
    → g.direction ≡ unwrap_or d symmetric
    → g.identity_a ≡ a
    → g.identity_b ≡ b
    → g.name_a ≡ name_a
    → g.name_b ≡ name_b
    → grant_covers_directed_with_names a b name_a name_b g ≡ true
unfolding grant_covers_directed_with_names
covers_self d a b (some na) (some nb) g n e p q r s = ground (arith, matches_self d na nb n)
covers_self d a b (some na) none g n e p q r s = ground (arith, matches_self d a b n)
covers_self d a b none name_b g n e p q r s = ground (arith, matches_self d a b n)

not_expired :
    (now later : ℕ) (expiry : Option ℕ) (g : Grant)
    → Running now expiry later
    → g.expires ≡ expires_at now expiry
    → is_expired later g ≡ false
not_expired now later none g r e = ground arith
not_expired now later (some d) g r e = ground arith

not_exhausted :
    (max : Option ℕ) (g : Grant)
    → HasBudget max
    → g.max_messages ≡ max
    → g.messages_used ≡ 0
    → is_exhausted g ≡ false
not_exhausted none g k e z = ground arith
not_exhausted (some m) g k e z = ground arith

module _ (now : ℕ) (gov a b : Text) (expiry : Option ℕ) (req : ApproveGrantRequest) (later : ℕ)
    (r : Running now expiry later) (k : HasBudget req.max_messages)
    (d : req.direction ≢ some b_to_a) where
  new_usable :
      (id : Text)
      → usable
          (grant_covers_directed_with_names a b req.name_a req.name_b)
          later
          (new_grant id gov a b (expires_at now expiry) req)
        ≡ true
  unfolding new_grant
  new_usable id =
      let g = new_grant id gov a b (expires_at now expiry) req in
      rw (
        covers_self req.direction a b req.name_a req.name_b g d refl refl refl refl refl,
        not_expired now later expiry g r refl,
        not_exhausted req.max_messages g k refl refl,
      )

  pub reaches :
      (t : TrustChain) (gs : List Grant) (id : Text)
      → t.grants ≡ gs ++ new_grant id gov a b (expires_at now expiry) req ∷ []
      → (ref : GrantRef) × (check_grant_directed_with_names t later a b req.name_a req.name_b
          ≡ ok ref)
  reaches t gs id e =
      elim (Result-cases (check_grant_directed_with_names t later a b req.name_a req.name_b)) [
        | inl found ↦ found
        | inr (x, refused) ↦
            let (none_usable, _) = check_err t later a b req.name_a req.name_b x refused in
            let unusable =
              All-last
                (λ h.
                  usable (grant_covers_directed_with_names a b req.name_a req.name_b) later h
                  ≡ false)
                gs (new_grant id gov a b (expires_at now expiry) req)
                (subst
                  (All (λ h. usable (covers t later a b req.name_a req.name_b) later h ≡ false)) e
                  none_usable) in
            absurd (true-ne-false (sym (new_usable id) ∙ unusable))
      ]

-- From its approval until it runs out, a grant with a budget lets its first party reach its
-- second, unless it was approved for the other direction only; so does a grant by the recipient's
-- consent.
pub approve-check :
    (t : TrustChain) (now : ℕ) (gov a b : Text) (expiry : Option ℕ) (req : ApproveGrantRequest)
    (later : ℕ)
    → Running now expiry later
    → HasBudget req.max_messages
    → req.direction ≢ some b_to_a
    → ((ref : GrantRef) × (check_grant_directed_with_names
            (approve_grant_req t now gov a b expiry req).1
            later
            a
            b
            req.name_a
            req.name_b
          ≡ ok ref))
      × ((ref : GrantRef) × (check_grant_directed_with_names
              (create_consent_grant t now a b expiry req).1
              later
              a
              b
              req.name_a
              req.name_b
            ≡ ok ref))
unfolding approve_grant_req create_consent_grant
approve-check t now gov a b expiry req later r k d =
    let id = id_text (codes "grant") (wrap64 (t.counter + 1)) in
    (
      reaches now gov a b expiry req later r k d (approve_grant_req t now gov a b expiry req).1
          t.grants id refl,
      reaches now recipient_consent a b expiry req later r k d
          (create_consent_grant t now a b expiry req).1 t.grants id refl,
    )
