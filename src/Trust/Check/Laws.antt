-- ===== src/Trust/Check/Laws.antt =====
-- What `check_grant_directed_with_names` (trust.rs) answers.
use simple_im.Base.{
  ℕ, ◌≡◌, inl, inr, Bool, true, false, Option, none, some, arith, any, All, Any, foldl,
  if◌then◌else◌,
}
use simple_im.Base.Text.{Text}
use simple_im.Error.{Error, ok, err, grant_exhausted, grant_expired, no_grant}
use simple_im.Trust.Grant.{Grant, GrantRef, grant_covers_directed_with_names}
use simple_im.Trust.Chain.{TrustChain}
use simple_im.Trust.Check.{start, grant_ref, visit, verdict, check_grant_directed_with_names}
use simple_im.Trust.Check.Scan.{NotWorse, usable, spent, lapsed, Best, loop_flags, loop-Best}

module _ (t : TrustChain) (now : ℕ) (from to : Text) (from_name to_name : Option Text) where
  abbrev pub covers : Grant → Bool
  covers = grant_covers_directed_with_names from to from_name to_name

  verdict_of :
      (o : Option Grant) (exhausted expired : Bool) (ref : GrantRef)
      → verdict (record { best_valid = o; found_exhausted = exhausted; found_expired = expired })
        ≡ ok ref
      → Best covers now none o t.grants
      → (g : Grant) × (grant_ref g ≡ ref)
        × Any (λ h. (h ≡ g) × (usable covers now h ≡ true)) t.grants
        × All (λ h. usable covers now h ≡ true → NotWorse g h) t.grants
  unfolding verdict
  verdict_of none exhausted expired ref v b = absurd (ground arith)
  verdict_of (some g) exhausted expired ref v b =
      (g, (cc), elim b.0 [ inl e ↦ absurd (cc) | inr m ↦ m ], b.2)

  -- An answer `ok` is a grant of the chain that covers the pair, has neither expired nor spent its
  -- budget, and is at least as good as every other such grant.
  pub check_ok :
      (ref : GrantRef)
      → check_grant_directed_with_names t now from to from_name to_name ≡ ok ref
      → (g : Grant) × (grant_ref g ≡ ref)
        × Any (λ h. (h ≡ g) × (usable covers now h ≡ true)) t.grants
        × All (λ h. usable covers now h ≡ true → NotWorse g h) t.grants
  unfolding check_grant_directed_with_names
  check_ok ref e =
      let s = foldl (visit covers now) start t.grants in
      verdict_of s.best_valid s.found_exhausted s.found_expired ref e
        (loop-Best covers now t.grants start)

  verdict_err :
      (o : Option Grant) (exhausted expired : Bool) (e : Error)
      → exhausted ≡ any (spent covers now) t.grants
      → expired ≡ any (lapsed covers now) t.grants
      → verdict (record { best_valid = o; found_exhausted = exhausted; found_expired = expired })
        ≡ err e
      → Best covers now none o t.grants
      → All (λ h. usable covers now h ≡ false) t.grants
        × (e ≡ (
            if any (spent covers now) t.grants
            then grant_exhausted
            else if any (lapsed covers now) t.grants
            then grant_expired
            else no_grant))
  unfolding verdict
  verdict_err none exhausted expired e p q v b = (b.1, ground arith)
  verdict_err (some g) exhausted expired e p q v b = absurd (ground arith)

  -- A refusal means that no grant lets the message through. It is `grant_exhausted` when a grant
  -- that covers the pair and has not expired has spent its budget, else `grant_expired` when one
  -- that covers the pair has expired, else `no_grant`.
  pub check_err :
      (e : Error)
      → check_grant_directed_with_names t now from to from_name to_name ≡ err e
      → All (λ h. usable covers now h ≡ false) t.grants
        × (e ≡ (
            if any (spent covers now) t.grants
            then grant_exhausted
            else if any (lapsed covers now) t.grants
            then grant_expired
            else no_grant))
  unfolding check_grant_directed_with_names
  check_err e v =
      let s = foldl (visit covers now) start t.grants in
      let (p, q) = loop_flags covers now t.grants start in
      verdict_err s.best_valid s.found_exhausted s.found_expired e p q v
        (loop-Best covers now t.grants start)
