-- ===== src/Trust/Check.antt =====
-- trust.rs: which grant lets a sender reach a recipient, or why none does.
pub mod Scan
pub mod Laws
use simple_im.Base.{
  ℕ, Bool, true, false, ◌&&◌, Option, none, some, List, [], ◌∷◌, if◌then◌else◌, foldl, option_map,
}
use simple_im.Base.Text.{Text}
use simple_im.Error.{Error, Done, Result, ok, err, grant_exhausted, grant_expired, no_grant, ◌>>=◌}
use simple_im.Trust.Grant.{
  Grant, GrantRef, grant_covers_directed_with_names, select_better_grant, is_expired, is_exhausted,
}
use simple_im.Trust.Chain.{TrustChain}

-- The variables of the loop.
pub record LoopState : Type 0 where
  pub best_valid : Option Grant
  pub found_exhausted : Bool
  pub found_expired : Bool

abbrev pub start : LoopState
start = record { best_valid = none; found_exhausted = false; found_expired = false }

abbrev pub grant_ref : Grant → GrantRef
grant_ref g = record {
  id = g.id;
  opens_reply_window = g.opens_reply_window;
  mediation = g.mediation;
  governor_id = g.governor_id;
  conditions = g.conditions;
}

abbrev pub better_of : Option Grant → Grant → Grant
better_of none g = g
better_of (some current) g = select_better_grant current g

-- The body of the loop, for a test of coverage.
unfoldable pub visit : (Grant → Bool) → ℕ → LoopState → Grant → LoopState
visit covers now s g =
    if covers g
    then (if is_expired now g
        then record s { found_expired = true }
        else if is_exhausted g
        then record s { found_exhausted = true }
        else record s { best_valid = some (better_of s.best_valid g) })
    else s

unfoldable pub verdict : LoopState → Result GrantRef
verdict s = elim s.best_valid [
  | some g ↦ ok (grant_ref g)
  | none ↦
      if s.found_exhausted
      then err grant_exhausted
      else if s.found_expired
      then err grant_expired
      else err no_grant
]

unfoldable pub check_grant_directed_with_names :
    TrustChain → ℕ → Text → Text → Option Text → Option Text → Result GrantRef
unfolding foldl visit verdict grant_covers_directed_with_names
check_grant_directed_with_names t now from to from_name to_name =
    verdict (
      foldl (visit (grant_covers_directed_with_names from to from_name to_name) now) start t.grants)

unfoldable check_grant_directed : TrustChain → ℕ → Text → Text → Result GrantRef
unfolding check_grant_directed_with_names
check_grant_directed t now from to = check_grant_directed_with_names t now from to none none

unfoldable check_grant : TrustChain → ℕ → Text → Text → Result Done
unfolding check_grant_directed
check_grant t now identity_a identity_b = do
  _ ← check_grant_directed t now identity_a identity_b
  ok tt
