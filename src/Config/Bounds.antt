-- ===== src/Config/Bounds.antt =====
-- main.rs: the numbers of a configuration are in their ranges.
use mathlib.Core.Path.{subst}
use simple_im.Base.{
  ℕ, ◌≡◌, ◌≤◌, ◌<◌, ◌⊎◌, refl, ◌&&◌, ◌>>=◌, inl, inr, Option, none, some, List, [], ◌∷◌, arith,
  unwrap_or, eqb, Option-cases, Bool-cases,
}
use simple_im.Base.Text.{Text, text_Eq}
use simple_im.Base.Text.Decimal.{parse}
use simple_im.Hub.Start.{clamp}
use simple_im.Config.{
  Config, Options, Variables, initial, help, insecure, takes_port, takes_window, takes_path, other,
  flag_of, parse_port, with_insecure, with_port, with_window, with_path, parse_args, window_from,
  plain_port, concluded, from_env_and_args,
}

-- The port is a u16, and the liveness window is at least five seconds and at most ten minutes.
abbrev InRange : Options → Type 0
InRange o = (o.port < 65536) × (5 ≤ o.liveness_window_secs) × (o.liveness_window_secs ≤ 600)

parse_port-lt : (v : Text) → unwrap_or (parse_port v) 8443 < 65536
unfolding parse_port
parse_port-lt v = elim (Option-cases (parse v)) [
  | inl e ↦ rw e (omega arith)
  | inr (n, e) ↦ rw e (ground arith)
]

clamp_range : (n : ℕ) → (5 ≤ clamp 5 600 n) × (clamp 5 600 n ≤ 600)
clamp_range n = (ground arith, ground arith)

port-InRange : (o : Options) (v : Text) → InRange o → InRange (with_port o v)
port-InRange o v r = (parse_port-lt v, r.1, r.2)

window-InRange : (o : Options) (v : Text) → InRange o → InRange (with_window o v)
window-InRange o v r = let (low, high) = clamp_range (unwrap_or (parse v) 30) in (r.0, low, high)

Holds : Option Options → Type 0
Holds none = Unit
Holds (some o) = InRange o

parse_args-InRange : (args : List Text) (o : Options) → InRange o → Holds (parse_args args o)
unfolding parse_args Holds
parse_args-InRange [] o r = r
parse_args-InRange (arg ∷ []) o r =
    elim (flag_of arg)
      as (λ f. Holds (elim f [
        | help ↦ none
        | insecure ↦ some (with_insecure o)
        | takes_port ↦ some o
        | takes_window ↦ some o
        | takes_path ↦ some o
        | other ↦ some o
      ])) [
        | help ↦ tt
        | insecure ↦ r
        | takes_port ↦ r
        | takes_window ↦ r
        | takes_path ↦ r
        | other ↦ r
      ]
parse_args-InRange (arg ∷ v ∷ args) o r =
    elim (flag_of arg)
      as (λ f. Holds (elim f [
        | help ↦ none
        | insecure ↦ parse_args (v ∷ args) (with_insecure o)
        | takes_port ↦ parse_args args (with_port o v)
        | takes_window ↦ parse_args args (with_window o v)
        | takes_path ↦ parse_args args (with_path o v)
        | other ↦ parse_args (v ∷ args) o
      ])) [
        | help ↦ tt
        | insecure ↦ parse_args-InRange (v ∷ args) (with_insecure o) r
        | takes_port ↦ parse_args-InRange args (with_port o v) (port-InRange o v r)
        | takes_window ↦ parse_args-InRange args (with_window o v) (window-InRange o v r)
        | takes_path ↦ parse_args-InRange args (with_path o v) r
        | other ↦ parse_args-InRange (v ∷ args) o r
      ]

window_from_range :
    (env : Variables) (w : ℕ)
    → (5 ≤ w) × (w ≤ 600)
    → (5 ≤ window_from env w) × (window_from env w ≤ 600)
window_from_range env w r = elim (Option-cases (env.liveness_window_secs >>= parse)) [
  | inl e ↦ rw (e, window_from) r
  | inr (n, e) ↦ rw (e, window_from) (clamp_range n)
]

plain_port-InRange : (o : Options) → InRange o → InRange (plain_port o)
plain_port-InRange o r = elim (Bool-cases (o.insecure_http && eqb o.port 8443)) [
  | inl e ↦ rw e (omega arith, r.1, r.2)
  | inr e ↦ rw e r
]

-- Whatever the arguments and the environment are: the process prints its help, or it has a port below
-- 2^16 and a liveness window of five to 600 seconds.
pub from_env_and_args_lem :
    (env : Variables) (args : List Text)
    → (from_env_and_args env args ≡ none)
      ⊎ ((c : Config) × (from_env_and_args env args ≡ some c)
          × (c.port < 65536)
          × (5 ≤ c.liveness_window_secs)
          × (c.liveness_window_secs ≤ 600))
unfolding from_env_and_args Holds
from_env_and_args_lem env args = elim (Option-cases (parse_args args initial)) [
  | inl e ↦ inl (rw e refl)
  | inr (o, e) ↦
      let r =
        plain_port-InRange o (
          subst Holds e
            (parse_args-InRange args initial (omega arith, omega arith, omega arith))) in
      let (low, high) = window_from_range env (plain_port o).liveness_window_secs (r.1, r.2) in
      inr (concluded env (plain_port o), rw e refl, r.0, low, high)
]
