-- ===== src/Config.antt =====
-- main.rs: the configuration, from the arguments of the process and three environment variables.
pub mod Bounds
use simple_im.Base.{
  ℕ, Bool, true, false, not, ◌&&◌, ◌||◌, Option, none, some, List, [], ◌∷◌, if◌then◌else◌, ◌==◌,
  unwrap_or, or_else, ◌>>=◌, option_map, ltb, eqb,
}
use simple_im.Base.Text.{Text, text_Eq, codes, is_text}
use simple_im.Base.Text.Decimal.{parse}
use simple_im.Hub.Start.{clamp}

pub record Config : Type 0 where
  pub port : ℕ
  pub insecure_http : Bool
  pub liveness_window_secs : ℕ
  pub token_store_path : Text

-- The local variables of the loop over the arguments.
pub record Options : Type 0 where
  pub port : ℕ
  pub insecure_http : Bool
  pub liveness_window_secs : ℕ
  pub token_store_path : Option Text

-- The environment variables that are read, each with its value if it is set.
pub record Variables : Type 0 where
  pub insecure_http : Option Text
  pub liveness_window_secs : Option Text
  pub token_store : Option Text

abbrev pub initial : Options
initial = record {
  port = 8443;
  insecure_http = false;
  liveness_window_secs = 30;
  token_store_path = none;
}

pub data Flag : Type 0 where
  help : Flag
  insecure : Flag
  takes_port : Flag
  takes_window : Flag
  takes_path : Flag
  other : Flag

unfoldable pub flag_of : Text → Flag
flag_of arg =
    if arg == codes "--help" || arg == codes "-h"
    then help
    else if arg == codes "--insecure-http"
    then insecure
    else if arg == codes "--port"
    then takes_port
    else if arg == codes "--liveness-window-secs"
    then takes_window
    else if arg == codes "--token-store-path"
    then takes_path
    else other

-- `parse::<u16>()`
unfoldable pub parse_port : Text → Option ℕ
parse_port v = parse v >>= λ n. if ltb n 65536 then some n else none

abbrev pub with_insecure : Options → Options
with_insecure o = record o { insecure_http = true }

abbrev pub with_port : Options → Text → Options
with_port o v = record o { port = unwrap_or (parse_port v) 8443 }

abbrev pub with_window : Options → Text → Options
with_window o v = record o { liveness_window_secs = clamp 5 600 (unwrap_or (parse v) 30) }

abbrev pub with_path : Options → Text → Options
with_path o v = record o { token_store_path = some v }

-- The loop over the arguments; `none` when the help is printed and the process exits. A flag that
-- takes a value takes the next argument, whatever it is; the last argument may miss it.
unfoldable pub parse_args : List Text → Options → Option Options
parse_args [] o = some o
parse_args (arg ∷ []) o = elim (flag_of arg) [
  | help ↦ none
  | insecure ↦ some (with_insecure o)
  | takes_port ↦ some o
  | takes_window ↦ some o
  | takes_path ↦ some o
  | other ↦ some o
]
parse_args (arg ∷ v ∷ args) o = elim (flag_of arg) [
  | help ↦ none
  | insecure ↦ parse_args (v ∷ args) (with_insecure o)
  | takes_port ↦ parse_args args (with_port o v)
  | takes_window ↦ parse_args args (with_window o v)
  | takes_path ↦ parse_args args (with_path o v)
  | other ↦ parse_args (v ∷ args) o
]

-- With the flag for plain HTTP, the default port is another one.
abbrev pub plain_port : Options → Options
plain_port o = if o.insecure_http && eqb o.port 8443 then record o { port = 8080 } else o

abbrev pub window_from : Variables → ℕ → ℕ
window_from env w = elim (env.liveness_window_secs >>= parse) [ none ↦ w | some n ↦ clamp 5 600 n ]

-- A path from the environment counts if there is none yet and it is not empty.
abbrev pub path_from : Option Text → Option Text
path_from (some (c ∷ path)) = some (c ∷ path)
path_from v = none

abbrev pub concluded : Variables → Options → Config
concluded env o = record {
  port = o.port;
  insecure_http = is_text env.insecure_http (codes "1") || o.insecure_http;
  liveness_window_secs = window_from env o.liveness_window_secs;
  token_store_path =
      unwrap_or (or_else o.token_store_path (path_from env.token_store)) (codes "sim-tokens.db");
}

-- `args` are the arguments after the name of the program.
unfoldable pub from_env_and_args : Variables → List Text → Option Config
unfolding parse_args
from_env_and_args env args =
    option_map (λ o. concluded env (plain_port o)) (parse_args args initial)
