-- ===== src/Examples/Web.antt =====
-- Examples for http.rs and main.rs: a date, a file name, a request without a token, and the arguments
-- of the process.
use simple_im.Base.{
  ◌≡◌, ◌≤◌, ◌<◌, ◌⊎◌, refl, true, false, none, some, List, [], ◌∷◌, arith, All, length,
}
use simple_im.Base.Text.{Text, text_eq, codes}
use simple_im.Base.Text.Decimal.{parse}
use simple_im.Trust.Chain.{with_clock}
use simple_im.Http.Respond.{Response, HeaderMap, bearer_token}
use simple_im.Http.Time.{Stamp, stamp}
use simple_im.Http.Time.Calendar.{IsStampOf, stamp_lem}
use simple_im.Http.Filename.{IsSafe, IsPlain, sanitize_filename, sanitize_filename_lem}
use simple_im.Http.Handlers.{Call}
use simple_im.Http.Handlers.People.{Settings}
use simple_im.Http.Serve.{post_announce, serve}
use simple_im.Http.Serve.Access.{unauthenticated_refused}
use simple_im.Config.{Config, Variables, flag_of, parse_port, parse_args, from_env_and_args}
use simple_im.Config.Bounds.{from_env_and_args_lem}
use simple_im.Examples.Sample.{carol, hub, blank}

-- The 29th of February 2024, one second before midnight.
stamp_example : (t : Stamp) × (stamp 1709251199 ≡ some t) × IsStampOf 1709251199 t
stamp_example = stamp_lem 1709251199 (ground arith)

-- A quote, a line feed and a name.
abbrev unsafe_name : Text
unsafe_name = 34 ∷ 10 ∷ codes "a.txt"

sanitize_filename_example :
    All IsSafe (sanitize_filename unsafe_name)
    × (1 ≤ length (sanitize_filename unsafe_name))
    × (length (sanitize_filename unsafe_name) ≤ 255)
    × (All IsPlain unsafe_name
        → 1 ≤ length unsafe_name
        → length unsafe_name ≤ 255
        → sanitize_filename unsafe_name ≡ unsafe_name)
sanitize_filename_example = sanitize_filename_lem unsafe_name

abbrev call : Call
call = record {
  env = record {
    now = 100;
    now_secs = 1000;
    is_closed = λ _. false;
    timer_is_closed = λ _. false;
    render = blank;
  };
  readings = record { pruned_at = 5; now_secs = 1000; checked_at = 6; now = 7; replied_at = 8 };
  later = 101;
  system_now = 1709251199000000000;
  draws = [];
  bytes = [];
  tx = 9;
  arrivals = [];
  store = none;
  is_header_value = λ _. true;
}

abbrev settings : Settings
settings = record {
  attachment_ttl = 3600;
  bootstrap_deadline = none;
  admin_secret = none;
  documents = record {
    openapi_yaml = [];
    participant_skill_md = [];
    participant_listen_sh = [];
    governor_skill_md = [];
  };
}

abbrev no_headers : HeaderMap
no_headers name = none

unauthenticated_example :
    (resp : Response) × (serve call settings
        (hub with_clock [])
        no_headers
        (post_announce (some carol))
      ≡ (some resp, hub with_clock [], []))
    × (resp.status ≡ 401)
unfolding bearer_token
unauthenticated_example =
    unauthenticated_refused call settings (hub with_clock []) no_headers
      (post_announce (some carol)) refl refl

abbrev variables : Variables
variables = record {
  insecure_http = none;
  liveness_window_secs = some (codes "9999");
  token_store = none;
}

abbrev arguments : List Text
arguments = codes "--port" ∷ codes "9000" ∷ codes "--insecure-http" ∷ []

from_env_and_args_example :
    (from_env_and_args variables arguments ≡ none)
    ⊎ ((c : Config) × (from_env_and_args variables arguments ≡ some c)
        × (c.port < 65536)
        × (5 ≤ c.liveness_window_secs)
        × (c.liveness_window_secs ≤ 600))
from_env_and_args_example = from_env_and_args_lem variables arguments

-- What these arguments come to.
configured :
    from_env_and_args variables arguments
    ≡ some (record {
      port = 9000;
      insecure_http = true;
      liveness_window_secs = 600;
      token_store_path = codes "sim-tokens.db";
    })
unfolding from_env_and_args parse_args flag_of parse_port parse text_eq
configured = refl
