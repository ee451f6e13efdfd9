-- ===== src/Http/Handlers.antt =====
-- http.rs: the handlers, as functions on the hub. What a call of the hub needs beside the request,
-- clocks, random numbers, channels and the answers of the store, is the record `Call`.
pub mod People
pub mod Mail
pub mod Governing
pub mod Grants
pub mod RoomRoutes
pub mod Attachments
pub mod Discovery
use simple_im.Base.{ℕ, Bool, Option, none, some, List, []}
use simple_im.Base.Text.{Text}
use simple_im.Error.{Result, ok, err}
use simple_im.Hub.State.{HubInner, Effect}
use simple_im.Hub.Peers.{Env}
use simple_im.Hub.Sending.{Readings}
use simple_im.Hub.Attachments.{StoreAnswers}
use simple_im.Http.Respond.{Response, HeaderMap, bearer_token, err_response, auth_failed_response}

pub record Call : Type 0 where
  pub env : Env
  pub readings : Readings
  pub later : ℕ
  pub system_now : ℕ
  pub draws : List ℕ
  pub bytes : List ℕ
  pub tx : ℕ
  pub arrivals : List ℕ
  pub store : Option StoreAnswers
  pub is_header_value : Text → Bool

-- The response, the hub that is left, and what is done outside.
abbrev pub Served : Type 0
Served = Response × HubInner × List Effect

-- `match bearer_token(&headers) { Some(t) => t, None => return auth_failed() }`
abbrev pub with_bearer : HubInner → HeaderMap → (Text → Served) → Served
with_bearer h headers f = elim (bearer_token headers) [
  | none ↦ (auth_failed_response, h, [])
  | some token ↦ f token
]

-- `Err(e) => err_response(e)`
abbrev pub respond_with {ℓ} :
    {A : Type ℓ} → (A → Response) → Result A × HubInner × List Effect → Served
respond_with f (ok a, h, effects) = (f a, h, effects)
respond_with f (err e, h, effects) = (err_response e, h, effects)

-- For a call that has no effects, and for one that only reads.
abbrev pub quietly {ℓ} : {A : Type ℓ} → (A → Response) → Result A × HubInner → Served
quietly f (r, h) = respond_with f (r, h, [])

abbrev pub reading {ℓ} : {A : Type ℓ} → HubInner → (A → Response) → Result A → Served
reading h f r = respond_with f (r, h, [])
