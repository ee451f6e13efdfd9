-- ===== src/Http/Respond.antt =====
-- http.rs: JSON values, responses, the bearer token of a request, and the response to an error. The
-- parts of a request are given as the framework hands them over: decoded bodies, and headers with a
-- visible text.
use simple_im.Base.{
  ℕ, Bool, true, ◌&&◌, ◌||◌, Option, none, some, List, [], ◌∷◌, ◌++◌, if◌then◌else◌, ◌>>=◌, eqb,
  leb,
}
use simple_im.Base.Text.{Text, codes}
use simple_im.Base.Text.Decimal.{strip_prefix}
use simple_im.Error.{
  Error, auth_failed, token_expired, forbidden, name_in_use, no_grant, grant_expired,
  grant_exhausted, recipient_offline, recipient_unknown, bad_request, brief_required,
  mediation_unavailable, blocked, token_rejected, token_revoked, request_pending, announce_required,
  grant_blocked, attachment_not_found, internal, active_subscription, error_code, message,
}

-- `serde_json::Value`
mutual
  pub data Json : Type 0 where
    null : Json
    boolean : Bool → Json
    number : ℕ → Json
    string : Text → Json
    array : Items → Json
    object : Fields → Json

  pub data Items : Type 0 where
    done : Items
    item : Json → Items → Items

  pub data Fields : Type 0 where
    end : Fields
    field : Text → Json → Fields → Fields

abbrev pub or_null : Option Text → Json
or_null none = null
or_null (some t) = string t

-- A field that is written only when there is a value.
abbrev pub field_if : Text → Option Text → Fields → Fields
field_if key none rest = rest
field_if key (some t) rest = field key (string t) rest

abbrev pub items_of {ℓ} : {A : Type ℓ} → (A → Json) → List A → Items
items_of f [] = done
items_of f (a ∷ more) = item (f a) (items_of f more)

pub data Body : Type 0 where
  empty : Body
  json : Json → Body
  plain : Text → Body
  stream : ℕ → Body
  document : Text → Text → Body
  file : List ℕ → Option Text → Option Text → Body

pub record Response : Type 0 where
  pub status : ℕ
  pub body : Body

abbrev pub respond : ℕ → Fields → Response
respond status fields = record { status = status; body = json (object fields) }

abbrev pub no_content : Response
no_content = record { status = 204; body = empty }

-- A header that is there, and its value if it is a visible text (`to_str().ok()`).
abbrev pub HeaderMap : Type 0
HeaderMap = Text → Option (Option Text)

abbrev pub text_of : Option (Option Text) → Option Text
text_of v = v >>= λ t. t

unfoldable pub bearer_token : HeaderMap → Option Text
bearer_token headers = text_of (headers (codes "Authorization")) >>= strip_prefix (codes "Bearer ")

unfoldable error_status : Error → ℕ
error_status auth_failed = 401
error_status token_expired = 401
error_status token_rejected = 401
error_status token_revoked = 401
error_status forbidden = 403
error_status no_grant = 403
error_status grant_expired = 403
error_status grant_exhausted = 403
error_status brief_required = 403
error_status blocked = 403
error_status (grant_blocked reason) = 403
error_status announce_required = 403
error_status name_in_use = 409
error_status recipient_offline = 409
error_status mediation_unavailable = 409
error_status request_pending = 409
error_status active_subscription = 409
error_status recipient_unknown = 404
error_status attachment_not_found = 404
error_status bad_request = 400
error_status internal = 500

abbrev hint_of : Error → Option Text
hint_of brief_required = some (
    codes "No authorization covers this message. "
    ++ codes "Resend with a 'reason' field to request authorization from the governor.")
hint_of e = none

abbrev reason_of : Error → Option Text
reason_of (grant_blocked reason) = some reason
reason_of e = none

abbrev pub refusal : ℕ → Text → Text → Response
refusal status code text =
    respond status (field (codes "error") (string code) (field (codes "message") (string text) end))

unfoldable pub err_response : Error → Response
unfolding error_status error_code message
err_response e = respond (error_status e) (
    field (codes "error") (string (error_code e)) (
      field (codes "message") (string (message e))
        (field_if (codes "hint") (hint_of e) (field_if (codes "reason") (reason_of e) end))))

unfoldable pub auth_failed_response : Response
auth_failed_response = refusal 401 (codes "AUTH_FAILED") (codes "authentication required")

unfoldable pub listen_auth_required : Response
listen_auth_required = respond 401 (
    field (codes "error") (string (codes "AUTH_FAILED")) (
      field (codes "message") (string (codes "a participant token is required to open /listen")) (
        field (codes "hint")
          (string (
            codes "obtain one via POST /register (open, no auth, while no governor exists yet) "
            ++ codes
                "or have the governor issue you one via POST /register with a governor bearer"))
          end)))

-- `char::is_whitespace`: the characters with the Unicode property White_Space.
abbrev pub is_space : ℕ → Bool
is_space c =
    (leb 9 c && leb c 13)
    || eqb c 32
    || eqb c 133
    || eqb c 160
    || eqb c 5760
    || (leb 8192 c && leb c 8202)
    || eqb c 8232
    || eqb c 8233
    || eqb c 8239
    || eqb c 8287
    || eqb c 12288

unfoldable pub trim_start : Text → Text
trim_start [] = []
trim_start (c ∷ s) = let rest = trim_start s in if is_space c then rest else c ∷ s

abbrev pub is_blank : Text → Bool
is_blank [] = true
is_blank (c ∷ s) = is_space c && is_blank s

unfoldable pub trim_end : Text → Text
trim_end [] = []
trim_end (c ∷ s) = let rest = trim_end s in if is_blank (c ∷ s) then [] else c ∷ rest

-- `str::trim`
unfoldable pub trim : Text → Text
unfolding trim_start trim_end
trim s = trim_end (trim_start s)

-- `split(sep).next()`
unfoldable pub first_part : ℕ → Text → Text
first_part sep [] = []
first_part sep (c ∷ s) = let rest = first_part sep s in if eqb c sep then [] else c ∷ rest
