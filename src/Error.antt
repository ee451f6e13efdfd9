-- ===== src/Error.antt =====
-- error.rs: the errors of the hub, with the code and the message that a client reads.
pub mod Codes
use simple_im.Base.{List, ◌≡◌, refl, ◌⊎◌, inl, inr, Bool, true, false, Option, none, some}
use simple_im.Base.Text.{Text, codes}

pub data Error : Type 0 where
  auth_failed token_expired forbidden name_in_use no_grant grant_expired grant_exhausted : Error
  recipient_offline recipient_unknown bad_request brief_required mediation_unavailable : Error
  blocked token_rejected token_revoked request_pending announce_required : Error
  grant_blocked : Text → Error
  attachment_not_found internal active_subscription : Error

-- `Result<T, Error>`
pub data Result {ℓ} (A : Type ℓ) : Type ℓ where
  ok : A → Result A
  err : Error → Result A

-- `()`
abbrev pub Done : Type 0
Done = Unit {0}

abbrev pub is_ok {ℓ} : {A : Type ℓ} → Result A → Bool
is_ok (ok a) = true
is_ok (err e) = false

pub Result-cases {ℓ} :
    {A : Type ℓ} (r : Result A) → ((a : A) × (r ≡ ok a)) ⊎ ((e : Error) × (r ≡ err e))
Result-cases (ok a) = inl (a, refl)
Result-cases (err e) = inr (e, refl)

infixl 5 ◌>>=◌ ◌>>◌
abbrev pub ◌>>=◌ {ℓ κ} : {A : Type ℓ} {B : Type κ} → Result A → (A → Result B) → Result B
ok a >>= f = f a
err e >>= f = err e

abbrev ◌>>◌ {ℓ κ} : {A : Type ℓ} {B : Type κ} → Result A → Result B → Result B
m >> k = m >>= λ _. k

-- `ok_or`
abbrev pub ok_or {ℓ} : {A : Type ℓ} → Option A → Error → Result A
ok_or none e = err e
ok_or (some a) e = ok a

unfoldable pub error_code : Error → Text
error_code auth_failed = codes "AUTH_FAILED"
error_code token_expired = codes "TOKEN_EXPIRED"
error_code forbidden = codes "FORBIDDEN"
error_code name_in_use = codes "NAME_IN_USE"
error_code no_grant = codes "NO_GRANT"
error_code grant_expired = codes "GRANT_EXPIRED"
error_code grant_exhausted = codes "GRANT_EXHAUSTED"
error_code recipient_offline = codes "RECIPIENT_OFFLINE"
error_code recipient_unknown = codes "RECIPIENT_UNKNOWN"
error_code bad_request = codes "BAD_REQUEST"
error_code brief_required = codes "BRIEF_REQUIRED"
error_code mediation_unavailable = codes "MEDIATION_UNAVAILABLE"
error_code blocked = codes "BLOCKED"
error_code token_rejected = codes "TOKEN_REJECTED"
error_code token_revoked = codes "TOKEN_REVOKED"
error_code request_pending = codes "REQUEST_PENDING"
error_code announce_required = codes "ANNOUNCE_REQUIRED"
error_code (grant_blocked reason) = codes "GRANT_BLOCKED"
error_code attachment_not_found = codes "ATTACHMENT_NOT_FOUND"
error_code internal = codes "INTERNAL"
error_code active_subscription = codes "ACTIVE_SUBSCRIPTION"

unfoldable pub message : Error → Text
message auth_failed = codes "authentication failed"
message token_expired = codes "token has expired"
message forbidden = codes "access forbidden"
message name_in_use = codes "name is currently in use"
message no_grant = codes "no grant exists for this sender-recipient pair"
message grant_expired = codes "grant has expired"
message grant_exhausted = codes "grant message limit reached"
message recipient_offline = codes "recipient is offline"
message recipient_unknown = codes "recipient not found"
message bad_request = codes "bad request"
message brief_required = codes "authorization required for this message"
message mediation_unavailable = codes "mediation is unavailable"
message blocked = codes "access blocked"
message token_rejected = codes "token not recognized"
message token_revoked = codes "token has been revoked"
message request_pending = codes "a grant request is already pending for this target"
message announce_required = codes "announce your name before sending"
message (grant_blocked reason) = codes "sender-recipient pair is blocked"
message attachment_not_found = codes "attachment not found or expired"
message internal = codes "internal server error"
message active_subscription = codes "token already has an active subscription"
