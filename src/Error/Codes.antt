-- ===== src/Error/Codes.antt =====
-- The code of an error (error.rs) determines the error, but for the reason of a blocked grant.
use simple_im.Base.{◌≡◌, ◌↔◌, refl, sym, ap, ◌∙◌, Option, some, List, [], ◌∷◌, find}
use simple_im.Base.Text.{Text, text_eq}
use simple_im.Error.{
  Error, auth_failed, token_expired, forbidden, name_in_use, no_grant, grant_expired,
  grant_exhausted, recipient_offline, recipient_unknown, bad_request, brief_required,
  mediation_unavailable, blocked, token_rejected, token_revoked, request_pending, announce_required,
  grant_blocked, attachment_not_found, internal, active_subscription, error_code, message,
}

-- The errors apart from the reason that one of them carries.
abbrev erase_reason : Error → Error
erase_reason (grant_blocked reason) = grant_blocked []
erase_reason e = e

abbrev errors : List Error
errors =
    auth_failed
    ∷ token_expired
    ∷ forbidden
    ∷ name_in_use
    ∷ no_grant
    ∷ grant_expired
    ∷ grant_exhausted
    ∷ recipient_offline
    ∷ recipient_unknown
    ∷ bad_request
    ∷ brief_required
    ∷ mediation_unavailable
    ∷ blocked
    ∷ token_rejected
    ∷ token_revoked
    ∷ request_pending
    ∷ announce_required
    ∷ grant_blocked []
    ∷ attachment_not_found
    ∷ internal
    ∷ active_subscription
    ∷ []

with_code : Text → Option Error
with_code c = find (λ e. text_eq (error_code e) c) errors

with_message : Text → Option Error
with_message m = find (λ e. text_eq (message e) m) errors

with_code-error_code : (e : Error) → with_code (error_code e) ≡ some (erase_reason e)
unfolding with_code error_code find text_eq
with_code-error_code auth_failed = refl
with_code-error_code token_expired = refl
with_code-error_code forbidden = refl
with_code-error_code name_in_use = refl
with_code-error_code no_grant = refl
with_code-error_code grant_expired = refl
with_code-error_code grant_exhausted = refl
with_code-error_code recipient_offline = refl
with_code-error_code recipient_unknown = refl
with_code-error_code bad_request = refl
with_code-error_code brief_required = refl
with_code-error_code mediation_unavailable = refl
with_code-error_code blocked = refl
with_code-error_code token_rejected = refl
with_code-error_code token_revoked = refl
with_code-error_code request_pending = refl
with_code-error_code announce_required = refl
with_code-error_code (grant_blocked reason) = refl
with_code-error_code attachment_not_found = refl
with_code-error_code internal = refl
with_code-error_code active_subscription = refl

with_message-message : (e : Error) → with_message (message e) ≡ some (erase_reason e)
unfolding with_message message find text_eq
with_message-message auth_failed = refl
with_message-message token_expired = refl
with_message-message forbidden = refl
with_message-message name_in_use = refl
with_message-message no_grant = refl
with_message-message grant_expired = refl
with_message-message grant_exhausted = refl
with_message-message recipient_offline = refl
with_message-message recipient_unknown = refl
with_message-message bad_request = refl
with_message-message brief_required = refl
with_message-message mediation_unavailable = refl
with_message-message blocked = refl
with_message-message token_rejected = refl
with_message-message token_revoked = refl
with_message-message request_pending = refl
with_message-message announce_required = refl
with_message-message (grant_blocked reason) = refl
with_message-message attachment_not_found = refl
with_message-message internal = refl
with_message-message active_subscription = refl

error_code-erase : (e : Error) → error_code (erase_reason e) ≡ error_code e
unfolding error_code
error_code-erase (grant_blocked reason) = refl
error_code-erase _ = refl

message-erase : (e : Error) → message (erase_reason e) ≡ message e
unfolding message
message-erase (grant_blocked reason) = refl
message-erase _ = refl

same_code : (e f : Error) → error_code e ≡ error_code f → erase_reason e ≡ erase_reason f
same_code e f p = cc (with_code-error_code e, with_code-error_code f)

same_message : (e f : Error) → message e ≡ message f → erase_reason e ≡ erase_reason f
same_message e f p = cc (with_message-message e, with_message-message f)

-- Two errors with one code are one error, and so are two errors with one message, up to the
-- reason that a blocked grant carries.
error_code_injective :
    (e f : Error)
    → ((error_code e ≡ error_code f) ↔ (erase_reason e ≡ erase_reason f))
      × ((message e ≡ message f) ↔ (erase_reason e ≡ erase_reason f))
error_code_injective e f = (
  (λ p. same_code e f p, λ p. sym (error_code-erase e) ∙ ap error_code p ∙ error_code-erase f),
  (λ p. same_message e f p, λ p. sym (message-erase e) ∙ ap message p ∙ message-erase f),
)
