-- ===== src/Identity/Service/Recovery.antt =====
-- The password reset and the verification of an e-mail address (service.go).
use stream_weave.Prelude.{◌+◌, String, not, ◌==◌, if◌then◌else◌, Result, ok, err}
use stream_weave.Identity.Model.{
  Instant, User, OneTimeToken, is_token_usable, Error, conflict, invalid_credentials, already_used,
  is_not_found,
}
use stream_weave.Identity.Monad.{
  Act, pure, fail, skip, guard, ask, attempt, consult, now, new_identity_id, with_transaction,
  ◌>>=◌, ◌>>◌,
}
use stream_weave.Identity.Store.{
  find_user_by_email, find_reset_token, find_verification_token, revoke_user_sessions,
  update_password, create_reset_token, consume_reset_token, consume_verification_token,
  mark_email_verified,
}
use stream_weave.Identity.Service.{
  reset_token_ttl, user_ref, password_ok, validate_email, allow_dimensions, normalized_email,
}
use stream_weave.Identity.Service.Signin.{send_mail, audit_of}

unfoldable pub send_reset : String → User → Act (Unit {0})
unfolding user_ref
send_reset correlation user = do
  token ← ask (λ env n. env.new_opaque n)
  at ← now
  token_id ← new_identity_id
  with_transaction (
      create_reset_token token_id user.id token.1 (at + reset_token_ttl) at
      >> audit_of "password_reset.requested" "success" "" (user_ref user.id) correlation at)
  send_mail "password-reset" user.email token.0

-- A user that is not found is not told.
unfoldable pub reset_found : String → Result Error User → Act (Unit {0})
unfolding send_reset
reset_found correlation (ok user) = send_reset correlation user
reset_found correlation (err e) = if is_not_found e then skip else fail e

-- requestPasswordReset; RequestPasswordReset calls it with the source "".
unfoldable pub request_password_reset : String → String → String → Act (Unit {0})
unfolding reset_found
request_password_reset email source correlation = do
  validate_email email
  normalized ← normalized_email email
  allow_dimensions "reset" normalized source
  found ← attempt (find_user_by_email normalized)
  reset_found correlation found

-- `err != nil || !token.IsUsable(s.clock.Now())`; the clock is read only where the token is found.
unfoldable pub usable_token : Result Error OneTimeToken → Act OneTimeToken
unfolding is_token_usable
usable_token (err e) = fail invalid_credentials
usable_token (ok token) = do
  at ← now
  guard (not (is_token_usable token at)) invalid_credentials
  pure token

unfoldable pub reset_body : OneTimeToken → String → String → Instant → Act (Unit {0})
unfolding user_ref
reset_body reset hash correlation at = do
  update_password reset.user_id hash at
  revoke_user_sessions reset.user_id at "password_reset"
  n ← consume_reset_token reset.id at
  guard (not (n == 1)) already_used
  audit_of "password_reset.completed" "success" "" (user_ref reset.user_id) correlation at

-- ConfirmPasswordReset from the lookup of the token on
unfoldable pub confirm_with : String → String → String → Act (Unit {0})
unfolding usable_token reset_body
confirm_with token_hash password correlation = do
  found ← attempt (find_reset_token token_hash)
  reset ← usable_token found
  hash ← ask (λ env n. env.hash_password n password)
  at ← now
  with_transaction (reset_body reset hash correlation at)

unfoldable pub confirm_password_reset : String → String → String → Act (Unit {0})
unfolding password_ok confirm_with
confirm_password_reset token password correlation = do
  guard (not (password_ok password)) conflict
  token_hash ← consult (λ env n. env.hash_opaque token)
  confirm_with token_hash password correlation

unfoldable pub verify_body : OneTimeToken → String → Instant → Act (Unit {0})
unfolding user_ref
verify_body verification correlation at = do
  n ← consume_verification_token verification.id at
  guard (not (n == 1)) already_used
  updated ← mark_email_verified verification.user_id at
  guard (updated == 0) invalid_credentials
  audit_of "email_verification.completed" "success" "" (user_ref verification.user_id) correlation
      at

unfoldable pub confirm_email : String → String → Act (Unit {0})
unfolding usable_token verify_body
confirm_email token correlation = do
  token_hash ← consult (λ env n. env.hash_opaque token)
  found ← attempt (find_verification_token token_hash)
  verification ← usable_token found
  at ← now
  with_transaction (verify_body verification correlation at)
