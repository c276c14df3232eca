-- ===== src/Identity/Service/Refresh.antt =====
-- Refresh of service.go: the rotation of refresh tokens.
use stream_weave.Prelude.{
  String, Bool, true, false, not, ◌||◌, ◌==◌, Option, none, some, str_eq, if◌then◌else◌, Result, ok,
  err,
}
use stream_weave.Identity.Model.{
  Instant, User, active, eqb_user_status, Session, is_usable, Error, invalid_credentials,
  refresh_reuse, is_not_found, RefreshInput,
}
use stream_weave.Identity.Monad.{
  Act, pure, fail, guard, consult, ask, attempt, now, new_identity_id, with_transaction, ◌>>=◌,
  ◌>>◌,
}
use stream_weave.Identity.Store.{
  find_user, user_roles, find_session_by_refresh_hash, create_session, lock_active_session,
  rotate_session, revoke_session_family,
}
use stream_weave.Identity.Service.{user_ref, role_names, scope_names, allow_dimensions, or_denied}
use stream_weave.Identity.Service.Signin.{SignedIn, audit_of, issued, sign_human, new_session}

-- The answer to a refresh token that was used before: its family is revoked.
unfoldable pub revoke_reused : User → Session → String → Instant → Act (Unit {0})
unfolding user_ref
revoke_reused user session correlation at = do
  revoke_session_family session.family_id at "refresh_reuse"
  audit_of "refresh.reuse_detected" "failure" (user_ref user.id) (user_ref session.id) correlation
      at

-- What LockActiveSession says: whether the session is locked, ErrNotFound being no error.
unfoldable pub lock_result : Result Error (Unit {0}) → Act Bool
lock_result (ok x) = pure true
lock_result (err e) = if is_not_found e then pure false else fail e

-- The new session, in place of one that this transaction has locked; whether it was not there.
unfoldable pub replace_session : User → Session → Session → String → String → Instant → Act Bool
unfolding user_ref revoke_reused
replace_session user session replacement hash correlation at = do
  create_session replacement hash none none
  n ← rotate_session session.id replacement.id at
  if not (n == 1)
      then revoke_reused user session correlation at >> pure true
      else audit_of "refresh.succeeded" "success" (user_ref user.id) (user_ref session.id)
          correlation at
        >> pure false

-- The transaction of Refresh, and `reuseDetected`
unfoldable pub rotate_body : User → Session → Session → String → String → Instant → Act Bool
unfolding lock_result revoke_reused replace_session
rotate_body user session replacement hash correlation at = do
  answer ← attempt (lock_active_session session.id)
  locked ← lock_result answer
  if not locked
      then revoke_reused user session correlation at >> pure true
      else replace_session user session replacement hash correlation at

-- The end of Refresh, for a session that looked usable; `none` is a reuse that was detected.
unfoldable pub rotate : RefreshInput → User → Session → Instant → Act (Option SignedIn)
unfolding rotate_body user_ref role_names scope_names
rotate input user session at = do
  roles ← user_roles user.id
  refresh ← ask (λ env n. env.new_opaque n)
  replacement_id ← new_identity_id
  access ← sign_human user replacement_id roles
  reused ← with_transaction (
      rotate_body user session
        (new_session replacement_id session.family_id user.id (some session.id) at) refresh.1
        input.correlation_id at)
  pure (
      if reused
      then none
      else some (record { credentials = issued access refresh.0; user = user; roles = roles }))

unfoldable pub revoked_or_failed : Result Error (Unit {0}) → Act (Option SignedIn)
revoked_or_failed (ok x) = pure none
revoked_or_failed (err e) = fail Error.dependency

-- The branch of Refresh for a session that cannot be used; an error of it is ErrDependency.
unfoldable pub refuse_reused : RefreshInput → User → Session → Instant → Act (Option SignedIn)
unfolding revoke_reused revoked_or_failed
refuse_reused input user session at = do
  done ← attempt (with_transaction (revoke_reused user session input.correlation_id at))
  revoked_or_failed done

-- Refresh from the lookup of the session on, up to the answer to a reuse
unfoldable pub refresh_with : RefreshInput → String → Act (Option SignedIn)
unfolding or_denied refuse_reused rotate is_usable
refresh_with input hash = do
  found ← attempt (find_session_by_refresh_hash hash)
  session ← or_denied found
  at ← now
  owner ← attempt (find_user session.user_id)
  user ← or_denied owner
  if not (is_usable session at) || not (eqb_user_status user.status active)
      then refuse_reused input user session at
      else rotate input user session at

unfoldable pub refresh_attempt : RefreshInput → Act (Option SignedIn)
unfolding refresh_with
refresh_attempt input = do
  guard (str_eq input.refresh_token "") invalid_credentials
  allow_dimensions "refresh" input.refresh_token input.source_key
  hash ← consult (λ env n. env.hash_opaque input.refresh_token)
  refresh_with input hash

abbrev pub or_reuse : Option SignedIn → Act SignedIn
or_reuse none = fail refresh_reuse
or_reuse (some s) = pure s

unfoldable pub refresh : RefreshInput → Act SignedIn
unfolding refresh_attempt
refresh input = refresh_attempt input >>= or_reuse
