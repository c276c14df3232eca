-- ===== src/Identity/Service/Signin.antt =====
-- Register, Login, Logout and LogoutAll of service.go, and the reads of sessions.
use stream_weave.Prelude.{
  ℕ, ◌+◌, String, Bool, true, not, ◌&&◌, Option, none, some, List, str_eq, if◌then◌else◌, is_some,
}
use stream_weave.Text.{trim_space}
use stream_weave.Identity.Model.{
  Instant, User, active, pending_verification, eqb_user_status, Session, live, is_usable,
  RolePermission, conflict, invalid_credentials, outside, RegisterInput, LoginInput, Credentials,
  SessionPageQuery, SessionPage,
}
use stream_weave.Identity.Monad.{
  Act, pure, guard, consult, ask, attempt, now, new_identity_id, with_transaction, ◌>>=◌, ◌>>◌,
}
use stream_weave.Identity.Store.{
  find_user_by_email, find_user, user_roles, find_session_by_id, list_sessions, list_sessions_page,
  create_user, create_session, revoke_session, revoke_user_sessions, assign_role,
  create_verification_token,
}
use stream_weave.Identity.Service.{
  access_token_ttl, refresh_token_ttl, verify_token_ttl, user_ref, role_names, scope_names,
  record_audit, allow_dimensions, validate_credentials, normalized_email, or_denied,
}

-- The mail is sent after the commit; a port that is absent sends nothing.
unfoldable pub send_mail : String → String → String → Act (Unit {0})
send_mail kind address token = do
  sent ← consult (λ env n. send env.mailer n)
  guard (not sent) outside
  where
    send : Option (ℕ → String → String → String → Bool) → ℕ → Bool
    send none n = true
    send (some f) n = f n kind address token

abbrev pub audit_of : String → String → String → String → String → Instant → Act (Unit {0})
audit_of action outcome actor target correlation at = record_audit (record {
  action = action;
  outcome = outcome;
  actor_id = actor;
  actor_type = if str_eq actor "" then "" else "user";
  target_id = target;
  correlation_id = correlation;
  role = "";
  at = at;
})

unfoldable pub register_body : RegisterInput → User → String → String → Instant → Act User
unfolding user_ref
register_body input user verification hash at = do
  created ← create_user user
  assign_role created.id "customer" at none
  create_verification_token verification created.id hash (at + verify_token_ttl) at
  audit_of "register.succeeded" "success" "" (user_ref created.id) input.correlation_id at
  pure created

unfoldable pub register : RegisterInput → Act User
unfolding register_body trim_space
register input = do
  validate_credentials conflict input.email input.password
  normalized ← normalized_email input.email
  allow_dimensions "register" normalized input.source_key
  hash ← ask (λ env n. env.hash_password n input.password)
  verification ← ask (λ env n. env.new_opaque n)
  at ← now
  user_id ← new_identity_id
  verification_id ← new_identity_id
  user ← with_transaction (
      register_body input
        (record {
          id = user_id;
          email = trim_space input.email;
          email_normalized = normalized;
          password_hash = hash;
          status = pending_verification;
          email_verified_at = none;
          created_at = at;
          updated_at = at;
        })
        verification_id verification.1 at)
  send_mail "email-verification" user.email verification.0
  pure user

pub record SignedIn : Type 0 where
  pub credentials : Credentials
  pub user : User
  pub roles : List RolePermission

abbrev pub issued : String → String → Credentials
issued access refresh = record {
  access_token = access;
  refresh_token = refresh;
  access_token_expires_in = 600;
  refresh_expires_in = 2_592_000;
}

-- Tokens.Sign for a human
abbrev pub sign_human : User → String → List RolePermission → Act String
sign_human user session roles = ask (λ env n. env.sign n (record {
  subject = user_ref user.id;
  audience = env.human_audience;
  kind = "human";
  session_id = session;
  roles = role_names roles;
  scopes = scope_names roles;
  ttl = access_token_ttl;
}))

abbrev pub new_session : String → String → String → Option String → Instant → Session
new_session id family user from at = record {
  id = id;
  family_id = family;
  user_id = user;
  status = live;
  rotated_from_session_id = from;
  expires_at = at + refresh_token_ttl;
  revoked_at = none;
  created_at = at;
  last_used_at = some at;
}

-- createSession
unfoldable pub start_session : User → List RolePermission → String → String → Act Credentials
unfolding user_ref role_names scope_names
start_session user roles correlation action = do
  at ← now
  session_id ← new_identity_id
  family_id ← new_identity_id
  refresh ← ask (λ env n. env.new_opaque n)
  access ← sign_human user session_id roles
  with_transaction (
      create_session (new_session session_id family_id user.id none at) refresh.1 none none
      >> audit_of action "success" (user_ref user.id) (user_ref session_id) correlation at)
  pure (issued access refresh.0)

-- The test of Login on the user and the password
unfoldable pub may_log_in : (String → String → Bool) → String → User → Bool
may_log_in verify password user =
    eqb_user_status user.status active
    && is_some user.email_verified_at
    && verify password user.password_hash

-- Login from the test of the password on
unfoldable pub admit : LoginInput → User → Act SignedIn
unfolding may_log_in
admit input user = do
  admitted ← consult (λ env n. may_log_in env.verify_password input.password user)
  guard (not admitted) invalid_credentials
  roles ← user_roles user.id
  credentials ← start_session user roles input.correlation_id "login.succeeded"
  pure (record { credentials = credentials; user = user; roles = roles })

unfoldable pub login : LoginInput → Act SignedIn
unfolding admit
login input = do
  validate_credentials invalid_credentials input.email input.password
  normalized ← normalized_email input.email
  allow_dimensions "login" normalized input.source_key
  found ← attempt (find_user_by_email normalized)
  user ← or_denied found
  admit input user

unfoldable pub logout : String → String → String → Act (Unit {0})
unfolding user_ref
logout user session correlation = do
  at ← now
  with_transaction (
      revoke_session session at "logout"
      >> audit_of "logout.succeeded" "success" (user_ref user) (user_ref session) correlation at)

unfoldable pub logout_all : String → String → Act (Unit {0})
unfolding user_ref
logout_all user correlation = do
  at ← now
  with_transaction (
      revoke_user_sessions user at "logout_all"
      >> audit_of "logout_all.succeeded" "success" (user_ref user) (user_ref user) correlation at)

unfoldable pub sessions : String → Act (List Session)
sessions user = list_sessions user

unfoldable pub sessions_page : String → SessionPageQuery → Act SessionPage
sessions_page user query = list_sessions_page user query

-- IsSessionActive
unfoldable pub is_session_active : String → Act Bool
unfolding is_usable
is_session_active id = do session ← find_session_by_id id; at ← now; pure (is_usable session at)

-- Service.User
unfoldable pub user_and_roles : String → Act (User × List RolePermission)
user_and_roles id = do user ← find_user id; roles ← user_roles id; pure (user, roles)
