-- ===== src/Identity/History/Requests.antt =====
-- Every request lets the rows change only as they may, and so does every run of requests.
use stream_weave.Prelude.{String, Option, none, some, List, Result, ok, err}
use stream_weave.Identity.Model.{
  Instant, User, UserStatus, Session, OneTimeToken, Error, RegisterInput, LoginInput, RefreshInput,
  RolePermission, ServicePrincipal,
}
use stream_weave.Identity.Tables.{Tables}
use stream_weave.Identity.Monad.{Env, World, Act}
use stream_weave.Identity.Store.{
  find_user_by_email, find_user, user_roles, find_role, find_session_by_refresh_hash,
  find_service_principal, active_service_credentials, find_reset_token, find_verification_token,
  create_user, create_session, lock_active_session, rotate_session, revoke_session_family,
  revoke_session, revoke_user_sessions, update_user_status, update_password, assign_role,
  remove_role, has_active_role, count_active_administrators, create_reset_token,
  consume_reset_token, create_verification_token, consume_verification_token, mark_email_verified,
  mark_service_principal_used,
}
use stream_weave.Identity.Service.Signin.{
  SignedIn, send_mail, register_body, register, start_session, admit, login, logout, logout_all,
}
use stream_weave.Identity.Service.Refresh.{
  revoke_reused, lock_result, replace_session, rotate_body, rotate, revoked_or_failed,
  refuse_reused, refresh_with, refresh_attempt, or_reuse, refresh,
}
use stream_weave.Identity.Service.Admin.{
  keep_administrator, status_body, change_user_status, grant_body, grant_role, withdraw_body,
  withdraw_role,
}
use stream_weave.Identity.Service.Recovery.{
  send_reset, reset_found, request_password_reset, usable_token, reset_body, confirm_with,
  confirm_password_reset, verify_body, confirm_email,
}
use stream_weave.Identity.Service.Machine.{
  issue_machine_token, authorize_at, authorize_machine, service_token,
}
use stream_weave.Identity.Requests.{
  Request, serve, Reaches, here, served, to_register, to_log_in, to_refresh, to_log_out,
  to_log_out_all, to_change_status, to_grant, to_withdraw, to_request_reset, to_confirm_reset,
  to_confirm_email, to_get_token,
}
use stream_weave.Identity.Ends.{IsStable}
use stream_weave.Identity.Ends.Keeps.{Keeps-at, keeps_rules}
use stream_weave.Identity.History.{Later, Later-same, IsConsiderate, considerate-IsStable}
use stream_weave.Identity.History.Calls.{history_rules}
use stream_weave.Identity.History.Always.{Safe, helper_rules}

module _ (env : Env) (c : Tables) (stable : IsStable env (Later c)) where
  abbrev S : {A : Type 0} → Act A → Type 0
  S m = Safe env c m

  pub send_mail-Safe : (kind address token : String) → S (send_mail kind address token)
  unfolding send_mail
  send_mail-Safe kind address token = search keeps_rules depth 12

  register-Safe : (i : RegisterInput) → S (register i)
  unfolding register register_body create_user assign_role create_verification_token
  register-Safe i = search (keeps_rules, history_rules, helper_rules, send_mail-Safe) depth 60

  start_session-Safe :
      (user : User) (roles : List RolePermission) (correlation action : String)
      → S (start_session user roles correlation action)
  unfolding start_session create_session
  start_session-Safe user roles correlation action =
      search (keeps_rules, history_rules, helper_rules) depth 40

  login-Safe : (i : LoginInput) → S (login i)
  unfolding login admit find_user_by_email user_roles
  login-Safe i = search (keeps_rules, helper_rules, start_session-Safe) depth 40

  pub revoke_reused-Safe :
      (user : User) (session : Session) (correlation : String) (at : Instant)
      → S (revoke_reused user session correlation at)
  unfolding revoke_reused revoke_session_family
  revoke_reused-Safe user session correlation at =
      search (keeps_rules, history_rules, helper_rules) depth 20

  pub replace_session-Safe :
      (user : User) (session replacement : Session) (hash correlation : String) (at : Instant)
      → S (replace_session user session replacement hash correlation at)
  unfolding replace_session create_session rotate_session
  replace_session-Safe user session replacement hash correlation at =
      search (keeps_rules, history_rules, helper_rules, revoke_reused-Safe) depth 40

  pub lock_result-Safe : (r : Result Error (Unit {0})) → S (lock_result r)
  unfolding lock_result
  lock_result-Safe (ok x) = search keeps_rules depth 8
  lock_result-Safe (err e) = search keeps_rules depth 8

  pub rotate_body-Safe :
      (user : User) (session replacement : Session) (hash correlation : String) (at : Instant)
      → S (rotate_body user session replacement hash correlation at)
  unfolding rotate_body lock_active_session
  rotate_body-Safe user session replacement hash correlation at =
      search
        (
          keeps_rules, history_rules, helper_rules, lock_result-Safe, revoke_reused-Safe,
          replace_session-Safe,
        )
        depth 40

  rotate-Safe :
      (i : RefreshInput) (user : User) (s : Session) (at : Instant) → S (rotate i user s at)
  unfolding rotate user_roles
  rotate-Safe i user s at = search (keeps_rules, helper_rules, rotate_body-Safe) depth 40

  revoked_or_failed-Safe : (r : Result Error (Unit {0})) → S (revoked_or_failed r)
  unfolding revoked_or_failed
  revoked_or_failed-Safe (ok x) = search keeps_rules depth 8
  revoked_or_failed-Safe (err e) = search keeps_rules depth 8

  pub refuse_reused-Safe :
      (i : RefreshInput) (user : User) (s : Session) (at : Instant) → S (refuse_reused i user s at)
  unfolding refuse_reused
  refuse_reused-Safe i user s at =
      search (keeps_rules, revoke_reused-Safe, revoked_or_failed-Safe) depth 12

  refresh_attempt-Safe : (i : RefreshInput) → S (refresh_attempt i)
  unfolding refresh_attempt refresh_with find_session_by_refresh_hash find_user
  refresh_attempt-Safe i =
      search (keeps_rules, helper_rules, rotate-Safe, refuse_reused-Safe) depth 60

  or_reuse-Safe : (o : Option SignedIn) → S (or_reuse o)
  or_reuse-Safe none = search keeps_rules depth 8
  or_reuse-Safe (some s) = search keeps_rules depth 8

  pub refresh-Safe : (i : RefreshInput) → S (refresh i)
  unfolding refresh
  refresh-Safe i = search (keeps_rules, refresh_attempt-Safe, or_reuse-Safe) depth 10

  logout-Safe : (user session correlation : String) → S (logout user session correlation)
  unfolding logout revoke_session
  logout-Safe user session correlation = search (keeps_rules, history_rules, helper_rules) depth 30

  logout_all-Safe : (user correlation : String) → S (logout_all user correlation)
  unfolding logout_all revoke_user_sessions
  logout_all-Safe user correlation = search (keeps_rules, history_rules, helper_rules) depth 30

  keep_administrator-Safe : (target : String) → S (keep_administrator target)
  unfolding keep_administrator has_active_role count_active_administrators
  keep_administrator-Safe target = search (keeps_rules, history_rules) depth 20

  change_user_status-Safe :
      (target : String) (status : UserStatus) (actor correlation : String)
      → S (change_user_status target status actor correlation)
  unfolding change_user_status status_body update_user_status revoke_user_sessions
  change_user_status-Safe target status actor correlation =
      search (keeps_rules, history_rules, helper_rules, keep_administrator-Safe) depth 50

  grant_role-Safe :
      (target actor role correlation : String) → S (grant_role target actor role correlation)
  unfolding grant_role grant_body find_role assign_role
  grant_role-Safe target actor role correlation =
      search (keeps_rules, history_rules, helper_rules) depth 40

  withdraw_role-Safe :
      (target actor role correlation : String) → S (withdraw_role target actor role correlation)
  unfolding withdraw_role withdraw_body remove_role
  withdraw_role-Safe target actor role correlation =
      search (keeps_rules, history_rules, helper_rules, keep_administrator-Safe) depth 40

  send_reset-Safe : (correlation : String) (user : User) → S (send_reset correlation user)
  unfolding send_reset create_reset_token
  send_reset-Safe correlation user =
      search (keeps_rules, history_rules, helper_rules, send_mail-Safe) depth 40

  reset_found-Safe : (correlation : String) (r : Result Error User) → S (reset_found correlation r)
  unfolding reset_found
  reset_found-Safe correlation (ok user) = send_reset-Safe correlation user
  reset_found-Safe correlation (err e) = search keeps_rules depth 8

  request_password_reset-Safe :
      (email source correlation : String) → S (request_password_reset email source correlation)
  unfolding request_password_reset find_user_by_email
  request_password_reset-Safe email source correlation =
      search (keeps_rules, helper_rules, reset_found-Safe) depth 30

  usable_token-Safe : (r : Result Error OneTimeToken) → S (usable_token r)
  unfolding usable_token
  usable_token-Safe (ok k) = search keeps_rules depth 12
  usable_token-Safe (err e) = search keeps_rules depth 8

  confirm_password_reset-Safe :
      (token password correlation : String) → S (confirm_password_reset token password correlation)
  unfolding confirm_password_reset confirm_with find_reset_token reset_body update_password
      revoke_user_sessions consume_reset_token
  confirm_password_reset-Safe token password correlation =
      search (keeps_rules, history_rules, helper_rules, usable_token-Safe) depth 50

  confirm_email-Safe : (token correlation : String) → S (confirm_email token correlation)
  unfolding confirm_email find_verification_token verify_body consume_verification_token
      mark_email_verified
  confirm_email-Safe token correlation =
      search (keeps_rules, history_rules, helper_rules, usable_token-Safe) depth 50

  issue_machine_token-Safe :
      (p : ServicePrincipal) (scopes : List String) (correlation : String)
      → S (issue_machine_token p scopes correlation)
  unfolding issue_machine_token mark_service_principal_used
  issue_machine_token-Safe p scopes correlation =
      search (keeps_rules, history_rules, helper_rules) depth 40

  service_token-Safe :
      (client secret : String) (scopes : List String) (source correlation : String)
      → S (service_token client secret scopes source correlation)
  unfolding service_token authorize_machine authorize_at find_service_principal
      active_service_credentials
  service_token-Safe client secret scopes source correlation =
      search (keeps_rules, helper_rules, issue_machine_token-Safe) depth 60

  serve-Safe : (r : Request) → S (serve r)
  unfolding serve
  serve-Safe (to_register i) = search (keeps_rules, register-Safe) depth 8
  serve-Safe (to_log_in i) = search (keeps_rules, login-Safe) depth 8
  serve-Safe (to_refresh i) = search (keeps_rules, refresh-Safe) depth 8
  serve-Safe (to_log_out user session correlation) = logout-Safe user session correlation
  serve-Safe (to_log_out_all user correlation) = logout_all-Safe user correlation
  serve-Safe (to_change_status target status actor correlation) =
      change_user_status-Safe target status actor correlation
  serve-Safe (to_grant target actor role correlation) =
      grant_role-Safe target actor role correlation
  serve-Safe (to_withdraw target actor role correlation) =
      withdraw_role-Safe target actor role correlation
  serve-Safe (to_request_reset email source correlation) =
      request_password_reset-Safe email source correlation
  serve-Safe (to_confirm_reset token password correlation) =
      confirm_password_reset-Safe token password correlation
  serve-Safe (to_confirm_email token correlation) = confirm_email-Safe token correlation
  serve-Safe (to_get_token client secret scopes source correlation) =
      search (keeps_rules, service_token-Safe) depth 8

-- While other requests change the rows only as they may, so does any run of requests, answered or
-- refused: no session and no token is deleted, no session becomes ACTIVE again, and no consumed token
-- can be used again.
pub requests_kept :
    (env : Env) (w v : World) → IsConsiderate env → Reaches env w v → Later w.tables v.tables
requests_kept env w _ others here = Later-same w.tables
requests_kept env w _ others (served {v} r run) =
    let stable = considerate-IsStable env others w.tables in
    Keeps-at env (Later w.tables) (serve r) (serve-Safe env w.tables stable r) v
      (requests_kept env w v others run)
