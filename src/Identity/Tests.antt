-- ===== src/Identity/Tests.antt =====
-- The theorems on the identity service over a small world.
use stream_weave.Prelude.{◌≡◌, ◌≢◌, refl, true, String, [], ◌∷◌, ok}
use stream_weave.Identity.Model.{live, rotated, disabled}
use stream_weave.Identity.Monad.{World}
use stream_weave.Identity.Service.Signin.{SignedIn, issued}
use stream_weave.Identity.Requests.{here, served, serve, to_log_out_all, to_refresh}
use stream_weave.Identity.History.{Later, Later-same, IsConsiderate}
use stream_weave.Identity.History.Requests.{requests_kept}
use stream_weave.Identity.Rotation.{Ended}
use stream_weave.Identity.Rotation.Once.{refresh_once, reuse_ends_family}
use stream_weave.Identity.Revocation.{user_revoked, logout_all_ends, disable_ends}
use stream_weave.Identity.Revocation.Reset.{Done}
use stream_weave.Identity.Revocation.ResetOnce.{reset_ends, reset_once}
use stream_weave.Identity.Opening.{IsAlone, IsOpaque}
use stream_weave.Identity.Opening.Login.{Admitted, login_opens}
use stream_weave.Identity.Opening.Machine.{Entitled, service_token_checked}
use stream_weave.Identity.Samples.{calm, dawn, sign_in, again, signed_in, ada}
use stream_weave.Text.{byte_len, trim_space}
use stream_weave.Sorting.{sort_by, unique_sorted}
use stream_weave.Identity.Model.{normalize_email, to_lower, is_usable, is_token_usable}
use stream_weave.Identity.Monad.{
  ◌>>=◌, consult, pure, fail, attempt, select, with_transaction, statement, map_database_error,
}
use stream_weave.Identity.Accounts.{
  get_user_by_email, get_user_by_id, list_user_roles, exists_active_role, set_user_status,
  set_password,
}
use stream_weave.Identity.Sessions.{
  get_session_by_refresh_hash, select_for_update, set_rotated, revoke_sessions_of_family,
  revoke_sessions_of_user, insert_session,
}
use stream_weave.Identity.Secrets.{
  insert_outbox_event, insert_security_audit, get_reset_token, set_reset_consumed,
  get_service_principal, list_active_credentials, set_principal_used,
}
use stream_weave.Identity.Store.{
  find_user, find_session_by_refresh_hash, find_user_by_email, user_roles, create_session,
  lock_active_session, rotate_session, revoke_session_family, revoke_user_sessions,
  record_audit_row, record_outbox_row, has_active_role, update_user_status, find_reset_token,
  update_password, consume_reset_token, find_service_principal, active_service_credentials,
  mark_service_principal_used,
}
use stream_weave.Identity.Service.{
  validate_credentials, allow_dimensions, or_denied, allow_by, allow_each, allowed, email_ok,
  limit_keys, password_ok, record_audit, role_names, scope_names, user_ref, without_dashes,
}
use stream_weave.Identity.Service.Signin.{login, start_session, admit, may_log_in, logout_all}
use stream_weave.Identity.Service.Refresh.{
  refresh, refresh_attempt, refresh_with, rotate, rotate_body, replace_session, lock_result,
  revoke_reused, refuse_reused, revoked_or_failed,
}
use stream_weave.Identity.Service.Admin.{change_user_status, status_body, keep_administrator}
use stream_weave.Identity.Service.Recovery.{
  confirm_password_reset, confirm_with, usable_token, reset_body,
}
use stream_weave.Identity.Service.Machine.{
  service_token, authorize_machine, authorize_at, issue_machine_token, missing_input, secret_valid,
  all_granted,
}

considerate : IsConsiderate calm
considerate n t = Later-same t

alone : IsAlone calm
alone n t = refl

opaque : IsOpaque calm
opaque n token hash e = cc

abbrev answered : String → SignedIn
answered token = record {
  credentials = issued "jwt" token;
  user = ada;
  roles = (record { role = "customer"; scope = "orders:read:self" }) ∷ [];
}

-- The world after a Refresh with the token "t" and a logout from everywhere.
later_world : World
later_world = (serve (to_log_out_all "u1" "") calm (refresh (again "t") calm (signed_in live)).1).1

refresh_once_example : (refresh (again "t") calm later_world).0 ≢ ok (answered "t")
unfolding login refresh refresh_attempt refresh_with rotate rotate_body replace_session lock_result
    revoke_reused refuse_reused revoked_or_failed is_usable is_token_usable ◌>>=◌
    validate_credentials consult pure fail allow_dimensions attempt or_denied find_user
    find_session_by_refresh_hash find_user_by_email select get_user_by_email get_user_by_id
    get_session_by_refresh_hash user_roles list_user_roles start_session with_transaction
    create_session lock_active_session select_for_update rotate_session set_rotated
    revoke_session_family revoke_sessions_of_family revoke_user_sessions revoke_sessions_of_user
    statement insert_session normalize_email to_lower map_database_error insert_outbox_event
    insert_security_audit admit may_log_in allow_by allow_each allowed email_ok limit_keys
    password_ok record_audit role_names scope_names user_ref without_dashes record_audit_row
    record_outbox_row sort_by unique_sorted byte_len trim_space logout_all change_user_status
    status_body keep_administrator has_active_role exists_active_role update_user_status
    set_user_status confirm_password_reset confirm_with find_reset_token get_reset_token
    usable_token reset_body update_password set_password consume_reset_token set_reset_consumed
    service_token authorize_machine authorize_at issue_machine_token missing_input secret_valid
    all_granted find_service_principal get_service_principal active_service_credentials
    list_active_credentials mark_service_principal_used set_principal_used later_world
refresh_once_example =
    refresh_once calm (again "t") (again "t") (signed_in live) later_world (answered "tiiiiiiiin")
      (answered "t") considerate refl (served (to_log_out_all "u1" "") here) refl

reuse_ends_family_example :
    Ended "t" (refresh (again "t") calm (signed_in rotated)).1.tables.sessions
unfolding login refresh refresh_attempt refresh_with rotate rotate_body replace_session lock_result
    revoke_reused refuse_reused revoked_or_failed is_usable is_token_usable ◌>>=◌
    validate_credentials consult pure fail allow_dimensions attempt or_denied find_user
    find_session_by_refresh_hash find_user_by_email select get_user_by_email get_user_by_id
    get_session_by_refresh_hash user_roles list_user_roles start_session with_transaction
    create_session lock_active_session select_for_update rotate_session set_rotated
    revoke_session_family revoke_sessions_of_family revoke_user_sessions revoke_sessions_of_user
    statement insert_session normalize_email to_lower map_database_error insert_outbox_event
    insert_security_audit admit may_log_in allow_by allow_each allowed email_ok limit_keys
    password_ok record_audit role_names scope_names user_ref without_dashes record_audit_row
    record_outbox_row sort_by unique_sorted byte_len trim_space logout_all change_user_status
    status_body keep_administrator has_active_role exists_active_role update_user_status
    set_user_status confirm_password_reset confirm_with find_reset_token get_reset_token
    usable_token reset_body update_password set_password consume_reset_token set_reset_consumed
    service_token authorize_machine authorize_at issue_machine_token missing_input secret_valid
    all_granted find_service_principal get_service_principal active_service_credentials
    list_active_credentials mark_service_principal_used set_principal_used
reuse_ends_family_example = reuse_ends_family calm considerate (again "t") (signed_in rotated) refl

requests_kept_example :
    Later (signed_in live).tables (serve (to_refresh (again "t")) calm (signed_in live)).1.tables
requests_kept_example =
    requests_kept calm (signed_in live) (serve (to_refresh (again "t")) calm (signed_in live)).1
      considerate (served (to_refresh (again "t")) here)

logout_all_ends_example :
    user_revoked "u1" (logout_all "u1" "" calm (signed_in live)).1.tables.sessions ≡ true
unfolding login refresh refresh_attempt refresh_with rotate rotate_body replace_session lock_result
    revoke_reused refuse_reused revoked_or_failed is_usable is_token_usable ◌>>=◌
    validate_credentials consult pure fail allow_dimensions attempt or_denied find_user
    find_session_by_refresh_hash find_user_by_email select get_user_by_email get_user_by_id
    get_session_by_refresh_hash user_roles list_user_roles start_session with_transaction
    create_session lock_active_session select_for_update rotate_session set_rotated
    revoke_session_family revoke_sessions_of_family revoke_user_sessions revoke_sessions_of_user
    statement insert_session normalize_email to_lower map_database_error insert_outbox_event
    insert_security_audit admit may_log_in allow_by allow_each allowed email_ok limit_keys
    password_ok record_audit role_names scope_names user_ref without_dashes record_audit_row
    record_outbox_row sort_by unique_sorted byte_len trim_space logout_all change_user_status
    status_body keep_administrator has_active_role exists_active_role update_user_status
    set_user_status confirm_password_reset confirm_with find_reset_token get_reset_token
    usable_token reset_body update_password set_password consume_reset_token set_reset_consumed
    service_token authorize_machine authorize_at issue_machine_token missing_input secret_valid
    all_granted find_service_principal get_service_principal active_service_credentials
    list_active_credentials mark_service_principal_used set_principal_used
logout_all_ends_example = logout_all_ends calm "u1" "" (signed_in live) tt refl

disable_ends_example :
    user_revoked "u1"
      (change_user_status "u1" disabled "u2" "" calm (signed_in live)).1.tables.sessions
    ≡ true
unfolding login refresh refresh_attempt refresh_with rotate rotate_body replace_session lock_result
    revoke_reused refuse_reused revoked_or_failed is_usable is_token_usable ◌>>=◌
    validate_credentials consult pure fail allow_dimensions attempt or_denied find_user
    find_session_by_refresh_hash find_user_by_email select get_user_by_email get_user_by_id
    get_session_by_refresh_hash user_roles list_user_roles start_session with_transaction
    create_session lock_active_session select_for_update rotate_session set_rotated
    revoke_session_family revoke_sessions_of_family revoke_user_sessions revoke_sessions_of_user
    statement insert_session normalize_email to_lower map_database_error insert_outbox_event
    insert_security_audit admit may_log_in allow_by allow_each allowed email_ok limit_keys
    password_ok record_audit role_names scope_names user_ref without_dashes record_audit_row
    record_outbox_row sort_by unique_sorted byte_len trim_space logout_all change_user_status
    status_body keep_administrator has_active_role exists_active_role update_user_status
    set_user_status confirm_password_reset confirm_with find_reset_token get_reset_token
    usable_token reset_body update_password set_password consume_reset_token set_reset_consumed
    service_token authorize_machine authorize_at issue_machine_token missing_input secret_valid
    all_granted find_service_principal get_service_principal active_service_credentials
    list_active_credentials mark_service_principal_used set_principal_used
disable_ends_example = disable_ends calm "u1" "u2" "" (signed_in live) tt refl

reset_ends_example :
    Done "reset" (confirm_password_reset "reset" "battery-staple" "" calm (signed_in live)).1.tables
unfolding login refresh refresh_attempt refresh_with rotate rotate_body replace_session lock_result
    revoke_reused refuse_reused revoked_or_failed is_usable is_token_usable ◌>>=◌
    validate_credentials consult pure fail allow_dimensions attempt or_denied find_user
    find_session_by_refresh_hash find_user_by_email select get_user_by_email get_user_by_id
    get_session_by_refresh_hash user_roles list_user_roles start_session with_transaction
    create_session lock_active_session select_for_update rotate_session set_rotated
    revoke_session_family revoke_sessions_of_family revoke_user_sessions revoke_sessions_of_user
    statement insert_session normalize_email to_lower map_database_error insert_outbox_event
    insert_security_audit admit may_log_in allow_by allow_each allowed email_ok limit_keys
    password_ok record_audit role_names scope_names user_ref without_dashes record_audit_row
    record_outbox_row sort_by unique_sorted byte_len trim_space logout_all change_user_status
    status_body keep_administrator has_active_role exists_active_role update_user_status
    set_user_status confirm_password_reset confirm_with find_reset_token get_reset_token
    usable_token reset_body update_password set_password consume_reset_token set_reset_consumed
    service_token authorize_machine authorize_at issue_machine_token missing_input secret_valid
    all_granted find_service_principal get_service_principal active_service_credentials
    list_active_credentials mark_service_principal_used set_principal_used
reset_ends_example =
    reset_ends calm considerate "reset" "battery-staple" "" (signed_in live) tt refl

reset_once_example :
    (confirm_password_reset "reset" "battery-stapler" "" calm
      (confirm_password_reset "reset" "battery-staple" "" calm (signed_in live)).1).0
    ≢ ok tt
unfolding login refresh refresh_attempt refresh_with rotate rotate_body replace_session lock_result
    revoke_reused refuse_reused revoked_or_failed is_usable is_token_usable ◌>>=◌
    validate_credentials consult pure fail allow_dimensions attempt or_denied find_user
    find_session_by_refresh_hash find_user_by_email select get_user_by_email get_user_by_id
    get_session_by_refresh_hash user_roles list_user_roles start_session with_transaction
    create_session lock_active_session select_for_update rotate_session set_rotated
    revoke_session_family revoke_sessions_of_family revoke_user_sessions revoke_sessions_of_user
    statement insert_session normalize_email to_lower map_database_error insert_outbox_event
    insert_security_audit admit may_log_in allow_by allow_each allowed email_ok limit_keys
    password_ok record_audit role_names scope_names user_ref without_dashes record_audit_row
    record_outbox_row sort_by unique_sorted byte_len trim_space logout_all change_user_status
    status_body keep_administrator has_active_role exists_active_role update_user_status
    set_user_status confirm_password_reset confirm_with find_reset_token get_reset_token
    usable_token reset_body update_password set_password consume_reset_token set_reset_consumed
    service_token authorize_machine authorize_at issue_machine_token missing_input secret_valid
    all_granted find_service_principal get_service_principal active_service_credentials
    list_active_credentials mark_service_principal_used set_principal_used
reset_once_example =
    reset_once calm "reset" "battery-staple" "" "battery-stapler" "" (signed_in live)
      (confirm_password_reset "reset" "battery-staple" "" calm (signed_in live)).1 tt tt considerate
      refl here

login_opens_example :
    Admitted calm sign_in dawn.tables (login sign_in calm dawn).1.tables (answered "tiiiiiiiiiiin")
unfolding login refresh refresh_attempt refresh_with rotate rotate_body replace_session lock_result
    revoke_reused refuse_reused revoked_or_failed is_usable is_token_usable ◌>>=◌
    validate_credentials consult pure fail allow_dimensions attempt or_denied find_user
    find_session_by_refresh_hash find_user_by_email select get_user_by_email get_user_by_id
    get_session_by_refresh_hash user_roles list_user_roles start_session with_transaction
    create_session lock_active_session select_for_update rotate_session set_rotated
    revoke_session_family revoke_sessions_of_family revoke_user_sessions revoke_sessions_of_user
    statement insert_session normalize_email to_lower map_database_error insert_outbox_event
    insert_security_audit admit may_log_in allow_by allow_each allowed email_ok limit_keys
    password_ok record_audit role_names scope_names user_ref without_dashes record_audit_row
    record_outbox_row sort_by unique_sorted byte_len trim_space logout_all change_user_status
    status_body keep_administrator has_active_role exists_active_role update_user_status
    set_user_status confirm_password_reset confirm_with find_reset_token get_reset_token
    usable_token reset_body update_password set_password consume_reset_token set_reset_consumed
    service_token authorize_machine authorize_at issue_machine_token missing_input secret_valid
    all_granted find_service_principal get_service_principal active_service_credentials
    list_active_credentials mark_service_principal_used set_principal_used
login_opens_example = login_opens calm sign_in dawn (answered "tiiiiiiiiiiin") opaque alone refl

abbrev machine_world : World
machine_world = (service_token "orders" "secret" ("quotes:read" ∷ []) "" "" calm dawn).1

service_token_checked_example :
    Entitled calm "orders" "secret" ("quotes:read" ∷ []) dawn.tables dawn.asked machine_world.asked
unfolding login refresh refresh_attempt refresh_with rotate rotate_body replace_session lock_result
    revoke_reused refuse_reused revoked_or_failed is_usable is_token_usable ◌>>=◌
    validate_credentials consult pure fail allow_dimensions attempt or_denied find_user
    find_session_by_refresh_hash find_user_by_email select get_user_by_email get_user_by_id
    get_session_by_refresh_hash user_roles list_user_roles start_session with_transaction
    create_session lock_active_session select_for_update rotate_session set_rotated
    revoke_session_family revoke_sessions_of_family revoke_user_sessions revoke_sessions_of_user
    statement insert_session normalize_email to_lower map_database_error insert_outbox_event
    insert_security_audit admit may_log_in allow_by allow_each allowed email_ok limit_keys
    password_ok record_audit role_names scope_names user_ref without_dashes record_audit_row
    record_outbox_row sort_by unique_sorted byte_len trim_space logout_all change_user_status
    status_body keep_administrator has_active_role exists_active_role update_user_status
    set_user_status confirm_password_reset confirm_with find_reset_token get_reset_token
    usable_token reset_body update_password set_password consume_reset_token set_reset_consumed
    service_token authorize_machine authorize_at issue_machine_token missing_input secret_valid
    all_granted find_service_principal get_service_principal active_service_credentials
    list_active_credentials mark_service_principal_used set_principal_used
service_token_checked_example =
    service_token_checked calm "orders" "secret" ("quotes:read" ∷ []) "" "" dawn
      (record { access_token = "jwt"; expires_in = 300 }) alone refl
