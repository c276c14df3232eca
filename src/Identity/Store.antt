-- ===== src/Identity/Store.antt =====
-- The methods of Store and storeTransaction of store.go of the identity service.
use stream_weave.Prelude.{
  ℕ, suc, String, Bool, Option, none, some, List, [], ◌∷◌, ltb, if◌then◌else◌, length, take, map,
}
use stream_weave.Identity.Model.{
  Instant, User, UserStatus, Session, live, RolePermission, ServicePrincipal, ServiceCredential,
  OneTimeToken, AuditRecord, OutboxRecord, SessionPageQuery, SessionPage,
}
use stream_weave.Identity.Tables.{
  SessionRow, TokenRow, PrincipalRow, CredentialRow, OutboxRow, RoleRow,
}
use stream_weave.Identity.Monad.{Act, execute, statement, select, ask, pure, ◌>>=◌}
use stream_weave.Identity.Accounts.{
  get_user_by_email, get_user_by_id, insert_user, set_user_status, set_password, set_email_verified,
  get_role_by_name, insert_user_role, delete_user_role, exists_active_role, count_administrators,
  list_user_roles,
}
use stream_weave.Identity.Sessions.{
  get_session_by_id, get_session_by_refresh_hash, insert_session, select_for_update, set_rotated,
  revoke_session_by_id, revoke_sessions_of_family, revoke_sessions_of_user, list_user_sessions,
  list_user_sessions_page,
}
use stream_weave.Identity.Secrets.{
  insert_reset_token, insert_verification_token, get_reset_token, get_verification_token,
  set_reset_consumed, set_verification_consumed, get_service_principal, set_principal_used,
  list_active_credentials, insert_security_audit, insert_outbox_event, count_pending_outbox,
  list_pending_outbox, set_outbox_published, set_outbox_failed,
}

-- mapSession, which does not pass on the session that a session was rotated from
abbrev pub map_session : SessionRow → Session
map_session s = record {
  id = s.id;
  family_id = s.family_id;
  user_id = s.user_id;
  status = s.status;
  rotated_from_session_id = none;
  expires_at = s.expires_at;
  revoked_at = s.revoked_at;
  created_at = s.created_at;
  last_used_at = s.last_used_at;
}

abbrev pub map_token : TokenRow → OneTimeToken
map_token k = record {
  id = k.id;
  user_id = k.user_id;
  expires_at = k.expires_at;
  consumed_at = k.consumed_at;
}

abbrev pub map_credential : CredentialRow → ServiceCredential
map_credential c = record {
  id = c.id;
  service_principal_id = c.service_principal_id;
  secret_hash = c.secret_hash;
  enabled = c.enabled;
  valid_from = c.valid_from;
  retired_at = c.retired_at;
}

unfoldable pub find_user_by_email : String → Act User
find_user_by_email email = select (get_user_by_email email)

unfoldable pub find_user : String → Act User
find_user id = select (get_user_by_id id)

unfoldable pub user_roles : String → Act (List RolePermission)
user_roles id = select (list_user_roles id)

unfoldable pub find_role : String → Act RoleRow
find_role name = select (get_role_by_name name)

unfoldable pub find_session_by_refresh_hash : String → Act Session
find_session_by_refresh_hash hash = do
  s ← select (get_session_by_refresh_hash hash)
  pure (map_session s)

unfoldable pub find_session_by_id : String → Act Session
find_session_by_id id = do s ← select (get_session_by_id id); pure (map_session s)

unfoldable pub list_sessions : String → Act (List Session)
list_sessions user = do rows ← select (list_user_sessions user); pure (map map_session rows)

-- The fields of the last item, or those of a page without items.
abbrev with_last : List Session → SessionPage → SessionPage
with_last [] page = page
with_last (s ∷ ss) page = with_last ss (record page { last_created = s.created_at; last_id = s.id })

-- The items of a page, cut to the limit, from the rows that were read.
unfoldable pub session_page : ℕ → List Session → SessionPage
session_page limit items =
    let kept = if ltb limit (length items) then take limit items else items in
    with_last kept (record {
      items = kept;
      has_more = ltb limit (length items);
      last_created = 0;
      last_id = "00000000-0000-0000-0000-000000000000";
    })

-- nullableUUIDValue of the zero uuid is NULL, with which the comparison to the cursor is NULL; the
-- callers set the id with the time.
unfoldable pub list_sessions_page : String → SessionPageQuery → Act SessionPage
unfolding session_page
list_sessions_page user q = do
  rows ← select (list_user_sessions_page user q.cursor_created_at q.cursor_id (suc q.limit))
  pure (session_page q.limit (map map_session rows))

abbrev pub principal_of : PrincipalRow → List String → ServicePrincipal
principal_of p scopes = record {
  id = p.id;
  client_id = p.client_id;
  enabled = p.enabled;
  scopes = scopes;
  audience = p.audience;
}

unfoldable pub find_service_principal : String → Act ServicePrincipal
find_service_principal client = do
  p ← select (get_service_principal client)
  scopes ← ask (λ env n. env.decode_scopes p.scopes)
  pure (principal_of p scopes)

unfoldable pub active_service_credentials : String → Instant → Act (List ServiceCredential)
active_service_credentials principal at = do
  rows ← select (list_active_credentials principal at)
  pure (map map_credential rows)

unfoldable pub find_reset_token : String → Act OneTimeToken
find_reset_token hash = do k ← select (get_reset_token hash); pure (map_token k)

unfoldable pub find_verification_token : String → Act OneTimeToken
find_verification_token hash = do k ← select (get_verification_token hash); pure (map_token k)

-- The methods of the relay of the identity service

unfoldable pub pending_outbox_count : Act ℕ
pending_outbox_count = select count_pending_outbox

abbrev event_of : OutboxRow → OutboxRecord
event_of o = record {
  id = o.id;
  event_type = o.event_type;
  aggregate_type = o.aggregate_type;
  aggregate_id = o.aggregate_id;
  payload = o.payload;
  headers = o.headers;
  created_at = o.created_at;
}

unfoldable pub pending_outbox : ℕ → Act (List OutboxRecord)
pending_outbox limit = do rows ← select (list_pending_outbox limit); pure (map event_of rows)

unfoldable pub mark_outbox_published : String → Instant → Act (Unit {0})
mark_outbox_published id at = execute (set_outbox_published id at)

unfoldable pub mark_outbox_failed : String → String → Act (Unit {0})
mark_outbox_failed id reason = execute (set_outbox_failed id reason)

-- The methods of storeTransaction.

unfoldable pub create_user : User → Act User
create_user u = statement (insert_user u)

unfoldable pub create_session : Session → String → Option String → Option String → Act (Unit {0})
create_session s hash agent ip = statement (
    insert_session (record {
      id = s.id;
      family_id = s.family_id;
      user_id = s.user_id;
      refresh_token_hash = hash;
      status = live;
      expires_at = s.expires_at;
      revoked_at = none;
      revoked_reason = none;
      rotated_from_session_id = s.rotated_from_session_id;
      replaced_by_session_id = none;
      created_at = s.created_at;
      last_used_at = some s.created_at;
      user_agent_hash = agent;
      ip_prefix_hash = ip;
    }))

-- ErrNotFound where no active session has the id.
unfoldable pub lock_active_session : String → Act (Unit {0})
lock_active_session id = statement (select_for_update id)

unfoldable pub rotate_session : String → String → Instant → Act ℕ
rotate_session id replacement at = statement (set_rotated id replacement at)

unfoldable pub revoke_session_family : String → Instant → String → Act (Unit {0})
revoke_session_family family at reason = statement (revoke_sessions_of_family family at reason)

unfoldable pub revoke_session : String → Instant → String → Act (Unit {0})
revoke_session id at reason = statement (revoke_session_by_id id at reason)

unfoldable pub revoke_user_sessions : String → Instant → String → Act (Unit {0})
revoke_user_sessions user at reason = statement (revoke_sessions_of_user user at reason)

unfoldable pub update_user_status : String → UserStatus → Instant → Act ℕ
update_user_status id status at = statement (set_user_status id status at)

unfoldable pub update_password : String → String → Instant → Act (Unit {0})
update_password id hash at = statement (set_password id hash at)

unfoldable pub assign_role : String → String → Instant → Option String → Act ℕ
assign_role user role at by = statement (insert_user_role user role at by)

unfoldable pub remove_role : String → String → Act ℕ
remove_role user role = statement (delete_user_role user role)

unfoldable pub has_active_role : String → String → Act Bool
has_active_role user role = statement (exists_active_role user role)

unfoldable pub count_active_administrators : Act ℕ
count_active_administrators = statement count_administrators

abbrev new_token : String → String → String → Instant → Instant → TokenRow
new_token id user hash expires created = record {
  id = id;
  user_id = user;
  token_hash = hash;
  expires_at = expires;
  consumed_at = none;
  created_at = created;
}

unfoldable pub create_reset_token : String → String → String → Instant → Instant → Act (Unit {0})
create_reset_token id user hash expires created =
    statement (insert_reset_token (new_token id user hash expires created))

unfoldable pub consume_reset_token : String → Instant → Act ℕ
consume_reset_token id at = statement (set_reset_consumed id at)

unfoldable pub create_verification_token :
    String → String → String → Instant → Instant → Act (Unit {0})
create_verification_token id user hash expires created =
    statement (insert_verification_token (new_token id user hash expires created))

unfoldable pub consume_verification_token : String → Instant → Act ℕ
consume_verification_token id at = statement (set_verification_consumed id at)

unfoldable pub mark_email_verified : String → Instant → Act ℕ
mark_email_verified id at = statement (set_email_verified id at)

unfoldable pub mark_service_principal_used : String → Instant → Act (Unit {0})
mark_service_principal_used id at = statement (set_principal_used id at)

unfoldable pub record_audit_row : AuditRecord → Act (Unit {0})
record_audit_row a = statement (insert_security_audit a)

unfoldable pub record_outbox_row : OutboxRecord → Act (Unit {0})
record_outbox_row o = statement (
    insert_outbox_event (record {
      id = o.id;
      event_type = o.event_type;
      aggregate_type = o.aggregate_type;
      aggregate_id = o.aggregate_id;
      payload = o.payload;
      headers = o.headers;
      created_at = o.created_at;
      published_at = none;
      attempts = 0;
      last_error = none;
    }))
