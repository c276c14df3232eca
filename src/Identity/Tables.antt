-- ===== src/Identity/Tables.antt =====
-- The tables of database/identity/migrations, as generated/models.go reads them, without the columns of
-- roles, permissions, principals and credentials that the service never reads.
use stream_weave.Prelude.{ℕ, String, Bool, Option, List}
use stream_weave.Identity.Model.{Instant, User, SessionStatus, AuditRecord, AuditPayload}

pub record SessionRow : Type 0 where
  pub id : String
  pub family_id : String
  pub user_id : String
  pub refresh_token_hash : String
  pub status : SessionStatus
  pub expires_at : Instant
  pub revoked_at : Option Instant
  pub revoked_reason : Option String
  pub rotated_from_session_id : Option String
  pub replaced_by_session_id : Option String
  pub created_at : Instant
  pub last_used_at : Option Instant
  pub user_agent_hash : Option String
  pub ip_prefix_hash : Option String

pub record RoleRow : Type 0 where
  pub id : String
  pub name : String
  pub enabled : Bool  -- status: ACTIVE, or DISABLED

pub record PermissionRow : Type 0 where
  pub id : String
  pub name : String

pub record RolePermissionRow : Type 0 where
  pub role_id : String
  pub permission_id : String

pub record UserRoleRow : Type 0 where
  pub user_id : String
  pub role_id : String
  pub assigned_at : Instant
  pub assigned_by : Option String

-- reset_tokens and verification_tokens have the same columns.
pub record TokenRow : Type 0 where
  pub id : String
  pub user_id : String
  pub token_hash : String
  pub expires_at : Instant
  pub consumed_at : Option Instant
  pub created_at : Instant

pub record PrincipalRow : Type 0 where
  pub id : String
  pub client_id : String
  pub enabled : Bool  -- status: ACTIVE, or DISABLED
  pub scopes : String  -- JSON
  pub audience : String
  pub last_used_at : Option Instant

pub record CredentialRow : Type 0 where
  pub id : String
  pub service_principal_id : String
  pub secret_hash : String
  pub enabled : Bool  -- status: ACTIVE, or RETIRED
  pub valid_from : Instant
  pub retired_at : Option Instant

pub record OutboxRow : Type 0 where
  pub id : String
  pub event_type : String
  pub aggregate_type : String
  pub aggregate_id : String
  pub payload : AuditPayload
  pub headers : String
  pub created_at : Instant
  pub published_at : Option Instant
  pub attempts : ℕ
  pub last_error : Option String

pub record Tables : Type 0 where
  pub users : List User
  pub roles : List RoleRow
  pub permissions : List PermissionRow
  pub role_permissions : List RolePermissionRow
  pub user_roles : List UserRoleRow
  pub sessions : List SessionRow
  pub reset_tokens : List TokenRow
  pub verification_tokens : List TokenRow
  pub principals : List PrincipalRow
  pub credentials : List CredentialRow
  pub audit : List AuditRecord
  pub outbox : List OutboxRow
