-- ===== src/Identity/Model.antt =====
-- models.go and errors.go of apps/identity/internal/domain/identity, and the records of ports.go and
-- service.go of apps/identity/internal/application/identity.
use Prim.Native.Char.{Char}
use Prim.Native.String.{[] as empty, ◌∷◌ as ◌∷ᶜ◌}
use stream_weave.Prelude.{ℕ, String, Bool, true, false, ◌&&◌, Option, List, ltb, not, is_some}
use stream_weave.Text.{trim_space}

-- time.Time as the nanoseconds since Go's zero time; every time that is kept is in UTC.
abbrev pub Instant : Type 0
Instant = ℕ

pub data UserStatus : Type 0 where
  active disabled pending_verification : UserStatus

abbrev pub eqb_user_status : UserStatus → UserStatus → Bool
eqb_user_status active active = true
eqb_user_status disabled disabled = true
eqb_user_status pending_verification pending_verification = true
eqb_user_status _ _ = false

abbrev pub user_status_text : UserStatus → String
user_status_text active = "ACTIVE"
user_status_text disabled = "DISABLED"
user_status_text pending_verification = "PENDING_VERIFICATION"

-- domain.User, and generated.User, which has the same fields
pub record User : Type 0 where
  pub id : String
  pub email : String
  pub email_normalized : String
  pub password_hash : String
  pub status : UserStatus
  pub email_verified_at : Option Instant
  pub created_at : Instant
  pub updated_at : Instant

-- strings.ToLower, given unicode.ToLower of a character
unfoldable pub to_lower : (Char → Char) → String → String
to_lower lower empty = empty
to_lower lower (c ∷ᶜ s) = lower c ∷ᶜ to_lower lower s

unfoldable pub normalize_email : (Char → Char) → String → String
unfolding to_lower trim_space
normalize_email lower email = to_lower lower (trim_space email)

pub data SessionStatus : Type 0 where
  live rotated revoked : SessionStatus

abbrev pub is_live : SessionStatus → Bool
is_live live = true
is_live _ = false

abbrev pub is_revoked : SessionStatus → Bool
is_revoked revoked = true
is_revoked _ = false

pub record Session : Type 0 where
  pub id : String
  pub family_id : String
  pub user_id : String
  pub status : SessionStatus
  pub rotated_from_session_id : Option String
  pub expires_at : Instant
  pub revoked_at : Option Instant
  pub created_at : Instant
  pub last_used_at : Option Instant

-- Session.IsUsable
unfoldable pub is_usable : Session → Instant → Bool
is_usable s now = is_live s.status && ltb now s.expires_at

pub record RolePermission : Type 0 where
  pub role : String
  pub scope : String

pub record ServicePrincipal : Type 0 where
  pub id : String
  pub client_id : String
  pub enabled : Bool  -- status: ACTIVE, or DISABLED
  pub scopes : List String
  pub audience : String

pub record ServiceCredential : Type 0 where
  pub id : String
  pub service_principal_id : String
  pub secret_hash : String
  pub enabled : Bool  -- status: ACTIVE, or RETIRED
  pub valid_from : Instant
  pub retired_at : Option Instant

pub record OneTimeToken : Type 0 where
  pub id : String
  pub user_id : String
  pub expires_at : Instant
  pub consumed_at : Option Instant

-- OneTimeToken.IsUsable
unfoldable pub is_token_usable : OneTimeToken → Instant → Bool
is_token_usable t now = not (is_some t.consumed_at) && ltb now t.expires_at

-- The errors that a caller can tell apart by errors.Is; `refresh_reuse` wraps ErrInvalidCredentials
-- as well as ErrRefreshReuse, and `outside` is any error of a port that the service passes on.
pub data Error : Type 0 where
  invalid_credentials refresh_reuse forbidden not_found conflict : Error
  rate_limited already_used dependency invalid_input outside : Error

abbrev pub is_not_found : Error → Bool
is_not_found not_found = true
is_not_found _ = false

pub record RegisterInput : Type 0 where
  pub email : String
  pub password : String
  pub source_key : String
  pub correlation_id : String

pub record LoginInput : Type 0 where
  pub email : String
  pub password : String
  pub correlation_id : String
  pub source_key : String

pub record RefreshInput : Type 0 where
  pub refresh_token : String
  pub correlation_id : String
  pub source_key : String

pub record Credentials : Type 0 where
  pub access_token : String
  pub refresh_token : String
  pub access_token_expires_in : ℕ
  pub refresh_expires_in : ℕ

pub record MachineCredentials : Type 0 where
  pub access_token : String
  pub expires_in : ℕ

pub record AuditRecord : Type 0 where
  pub id : String
  pub actor_id : Option String
  pub actor_type : Option String
  pub action : String
  pub target_type : Option String
  pub target_id : Option String
  pub metadata : String
  pub correlation_id : String
  pub occurred_at : Instant

-- The JSON document that recordAudit builds.
pub record AuditPayload : Type 0 where
  pub event_id : String
  pub event_type : String
  pub aggregate_type : String
  pub aggregate_id : String
  pub correlation_id : String
  pub occurred_at : Instant
  pub producer : String
  pub schema_version : ℕ
  pub action : String
  pub outcome : String
  pub actor_id : Option String
  pub actor_type : Option String
  pub target_type : Option String
  pub target_id : Option String
  pub role : Option String

pub record OutboxRecord : Type 0 where
  pub id : String
  pub event_type : String
  pub aggregate_type : String
  pub aggregate_id : String
  pub payload : AuditPayload
  pub headers : String
  pub created_at : Instant

pub record SessionPageQuery : Type 0 where
  pub cursor_created_at : Option Instant
  pub cursor_id : String
  pub limit : ℕ  -- int32, at least 1

pub record SessionPage : Type 0 where
  pub items : List Session
  pub has_more : Bool
  pub last_created : Instant
  pub last_id : String
