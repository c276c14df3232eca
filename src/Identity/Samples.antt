-- ===== src/Identity/Samples.antt =====
-- A small world of the identity service for the tests: one user, a reset token, a service principal.
use stream_weave.Prelude.{String, cat, true, false, none, some, [], ◌∷◌, str_eq}
use stream_weave.Samples.{names}
use stream_weave.Identity.Model.{User, active, SessionStatus, LoginInput, RefreshInput}
use stream_weave.Identity.Tables.{SessionRow, TokenRow, PrincipalRow, CredentialRow}
use stream_weave.Identity.Monad.{Env, World, many_keys}

-- Nothing fails, no other request commits, and secrets are their own hashes.
abbrev pub calm : Env
calm = record {
  fault = λ n. false;
  others = λ n t. t;
  clock = λ n. n;
  new_v7 = λ n. some (names n);
  hash_password = λ n p. some p;
  verify_password = λ p h. str_eq p h;
  new_opaque = λ n. some (cat "t" (names n), cat "t" (names n));
  hash_opaque = λ s. s;
  sign = λ n c. some "jwt";
  limiter = many_keys (λ n keys. some true);
  mailer = none;
  human_audience = "gateway";
  parse_address = λ s. some s;
  lower = λ c. c;
  sha256_hex = λ s. s;
  decode_scopes = λ s. some (s ∷ []);
}

abbrev pub ada : User
ada = record {
  id = "u1";
  email = "ada@example.test";
  email_normalized = "ada@example.test";
  password_hash = "correct-horse";
  status = active;
  email_verified_at = some 1;
  created_at = 0;
  updated_at = 0;
}

abbrev pub reset_row : TokenRow
reset_row = record {
  id = "k1";
  user_id = "u1";
  token_hash = "reset";
  expires_at = 1_000_000;
  consumed_at = none;
  created_at = 0;
}

abbrev pub principal_row : PrincipalRow
principal_row = record {
  id = "p1";
  client_id = "orders";
  enabled = true;
  scopes = "quotes:read";
  audience = "machines";
  last_used_at = none;
}

abbrev pub credential_row : CredentialRow
credential_row = record {
  id = "c1";
  service_principal_id = "p1";
  secret_hash = "secret";
  enabled = true;
  valid_from = 0;
  retired_at = none;
}

abbrev pub dawn : World
dawn = record {
  tables = record {
    users = ada ∷ [];
    roles = (record { id = "r1"; name = "customer"; enabled = true }) ∷ [];
    permissions = (record { id = "m1"; name = "orders:read:self" }) ∷ [];
    role_permissions = (record { role_id = "r1"; permission_id = "m1" }) ∷ [];
    user_roles =
        (record { user_id = "u1"; role_id = "r1"; assigned_at = 0; assigned_by = none }) ∷ [];
    sessions = [];
    reset_tokens = reset_row ∷ [];
    verification_tokens = [];
    principals = principal_row ∷ [];
    credentials = credential_row ∷ [];
    audit = [];
    outbox = [];
  };
  asked = 0;
}

abbrev pub sign_in : LoginInput
sign_in = record {
  email = "ada@example.test";
  password = "correct-horse";
  correlation_id = "";
  source_key = "";
}

abbrev pub again : String → RefreshInput
again token = record { refresh_token = token; correlation_id = ""; source_key = "" }

-- A session whose refresh token is "t"
abbrev pub session_row : SessionStatus → SessionRow
session_row status = record {
  id = "s1";
  family_id = "f1";
  user_id = "u1";
  refresh_token_hash = "t";
  status = status;
  expires_at = 1_000_000;
  revoked_at = none;
  revoked_reason = none;
  rotated_from_session_id = none;
  replaced_by_session_id = none;
  created_at = 0;
  last_used_at = none;
  user_agent_hash = none;
  ip_prefix_hash = none;
}

abbrev pub signed_in : SessionStatus → World
signed_in status = record dawn {
  tables = record dawn.tables { sessions = session_row status ∷ [] };
}
