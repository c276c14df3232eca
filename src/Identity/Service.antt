-- ===== src/Identity/Service.antt =====
-- The helpers of service.go of apps/identity/internal/application/identity that its operations
-- share: the audit, the rate limits, the checks of input and the names in a token.
pub mod Signin
pub mod Refresh
pub mod Admin
pub mod Recovery
pub mod Machine
use Prim.Native.Char.{code}
use Prim.Native.String.{[] as empty, ◌∷◌ as ◌∷ᶜ◌}
use stream_weave.Prelude.{
  ℕ, ◌*◌, String, cat, Bool, true, false, not, ◌&&◌, ◌||◌, Option, none, some, List, [], ◌∷◌, ◌++◌,
  str_eq, ◌==◌, ltb, if◌then◌else◌, map, Result, ok, err,
}
use stream_weave.Text.{trim_space, byte_len}
use stream_weave.Sorting.{unique_sorted}
use stream_weave.Identity.Model.{
  Instant, RolePermission, Error, conflict, dependency, invalid_input, invalid_credentials,
  rate_limited, is_not_found, normalize_email,
}
use stream_weave.Identity.Monad.{
  Act, Env, LimiterPort, no_limiter, one_key, many_keys, pure, fail, skip, guard, consult,
  new_identity_id, ◌>>=◌, ◌>>◌,
}
use stream_weave.Identity.Store.{record_audit_row, record_outbox_row}

abbrev second : ℕ
second = 1_000_000_000

abbrev pub access_token_ttl : ℕ
access_token_ttl = 600 * second

abbrev pub machine_token_ttl : ℕ
machine_token_ttl = 300 * second

abbrev pub refresh_token_ttl : ℕ
refresh_token_ttl = 2_592_000 * second

abbrev pub reset_token_ttl : ℕ
reset_token_ttl = 1800 * second

abbrev pub verify_token_ttl : ℕ
verify_token_ttl = 86_400 * second

-- `strings.ReplaceAll(id, "-", "")`
unfoldable pub without_dashes : String → String
without_dashes empty = empty
without_dashes (c ∷ᶜ s) = let rest = without_dashes s in if code c == b'-' then rest else c ∷ᶜ rest

-- userRef
unfoldable pub user_ref : String → String
unfolding without_dashes
user_ref id = cat "usr_" (without_dashes id)

unfoldable pub role_names : List RolePermission → List String
unfolding unique_sorted
role_names values = unique_sorted (map (λ v. v.role) values)

unfoldable pub scope_names : List RolePermission → List String
unfolding unique_sorted
scope_names values = unique_sorted (map (λ v. v.scope) values)

-- `optional`, and `nullableValue` in the payload
abbrev pub optional : String → Option String
optional value = if str_eq value "" then none else some value

pub record AuditInput : Type 0 where
  pub action : String
  pub outcome : String
  pub actor_id : String
  pub actor_type : String
  pub target_id : String
  pub correlation_id : String
  pub role : String
  pub at : Instant

abbrev correlation : AuditInput → String
correlation input = if str_eq input.correlation_id "" then "identity" else input.correlation_id

unfoldable pub record_audit : AuditInput → Act (Unit {0})
unfolding without_dashes
record_audit input = do
  audit_id ← new_identity_id
  outbox_id ← new_identity_id
  record_audit_row (record {
    id = audit_id;
    actor_id = optional input.actor_id;
    actor_type = optional input.actor_type;
    action = input.action;
    target_type = some "user";
    target_id = optional input.target_id;
    metadata = "{}";
    correlation_id = correlation input;
    occurred_at = input.at;
  })
  record_outbox_row (record {
    id = outbox_id;
    event_type = "commerce.security.audit.v1";
    aggregate_type = "security_audit";
    aggregate_id = cat "aud_" (without_dashes audit_id);
    payload = record {
      event_id = cat "evt_" (without_dashes outbox_id);
      event_type = "commerce.security.audit.v1";
      aggregate_type = "security_audit";
      aggregate_id = cat "aud_" (without_dashes audit_id);
      correlation_id = correlation input;
      occurred_at = input.at;
      producer = "identity";
      schema_version = 1;
      action = input.action;
      outcome = input.outcome;
      actor_id = optional input.actor_id;
      actor_type = optional input.actor_type;
      target_type = some "user";
      target_id = optional input.target_id;
      role = optional input.role;
    };
    headers = cat "{\"event_id\":\"" (cat (cat "evt_" (without_dashes outbox_id)) "\"}");
    created_at = input.at;
  })

-- What a limiter answered.
unfoldable pub allowed : Option Bool → Act (Unit {0})
allowed none = fail dependency
allowed (some false) = fail rate_limited
allowed (some true) = skip

-- The keys of allowDimensions
unfoldable pub limit_keys : (String → String) → String → String → String → List String
unfolding trim_space
limit_keys identity_key kind account source =
    cat kind (cat "-account:" (identity_key account))
    ∷ cat kind (cat "-global:" kind)
    ∷ (if str_eq (trim_space source) ""
        then []
        else cat kind (cat "-source:" (identity_key source)) ∷ [])

-- The loop over the keys with `allow`
unfoldable pub allow_each : (ℕ → String → Option Bool) → List String → Act (Unit {0})
unfolding allowed
allow_each f [] = skip
allow_each f (key ∷ keys) = do
  answered ← consult (λ env n. f n key)
  allowed answered
  allow_each f keys

unfoldable pub allow_by : LimiterPort → List String → Act (Unit {0})
unfolding allow_each allowed
allow_by no_limiter keys = skip
allow_by (one_key f) keys = allow_each f keys
allow_by (many_keys f) keys = consult (λ env n. f n keys) >>= allowed

unfoldable pub allow_dimensions : String → String → String → Act (Unit {0})
unfolding limit_keys allow_by
allow_dimensions kind account source = do
  keys ← consult (λ env n. limit_keys env.sha256_hex kind account source)
  port ← consult (λ env n. env.limiter)
  allow_by port keys

abbrev is_parsed : Option String → String → Bool
is_parsed none normalized = false
is_parsed (some address) normalized = str_eq address normalized

-- The test of validateEmail
unfoldable pub email_ok : Env → String → Bool
unfolding normalize_email byte_len
email_ok env email =
    let normalized = normalize_email env.lower email in
    is_parsed (env.parse_address normalized) normalized && not (ltb 320 (byte_len normalized))

unfoldable pub password_ok : String → Bool
unfolding byte_len
password_ok password = not (ltb (byte_len password) 12) && not (ltb 128 (byte_len password))

unfoldable pub validate_email : String → Act (Unit {0})
unfolding email_ok
validate_email email = do
  valid ← consult (λ env n. email_ok env email)
  guard (not valid) invalid_input

-- validateCredentials; `refused` is the error its caller answers with.
unfoldable pub validate_credentials : Error → String → String → Act (Unit {0})
unfolding email_ok password_ok
validate_credentials refused email password = do
  valid ← consult (λ env n. email_ok env email)
  guard (not valid || not (password_ok password)) refused

abbrev pub normalized_email : String → Act String
normalized_email email = consult (λ env n. normalize_email env.lower email)

-- A lookup that must not tell why it found nothing: any error but ErrNotFound is ErrDependency.
unfoldable pub or_denied : {A : Type 0} → Result Error A → Act A
or_denied (ok a) = pure a
or_denied (err e) = fail (if is_not_found e then invalid_credentials else dependency)
