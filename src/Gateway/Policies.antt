-- ===== src/Gateway/Policies.antt =====
-- DefaultPolicies of domain/gateway/policy.go.
use stream_weave.Prelude.{ℕ, ◌*◌, String, Bool, true, false, List, [], ◌∷◌}
use stream_weave.Gateway.{AuthMode, auth_none, auth_bearer, RoutePolicy}

-- A policy, its timeout given in seconds
abbrev route :
    String
    → String
    → String
    → AuthMode
    → List String
    → String
    → ℕ
    → Bool
    → Bool
    → ℕ
    → Bool
    → RoutePolicy
route method pattern owner auth scopes class seconds retry mutation bytes json = record {
  method = method;
  pattern = pattern;
  owner = owner;
  auth = auth;
  scopes = scopes;
  limit_class = class;
  timeout = seconds * 1_000_000_000;
  retry_safe_read = retry;
  mutation = mutation;
  max_body_bytes = bytes;
  require_json = json;
}

unfoldable pub default_policies : List RoutePolicy
default_policies =
    route "GET" "/health/live" "gateway" auth_none [] "health" 1 false false 0 false
    ∷ route "GET" "/health/ready" "gateway" auth_none [] "health" 2 false false 0 false
    ∷ route "GET" "/metrics" "gateway" auth_none [] "metrics" 2 false false 0 false
    ∷ route "GET" "/v1/docs" "gateway" auth_none [] "health" 2 false false 0 false
    ∷ route "GET" "/v1/openapi.yaml" "gateway" auth_none [] "health" 2 false false 0 false
    ∷ route "POST" "/.well-known/register" "identity" auth_none [] "demo-registration" 5 false false
        1048576 true
    ∷ route "POST" "/v1/auth/login" "identity" auth_none [] "auth-write" 5 false true 1048576 true
    ∷ route "POST" "/v1/auth/refresh" "identity" auth_none [] "auth-write" 5 false true 1048576 true
    ∷ route "POST" "/v1/auth/password-reset/request" "identity" auth_none [] "auth-write" 5 false
        true 1048576 true
    ∷ route "POST" "/v1/auth/password-reset/confirm" "identity" auth_none [] "auth-write" 5 false
        true 1048576 true
    ∷ route "POST" "/v1/auth/email-verification/confirm" "identity" auth_none [] "auth-write" 5
        false true 1048576 true
    ∷ route "POST" "/v1/auth/logout" "identity" auth_bearer ("identity:sessions:write" ∷ [])
        "auth-write" 5 false true 1048576 false
    ∷ route "POST" "/v1/auth/logout-all" "identity" auth_bearer ("identity:sessions:write" ∷ [])
        "auth-write" 5 false true 1048576 false
    ∷ route "GET" "/v1/auth/sessions" "identity" auth_bearer ("identity:sessions:read" ∷ [])
        "authenticated-read" 5 true false 0 false
    ∷ route "POST" "/v1/orders" "orders" auth_bearer ("orders:write:self" ∷ "orders:write:any" ∷ [])
        "order-write" 10 false true 2097152 true
    ∷ route "GET" "/v1/orders" "orders" auth_bearer ("orders:read:self" ∷ "orders:read:any" ∷ [])
        "order-read" 5 true false 0 false
    ∷ route "GET" "/v1/orders/{order_id}" "orders" auth_bearer
        ("orders:read:self" ∷ "orders:read:any" ∷ []) "order-read" 5 true false 0 false
    ∷ route "POST" "/v1/orders/{order_id}/cancel" "orders" auth_bearer
        ("orders:cancel:self" ∷ "orders:cancel:any" ∷ []) "order-write" 10 false true 1048576 false
    ∷ []
