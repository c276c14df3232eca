-- ===== src/Gateway/Tests.antt =====
-- The theorems on the gateway over a small outside: a number that counts the calls of the upstream.
use stream_weave.Prelude.{
  ℕ, suc, ◌≡◌, ◌↔◌, refl, inl, inr, true, false, none, some, [], ◌∷◌, str_eq, if◌then◌else◌, ok,
}
use stream_weave.Prelude.Int.{pos}
use stream_weave.Gateway.{RoutePolicy, auth_none, auth_bearer, Actor, is_mutation}
use stream_weave.Gateway.Policies.{default_policies}
use stream_weave.Gateway.Service.{ForwardRequest, Ports, Request, authorize, forward}
use stream_weave.Gateway.Access.{Granted, authorize_iff, mutation_once}

abbrev reader : Actor
reader = record {
  subject = "usr_1";
  type = "human";
  roles = [];
  scopes = "orders:read:self" ∷ [];
  session_id = "s1";
}

abbrev ports : Ports ℕ
ports = record {
  verify = λ raw s. (if str_eq raw "token" then some reader else none, s);
  allow = λ key class s. (some true, s);
  token = λ s. (some "service", s);
  refresh = some (λ s. (some "fresh", s));
  forward = λ owner token actor request s.
      (ok (some (record { status_code = pos 401; header = []; body = "" })), suc s);
}

abbrev reading : RoutePolicy
reading = record {
  method = "GET";
  pattern = "/v1/orders";
  owner = "orders";
  auth = auth_bearer;
  scopes = "orders:read:self" ∷ "orders:read:any" ∷ [];
  limit_class = "order-read";
  timeout = 5_000_000_000;
  retry_safe_read = true;
  mutation = false;
  max_body_bytes = 0;
  require_json = false;
}

abbrev registration : RoutePolicy
registration = record {
  method = "POST";
  pattern = "/.well-known/register";
  owner = "identity";
  auth = auth_none;
  scopes = [];
  limit_class = "demo-registration";
  timeout = 5_000_000_000;
  retry_safe_read = false;
  mutation = false;
  max_body_bytes = 1_048_576;
  require_json = true;
}

abbrev question : Request
question = record { authorization = "Bearer token" ∷ []; method = "GET" }

abbrev message : ForwardRequest
message = record {
  method = "POST";
  path = "/.well-known/register";
  route = "/.well-known/register";
  raw_query = "";
  body = "{}";
  content_type = "application/json";
  request_id = "r1";
  correlation_id = "c1";
  idempotency_key = "";
}

authorize_iff_example :
    ((authorize ports question reading "10.0.0.1" 0).0 ≡ ok (reader, "token"))
    ↔ Granted ports question reading "10.0.0.1" 0 reader "token"
authorize_iff_example = authorize_iff ports question reading "10.0.0.1" 0 reader "token" refl

mutation_once_example : (forward ports "identity" none message registration 0).1 ≡ 1
unfolding default_policies is_mutation
mutation_once_example =
    mutation_once ports "identity" none message registration 0
      (inr (inr (inr (inr (inr (inl refl)))))) refl
