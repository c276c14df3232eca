-- ===== src/Gateway/Service.antt =====
-- application/gateway/service.go: Authorize and Forward, over any verifier, limiter, token provider
-- and upstream. The metrics do not change what they answer, and are left out.
use stream_weave.Prelude.{
  String, cat, Bool, true, false, not, ◌&&◌, Option, none, some, List, [], ◌∷◌, str_eq,
  if◌then◌else◌, Result, ok, err,
}
use stream_weave.Prelude.Int.{ℤ, pos, ltb_ℤ, eqb_ℤ}
use stream_weave.Text.{to_upper, fields}
use stream_weave.Gateway.{
  RoutePolicy, AuthMode, auth_none, auth_bearer, Actor, allows, limit_key_class, normalized, Error,
  unauthorized, forbidden, rate_limited, dependency, upstream_response,
}

pub record ForwardRequest : Type 0 where
  pub method : String
  pub path : String
  pub route : String
  pub raw_query : String
  pub body : String
  pub content_type : String
  pub request_id : String
  pub correlation_id : String
  pub idempotency_key : String

pub record Response : Type 0 where
  pub status_code : ℤ
  pub header : List (String × List String)
  pub body : String

-- The ports, over a state `S` of what is outside; `none` is an error, or the nil response. `refresh`
-- is there if the tokens are a RefreshableServiceTokenProvider.
pub record Ports (S : Type 0) : Type 0 where
  pub verify : String → S → Option Actor × S
  pub allow : String → String → S → Option Bool × S
  pub token : S → Option String × S
  pub refresh : Option (S → Option String × S)
  pub forward :
      String → String → Option Actor → ForwardRequest → S → Result Error (Option Response) × S

-- The parts of a request that Authorize reads: the values of the Authorization header, and the method.
pub record Request : Type 0 where
  pub authorization : List String
  pub method : String

abbrev two_fields : List String → Option String
two_fields (scheme ∷ token ∷ []) = if str_eq (to_upper scheme) "BEARER" then some token else none
two_fields [] = none
two_fields (x ∷ []) = none
two_fields (x ∷ y ∷ z ∷ rest) = none

-- bearerToken; a field is never empty. EqualFold with "bearer" is a comparison of upper cases.
unfoldable pub bearer_token : String → Option String
unfolding fields to_upper
bearer_token header = two_fields (fields header)

-- The one value of the Authorization header
unfoldable pub header_token : List String → Option String
unfolding bearer_token
header_token (header ∷ []) = bearer_token header
header_token [] = none
header_token (x ∷ y ∷ rest) = none

abbrev pub limit_key : Request → RoutePolicy → String → String
limit_key request policy source =
    cat (limit_key_class policy) (cat "|anonymous|" (cat source (cat "|" request.method)))

abbrev pub limit_key_with_actor : RoutePolicy → String → Actor → String
limit_key_with_actor policy source actor =
    cat (limit_key_class policy)
      (cat "|" (cat actor.subject (cat "|" (cat source (cat "|" policy.method)))))

module _ {S : Type 0} (ports : Ports S) where
  -- What the limiter answers.
  abbrev pub limited : {A : Type 0} → A → Option Bool × S → Result Error A × S
  limited a (none, s) = (err dependency, s)
  limited a (some false, s) = (err rate_limited, s)
  limited a (some true, s) = (ok a, s)

  abbrev pub admissible : RoutePolicy → Actor → Bool
  admissible policy actor =
      not (str_eq actor.subject "") && str_eq actor.type "human" && allows policy actor.scopes

  abbrev pub admit : RoutePolicy → String → String → Actor → S → Result Error (Actor × String) × S
  admit policy source raw actor s =
      if not (admissible policy actor)
      then (err forbidden, s)
      else limited (actor, raw)
          (ports.allow (limit_key_with_actor policy source actor) (limit_key_class policy) s)

  abbrev pub verified :
      RoutePolicy → String → String → Option Actor × S → Result Error (Actor × String) × S
  verified policy source raw (none, s) = (err unauthorized, s)
  verified policy source raw (some actor, s) = admit policy source raw (normalized actor) s

  abbrev pub with_token :
      RoutePolicy → String → Option String → S → Result Error (Actor × String) × S
  with_token policy source none s = (err unauthorized, s)
  with_token policy source (some raw) s = verified policy source raw (ports.verify raw s)

  abbrev pub nobody : Actor
  nobody = record { subject = ""; type = ""; roles = []; scopes = []; session_id = "" }

  abbrev pub authorize_by :
      AuthMode → Request → RoutePolicy → String → S → Result Error (Actor × String) × S
  authorize_by auth_none request policy source s =
      limited (nobody, "")
        (ports.allow (limit_key request policy source) (limit_key_class policy) s)
  authorize_by auth_bearer request policy source s =
      with_token policy source (header_token request.authorization) s

  -- Authorize, for a request that is not nil
  unfoldable pub authorize : Request → RoutePolicy → String → S → Result Error (Actor × String) × S
  unfolding header_token limit_key_class normalized allows
  authorize request policy source s = authorize_by policy.auth request policy source s

  abbrev pub valid_status : ℤ → Bool
  valid_status n = not (ltb_ℤ n (pos 100)) && not (ltb_ℤ (pos 599) n)

  -- The tests on a response that Forward makes twice
  abbrev pub checked : Result Error (Option Response) × S → Result Error Response × S
  checked (err e, s) = (err e, s)
  checked (ok none, s) = (err upstream_response, s)
  checked (ok (some r), s) =
      if valid_status r.status_code then (ok r, s) else (err upstream_response, s)

  abbrev pub with_fresh :
      String → Option Actor → ForwardRequest → Option String × S → Result Error Response × S
  with_fresh owner actor request (none, s) = (err dependency, s)
  with_fresh owner actor request (some token, s) =
      checked (ports.forward owner token actor request s)

  -- The second attempt, where the tokens can be refreshed
  abbrev pub retry :
      String
      → Option Actor
      → ForwardRequest
      → Response
      → Option (S → Option String × S)
      → S
      → Result Error Response × S
  retry owner actor request first none s = (ok first, s)
  retry owner actor request first (some refresh) s = with_fresh owner actor request (refresh s)

  abbrev pub first_answer :
      String
      → Option Actor
      → ForwardRequest
      → RoutePolicy
      → Result Error Response × S
      → Result Error Response × S
  first_answer owner actor request policy (err e, s) = (err e, s)
  first_answer owner actor request policy (ok r, s) =
      if eqb_ℤ r.status_code (pos 401) && policy.retry_safe_read
      then retry owner actor request r ports.refresh s
      else (ok r, s)

  abbrev pub with_service_token :
      String
      → Option Actor
      → ForwardRequest
      → RoutePolicy
      → Option String × S
      → Result Error Response × S
  with_service_token owner actor request policy (none, s) = (err dependency, s)
  with_service_token owner actor request policy (some token, s) =
      first_answer owner actor request policy (checked (ports.forward owner token actor request s))

  unfoldable pub forward :
      String → Option Actor → ForwardRequest → RoutePolicy → S → Result Error Response × S
  forward owner actor request policy s =
      with_service_token owner actor request policy (ports.token s)
