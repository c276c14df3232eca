-- ===== src/Gateway.antt =====
-- The gateway: apps/gateway/internal. This file is domain/gateway: the policies of routes, the actors
-- and the errors.
pub mod Policies
pub mod Service
pub mod Access
pub mod Tests
use stream_weave.Prelude.{
  ℕ, String, Bool, true, false, not, ◌&&◌, ◌||◌, Option, List, [], ◌∷◌, str_eq, if◌then◌else◌,
}
use stream_weave.Text.{trim_space}
use stream_weave.Sorting.{str_leb, sort_by, member}

pub data AuthMode : Type 0 where
  auth_none auth_bearer : AuthMode

pub record RoutePolicy : Type 0 where
  pub method : String
  pub pattern : String
  pub owner : String
  pub auth : AuthMode
  pub scopes : List String
  pub limit_class : String
  pub timeout : ℕ
  pub retry_safe_read : Bool
  pub mutation : Bool
  pub max_body_bytes : ℕ
  pub require_json : Bool

-- The loop over the required scopes, with the map `set`
unfoldable pub any_member : List String → List String → Bool
any_member scopes [] = false
any_member scopes (required ∷ rest) = member required scopes || any_member scopes rest

-- RoutePolicy.Allows
unfoldable pub allows : RoutePolicy → List String → Bool
unfolding any_member
allows p scopes = elim p.scopes [ [] ↦ true | r ∷ rs ↦ any_member scopes (r ∷ rs) ]

-- RoutePolicy.IsMutation
unfoldable pub is_mutation : RoutePolicy → Bool
is_mutation p =
    p.mutation
    || str_eq p.method "POST"
    || str_eq p.method "PUT"
    || str_eq p.method "PATCH"
    || str_eq p.method "DELETE"

unfoldable pub limit_key_class : RoutePolicy → String
unfolding trim_space
limit_key_class p = if str_eq (trim_space p.limit_class) "" then "default" else p.limit_class

pub record Actor : Type 0 where
  pub subject : String
  pub type : String
  pub roles : List String
  pub scopes : List String
  pub session_id : String

-- The loop of uniqueSorted with the map `seen`: what it appends to the result.
unfoldable pub unseen_names : List String → List String → List String
unfolding trim_space
unseen_names seen [] = []
unseen_names seen (value ∷ values) =
    let x = trim_space value in
    let kept = unseen_names (x ∷ seen) values in
    let dropped = unseen_names seen values in
    if str_eq x "" || member x seen then dropped else x ∷ kept

-- uniqueSorted
unfoldable pub unique_names : List String → List String
unfolding unseen_names sort_by
unique_names values = sort_by str_leb (unseen_names [] values)

-- Actor.Normalized
unfoldable pub normalized : Actor → Actor
unfolding unique_names trim_space
normalized a = record a {
  subject = trim_space a.subject;
  type = trim_space a.type;
  roles = unique_names a.roles;
  scopes = unique_names a.scopes;
}

pub data Error : Type 0 where
  unauthorized forbidden rate_limited dependency bad_request upstream_response : Error
  payload_too_large unsupported_media upstream_timeout upstream_unavailable : Error
