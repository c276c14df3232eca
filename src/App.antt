-- ===== src/App.antt =====
-- errors.go and ports.go of the orders application, and the errors that a database call returns.
use stream_weave.Prelude.{String, Bool, true, false, List, [], ◌∷◌, str_eq, if◌then◌else◌}
use stream_weave.Orders.Model.{Order, Time, DomainError}

pub data AppError : Type 0 where
  invalid_dependency unauthorized forbidden not_found invalid_input : AppError
  invalid_cursor idempotency_conflict conflict dependency : AppError

-- A Go `error` of the orders service. `joined` is errors.Join of an application and a domain error.
-- The last three are what database/sql hands up: sql.ErrNoRows, a PgError with the code 23505, and
-- anything else.
pub data Error : Type 0 where
  app : AppError → Error
  domain : DomainError → Error
  joined : AppError → DomainError → Error
  no_rows : Error
  unique_violation : Error
  db_failure : Error

-- mapError of store.go on an error that is not nil
unfoldable pub map_error : Error → Error
map_error no_rows = app not_found
map_error unique_violation = app conflict
map_error _ = app dependency

pub record Actor : Type 0 where
  pub subject : String
  pub type : String
  pub scopes : List String

unfoldable pub has_scope_in : List String → String → Bool
has_scope_in [] scope = false
has_scope_in (candidate ∷ rest) scope =
    if str_eq candidate scope then true else has_scope_in rest scope

unfoldable pub has_scope : Actor → String → Bool
unfolding has_scope_in
has_scope a scope = has_scope_in a.scopes scope

pub record CreateResult : Type 0 where
  pub order : Order
  pub replayed : Bool
  pub response_status : String
  pub response_at : Time
