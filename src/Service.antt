-- ===== src/Service.antt =====
-- The application service of the orders (application/orders/service.go), over any store.
pub mod Access
pub mod Hidden
pub mod Calls
pub mod Tests
use stream_weave.Prelude.{
  ℕ, zero, String, Bool, true, false, not, ◌&&◌, ◌||◌, List, [], ◌∷◌, str_eq, ltb, if◌then◌else◌,
  Result, ok, err,
}
use stream_weave.Prelude.Int.{ℤ, pos, ltb_ℤ}
use stream_weave.Text.{matches_id, matches_code, matches_key, byte_len, trim_space, to_upper}
use stream_weave.Orders.Model.{
  Item, Order, Time, DomainError, valid_order_id, valid_customer_id, status_text, pending,
  confirmed, cancel_requested, cancelled, completed, failed,
}
use stream_weave.Orders.Create.{new_order}
use stream_weave.App.{
  Error, app, joined, unauthorized, forbidden, not_found, invalid_input, invalid_cursor, Actor,
  has_scope, CreateResult,
}

-- The store, the id generator and the clock that the service is given, on a state `S`, and its
-- `requestHash`: the SHA-256 of the JSON of a request, which may fail.
pub record Ports (S : Type 0) : Type 0 where
  pub create : String → Order → String → String → String → S → Result Error CreateResult × S
  pub find_by_id : String → S → Result Error Order × S
  pub list : String → String → String → ℤ → S → Result Error (List Order × String) × S
  pub request_cancellation :
      String → String → String → String → String → String → ℕ → Time → S → Result Error Order × S
  pub new_order_id : S → String × S
  pub now : S → Time × S
  pub create_hash : String → String → List Item → Result Error String
  pub cancel_hash : String → String → Result Error String

abbrev pub max_page_size : ℕ
max_page_size = 100

abbrev pub create_operation : String
create_operation = "orders.create"

abbrev pub cancel_operation : String
cancel_operation = "orders.cancel"

pub record CreateInput : Type 0 where
  pub actor : Actor
  pub customer_id : String
  pub currency : String
  pub items : List Item
  pub idempotency_key : String

pub record CancelInput : Type 0 where
  pub actor : Actor
  pub order_id : String
  pub reason : String
  pub idempotency_key : String

pub record ListInput : Type 0 where
  pub actor : Actor
  pub customer_id : String
  pub status : String
  pub cursor : String
  pub limit : ℤ

-- authorizeActor: whether the actor is let in.
unfoldable pub authorize_actor : Actor → Bool
authorize_actor a = str_eq a.type "human" && matches_id "usr_" a.subject

-- The scope tests of the handlers: `any` and `self` are the scopes of the operation.
unfoldable pub owner_denied : Actor → String → String → String → Bool
owner_denied a owner self any =
    str_eq owner a.subject && not (has_scope a self) && not (has_scope a any)

unfoldable pub stranger_denied : Actor → String → String → Bool
stranger_denied a owner any = not (str_eq owner a.subject) && not (has_scope a any)

unfoldable pub valid_status : String → Bool
valid_status s =
    str_eq s (status_text pending)
    || str_eq s (status_text confirmed)
    || str_eq s (status_text cancel_requested)
    || str_eq s (status_text cancelled)
    || str_eq s (status_text completed)
    || str_eq s (status_text failed)

-- reason, or its default
unfoldable pub or_default : String → String
or_default reason = if str_eq reason "" then "CUSTOMER_REQUESTED" else reason

unfoldable pub list_target : ListInput → String
list_target i = if str_eq i.customer_id "" then i.actor.subject else i.customer_id

module _ {S : Type 0} (p : Ports S) where
  -- The calls after `domain.NewOrder` and `requestHash`.
  unfoldable pub create_hashed :
      CreateInput → Order → Result Error String → S → Result Error CreateResult × S
  create_hashed i order (err e) s = (err e, s)
  create_hashed i order (ok hash) s =
      p.create i.actor.subject order create_operation i.idempotency_key hash s

  unfoldable pub create_order :
      CreateInput → Result DomainError Order → S → Result Error CreateResult × S
  create_order i (err e) s = (err (joined invalid_input e), s)
  create_order i (ok order) s =
      create_hashed i order
        (p.create_hash i.customer_id (to_upper (trim_space i.currency)) order.items) s

  unfoldable pub create_authorized : CreateInput → S → Result Error CreateResult × S
  create_authorized i s =
      let (now, s') = p.now s in
      let (id, s'') = p.new_order_id s' in
      create_order i (new_order id i.customer_id i.currency i.items (record now { utc = true })) s''

  -- Create
  unfoldable pub create : CreateInput → S → Result Error CreateResult × S
  create i s =
      if not (authorize_actor i.actor)
      then (err (app unauthorized), s)
      else if not (matches_key i.idempotency_key)
      then (err (app invalid_input), s)
      else if stranger_denied i.actor i.customer_id "orders:write:any"
      then (err (app forbidden), s)
      else if owner_denied i.actor i.customer_id "orders:write:self" "orders:write:any"
      then (err (app forbidden), s)
      else create_authorized i s

  unfoldable pub show : Actor → Result Error Order × S → Result Error Order × S
  show a (err e, s) = (err e, s)
  show a (ok order, s) =
      if stranger_denied a order.customer_id "orders:read:any"
      then (err (app not_found), s)
      else if owner_denied a order.customer_id "orders:read:self" "orders:read:any"
      then (err (app forbidden), s)
      else (ok order, s)

  -- Get
  unfoldable pub get : Actor → String → S → Result Error Order × S
  get a id s =
      if not (authorize_actor a)
      then (err (app unauthorized), s)
      else if not (valid_order_id id)
      then (err (app invalid_input), s)
      else show a (p.find_by_id id s)

  -- List
  unfoldable pub list : ListInput → S → Result Error (List Order × String) × S
  list i s =
      if not (authorize_actor i.actor)
      then (err (app unauthorized), s)
      else if ltb_ℤ i.limit (pos 1) || ltb_ℤ (pos max_page_size) i.limit
      then (err (app invalid_input), s)
      else if ltb 256 (byte_len i.cursor)
      then (err (app invalid_cursor), s)
      else if not (str_eq i.status "") && not (valid_status i.status)
      then (err (app invalid_input), s)
      else if stranger_denied i.actor (list_target i) "orders:read:any"
      then (err (app forbidden), s)
      else if owner_denied i.actor (list_target i) "orders:read:self" "orders:read:any"
      then (err (app forbidden), s)
      else if not (valid_customer_id (list_target i))
      then (err (app invalid_input), s)
      else p.list (list_target i) i.status i.cursor i.limit s

  unfoldable pub cancel_hashed :
      CancelInput → Order → String → Result Error String → S → Result Error Order × S
  cancel_hashed i order reason (err e) s = (err e, s)
  cancel_hashed i order reason (ok hash) s =
      let (now, s') = p.now s in
      p.request_cancellation i.actor.subject order.id cancel_operation i.idempotency_key hash reason
        order.version (record now { utc = true }) s'

  unfoldable pub cancel_reasoned : CancelInput → Order → String → S → Result Error Order × S
  cancel_reasoned i order reason s =
      if not (matches_code 31 reason)
      then (err (app invalid_input), s)
      else cancel_hashed i order reason (p.cancel_hash i.order_id reason) s

  unfoldable pub cancel_found : CancelInput → Result Error Order × S → Result Error Order × S
  cancel_found i (err e, s) = (err e, s)
  cancel_found i (ok order, s) =
      if stranger_denied i.actor order.customer_id "orders:cancel:any"
      then (err (app not_found), s)
      else if owner_denied i.actor order.customer_id "orders:cancel:self" "orders:cancel:any"
      then (err (app forbidden), s)
      else cancel_reasoned i order (or_default (trim_space i.reason)) s

  -- Cancel
  unfoldable pub cancel : CancelInput → S → Result Error Order × S
  cancel i s =
      if not (authorize_actor i.actor)
      then (err (app unauthorized), s)
      else if not (matches_key i.idempotency_key)
      then (err (app invalid_input), s)
      else if not (valid_order_id i.order_id)
      then (err (app invalid_input), s)
      else cancel_found i (p.find_by_id i.order_id s)
