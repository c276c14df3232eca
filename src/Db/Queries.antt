-- ===== src/Db/Queries.antt =====
-- The statements on orders, items and sagas (generated/orders.sql.go), over the tables.
use stream_weave.Prelude.{
  ℕ, ◌+◌, String, Bool, true, not, ◌&&◌, ◌||◌, Option, none, some, List, [], ◌∷◌, ◌++◌, str_eq,
  ◌==◌, if◌then◌else◌, is_some, find_first, update_rows, count_rows, all_rows, Result, ok, err,
}
use stream_weave.Prelude.Int.{ℤ}
use stream_weave.Orders.Model.{
  Item, Order, Time, Status, pending, confirmed, cancel_requested, eqb_status,
}
use stream_weave.App.{Error, no_rows, unique_violation, db_failure}
use stream_weave.Db.Tables.{
  OrderRow, ItemRow, SagaRow, Database, order_check, item_check, item_of_row, order_from_fields,
}
use stream_weave.Db.Monad.{Tx, Query, statement, mapping, pure, ◌>>=◌}

abbrev pub coalesce {ℓ} : {A : Type ℓ} → Option A → Option A → Option A
coalesce (some a) o = some a
coalesce none o = o

-- `SELECT ... WHERE p` of a statement marked :one
abbrev pub one_row : {A : Type 0} → Option A → Database → Result Error (A × Database)
one_row none db = err no_rows
one_row (some a) db = ok (a, db)

abbrev pub is_order : String → OrderRow → Bool
is_order id r = str_eq r.id id

-- An UPDATE of orders that a CHECK refuses fails as a whole.
unfoldable pub update_orders : (OrderRow → Bool) → (OrderRow → OrderRow) → Query ℕ
update_orders p f db =
    if all_rows (λ r. not (p r) || order_check (f r)) db.orders
    then ok (count_rows p db.orders, record db { orders = update_rows p f db.orders })
    else err db_failure

unfoldable pub get_order : String → Query OrderRow
get_order id db = one_row (find_first (is_order id) db.orders) db

-- GetOrderItems; items are kept in the order of their line numbers, in which they are inserted.
abbrev items_of : String → List ItemRow → List Item
items_of id [] = []
items_of id (r ∷ rows) =
    let rest = items_of id rows in if str_eq r.order_id id then item_of_row r ∷ rest else rest

unfoldable pub get_order_items : String → Query (List Item)
get_order_items id db = ok (items_of id db.items, db)

-- InsertOrder
unfoldable pub insert_order : OrderRow → Query (Unit {0})
insert_order r db =
    if not (order_check r)
    then err db_failure
    else if is_some (find_first (is_order r.id) db.orders)
    then err unique_violation
    else ok (tt, record db { orders = db.orders ++ r ∷ [] })

-- The primary key (order_id, line_number) or the unique (order_id, product_id) is taken.
abbrev pub same_item : ItemRow → ItemRow → Bool
same_item r q =
    str_eq q.order_id r.order_id
    && (q.line_number == r.line_number || str_eq q.product_id r.product_id)

-- InsertOrderItem; the reference to orders(id) is checked last.
unfoldable pub insert_order_item : ItemRow → Query (Unit {0})
insert_order_item r db =
    if not (item_check r)
    then err db_failure
    else if is_some (find_first (same_item r) db.items)
    then err unique_violation
    else if not (is_some (find_first (is_order r.order_id) db.orders))
    then err db_failure
    else ok (tt, record db { items = db.items ++ r ∷ [] })

abbrev cancellable : Status → Bool
cancellable s = eqb_status s pending || eqb_status s confirmed

-- The row that UpdateOrderCancellation updates and returns.
abbrev pub is_cancellable : String → ℕ → OrderRow → Bool
is_cancellable id version r = str_eq r.id id && r.version == version && cancellable r.status

abbrev pub cancel_row : Time → OrderRow → OrderRow
cancel_row at r = record r { status = cancel_requested; version = r.version + 1; updated_at = at }

abbrev returned : Time → Option OrderRow → Database → Result Error (OrderRow × Database)
returned at none db = err no_rows
returned at (some r) db = ok (cancel_row at r, db)

abbrev after_update :
    Time → Option OrderRow → Result Error (ℕ × Database) → Result Error (OrderRow × Database)
after_update at found (err e) = err e
after_update at found (ok (n, db)) = returned at found db

unfoldable pub update_order_cancellation : String → ℕ → Time → Query OrderRow
unfolding update_orders
update_order_cancellation id version at db =
    after_update at (find_first (is_cancellable id version) db.orders)
      (update_orders (is_cancellable id version) (cancel_row at) db)

-- The arguments of UpdateOrderWorkflowState; `none` is NULL, which keeps the old value.
pub record WorkflowParams : Type 0 where
  pub id : String
  pub status : Status
  pub failure_code : Option String
  pub reservation_id : Option String
  pub payment_id : Option String
  pub shipment_id : Option String
  pub total_minor : Option ℤ
  pub updated_at : Time
  pub version : ℕ

abbrev pub at_version : String → ℕ → OrderRow → Bool
at_version id version r = str_eq r.id id && r.version == version

abbrev pub workflow_row : WorkflowParams → OrderRow → OrderRow
workflow_row p r = record r {
  status = p.status;
  failure_code = coalesce p.failure_code r.failure_code;
  reservation_id = coalesce p.reservation_id r.reservation_id;
  payment_id = coalesce p.payment_id r.payment_id;
  shipment_id = coalesce p.shipment_id r.shipment_id;
  total_minor = coalesce p.total_minor r.total_minor;
  version = r.version + 1;
  updated_at = p.updated_at;
}

unfoldable pub update_order_workflow_state : WorkflowParams → Query ℕ
unfolding update_orders
update_order_workflow_state p = update_orders (at_version p.id p.version) (workflow_row p)

unfoldable pub mark_inventory_released_row : String → Time → ℕ → Query ℕ
unfolding update_orders
mark_inventory_released_row id at version =
    update_orders (λ r. at_version id version r && not r.inventory_released)
      (λ r. record r { inventory_released = true; version = r.version + 1; updated_at = at })

unfoldable pub mark_payment_refunded_row : String → Time → ℕ → Query ℕ
unfolding update_orders
mark_payment_refunded_row id at version =
    update_orders (λ r. at_version id version r && not r.payment_refunded)
      (λ r. record r { payment_refunded = true; version = r.version + 1; updated_at = at })

-- UpdateOrderItemQuote
unfoldable pub update_order_item_quote : String → Item → Query (Unit {0})
update_order_item_quote order_id item db =
    let p = λ (r : ItemRow). str_eq r.order_id order_id && str_eq r.product_id item.product_id in
    let f = λ (r : ItemRow). record r {
      unit_price_minor = item.unit_price_minor;
      line_total_minor = item.line_total_minor;
      quote_id = item.quote_id;
      quote_version = item.quote_version;
    } in
    if all_rows (λ r. not (p r) || item_check (f r)) db.items
    then ok (tt, record db { items = update_rows p f db.items })
    else err db_failure

abbrev same_saga : SagaRow → SagaRow → Bool
same_saga r q = str_eq q.id r.id || str_eq q.order_id r.order_id

unfoldable pub insert_saga : SagaRow → Query (Unit {0})
insert_saga r db =
    if is_some (find_first (same_saga r) db.sagas)
    then err unique_violation
    else if not (is_some (find_first (is_order r.order_id) db.orders))
    then err db_failure
    else ok (tt, record db { sagas = db.sagas ++ r ∷ [] })

unfoldable pub get_saga_by_order_id : String → Query SagaRow
get_saga_by_order_id id db = one_row (find_first (λ r. str_eq r.order_id id) db.sagas) db

unfoldable pub update_saga_phase : String → String → Time → Query (Unit {0})
update_saga_phase id phase at db = ok (
  tt,
  record db {
    sagas =
        update_rows (λ r. str_eq r.id id)
          (λ r. record r { phase = phase; version = r.version + 1; updated_at = at }) db.sagas;
  },
)

-- loadOrder of store.go
unfoldable pub load_order : String → Tx Order
load_order id = do
  row ← mapping (statement (get_order id))
  items ← mapping (statement (get_order_items id))
  pure (order_from_fields row items)
