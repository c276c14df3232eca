-- ===== src/Store/Create.antt =====
-- `Store.Create` of store.go.
use stream_weave.Prelude.{
  ℕ, ◌+◌, ◌*◌, String, cat, true, false, not, Option, none, some, List, [], ◌∷◌, str_eq, ◌==◌,
  if◌then◌else◌,
}
use stream_weave.Orders.Model.{Item, Order, Time, status_text}
use stream_weave.App.{app, idempotency_conflict, CreateResult}
use stream_weave.Message.{text}
use stream_weave.Db.Tables.{Accepted, IdempotencyRow, OrderRow}
use stream_weave.Db.Monad.{
  Tx, statement, mapping, transaction, commit, new_uuid, pure, fail, skip, ◌>>=◌, ◌>>◌,
}
use stream_weave.Db.Queries.{insert_order, insert_order_item, insert_saga, load_order}
use stream_weave.Db.Messages.{insert_idempotency, get_idempotency, insert_outbox_row}
use stream_weave.Store.Payload.{
  command_payload, event_payload_with_id, order_items_payload, order_operation, outbox_row,
  insert_outbox,
}

-- 48 * time.Hour
abbrev pub retention : ℕ
retention = 48 * 3600 * 1_000_000_000

abbrev pub later : Time → ℕ → Time
later t d = record t { nanos = t.nanos + d }

abbrev pub idempotency_row : String → Order → String → String → String → IdempotencyRow
idempotency_row actor order operation key hash = record {
  actor_id = actor;
  operation = operation;
  key = key;
  request_hash = hash;
  resource_id = some order.id;
  response_body = some (record {
    order_id = order.id;
    status = status_text order.status;
    created_at = order.created_at;
  });
  created_at = order.created_at;
  expires_at = later order.created_at retention;
}

abbrev pub order_row : Order → OrderRow
order_row order = record {
  id = order.id;
  customer_id = order.customer_id;
  currency = order.currency;
  total_minor = none;
  status = order.status;
  failure_code = none;
  reservation_id = none;
  payment_id = none;
  shipment_id = none;
  version = order.version;
  created_at = order.created_at;
  updated_at = order.created_at;
  inventory_released = false;
  payment_refunded = false;
}

-- The loop over the items; `index` counts from 0.
unfoldable pub insert_items : String → ℕ → List Item → Tx (Unit {0})
insert_items order_id index [] = skip
insert_items order_id index (item ∷ rest) = do
  mapping (
      statement (
        insert_order_item (record {
          order_id = order_id;
          line_number = index + 1;
          product_id = item.product_id;
          quantity = item.quantity;
          unit_price_minor = none;
          line_total_minor = none;
          quote_id = none;
          quote_version = none;
        })))
  insert_items order_id (index + 1) rest

-- `record.ResourceID.String`
abbrev pub or_empty : Option String → String
or_empty none = ""
or_empty (some s) = s

abbrev pub accepted_or : Order → Option Accepted → Accepted
accepted_or order none = record {
  order_id = order.id;
  status = status_text order.status;
  created_at = order.created_at;
}
accepted_or order (some a) = a

-- The branch for a key that is taken.
unfoldable pub replay_create : String → String → String → String → Tx CreateResult
replay_create actor operation key hash = do
  found ← mapping (statement (get_idempotency actor operation key))
  if not (str_eq found.request_hash hash) then fail (app idempotency_conflict) else do
    replayed ← mapping (load_order (or_empty found.resource_id))
    commit
    pure (record {
      order = replayed;
      replayed = true;
      response_status = (accepted_or replayed found.response_body).status;
      response_at = (accepted_or replayed found.response_body).created_at;
    })

-- The branch for a new key: the order, its items, its saga and two messages.
unfoldable pub create_new : Order → Tx CreateResult
create_new order = do
  mapping (statement (insert_order (order_row order)))
  insert_items order.id 0 order.items
  saga ← new_uuid
  let saga_id = cat "sag_" saga
  mapping (
      statement (
        insert_saga (record {
          id = saga_id;
          order_id = order.id;
          phase = "INVENTORY_RESERVATION_PENDING";
          version = 1;
          updated_at = order.created_at;
        })))
  event ← new_uuid
  let event_id = cat "evt_" event
  cause ← new_uuid
  let payload =
      event_payload_with_id event_id "commerce.order.created.v1" order saga_id (cat "cmd_" cause)
        (order_operation order.id "create") ""
  outbox_id ← new_uuid
  mapping (
      statement (
        insert_outbox_row (
          outbox_row outbox_id "commerce.order.events.v1" "commerce.order.created.v1" order.id
            payload (("content-type", "application/json") ∷ []) order.created_at)))
  reserve ←
      command_payload "commerce.inventory.reserve.v1" order saga_id event_id
        (cat order.id ":reserve")
        (("order_id", text order.id)
          ∷ ("customer_id", text order.customer_id)
          ∷ ("currency", text order.currency)
          ∷ ("items", order_items_payload order)
          ∷ [])
  insert_outbox "commerce.inventory.reserve.v1" order.id reserve order.created_at
  commit
  pure (record {
    order = order;
    replayed = false;
    response_status = status_text order.status;
    response_at = order.created_at;
  })

unfoldable pub create : String → Order → String → String → String → Tx CreateResult
create actor order operation key hash = transaction (do
  inserted ←
      mapping (statement (insert_idempotency (idempotency_row actor order operation key hash)))
  if inserted == 0 then replay_create actor operation key hash else create_new order)
