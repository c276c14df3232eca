-- ===== src/Store/Cancel.antt =====
-- `Store.RequestCancellation` of store.go.
use stream_weave.Prelude.{ℕ, String, cat, not, none, some, [], ◌∷◌, str_eq, ◌==◌, if◌then◌else◌}
use stream_weave.Orders.Model.{Order, Time, status_text}
use stream_weave.App.{app, idempotency_conflict}
use stream_weave.Db.Tables.{IdempotencyRow, OrderRow, order_from_fields}
use stream_weave.Db.Monad.{
  Tx, statement, mapping, transaction, commit, new_uuid, pure, fail, ◌>>=◌, ◌>>◌,
}
use stream_weave.Db.Queries.{
  update_order_cancellation, get_saga_by_order_id, update_saga_phase, load_order,
}
use stream_weave.Db.Messages.{
  insert_idempotency, get_idempotency, update_idempotency_response, insert_outbox_row,
}
use stream_weave.Store.Payload.{
  event_payload_with_id, order_operation, outbox_row, cancellation_requested,
}
use stream_weave.Store.Workflow.{insert_compensation_commands}
use stream_weave.Store.Create.{retention, later, or_empty}

-- The record of the key, its resource and response not yet known.
abbrev pub open_row : String → String → String → String → Time → IdempotencyRow
open_row actor operation key hash at = record {
  actor_id = actor;
  operation = operation;
  key = key;
  request_hash = hash;
  resource_id = none;
  response_body = none;
  created_at = at;
  expires_at = later at retention;
}

-- The branch for a key that is taken.
unfoldable pub replay_cancellation : String → String → String → String → Tx Order
replay_cancellation actor operation key hash = do
  found ← mapping (statement (get_idempotency actor operation key))
  if not (str_eq found.request_hash hash)
      then fail (app idempotency_conflict)
      else do order ← load_order (or_empty found.resource_id); commit; pure order

-- cancellationRowToOrder: the items are not loaded.
abbrev pub cancellation_row_to_order : OrderRow → Order
cancellation_row_to_order row = order_from_fields row []

-- The branch for a new key.
unfoldable pub cancel_new : String → String → String → String → String → ℕ → Time → Tx Order
cancel_new actor order_id operation key reason expected at = do
  row ← mapping (statement (update_order_cancellation order_id expected at))
  saga ← mapping (statement (get_saga_by_order_id order_id))
  event ← new_uuid
  let event_id = cat "evt_" event
  mapping (
      statement (
        update_idempotency_response actor operation key (some row.id) (
          some (record {
            order_id = row.id;
            status = status_text row.status;
            created_at = row.updated_at;
          }))))
  cause ← new_uuid
  let order = cancellation_row_to_order row
  let payload =
      event_payload_with_id event_id "commerce.order.cancellation_requested.v1" order saga.id
        (cat "cmd_" cause) (order_operation order_id "cancel") reason
  outbox_id ← new_uuid
  mapping (
      statement (
        insert_outbox_row (
          outbox_row outbox_id "commerce.order.events.v1" "commerce.order.cancellation_requested.v1"
            order_id payload (("reason_code", reason) ∷ []) at)))
  mapping (statement (update_saga_phase saga.id "CANCELLATION_REQUESTED" at))
  insert_compensation_commands order saga.id event_id cancellation_requested at
  commit
  pure order

unfoldable pub request_cancellation :
    String → String → String → String → String → String → ℕ → Time → Tx Order
request_cancellation actor order_id operation key hash reason expected at = transaction (do
  inserted ← mapping (statement (insert_idempotency (open_row actor operation key hash at)))
  if inserted == 0
      then replay_cancellation actor operation key hash
      else cancel_new actor order_id operation key reason expected at)
