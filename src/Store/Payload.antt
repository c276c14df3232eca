-- ===== src/Store/Payload.antt =====
-- The messages that store.go builds, and how it puts one in the outbox.
use stream_weave.Prelude.{String, cat, Option, none, some, List, [], ◌∷◌, str_eq, if◌then◌else◌}
use stream_weave.Text.{trim_prefix, operation_suffix, has_prefix}
use stream_weave.Prelude.Int.{ℤ}
use stream_weave.Orders.Model.{Item, Order, Time}
use stream_weave.Message.{Datum, text, lines, Data, command, event, Message}
use stream_weave.Db.Tables.{OutboxRow}
use stream_weave.Db.Monad.{Tx, statement, mapping, new_uuid, now_utc, pure, ◌>>=◌}
use stream_weave.Db.Messages.{insert_outbox_row}

-- The event types that the store tests for.
pub data EventType : Type 0 where
  inventory_reserved inventory_rejected inventory_released : EventType
  payment_authorized payment_failed payment_refunded : EventType
  fulfillment_completed fulfillment_failed : EventType
  cancellation_requested : EventType

abbrev pub event_text : EventType → String
event_text inventory_reserved = "commerce.inventory.reserved.v1"
event_text inventory_rejected = "commerce.inventory.rejected.v1"
event_text inventory_released = "commerce.inventory.released.v1"
event_text payment_authorized = "commerce.payment.authorized.v1"
event_text payment_failed = "commerce.payment.failed.v1"
event_text payment_refunded = "commerce.payment.refunded.v1"
event_text fulfillment_completed = "commerce.fulfillment.completed.v1"
event_text fulfillment_failed = "commerce.fulfillment.failed.v1"
event_text cancellation_requested = "commerce.order.cancellation_requested.v1"

-- The constructor whose text is `s`.
unfoldable pub event_type : String → Option EventType
event_type s =
    if str_eq s (event_text inventory_reserved)
    then some inventory_reserved
    else if str_eq s (event_text inventory_rejected)
    then some inventory_rejected
    else if str_eq s (event_text inventory_released)
    then some inventory_released
    else if str_eq s (event_text payment_authorized)
    then some payment_authorized
    else if str_eq s (event_text payment_failed)
    then some payment_failed
    else if str_eq s (event_text payment_refunded)
    then some payment_refunded
    else if str_eq s (event_text fulfillment_completed)
    then some fulfillment_completed
    else if str_eq s (event_text fulfillment_failed)
    then some fulfillment_failed
    else if str_eq s (event_text cancellation_requested)
    then some cancellation_requested
    else none

-- topicFor
unfoldable pub topic_for : String → String
topic_for message_type =
    if has_prefix message_type "commerce.order."
    then "commerce.order.events.v1"
    else if has_prefix message_type "commerce.inventory."
    then "commerce.inventory.commands.v1"
    else if has_prefix message_type "commerce.payment."
    then "commerce.payment.commands.v1"
    else "commerce.fulfillment.commands.v1"

-- orderItemsPayload
abbrev item_pairs : List Item → List (String × ℤ)
item_pairs [] = []
item_pairs (x ∷ xs) = (x.product_id, x.quantity) ∷ item_pairs xs

unfoldable pub order_items_payload : Order → Datum
order_items_payload order = lines (item_pairs order.items)

unfoldable pub command_aggregate : String → String
command_aggregate type =
    if str_eq type "commerce.inventory.release.v1"
    then "inventory"
    else if str_eq type "commerce.payment.authorize.v1"
    then "payment"
    else if str_eq type "commerce.payment.refund.v1"
    then "payment"
    else if str_eq type "commerce.fulfillment.create.v1"
    then "fulfillment"
    else "order"

-- "ord_" + strings.TrimPrefix(id, "ord_") + ":" + suffix
unfoldable pub order_operation : String → String → String
order_operation id suffix = cat "ord_" (cat (trim_prefix id "ord_") (cat ":" suffix))

-- commandPayload
unfoldable pub command_payload : String → Order → String → String → String → Data → Tx Message
command_payload type order saga_id causation operation contents = do
  id ← new_uuid
  issued ← now_utc
  pure (record {
    kind = command;
    id = cat "cmd_" id;
    type = type;
    aggregate_type = command_aggregate type;
    aggregate_id = order.id;
    aggregate_version = order.version;
    saga_id = saga_id;
    correlation_id = order.id;
    causation_id = causation;
    at = issued;
    producer = "orders";
    schema_version = 1;
    operation_id = order_operation order.id (operation_suffix operation);
    contents = contents;
  })

abbrev order_event : String → String → Order → String → String → Time → String → Data → Message
order_event id type order saga_id causation at operation contents = record {
  kind = event;
  id = id;
  type = type;
  aggregate_type = "order";
  aggregate_id = order.id;
  aggregate_version = order.version;
  saga_id = saga_id;
  correlation_id = order.id;
  causation_id = causation;
  at = at;
  producer = "orders";
  schema_version = 1;
  operation_id = operation;
  contents = contents;
}

-- eventPayloadFor
unfoldable pub event_payload_for : String → Order → String → String → String → Data → Tx Message
event_payload_for type order saga_id causation operation contents = do
  id ← new_uuid
  at ← now_utc
  pure (order_event (cat "evt_" id) type order saga_id causation at operation contents)

-- eventPayloadWithID
unfoldable pub event_payload_with_id :
    String → String → Order → String → String → String → String → Message
event_payload_with_id id type order saga_id causation operation reason =
    order_event id type order saga_id causation order.updated_at operation (
      if str_eq type "commerce.order.cancellation_requested.v1"
      then ("order_id", text order.id) ∷ ("reason_code", text reason) ∷ []
      else ("order_id", text order.id)
        ∷ ("customer_id", text order.customer_id)
        ∷ ("currency", text order.currency)
        ∷ ("items", order_items_payload order)
        ∷ [])

-- The parameters of the InsertOutbox calls, with the columns that the statement sets itself.
abbrev pub outbox_row :
    String → String → String → String → Message → List (String × String) → Time → OutboxRow
outbox_row id topic type order_id payload headers at = record {
  id = id;
  topic = topic;
  partition_key = order_id;
  message_type = type;
  aggregate_type = "order";
  aggregate_id = order_id;
  payload = payload;
  headers = headers;
  created_at = at;
  published_at = none;
  attempts = 0;
  next_attempt_at = at;
  lease_owner = none;
  lease_until = none;
  last_error = none;
}

-- insertOutbox
unfoldable pub insert_outbox : String → String → Message → Time → Tx (Unit {0})
insert_outbox type order_id payload at = do
  id ← new_uuid
  mapping (
      statement (
        insert_outbox_row (
          outbox_row id (topic_for type) type order_id payload
            (("content-type", "application/json") ∷ []) at)))
