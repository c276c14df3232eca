-- ===== src/Store/Facts.antt =====
-- `ProcessFact` of store.go and the handlers of the facts other than a reservation.
use stream_weave.Prelude.{
  String, cat, Bool, true, false, not, ◌&&◌, ◌||◌, Option, none, some, [], ◌∷◌, str_eq, ◌==◌,
  if◌then◌else◌,
}
use stream_weave.Prelude.Int.{pos, eqb_ℤ}
use stream_weave.Orders.Model.{
  Order, Time, cancel_requested, completed, failed, eqb_status, is_terminal, valid_order_id,
  valid_shipment_id,
}
use stream_weave.App.{app, conflict}
use stream_weave.Message.{text, datum, raw_string, Fact}
use stream_weave.Db.Tables.{InboxRow, InboxStatus, received, processed, dlq}
use stream_weave.Db.Monad.{
  Tx, statement, mapping, transaction, commit, now_utc, pure, fail, skip, ◌>>=◌, ◌>>◌,
}
use stream_weave.Db.Queries.{load_order}
use stream_weave.Db.Messages.{insert_inbox, get_inbox, mark_inbox_processed}
use stream_weave.Store.Payload.{
  EventType, event_type, inventory_reserved, inventory_rejected, inventory_released,
  payment_authorized, payment_failed, payment_refunded, fulfillment_completed, fulfillment_failed,
  event_payload_for, insert_outbox,
}
use stream_weave.Store.Workflow.{
  null_string, no_change, update_workflow, bumped, mark_inventory_released, mark_payment_refunded,
  insert_compensation_commands, maybe_complete_cancellation,
}
use stream_weave.Store.Quotes.{QuoteVerifier}
use stream_weave.Store.Payments.{apply_payment_authorized}
use stream_weave.Store.Reserve.{apply_inventory_reserved}

-- validFactIdentity
unfoldable pub valid_fact_identity : Option EventType → Fact → Bool
valid_fact_identity (some inventory_reserved) f =
    str_eq f.aggregate_type "inventory" && str_eq f.producer "inventory"
valid_fact_identity (some inventory_rejected) f =
    str_eq f.aggregate_type "inventory" && str_eq f.producer "inventory"
valid_fact_identity (some inventory_released) f =
    str_eq f.aggregate_type "inventory" && str_eq f.producer "inventory"
valid_fact_identity (some payment_authorized) f =
    str_eq f.aggregate_type "payment" && str_eq f.producer "payments"
valid_fact_identity (some payment_failed) f =
    str_eq f.aggregate_type "payment" && str_eq f.producer "payments"
valid_fact_identity (some payment_refunded) f =
    str_eq f.aggregate_type "payment" && str_eq f.producer "payments"
valid_fact_identity (some fulfillment_completed) f =
    str_eq f.aggregate_type "fulfillment" && str_eq f.producer "fulfillment"
valid_fact_identity (some fulfillment_failed) f =
    str_eq f.aggregate_type "fulfillment" && str_eq f.producer "fulfillment"
valid_fact_identity _ f = false

abbrev refers_to : Option String → String → Bool
refers_to none s = false
refers_to (some id) s = str_eq s id

unfoldable pub apply_inventory_released : Order → Fact → Time → Tx (Unit {0})
apply_inventory_released order fact now =
    if not (refers_to order.reservation_id (raw_string (datum fact.contents "reservation_id")))
    then fail (app conflict)
    else if is_terminal order.status && order.inventory_released
    then skip
    else do
      order' ← mark_inventory_released order now
      maybe_complete_cancellation order' fact.saga_id fact.event_id now

unfoldable pub apply_payment_refunded : Order → Fact → Time → Tx (Unit {0})
apply_payment_refunded order fact now =
    if not (refers_to order.payment_id (raw_string (datum fact.contents "payment_id")))
    then fail (app conflict)
    else if is_terminal order.status && order.payment_refunded
    then skip
    else do
      order' ← mark_payment_refunded order now
      maybe_complete_cancellation order' fact.saga_id fact.event_id now

-- A rejection while a cancellation runs: the resource that never came counts as given back.
abbrev pub note_rejection : EventType → Order → Time → Tx Order
note_rejection inventory_rejected order now = mark_inventory_released order now
note_rejection payment_failed order now = mark_payment_refunded order now
note_rejection _ order now = pure order

unfoldable pub reject_cancelling : EventType → Order → Fact → Time → Tx (Unit {0})
reject_cancelling type order fact now = do
  order' ← note_rejection type order now
  insert_compensation_commands order' fact.saga_id fact.event_id type now
  maybe_complete_cancellation order' fact.saga_id fact.event_id now

abbrev or_rejected : String → String
or_rejected reason = if str_eq reason "" then "DOWNSTREAM_REJECTED" else reason

unfoldable pub fail_order : EventType → Order → Fact → Time → Tx (Unit {0})
fail_order type order fact now = do
  let reason = or_rejected (raw_string (datum fact.contents "reason_code"))
  update_workflow order failed (record no_change { failure = reason }) order.total_minor now
  event ←
      event_payload_for "commerce.order.failed.v1" (bumped order) fact.saga_id fact.event_id
        (cat order.id ":failed")
        (("order_id", text order.id)
          ∷ ("reason_code", text reason)
          ∷ ("failure_class", text "dependency")
          ∷ [])
  insert_outbox "commerce.order.failed.v1" order.id event now
  insert_compensation_commands (bumped order) fact.saga_id fact.event_id type now

-- The case of the three rejections.
unfoldable pub apply_rejection : EventType → Order → Fact → Time → Tx (Unit {0})
apply_rejection type order fact now =
    if eqb_status order.status cancel_requested
    then reject_cancelling type order fact now
    else if is_terminal order.status
    then skip
    else fail_order type order fact now

unfoldable pub complete_order : Order → String → Fact → Time → Tx (Unit {0})
complete_order order shipment fact now = do
  update_workflow order completed (record no_change { shipment = shipment }) order.total_minor now
  event ←
      event_payload_for "commerce.order.completed.v1" (bumped order) fact.saga_id fact.event_id
        (cat order.id ":complete")
        (("order_id", text order.id) ∷ ("shipment_id", text shipment) ∷ [])
  insert_outbox "commerce.order.completed.v1" order.id event now

unfoldable pub apply_completed : Order → Fact → Time → Tx (Unit {0})
apply_completed order fact now =
    let shipment = raw_string (datum fact.contents "shipment_id") in
    if is_terminal order.status
    then skip
    else if not (valid_shipment_id shipment)
    then fail (app conflict)
    else complete_order order shipment fact now

-- The switch on the event type.
unfoldable pub apply_fact :
    Option QuoteVerifier → Option EventType → Order → Fact → Time → Tx (Unit {0})
apply_fact v (some inventory_reserved) order fact now = apply_inventory_reserved v order fact now
apply_fact v (some inventory_released) order fact now = apply_inventory_released order fact now
apply_fact v (some payment_refunded) order fact now = apply_payment_refunded order fact now
apply_fact v (some inventory_rejected) order fact now =
    apply_rejection inventory_rejected order fact now
apply_fact v (some payment_failed) order fact now = apply_rejection payment_failed order fact now
apply_fact v (some fulfillment_failed) order fact now =
    apply_rejection fulfillment_failed order fact now
apply_fact v (some payment_authorized) order fact now = apply_payment_authorized order fact now
apply_fact v (some fulfillment_completed) order fact now = apply_completed order fact now
apply_fact v _ order fact now = fail (app conflict)

-- The tests on the envelope before a transaction is begun.
unfoldable pub envelope_ok : Fact → Bool
envelope_ok f =
    not (str_eq f.event_id "")
    && not (str_eq f.aggregate_id "")
    && not (str_eq f.event_type "")
    && not (str_eq f.aggregate_type "")
    && not (str_eq f.producer "")
    && eqb_ℤ f.schema_version (pos 1)

unfoldable pub identity_ok : Fact → Bool
identity_ok f =
    let order_id = raw_string (datum f.contents "order_id") in
    valid_order_id order_id
    && str_eq f.correlation_id order_id
    && valid_fact_identity (event_type f.event_type) f

abbrev pub received_row : String → Fact → String → Time → InboxRow
received_row group f hash at = record {
  consumer_group = group;
  message_id = f.event_id;
  message_type = f.event_type;
  payload_hash = hash;
  received_at = at;
  processed_at = none;
  status = received;
  attempts = 1;
  next_attempt_at = none;
  last_error = none;
  correlation_id = f.correlation_id;
  causation_id = null_string f.causation_id;
}

-- The fact is applied, and its inbox row is marked, in one transaction.
unfoldable pub handle_fact : Option QuoteVerifier → String → Fact → Tx (Unit {0})
handle_fact v group f = do
  order ← load_order (raw_string (datum f.contents "order_id"))
  now ← now_utc
  apply_fact v (event_type f.event_type) order f now
  mapping (statement (mark_inbox_processed group f.event_id now))
  commit

-- The statuses of a message that is done with.
abbrev pub is_settled : InboxStatus → Bool
is_settled processed = true
is_settled dlq = true
is_settled _ = false

-- A message that is known to the inbox; `return nil` leaves by the deferred Rollback.
unfoldable pub handle_known : Option QuoteVerifier → String → Fact → Tx (Unit {0})
handle_known v group f = do
  found ← mapping (statement (get_inbox group f.event_id))
  if is_settled found.status then skip else handle_fact v group f

unfoldable pub fact_transaction : Option QuoteVerifier → String → Fact → String → Tx (Unit {0})
fact_transaction v group f hash = transaction (do
  at ← now_utc
  inserted ← mapping (statement (insert_inbox (received_row group f hash at)))
  if inserted == 0 then handle_known v group f else handle_fact v group f)

unfoldable pub process_decoded :
    Option QuoteVerifier → String → Option Fact → String → Tx (Unit {0})
process_decoded v group none hash = fail (app conflict)
process_decoded v group (some f) hash =
    if not (envelope_ok f) || not (identity_ok f)
    then fail (app conflict)
    else fact_transaction v group f hash

-- ProcessFact
unfoldable pub process_fact : Option QuoteVerifier → String → String → Tx (Unit {0})
process_fact v group payload env =
    process_decoded v group (env.decode_fact payload) (env.sha256_hex payload) env
