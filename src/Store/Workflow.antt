-- ===== src/Store/Workflow.antt =====
-- The guarded updates of store.go that every handler shares: the workflow update at the version that
-- was read, the two compensation marks, the compensation commands and the end of a cancellation.
use stream_weave.Prelude.{
  ℕ, ◌+◌, String, cat, Bool, true, false, not, ◌&&◌, ◌||◌, Option, none, some, [], ◌∷◌, str_eq,
  ◌==◌, if◌then◌else◌, is_some, u64,
}
use stream_weave.Prelude.Int.{ℤ}
use stream_weave.Orders.Model.{
  Order, Time, Status, cancel_requested, cancelled, eqb_status, is_terminal, valid_reservation_id,
  valid_payment_id,
}
use stream_weave.App.{app, conflict}
use stream_weave.Message.{text, number}
use stream_weave.Db.Monad.{Tx, statement, mapping, pure, fail, skip, when, ◌>>=◌, ◌>>◌}
use stream_weave.Db.Queries.{
  update_order_workflow_state, mark_inventory_released_row, mark_payment_refunded_row,
  update_saga_phase,
}
use stream_weave.Store.Payload.{
  EventType, payment_failed, fulfillment_failed, cancellation_requested, command_payload,
  event_payload_for, insert_outbox,
}

-- nullString
abbrev pub null_string : String → Option String
null_string s = if str_eq s "" then none else some s

-- The strings that `updateWorkflow` is given; an empty one is NULL.
pub record Change : Type 0 where
  pub failure : String
  pub reservation : String
  pub payment : String
  pub shipment : String

abbrev pub no_change : Change
no_change = record { failure = ""; reservation = ""; payment = ""; shipment = "" }

-- `if rows != 1 { return app.ErrConflict }`
unfoldable pub one_affected : ℕ → Tx (Unit {0})
one_affected rows = if rows == 1 then skip else fail (app conflict)

-- updateWorkflowAtVersion
unfoldable pub update_workflow_at_version :
    Order → Status → Change → Option ℤ → ℕ → Time → Tx (Unit {0})
update_workflow_at_version order status c total expected now =
    if not (eqb_status status order.status) && is_terminal order.status then skip else do
      rows ← mapping (
          statement (
            update_order_workflow_state (record {
              id = order.id;
              status = status;
              failure_code = null_string c.failure;
              reservation_id = null_string c.reservation;
              payment_id = null_string c.payment;
              shipment_id = null_string c.shipment;
              total_minor = total;
              updated_at = now;
              version = expected;
            })))
      one_affected rows

-- updateWorkflow
unfoldable pub update_workflow : Order → Status → Change → Option ℤ → Time → Tx (Unit {0})
update_workflow order status c total now =
    update_workflow_at_version order status c total order.version now

-- `order.Version++` on the copy of the order
abbrev pub bumped : Order → Order
bumped order = record order { version = u64 (order.version + 1) }

-- markInventoryReleased; the order that the caller holds afterwards
unfoldable pub mark_inventory_released : Order → Time → Tx Order
mark_inventory_released order now = if order.inventory_released then pure order else do
  rows ← mapping (statement (mark_inventory_released_row order.id now order.version))
  one_affected rows
  pure (record order {
    inventory_released = true;
    version = u64 (order.version + 1);
    updated_at = now;
  })

-- markPaymentRefunded
unfoldable pub mark_payment_refunded : Order → Time → Tx Order
mark_payment_refunded order now = if order.payment_refunded then pure order else do
  rows ← mapping (statement (mark_payment_refunded_row order.id now order.version))
  one_affected rows
  pure (record order {
    payment_refunded = true;
    version = u64 (order.version + 1);
    updated_at = now;
  })

-- The events after which the reservation is given back.
abbrev pub releases : EventType → Bool
releases payment_failed = true
releases fulfillment_failed = true
releases cancellation_requested = true
releases _ = false

-- The events after which the payment is given back.
abbrev pub refunds : EventType → Bool
refunds fulfillment_failed = true
refunds cancellation_requested = true
refunds _ = false

unfoldable pub release_command : Order → String → String → Time → Option String → Tx (Unit {0})
release_command order saga_id causation at none = skip
release_command order saga_id causation at (some reservation) =
    if not (valid_reservation_id reservation) then skip else do
      release ←
          command_payload "commerce.inventory.release.v1" order saga_id causation
            (cat order.id ":release-inventory")
            (("order_id", text order.id) ∷ ("reservation_id", text reservation) ∷ [])
      insert_outbox "commerce.inventory.release.v1" order.id release at

unfoldable pub refund_command :
    Order → String → String → Time → Option String → Option ℤ → Tx (Unit {0})
refund_command order saga_id causation at (some payment) (some total) =
    if not (valid_payment_id payment) then skip else do
      refund ←
          command_payload "commerce.payment.refund.v1" order saga_id causation
            (cat order.id ":refund-payment")
            (("order_id", text order.id)
              ∷ ("payment_id", text payment)
              ∷ ("amount_minor", number total)
              ∷ ("currency", text order.currency)
              ∷ [])
      insert_outbox "commerce.payment.refund.v1" order.id refund at
refund_command order saga_id causation at _ _ = skip

-- insertCompensationCommands
unfoldable pub insert_compensation_commands :
    Order → String → String → EventType → Time → Tx (Unit {0})
insert_compensation_commands order saga_id causation failed_event at = do
  when (releases failed_event) (release_command order saga_id causation at order.reservation_id)
  when (refunds failed_event)
      (refund_command order saga_id causation at order.payment_id order.total_minor)

-- A resource that the order holds and that was not given back.
unfoldable pub is_outstanding : Order → Bool
is_outstanding order =
    is_some order.reservation_id && not order.inventory_released
    || is_some order.payment_id && not order.payment_refunded

-- maybeCompleteCancellation
unfoldable pub maybe_complete_cancellation : Order → String → String → Time → Tx (Unit {0})
maybe_complete_cancellation order saga_id causation now =
    if not (eqb_status order.status cancel_requested) || is_outstanding order then skip else do
      update_workflow order cancelled no_change order.total_minor now
      payload ←
          event_payload_for "commerce.order.cancelled.v1" (bumped order) saga_id causation
            (cat order.id ":cancelled")
            (("order_id", text order.id) ∷ ("reason_code", text "CUSTOMER_REQUESTED") ∷ [])
      insert_outbox "commerce.order.cancelled.v1" order.id payload now
      mapping (statement (update_saga_phase saga_id "CANCELLED" now))
