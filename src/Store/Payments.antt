-- ===== src/Store/Payments.antt =====
-- applyPaymentAuthorized of store.go.
use stream_weave.Prelude.{
  String, cat, Bool, false, not, ◌&&◌, ◌||◌, Option, none, some, [], ◌∷◌, str_eq, if◌then◌else◌,
  Result, ok,
}
use stream_weave.Prelude.Int.{ℤ, eqb_ℤ}
use stream_weave.Orders.Model.{
  Order, Time, confirmed, cancel_requested, eqb_status, is_terminal, valid_payment_id,
}
use stream_weave.App.{Error, app, conflict}
use stream_weave.Message.{text, datum, raw_string, raw_int64, Fact}
use stream_weave.Db.Monad.{Tx, fail, skip, ◌>>=◌, ◌>>◌}
use stream_weave.Store.Payload.{
  cancellation_requested, command_payload, event_payload_for, insert_outbox, order_items_payload,
}
use stream_weave.Store.Workflow.{
  Change, no_change, update_workflow, bumped, insert_compensation_commands,
}

-- `err != nil || order.TotalMinor == nil || amount != *order.TotalMinor || ...`, negated
abbrev pub same_amount : Result Error ℤ → Option ℤ → Bool
same_amount (ok a) (some t) = eqb_ℤ a t
same_amount _ _ = false

abbrev pub paying : String → Change
paying id = record no_change { payment = id }

unfoldable pub pay_cancelling : Order → String → Fact → Time → Tx (Unit {0})
pay_cancelling order payment fact now = do
  let held = record order { payment_id = some payment }
  update_workflow held cancel_requested (paying payment) order.total_minor now
  insert_compensation_commands (bumped held) fact.saga_id fact.event_id cancellation_requested now

unfoldable pub confirm_messages : Order → String → String → Fact → Time → Tx (Unit {0})
confirm_messages order payment reservation fact now = do
  event ←
      event_payload_for "commerce.order.confirmed.v1" order fact.saga_id fact.event_id
        (cat order.id ":confirm")
        (("order_id", text order.id)
          ∷ ("payment_id", text payment)
          ∷ ("reservation_id", text reservation)
          ∷ [])
  insert_outbox "commerce.order.confirmed.v1" order.id event now
  command ←
      command_payload "commerce.fulfillment.create.v1" order fact.saga_id fact.event_id
        (cat order.id ":create-fulfillment")
        (("order_id", text order.id)
          ∷ ("customer_id", text order.customer_id)
          ∷ ("reservation_id", text reservation)
          ∷ ("currency", text order.currency)
          ∷ ("items", order_items_payload order)
          ∷ [])
  insert_outbox "commerce.fulfillment.create.v1" order.id command now

-- The rest of applyPaymentAuthorized, after the update; a missing reservation undoes it.
unfoldable pub announce_confirmed : Order → String → Fact → Time → Option String → Tx (Unit {0})
announce_confirmed order payment fact now none = fail (app conflict)
announce_confirmed order payment fact now (some reservation) =
    if str_eq reservation ""
    then fail (app conflict)
    else confirm_messages order payment reservation fact now

unfoldable pub pay_confirming : Order → String → Fact → Time → Tx (Unit {0})
pay_confirming order payment fact now = do
  update_workflow order confirmed (paying payment) order.total_minor now
  announce_confirmed (record (bumped order) { payment_id = some payment }) payment fact now
      order.reservation_id

unfoldable pub apply_payment_authorized : Order → Fact → Time → Tx (Unit {0})
apply_payment_authorized order fact now =
    let payment = raw_string (datum fact.contents "payment_id") in
    if is_terminal order.status || eqb_status order.status confirmed
    then skip
    else if not (
        same_amount (raw_int64 (datum fact.contents "amount_minor")) order.total_minor
        && str_eq (raw_string (datum fact.contents "currency")) order.currency)
    then fail (app conflict)
    else if not (valid_payment_id payment)
    then fail (app conflict)
    else if eqb_status order.status cancel_requested
    then pay_cancelling order payment fact now
    else pay_confirming order payment fact now
