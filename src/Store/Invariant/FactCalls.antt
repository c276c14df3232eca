-- ===== src/Store/Invariant/FactCalls.antt =====
-- `ProcessFact` and `RecordFactFailure` keep every invariant of the store's statements.
use stream_weave.Prelude.{String, Option, none, some, List, [], ◌∷◌}
use stream_weave.Orders.Model.{Item, Order, Time}
use stream_weave.Message.{Fact}
use stream_weave.Db.Tables.{InboxRow, Database}
use stream_weave.Db.Messages.{record_inbox_failure}
use stream_weave.Db.Keeps.{KeepsQuery, Begins, Keeps, Keeps-bind, keeps_rules}
use stream_weave.Store.Invariant.{
  IsInvariant, load_order-Keeps, command_payload-Keeps, event_payload_for-Keeps,
  insert_outbox-Keeps, update_workflow-Keeps, mark_inventory_released-Keeps,
  mark_payment_refunded-Keeps, insert_compensation_commands-Keeps,
  maybe_complete_cancellation-Keeps,
}
use stream_weave.Store.Payload.{EventType}
use stream_weave.Store.Quotes.{QuoteVerifier}
use stream_weave.Store.Reserve.{
  store_prices, reserve_pending, reserve_cancelling, apply_inventory_reserved,
}
use stream_weave.Store.Facts.{
  apply_inventory_released, apply_payment_refunded, note_rejection, reject_cancelling, fail_order,
  apply_rejection, complete_order, apply_completed, apply_fact, handle_fact, handle_known,
  fact_transaction, process_decoded, process_fact,
}
use stream_weave.Store.Payments.{
  pay_cancelling, confirm_messages, announce_confirmed, pay_confirming, apply_payment_authorized,
}
use stream_weave.Store.Outbox.{record_decoded_failure, record_fact_failure}

module _ (H : Database → Database → Type 0) (i : IsInvariant H) where
  store_prices-Keeps : (id : String) (items : List Item) → Keeps H (store_prices id items)
  unfolding store_prices
  store_prices-Keeps id [] = search keeps_rules
  store_prices-Keeps id (item ∷ rest) =
      Keeps-bind H _ _ (search (keeps_rules, i.on_item_quote)) (λ _. store_prices-Keeps id rest)

  module _ (v : Option QuoteVerifier) (order : Order) (f : Fact) (now : Time) where
    reserved-Keeps : Keeps H (apply_inventory_reserved v order f now)
    unfolding apply_inventory_reserved reserve_cancelling reserve_pending
    reserved-Keeps =
        search
          (
            keeps_rules,
            store_prices-Keeps,
            update_workflow-Keeps H i,
            command_payload-Keeps H i,
            insert_outbox-Keeps H i,
            insert_compensation_commands-Keeps H i,
          )
          depth 20

    announce-Keeps :
        (o : Order) (payment : String) (r : Option String)
        → Keeps H (announce_confirmed o payment f now r)
    unfolding announce_confirmed confirm_messages
    announce-Keeps o payment none = search keeps_rules
    announce-Keeps o payment (some r) =
        search
          (
            keeps_rules,
            command_payload-Keeps H i,
            event_payload_for-Keeps H i,
            insert_outbox-Keeps H i,
          )
          depth 20

    authorized-Keeps : Keeps H (apply_payment_authorized order f now)
    unfolding apply_payment_authorized pay_cancelling pay_confirming
    authorized-Keeps =
        search
          (
            keeps_rules,
            announce-Keeps,
            update_workflow-Keeps H i,
            insert_compensation_commands-Keeps H i,
          )
          depth 20

    released-Keeps : Keeps H (apply_inventory_released order f now)
    unfolding apply_inventory_released
    released-Keeps =
        search
          (keeps_rules, mark_inventory_released-Keeps H i, maybe_complete_cancellation-Keeps H i)
          depth 20

    refunded-Keeps : Keeps H (apply_payment_refunded order f now)
    unfolding apply_payment_refunded
    refunded-Keeps =
        search (keeps_rules, mark_payment_refunded-Keeps H i, maybe_complete_cancellation-Keeps H i)
          depth 20

    completed-Keeps : Keeps H (apply_completed order f now)
    unfolding apply_completed complete_order
    completed-Keeps =
        search
          (
            keeps_rules,
            update_workflow-Keeps H i,
            event_payload_for-Keeps H i,
            insert_outbox-Keeps H i,
          )
          depth 20

    note_rejection-Keeps : (type : EventType) → Keeps H (note_rejection type order now)
    note_rejection-Keeps EventType.inventory_rejected = mark_inventory_released-Keeps H i order now
    note_rejection-Keeps EventType.payment_failed = mark_payment_refunded-Keeps H i order now
    note_rejection-Keeps _ = search keeps_rules

    rejection-Keeps : (type : EventType) → Keeps H (apply_rejection type order f now)
    unfolding apply_rejection reject_cancelling fail_order
    rejection-Keeps type =
        search
          (
            keeps_rules,
            note_rejection-Keeps,
            update_workflow-Keeps H i,
            event_payload_for-Keeps H i,
            insert_outbox-Keeps H i,
            insert_compensation_commands-Keeps H i,
            maybe_complete_cancellation-Keeps H i,
          )
          depth 20

    pub apply_fact-Keeps : (type : Option EventType) → Keeps H (apply_fact v type order f now)
    unfolding apply_fact
    apply_fact-Keeps (some EventType.inventory_reserved) = reserved-Keeps
    apply_fact-Keeps (some EventType.inventory_released) = released-Keeps
    apply_fact-Keeps (some EventType.payment_refunded) = refunded-Keeps
    apply_fact-Keeps (some EventType.inventory_rejected) = rejection-Keeps _
    apply_fact-Keeps (some EventType.payment_failed) = rejection-Keeps _
    apply_fact-Keeps (some EventType.fulfillment_failed) = rejection-Keeps _
    apply_fact-Keeps (some EventType.payment_authorized) = authorized-Keeps
    apply_fact-Keeps (some EventType.fulfillment_completed) = completed-Keeps
    apply_fact-Keeps _ = search keeps_rules

  module _ (v : Option QuoteVerifier) (group : String) where
    handle_fact-Keeps : (f : Fact) → Keeps H (handle_fact v group f)
    unfolding handle_fact
    handle_fact-Keeps f =
        search (keeps_rules, load_order-Keeps H i, apply_fact-Keeps, i.on_processed, i.on_commit)
          depth 20

    handle_known-Keeps : (f : Fact) → Keeps H (handle_known v group f)
    unfolding handle_known
    handle_known-Keeps f = search (keeps_rules, handle_fact-Keeps) depth 10

    process_decoded-Keeps :
        Begins H → (f : Option Fact) (hash : String) → Keeps H (process_decoded v group f hash)
    unfolding process_decoded fact_transaction
    process_decoded-Keeps b none hash = search keeps_rules
    process_decoded-Keeps b (some f) hash =
        search (keeps_rules, handle_fact-Keeps, handle_known-Keeps, i.on_insert_inbox) depth 12

    pub process_fact-Keeps : Begins H → (payload : String) → Keeps H (process_fact v group payload)
    unfolding process_fact
    process_fact-Keeps b payload = record {
      at = λ env w h. (process_decoded-Keeps b _ _).at env w h;
    }

  module _ (b : Begins H) (k : (r : InboxRow) → KeepsQuery H (record_inbox_failure r)) where
    record_decoded_failure-Keeps :
        (group : String) (f : Option Fact) (hash reason : String) (at : Time)
        → Keeps H (record_decoded_failure group f hash reason at)
    unfolding record_decoded_failure
    record_decoded_failure-Keeps group none hash reason at = search keeps_rules
    record_decoded_failure-Keeps group (some f) hash reason at =
        search (keeps_rules, i.on_commit) depth 12

    pub record_fact_failure-Keeps :
        (group payload reason : String) (at : Time)
        → Keeps H (record_fact_failure group payload reason at)
    unfolding record_fact_failure
    record_fact_failure-Keeps group payload reason at = record {
      at = λ env w h. (record_decoded_failure-Keeps group _ _ reason at).at env w h;
    }
