-- ===== src/Store/Invariant.antt =====
-- An interface for invariants of the tables: what every writing statement must keep, so that every
-- call of the store keeps it. `Calls` proves that; the others are invariants that meet it.
pub mod Calls
pub mod FactCalls
pub mod Frame
pub mod Once
use stream_weave.Prelude.{ℕ, ◌+◌, String, Option, none, some, List, [], ◌∷◌}
use stream_weave.Prelude.Int.{ℤ}
use stream_weave.Orders.Model.{Item, Order, Time, Status}
use stream_weave.Message
use stream_weave.Message.{Data}
use stream_weave.Db.Tables.{
  Accepted, OrderRow, ItemRow, SagaRow, IdempotencyRow, OutboxRow, InboxRow, Database,
}
use stream_weave.Db.Queries.{
  update_order_cancellation, WorkflowParams, update_order_workflow_state,
  mark_inventory_released_row, mark_payment_refunded_row, update_order_item_quote, insert_order,
  insert_order_item, insert_saga, update_saga_phase, load_order,
}
use stream_weave.Db.Messages.{
  insert_idempotency, update_idempotency_response, insert_outbox_row, insert_inbox,
  mark_inbox_processed,
}
use stream_weave.Db.Keeps.{KeepsQuery, Commits, Keeps, keeps_rules}
use stream_weave.Store.Payload.{EventType, command_payload, event_payload_for, insert_outbox}
use stream_weave.Store.Workflow.{
  Change, one_affected, update_workflow_at_version, update_workflow, mark_inventory_released,
  mark_payment_refunded, release_command, refund_command, insert_compensation_commands,
  maybe_complete_cancellation,
}

-- Every statement that the transactions of the store make keeps `H`.
pub record IsInvariant (H : Database → Database → Type 0) : Type 0 where
  pub on_insert_idempotency : (r : IdempotencyRow) → KeepsQuery H (insert_idempotency r)
  pub on_response :
      (a o k : String) (id : Option String) (b : Option Accepted)
      → KeepsQuery H (update_idempotency_response a o k id b)
  pub on_insert_order : (r : OrderRow) → KeepsQuery H (insert_order r)
  pub on_insert_item : (r : ItemRow) → KeepsQuery H (insert_order_item r)
  pub on_insert_saga : (r : SagaRow) → KeepsQuery H (insert_saga r)
  pub on_saga_phase : (id phase : String) (at : Time) → KeepsQuery H (update_saga_phase id phase at)
  pub on_insert_outbox : (r : OutboxRow) → KeepsQuery H (insert_outbox_row r)
  pub on_cancellation :
      (id : String) (version : ℕ) (at : Time)
      → KeepsQuery H (update_order_cancellation id version at)
  pub on_workflow : (p : WorkflowParams) → KeepsQuery H (update_order_workflow_state p)
  pub on_released :
      (id : String) (at : Time) (version : ℕ)
      → KeepsQuery H (mark_inventory_released_row id at version)
  pub on_refunded :
      (id : String) (at : Time) (version : ℕ)
      → KeepsQuery H (mark_payment_refunded_row id at version)
  pub on_item_quote : (id : String) (item : Item) → KeepsQuery H (update_order_item_quote id item)
  pub on_insert_inbox : (r : InboxRow) → KeepsQuery H (insert_inbox r)
  pub on_processed : (g id : String) (at : Time) → KeepsQuery H (mark_inbox_processed g id at)
  pub on_commit : Commits H

module _ (H : Database → Database → Type 0) (i : IsInvariant H) where
  load_order-Keeps : (id : String) → Keeps H (load_order id)
  unfolding load_order
  load_order-Keeps id = search keeps_rules

  command_payload-Keeps :
      (type : String) (order : Order) (saga causation operation : String) (contents : Data)
      → Keeps H (command_payload type order saga causation operation contents)
  unfolding command_payload
  command_payload-Keeps type order saga causation operation contents = search keeps_rules

  event_payload_for-Keeps :
      (type : String) (order : Order) (saga causation operation : String) (contents : Data)
      → Keeps H (event_payload_for type order saga causation operation contents)
  unfolding event_payload_for
  event_payload_for-Keeps type order saga causation operation contents = search keeps_rules

  insert_outbox-Keeps :
      (type order_id : String) (payload : Message.Message) (at : Time)
      → Keeps H (insert_outbox type order_id payload at)
  unfolding insert_outbox
  insert_outbox-Keeps type order_id payload at = search (keeps_rules, i.on_insert_outbox) depth 8

  one_affected-Keeps : (n : ℕ) → Keeps H (one_affected n)
  unfolding one_affected
  one_affected-Keeps n = search keeps_rules

  update_workflow-Keeps :
      (order : Order) (status : Status) (c : Change) (total : Option ℤ) (now : Time)
      → Keeps H (update_workflow order status c total now)
  unfolding update_workflow update_workflow_at_version
  update_workflow-Keeps order status c total now =
      search (keeps_rules, one_affected-Keeps, i.on_workflow) depth 8

  mark_inventory_released-Keeps :
      (order : Order) (now : Time) → Keeps H (mark_inventory_released order now)
  unfolding mark_inventory_released
  mark_inventory_released-Keeps order now =
      search (keeps_rules, one_affected-Keeps, i.on_released) depth 8

  mark_payment_refunded-Keeps :
      (order : Order) (now : Time) → Keeps H (mark_payment_refunded order now)
  unfolding mark_payment_refunded
  mark_payment_refunded-Keeps order now =
      search (keeps_rules, one_affected-Keeps, i.on_refunded) depth 8

  release_command-Keeps :
      (order : Order) (saga causation : String) (at : Time) (r : Option String)
      → Keeps H (release_command order saga causation at r)
  unfolding release_command
  release_command-Keeps order saga causation at none = search keeps_rules
  release_command-Keeps order saga causation at (some r) =
      search (keeps_rules, command_payload-Keeps, insert_outbox-Keeps) depth 8

  refund_command-Keeps :
      (order : Order) (saga causation : String) (at : Time) (p : Option String) (t : Option ℤ)
      → Keeps H (refund_command order saga causation at p t)
  unfolding refund_command
  refund_command-Keeps order saga causation at none t = search keeps_rules
  refund_command-Keeps order saga causation at (some p) none = search keeps_rules
  refund_command-Keeps order saga causation at (some p) (some t) =
      search (keeps_rules, command_payload-Keeps, insert_outbox-Keeps) depth 8

  insert_compensation_commands-Keeps :
      (order : Order) (saga causation : String) (e : EventType) (at : Time)
      → Keeps H (insert_compensation_commands order saga causation e at)
  unfolding insert_compensation_commands
  insert_compensation_commands-Keeps order saga causation e at =
      search (keeps_rules, release_command-Keeps, refund_command-Keeps)

  maybe_complete_cancellation-Keeps :
      (order : Order) (saga causation : String) (now : Time)
      → Keeps H (maybe_complete_cancellation order saga causation now)
  unfolding maybe_complete_cancellation
  maybe_complete_cancellation-Keeps order saga causation now =
      search
        (
          keeps_rules, update_workflow-Keeps, event_payload_for-Keeps, insert_outbox-Keeps,
          i.on_saga_phase,
        )
        depth 14
