-- ===== src/Store/Atomic.antt =====
-- The shared steps of the store commit nothing. `Calls` draws the conclusion for its methods.
pub mod Calls
use stream_weave.Prelude.{ℕ, String, Option, none, some}
use stream_weave.Prelude.Int.{ℤ}
use stream_weave.Orders.Model.{Order, Time, Status}
use stream_weave.Message
use stream_weave.Message.{Data}
use stream_weave.Db.Queries.{load_order}
use stream_weave.Db.Silent.{IsSilent, silent_rules}
use stream_weave.Store.Payload.{EventType, command_payload, event_payload_for, insert_outbox}
use stream_weave.Store.Workflow.{
  Change, one_affected, update_workflow_at_version, update_workflow, mark_inventory_released,
  mark_payment_refunded, release_command, refund_command, insert_compensation_commands,
  maybe_complete_cancellation,
}

load_order-IsSilent : (id : String) → IsSilent (load_order id)
unfolding load_order
load_order-IsSilent id = search silent_rules

command_payload-IsSilent :
    (type : String) (order : Order) (saga causation operation : String) (contents : Data)
    → IsSilent (command_payload type order saga causation operation contents)
unfolding command_payload
command_payload-IsSilent type order saga causation operation contents = search silent_rules

event_payload_for-IsSilent :
    (type : String) (order : Order) (saga causation operation : String) (contents : Data)
    → IsSilent (event_payload_for type order saga causation operation contents)
unfolding event_payload_for
event_payload_for-IsSilent type order saga causation operation contents = search silent_rules

insert_outbox-IsSilent :
    (type order_id : String) (payload : Message.Message) (at : Time)
    → IsSilent (insert_outbox type order_id payload at)
unfolding insert_outbox
insert_outbox-IsSilent type order_id payload at = search silent_rules

one_affected-IsSilent : (n : ℕ) → IsSilent (one_affected n)
unfolding one_affected
one_affected-IsSilent n = search silent_rules

update_workflow-IsSilent :
    (order : Order) (status : Status) (c : Change) (total : Option ℤ) (now : Time)
    → IsSilent (update_workflow order status c total now)
unfolding update_workflow update_workflow_at_version
update_workflow-IsSilent order status c total now = search (silent_rules, one_affected-IsSilent)

mark_inventory_released-IsSilent :
    (order : Order) (now : Time) → IsSilent (mark_inventory_released order now)
unfolding mark_inventory_released
mark_inventory_released-IsSilent order now = search (silent_rules, one_affected-IsSilent)

mark_payment_refunded-IsSilent :
    (order : Order) (now : Time) → IsSilent (mark_payment_refunded order now)
unfolding mark_payment_refunded
mark_payment_refunded-IsSilent order now = search (silent_rules, one_affected-IsSilent)

ruleset message_rules = (
  silent_rules, load_order-IsSilent, command_payload-IsSilent, event_payload_for-IsSilent,
  insert_outbox-IsSilent, update_workflow-IsSilent, mark_inventory_released-IsSilent,
  mark_payment_refunded-IsSilent,
)

release_command-IsSilent :
    (order : Order) (saga causation : String) (at : Time) (r : Option String)
    → IsSilent (release_command order saga causation at r)
unfolding release_command
release_command-IsSilent order saga causation at none = search silent_rules
release_command-IsSilent order saga causation at (some r) = search message_rules depth 8

refund_command-IsSilent :
    (order : Order) (saga causation : String) (at : Time) (p : Option String) (t : Option ℤ)
    → IsSilent (refund_command order saga causation at p t)
unfolding refund_command
refund_command-IsSilent order saga causation at none t = search silent_rules
refund_command-IsSilent order saga causation at (some p) none = search silent_rules
refund_command-IsSilent order saga causation at (some p) (some t) = search message_rules depth 8

insert_compensation_commands-IsSilent :
    (order : Order) (saga causation : String) (e : EventType) (at : Time)
    → IsSilent (insert_compensation_commands order saga causation e at)
unfolding insert_compensation_commands
insert_compensation_commands-IsSilent order saga causation e at =
    search (silent_rules, release_command-IsSilent, refund_command-IsSilent)

maybe_complete_cancellation-IsSilent :
    (order : Order) (saga causation : String) (now : Time)
    → IsSilent (maybe_complete_cancellation order saga causation now)
unfolding maybe_complete_cancellation
maybe_complete_cancellation-IsSilent order saga causation now = search message_rules depth 12

ruleset step_rules =
    (message_rules, insert_compensation_commands-IsSilent, maybe_complete_cancellation-IsSilent)
