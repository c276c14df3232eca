-- ===== src/Store/Tests.antt =====
-- The theorems on the store at concrete runs: an order created, and its stock rejected.
use stream_weave.Prelude.{◌≡◌, ◌≢◌, refl, false, none, some, [], ◌∷◌, ok, err}
use stream_weave.Text.{matches_id, repeated, matches_code, trim_prefix, byte_len, cut_bytes}
use stream_weave.Orders.Model.{
  Order, cancel_requested, is_terminal, valid_order_id, valid_customer_id, valid_product_id,
  valid_currency,
}
use stream_weave.Samples.{noon, sample, reliable, failing_at, start, no_rows_at_all, rejection}
use stream_weave.Orders.Create.{copy_item}
use stream_weave.App.{app, dependency, CreateResult, map_error}
use stream_weave.Db.Tables.{retry, order_check, item_check}
use stream_weave.Db.Monad.{
  World, Tx, pure, statement, mapping, transaction, ◌>>=◌, skip, commit, new_uuid, now_utc,
}
use stream_weave.Db.Queries.{
  get_order, get_order_items, insert_order, insert_order_item, insert_saga, get_saga_by_order_id,
  update_saga_phase, update_orders, update_order_workflow_state, update_order_cancellation,
  load_order,
}
use stream_weave.Db.Messages.{
  insert_idempotency, update_idempotency_response, insert_outbox_row, insert_inbox,
  mark_inbox_processed, record_inbox_failure,
}
use stream_weave.Store.Payload.{
  event_type, topic_for, order_items_payload, command_aggregate, order_operation, command_payload,
  event_payload_for, event_payload_with_id, insert_outbox,
}
use stream_weave.Store.Workflow.{
  one_affected, update_workflow_at_version, update_workflow, release_command, refund_command,
  insert_compensation_commands,
}
use stream_weave.Store.Facts.{
  valid_fact_identity, fail_order, apply_rejection, apply_fact, envelope_ok, identity_ok,
  handle_fact, fact_transaction, process_decoded, process_fact,
}
use stream_weave.Store.Create.{insert_items, create_new, create}
use stream_weave.Store.Idempotency.Later.{create_once, create_conflict, cancellation_once}
use stream_weave.Store.Requests.{creates, facts, serve_all}
use stream_weave.Store.Cancel.{cancel_new, request_cancellation}
use stream_weave.Store.Atomic.Calls.{
  create_atomic, request_cancellation_atomic, process_fact_atomic,
}
use stream_weave.Store.Invariant.Once.{IsSettledIn}
use stream_weave.Store.Once.{process_fact-settles, settled_unchanged}
use stream_weave.Store.Once.Later.{fact_once}
use stream_weave.Store.Outbox.{
  short_reason, has_inbox_identity, record_decoded_failure, record_fact_failure,
}
use stream_weave.Store.Failure.{inbox_status, record_fact_failure-reopens}

abbrev answer : CreateResult
answer = record {
  order = sample;
  replayed = false;
  response_status = "PENDING";
  response_at = noon;
}

abbrev ordering : World
ordering = (create "usr_1" sample "orders.create" "key" "hash" reliable start).1

created_ok : (create "usr_1" sample "orders.create" "key" "hash" reliable start).0 ≡ ok answer
unfolding create transaction mapping statement insert_idempotency create_new ◌>>=◌ insert_order
    insert_items insert_order_item insert_saga new_uuid event_payload_with_id order_operation
    insert_outbox_row command_payload insert_outbox commit pure skip valid_order_id
    valid_customer_id valid_product_id valid_currency matches_id repeated trim_prefix
    order_items_payload topic_for now_utc command_aggregate order_check item_check copy_item
created_ok = refl

rejected_ok : (process_fact none "orders" "rejected" reliable ordering).0 ≡ ok tt
unfolding create transaction mapping statement insert_idempotency create_new ◌>>=◌ insert_order
    insert_items insert_order_item insert_saga new_uuid event_payload_with_id order_operation
    insert_outbox_row command_payload insert_outbox commit pure skip valid_order_id
    valid_customer_id valid_product_id valid_currency matches_id repeated trim_prefix
    order_items_payload topic_for now_utc command_aggregate order_check item_check copy_item
    process_fact process_decoded envelope_ok identity_ok valid_fact_identity event_type
    fact_transaction insert_inbox handle_fact load_order get_order get_order_items apply_fact
    apply_rejection fail_order update_workflow update_workflow_at_version
    update_order_workflow_state update_orders one_affected insert_compensation_commands
    release_command refund_command mark_inbox_processed event_payload_for is_terminal matches_code
rejected_ok = refl

abbrev rejecting : World
rejecting = (process_fact none "orders" "rejected" reliable ordering).1

-- The sixth call of the database fails: the second item of the order is not inserted.
create_fails :
    (create "usr_1" sample "orders.create" "key" "hash" (failing_at 5) start).0
    ≡ err (app dependency)
unfolding create transaction mapping statement insert_idempotency create_new ◌>>=◌ insert_order
    insert_items insert_order_item map_error valid_order_id valid_customer_id valid_product_id
    valid_currency matches_id repeated order_check item_check copy_item skip new_uuid
create_fails = refl

create_atomic_example :
    (create "usr_1" sample "orders.create" "key" "hash" (failing_at 5) start).1.committed
    ≡ no_rows_at_all
create_atomic_example =
    create_atomic (failing_at 5) start (app dependency) "usr_1" sample "orders.create" "key" "hash"
      create_fails

create_once_example :
    (create "usr_1" sample "orders.create" "key" "other" reliable
      (serve_all (facts none "orders" "rejected" ∷ []) reliable ordering)).1.committed
    ≡ (serve_all (facts none "orders" "rejected" ∷ []) reliable ordering).committed
create_once_example =
    create_once "usr_1" sample "orders.create" "key" "hash" answer reliable start
      (facts none "orders" "rejected" ∷ []) created_ok sample "other"

create_conflict_example :
    (create "usr_1" sample "orders.create" "key" "other" reliable
      (serve_all (facts none "orders" "rejected" ∷ []) reliable ordering)).0
    ≢ ok answer
create_conflict_example =
    create_conflict "usr_1" sample "orders.create" "key" "hash" answer reliable start
      (facts none "orders" "rejected" ∷ []) created_ok sample "other" answer refl

process_fact-settles_example : IsSettledIn "orders" "evt_r" rejecting.committed.inbox
process_fact-settles_example =
    process_fact-settles none "orders" "rejected" rejection reliable ordering refl rejected_ok

settled_unchanged_example :
    (process_fact none "orders" "rejected" reliable rejecting).1.committed ≡ rejecting.committed
settled_unchanged_example =
    settled_unchanged none "orders" "rejected" rejection reliable rejecting refl
      (process_fact-settles none "orders" "rejected" rejection reliable ordering refl rejected_ok)

fact_once_example :
    (process_fact none "orders" "rejected" reliable (
      serve_all
        (creates "usr_1" sample "orders.create" "second" "hash" ∷ [])
        reliable
        rejecting)).1.committed
    ≡ (serve_all
        (creates "usr_1" sample "orders.create" "second" "hash" ∷ [])
        reliable
        rejecting).committed
fact_once_example =
    fact_once none none "orders" "rejected" rejection reliable ordering
      (creates "usr_1" sample "orders.create" "second" "hash" ∷ []) refl rejected_ok

failure_recorded_ok :
    (record_fact_failure "orders" "rejected" "late" noon reliable rejecting).0 ≡ ok (false, 2)
unfolding create transaction mapping statement insert_idempotency create_new ◌>>=◌ insert_order
    insert_items insert_order_item insert_saga new_uuid event_payload_with_id order_operation
    insert_outbox_row command_payload insert_outbox commit pure skip valid_order_id
    valid_customer_id valid_product_id valid_currency matches_id repeated trim_prefix
    order_items_payload topic_for now_utc command_aggregate order_check item_check copy_item
    process_fact process_decoded envelope_ok identity_ok valid_fact_identity event_type
    fact_transaction insert_inbox handle_fact load_order get_order get_order_items apply_fact
    apply_rejection fail_order update_workflow update_workflow_at_version
    update_order_workflow_state update_orders one_affected insert_compensation_commands
    release_command refund_command mark_inbox_processed event_payload_for is_terminal matches_code
    record_fact_failure record_decoded_failure has_inbox_identity record_inbox_failure short_reason
    byte_len cut_bytes
failure_recorded_ok = refl

record_fact_failure-reopens_example :
    inbox_status "orders" "evt_r"
      (record_fact_failure "orders" "rejected" "late" noon reliable rejecting).1.committed.inbox
    ≡ some retry
unfolding has_inbox_identity
record_fact_failure-reopens_example =
    record_fact_failure-reopens "orders" "rejected" "late" noon rejection reliable rejecting false 2
      refl refl failure_recorded_ok

abbrev cancelling : Tx Order
cancelling =
    request_cancellation "usr_1" "ord_1" "orders.cancel" "key2" "hash" "CUSTOMER_REQUESTED" 1 noon

abbrev cancelled_order : Order
cancelled_order = record sample { items = []; status = cancel_requested; version = 2 }

cancellation_ok : (cancelling reliable ordering).0 ≡ ok cancelled_order
unfolding create transaction mapping statement insert_idempotency create_new ◌>>=◌ insert_order
    insert_items insert_order_item insert_saga new_uuid event_payload_with_id order_operation
    insert_outbox_row command_payload insert_outbox commit pure skip valid_order_id
    valid_customer_id valid_product_id valid_currency matches_id repeated trim_prefix
    order_items_payload topic_for now_utc command_aggregate order_check item_check copy_item
    request_cancellation cancel_new update_order_cancellation update_orders get_saga_by_order_id
    update_idempotency_response update_saga_phase insert_compensation_commands release_command
    refund_command
cancellation_ok = refl

cancellation_once_example :
    (cancelling reliable (
      serve_all
        (facts none "orders" "rejected" ∷ [])
        reliable
        (cancelling reliable ordering).1)).1.committed
    ≡ (serve_all
        (facts none "orders" "rejected" ∷ [])
        reliable
        (cancelling reliable ordering).1).committed
cancellation_once_example =
    cancellation_once "usr_1" "ord_1" "orders.cancel" "key2" "hash" "CUSTOMER_REQUESTED" 1 noon
      cancelled_order reliable ordering (facts none "orders" "rejected" ∷ []) cancellation_ok
      "ord_1" "hash" "CUSTOMER_REQUESTED" 1 noon

-- The call after the order was set to CANCEL_REQUESTED fails.
cancellation_fails : (cancelling (failing_at 13) ordering).0 ≡ err (app dependency)
unfolding create transaction mapping statement insert_idempotency create_new ◌>>=◌ insert_order
    insert_items insert_order_item insert_saga new_uuid event_payload_with_id order_operation
    insert_outbox_row command_payload insert_outbox commit pure skip valid_order_id
    valid_customer_id valid_product_id valid_currency matches_id repeated trim_prefix
    order_items_payload topic_for now_utc command_aggregate order_check item_check copy_item
    request_cancellation cancel_new update_order_cancellation update_orders get_saga_by_order_id
    update_idempotency_response map_error
cancellation_fails = refl

request_cancellation_atomic_example :
    (cancelling (failing_at 13) ordering).1.committed ≡ ordering.committed
request_cancellation_atomic_example =
    request_cancellation_atomic (failing_at 13) ordering (app dependency) "usr_1" "ord_1"
      "orders.cancel" "key2" "hash" "CUSTOMER_REQUESTED" 1 noon cancellation_fails

-- The order is FAILED in the transaction when a later call fails.
rejection_fails :
    (process_fact none "orders" "rejected" (failing_at 15) ordering).0 ≡ err (app dependency)
unfolding create transaction mapping statement insert_idempotency create_new ◌>>=◌ insert_order
    insert_items insert_order_item insert_saga new_uuid event_payload_with_id order_operation
    insert_outbox_row command_payload insert_outbox commit pure skip valid_order_id
    valid_customer_id valid_product_id valid_currency matches_id repeated trim_prefix
    order_items_payload topic_for now_utc command_aggregate order_check item_check copy_item
    process_fact process_decoded envelope_ok identity_ok valid_fact_identity event_type
    fact_transaction insert_inbox handle_fact load_order get_order get_order_items apply_fact
    apply_rejection fail_order update_workflow update_workflow_at_version
    update_order_workflow_state update_orders one_affected insert_compensation_commands
    release_command refund_command mark_inbox_processed event_payload_for is_terminal matches_code
    map_error
rejection_fails = refl

process_fact_atomic_example :
    (process_fact none "orders" "rejected" (failing_at 15) ordering).1.committed
    ≡ ordering.committed
process_fact_atomic_example =
    process_fact_atomic (failing_at 15) ordering (app dependency) none "orders" "rejected"
      rejection_fails
