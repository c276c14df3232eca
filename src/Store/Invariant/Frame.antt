-- ===== src/Store/Invariant/Frame.antt =====
-- Invariants of one table: of the statements, only those that write it have to be looked at.
use stream_weave.Prelude.{String, Option, List, [], ◌∷◌, ◌++◌, arith}
use stream_weave.Db.Tables.{Accepted, IdempotencyRow, InboxRow, Database}
use stream_weave.Db.Monad.{Query}
use stream_weave.Db.Queries.{
  update_orders, update_order_cancellation, update_order_workflow_state,
  mark_inventory_released_row, mark_payment_refunded_row, update_order_item_quote, insert_order,
  insert_order_item, insert_saga, update_saga_phase,
}
use stream_weave.Db.Messages.{
  insert_idempotency, update_idempotency_response, insert_outbox_row, insert_inbox,
  mark_inbox_processed,
}
use stream_weave.Db.Keeps.{KeepsQuery}
use stream_weave.Store.Invariant.{IsInvariant}

-- A property of the working tables, of the committed ones too.
module _ (P : Database → Type 0) where
  both-KeepsQuery :
      {A : Type 0} (q : Query A) → KeepsQuery (λ c d. P d) q → KeepsQuery (λ c d. P c × P d) q
  both-KeepsQuery q k = record { at = λ c db e h. (h.0, k.at c db e h.1) }

  pub both-IsInvariant : IsInvariant (λ c d. P d) → IsInvariant (λ c d. P c × P d)
  both-IsInvariant i = record {
    on_insert_idempotency = λ r. both-KeepsQuery _ (i.on_insert_idempotency r);
    on_response = λ a o k id b. both-KeepsQuery _ (i.on_response a o k id b);
    on_insert_order = λ r. both-KeepsQuery _ (i.on_insert_order r);
    on_insert_item = λ r. both-KeepsQuery _ (i.on_insert_item r);
    on_insert_saga = λ r. both-KeepsQuery _ (i.on_insert_saga r);
    on_saga_phase = λ id phase at. both-KeepsQuery _ (i.on_saga_phase id phase at);
    on_insert_outbox = λ r. both-KeepsQuery _ (i.on_insert_outbox r);
    on_cancellation = λ id v at. both-KeepsQuery _ (i.on_cancellation id v at);
    on_workflow = λ p. both-KeepsQuery _ (i.on_workflow p);
    on_released = λ id at v. both-KeepsQuery _ (i.on_released id at v);
    on_refunded = λ id at v. both-KeepsQuery _ (i.on_refunded id at v);
    on_item_quote = λ id item. both-KeepsQuery _ (i.on_item_quote id item);
    on_insert_inbox = λ r. both-KeepsQuery _ (i.on_insert_inbox r);
    on_processed = λ g id at. both-KeepsQuery _ (i.on_processed g id at);
    on_commit = λ c d h. (h.1, h.1);
  }

-- The inbox.
module _ (I : List InboxRow → Type 0) where
  abbrev H : Database → Database → Type 0
  H c d = I d.inbox

  orders-keep_inbox : (p : _) (f : _) → KeepsQuery H (update_orders p f)
  unfolding update_orders
  orders-keep_inbox p f = record { at = λ c db e h. ground arith }

  pub inbox-IsInvariant :
      ((r : InboxRow) (l : List InboxRow) → I l → I (l ++ r ∷ []))
      → ((g id : String) (at : _) → KeepsQuery H (mark_inbox_processed g id at))
      → IsInvariant H
  unfolding insert_idempotency update_idempotency_response insert_order insert_order_item
      insert_saga update_saga_phase insert_outbox_row update_order_cancellation
      update_order_workflow_state mark_inventory_released_row mark_payment_refunded_row
      update_order_item_quote insert_inbox
  inbox-IsInvariant insert mark = record {
    on_insert_idempotency = λ r. record { at = λ c db e h. ground arith };
    on_response = λ a o k id b. record { at = λ c db e h. ground arith };
    on_insert_order = λ r. record { at = λ c db e h. ground arith };
    on_insert_item = λ r. record { at = λ c db e h. ground arith };
    on_insert_saga = λ r. record { at = λ c db e h. ground arith };
    on_saga_phase = λ id phase at. record { at = λ c db e h. ground arith };
    on_insert_outbox = λ r. record { at = λ c db e h. ground arith };
    on_cancellation = λ id v at. record { at = λ c db e h. ground arith };
    on_workflow = λ p. orders-keep_inbox _ _;
    on_released = λ id at v. orders-keep_inbox _ _;
    on_refunded = λ id at v. orders-keep_inbox _ _;
    on_item_quote = λ id item. record { at = λ c db e h. ground arith };
    on_insert_inbox = λ r. record { at = λ c db e h. ground (arith, insert r db.inbox) };
    on_processed = mark;
    on_commit = λ c d h. h;
  }

-- The idempotency records.
module _ (I : List IdempotencyRow → Type 0) where
  abbrev J : Database → Database → Type 0
  J c d = I d.idempotency

  orders-keep_idempotency : (p : _) (f : _) → KeepsQuery J (update_orders p f)
  unfolding update_orders
  orders-keep_idempotency p f = record { at = λ c db e h. ground arith }

  pub idempotency-IsInvariant :
      ((r : IdempotencyRow) (l : List IdempotencyRow) → I l → I (l ++ r ∷ []))
      → ((a o k : String) (id : Option String) (b : Option Accepted)
          → KeepsQuery J (update_idempotency_response a o k id b))
      → IsInvariant J
  unfolding insert_idempotency insert_order insert_order_item insert_saga update_saga_phase
      insert_outbox_row update_order_cancellation update_order_workflow_state
      mark_inventory_released_row mark_payment_refunded_row update_order_item_quote insert_inbox
      mark_inbox_processed
  idempotency-IsInvariant insert response = record {
    on_insert_idempotency =
        λ r. record { at = λ c db e h. ground (arith, insert r db.idempotency) };
    on_response = response;
    on_insert_order = λ r. record { at = λ c db e h. ground arith };
    on_insert_item = λ r. record { at = λ c db e h. ground arith };
    on_insert_saga = λ r. record { at = λ c db e h. ground arith };
    on_saga_phase = λ id phase at. record { at = λ c db e h. ground arith };
    on_insert_outbox = λ r. record { at = λ c db e h. ground arith };
    on_cancellation = λ id v at. record { at = λ c db e h. ground arith };
    on_workflow = λ p. orders-keep_idempotency _ _;
    on_released = λ id at v. orders-keep_idempotency _ _;
    on_refunded = λ id at v. orders-keep_idempotency _ _;
    on_item_quote = λ id item. record { at = λ c db e h. ground arith };
    on_insert_inbox = λ r. record { at = λ c db e h. ground arith };
    on_processed = λ g id at. record { at = λ c db e h. ground arith };
    on_commit = λ c d h. h;
  }
