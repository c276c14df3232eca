-- ===== src/Store/Atomic/Calls.antt =====
-- Every method of the store that writes in a transaction is all or nothing: if it returns an error,
-- whichever statement failed and for whatever reason, nothing was committed.
use stream_weave.Prelude.{ℕ, ◌+◌, ◌≡◌, String, Option, none, some, List, [], ◌∷◌, err}
use stream_weave.Orders.Model.{Item, Order, Time}
use stream_weave.App.{Error}
use stream_weave.Message.{Fact}
use stream_weave.Db.Monad.{Env, World}
use stream_weave.Db.Silent.{IsSilent, IsAtomic, IsSilent-bind, silent_rules, atomic_rules}
use stream_weave.Store.Atomic.{step_rules}
use stream_weave.Store.Payload.{EventType}
use stream_weave.Store.Create.{insert_items, replay_create, create_new, create}
use stream_weave.Store.Cancel.{replay_cancellation, cancel_new, request_cancellation}
use stream_weave.Store.Quotes.{QuoteVerifier}
use stream_weave.Store.Reserve.{
  store_prices, reserve_pending, reserve_cancelling, apply_inventory_reserved,
}
use stream_weave.Store.Facts.{
  apply_inventory_released, apply_payment_refunded, note_rejection, reject_cancelling, fail_order,
  apply_rejection, complete_order, apply_completed, apply_fact, handle_fact, handle_known,
  fact_transaction, process_decoded, process_fact,
}
use stream_weave.Store.Payments.{
  pay_cancelling, confirm_messages, announce_confirmed, pay_confirming, apply_payment_authorized,
}

insert_items-IsSilent :
    (id : String) (index : ℕ) (items : List Item) → IsSilent (insert_items id index items)
unfolding insert_items
insert_items-IsSilent id index [] = search silent_rules
insert_items-IsSilent id index (item ∷ rest) =
    IsSilent-bind _ _ (search silent_rules) (λ _. insert_items-IsSilent id (index + 1) rest)

replay_create-IsAtomic : (a o k h : String) → IsAtomic (replay_create a o k h)
unfolding replay_create
replay_create-IsAtomic a o k h = search (atomic_rules, step_rules) depth 10

create_new-IsAtomic : (order : Order) → IsAtomic (create_new order)
unfolding create_new
create_new-IsAtomic order = search (atomic_rules, step_rules, insert_items-IsSilent) depth 30

create-IsAtomic :
    (actor : String) (order : Order) (operation key hash : String)
    → IsAtomic (create actor order operation key hash)
unfolding create
create-IsAtomic actor order operation key hash =
    search (atomic_rules, replay_create-IsAtomic, create_new-IsAtomic) depth 10

replay_cancellation-IsAtomic : (a o k h : String) → IsAtomic (replay_cancellation a o k h)
unfolding replay_cancellation
replay_cancellation-IsAtomic a o k h = search (atomic_rules, step_rules) depth 10

cancel_new-IsAtomic :
    (a id o k reason : String) (v : ℕ) (at : Time) → IsAtomic (cancel_new a id o k reason v at)
unfolding cancel_new
cancel_new-IsAtomic a id o k reason v at = search (atomic_rules, step_rules) depth 30

request_cancellation-IsAtomic :
    (a id o k h reason : String) (v : ℕ) (at : Time)
    → IsAtomic (request_cancellation a id o k h reason v at)
unfolding request_cancellation
request_cancellation-IsAtomic a id o k h reason v at =
    search (atomic_rules, replay_cancellation-IsAtomic, cancel_new-IsAtomic) depth 10

store_prices-IsSilent : (id : String) (items : List Item) → IsSilent (store_prices id items)
unfolding store_prices
store_prices-IsSilent id [] = search silent_rules
store_prices-IsSilent id (item ∷ rest) =
    IsSilent-bind _ _ (search silent_rules) (λ _. store_prices-IsSilent id rest)

module _ (v : Option QuoteVerifier) (order : Order) (f : Fact) (now : Time) where
  reserved-IsSilent : IsSilent (apply_inventory_reserved v order f now)
  unfolding apply_inventory_reserved reserve_cancelling reserve_pending
  reserved-IsSilent = search (step_rules, store_prices-IsSilent) depth 20

  announce-IsSilent :
      (o : Order) (payment : String) (r : Option String)
      → IsSilent (announce_confirmed o payment f now r)
  unfolding announce_confirmed confirm_messages
  announce-IsSilent o payment none = search silent_rules
  announce-IsSilent o payment (some r) = search step_rules depth 20

  authorized-IsSilent : IsSilent (apply_payment_authorized order f now)
  unfolding apply_payment_authorized pay_cancelling pay_confirming
  authorized-IsSilent = search (step_rules, announce-IsSilent) depth 20

  released-IsSilent : IsSilent (apply_inventory_released order f now)
  unfolding apply_inventory_released
  released-IsSilent = search step_rules depth 20

  refunded-IsSilent : IsSilent (apply_payment_refunded order f now)
  unfolding apply_payment_refunded
  refunded-IsSilent = search step_rules depth 20

  completed-IsSilent : IsSilent (apply_completed order f now)
  unfolding apply_completed complete_order
  completed-IsSilent = search step_rules depth 20

  note_rejection-IsSilent : (type : EventType) → IsSilent (note_rejection type order now)
  note_rejection-IsSilent EventType.inventory_rejected = search step_rules
  note_rejection-IsSilent EventType.payment_failed = search step_rules
  note_rejection-IsSilent _ = search silent_rules

  rejection-IsSilent : (type : EventType) → IsSilent (apply_rejection type order f now)
  unfolding apply_rejection reject_cancelling fail_order
  rejection-IsSilent type = search (step_rules, note_rejection-IsSilent) depth 20

  -- A handler of a fact commits nothing by itself.
  pub apply_fact-IsSilent : (type : Option EventType) → IsSilent (apply_fact v type order f now)
  unfolding apply_fact
  apply_fact-IsSilent (some EventType.inventory_reserved) = reserved-IsSilent
  apply_fact-IsSilent (some EventType.inventory_released) = released-IsSilent
  apply_fact-IsSilent (some EventType.payment_refunded) = refunded-IsSilent
  apply_fact-IsSilent (some EventType.inventory_rejected) = rejection-IsSilent _
  apply_fact-IsSilent (some EventType.payment_failed) = rejection-IsSilent _
  apply_fact-IsSilent (some EventType.fulfillment_failed) = rejection-IsSilent _
  apply_fact-IsSilent (some EventType.payment_authorized) = authorized-IsSilent
  apply_fact-IsSilent (some EventType.fulfillment_completed) = completed-IsSilent
  apply_fact-IsSilent _ = search silent_rules

module _ (v : Option QuoteVerifier) (group : String) where
  handle_fact-IsAtomic : (f : Fact) → IsAtomic (handle_fact v group f)
  unfolding handle_fact
  handle_fact-IsAtomic f = search (atomic_rules, step_rules, apply_fact-IsSilent) depth 20

  handle_known-IsAtomic : (f : Fact) → IsAtomic (handle_known v group f)
  unfolding handle_known
  handle_known-IsAtomic f = search (atomic_rules, step_rules, handle_fact-IsAtomic) depth 20

  process_decoded-IsAtomic :
      (f : Option Fact) (hash : String) → IsAtomic (process_decoded v group f hash)
  unfolding process_decoded fact_transaction
  process_decoded-IsAtomic none hash = search atomic_rules
  process_decoded-IsAtomic (some f) hash =
      search (atomic_rules, step_rules, handle_fact-IsAtomic, handle_known-IsAtomic) depth 20

  process_fact-IsAtomic : (payload : String) → IsAtomic (process_fact v group payload)
  unfolding process_fact
  process_fact-IsAtomic payload = record {
    at = λ env w h. (process_decoded-IsAtomic _ _).at env w h;
  }

module _ (env : Env) (w : World) (e : Error) where
  -- If `Create` returns an error, at whichever statement and for whatever reason (a failed call of the
  -- database at BeginTx or Commit included), the committed tables are those from before the call.
  pub create_atomic :
      (actor : String) (order : Order) (operation key hash : String)
      → (create actor order operation key hash env w).0 ≡ err e
      → (create actor order operation key hash env w).1.committed ≡ w.committed
  create_atomic a o p k h x = (create-IsAtomic a o p k h).at env w x

  -- If `RequestCancellation` returns an error, at whichever statement and for whatever reason, the
  -- committed tables are those from before the call.
  pub request_cancellation_atomic :
      (actor id operation key hash reason : String) (version : ℕ) (at : Time)
      → (request_cancellation actor id operation key hash reason version at env w).0 ≡ err e
      → (request_cancellation actor id operation key hash reason version at env w).1.committed
        ≡ w.committed
  request_cancellation_atomic a i o k h r v at x =
      (request_cancellation-IsAtomic a i o k h r v at).at env w x

  -- If `ProcessFact` returns an error, at whichever statement and for whatever reason, the committed
  -- tables are those from before the call.
  pub process_fact_atomic :
      (v : Option QuoteVerifier) (group payload : String)
      → (process_fact v group payload env w).0 ≡ err e
      → (process_fact v group payload env w).1.committed ≡ w.committed
  process_fact_atomic v g p x = (process_fact-IsAtomic v g p).at env w x
