-- ===== src/Store/Invariant/Calls.antt =====
-- Every call of the store keeps every invariant of its statements.
use stream_weave.Prelude.{ℕ, ◌+◌, String, List, [], ◌∷◌}
use stream_weave.Orders.Model.{Item, Order, Time}
use stream_weave.Db.Tables.{Database}
use stream_weave.Db.Keeps.{Begins, Keeps, Keeps-bind, keeps_rules}
use stream_weave.Store.Invariant.{
  IsInvariant, load_order-Keeps, command_payload-Keeps, insert_outbox-Keeps,
  insert_compensation_commands-Keeps,
}
use stream_weave.Store.Create.{insert_items, replay_create, create_new, create}
use stream_weave.Store.Cancel.{replay_cancellation, cancel_new, request_cancellation}

module _ (H : Database → Database → Type 0) (i : IsInvariant H) where
  insert_items-Keeps :
      (id : String) (index : ℕ) (items : List Item) → Keeps H (insert_items id index items)
  unfolding insert_items
  insert_items-Keeps id index [] = search keeps_rules
  insert_items-Keeps id index (item ∷ rest) =
      Keeps-bind H _ _ (search (keeps_rules, i.on_insert_item))
        (λ _. insert_items-Keeps id (index + 1) rest)

  replay_create-Keeps : (a o k h : String) → Keeps H (replay_create a o k h)
  unfolding replay_create
  replay_create-Keeps a o k h = search (keeps_rules, load_order-Keeps H i, i.on_commit) depth 14

  pub create_new-Keeps : (order : Order) → Keeps H (create_new order)
  unfolding create_new
  create_new-Keeps order =
      search
        (
          keeps_rules,
          insert_items-Keeps,
          command_payload-Keeps H i,
          insert_outbox-Keeps H i,
          i.on_insert_order,
          i.on_insert_saga,
          i.on_insert_outbox,
          i.on_commit,
        )
        depth 30

  pub create-Keeps :
      Begins H
      → (actor : String) (order : Order) (operation key hash : String)
      → Keeps H (create actor order operation key hash)
  unfolding create
  create-Keeps b actor order operation key hash =
      search (keeps_rules, replay_create-Keeps, create_new-Keeps, i.on_insert_idempotency) depth 10

  replay_cancellation-Keeps : (a o k h : String) → Keeps H (replay_cancellation a o k h)
  unfolding replay_cancellation
  replay_cancellation-Keeps a o k h =
      search (keeps_rules, load_order-Keeps H i, i.on_commit) depth 14

  pub cancel_new-Keeps :
      (a id o k reason : String) (v : ℕ) (at : Time) → Keeps H (cancel_new a id o k reason v at)
  unfolding cancel_new
  cancel_new-Keeps a id o k reason v at =
      search
        (
          keeps_rules,
          insert_compensation_commands-Keeps H i,
          i.on_cancellation,
          i.on_response,
          i.on_insert_outbox,
          i.on_saga_phase,
          i.on_commit,
        )
        depth 30

  pub request_cancellation-Keeps :
      Begins H
      → (a id o k h reason : String) (v : ℕ) (at : Time)
      → Keeps H (request_cancellation a id o k h reason v at)
  unfolding request_cancellation
  request_cancellation-Keeps b a id o k h reason v at =
      search (keeps_rules, replay_cancellation-Keeps, cancel_new-Keeps, i.on_insert_idempotency)
        depth 10
