-- ===== src/Store/Idempotency/Calls.antt =====
-- Create and RequestCancellation, called again with a key that is taken.
use stream_weave.Prelude.{ℕ, ◌≡◌, ◌≢◌, refl, String, true, false, str_eq, Result, ok, err}
use stream_weave.Orders.Model.{Order, Time}
use stream_weave.App.{Error, CreateResult}
use stream_weave.Db.Tables.{IdempotencyRow, Database}
use stream_weave.Db.Monad.{Env, World, Tx, mapping, commit, pure, ◌>>=◌, ◌>>◌}
use stream_weave.Db.Queries.{load_order}
use stream_weave.Db.Keeps.{Commits, Keeps, keeps_rules}
use stream_weave.Db.Moves.{Moves}
use stream_weave.Db.Ends.{Ends, ends_rules}
use stream_weave.Store.Invariant.Calls.{create_new-Keeps, cancel_new-Keeps}
use stream_weave.Store.Atomic.Calls.{create_atomic, request_cancellation_atomic}
use stream_weave.Store.Create.{or_empty, accepted_or, replay_create, create_new, create}
use stream_weave.Store.Cancel.{replay_cancellation, cancel_new, request_cancellation}
use stream_weave.Store.Idempotency.{IsTaken, IsTaken-IsInvariant}
use stream_weave.Store.Idempotency.Repeat.{keyed-takes, keyed-unchanged, keyed-conflict}

abbrev replay_answer : Order → IdempotencyRow → CreateResult
replay_answer replayed found = record {
  order = replayed;
  replayed = true;
  response_status = (accepted_or replayed found.response_body).status;
  response_at = (accepted_or replayed found.response_body).created_at;
}

abbrev replay_rest : IdempotencyRow → Tx CreateResult
replay_rest found = do
  replayed ← mapping (load_order (or_empty found.resource_id))
  commit
  pure (replay_answer replayed found)

replay_rest-Keeps :
    (H : Database → Database → Type 0) → Commits H → (r : IdempotencyRow) → Keeps H (replay_rest r)
unfolding load_order
replay_rest-Keeps H k r = search keeps_rules depth 14

replay_rest-Ends : (r : IdempotencyRow) → Ends (replay_rest r)
replay_rest-Ends r = search ends_rules

create_new-Ends : (o : Order) → Ends (create_new o)
unfolding create_new
create_new-Ends o = search ends_rules depth 30

module _ (actor : String) (order : Order) (operation key hash : String) where
  pub create-takes :
      Moves
        (λ c d. Unit {0})
        (λ c d. IsTaken actor operation key hash c.idempotency)
        (create actor order operation key hash)
  unfolding create replay_create
  create-takes =
      keyed-takes actor operation key hash _ replay_rest (create_new order) refl refl refl refl
        (replay_rest-Keeps _ (λ c d h. h)) replay_rest-Ends
        (create_new-Keeps _ (IsTaken-IsInvariant actor operation key hash) order)
        (create_new-Ends order)

  module _ (before : String) (env : Env) (w : World)
      (taken : IsTaken actor operation key before w.committed.idempotency) where
    pub create-unchanged : (create actor order operation key hash env w).1.committed ≡ w.committed
    unfolding create replay_create
    create-unchanged = go ((create actor order operation key hash env w).0) refl
      where
        go :
            (r : Result Error CreateResult)
            → (create actor order operation key hash env w).0 ≡ r
            → (create actor order operation key hash env w).1.committed ≡ w.committed
        go (err e) x = create_atomic env w e actor order operation key hash x
        go (ok a) x =
            (keyed-unchanged actor operation key hash _ replay_rest (create_new order) refl refl
                refl before w.committed taken (replay_rest-Keeps _ (λ c d h. (h.1, h.1)))).at
              env w a refl x

    pub create-refused :
        str_eq before hash ≡ false
        → (r : CreateResult) → (create actor order operation key hash env w).0 ≢ ok r
    unfolding create replay_create
    create-refused other r x =
        (keyed-conflict actor operation key hash _ replay_rest (create_new order) refl refl refl
            before w.committed taken other).at
          env w r refl x

abbrev cancellation_rest : IdempotencyRow → Tx Order
cancellation_rest found = do order ← load_order (or_empty found.resource_id); commit; pure order

cancellation_rest-Keeps :
    (H : Database → Database → Type 0)
    → Commits H
    → (r : IdempotencyRow) → Keeps H (cancellation_rest r)
unfolding load_order
cancellation_rest-Keeps H k r = search keeps_rules depth 14

cancellation_rest-Ends : (r : IdempotencyRow) → Ends (cancellation_rest r)
cancellation_rest-Ends r = search ends_rules

cancel_new-Ends :
    (a id o k reason : String) (v : ℕ) (at : Time) → Ends (cancel_new a id o k reason v at)
unfolding cancel_new
cancel_new-Ends a id o k reason v at = search ends_rules depth 30

module _ (actor id operation key hash reason : String) (version : ℕ) (at : Time) where
  pub cancellation-takes :
      Moves
        (λ c d. Unit {0})
        (λ c d. IsTaken actor operation key hash c.idempotency)
        (request_cancellation actor id operation key hash reason version at)
  unfolding request_cancellation replay_cancellation
  cancellation-takes =
      keyed-takes actor operation key hash _ cancellation_rest
        (cancel_new actor id operation key reason version at) refl refl refl refl
        (cancellation_rest-Keeps _ (λ c d h. h)) cancellation_rest-Ends
        (cancel_new-Keeps _ (IsTaken-IsInvariant actor operation key hash) actor id operation key
          reason version at)
        (cancel_new-Ends actor id operation key reason version at)

  module _ (before : String) (env : Env) (w : World)
      (taken : IsTaken actor operation key before w.committed.idempotency) where
    pub cancellation-unchanged :
        (request_cancellation actor id operation key hash reason version at env w).1.committed
        ≡ w.committed
    unfolding request_cancellation replay_cancellation
    cancellation-unchanged =
        go ((request_cancellation actor id operation key hash reason version at env w).0) refl
      where
        go :
            (r : Result Error Order)
            → (request_cancellation actor id operation key hash reason version at env w).0 ≡ r
            → (request_cancellation actor id operation key hash reason version at env w).1.committed
              ≡ w.committed
        go (err e) x =
            request_cancellation_atomic env w e actor id operation key hash reason version at x
        go (ok a) x =
            (keyed-unchanged actor operation key hash _ cancellation_rest
                (cancel_new actor id operation key reason version at) refl refl refl before
                w.committed taken (cancellation_rest-Keeps _ (λ c d h. (h.1, h.1)))).at
              env w a refl x

    pub cancellation-refused :
        str_eq before hash ≡ false
        → (o : Order)
        → (request_cancellation actor id operation key hash reason version at env w).0 ≢ ok o
    unfolding request_cancellation replay_cancellation
    cancellation-refused other o x =
        (keyed-conflict actor operation key hash _ cancellation_rest
            (cancel_new actor id operation key reason version at) refl refl refl before w.committed
            taken other).at
          env w o refl x
