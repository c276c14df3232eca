-- ===== src/Store/Idempotency/Later.antt =====
-- A key that a call took refuses or replays every later call that names it.
use stream_weave.Prelude.{ℕ, ◌≡◌, ◌≢◌, String, false, List, str_eq, ok}
use stream_weave.Orders.Model.{Order, Time}
use stream_weave.App.{CreateResult}
use stream_weave.Db.Monad.{Env, World}
use stream_weave.Store.Create.{create}
use stream_weave.Store.Cancel.{request_cancellation}
use stream_weave.Store.Requests.{Request, serve_all, serve_all-Keeps, transaction-clean}
use stream_weave.Store.Idempotency.{IsTaken, IsTaken-IsInvariant}
use stream_weave.Store.Idempotency.Calls.{
  create-takes, create-unchanged, create-refused, cancellation-takes, cancellation-unchanged,
}

create-clean :
    (actor : String) (order : Order) (operation key hash : String) (r : CreateResult) (env : Env)
    (w : World)
    → (create actor order operation key hash env w).0 ≡ ok r
    → (create actor order operation key hash env w).1.working
      ≡ (create actor order operation key hash env w).1.committed
unfolding create
create-clean actor order operation key hash r env w h = transaction-clean _ r env w h

cancellation-clean :
    (actor id operation key hash reason : String) (version : ℕ) (at : Time) (o : Order) (env : Env)
    (w : World)
    → (request_cancellation actor id operation key hash reason version at env w).0 ≡ ok o
    → (request_cancellation actor id operation key hash reason version at env w).1.working
      ≡ (request_cancellation actor id operation key hash reason version at env w).1.committed
unfolding request_cancellation
cancellation-clean actor id operation key hash reason version at o env w h =
    transaction-clean _ o env w h

module _ (actor : String) (order : Order) (operation key hash : String) (first : CreateResult)
    (env : Env) (w : World) (l : List Request)
    (succeeds : (create actor order operation key hash env w).0 ≡ ok first) where
  abbrev after_create : World
  after_create = serve_all l env (create actor order operation key hash env w).1

  IsTaken-after_create : IsTaken actor operation key hash after_create.committed.idempotency
  IsTaken-after_create =
      (serve_all-Keeps (λ d. IsTaken actor operation key hash d.idempotency)
        (IsTaken-IsInvariant actor operation key hash) l env _
        (t, cc (t, create-clean actor order operation key hash first env w succeeds))).0
    where
      t :
          IsTaken actor operation key hash
            (create actor order operation key hash env w).1.committed.idempotency
      t = (create-takes actor order operation key hash).at env w first tt succeeds

  -- After a Create that succeeded, and any later calls of Create, RequestCancellation and
  -- ProcessFact, with any failures of the database, another Create by the same actor with the
  -- same operation and key, of whatever order and request hash and at any time, before or after the
  -- stored expires_at, changes no committed table.
  pub create_once :
      (order' : Order) (hash' : String)
      → (create actor order' operation key hash' env after_create).1.committed
        ≡ after_create.committed
  create_once order' hash' =
      create-unchanged actor order' operation key hash' hash env after_create IsTaken-after_create

  -- After a Create that succeeded, and any later calls of Create, RequestCancellation and
  -- ProcessFact, with any failures of the database, a Create by the same actor with the same
  -- operation and key and another request hash does not succeed at any time, before or after the
  -- stored expires_at.
  pub create_conflict :
      (order' : Order) (hash' : String) (r : CreateResult)
      → str_eq hash hash' ≡ false
      → (create actor order' operation key hash' env after_create).0 ≢ ok r
  create_conflict order' hash' r other =
      create-refused actor order' operation key hash' hash env after_create IsTaken-after_create
        other r

module _ (actor id operation key hash reason : String) (version : ℕ) (at : Time) (first : Order)
    (env : Env) (w : World) (l : List Request)
    (succeeds : (request_cancellation actor id operation key hash reason version at env w).0
      ≡ ok first) where
  abbrev after_cancellation : World
  after_cancellation =
      serve_all l env (request_cancellation actor id operation key hash reason version at env w).1

  IsTaken-after_cancellation :
      IsTaken actor operation key hash after_cancellation.committed.idempotency
  IsTaken-after_cancellation =
      (serve_all-Keeps (λ d. IsTaken actor operation key hash d.idempotency)
        (IsTaken-IsInvariant actor operation key hash) l env _
        (
          t,
          cc (
            t,
            cancellation-clean actor id operation key hash reason version at first env w succeeds,
          ),
        )).0
    where
      t :
          IsTaken actor operation key hash
            (request_cancellation actor id operation key hash reason version at env
              w).1.committed.idempotency
      t =
          (cancellation-takes actor id operation key hash reason version at).at env w first tt
            succeeds

  -- After a RequestCancellation that succeeded, and any later calls of Create,
  -- RequestCancellation and ProcessFact, with any failures of the database, another one by the
  -- same actor with the same operation and key, whatever its other arguments and at any time, before
  -- or after the stored expires_at, changes no committed table.
  pub cancellation_once :
      (id' hash' reason' : String) (version' : ℕ) (at' : Time)
      → (request_cancellation actor id' operation key hash' reason' version' at' env
          after_cancellation).1.committed
        ≡ after_cancellation.committed
  cancellation_once id' hash' reason' version' at' =
      cancellation-unchanged actor id' operation key hash' reason' version' at' hash env
        after_cancellation IsTaken-after_cancellation
