-- ===== src/Db/Monad.antt =====
-- Statements and transactions. The world holds the committed tables, the tables as the running
-- transaction sees them, and how often the database, the random source and the clock were asked.
-- Transactions run one after another.
use stream_weave.Prelude.{ℕ, suc, String, Bool, true, Option, if◌then◌else◌, Result, ok, err}
use stream_weave.Orders.Model.{Time}
use stream_weave.App.{Error, db_failure, map_error}
use stream_weave.Message.{Fact}
use stream_weave.Db.Tables.{Database}

-- What stands outside the source: whether the n-th call of the database fails (a lost connection, a
-- cancelled context), google/uuid, the clock, JSON decoding and SHA-256.
pub record Env : Type 0 where
  pub fault : ℕ → Bool
  pub uuid : ℕ → String
  pub clock : ℕ → Time
  pub decode_fact : String → Option Fact
  pub sha256_hex : String → String

pub record World : Type 0 where
  pub committed : Database
  pub working : Database
  pub calls : ℕ
  pub ids : ℕ
  pub ticks : ℕ

abbrev pub Tx : Type 0 → Type 0
Tx A = Env → World → Result Error A × World

abbrev pub Query : Type 0 → Type 0
Query A = Database → Result Error (A × Database)

module _ {A : Type 0} where
  unfoldable pub pure : A → Tx A
  pure a env w = (ok a, w)

  unfoldable pub fail : Error → Tx A
  fail e env w = (err e, w)

  unfoldable pub lift : Result Error A → Tx A
  lift r env w = (r, w)

  abbrev after_query : Result Error (A × Database) → World → Result Error A × World
  after_query (ok (a, db)) w = (ok a, record w { working = db; calls = suc w.calls })
  after_query (err e) w = (err e, record w { calls = suc w.calls })

  -- One call of the database. A call that fails for an outside reason changes no table.
  unfoldable pub statement : Query A → Tx A
  statement q env w =
      if env.fault w.calls
      then (err db_failure, record w { calls = suc w.calls })
      else after_query (q w.working) w

  abbrev mapped : Result Error A → Result Error A
  mapped (ok a) = ok a
  mapped (err e) = err (map_error e)

  -- `return mapError(err)` for the error of `m`
  unfoldable pub mapping : Tx A → Tx A
  mapping m env w = let (r, w') = m env w in (mapped r, w')

  abbrev committing : Result Error A × World → Result Error A × World
  committing (r, w) = (r, record w { committed = w.working })

  -- A statement on the connection pool, outside a transaction, commits by itself.
  unfoldable pub auto_commit : Tx A → Tx A
  auto_commit m env w = committing (m env (record w { working = w.committed }))

  -- The deferred Rollback: what was not committed is dropped.
  abbrev rolled_back : Result Error A × World → Result Error A × World
  rolled_back (r, w) = (r, record w { working = w.committed })

  -- BeginTx, the body, and the deferred Rollback.
  unfoldable pub transaction : Tx A → Tx A
  transaction body env w =
      if env.fault w.calls
      then (err (map_error db_failure), record w { calls = suc w.calls })
      else rolled_back (body env (record w { working = w.committed; calls = suc w.calls }))

module _ {A B : Type 0} where
  abbrev pub continue : Result Error A → (A → Tx B) → Tx B
  continue (ok a) f env w = f a env w
  continue (err e) f env w = (err e, w)

  infixl 10 ◌>>=◌ ◌>>◌
  unfoldable pub ◌>>=◌ : Tx A → (A → Tx B) → Tx B
  ◌>>=◌ m f env w = let (r, w') = m env w in continue r f env w'

  abbrev pub ◌>>◌ : Tx A → Tx B → Tx B
  m >> k = m >>= λ _. k

unfoldable pub skip : Tx (Unit {0})
skip env w = (ok tt, w)

-- `if b { m }` before the rest of a function
abbrev pub when : Bool → Tx (Unit {0}) → Tx (Unit {0})
when b m = if b then m else skip

-- tx.Commit, its error mapped
unfoldable pub commit : Tx (Unit {0})
commit env w =
    if env.fault w.calls
    then (err (map_error db_failure), record w { calls = suc w.calls })
    else (ok tt, record w { committed = w.working; calls = suc w.calls })

-- uuid.NewString
unfoldable pub new_uuid : Tx String
new_uuid env w = (ok (env.uuid w.ids), record w { ids = suc w.ids })

-- time.Now().UTC()
unfoldable pub now_utc : Tx Time
now_utc env w = (
  ok (record { nanos = (env.clock w.ticks).nanos; utc = true }),
  record w { ticks = suc w.ticks },
)
