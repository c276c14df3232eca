-- ===== src/Identity/Monad.antt =====
-- What the identity service runs on: statements, transactions, and the ports that stand outside.
-- The world holds the committed tables; inside a transaction, the tables as it sees them. Transactions
-- run one after another, but other requests may commit between two accesses to the database.
use Prim.Native.Char.{Char}
use stream_weave.Prelude.{
  ℕ, suc, String, Bool, Option, none, some, if◌then◌else◌, Result, ok, err, List,
}
use stream_weave.Identity.Model.{Instant, Error, not_found, conflict, dependency, outside}
use stream_weave.Identity.Tables.{Tables}

-- The errors of the driver that mapDatabaseError tells apart.
pub data DbError : Type 0 where
  no_rows unique_violation db_failure : DbError

unfoldable pub map_database_error : DbError → Error
map_database_error no_rows = not_found
map_database_error unique_violation = conflict
map_database_error db_failure = dependency

-- The arguments of Tokens.Sign
pub record Claims : Type 0 where
  pub subject : String
  pub audience : String
  pub kind : String
  pub session_id : String
  pub roles : List String
  pub scopes : List String
  pub ttl : ℕ

-- A Limiter may be absent, and may be a DimensionLimiter; `none` is an error.
pub data LimiterPort : Type 0 where
  no_limiter : LimiterPort
  one_key : (ℕ → String → Option Bool) → LimiterPort
  many_keys : (ℕ → List String → Option Bool) → LimiterPort

-- The ports and the libraries. A number counts the calls of the outside made so far: `fault n` is
-- whether call `n` of the database fails, and `others n` what other requests commit before it.
pub record Env : Type 0 where
  pub fault : ℕ → Bool
  pub others : ℕ → Tables → Tables
  pub clock : ℕ → Instant
  pub new_v7 : ℕ → Option String
  pub hash_password : ℕ → String → Option String
  pub verify_password : String → String → Bool
  pub new_opaque : ℕ → Option (String × String)
  pub hash_opaque : String → String
  pub sign : ℕ → Claims → Option String
  pub limiter : LimiterPort
  pub mailer : Option (ℕ → String → String → String → Bool)
  pub human_audience : String
  pub parse_address : String → Option String
  pub lower : Char → Char
  pub sha256_hex : String → String
  pub decode_scopes : String → Option (List String)

pub record World : Type 0 where
  pub tables : Tables
  pub asked : ℕ

abbrev pub Act : Type 0 → Type 0
Act A = Env → World → Result Error A × World

abbrev pub Query : Type 0 → Type 0
Query A = Tables → Result DbError (A × Tables)

abbrev pub tick : World → World
tick w = record w { asked = suc w.asked }

-- The world after the other requests that committed before a call.
abbrev pub met_others : Env → World → World
met_others env w = record { tables = env.others w.asked w.tables; asked = suc w.asked }

module _ {A : Type 0} where
  unfoldable pub pure : A → Act A
  pure a env w = (ok a, w)

  unfoldable pub fail : Error → Act A
  fail e env w = (err e, w)

  -- A call of a port or a library, which depends on how much was asked before.
  unfoldable pub consult : (Env → ℕ → A) → Act A
  consult f env w = (ok (f env w.asked), tick w)

  -- The error of `m` as a value, for code that looks at it.
  unfoldable pub attempt : Act A → Act (Result Error A)
  attempt m env w = let (r, w') = m env w in (ok r, w')

  abbrev pub after_query : Result DbError (A × Tables) → World → Result Error A × World
  after_query (ok (a, t)) w = (ok a, record w { tables = t })
  after_query (err e) w = (err (map_database_error e), w)

  -- A statement of the running transaction, its error mapped.
  unfoldable pub statement : Query A → Act A
  unfolding map_database_error
  statement q env w =
      if env.fault w.asked then (err dependency, tick w) else after_query (q w.tables) (tick w)

  abbrev pub after_select : Result DbError A → World → Result Error A × World
  after_select (ok a) w = (ok a, w)
  after_select (err e) w = (err (map_database_error e), w)

  -- A SELECT on the connection pool, outside a transaction.
  unfoldable pub select : (Tables → Result DbError A) → Act A
  unfolding map_database_error
  select q env w =
      if env.fault w.asked
      then (err dependency, tick w)
      else after_select (q (env.others w.asked w.tables)) (met_others env w)

  -- A statement on the connection pool, which commits by itself.
  unfoldable pub execute : Query A → Act A
  unfolding map_database_error
  execute q env w =
      if env.fault w.asked
      then (err dependency, tick w)
      else after_query (q (env.others w.asked w.tables)) (met_others env w)

  -- Commit, or Rollback to the tables that the transaction began with.
  abbrev pub closing : Env → Tables → Result Error A × World → Result Error A × World
  closing env t (err e, w) = (err e, record w { tables = t })
  closing env t (ok a, w) =
      if env.fault w.asked then (err dependency, tick (record w { tables = t })) else (ok a, tick w)

  unfoldable pub with_transaction : Act A → Act A
  with_transaction body env w =
      if env.fault w.asked
      then (err dependency, tick w)
      else closing env (env.others w.asked w.tables) (body env (met_others env w))

module _ {A B : Type 0} where
  abbrev pub continue : Result Error A → (A → Act B) → Act B
  continue (ok a) f env w = f a env w
  continue (err e) f env w = (err e, w)

  infixl 10 ◌>>=◌ ◌>>◌
  unfoldable pub ◌>>=◌ : Act A → (A → Act B) → Act B
  ◌>>=◌ m f env w = let (r, w') = m env w in continue r f env w'

  abbrev pub ◌>>◌ : Act A → Act B → Act B
  m >> k = m >>= λ _. k

abbrev pub skip : Act (Unit {0})
skip = pure tt

-- `if b { return err }`
abbrev pub guard : Bool → Error → Act (Unit {0})
guard b e = if b then fail e else skip

-- The answer of a port, `none` being its error.
abbrev pub answer : {A : Type 0} → Option A → Act A
answer none = fail outside
answer (some a) = pure a

abbrev pub ask : {A : Type 0} → (Env → ℕ → Option A) → Act A
ask f = consult f >>= answer

-- s.clock.Now()
abbrev pub now : Act Instant
now = consult (λ env n. env.clock n)

-- newIdentityID
abbrev pub new_identity_id : Act String
new_identity_id = ask (λ env n. env.new_v7 n)
