-- ===== src/Db/Keeps.antt =====
-- Invariants of the tables: rules, one for each way to build an action. `H c d` relates the committed
-- tables `c` to those of the running transaction, `d`.
use stream_weave.Prelude.{
  ◌≡◌, refl, Bool, true, false, Option, none, some, if◌then◌else◌, Result, ok, err, Bool-cases, inl,
  inr, arith, String,
}
use stream_weave.App.{Error}
use stream_weave.Db.Tables.{Database}
use stream_weave.Db.Monad.{
  Env, World, Tx, Query, pure, fail, lift, statement, mapping, transaction, auto_commit, skip,
  commit, new_uuid, now_utc, ◌>>=◌, continue,
}
use stream_weave.Db.Queries.{one_row, get_order, get_order_items, get_saga_by_order_id}
use stream_weave.Db.Messages.{get_idempotency, get_inbox}

module _ (H : Database → Database → Type 0) where
  -- A statement that succeeds keeps `H`.
  pub record KeepsQuery {A : Type 0} (q : Query A) : Type 0 where
    pub at : (c db : Database) {a : A} {db' : Database} → q db ≡ ok (a, db') → H c db → H c db'

  abbrev pub Holds : World → Type 0
  Holds w = H w.committed w.working

  -- `H` stands when the transaction is committed.
  abbrev pub Commits : Type 0
  Commits = (c d : Database) → H c d → H d d

  -- `H` stands when a transaction is begun or rolled back.
  abbrev pub Begins : Type 0
  Begins = (c d : Database) → H c d → H c c

  -- `m` keeps `H`, whether it returns or fails.
  pub record Keeps {A : Type 0} (m : Tx A) : Type 0 where
    pub at : (env : Env) (w : World) → Holds w → Holds (m env w).1

  module _ {A : Type 0} where
    pub Keeps-pure : (a : A) → Keeps (pure a)
    unfolding pure
    Keeps-pure a = record { at = λ env w h. h }

    pub Keeps-fail : (e : Error) → Keeps (fail {A = A} e)
    unfolding fail
    Keeps-fail e = record { at = λ env w h. h }

    pub Keeps-lift : (r : Result Error A) → Keeps (lift r)
    unfolding lift
    Keeps-lift r = record { at = λ env w h. h }

    pub Keeps-statement : (q : Query A) → KeepsQuery q → Keeps (statement q)
    unfolding statement
    Keeps-statement q k = record { at = λ env w h. go env w h (q w.working) refl }
      where
        go :
            (env : Env) (w : World)
            → Holds w
            → (r : Result Error (A × Database)) → q w.working ≡ r
            → Holds (statement q env w).1
        go env w h (ok (a, db)) e = elim (Bool-cases (env.fault w.calls)) [
          | inl f ↦ rw f h
          | inr f ↦ rw (f, e) (k.at _ _ e h)
        ]
        go env w h (err x) e = elim (Bool-cases (env.fault w.calls)) [
          | inl f ↦ rw f h
          | inr f ↦ rw (f, e) h
        ]

    pub Keeps-mapping : (m : Tx A) → Keeps m → Keeps (mapping m)
    unfolding mapping
    Keeps-mapping m k = record { at = λ env w h. k.at env w h }

    pub Keeps-auto_commit : (m : Tx A) → Begins → Commits → Keeps m → Keeps (auto_commit m)
    unfolding auto_commit
    Keeps-auto_commit m b c k = record { at = λ env w h. c _ _ (k.at env _ (b _ _ h)) }

    pub Keeps-transaction : (m : Tx A) → Begins → Keeps m → Keeps (transaction m)
    unfolding transaction
    Keeps-transaction m b k = record {
      at = λ env w h. elim (Bool-cases (env.fault w.calls)) [
        | inl f ↦ rw f h
        | inr f ↦ rw f (b _ _ (k.at env _ (b _ _ h)))
      ];
    }

    pub Keeps-if : (b : Bool) (m n : Tx A) → Keeps m → Keeps n → Keeps (if b then m else n)
    Keeps-if true m n hm hn = hm
    Keeps-if false m n hm hn = hn

    pub KeepsQuery-one_row : (f : Database → Option A) → KeepsQuery (λ db. one_row (f db) db)
    KeepsQuery-one_row f = record { at = λ c db e h. go c db (f db) e h }
      where
        go :
            (c db : Database) (o : Option A) {a : A} {db' : Database}
            → one_row o db ≡ ok (a, db')
            → H c db
            → H c db'
        go c db none e h = cc
        go c db (some a) e h = ground arith

  pub Keeps-skip : Keeps skip
  unfolding skip
  Keeps-skip = record { at = λ env w h. h }

  pub Keeps-commit : Commits → Keeps commit
  unfolding commit
  Keeps-commit c = record {
    at = λ env w h. elim (Bool-cases (env.fault w.calls)) [
      | inl f ↦ rw f h
      | inr f ↦ rw f (c _ _ h)
    ];
  }

  pub Keeps-new_uuid : Keeps new_uuid
  unfolding new_uuid
  Keeps-new_uuid = record { at = λ env w h. h }

  pub Keeps-now_utc : Keeps now_utc
  unfolding now_utc
  Keeps-now_utc = record { at = λ env w h. h }

  module _ {A B : Type 0} where
    pub Keeps-bind : (m : Tx A) (f : A → Tx B) → Keeps m → ((a : A) → Keeps (f a)) → Keeps (m >>= f)
    unfolding ◌>>=◌
    Keeps-bind m f hm hf = record { at = λ env w h. go env (m env w).0 (m env w).1 (hm.at env w h) }
      where
        go :
            (env : Env) (r : Result Error A) (w' : World) → Holds w' → Holds (continue r f env w').1
        go env (ok a) w' h = (hf a).at env w' h
        go env (err e) w' h = h

  pub get_order-Keeps : (id : String) → KeepsQuery (get_order id)
  unfolding get_order
  get_order-Keeps id = KeepsQuery-one_row _

  pub get_saga-Keeps : (id : String) → KeepsQuery (get_saga_by_order_id id)
  unfolding get_saga_by_order_id
  get_saga-Keeps id = KeepsQuery-one_row _

  pub get_idempotency-Keeps : (a o k : String) → KeepsQuery (get_idempotency a o k)
  unfolding get_idempotency
  get_idempotency-Keeps a o k = KeepsQuery-one_row _

  pub get_inbox-Keeps : (g id : String) → KeepsQuery (get_inbox g id)
  unfolding get_inbox
  get_inbox-Keeps g id = KeepsQuery-one_row _

  pub get_order_items-Keeps : (id : String) → KeepsQuery (get_order_items id)
  unfolding get_order_items
  get_order_items-Keeps id = record { at = λ c db e h. ground arith }

pub ruleset keeps_rules = (
  Keeps-pure, Keeps-fail, Keeps-lift, Keeps-statement, Keeps-mapping, Keeps-auto_commit,
  Keeps-transaction, Keeps-if, Keeps-skip, Keeps-commit, Keeps-new_uuid, Keeps-now_utc, Keeps-bind,
  get_order-Keeps, get_saga-Keeps, get_idempotency-Keeps, get_inbox-Keeps, get_order_items-Keeps,
)
