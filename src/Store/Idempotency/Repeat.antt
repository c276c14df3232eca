-- ===== src/Store/Idempotency/Repeat.antt =====
-- The shape that Create and RequestCancellation share: the key first, then the replay or the work.
use stream_weave.Prelude.{
  ℕ, ◌≡◌, String, true, false, not, arith, find_first, str_eq, eq_iff, ◌==◌, ok, Option-cases, inl,
  inr, if◌then◌else◌,
}
use stream_weave.App.{app, idempotency_conflict}
use stream_weave.Db.Tables.{IdempotencyRow, Database}
use stream_weave.Db.Monad.{Tx, statement, mapping, transaction, fail, ◌>>=◌}
use stream_weave.Db.Messages.{has_key, insert_idempotency, get_idempotency}
use stream_weave.Db.Keeps.{Keeps}
use stream_weave.Db.Moves.{
  Rel, Moves, Moves-statement_bind, Moves-if, Moves-fail, Moves-transaction,
}
use stream_weave.Db.Ends.{Ends, Moves-Ends}
use stream_weave.Store.Idempotency.{IsTaken, insert-takes}

module _ {A : Type 0} (actor operation key hash : String) (row : IdempotencyRow)
    (rest : IdempotencyRow → Tx A) (work : Tx A) where
  -- The branch for a key that is taken.
  abbrev replaying : Tx A
  replaying = mapping (statement (get_idempotency actor operation key)) >>= λ found.
      if not (str_eq found.request_hash hash) then fail (app idempotency_conflict) else rest found

  abbrev pub keyed : Tx A
  keyed =
      transaction
        (mapping (statement (insert_idempotency row)) >>= λ n. if n == 0 then replaying else work)

  abbrev Taken : Database → Type 0
  Taken d = IsTaken actor operation key hash d.idempotency

  module _ (own_actor : row.actor_id ≡ actor) (own_operation : row.operation ≡ operation)
      (own_key : row.key ≡ key) where
    module _ (own_hash : row.request_hash ≡ hash)
        (rest_keeps : (r : IdempotencyRow) → Keeps (λ c d. Taken d) (rest r))
        (rest_ends : (r : IdempotencyRow) → Ends (rest r))
        (work_keeps : Keeps (λ c d. Taken d) work) (work_ends : Ends work) where
      found-Taken :
          (c db : Database) (r : IdempotencyRow) (db' : Database)
          → get_idempotency actor operation key db ≡ ok (r, db')
          → Unit {0}
          → not (str_eq r.request_hash hash) ≡ false
          → Taken db'
      unfolding get_idempotency
      found-Taken c db r db' e _ h =
          elim (Option-cases (find_first (has_key actor operation key) db.idempotency)) [
            | inl x ↦ cc (rw x at e)
            | inr (q, x) ↦ ground arith
          ]

      replaying-Moves : Moves (λ c d. Unit {0}) (λ c d. Taken c) replaying
      replaying-Moves =
          Moves-statement_bind (λ c d. Unit {0})
            (λ r c d. not (str_eq r.request_hash hash) ≡ false → Taken d) (λ c d. Taken c) _ _
            found-Taken
            λ r.
              Moves-if _ _ (not (str_eq r.request_hash hash)) _ _ (λ e. Moves-fail _ _ _)
                (λ e. record {
                  at = λ env w a h x.
                      (Moves-Ends Taken _ (rest_keeps r) (rest_ends r)).at env w a (h e) x;
                })

      -- A request that succeeds leaves its key taken.
      pub keyed-takes : Moves (λ c d. Unit {0}) (λ c d. Taken c) keyed
      keyed-takes =
          Moves-transaction (λ c. Unit {0}) Taken (λ c d. Unit {0}) _ (λ c h. h)
            (Moves-statement_bind (λ c d. Unit {0}) (λ n c d. (n == 0) ≡ false → Taken d)
              (λ c d. Taken c) _ _
              (λ c db n db' x h f.
                insert-takes actor operation key hash row db n db' own_actor own_operation own_key
                  own_hash x f)
              λ n.
                Moves-if _ _ (n == 0) _ _
                  (λ e. record { at = λ env w a h x. replaying-Moves.at env w a tt x })
                  (λ e. record {
                    at =
                        λ env w a h x. (Moves-Ends Taken _ work_keeps work_ends).at env w a (h e) x;
                  }))

    -- The tables when the key is taken before the call, by a request with the hash `before`.
    module _ (before : String) (db : Database)
        (taken : IsTaken actor operation key before db.idempotency) where
      abbrev Still : Rel
      Still c d = (c ≡ db) × (d ≡ db)

      insert-still :
          (c d : Database) (n : ℕ) (d' : Database)
          → insert_idempotency row d ≡ ok (n, d')
          → Still c d
          → ((n == 0) ≡ true) × Still c d'
      unfolding insert_idempotency
      insert-still c d n d' e h =
          elim (Option-cases (find_first (has_key actor operation key) db.idempotency)) [
            | inl x ↦ cc (rw x at taken)
            | inr (q, x) ↦ ground arith
          ]

      get-still :
          (c d : Database) (r : IdempotencyRow) (d' : Database)
          → get_idempotency actor operation key d ≡ ok (r, d')
          → Still c d
          → (str_eq r.request_hash before ≡ true) × Still c d'
      unfolding get_idempotency
      get-still c d r d' e h =
          elim (Option-cases (find_first (has_key actor operation key) db.idempotency)) [
            | inl x ↦ cc (rw x at taken)
            | inr (q, x) ↦ ground (arith, taken)
          ]

      keyed-Moves :
          (Q : Database → Type 0)
          → ((r : IdempotencyRow)
              → str_eq r.request_hash before ≡ true
              → not (str_eq r.request_hash hash) ≡ false
              → Moves Still (λ c d. Q c) (rest r))
          → Moves (λ c d. c ≡ db) (λ c d. Q c) keyed
      keyed-Moves Q k =
          Moves-transaction (λ c. c ≡ db) Q Still _ (λ c h. (h, h))
            (Moves-statement_bind Still (λ n c d. ((n == 0) ≡ true) × Still c d) (λ c d. Q c) _ _
              insert-still
              λ n.
                Moves-if _ _ (n == 0) _ _
                  (λ e. record { at = λ env w a h x. replaying-still.at env w a h.1 x })
                  (λ e. record { at = λ env w a h x. cc (h.0, e) }))
        where
          replaying-still : Moves Still (λ c d. Q c) replaying
          replaying-still =
              Moves-statement_bind Still
                (λ r c d. (str_eq r.request_hash before ≡ true) × Still c d) (λ c d. Q c) _ _
                get-still
                λ r.
                  Moves-if _ _ (not (str_eq r.request_hash hash)) _ _ (λ e. Moves-fail _ _ _)
                    (λ e. record { at = λ env w a h x. (k r h.0 e).at env w a h.1 x })

      -- A request whose key is taken changes no committed table when it succeeds.
      pub keyed-unchanged :
          ((r : IdempotencyRow) → Keeps Still (rest r))
          → Moves (λ c d. c ≡ db) (λ c d. c ≡ db) keyed
      keyed-unchanged k =
          keyed-Moves (λ c. c ≡ db) (λ r _ _. record { at = λ env w a h x. ((k r).at env w h).0 })

      -- It does not succeed where the key was taken with another hash.
      pub keyed-conflict : str_eq before hash ≡ false → Moves (λ c d. c ≡ db) (λ c d. ⊥) keyed
      keyed-conflict other =
          keyed-Moves (λ c. ⊥)
            (λ r e f. record {
              at = λ env w a h x. cc (rw ((eq_iff r.request_hash before).0 e, other) at f);
            })
