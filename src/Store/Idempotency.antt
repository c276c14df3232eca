-- ===== src/Store/Idempotency.antt =====
-- Idempotency keys: a key that is taken stays taken, with the hash of its request.
pub mod Repeat
pub mod Calls
pub mod Later
use stream_weave.Prelude.{
  ℕ, ◌≡◌, refl, String, Bool, true, false, Option, none, some, List, [], ◌∷◌, ◌++◌, arith,
  find_first, update_rows, map_option, find_first-append, find_first-append_none,
  find_first-update_rows, find_first-eq-some, eq_refl, str_eq, ◌==◌, Result, ok, Option-cases, inl,
  inr, if◌then◌else◌,
}
use stream_weave.App.{Error}
use stream_weave.Db.Tables.{Accepted, IdempotencyRow, Database}
use stream_weave.Db.Messages.{
  has_key, insert_idempotency, get_idempotency, update_idempotency_response,
}
use stream_weave.Db.Keeps.{KeepsQuery}
use stream_weave.Store.Invariant.{IsInvariant}
use stream_weave.Store.Invariant.Frame.{idempotency-IsInvariant}

module _ (actor operation key hash : String) where
  abbrev has_hash : Option IdempotencyRow → Bool
  has_hash none = false
  has_hash (some r) = str_eq r.request_hash hash

  -- The key of the actor for the operation is taken by a request with this hash.
  abbrev pub IsTaken : List IdempotencyRow → Type 0
  IsTaken l = has_hash (find_first (has_key actor operation key) l) ≡ true

  IsTaken-append :
      (r : IdempotencyRow) (l : List IdempotencyRow) → IsTaken l → IsTaken (l ++ r ∷ [])
  IsTaken-append r l h = elim (Option-cases (find_first (has_key actor operation key) l)) [
    | inl e ↦ cc (rw e at h)
    | inr (a, e) ↦ rw (find_first-append (has_key actor operation key) l (r ∷ []) a e) (rw e at h)
  ]

  abbrev answered : Option String → Option Accepted → IdempotencyRow → IdempotencyRow
  answered id b r = record r { resource_id = id; response_body = b }

  IsTaken-response :
      (a o k : String) (id : Option String) (b : Option Accepted)
      → KeepsQuery (λ c d. IsTaken d.idempotency) (update_idempotency_response a o k id b)
  unfolding update_idempotency_response
  IsTaken-response a o k id b = record {
    at = λ c db e h. ground (
      arith,
      find_first-update_rows (has_key actor operation key) (has_key a o k) (answered id b)
          (λ x. refl) db.idempotency,
    );
  }

  pub IsTaken-IsInvariant : IsInvariant (λ c d. IsTaken d.idempotency)
  IsTaken-IsInvariant = idempotency-IsInvariant IsTaken IsTaken-append IsTaken-response

  -- A new key is taken with the hash of its row.
  pub insert-takes :
      (r : IdempotencyRow) (db : Database) (n : ℕ) (db' : Database)
      → r.actor_id ≡ actor
      → r.operation ≡ operation
      → r.key ≡ key
      → r.request_hash ≡ hash
      → insert_idempotency r db ≡ ok (n, db')
      → (n == 0) ≡ false
      → IsTaken db'.idempotency
  unfolding insert_idempotency
  insert-takes r db n db' ea eo ek eh e fresh =
      elim (Option-cases (find_first (has_key actor operation key) db.idempotency)) [
        | inl x ↦ ground (
          arith,
          find_first-append_none (has_key actor operation key) db.idempotency r x own,
          eq_refl hash,
        )
        | inr (q, x) ↦ ground arith
      ]
    where
      own : has_key actor operation key r ≡ true
      own = rw (ea, eo, ek, eq_refl actor, eq_refl operation, eq_refl key)
