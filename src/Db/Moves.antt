-- ===== src/Db/Moves.antt =====
-- What holds of the tables after an action that returns a value: rules for the parts of an action.
use stream_weave.Prelude.{
  ◌≡◌, refl, Bool, true, false, if◌then◌else◌, Result, ok, err, Bool-cases, inl, inr,
}
use stream_weave.App.{Error}
use stream_weave.Db.Tables.{Database}
use stream_weave.Db.Monad.{
  Env, World, Tx, Query, pure, fail, statement, mapping, transaction, skip, commit, ◌>>=◌, continue,
}
use stream_weave.Db.Keeps.{Keeps}

abbrev pub Rel : Type 1
Rel = Database → Database → Type 0

-- From `H`, if `m` returns a value, it ends in `K`.
pub record Moves (H K : Rel) {A : Type 0} (m : Tx A) : Type 0 where
  pub at :
      (env : Env) (w : World) (a : A)
      → H w.committed w.working
      → (m env w).0 ≡ ok a
      → K (m env w).1.committed (m env w).1.working

pub Moves-Keeps : (H : Rel) {A : Type 0} (m : Tx A) → Keeps H m → Moves H H m
Moves-Keeps H m k = record { at = λ env w a h e. k.at env w h }

pub Moves-bind :
    (H K L : Rel) {A B : Type 0} (m : Tx A) (f : A → Tx B)
    → Moves H K m
    → ((a : A) → Moves K L (f a))
    → Moves H L (m >>= f)
unfolding ◌>>=◌
Moves-bind H K L {A} {B} m f hm hf = record {
  at = λ env w b h e. go env w b (m env w).0 (m env w).1 (λ a x. hm.at env w a h x) e;
}
  where
    go :
        (env : Env) (w : World) (b : B) (r : Result Error A) (w' : World)
        → ((a : A) → r ≡ ok a → K w'.committed w'.working)
        → (continue r f env w').0 ≡ ok b
        → L (continue r f env w').1.committed (continue r f env w').1.working
    go env w b (ok a) w' k e = (hf a).at env w' b (k a refl) e
    go env w b (err x) w' k e = cc

-- A statement of a transaction, as the code calls it.
pub Moves-statement :
    (H K : Rel) {A : Type 0} (q : Query A)
    → ((c db : Database) (a : A) (db' : Database) → q db ≡ ok (a, db') → H c db → K c db')
    → Moves H K (mapping (statement q))
unfolding mapping statement
Moves-statement H K {A} q k = record { at = λ env w a h e. go env w a (q w.working) refl h e }
  where
    go :
        (env : Env) (w : World) (a : A) (r : Result Error (A × Database))
        → q w.working ≡ r
        → H w.committed w.working
        → (mapping (statement q) env w).0 ≡ ok a
        → K (mapping (statement q) env w).1.committed (mapping (statement q) env w).1.working
    go env w a (ok (b, db)) x h e = elim (Bool-cases (env.fault w.calls)) [
      | inl f ↦ cc (rw f at e)
      | inr f ↦ rw (f, x) (k _ _ b db x h)
    ]
    go env w a (err y) x h e = elim (Bool-cases (env.fault w.calls)) [
      | inl f ↦ cc (rw f at e)
      | inr f ↦ cc (rw (f, x) at e)
    ]

pub Moves-commit : (H K : Rel) → ((c d : Database) → H c d → K d d) → Moves H K commit
unfolding commit
Moves-commit H K k = record {
  at = λ env w a h e. elim (Bool-cases (env.fault w.calls)) [
    | inl f ↦ cc (rw f at e)
    | inr f ↦ rw f (k _ _ h)
  ];
}

pub Moves-if :
    (H K : Rel) {A : Type 0} (b : Bool) (m n : Tx A)
    → (b ≡ true → Moves H K m)
    → (b ≡ false → Moves H K n)
    → Moves H K (if b then m else n)
Moves-if H K true m n hm hn = hm refl
Moves-if H K false m n hm hn = hn refl

pub Moves-pure :
    (H K : Rel) {A : Type 0} (a : A) → ((c d : Database) → H c d → K c d) → Moves H K (pure a)
unfolding pure
Moves-pure H K a k = record { at = λ env w b h e. k _ _ h }

pub Moves-skip : (H K : Rel) → ((c d : Database) → H c d → K c d) → Moves H K skip
unfolding skip
Moves-skip H K k = record { at = λ env w b h e. k _ _ h }

pub Moves-fail : (H K : Rel) {A : Type 0} (x : Error) → Moves H K (fail {A = A} x)
unfolding fail
Moves-fail H K x = record { at = λ env w b h e. cc }

-- A transaction begins with its tables equal to the committed ones, and ends so.
pub Moves-transaction :
    (P Q : Database → Type 0) (H : Rel) {A : Type 0} (m : Tx A)
    → ((c : Database) → P c → H c c)
    → Moves H (λ c d. Q c) m
    → Moves (λ c d. P c) (λ c d. Q c) (transaction m)
unfolding transaction
Moves-transaction P Q H m b k = record {
  at = λ env w a h e. elim (Bool-cases (env.fault w.calls)) [
    | inl f ↦ cc (rw f at e)
    | inr f ↦ rw f (k.at env _ a (b _ h) (rw f at e))
  ];
}

-- A statement whose value tells something of the tables to the rest.
pub Moves-statement_bind :
    {A B : Type 0} (H : Rel) (K : A → Rel) (L : Rel) (q : Query A) (f : A → Tx B)
    → ((c db : Database) (a : A) (db' : Database) → q db ≡ ok (a, db') → H c db → K a c db')
    → ((a : A) → Moves (K a) L (f a))
    → Moves H L (mapping (statement q) >>= f)
unfolding mapping statement ◌>>=◌
Moves-statement_bind {A} {B} H K L q f k kf = record {
  at = λ env w b h e. go env w b (q w.working) refl h e;
}
  where
    go :
        (env : Env) (w : World) (b : B) (r : Result Error (A × Database))
        → q w.working ≡ r
        → H w.committed w.working
        → ((mapping (statement q) >>= f) env w).0 ≡ ok b
        → L
            ((mapping (statement q) >>= f) env w).1.committed
            ((mapping (statement q) >>= f) env w).1.working
    go env w b (ok (a, db)) x h e = elim (Bool-cases (env.fault w.calls)) [
      | inl fl ↦ cc (rw fl at e)
      | inr fl ↦ rw (fl, x) ((kf a).at env _ b (k _ _ a db x h) (rw (fl, x) at e))
    ]
    go env w b (err y) x h e = elim (Bool-cases (env.fault w.calls)) [
      | inl fl ↦ cc (rw fl at e)
      | inr fl ↦ cc (rw (fl, x) at e)
    ]
