-- ===== src/Identity/Ends/Avoids.antt =====
-- Which errors an action returns: rules for `search`. `X` holds of each error.
use stream_weave.Prelude.{ℕ, Bool, true, false, Option, if◌then◌else◌, Result, ok, err}
use stream_weave.Identity.Model.{Error, not_found, conflict, dependency, outside}
use stream_weave.Identity.Tables.{Tables}
use stream_weave.Identity.Monad.{
  Env, Act, Query, DbError, no_rows, unique_violation, db_failure, map_database_error, pure, fail,
  consult, attempt, answer, statement, select, with_transaction, ◌>>=◌,
}
use stream_weave.Identity.Ends.{
  Ends, Post, Ends-pure, Ends-fail, Ends-consult, Ends-answer, Ends-statement, Ends-select,
  Ends-transaction, Ends-bind, Ends-attempt, Assertion,
}
use stream_weave.Identity.Ends.Keeps.{Keeps}

module _ (env : Env) (X : Error → Type 0) where
  -- The errors that a port or the database may give.
  pub record Common : Type 0 where
    pub on_missing : X not_found
    pub on_conflict : X conflict
    pub on_dependency : X dependency
    pub on_outside : X outside

  pub record Avoids {A : Type 0} (m : Act A) : Type 0 where
    pub ends : Ends env (λ t. Unit) m (λ a t. Unit) (λ e t. X e)

module _ (env : Env) (X : Error → Type 0) (common : Common env X) where
  mapped : (e : DbError) → X (map_database_error e)
  unfolding map_database_error
  mapped no_rows = common.on_missing
  mapped unique_violation = common.on_conflict
  mapped db_failure = common.on_dependency

  module _ {A : Type 0} where
    pub Avoids-pure : (a : A) → Avoids env X (pure a)
    Avoids-pure a = record { ends = Ends-pure _ _ _ _ a (λ t h. tt) }

    pub Avoids-fail : (e : Error) → X e → Avoids env X (fail {A = A} e)
    Avoids-fail e x = record { ends = Ends-fail _ _ _ _ e (λ t h. x) }

    pub Avoids-consult : (f : Env → ℕ → A) → Avoids env X (consult f)
    Avoids-consult f = record { ends = Ends-consult _ _ _ _ f (λ n t h. tt) }

    pub Avoids-answer : (o : Option A) → Avoids env X (answer o)
    Avoids-answer o = record {
      ends = Ends-answer _ _ _ _ o (λ a t e h. tt) (λ t h. common.on_outside);
    }

    pub Avoids-statement : (q : Query A) → Avoids env X (statement q)
    Avoids-statement q = record {
      ends =
          Ends-statement _ _ _ _ q (λ a t t' e h. tt) (λ e t h. mapped e)
            (λ t h. common.on_dependency);
    }

    pub Avoids-select : (q : Tables → Result DbError A) → Avoids env X (select q)
    Avoids-select q = record {
      ends =
          Ends-select _ _ _ _ q (λ n t h. tt) (λ a t e h. tt) (λ e t h. mapped e)
            (λ t h. common.on_dependency);
    }

    pub Avoids-transaction : (m : Act A) → Avoids env X m → Avoids env X (with_transaction m)
    Avoids-transaction m k = record {
      ends =
          Ends-transaction _ _ _ _ X m (λ n t h. tt) k.ends (λ e t x h. x)
            (λ t h. common.on_dependency);
    }

    pub Avoids-if :
        (b : Bool) (m n : Act A)
        → Avoids env X m
        → Avoids env X n
        → Avoids env X (if b then m else n)
    Avoids-if true m n hm hn = hm
    Avoids-if false m n hm hn = hn

  module _ {A B : Type 0} where
    pub Avoids-bind :
        (m : Act A) (f : A → Act B)
        → Avoids env X m
        → ((a : A) → Avoids env X (f a))
        → Avoids env X (m >>= f)
    Avoids-bind m f hm hf = record { ends = Ends-bind _ _ _ _ _ m f hm.ends (λ a. (hf a).ends) }

    -- The error of `m` is looked at, and only an error of `X` reaches the rest.
    pub Avoids-attempt_bind :
        (m : Act A) (f : Result Error A → Act B)
        → Avoids env X m
        → ((a : A) → Avoids env X (f (ok a)))
        → ((e : Error) → X e → Avoids env X (f (err e)))
        → Avoids env X (attempt m >>= f)
    Avoids-attempt_bind m f hm hf he = record {
      ends = Ends-bind _ _ _ _ _ (attempt m) f (Ends-attempt _ _ _ _ _ m hm.ends) (λ r. go r);
    }
      where
        go :
            (r : Result Error A)
            → Ends env (Post (λ a t. Unit) (λ e t. X e) r) (f r) (λ b t. Unit) (λ e t. X e)
        go (ok a) = (hf a).ends
        go (err e) = record { at = λ w x. (he e x).ends.at w tt }

-- An invariant together with the errors
pub with_errors :
    (env : Env) (X : Error → Type 0) (H : Assertion) {A : Type 0} (m : Act A)
    → Keeps env H m
    → Avoids env X m
    → Ends env H m (λ a. H) (λ e t. X e)
with_errors env X H {A} m k v = record {
  at = λ w h. go (m env w).0 (m env w).1.tables (k.ends.at w h) (v.ends.at w tt);
}
  where
    go :
        (r : Result Error A) (t : Tables)
        → Post (λ a. H) (λ e. H) r t
        → Post (λ a t. Unit) (λ e t. X e) r t
        → Post (λ a. H) (λ e t. X e) r t
    go (ok a) t x y = x
    go (err e) t x y = y

pub ruleset avoids_rules = (
  Avoids-pure, Avoids-fail, Avoids-consult, Avoids-answer, Avoids-statement, Avoids-select,
  Avoids-transaction, Avoids-if, Avoids-bind,
)
