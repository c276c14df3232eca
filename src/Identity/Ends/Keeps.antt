-- ===== src/Identity/Ends/Keeps.antt =====
-- Invariants of the tables, kept whether an action returns or fails: rules for `search`.
use stream_weave.Prelude.{
  ℕ, ◌≡◌, Bool, true, false, Option, if◌then◌else◌, Result, ok, err, subst, Bool-cases, inl, inr,
}
use stream_weave.Identity.Model.{Error}
use stream_weave.Identity.Tables.{Tables}
use stream_weave.Identity.Monad.{
  Env, World, Act, Query, DbError, pure, fail, consult, attempt, answer, statement, select,
  with_transaction, ◌>>=◌,
}
use stream_weave.Identity.Ends.{
  Assertion, IsStable, Ends, Post, Ends-pure, Ends-fail, Ends-consult, Ends-answer, Ends-statement,
  Ends-select, Ends-transaction, Ends-bind,
}

module _ (env : Env) (H : Assertion) where
  pub record Keeps {A : Type 0} (m : Act A) : Type 0 where
    pub ends : Ends env H m (λ a. H) (λ e. H)

  pub record KeepsQuery {A : Type 0} (q : Query A) : Type 0 where
    pub at : (t : Tables) {a : A} {t' : Tables} → q t ≡ ok (a, t') → H t → H t'

  module _ {A : Type 0} where
    pub KeepsQuery-err : (e : DbError) → KeepsQuery {A = A} (λ t. err e)
    KeepsQuery-err e = record { at = λ t h x. cc }

    pub KeepsQuery-ok :
        (f : Tables → A) (g : Tables → Tables)
        → ((t : Tables) → H t → H (g t))
        → KeepsQuery (λ t. ok (f t, g t))
    KeepsQuery-ok f g k = record {
      at = λ t {a} {t'} e h. let same : g t ≡ t' = cc in subst H same (k t h);
    }

    pub KeepsQuery-if :
        (b : Tables → Bool) (q r : Query A)
        → KeepsQuery q
        → KeepsQuery r
        → KeepsQuery (λ t. if b t then q t else r t)
    KeepsQuery-if b q r hq hr = record {
      at = λ t e h. elim (Bool-cases (b t)) [
        | inl x ↦ hq.at t (rw x at e) h
        | inr x ↦ hr.at t (rw x at e) h
      ];
    }

  pub Keeps-at :
      {A : Type 0} (m : Act A) → Keeps m → (w : World) → H w.tables → H (m env w).1.tables
  Keeps-at {A} m k w h = go (m env w).0 (k.ends.at w h)
    where
      go : (r : Result Error A) → Post (λ a. H) (λ e. H) r (m env w).1.tables → H (m env w).1.tables
      go (ok a) x = x
      go (err e) x = x

  module _ {A : Type 0} where
    pub Keeps-pure : (a : A) → Keeps (pure a)
    Keeps-pure a = record { ends = Ends-pure _ _ _ _ a (λ t h. h) }

    pub Keeps-fail : (e : Error) → Keeps (fail {A = A} e)
    Keeps-fail e = record { ends = Ends-fail _ _ _ _ e (λ t h. h) }

    pub Keeps-consult : (f : Env → ℕ → A) → Keeps (consult f)
    Keeps-consult f = record { ends = Ends-consult _ _ _ _ f (λ n t h. h) }

    pub Keeps-answer : (o : Option A) → Keeps (answer o)
    Keeps-answer o = record { ends = Ends-answer _ _ _ _ o (λ a t e h. h) (λ t h. h) }

    pub Keeps-statement : (q : Query A) → KeepsQuery q → Keeps (statement q)
    Keeps-statement q k = record {
      ends = Ends-statement _ _ _ _ q (λ a t t' e h. k.at t e h) (λ e t h. h) (λ t h. h);
    }

    pub Keeps-select : (q : Tables → Result DbError A) → IsStable env H → Keeps (select q)
    Keeps-select q stable = record {
      ends = Ends-select _ _ _ _ q stable (λ a t e h. h) (λ e t h. h) (λ t h. h);
    }

    pub Keeps-attempt : (m : Act A) → Keeps m → Keeps (attempt m)
    unfolding attempt
    Keeps-attempt m k = record { ends = record { at = λ w h. Keeps-at m k w h } }

    pub Keeps-transaction : (m : Act A) → IsStable env H → Keeps m → Keeps (with_transaction m)
    Keeps-transaction m stable k = record {
      ends =
          Ends-transaction _ _ _ _ (λ e. Unit {0}) m stable
            (record { at = λ w h. body w (m env w).0 (k.ends.at w h) }) (λ e t x h. h) (λ t h. h);
    }
      where
        body :
            (w : World) (r : Result Error A)
            → Post (λ a. H) (λ e. H) r (m env w).1.tables
            → Post (λ a. H) (λ e t. Unit {0}) r (m env w).1.tables
        body w (ok a) x = x
        body w (err e) x = tt

    pub Keeps-if : (b : Bool) (m n : Act A) → Keeps m → Keeps n → Keeps (if b then m else n)
    Keeps-if true m n hm hn = hm
    Keeps-if false m n hm hn = hn

  module _ {A B : Type 0} where
    pub Keeps-bind :
        (m : Act A) (f : A → Act B) → Keeps m → ((a : A) → Keeps (f a)) → Keeps (m >>= f)
    Keeps-bind m f hm hf = record { ends = Ends-bind _ _ _ _ _ m f hm.ends (λ a. (hf a).ends) }

pub ruleset keeps_rules = (
  Keeps-pure, Keeps-fail, Keeps-consult, Keeps-answer, Keeps-statement, Keeps-select, Keeps-attempt,
  Keeps-transaction, Keeps-if, Keeps-bind,
)
