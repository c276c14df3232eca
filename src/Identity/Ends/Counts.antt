-- ===== src/Identity/Ends/Counts.antt =====
-- The count of what was asked of the outside never goes down: rules for `search`, and for actions
-- whose outcome depends on when something was asked.
use stream_weave.Prelude.{
  ℕ, ◌≡◌, ◌≤◌, refl, Bool, true, false, Option, none, some, if◌then◌else◌, arith, Result, ok, err,
  Bool-cases, inl, inr,
}
use stream_weave.Identity.Model.{Error}
use stream_weave.Identity.Tables.{Tables}
use stream_weave.Identity.Monad.{
  Env, World, Act, Query, DbError, pure, fail, consult, attempt, answer, statement, select,
  with_transaction, after_query, after_select, closing, continue, met_others, tick, ◌>>=◌,
}
use stream_weave.Identity.Ends.{Assertion, Ends, Post}

module _ (env : Env) where
  pub record Counts {A : Type 0} (m : Act A) : Type 0 where
    pub at : (w : World) → w.asked ≤ (m env w).1.asked

  module _ {A : Type 0} where
    pub Counts-pure : (a : A) → Counts (pure a)
    unfolding pure
    Counts-pure a = record { at = λ w. omega arith }

    pub Counts-fail : (e : Error) → Counts (fail {A = A} e)
    unfolding fail
    Counts-fail e = record { at = λ w. omega arith }

    pub Counts-consult : (f : Env → ℕ → A) → Counts (consult f)
    unfolding consult
    Counts-consult f = record { at = λ w. omega arith }

    pub Counts-answer : (o : Option A) → Counts (answer o)
    Counts-answer (some a) = Counts-pure a
    Counts-answer none = Counts-fail _

    after_query-asked :
        (r : Result DbError (A × Tables)) (w : World) → (after_query r w).1.asked ≡ w.asked
    after_query-asked (ok x) w = refl
    after_query-asked (err e) w = refl

    after_select-asked : (r : Result DbError A) (w : World) → (after_select r w).1.asked ≡ w.asked
    after_select-asked (ok x) w = refl
    after_select-asked (err e) w = refl

    pub Counts-statement : (q : Query A) → Counts (statement q)
    unfolding statement
    Counts-statement q = record {
      at = λ w. elim (Bool-cases (env.fault w.asked)) [
        | inl f ↦ rw f (omega arith)
        | inr f ↦ rw f (omega (arith, after_query-asked (q w.tables) (tick w)))
      ];
    }

    pub Counts-select : (q : Tables → Result DbError A) → Counts (select q)
    unfolding select
    Counts-select q = record {
      at = λ w. elim (Bool-cases (env.fault w.asked)) [
        | inl f ↦ rw f (omega arith)
        | inr f ↦
            rw f (
              omega
                (arith, after_select-asked (q (env.others w.asked w.tables)) (met_others env w)))
      ];
    }

    pub Counts-attempt : (m : Act A) → Counts m → Counts (attempt m)
    unfolding attempt
    Counts-attempt m k = record { at = λ w. k.at w }

    closing-asked :
        (t : Tables) (r : Result Error A) (w : World) → w.asked ≤ (closing env t (r, w)).1.asked
    closing-asked t (err e) w = omega arith
    closing-asked t (ok a) w = elim (Bool-cases (env.fault w.asked)) [
      | inl f ↦ rw f (omega arith)
      | inr f ↦ rw f (omega arith)
    ]

    pub Counts-transaction : (m : Act A) → Counts m → Counts (with_transaction m)
    unfolding with_transaction
    Counts-transaction m k = record {
      at = λ w. elim (Bool-cases (env.fault w.asked)) [
        | inl f ↦ rw f (omega arith)
        | inr f ↦
            let begun = met_others env w in
            rw f (
              omega (
                arith,
                k.at begun,
                closing-asked (env.others w.asked w.tables) (m env begun).0 (m env begun).1,
              ))
      ];
    }

    pub Counts-if : (b : Bool) (m n : Act A) → Counts m → Counts n → Counts (if b then m else n)
    Counts-if true m n hm hn = hm
    Counts-if false m n hm hn = hn

  -- From `P` and a count of at least `from`, the value of `m`, if there is one, satisfies `G` together
  -- with the world that is left.
  pub record Since {B : Type 0} (from : ℕ) (P : Assertion) (m : Act B) (G : B → World → Type 0)
      : Type 0 where
    pub at :
        (w : World) (b : B) → from ≤ w.asked → P w.tables → (m env w).0 ≡ ok b → G b (m env w).1

  pub Since-fact :
      {B : Type 0} (from : ℕ) (F : Type 0) (P : Assertion) (m : Act B) (G : B → World → Type 0)
      → (F → Since from P m G)
      → Since from (λ t. F × P t) m G
  Since-fact from F P m G k = record { at = λ w b le (f, h). (k f).at w b le h }

  module _ {A B : Type 0} where
    pub Counts-bind :
        (m : Act A) (f : A → Act B) → Counts m → ((a : A) → Counts (f a)) → Counts (m >>= f)
    unfolding ◌>>=◌
    Counts-bind m f hm hf = record { at = λ w. go w (m env w).0 (m env w).1 (hm.at w) }
      where
        go :
            (w : World) (r : Result Error A) (v : World)
            → w.asked ≤ v.asked
            → w.asked ≤ (continue r f env v).1.asked
        go w (ok a) v h = omega (arith, h, (hf a).at v)
        go w (err e) v h = h

    pub Since-bind :
        (from : ℕ) (P : Assertion) (Q : A → Assertion) (E : Error → Assertion) (m : Act A)
        (f : A → Act B) (G : B → World → Type 0)
        → Ends env P m Q E
        → Counts m
        → ((a : A) → Since from (Q a) (f a) G)
        → Since from P (m >>= f) G
    unfolding ◌>>=◌
    Since-bind from P Q E m f G k c s = record {
      at = λ w b le h e. go (m env w).0 (m env w).1 b (omega (arith, c.at w)) (k.at w h) e;
    }
      where
        go :
            (r : Result Error A) (v : World) (b : B)
            → from ≤ v.asked
            → Post Q E r v.tables
            → (continue r f env v).0 ≡ ok b
            → G b (continue r f env v).1
        go (ok a) v b le h e = (s a).at v b le h e
        go (err x) v b le h e = cc

pub ruleset counts_rules = (
  Counts-pure, Counts-fail, Counts-consult, Counts-answer, Counts-statement, Counts-select,
  Counts-attempt, Counts-transaction, Counts-if, Counts-bind,
)
