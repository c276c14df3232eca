-- ===== src/Identity/Ends.antt =====
-- What holds of the tables after an action, by what it returns: rules for the parts of an action.
pub mod Counts
pub mod Keeps
pub mod Avoids
use stream_weave.Prelude.{
  ℕ, ◌≡◌, refl, Bool, true, false, Option, none, some, if◌then◌else◌, Result, ok, err, Bool-cases,
  inl, inr,
}
use stream_weave.Identity.Model.{Error, dependency, outside}
use stream_weave.Identity.Tables.{Tables}
use stream_weave.Identity.Monad.{
  Env, World, Act, Query, DbError, map_database_error, pure, fail, consult, attempt, answer,
  statement, select, with_transaction, after_query, after_select, closing, continue, met_others,
  ◌>>=◌,
}

abbrev pub Assertion : Type 1
Assertion = Tables → Type 0

-- `Q` of a value and the tables, or `E` of an error and the tables.
abbrev pub Post : {A : Type 0} → (A → Assertion) → (Error → Assertion) → Result Error A → Assertion
Post Q E (ok a) t = Q a t
Post Q E (err e) t = E e t

-- `P` stays true whatever other requests commit.
abbrev pub IsStable : Env → Assertion → Type 0
IsStable env P = (n : ℕ) (t : Tables) → P t → P (env.others n t)

-- From `P`, a value that `m` returns satisfies `Q`, and an error `E`.
pub record Ends (env : Env) (P : Assertion) {A : Type 0} (m : Act A) (Q : A → Assertion)
    (E : Error → Assertion) : Type 0 where
  pub at : (w : World) → P w.tables → Post Q E (m env w).0 (m env w).1.tables

module _ (env : Env) (P : Assertion) {A : Type 0} (Q : A → Assertion) (E : Error → Assertion) where
  pub Ends-pure : (a : A) → ((t : Tables) → P t → Q a t) → Ends env P (pure a) Q E
  unfolding pure
  Ends-pure a k = record { at = λ w h. k _ h }

  pub Ends-fail : (e : Error) → ((t : Tables) → P t → E e t) → Ends env P (fail e) Q E
  unfolding fail
  Ends-fail e k = record { at = λ w h. k _ h }

  pub Ends-consult :
      (f : Env → ℕ → A) → ((n : ℕ) (t : Tables) → P t → Q (f env n) t) → Ends env P (consult f) Q E
  unfolding consult
  Ends-consult f k = record { at = λ w h. k _ _ h }

  pub Ends-answer :
      (o : Option A)
      → ((a : A) (t : Tables) → o ≡ some a → P t → Q a t)
      → ((t : Tables) → P t → E outside t)
      → Ends env P (answer o) Q E
  Ends-answer (some a) k x = Ends-pure a (λ t h. k a t refl h)
  Ends-answer none k x = Ends-fail outside x

  pub Ends-statement :
      (q : Query A)
      → ((a : A) (t t' : Tables) → q t ≡ ok (a, t') → P t → Q a t')
      → ((e : DbError) (t : Tables) → P t → E (map_database_error e) t)
      → ((t : Tables) → P t → E dependency t)
      → Ends env P (statement q) Q E
  unfolding statement
  Ends-statement q k x y = record { at = λ w h. go w h (q w.tables) refl }
    where
      go :
          (w : World)
          → P w.tables
          → (r : Result DbError (A × Tables)) → q w.tables ≡ r
          → Post Q E (statement q env w).0 (statement q env w).1.tables
      go w h (ok (a, t)) z = elim (Bool-cases (env.fault w.asked)) [
        | inl f ↦ rw f (y _ h)
        | inr f ↦ rw (f, z) (k a _ t z h)
      ]
      go w h (err e) z = elim (Bool-cases (env.fault w.asked)) [
        | inl f ↦ rw f (y _ h)
        | inr f ↦ rw (f, z) (x e _ h)
      ]

  pub Ends-select :
      (q : Tables → Result DbError A)
      → IsStable env P
      → ((a : A) (t : Tables) → q t ≡ ok a → P t → Q a t)
      → ((e : DbError) (t : Tables) → P t → E (map_database_error e) t)
      → ((t : Tables) → P t → E dependency t)
      → Ends env P (select q) Q E
  unfolding select
  Ends-select q s k x y = record {
    at = λ w h. go w h (s w.asked _ h) (q (env.others w.asked w.tables)) refl;
  }
    where
      go :
          (w : World)
          → P w.tables
          → P (env.others w.asked w.tables)
          → (r : Result DbError A) → q (env.others w.asked w.tables) ≡ r
          → Post Q E (select q env w).0 (select q env w).1.tables
      go w h i (ok a) z = elim (Bool-cases (env.fault w.asked)) [
        | inl f ↦ rw f (y _ h)
        | inr f ↦ rw (f, z) (k a _ z i)
      ]
      go w h i (err e) z = elim (Bool-cases (env.fault w.asked)) [
        | inl f ↦ rw f (y _ h)
        | inr f ↦ rw (f, z) (x e _ i)
      ]

  -- The body begins with `P` of the tables; after a rollback `P` still holds.
  pub Ends-transaction :
      (X : Error → Type 0) (m : Act A)
      → IsStable env P
      → Ends env P m Q (λ e t. X e)
      → ((e : Error) (t : Tables) → X e → P t → E e t)
      → ((t : Tables) → P t → E dependency t)
      → Ends env P (with_transaction m) Q E
  unfolding with_transaction
  Ends-transaction X m s k x y = record {
    at = λ w h. elim (Bool-cases (env.fault w.asked)) [
      | inl f ↦ rw f (y _ h)
      | inr f ↦ rw f (
          let i = s w.asked _ h in
          let begun = met_others env w in
          go (env.others w.asked w.tables) i (m env begun).0 (m env begun).1 (k.at begun i))
    ];
  }
    where
      go :
          (t : Tables)
          → P t
          → (r : Result Error A) (w : World) → Post Q (λ e t. X e) r w.tables
          → Post Q E (closing env t (r, w)).0 (closing env t (r, w)).1.tables
      go t i (err e) w z = x e t z i
      go t i (ok a) w z = elim (Bool-cases (env.fault w.asked)) [
        | inl f ↦ rw f (y t i)
        | inr f ↦ rw f z
      ]

  pub Ends-if :
      (b : Bool) (m n : Act A)
      → (b ≡ true → Ends env P m Q E)
      → (b ≡ false → Ends env P n Q E)
      → Ends env P (if b then m else n) Q E
  Ends-if true m n hm hn = hm refl
  Ends-if false m n hm hn = hn refl

  pub Ends-attempt :
      (F : Error → Assertion) (m : Act A) → Ends env P m Q F → Ends env P (attempt m) (Post Q F) E
  unfolding attempt
  Ends-attempt F m k = record { at = λ w h. k.at w h }

  pub Ends-after :
      (O : Assertion) (m : Act A) → ((t : Tables) → O t → P t) → Ends env P m Q E → Ends env O m Q E
  Ends-after O m f k = record { at = λ w h. k.at w (f _ h) }

module _ (env : Env) (P : Assertion) {A B : Type 0} (Q : A → Assertion) (R : B → Assertion)
    (E : Error → Assertion) where
  pub Ends-bind :
      (m : Act A) (f : A → Act B)
      → Ends env P m Q E
      → ((a : A) → Ends env (Q a) (f a) R E)
      → Ends env P (m >>= f) R E
  unfolding ◌>>=◌
  Ends-bind m f hm hf = record { at = λ w h. go (m env w).0 (m env w).1 (hm.at w h) }
    where
      go :
          (r : Result Error A) (w : World)
          → Post Q E r w.tables
          → Post R E (continue r f env w).0 (continue r f env w).1.tables
      go (ok a) w h = (hf a).at w h
      go (err e) w h = h

-- Two effects of one action
pub Ends-both :
    (env : Env) (P R : Assertion) {A : Type 0} (m : Act A) (Q S : A → Assertion)
    (E F : Error → Assertion)
    → Ends env P m Q E
    → Ends env R m S F
    → Ends env (λ t. P t × R t) m (λ a t. Q a t × S a t) (λ e t. Unit)
Ends-both env P R {A} m Q S E F k l = record {
  at = λ w h. go (m env w).0 (m env w).1.tables (k.at w h.0) (l.at w h.1);
}
  where
    go :
        (r : Result Error A) (t : Tables)
        → Post Q E r t
        → Post S F r t
        → Post (λ a t. Q a t × S a t) (λ e t. Unit) r t
    go (ok a) t x y = (x, y)
    go (err e) t x y = tt

-- What does not speak of the tables is a hypothesis of the rest.
pub Ends-fact :
    (env : Env) (F : Type 0) (P : Assertion) {A : Type 0} (m : Act A) (Q : A → Assertion)
    (E : Error → Assertion)
    → (F → Ends env P m Q E)
    → Ends env (λ t. F × P t) m Q E
Ends-fact env F P m Q E k = record { at = λ w (f, h). (k f).at w h }

-- Any action, where nothing is asked of what it leaves
pub Ends-any :
    (env : Env) {A : Type 0} (m : Act A) → Ends env (λ t. Unit) m (λ a t. Unit) (λ e t. Unit)
Ends-any env {A} m = record { at = λ w k. go (m env w).0 (m env w).1.tables }
  where
    go : (r : Result Error A) (t : Tables) → Post (λ a t. Unit) (λ e t. Unit) r t
    go (ok a) t = tt
    go (err e) t = tt
