-- ===== src/Db/Ends.antt =====
-- Actions that return a value only past a commit: the working tables are then the committed ones.
use stream_weave.Prelude.{
  ◌≡◌, refl, sym, subst, Bool, true, false, if◌then◌else◌, Result, ok, err, Bool-cases, inl, inr,
}
use stream_weave.App.{Error}
use stream_weave.Db.Tables.{Database}
use stream_weave.Db.Monad.{Env, World, Tx, pure, fail, commit, ◌>>=◌, continue}
use stream_weave.Db.Keeps.{Keeps}
use stream_weave.Db.Moves.{Moves}

pub record Ends {A : Type 0} (m : Tx A) : Type 0 where
  pub at :
      (env : Env) (w : World) (a : A)
      → (m env w).0 ≡ ok a
      → (m env w).1.committed ≡ (m env w).1.working

module _ {A B : Type 0} where
  pub Ends-bind : (m : Tx A) (f : A → Tx B) → ((a : A) → Ends (f a)) → Ends (m >>= f)
  unfolding ◌>>=◌
  Ends-bind m f k = record { at = λ env w b e. go env b (m env w).0 (m env w).1 e }
    where
      go :
          (env : Env) (b : B) (r : Result Error A) (w : World)
          → (continue r f env w).0 ≡ ok b
          → (continue r f env w).1.committed ≡ (continue r f env w).1.working
      go env b (ok a) w e = (k a).at env w b e
      go env b (err x) w e = cc

module _ {A : Type 0} where
  pub Ends-commit-pure : (a : A) → Ends (commit >>= λ _. pure a)
  unfolding commit pure ◌>>=◌
  Ends-commit-pure a = record {
    at = λ env w b e. elim (Bool-cases (env.fault w.calls)) [
      | inl f ↦ cc (rw f at e)
      | inr f ↦ rw f refl
    ];
  }

  pub Ends-if : (b : Bool) (m n : Tx A) → Ends m → Ends n → Ends (if b then m else n)
  Ends-if true m n k l = k
  Ends-if false m n k l = l

  pub Ends-fail : (e : Error) → Ends (fail {A = A} e)
  unfolding fail
  Ends-fail e = record { at = λ env w b x. cc }

  -- What an action keeps in the working tables, it leaves in the committed ones.
  pub Moves-Ends :
      (P : Database → Type 0) (m : Tx A)
      → Keeps (λ c d. P d) m
      → Ends m
      → Moves (λ c d. P d) (λ c d. P c) m
  Moves-Ends P m k e = record {
    at = λ env w a h x. subst P (sym ((e.at env w a x))) (k.at env w h);
  }

pub ruleset ends_rules = (Ends-bind, Ends-commit-pure, Ends-if, Ends-fail)
