-- ===== src/Db/Silent.antt =====
-- Which actions leave the committed tables alone: rules, one for each way to build an action.
use stream_weave.Prelude.{
  ◌≡◌, refl, ◌∙◌, Bool, true, false, if◌then◌else◌, Result, ok, err, Bool-cases, inl, inr, arith,
}
use stream_weave.App.{Error}
use stream_weave.Db.Monad.{
  Env, World, Tx, Query, pure, fail, lift, statement, mapping, transaction, skip, commit, new_uuid,
  now_utc, ◌>>=◌, ◌>>◌, continue,
}

-- `m` commits nothing, whether it returns or fails.
pub record IsSilent {A : Type 0} (m : Tx A) : Type 0 where
  pub at : (env : Env) (w : World) → (m env w).1.committed ≡ w.committed

-- If `m` fails, it has committed nothing.
pub record IsAtomic {A : Type 0} (m : Tx A) : Type 0 where
  pub at :
      (env : Env) (w : World) {e : Error}
      → (m env w).0 ≡ err e
      → (m env w).1.committed ≡ w.committed

module _ {A : Type 0} where
  pub IsSilent-pure : (a : A) → IsSilent (pure a)
  unfolding pure
  IsSilent-pure a = record { at = λ env w. refl }

  pub IsSilent-fail : (e : Error) → IsSilent (fail {A = A} e)
  unfolding fail
  IsSilent-fail e = record { at = λ env w. refl }

  pub IsSilent-lift : (r : Result Error A) → IsSilent (lift r)
  unfolding lift
  IsSilent-lift r = record { at = λ env w. refl }

  pub IsSilent-statement : (q : Query A) → IsSilent (statement q)
  unfolding statement
  IsSilent-statement q = record { at = λ env w. ground arith }

  pub IsSilent-mapping : (m : Tx A) → IsSilent m → IsSilent (mapping m)
  unfolding mapping
  IsSilent-mapping m h = record { at = λ env w. h.at env w }

  pub IsSilent-if :
      (b : Bool) (m n : Tx A) → IsSilent m → IsSilent n → IsSilent (if b then m else n)
  IsSilent-if true m n hm hn = hm
  IsSilent-if false m n hm hn = hn

  pub IsAtomic-if :
      (b : Bool) (m n : Tx A) → IsAtomic m → IsAtomic n → IsAtomic (if b then m else n)
  IsAtomic-if true m n hm hn = hm
  IsAtomic-if false m n hm hn = hn

  pub IsAtomic-silent : (m : Tx A) → IsSilent m → IsAtomic m
  IsAtomic-silent m h = record { at = λ env w e. h.at env w }

  pub IsAtomic-commit : (a : A) → IsAtomic (commit >> pure a)
  unfolding commit pure ◌>>=◌
  IsAtomic-commit a = record { at = λ env w e. ground arith }

pub IsAtomic-commit_last : IsAtomic commit
unfolding commit
IsAtomic-commit_last = record { at = λ env w e. ground arith }

pub IsSilent-skip : IsSilent skip
unfolding skip
IsSilent-skip = record { at = λ env w. refl }

pub IsSilent-new_uuid : IsSilent new_uuid
unfolding new_uuid
IsSilent-new_uuid = record { at = λ env w. refl }

pub IsSilent-now_utc : IsSilent now_utc
unfolding now_utc
IsSilent-now_utc = record { at = λ env w. refl }

module _ {A B : Type 0} where
  pub IsSilent-bind :
      (m : Tx A) (f : A → Tx B) → IsSilent m → ((a : A) → IsSilent (f a)) → IsSilent (m >>= f)
  unfolding ◌>>=◌
  IsSilent-bind m f hm hf = record { at = λ env w. go env w (m env w).0 (m env w).1 (hm.at env w) }
    where
      go :
          (env : Env) (w : World) (r : Result Error A) (w' : World)
          → w'.committed ≡ w.committed
          → (continue r f env w').1.committed ≡ w.committed
      go env w (ok a) w' h = (hf a).at env w' ∙ h
      go env w (err e) w' h = h

  pub IsAtomic-bind :
      (m : Tx A) (f : A → Tx B) → IsSilent m → ((a : A) → IsAtomic (f a)) → IsAtomic (m >>= f)
  unfolding ◌>>=◌
  IsAtomic-bind m f hm hf = record {
    at = λ env w h. go env w (m env w).0 (m env w).1 (hm.at env w) h;
  }
    where
      go :
          (env : Env) (w : World) (r : Result Error A) (w' : World)
          → w'.committed ≡ w.committed
          → {e : Error} → (continue r f env w').0 ≡ err e
          → (continue r f env w').1.committed ≡ w.committed
      go env w (ok a) w' h x = (hf a).at env w' x ∙ h
      go env w (err e) w' h x = h

-- A transaction whose body is atomic is atomic.
pub IsAtomic-transaction : {A : Type 0} (m : Tx A) → IsAtomic m → IsAtomic (transaction m)
unfolding transaction
IsAtomic-transaction m h = record {
  at = λ env w x. elim (Bool-cases (env.fault w.calls)) [
    | inl broken ↦ rw broken
    | inr fine ↦ rw fine (h.at env _ (rw fine at x))
  ];
}

pub ruleset silent_rules = (
  IsSilent-pure, IsSilent-fail, IsSilent-lift, IsSilent-statement, IsSilent-mapping, IsSilent-if,
  IsSilent-skip, IsSilent-new_uuid, IsSilent-now_utc, IsSilent-bind,
)

pub ruleset atomic_rules = (
  silent_rules, IsAtomic-if, IsAtomic-commit, IsAtomic-commit_last, IsAtomic-bind, IsAtomic-silent,
  IsAtomic-transaction,
)
