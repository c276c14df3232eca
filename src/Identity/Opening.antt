-- ===== src/Identity/Opening.antt =====
-- What Login and ServiceToken ask before they hand out a token, and the session that Login opens
-- (service.go).
pub mod Login
pub mod Calls
pub mod Credentials
pub mod Machine
use stream_weave.Prelude.{
  ℕ, ◌≡◌, refl, sym, subst, String, Bool, true, false, ◌||◌, Option, none, some, List, [], ◌∷◌,
  ◌++◌, arith, is_some, find_first, filter_by, find_first-append_none, if◌then◌else◌, Result, ok,
  err, map, Bool-cases, Option-cases, inl, inr, eq_refl,
}
use stream_weave.Sorting.{sort_by, insert_by}
use stream_weave.Identity.Tables.{SessionRow, Tables}
use stream_weave.Identity.Monad.{Env}
use stream_weave.Identity.Model.{Error}
use stream_weave.Identity.Service.{or_denied}
use stream_weave.Identity.Ends.{Ends, Post, Ends-pure, Ends-fail}
use stream_weave.Identity.Sessions.{
  is_session, has_hash, session_taken, session_dangles, insert_session,
}

-- The tables stay as they are but for what the request itself does.
abbrev pub IsAlone : Env → Type 0
IsAlone env = (n : ℕ) (t : Tables) → env.others n t ≡ t

-- Tokens.NewOpaque gives a token with its hash.
abbrev pub IsOpaque : Env → Type 0
IsOpaque env =
    (n : ℕ) (token hash : String)
    → env.new_opaque n ≡ some (token, hash)
    → env.hash_opaque token ≡ hash

module _ {A : Type 0} where
  abbrev pub exists_row : (A → Bool) → List A → Bool
  exists_row p [] = false
  exists_row p (x ∷ xs) = p x || exists_row p xs

  exists_row-insert_by :
      (p : A → Bool) (leq : A → A → Bool) (x : A) (ys : List A)
      → exists_row p (insert_by leq x ys) ≡ (p x || exists_row p ys)
  exists_row-insert_by p leq x [] = refl
  exists_row-insert_by p leq x (y ∷ ys) = ground (arith, exists_row-insert_by p leq x ys)

  pub exists_row-sort_by :
      (p : A → Bool) (leq : A → A → Bool) (xs : List A)
      → exists_row p (sort_by leq xs) ≡ exists_row p xs
  unfolding sort_by
  exists_row-sort_by p leq [] = refl
  exists_row-sort_by p leq (x ∷ xs) =
      ground (arith, exists_row-insert_by p leq x (sort_by leq xs), exists_row-sort_by p leq xs)

  pub find_first-none :
      (p q : A → Bool) (xs : List A)
      → is_some (find_first (λ x. p x || q x) xs) ≡ false
      → find_first q xs ≡ none
  find_first-none p q [] e = refl
  find_first-none p q (x ∷ xs) e = ground (arith, find_first-none p q xs)

-- A session that is inserted is found by its hash.
pub insert_session-found :
    (s : SessionRow) (t t' : Tables) (a : Unit {0})
    → insert_session s t ≡ ok (a, t')
    → find_first (has_hash s.refresh_token_hash) t'.sessions ≡ some s
unfolding insert_session
insert_session-found s t t' a e = elim (Bool-cases (session_taken s t)) [
  | inl x ↦ cc (rw x at e)
  | inr x ↦ elim (Bool-cases (session_dangles s t)) [
    | inl y ↦ cc (rw (x, y) at e)
    | inr y ↦
        let same : t.sessions ++ s ∷ [] ≡ t'.sessions = cc (rw (x, y) at e) in
        subst (λ rows. find_first (has_hash s.refresh_token_hash) rows ≡ some s) same
          (find_first-append_none (has_hash s.refresh_token_hash) t.sessions s
            (find_first-none (is_session s.id) (has_hash s.refresh_token_hash) t.sessions x)
            (eq_refl s.refresh_token_hash))
  ]
]

-- A lookup that answers keeps what it found.
pub or_denied-known :
    (env : Env) {A : Type 0} {Q : A → Tables → Type 0} (r : Result Error A)
    → Ends env (Post Q (λ e t. Unit) r) (or_denied r) Q (λ e t. Unit)
unfolding or_denied
or_denied-known env (ok u) = Ends-pure _ _ _ _ u (λ t k. k)
or_denied-known env (err e) = Ends-fail _ _ _ _ _ (λ t k. tt)
