-- ===== src/Identity/Rotation/Refresh.antt =====
-- The whole of Refresh (service.go), and of every later use of its token.
use stream_weave.Prelude.{
  ℕ, ◌≡◌, refl, String, Bool, true, false, not, ◌||◌, Option, none, some, List, [], ◌∷◌, find_first,
  if◌then◌else◌, Result, ok, err,
}
use stream_weave.Identity.Model.{
  Instant, Error, invalid_credentials, dependency, User, active, eqb_user_status, Session,
  is_usable, RefreshInput, is_not_found,
}
use stream_weave.Identity.Tables.{SessionRow, Tables}
use stream_weave.Identity.Monad.{Env}
use stream_weave.Identity.Accounts.{one_row}
use stream_weave.Identity.Sessions.{has_hash, get_session_by_refresh_hash}
use stream_weave.Identity.Store.{find_session_by_refresh_hash, find_user, user_roles, map_session}
use stream_weave.Identity.Service.{allow_dimensions, allow_by, allow_each, allowed, or_denied}
use stream_weave.Identity.Monad.{LimiterPort, no_limiter, one_key, many_keys, ask}
use stream_weave.Identity.Service.Signin.{SignedIn, new_session}
use stream_weave.Identity.Service.Refresh.{rotate, revoked_or_failed, refuse_reused, refresh_with}
use stream_weave.Identity.Ends.{
  Ends, Post, IsStable, Ends-pure, Ends-fail, Ends-consult, Ends-answer, Ends-select,
  Ends-transaction, Ends-if, Ends-attempt, Ends-bind,
}
use stream_weave.Identity.Ends.Avoids.{Avoids-bind, Avoids-consult, avoids_rules}
use stream_weave.Identity.History.{IsConsiderate}
use stream_weave.Identity.Rotation.{Known, Spent, Ended}
use stream_weave.Identity.Rotation.Outcome.{
  NotReuse, common, Sure, Outcome, Ours, Known-closed, mapped, revoke_reused-Ended,
  rotate_body-Detected,
}

module _ (env : Env) (others : IsConsiderate env) where
  allowed-Sure : (o : Option Bool) → Sure env (allowed o)
  unfolding allowed
  allowed-Sure none = search (avoids_rules, common env) depth 8
  allowed-Sure (some true) = search (avoids_rules, common env) depth 8
  allowed-Sure (some false) = search (avoids_rules, common env) depth 8

  allow_each-Sure :
      (f : ℕ → String → Option Bool) (keys : List String) → Sure env (allow_each f keys)
  unfolding allow_each
  allow_each-Sure f [] = search (avoids_rules, common env) depth 8
  allow_each-Sure f (key ∷ keys) =
      Avoids-bind _ _ (common env) _ _ (Avoids-consult _ _ (common env) _)
        λ o. Avoids-bind _ _ (common env) _ _ (allowed-Sure o) (λ x. allow_each-Sure f keys)

  allow_by-Sure : (port : LimiterPort) (keys : List String) → Sure env (allow_by port keys)
  unfolding allow_by
  allow_by-Sure no_limiter keys = search (avoids_rules, common env) depth 8
  allow_by-Sure (one_key f) keys = allow_each-Sure f keys
  allow_by-Sure (many_keys f) keys = search (avoids_rules, common env, allowed-Sure) depth 8

  pub allow_dimensions-Sure :
      (kind account source : String) → Sure env (allow_dimensions kind account source)
  unfolding allow_dimensions
  allow_dimensions-Sure kind account source =
      search (avoids_rules, common env, allow_by-Sure) depth 12

  -- What Refresh leaves of the session with the hash `h`, by its answer; `none` is a reuse.
  abbrev pub Answer : String → Option SignedIn → Tables → Type 0
  Answer h none t = Ended h t.sessions
  Answer h (some x) t = Spent h t.sessions

  module _ (h : String) (s : Session) where
    pub stable : IsStable env (Ours env h s)
    stable n t k = Known-closed env h s t (env.others n t) (others n t) k

    by_reuse :
        (b : Bool) (x : SignedIn) (t : Tables)
        → Outcome env h s b t
        → Answer h (if b then none else some x) t
    by_reuse true x t k = k
    by_reuse false x t k = k

    rotate-Answer :
        (i : RefreshInput) (user : User) (at : Instant)
        → Ends env (Ours env h s) (rotate i user s at) (Answer h) (λ e t. NotReuse e)
    unfolding rotate user_roles
    rotate-Answer i user at =
        Ends-bind _ _ (λ a. Ours env h s) _ _ _ _
          (Ends-select _ _ _ _ _ stable (λ a t e k. k) (λ e t k. mapped env h s e) (λ t k. refl))
          λ roles.
            Ends-bind _ _ (λ a. Ours env h s) _ _ _ _ (asked _)
              λ refresh.
                Ends-bind _ _ (λ a. Ours env h s) _ _ _ _ (asked _)
                  λ id.
                    Ends-bind _ _ (λ a. Ours env h s) _ _ _ _ (asked _)
                      λ access.
                        Ends-bind _ _ _ _ _ _ _
                          (Ends-transaction _ _ _ _ NotReuse _ stable
                            (rotate_body-Detected env h s user
                              (new_session id s.family_id user.id (some s.id) at) refresh.1
                              i.correlation_id at)
                            (λ e t x k. x) (λ t k. refl))
                          λ b. Ends-pure _ _ _ _ _ (by_reuse b _)
      where
        asked :
            {A : Type 0} (f : Env → ℕ → Option A)
            → Ends env (Ours env h s) (ask f) (λ a. Ours env h s) (λ e t. NotReuse e)
        asked f =
            Ends-bind _ _ (λ a. Ours env h s) _ _ _ _ (Ends-consult _ _ _ _ f (λ n t k. k))
              λ o. Ends-answer _ _ _ _ o (λ a t e k. k) (λ t k. refl)

    refuse_reused-Answer :
        (i : RefreshInput) (user : User) (at : Instant)
        → Ends env (Ours env h s) (refuse_reused i user s at) (Answer h) (λ e t. NotReuse e)
    unfolding refuse_reused revoked_or_failed
    refuse_reused-Answer i user at =
        Ends-bind _ _ _ _ _ _ _
          (Ends-attempt _ _ _ _ (λ e t. Unit) _
            (Ends-transaction _ _ _ _ NotReuse _ stable
              (revoke_reused-Ended env h s user i.correlation_id at) (λ e t x k. tt) (λ t k. tt)))
          (λ r. go r)
      where
        go :
            (r : Result Error (Unit {0}))
            → Ends env
                (Post (λ x t. Ended h t.sessions) (λ e t. Unit) r)
                (revoked_or_failed r)
                (Answer h)
                (λ e t. NotReuse e)
        go (ok x) = Ends-pure _ _ _ _ none (λ t k. k)
        go (err e) = Ends-fail _ _ _ _ dependency (λ t k. refl)

  pub find_session-Known :
      (h : String)
      → Ends env
          (λ t. Unit)
          (find_session_by_refresh_hash h)
          (λ s t. Known h s t.sessions)
          (λ e t. Unit)
  unfolding find_session_by_refresh_hash get_session_by_refresh_hash
  find_session-Known h =
      Ends-bind _ _ (λ row t. find_first (has_hash h) t.sessions ≡ some row) _ _ _ _
        (Ends-select _ _ _ _ _ (λ n t k. tt)
          (λ a t e k. found t a (find_first (has_hash h) t.sessions) refl e) (λ e t k. tt)
          (λ t k. tt))
        λ row.
          Ends-pure _ _ _ _ (map_session row)
            (λ t k. record { row = row; found = k; id = refl; family = refl })
    where
      found :
          (t : Tables) (a : SessionRow) (o : Option SessionRow)
          → find_first (has_hash h) t.sessions ≡ o
          → one_row o ≡ ok a
          → find_first (has_hash h) t.sessions ≡ some a
      found t a none x e = cc
      found t a (some b) x e = cc

  -- A lookup that answers keeps what it found; its error is not that of a reuse.
  pub or_denied-Ends :
      {A : Type 0} (Q : A → Tables → Type 0) (r : Result Error A)
      → Ends env (Post Q (λ e t. Unit) r) (or_denied r) Q (λ e t. NotReuse e)
  unfolding or_denied
  or_denied-Ends Q (ok a) = Ends-pure _ _ _ _ a (λ t k. k)
  or_denied-Ends Q (err e) = Ends-fail _ _ _ _ _ (λ t k. denied (is_not_found e))
    where
      denied : (b : Bool) → NotReuse (if b then invalid_credentials else dependency)
      denied true = refl
      denied false = refl

  find_user-Ours :
      (h : String) (s : Session) (id : String)
      → Ends env (Ours env h s) (find_user id) (λ u. Ours env h s) (λ e t. Unit)
  unfolding find_user
  find_user-Ours h s id =
      Ends-select _ _ _ _ _ (stable h s) (λ a t e k. k) (λ e t k. tt) (λ t k. tt)

  pub refresh_with-Answer :
      (i : RefreshInput) (h : String)
      → Ends env (λ t. Unit) (refresh_with i h) (Answer h) (λ e t. NotReuse e)
  unfolding refresh_with
  refresh_with-Answer i h =
      Ends-bind _ _ _ _ _ _ _ (Ends-attempt _ _ _ _ _ _ (find_session-Known h)) λ found.
        Ends-bind _ _ _ _ _ _ _ (or_denied-Ends (λ s. Ours env h s) found) λ s.
          Ends-bind _ _ (λ a. Ours env h s) _ _ _ _ (Ends-consult _ _ _ _ _ (λ n t k. k))
            λ at.
              Ends-bind _ _ _ _ _ _ _ (Ends-attempt _ _ _ _ _ _ (find_user-Ours h s s.user_id))
                λ owner. Ends-bind _ _ _ _ _ _ _ (or_denied-Ends (λ u. Ours env h s) owner) λ user.
                  Ends-if _ _ _ _ (not (is_usable s at) || not (eqb_user_status user.status active))
                    _ _ (λ e. refuse_reused-Answer h s i user at) (λ e. rotate-Answer h s i user at)
