-- ===== src/Identity/Rotation/Once.antt =====
-- A refresh token is good for one Refresh; a second use ends its family (service.go).
use stream_weave.Prelude.{
  ◌≡◌, ◌≢◌, refl, sym, subst, String, Bool, true, false, not, ◌||◌, Option, none, some, str_eq,
  find_first, Result, ok, err,
}
use stream_weave.Identity.Model.{
  Instant, Error, refresh_reuse, invalid_credentials, User, active, eqb_user_status, Session,
  is_usable, is_live, RefreshInput,
}
use stream_weave.Identity.Tables.{SessionRow, Tables}
use stream_weave.Identity.Monad.{Env, World, guard, continue, ◌>>=◌, pure, fail}
use stream_weave.Identity.Accounts.{one_row}
use stream_weave.Identity.Sessions.{has_hash, get_session_by_refresh_hash}
use stream_weave.Identity.Store.{find_session_by_refresh_hash, find_user, map_session}
use stream_weave.Identity.Service.Signin.{SignedIn}
use stream_weave.Identity.Service.Refresh.{
  refuse_reused, revoked_or_failed, refresh_with, refresh_attempt, or_reuse, refresh,
}
use stream_weave.Identity.Requests.{Reaches}
use stream_weave.Identity.Ends.{
  Ends-any, Ends, Post, Ends-pure, Ends-fail, Ends-consult, Ends-select, Ends-if, Ends-attempt,
  Ends-after, Ends-bind,
}
use stream_weave.Identity.Ends.Avoids.{with_errors}
use stream_weave.Identity.History.{IsConsiderate}
use stream_weave.Identity.History.Always.{allow_dimensions-Keeps}
use stream_weave.Identity.History.Requests.{requests_kept}
use stream_weave.Identity.Rotation.{Spent, Ended, Spent-later}
use stream_weave.Identity.Rotation.Outcome.{NotReuse}
use stream_weave.Identity.Rotation.Refresh.{
  Answer, allow_dimensions-Sure, refresh_with-Answer, or_denied-Ends,
}

module _ (env : Env) (others : IsConsiderate env) where
  -- Refresh before the lookup keeps what no allowed change undoes, and then looks up the hash.
  prefix-Ends :
      (H : Tables → Type 0) (i : RefreshInput) (R : Option SignedIn → Tables → Type 0)
      → Ends env H (refresh_with i (env.hash_opaque i.refresh_token)) R (λ e t. NotReuse e)
      → Ends env H (refresh_attempt i) R (λ e t. NotReuse e)
  unfolding refresh_attempt
  prefix-Ends H i R k =
      Ends-bind _ _ (λ x. H) _ _ _ _ (empty (str_eq i.refresh_token ""))
        λ x.
          Ends-bind _ _ (λ x. H) _ _ _ _
            (with_errors env NotReuse H _ (allow_dimensions-Keeps env H _ _ _)
              (allow_dimensions-Sure env others _ _ _))
            λ x.
              Ends-bind _ _ (λ a t. (a ≡ env.hash_opaque i.refresh_token) × H t) _ _ _ _
                (Ends-consult _ _ _ _ _ (λ n t h. (refl, h)))
                λ a. record {
                  at = λ w (e, h).
                      subst
                        (λ v.
                          Post R (λ e t. NotReuse e) (refresh_with i v env w).0
                            (refresh_with i v env w).1.tables)
                        (sym e) (k.at w h);
                }
    where
      empty : (b : Bool) → Ends env H (guard b invalid_credentials) (λ x. H) (λ e t. NotReuse e)
      empty true = Ends-fail _ _ _ _ _ (λ t h. refl)
      empty false = Ends-pure _ _ _ _ _ (λ t h. h)

  refresh_attempt-Answer :
      (i : RefreshInput)
      → Ends env
          (λ t. Unit)
          (refresh_attempt i)
          (Answer env others (env.hash_opaque i.refresh_token))
          (λ e t. NotReuse e)
  refresh_attempt-Answer i = prefix-Ends (λ t. Unit) i _ (refresh_with-Answer env others i _)

  -- After a Refresh that answers, the session of its token is not ACTIVE in the committed tables.
  pub refresh_spends :
      (i : RefreshInput) (w : World) (s : SignedIn)
      → (refresh i env w).0 ≡ ok s
      → Spent (env.hash_opaque i.refresh_token) (refresh i env w).1.tables.sessions
  unfolding refresh ◌>>=◌ pure fail
  refresh_spends i w s e =
      go (refresh_attempt i env w).0 (refresh_attempt i env w).1
        ((refresh_attempt-Answer i).at w tt) e
    where
      go :
          (r : Result Error (Option SignedIn)) (v : World)
          → Post
              (Answer env others (env.hash_opaque i.refresh_token))
              (λ e t. NotReuse e)
              r
              v.tables
          → (continue r or_reuse env v).0 ≡ ok s
          → Spent (env.hash_opaque i.refresh_token) (continue r or_reuse env v).1.tables.sessions
      go (ok none) v k x = cc
      go (ok (some y)) v k x = k
      go (err y) v k x = cc

  -- When Refresh answers that a token was reused, the session of that token, and every session of its
  -- family, is REVOKED in the committed tables, whatever fails and whatever other requests do that
  -- keeps to the allowed changes of rows.
  pub reuse_ends_family :
      (i : RefreshInput) (w : World)
      → (refresh i env w).0 ≡ err refresh_reuse
      → Ended (env.hash_opaque i.refresh_token) (refresh i env w).1.tables.sessions
  unfolding refresh ◌>>=◌ pure fail
  reuse_ends_family i w e =
      go (refresh_attempt i env w).0 (refresh_attempt i env w).1
        ((refresh_attempt-Answer i).at w tt) e
    where
      go :
          (r : Result Error (Option SignedIn)) (v : World)
          → Post
              (Answer env others (env.hash_opaque i.refresh_token))
              (λ e t. NotReuse e)
              r
              v.tables
          → (continue r or_reuse env v).0 ≡ err refresh_reuse
          → Ended (env.hash_opaque i.refresh_token) (continue r or_reuse env v).1.tables.sessions
      go (ok none) v k x = k
      go (ok (some y)) v k x = cc
      go (err y) v k x = let same : y ≡ refresh_reuse = cc in cc (rw same at k)

  module _ (h : String) where
    abbrev Used : Tables → Type 0
    Used t = Spent h t.sessions

    find_session-spent :
        Ends env Used
          (find_session_by_refresh_hash h)
          (λ s t. is_live s.status ≡ false)
          (λ e t. Unit)
    unfolding find_session_by_refresh_hash get_session_by_refresh_hash
    find_session-spent =
        Ends-bind _ _ (λ row t. is_live row.status ≡ false) _ _ _ _
          (Ends-select _ _ _ _ _ (λ n t k. Spent-later h t (env.others n t) (others n t) k)
            (λ a t e k. over t a e k) (λ e t k. tt) (λ t k. tt))
          λ row. Ends-pure _ _ _ _ (map_session row) (λ t k. k)
      where
        over :
            (t : Tables) (a : SessionRow)
            → one_row (find_first (has_hash h) t.sessions) ≡ ok a
            → Spent h t.sessions
            → is_live a.status ≡ false
        over t a e k =
            let same : k.row ≡ a = cc (rw k.found at e) in
            subst (λ r. is_live r.status ≡ false) same k.over

    refuse_reused-none :
        (i : RefreshInput) (user : User) (s : Session) (at : Instant)
        → Ends env (λ t. Unit) (refuse_reused i user s at) (λ o t. o ≡ none) (λ e t. NotReuse e)
    unfolding refuse_reused revoked_or_failed
    refuse_reused-none i user s at =
        Ends-bind _ _ _ _ _ _ _ (Ends-attempt _ _ _ _ _ _ (Ends-any env _)) (λ r. go r)
      where
        go :
            (r : Result Error (Unit {0}))
            → Ends env
                (Post (λ x t. Unit) (λ e t. Unit) r)
                (revoked_or_failed r)
                (λ o t. o ≡ none)
                (λ e t. NotReuse e)
        go (ok x) = Ends-pure _ _ _ _ none (λ t k. refl)
        go (err e) = Ends-fail _ _ _ _ _ (λ t k. refl)

    find_user-any :
        (P : Type 0) (id : String) → Ends env (λ t. P) (find_user id) (λ u t. P) (λ e t. Unit)
    unfolding find_user
    find_user-any P id = Ends-select _ _ _ _ _ (λ n t k. k) (λ a t e k. k) (λ e t k. tt) (λ t k. tt)

    unusable :
        (s : Session) (at : Instant) (b : Bool)
        → is_live s.status ≡ false
        → (not (is_usable s at) || b) ≡ false
        → ⊥
    unfolding is_usable
    unusable s at b k e = cc (rw k at e)

    refresh_with-none :
        (i : RefreshInput) → Ends env Used (refresh_with i h) (λ o t. o ≡ none) (λ e t. NotReuse e)
    unfolding refresh_with
    refresh_with-none i =
        Ends-bind _ _ _ _ _ _ _ (Ends-attempt _ _ _ _ _ _ find_session-spent) λ found.
          Ends-bind _ _ _ _ _ _ _
            (or_denied-Ends env others (λ s t. is_live s.status ≡ false) found)
            λ s.
              Ends-bind _ _ (λ a t. is_live s.status ≡ false) _ _ _ _
                (Ends-consult _ _ _ _ _ (λ n t k. k))
                λ at.
                  Ends-bind _ _ _ _ _ _ _ (Ends-attempt _ _ _ _ _ _ (find_user-any _ s.user_id))
                    λ owner.
                      Ends-bind _ _ _ _ _ _ _
                        (or_denied-Ends env others (λ u t. is_live s.status ≡ false) owner)
                        λ user.
                          Ends-if _ _ _ _
                            (not (is_usable s at) || not (eqb_user_status user.status active)) _ _
                            (λ e.
                              Ends-after _ _ _ _ _ _ (λ t k. tt) (refuse_reused-none i user s at))
                            (λ e. record { at = λ w k. elim (unusable s at _ k e) [ ] })

  -- A refresh token whose session is not ACTIVE is refused, whatever else the request says.
  pub no_refresh :
      (i : RefreshInput) (w : World) (s : SignedIn)
      → Spent (env.hash_opaque i.refresh_token) w.tables.sessions
      → (refresh i env w).0 ≢ ok s
  unfolding refresh ◌>>=◌ pure fail
  no_refresh i w s k e =
      go (refresh_attempt i env w).0 (refresh_attempt i env w).1
        ((prefix-Ends (Used (env.hash_opaque i.refresh_token)) i (λ o t. o ≡ none)
            (refresh_with-none (env.hash_opaque i.refresh_token) i)).at
          w k)
        e
    where
      go :
          (r : Result Error (Option SignedIn)) (v : World)
          → Post (λ o t. o ≡ none) (λ e t. NotReuse e) r v.tables
          → (continue r or_reuse env v).0 ≡ ok s
          → ⊥
      go (ok none) v k x = cc
      go (ok (some y)) v k x = cc
      go (err y) v k x = cc

-- A refresh token is good for one Refresh: after a Refresh that answers, no later Refresh with the
-- same token answers, whatever requests are served in between, whatever fails, and whatever other
-- requests do that keeps to the allowed changes of rows.
pub refresh_once :
    (env : Env) (i j : RefreshInput) (w v : World) (s r : SignedIn)
    → IsConsiderate env
    → (refresh i env w).0 ≡ ok s
    → Reaches env (refresh i env w).1 v
    → j.refresh_token ≡ i.refresh_token
    → (refresh j env v).0 ≢ ok r
refresh_once env i j w v s r others e run same = no_refresh env others j v r (
    Spent-later (env.hash_opaque j.refresh_token) _ v.tables (requests_kept env _ v others run)
      (rw same (refresh_spends env others i w s e)))
