-- ===== src/Identity/Opening/Login.antt =====
-- Login (service.go): whom it lets in, and the session that it opens.
use stream_weave.Prelude.{
  ◌≡◌, refl, sym, ◌∙◌, subst, String, Bool, true, false, not, is_some, arith, Option, none, some,
  List, find_first, ok,
}
use stream_weave.Identity.Model.{
  Error, invalid_credentials, User, active, live, RolePermission, LoginInput, normalize_email,
}
use stream_weave.Identity.Tables.{SessionRow, Tables}
use stream_weave.Identity.Monad.{Env, World, guard, ask}
use stream_weave.Identity.Accounts.{one_row, has_email, get_user_by_email}
use stream_weave.Identity.Sessions.{has_hash}
use stream_weave.Identity.Store.{find_user_by_email, create_session}
use stream_weave.Identity.Service.{normalized_email}
use stream_weave.Identity.Service.Signin.{SignedIn, start_session, may_log_in, admit, login}
use stream_weave.Identity.Ends.{
  Ends-any, Ends, Post, IsStable, Ends-pure, Ends-fail, Ends-consult, Ends-answer, Ends-statement,
  Ends-select, Ends-transaction, Ends-attempt, Ends-after, Ends-bind, Ends-fact,
}
use stream_weave.Identity.History.Always.{allow_dimensions-Keeps, validate_credentials-Keeps}
use stream_weave.Identity.Revocation.{Keeps-Ends, record_audit-kept}
use stream_weave.Identity.Opening.{IsAlone, IsOpaque, or_denied-known, insert_session-found}

-- The session of a refresh token that was handed out
pub record Opened (h user : String) (rows : List SessionRow) : Type 0 where
  pub row : SessionRow
  pub found : find_first (has_hash h) rows ≡ some row
  pub user_id : row.user_id ≡ user
  pub status : row.status ≡ live

module _ (env : Env) (opaque : IsOpaque env) where
  create_session-Opened :
      (s : _) (hash : String) (agent ip : Option String)
      → Ends env
          (λ t. Unit)
          (create_session s hash agent ip)
          (λ x t. Opened hash s.user_id t.sessions)
          (λ e t. Unit)
  unfolding create_session
  create_session-Opened s hash agent ip =
      Ends-statement _ _ _ _ _
        (λ a t t' e k. record {
          row = _;
          found = insert_session-found _ t t' a e;
          user_id = refl;
          status = refl;
        })
        (λ e t k. tt) (λ t k. tt)

  start_session-Opened :
      (user : User) (roles : List RolePermission) (correlation action : String)
      → Ends env
          (λ t. Unit)
          (start_session user roles correlation action)
          (λ c t. Opened (env.hash_opaque c.refresh_token) user.id t.sessions)
          (λ e t. Unit)
  unfolding start_session
  start_session-Opened user roles correlation action =
      Ends-bind _ _ (λ a t. Unit) _ _ _ _ (Ends-any env _)
        λ at.
          Ends-bind _ _ (λ a t. Unit) _ _ _ _ (Ends-any env _)
            λ session_id.
              Ends-bind _ _ (λ a t. Unit) _ _ _ _ (Ends-any env _)
                λ family_id.
                  Ends-bind _ _ (λ a t. (env.hash_opaque a.0 ≡ a.1) × Unit {0}) _ _ _ _ hashed
                    λ refresh. Ends-fact _ _ _ _ _ _ λ same.
                      Ends-bind _ _ (λ a t. Unit) _ _ _ _ (Ends-any env _)
                        λ access.
                          Ends-bind _ _ (λ x t. Opened refresh.1 user.id t.sessions) _ _ _ _
                            (Ends-transaction _ _ _ _ (λ e. Unit) _ (λ n t k. tt)
                              (Ends-bind _ _ _ _ _ _ _ (create_session-Opened _ refresh.1 none none)
                                (λ x.
                                  Keeps-Ends env (λ t. Opened refresh.1 user.id t.sessions) _
                                    (record_audit-kept env
                                      (λ t. Opened refresh.1 user.id t.sessions) (λ t a k. k)
                                      (λ t o k. k) _)))
                              (λ e t x k. tt) (λ t k. tt))
                            λ x. Ends-pure _ _ _ _ _ (λ t k. rw same k)
    where
      hashed :
          Ends env
            (λ t. Unit)
            (ask (λ env n. env.new_opaque n))
            (λ a t. (env.hash_opaque a.0 ≡ a.1) × Unit {0})
            (λ e t. Unit)
      hashed =
          Ends-bind _ _
            (λ o t. (token hash : String) → o ≡ some (token, hash) → env.hash_opaque token ≡ hash) _
            _ _ _ (Ends-consult _ _ _ _ _ (λ n t k. opaque n))
            λ o. Ends-answer _ _ _ _ o (λ a t e k. (k a.0 a.1 e, tt)) (λ t k. tt)

may_log_in-parts :
    (verify : String → String → Bool) (password : String) (user : User)
    → may_log_in verify password user ≡ true
    → (user.status ≡ active)
      × (is_some user.email_verified_at ≡ true)
      × (verify password user.password_hash ≡ true)
unfolding may_log_in
may_log_in-parts verify password user e = ground arith

-- What Login found and opened
pub record Admitted (env : Env) (i : LoginInput) (t t' : Tables) (s : SignedIn) : Type 0 where
  pub found : find_first (has_email (normalize_email env.lower i.email)) t.users ≡ some s.user
  pub active : s.user.status ≡ active
  pub verified : is_some s.user.email_verified_at ≡ true
  pub password : env.verify_password i.password s.user.password_hash ≡ true
  pub session : Opened (env.hash_opaque s.credentials.refresh_token) s.user.id t'.sessions

module _ (env : Env) (opaque : IsOpaque env) (alone : IsAlone env) (t0 : Tables) where
  abbrev Same : Tables → Type 0
  Same t = t ≡ t0

  stable : IsStable env Same
  stable n t e = alone n t ∙ e

  email-Same :
      (email : String)
      → Ends env Same
          (normalized_email email)
          (λ a t. (a ≡ normalize_email env.lower email) × Same t)
          (λ e t. Unit)
  email-Same email = Ends-consult _ _ _ _ _ (λ n t k. (refl, k))

  find_user-Same :
      (email : String)
      → Ends env Same
          (find_user_by_email email)
          (λ u t. (find_first (has_email email) t0.users ≡ some u) × Same t)
          (λ e t. Unit)
  unfolding find_user_by_email get_user_by_email
  find_user-Same email =
      Ends-select _ _ _ _ _ stable
        (λ u t e k. (go u (find_first (has_email email) t0.users) refl (rw k at e), k))
        (λ e t k. tt) (λ t k. tt)
    where
      go :
          (u : User) (o : Option User)
          → find_first (has_email email) t0.users ≡ o
          → one_row o ≡ ok u
          → find_first (has_email email) t0.users ≡ some u
      go u none x e = cc
      go u (some v) x e = cc

  guard-Same :
      (b : Bool) (e : Error)
      → Ends env Same (guard (not b) e) (λ x t. (b ≡ true) × Same t) (λ e t. Unit)
  guard-Same true e = Ends-pure _ _ _ _ tt (λ t k. (refl, k))
  guard-Same false e = Ends-fail _ _ _ _ e (λ t k. tt)

  -- The rest of Login for a user that was found
  admit-Admitted :
      (i : LoginInput) (user : User)
      → find_first (has_email (normalize_email env.lower i.email)) t0.users ≡ some user
      → Ends env Same (admit i user) (λ s t. Admitted env i t0 t s) (λ e t. Unit)
  unfolding admit
  admit-Admitted i user found =
      Ends-bind _ _ (λ a t. (a ≡ may_log_in env.verify_password i.password user) × Same t) _ _ _ _
        (Ends-consult _ _ _ _ _ (λ n t k. (refl, k)))
        λ a. Ends-fact _ _ _ _ _ _ λ same.
          Ends-bind _ _ _ _ _ _ _ (guard-Same a invalid_credentials) λ x.
            Ends-fact _ _ _ _ _ _ λ yes.
              Ends-after _ _ _ _ (λ t. Same t) _ (λ t k. tt)
                (Ends-bind _ _ (λ a t. Unit) _ _ _ _ (Ends-any env _)
                  λ roles.
                    Ends-bind _ _ _ _ _ _ _ (start_session-Opened env opaque user roles _ _) λ c.
                      Ends-pure _ _ _ _ _ (λ t k.
                        let (a, v, p) =
                          may_log_in-parts env.verify_password i.password user (sym same ∙ yes) in
                        record {
                          found = found;
                          active = a;
                          verified = v;
                          password = p;
                          session = k;
                        }))

  login-Admitted :
      (i : LoginInput) → Ends env Same (login i) (λ s t. Admitted env i t0 t s) (λ e t. Unit)
  unfolding login
  login-Admitted i =
      Ends-bind _ _ (λ x. Same) _ _ _ _
        (Keeps-Ends env Same _ (validate_credentials-Keeps env Same _ _ _))
        λ x. Ends-bind _ _ _ _ _ _ _ (email-Same i.email) λ email. Ends-fact _ _ _ _ _ _ λ same.
          Ends-bind _ _ (λ x. Same) _ _ _ _
            (Keeps-Ends env Same _ (allow_dimensions-Keeps env Same _ _ _))
            λ x. Ends-bind _ _ _ _ _ _ _ (Ends-attempt _ _ _ _ _ _ (find_user-Same email)) λ r.
              Ends-bind _ _ _ _ _ _ _ (or_denied-known env r) λ user. Ends-fact _ _ _ _ _ _ λ found.
                admit-Admitted i user
                  (subst (λ v. find_first (has_email v) t0.users ≡ some user) same found)

-- Login answers only for the user with the normalised e-mail address, who is ACTIVE, has a verified
-- address, and whose password it verified; the refresh token that it hands out finds the session that
-- it opened for this user, ACTIVE in the committed tables. No other request commits meanwhile, and
-- Tokens.NewOpaque gives a token with its hash.
pub login_opens :
    (env : Env) (i : LoginInput) (w : World) (s : SignedIn)
    → IsOpaque env
    → IsAlone env
    → (login i env w).0 ≡ ok s
    → Admitted env i w.tables (login i env w).1.tables s
login_opens env i w s opaque alone e =
    subst (λ r. Post (λ s t. Admitted env i w.tables t s) (λ e t. Unit) r (login i env w).1.tables)
      e ((login-Admitted env opaque alone w.tables i).at w refl)
