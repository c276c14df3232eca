-- ===== src/Identity/Opening/Machine.antt =====
-- ServiceToken (service.go): which machines are given a token.
use stream_weave.Prelude.{
  ℕ, ◌≤◌, ◌<◌, ◌≡◌, refl, sym, ap, ◌∙◌, subst, String, Bool, true, false, not, Option, none, some,
  List, arith, All, filter_by, find_first, str_eq, leb, Result, ok, err, Bool-cases, inl, inr,
}
use stream_weave.Identity.Model.{
  Instant, Error, invalid_credentials, forbidden, ServicePrincipal, MachineCredentials,
}
use stream_weave.Sorting.{sort_by, member}
use stream_weave.Identity.Tables.{PrincipalRow, CredentialRow, Tables}
use stream_weave.Identity.Monad.{Env, World, Act, guard, tick, pure, fail, consult, ◌>>=◌}
use stream_weave.Identity.Accounts.{one_row}
use stream_weave.Identity.Secrets.{
  is_active_credential, get_service_principal, list_active_credentials,
}
use stream_weave.Identity.Store.{find_service_principal, active_service_credentials, principal_of}
use stream_weave.Identity.Service.Machine.{
  secret_valid, all_granted, authorize_at, authorize_machine, service_token,
}
use stream_weave.Identity.Ends.{
  Ends, Post, IsStable, Ends-pure, Ends-fail, Ends-consult, Ends-answer, Ends-select, Ends-attempt,
  Ends-after, Ends-bind, Ends-fact,
}
use stream_weave.Identity.Ends.Counts.{Since, Since-bind, Since-fact, Counts-attempt, counts_rules}
use stream_weave.Identity.Opening.Calls.{
  allow_dimensions-Counts, or_denied-Counts, find_service_principal-Counts, authorize_at-Counts,
}
use stream_weave.Identity.History.Always.{allow_dimensions-Keeps}
use stream_weave.Identity.Revocation.{Keeps-Ends}
use stream_weave.Identity.Opening.{IsAlone, exists_row, exists_row-sort_by, or_denied-known}
use stream_weave.Identity.Opening.Credentials.{
  has_secret, secret_valid-exists, all_granted-All, exists_row-filter_by,
}

-- What stands behind a token that ServiceToken gives, `from` and `to` being the numbers of calls of
-- the outside before and after it: `reading` is the number of the call that read the clock.
pub record Entitled (env : Env) (client secret : String) (requested : List String) (t : Tables)
    (from to : ℕ) : Type 0 where
  pub row : PrincipalRow
  pub found : find_first (λ p. str_eq p.client_id client) t.principals ≡ some row
  pub enabled : row.enabled ≡ true
  pub scopes : List String
  pub decoded : env.decode_scopes row.scopes ≡ some scopes
  pub granted : All (λ s. member s scopes ≡ true) requested
  pub reading : ℕ
  pub not_before : from ≤ reading
  pub before_end : reading < to
  pub verified :
      has_secret env.verify_password secret row.id (env.clock reading) t.credentials ≡ true

module _ (env : Env) (alone : IsAlone env) (client secret : String) (requested : List String)
    (t0 : Tables) where
  abbrev Same : Tables → Type 0
  Same t = t ≡ t0

  stable : IsStable env Same
  stable n t e = alone n t ∙ e

  guard-fact :
      (b : Bool) (e : Error) → Ends env Same (guard b e) (λ x t. (b ≡ false) × Same t) (λ e t. Unit)
  guard-fact false e = Ends-pure _ _ _ _ tt (λ t k. (refl, k))
  guard-fact true e = Ends-fail _ _ _ _ e (λ t k. tt)

  -- The principal that a client names
  record Named (p : ServicePrincipal) : Type 0 where
    row : PrincipalRow
    found : find_first (λ p. str_eq p.client_id client) t0.principals ≡ some row
    scopes : env.decode_scopes row.scopes ≡ some p.scopes
    same : principal_of row p.scopes ≡ p

  one : {A : Type 0} (o : Option A) (a : A) → one_row o ≡ ok a → o ≡ some a
  one none a e = cc
  one (some b) a e = cc

  find_principal-Named :
      Ends env Same (find_service_principal client) (λ p t. Named p × Same t) (λ e t. Unit)
  unfolding find_service_principal get_service_principal
  find_principal-Named =
      Ends-bind _ _
        (λ row t. (find_first (λ p. str_eq p.client_id client) t0.principals ≡ some row) × Same t) _
        _ _ _
        (Ends-select _ _ _ _ _ stable (λ a t e k. (one _ a (rw k at e), k)) (λ e t k. tt)
          (λ t k. tt))
        λ row. Ends-fact _ _ _ _ _ _ λ found.
          Ends-bind _ _ (λ s t. (env.decode_scopes row.scopes ≡ some s) × Same t) _ _ _ _
            (Ends-bind _ _ (λ o t. (env.decode_scopes row.scopes ≡ o) × Same t) _ _ _ _
              (Ends-consult _ _ _ _ _ (λ n t k. (refl, k)))
              λ o. Ends-answer _ _ _ _ o (λ a t e k. (k.0 ∙ e, k.1)) (λ t k. tt))
            λ s.
              Ends-pure _ _ _ _ _
                (λ t k. (record { row = row; found = found; scopes = k.0; same = refl }, k.1))

  active-Valid :
      (id : String) (at : Instant)
      → Ends env Same
          (active_service_credentials id at)
          (λ cs t.
            (secret_valid env.verify_password secret cs
              ≡ has_secret env.verify_password secret id at t0.credentials)
            × Same t)
          (λ e t. Unit)
  unfolding active_service_credentials list_active_credentials
  active-Valid id at =
      Ends-bind _ _
        (λ rows t.
          (exists_row (λ c. env.verify_password secret c.secret_hash) rows
            ≡ has_secret env.verify_password secret id at t0.credentials)
          × Same t)
        _ _ _ _
        (Ends-select _ _ _ _ _ stable (λ rows t e k. (listed rows t e k, k)) (λ e t k. tt)
          (λ t k. tt))
        λ rows.
          Ends-pure _ _ _ _ _
            (λ t k. (secret_valid-exists env.verify_password secret rows ∙ k.0, k.1))
    where
      listed :
          (rows : List CredentialRow) (t : Tables)
          → list_active_credentials id at t ≡ ok rows
          → t ≡ t0
          → exists_row (λ c. env.verify_password secret c.secret_hash) rows
            ≡ has_secret env.verify_password secret id at t0.credentials
      listed rows t e k =
          let verified : CredentialRow → Bool = λ c. env.verify_password secret c.secret_hash in
          let active = filter_by (is_active_credential id at) t0.credentials in
          let same : sort_by (λ a b. leb b.valid_from a.valid_from) active ≡ rows =
            cc (rw k at e) in
          subst
            (λ r.
              exists_row verified r ≡ has_secret env.verify_password secret id at t0.credentials)
            same
            (exists_row-sort_by verified (λ a b. leb b.valid_from a.valid_from) active
              ∙ exists_row-filter_by (is_active_credential id at) verified t0.credentials)

  un_not : (b : Bool) → not b ≡ false → b ≡ true
  un_not true e = refl
  un_not false e = cc

  -- What follows from the reading `n` of the clock
  abbrev ReadAt : ℕ → Type 0
  ReadAt n = (from to : ℕ) → from ≤ n → n < to → Entitled env client secret requested t0 from to

  known : {A X : Type 0} {m : Act A} → X → Ends env Same m (λ a t. X) (λ e t. Unit)
  known {A} {X} {m} x =
      Ends-after _ _ _ _ _ _ (λ t k. tt) (record { at = λ w h. go (m env w).0 (m env w).1.tables })
    where
      go : (r : Result Error A) (t : Tables) → Post (λ a t. X) (λ e t. Unit) r t
      go (ok a) t = x
      go (err e) t = tt

  -- ServiceToken from the lookup of the credentials on, at the reading `n`
  entitle :
      (p : ServicePrincipal) (correlation : String) (n : ℕ)
      → Named p
      → p.enabled ≡ true
      → Ends env Same
          (authorize_at p secret requested correlation (env.clock n))
          (λ m t. ReadAt n)
          (λ e t. Unit)
  unfolding authorize_at
  entitle p correlation n named enabled =
      Ends-bind _ _ _ _ _ _ _ (Ends-attempt _ _ _ _ _ _ (active-Valid p.id (env.clock n))) λ r.
        Ends-bind _ _ _ _ _ _ _ (or_denied-known env r) λ cs. Ends-fact _ _ _ _ _ _ λ listed.
          Ends-bind _ _ (λ v t. (v ≡ secret_valid env.verify_password secret cs) × Same t) _ _ _ _
            (Ends-consult _ _ _ _ _ (λ n t k. (refl, k)))
            λ v. Ends-fact _ _ _ _ _ _ λ is_valid.
              Ends-bind _ _ _ _ _ _ _ (guard-fact (not v) invalid_credentials) λ x.
                Ends-fact _ _ _ _ _ _ λ valid.
                  Ends-bind _ _ _ _ _ _ _
                    (guard-fact (not (all_granted p.scopes requested)) forbidden)
                    λ x. Ends-fact _ _ _ _ _ _ λ granted. known (λ from to le lt. record {
                      row = named.row;
                      found = named.found;
                      enabled = ground (arith, named.same, enabled);
                      scopes = p.scopes;
                      decoded = named.scopes;
                      granted = all_granted-All p.scopes requested (un_not _ granted);
                      reading = n;
                      not_before = le;
                      before_end = lt;
                      verified =
                          rw (ap (λ q. q.id) named.same)
                            (sym listed ∙ sym is_valid ∙ un_not v valid);
                    })

  module _ (from : ℕ) where
    abbrev Given : MachineCredentials → World → Type 0
    Given m v = Entitled env client secret requested t0 from v.asked

    -- ServiceToken for a principal that was found: it reads the clock first.
    authorize_machine-Since :
        (p : ServicePrincipal) (correlation : String)
        → Named p
        → Since env from Same (authorize_machine p secret requested correlation) Given
    unfolding authorize_machine ◌>>=◌ pure fail consult
    authorize_machine-Since p correlation named = record {
      at = λ w b le h e. elim (Bool-cases p.enabled) [
        | inr off ↦ cc (rw off at e)
        | inl on ↦ rw on (answered w b le h on (rw on at e))
      ];
    }
      where
        answered :
            (w : World) (b : MachineCredentials)
            → from ≤ w.asked
            → Same w.tables
            → p.enabled ≡ true
            → (authorize_at p secret requested correlation (env.clock w.asked) env (tick w)).0
              ≡ ok b
            → Given b
                (authorize_at p secret requested correlation (env.clock w.asked) env (tick w)).1
        answered w b le h on e =
            let read = authorize_at p secret requested correlation (env.clock w.asked) in
            let x : ReadAt w.asked =
              subst (λ r. Post (λ m t. ReadAt w.asked) (λ e t. Unit) r (read env (tick w)).1.tables)
                e ((entitle p correlation w.asked named on).at (tick w) h) in
            x from (read env (tick w)).1.asked le (
              omega (arith, (authorize_at-Counts env p secret requested correlation _).at (tick w)))

    service_token-Since :
        (source correlation : String)
        → Since env from Same (service_token client secret requested source correlation) Given
    unfolding service_token
    service_token-Since source correlation =
        Since-bind env from _ (λ x. Same) _ _ _ _ (passed _ _) (search counts_rules depth 8)
          λ x.
            Since-bind env from _ (λ x. Same) _ _ _ _
              (Keeps-Ends env Same _ (allow_dimensions-Keeps env Same _ _ _))
              (allow_dimensions-Counts env _ _ _)
              λ x.
                Since-bind env from _ _ (λ e t. Unit {0}) _ _ _
                  (Ends-attempt _ _ _ _ _ _ find_principal-Named)
                  (Counts-attempt env _ (find_service_principal-Counts env client))
                  λ r.
                    Since-bind env from _ _ _ _ _ _ (or_denied-known env r) (or_denied-Counts env r)
                      λ p. Since-fact env from _ _ _ _ (authorize_machine-Since p correlation)
      where
        passed : (b : Bool) (e : Error) → Ends env Same (guard b e) (λ x. Same) (λ e t. Unit)
        passed true e = Ends-fail _ _ _ _ e (λ t k. tt)
        passed false e = Ends-pure _ _ _ _ tt (λ t k. k)

-- ServiceToken answers only where the client is known and ACTIVE, the secret verifies against one of
-- its credentials that is ACTIVE, valid and not retired at a time that the call itself read from the
-- clock, and every requested scope is among the scopes of the principal. No other request commits
-- meanwhile.
pub service_token_checked :
    (env : Env) (client secret : String) (requested : List String) (source correlation : String)
    (w : World) (m : MachineCredentials)
    → IsAlone env
    → (service_token client secret requested source correlation env w).0 ≡ ok m
    → Entitled env client secret requested w.tables w.asked
        (service_token client secret requested source correlation env w).1.asked
service_token_checked env client secret requested source correlation w m alone e =
    (service_token-Since env alone client secret requested w.tables w.asked source correlation).at w
      m (omega arith) refl e
