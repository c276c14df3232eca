-- ===== src/Identity/Revocation.antt =====
-- What ends the sessions of a user: logout from everywhere, the disabling of an account, a password
-- reset (service.go).
pub mod Reset
pub mod ResetOnce
use stream_weave.Prelude.{
  ℕ, ◌≡◌, ◌≢◌, refl, sym, subst, String, Bool, true, false, not, ◌||◌, ◌&&◌, ◌==◌, Option, none,
  some, List, [], ◌∷◌, arith, all_rows, update_rows, if◌then◌else◌, Result, ok, err,
}
use stream_weave.Identity.Model.{
  Instant, Error, User, UserStatus, active, disabled, eqb_user_status, is_revoked, is_live,
  AuditRecord, conflict, not_found,
}
use stream_weave.Identity.Tables.{SessionRow, OutboxRow, Tables}
use stream_weave.Identity.Monad.{Env, World, Act, Query, guard, statement, with_transaction}
use stream_weave.Identity.Accounts.{set_user_status}
use stream_weave.Identity.Sessions.{of_user, revoked_row, revoke_sessions_of_user}
use stream_weave.Identity.Secrets.{insert_security_audit, insert_outbox_event}
use stream_weave.Identity.Store.{
  revoke_user_sessions, update_user_status, record_audit_row, record_outbox_row,
}
use stream_weave.Identity.Service.{AuditInput, record_audit}
use stream_weave.Identity.Service.Signin.{logout_all}
use stream_weave.Identity.Service.Admin.{keep_administrator, status_body, change_user_status}
use stream_weave.Identity.Ends.{
  Ends, Post, IsStable, Ends-pure, Ends-fail, Ends-consult, Ends-statement, Ends-transaction,
  Ends-if, Ends-after, Ends-bind, Ends-any,
}
use stream_weave.Identity.Ends.Keeps.{
  Keeps, KeepsQuery, KeepsQuery-err, KeepsQuery-ok, KeepsQuery-if, keeps_rules,
}

-- Every session of the user is REVOKED.
abbrev pub user_revoked : String → List SessionRow → Bool
user_revoked user = all_rows (λ r. not (of_user user r) || is_revoked r.status)

pub revoke-user_revoked :
    (user reason : String) (at : Instant) (rows : List SessionRow)
    → user_revoked user (
        update_rows (λ s. of_user user s && not (is_revoked s.status)) (revoked_row at reason) rows)
      ≡ true
revoke-user_revoked user reason at [] = refl
revoke-user_revoked user reason at (r ∷ rows) =
    ground (arith, revoke-user_revoked user reason at rows)

module _ (env : Env) where
  pub Keeps-Ends :
      (H : Tables → Type 0) {A : Type 0} (m : Act A)
      → Keeps env H m
      → Ends env H m (λ a. H) (λ e t. Unit)
  Keeps-Ends H {A} m k = record { at = λ w h. go (m env w).0 (m env w).1.tables (k.ends.at w h) }
    where
      go :
          (r : Result Error A) (t : Tables)
          → Post (λ a. H) (λ e. H) r t
          → Post (λ a. H) (λ e t. Unit) r t
      go (ok a) t x = x
      go (err e) t x = tt

  module _ (H : Tables → Type 0)
      (audits : (t : Tables) (x : List AuditRecord) → H t → H (record t { audit = x }))
      (events : (t : Tables) (x : List OutboxRow) → H t → H (record t { outbox = x })) where
    insert_audit-kept : (a : AuditRecord) → KeepsQuery env H (insert_security_audit a)
    unfolding insert_security_audit
    insert_audit-kept a =
        KeepsQuery-if _ _ _ _ _ (KeepsQuery-err _ _ _) (KeepsQuery-ok _ _ _ _ (λ t h. audits t _ h))

    insert_event-kept : (o : OutboxRow) → KeepsQuery env H (insert_outbox_event o)
    unfolding insert_outbox_event
    insert_event-kept o =
        KeepsQuery-if _ _ _ _ _ (KeepsQuery-err _ _ _) (KeepsQuery-ok _ _ _ _ (λ t h. events t _ h))

    -- The audit changes no other table.
    pub record_audit-kept : (input : AuditInput) → Keeps env H (record_audit input)
    unfolding record_audit record_audit_row record_outbox_row
    record_audit-kept input = search (keeps_rules, insert_audit-kept, insert_event-kept) depth 30

  pub revoke_user_sessions-revoked :
      (user reason : String) (at : Instant)
      → Ends env
          (λ t. Unit)
          (revoke_user_sessions user at reason)
          (λ x t. user_revoked user t.sessions ≡ true)
          (λ e t. Unit)
  unfolding revoke_user_sessions revoke_sessions_of_user
  revoke_user_sessions-revoked user reason at =
      Ends-statement _ _ _ _ _
        (λ a t t' e k.
          let same : update_rows (λ s. of_user user s && not (is_revoked s.status))
                (revoked_row at reason) t.sessions
              ≡ t'.sessions =
            cc in
          subst (λ rows. user_revoked user rows ≡ true) same
            (revoke-user_revoked user reason at t.sessions))
        (λ e t k. tt) (λ t k. tt)

  abbrev Revoked : String → Tables → Type 0
  Revoked user t = user_revoked user t.sessions ≡ true

  audit-Revoked :
      (user : String) (input : AuditInput)
      → Ends env (Revoked user) (record_audit input) (λ x. Revoked user) (λ e t. Unit)
  audit-Revoked user input =
      Keeps-Ends (Revoked user) _ (record_audit-kept (Revoked user) (λ t x h. h) (λ t x h. h) input)

  -- A transaction whose effect is asked for only when it commits
  pub Ends-commit :
      {A : Type 0} (Q : A → Tables → Type 0) (m : Act A)
      → Ends env (λ t. Unit) m Q (λ e t. Unit)
      → Ends env (λ t. Unit) (with_transaction m) Q (λ e t. Unit)
  Ends-commit Q m k =
      Ends-transaction _ _ _ _ (λ e. Unit) m (λ n t h. tt) k (λ e t x h. tt) (λ t h. tt)

  pub Post-ok :
      {A : Type 0} (Q : A → Tables → Type 0) (E : Error → Tables → Type 0) (m : Act A)
      → Ends env (λ t. Unit) m Q E
      → (w : World) (a : A) → (m env w).0 ≡ ok a
      → Q a (m env w).1.tables
  Post-ok Q E m k w a e = subst (λ r. Post Q E r (m env w).1.tables) e (k.at w tt)

  -- After LogoutAll succeeds, every session of the user is REVOKED in the committed tables.
  pub logout_all_ends :
      (user correlation : String) (w : World) (x : Unit {0})
      → (logout_all user correlation env w).0 ≡ ok x
      → user_revoked user (logout_all user correlation env w).1.tables.sessions ≡ true
  unfolding logout_all
  logout_all_ends user correlation w x e =
      Post-ok (λ x. Revoked user) (λ e t. Unit) _
        (Ends-bind _ _ (λ a t. Unit) _ _ _ _ (Ends-any env _)
          λ at. Ends-commit _ _ (
            Ends-bind _ _ _ _ _ _ _ (revoke_user_sessions-revoked user _ at)
              (λ x. audit-Revoked user _)))
        w x e

  status_body-Revoked :
      (target actor correlation : String) (at : Instant)
      → Ends env
          (λ t. Unit)
          (status_body target disabled actor correlation at)
          (λ x. Revoked target)
          (λ e t. Unit)
  unfolding status_body
  status_body-Revoked target actor correlation at =
      Ends-bind _ _ (λ a t. Unit) _ _ _ _ (Ends-any env _)
        λ x.
          Ends-bind _ _ (λ a t. Unit) _ _ _ _ (Ends-any env _)
            λ n.
              Ends-bind _ _ (λ a t. Unit) _ _ _ _ (Ends-any env _)
                λ y.
                  Ends-bind _ _ _ _ _ _ _ (revoke_user_sessions-revoked target _ at)
                    (λ x. audit-Revoked target _)

  -- After an account is disabled, every session of its user is REVOKED in the committed tables.
  pub disable_ends :
      (target actor correlation : String) (w : World) (x : Unit {0})
      → (change_user_status target disabled actor correlation env w).0 ≡ ok x
      → user_revoked target
          (change_user_status target disabled actor correlation env w).1.tables.sessions
        ≡ true
  unfolding change_user_status
  disable_ends target actor correlation w x e =
      Post-ok (λ x. Revoked target) (λ e t. Unit) _
        (Ends-bind _ _ (λ a t. Unit) _ _ _ _ (Ends-any env _)
          λ y.
            Ends-bind _ _ (λ a t. Unit) _ _ _ _ (Ends-any env _)
              λ at. Ends-commit _ _ (status_body-Revoked target actor correlation at))
        w x e
