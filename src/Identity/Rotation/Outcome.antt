-- ===== src/Identity/Rotation/Outcome.antt =====
-- What Refresh leaves of the session of its token: whether it answers or detects a reuse.
use stream_weave.Prelude.{
  ◌≡◌, refl, subst, String, Bool, true, false, not, ◌&&◌, ◌==◌, Option, none, List, update_rows,
  Result, ok, err,
}
use stream_weave.Identity.Model.{
  Instant, Error, refresh_reuse, User, Session, is_not_found, is_revoked, AuditRecord,
}
use stream_weave.Identity.Tables.{SessionRow, OutboxRow, Tables}
use stream_weave.Identity.Monad.{
  Env, Act, DbError, no_rows, unique_violation, db_failure, map_database_error, pure, ◌>>=◌,
}
use stream_weave.Identity.Sessions.{in_family, revoked_row, revoke_sessions_of_family}
use stream_weave.Identity.Secrets.{insert_security_audit, insert_outbox_event}
use stream_weave.Identity.Store.{
  create_session, lock_active_session, rotate_session, revoke_session_family, record_audit_row,
  record_outbox_row,
}
use stream_weave.Identity.Service.{AuditInput, record_audit}
use stream_weave.Identity.Service.Refresh.{revoke_reused, lock_result, replace_session, rotate_body}
use stream_weave.Identity.Ends.{
  Ends, Post, Ends-pure, Ends-fail, Ends-statement, Ends-if, Ends-attempt, Ends-after, Ends-bind,
}
use stream_weave.Identity.Ends.Keeps.{
  KeepsQuery, KeepsQuery-err, KeepsQuery-ok, KeepsQuery-if, keeps_rules,
}
use stream_weave.Identity.Ends.Avoids.{Common, Avoids, avoids_rules, with_errors}
use stream_weave.Identity.History.{Later, Later-same, Keeps-closed}
use stream_weave.Identity.History.Calls.{
  revoke_sessions_of_family-Kept, set_rotated-Kept, select_for_update-Kept, history_rules,
}
use stream_weave.Identity.Rotation.{Known, Spent, Ended, family_revoked, Known-later}
use stream_weave.Identity.Rotation.Statements.{revoke-family_revoked, set_rotated-Spent}

abbrev pub is_reuse : Error → Bool
is_reuse refresh_reuse = true
is_reuse _ = false

abbrev pub NotReuse : Error → Type 0
NotReuse e = is_reuse e ≡ false

pub common : (env : Env) → Common env NotReuse
common env = record {
  on_missing = refl;
  on_conflict = refl;
  on_dependency = refl;
  on_outside = refl;
}

module _ (env : Env) where
  abbrev pub Sure : {A : Type 0} → Act A → Type 0
  Sure m = Avoids env NotReuse m

  record_audit-Sure : (input : AuditInput) → Sure (record_audit input)
  unfolding record_audit record_audit_row record_outbox_row
  record_audit-Sure input = search (avoids_rules, common env) depth 30

  insert_audit-sessions :
      (G : List SessionRow → Type 0) (a : AuditRecord)
      → KeepsQuery env (λ t. G t.sessions) (insert_security_audit a)
  unfolding insert_security_audit
  insert_audit-sessions G a =
      KeepsQuery-if _ _ _ _ _ (KeepsQuery-err _ _ _) (KeepsQuery-ok _ _ _ _ (λ t h. h))

  insert_event-sessions :
      (G : List SessionRow → Type 0) (o : OutboxRow)
      → KeepsQuery env (λ t. G t.sessions) (insert_outbox_event o)
  unfolding insert_outbox_event
  insert_event-sessions G o =
      KeepsQuery-if _ _ _ _ _ (KeepsQuery-err _ _ _) (KeepsQuery-ok _ _ _ _ (λ t h. h))

  -- The audit changes no session.
  record_audit-sessions :
      (G : List SessionRow → Type 0) (input : AuditInput)
      → Ends env (λ t. G t.sessions) (record_audit input) (λ x t. G t.sessions) (λ e t. NotReuse e)
  unfolding record_audit record_audit_row record_outbox_row
  record_audit-sessions G input =
      with_errors env NotReuse (λ t. G t.sessions) _
        (search (keeps_rules, insert_audit-sessions G, insert_event-sessions G) depth 30)
        (record_audit-Sure input)

  module _ (h : String) (s : Session) where
    abbrev pub Ours : Tables → Type 0
    Ours t = Known h s t.sessions

    pub mapped : (e : DbError) → NotReuse (map_database_error e)
    unfolding map_database_error
    mapped no_rows = refl
    mapped unique_violation = refl
    mapped db_failure = refl

    revoke-Ended :
        (at : Instant) (reason : String)
        → Ends env Ours
            (revoke_session_family s.family_id at reason)
            (λ x t. Ended h t.sessions)
            (λ e t. NotReuse e)
    unfolding revoke_session_family revoke_sessions_of_family
    revoke-Ended at reason =
        Ends-statement _ _ _ _ _ (λ a t t' e k. go t t' a e k) (λ e t k. mapped e) (λ t k. refl)
      where
        go :
            (t t' : Tables) (a : Unit {0})
            → revoke_sessions_of_family s.family_id at reason t ≡ ok (a, t')
            → Ours t
            → Ended h t'.sessions
        go t t' a e k =
            let later =
              (revoke_sessions_of_family-Kept env t s.family_id at reason).at t e (Later-same t) in
            let k' = Known-later h t t' later s k in
            let same : update_rows (λ r. in_family s.family_id r && not (is_revoked r.status))
                  (revoked_row at reason) t.sessions
                ≡ t'.sessions =
              cc in
            record {
              row = k'.row;
              found = k'.found;
              gone = rw k'.family (
                  subst (λ rows. family_revoked s.family_id rows ≡ true) same
                    (revoke-family_revoked s.family_id reason at t.sessions));
            }

    pub revoke_reused-Ended :
        (user : User) (correlation : String) (at : Instant)
        → Ends env Ours
            (revoke_reused user s correlation at)
            (λ x t. Ended h t.sessions)
            (λ e t. NotReuse e)
    unfolding revoke_reused
    revoke_reused-Ended user correlation at =
        Ends-bind _ _ _ _ _ _ _ (revoke-Ended at "refresh_reuse")
          (λ x. record_audit-sessions (Ended h) _)

    -- What a transaction of Refresh leaves, by whether a reuse was detected.
    abbrev pub Outcome : Bool → Tables → Type 0
    Outcome true t = Ended h t.sessions
    Outcome false t = Spent h t.sessions

    revoke_reused-Detected :
        (user : User) (correlation : String) (at : Instant)
        → Ends env Ours
            (revoke_reused user s correlation at >>= λ x. pure true)
            Outcome
            (λ e t. NotReuse e)
    revoke_reused-Detected user correlation at =
        Ends-bind _ _ _ _ _ _ _ (revoke_reused-Ended user correlation at)
          (λ x. Ends-pure _ _ _ _ true (λ t k. k))

    pub Known-closed : (c t : Tables) → Later c t → Ours c → Ours t
    Known-closed c t later k = Known-later h c t later s k

    rotate_session-Spent :
        (replacement : String) (at : Instant)
        → Ends env Ours
            (rotate_session s.id replacement at)
            (λ n t. Ours t × Spent h t.sessions)
            (λ e t. NotReuse e)
    unfolding rotate_session
    rotate_session-Spent replacement at =
        Ends-statement _ _ _ _ _
          (λ n t t' e k.
            let later = (set_rotated-Kept env t s.id replacement at).at t e (Later-same t) in
            (
              Known-closed t t' later k,
              set_rotated-Spent h s.id replacement at n t t' k.row e k.found k.id,
            ))
          (λ e t k. mapped e) (λ t k. refl)

    create_session-Known :
        (replacement : Session) (hash : String) (agent ip : Option String)
        → Ends env Ours (create_session replacement hash agent ip) (λ x. Ours) (λ e t. NotReuse e)
    unfolding create_session
    create_session-Known replacement hash agent ip =
        with_errors env NotReuse Ours _
          (Keeps-closed env Ours _ Known-closed (λ c. search (keeps_rules, history_rules) depth 8))
          (search (avoids_rules, common env) depth 8)

    replace_session-Detected :
        (user : User) (replacement : Session) (hash correlation : String) (at : Instant)
        → Ends env Ours
            (replace_session user s replacement hash correlation at)
            Outcome
            (λ e t. NotReuse e)
    unfolding replace_session
    replace_session-Detected user replacement hash correlation at =
        Ends-bind _ _ _ _ _ _ _ (create_session-Known replacement hash none none) λ x.
          Ends-bind _ _ _ _ _ _ _ (rotate_session-Spent replacement.id at) λ n.
            Ends-if _ _ _ _ (not (n == 1)) _ _
              (λ y.
                Ends-after _ _ _ _ _ _ (λ t k. k.0) (revoke_reused-Detected user correlation at))
              (λ y.
                Ends-after _ _ _ _ _ _ (λ t k. k.1)
                  (Ends-bind _ _ _ _ _ _ _ (record_audit-sessions (Spent h) _)
                    (λ x. Ends-pure _ _ _ _ false (λ t k. k))))

    -- The error of the lock, with the session still known
    locked-Known :
        (r : Result Error (Unit {0}))
        → Ends env
            (Post (λ x. Ours) (λ e t. NotReuse e × Ours t) r)
            (lock_result r)
            (λ b. Ours)
            (λ e t. NotReuse e)
    unfolding lock_result
    locked-Known (ok x) = Ends-pure _ _ _ _ true (λ t k. k)
    locked-Known (err e) =
        Ends-if _ _ _ _ (is_not_found e) _ _ (λ y. Ends-pure _ _ _ _ false (λ t k. k.1))
          (λ y. Ends-fail _ _ _ _ e (λ t k. k.0))

    lock-Known : Ends env Ours (lock_active_session s.id) (λ x. Ours) (λ e t. NotReuse e × Ours t)
    unfolding lock_active_session
    lock-Known =
        Ends-statement _ _ _ _ _
          (λ a t t' e k.
            Known-closed t t' ((select_for_update-Kept env t s.id).at t e (Later-same t)) k)
          (λ e t k. (mapped e, k)) (λ t k. (refl, k))

    pub rotate_body-Detected :
        (user : User) (replacement : Session) (hash correlation : String) (at : Instant)
        → Ends env Ours
            (rotate_body user s replacement hash correlation at)
            Outcome
            (λ e t. NotReuse e)
    unfolding rotate_body
    rotate_body-Detected user replacement hash correlation at =
        Ends-bind _ _ _ _ _ _ _ (Ends-attempt _ _ _ _ _ _ lock-Known) λ r.
          Ends-bind _ _ _ _ _ _ _ (locked-Known r) λ b.
            Ends-if _ _ _ _ (not b) _ _ (λ y. revoke_reused-Detected user correlation at)
              (λ y. replace_session-Detected user replacement hash correlation at)
