-- ===== src/Identity/History/Calls.antt =====
-- Every statement of the identity service lets the rows change only as they may.
use stream_weave.Prelude.{
  ◌≡◌, refl, subst, String, Bool, true, ◌||◌, ◌++◌, Result, ok, err, Option, none, some, List, [],
  ◌∷◌, arith, is_some, find_first, update_rows, Option-cases, Bool-cases, inl, inr,
}
use stream_weave.Identity.Model.{
  Instant, User, UserStatus, SessionStatus, live, rotated, revoked, AuditRecord,
}
use stream_weave.Identity.Tables.{SessionRow, TokenRow, OutboxRow, RoleRow, Tables}
use stream_weave.Identity.Monad.{Env, Query, DbError, unique_violation, db_failure}
use stream_weave.Identity.Accounts.{
  has_id, insert_user, set_user_status, set_password, set_email_verified, assign, active_role,
  insert_user_role, delete_user_role, exists_active_role, count_administrators,
}
use stream_weave.Identity.Sessions.{
  is_session, in_family, of_user, is_active_session, rotated_row, revoked_row, session_taken,
  session_dangles, insert_session, select_for_update, set_rotated, revoke_where,
  revoke_session_by_id, revoke_sessions_of_family, revoke_sessions_of_user,
}
use stream_weave.Identity.Secrets.{
  is_token, has_token_hash, is_unused, consumed, insert_token, insert_reset_token,
  insert_verification_token, set_reset_consumed, set_verification_consumed, set_principal_used,
  insert_security_audit, insert_outbox_event, set_reset, set_verification,
}
use stream_weave.Identity.Ends.Keeps.{KeepsQuery, KeepsQuery-err, KeepsQuery-ok, KeepsQuery-if}
use stream_weave.Identity.History.{
  Grows, Grows-append, Grows-update, Becomes, Becomes-then, Ages, Ages-then, Later, may_become,
}

becomes_rotated :
    (id replacement : String) (at : Instant) (s : SessionRow)
    → is_active_session id s ≡ true
    → Becomes s (rotated_row replacement at s)
becomes_rotated id replacement at s e = record {
  id = refl;
  family_id = refl;
  user_id = refl;
  hash = refl;
  status = ground arith;
}

to_revoked : (s : SessionStatus) → may_become s revoked ≡ true
to_revoked live = refl
to_revoked rotated = refl
to_revoked revoked = refl

becomes_revoked :
    (at : Instant) (reason : String) (s : SessionRow) → Becomes s (revoked_row at reason s)
becomes_revoked at reason s = record {
  id = refl;
  family_id = refl;
  user_id = refl;
  hash = refl;
  status = to_revoked s.status;
}

module _ (env : Env) (c : Tables) where
  abbrev Kept : {A : Type 0} → Query A → Type 0
  Kept q = KeepsQuery env (Later c) q

  -- A statement that touches neither sessions nor tokens
  frame :
      (t t' : Tables)
      → t'.sessions ≡ t.sessions
      → t'.reset_tokens ≡ t.reset_tokens
      → t'.verification_tokens ≡ t.verification_tokens
      → Later c t
      → Later c t'
  frame t t' a b d h = record {
    sessions = rw a h.sessions;
    resets = rw b h.resets;
    verifications = rw d h.verifications;
  }

  pub insert_user-Kept : (u : User) → Kept (insert_user u)
  unfolding insert_user
  insert_user-Kept u =
      KeepsQuery-if _ _ _ _ _ (KeepsQuery-err _ _ _)
        (KeepsQuery-ok _ _ _ _ (λ t. frame t _ refl refl refl))

  pub set_user_status-Kept :
      (id : String) (status : UserStatus) (at : Instant) → Kept (set_user_status id status at)
  unfolding set_user_status
  set_user_status-Kept id status at = KeepsQuery-ok _ _ _ _ (λ t. frame t _ refl refl refl)

  pub set_password-Kept : (id hash : String) (at : Instant) → Kept (set_password id hash at)
  unfolding set_password
  set_password-Kept id hash at = KeepsQuery-ok _ _ _ _ (λ t. frame t _ refl refl refl)

  pub set_email_verified-Kept : (id : String) (at : Instant) → Kept (set_email_verified id at)
  unfolding set_email_verified
  set_email_verified-Kept id at = KeepsQuery-ok _ _ _ _ (λ t. frame t _ refl refl refl)

  pub assign-Kept :
      (user : String) (at : Instant) (by : Option String) (role : Option RoleRow)
      → Kept (assign user at by role)
  assign-Kept user at by none = KeepsQuery-ok _ _ _ _ (λ t h. h)
  assign-Kept user at by (some r) = KeepsQuery-if _ _ _ _ _ (KeepsQuery-ok _ _ _ _ (λ t h. h)) (
      KeepsQuery-if _ _ _ _ _ (KeepsQuery-err _ _ _)
        (KeepsQuery-ok _ _ _ _ (λ t. frame t _ refl refl refl)))

  pub insert_user_role-Kept :
      (user role : String) (at : Instant) (by : Option String)
      → Kept (insert_user_role user role at by)
  unfolding insert_user_role
  insert_user_role-Kept user role at by = record {
    at = λ t e h. (assign-Kept user at by (find_first (active_role role) t.roles)).at t e h;
  }

  pub delete_user_role-Kept : (user role : String) → Kept (delete_user_role user role)
  unfolding delete_user_role
  delete_user_role-Kept user role = KeepsQuery-ok _ _ _ _ (λ t. frame t _ refl refl refl)

  pub exists_active_role-Kept : (user role : String) → Kept (exists_active_role user role)
  unfolding exists_active_role
  exists_active_role-Kept user role = KeepsQuery-ok _ _ _ _ (λ t h. h)

  pub count_administrators-Kept : Kept count_administrators
  unfolding count_administrators
  count_administrators-Kept = KeepsQuery-ok _ _ _ _ (λ t h. h)

  pub set_principal_used-Kept : (id : String) (at : Instant) → Kept (set_principal_used id at)
  unfolding set_principal_used
  set_principal_used-Kept id at = KeepsQuery-ok _ _ _ _ (λ t. frame t _ refl refl refl)

  pub insert_security_audit-Kept : (a : AuditRecord) → Kept (insert_security_audit a)
  unfolding insert_security_audit
  insert_security_audit-Kept a =
      KeepsQuery-if _ _ _ _ _ (KeepsQuery-err _ _ _)
        (KeepsQuery-ok _ _ _ _ (λ t. frame t _ refl refl refl))

  pub insert_outbox_event-Kept : (o : OutboxRow) → Kept (insert_outbox_event o)
  unfolding insert_outbox_event
  insert_outbox_event-Kept o =
      KeepsQuery-if _ _ _ _ _ (KeepsQuery-err _ _ _)
        (KeepsQuery-ok _ _ _ _ (λ t. frame t _ refl refl refl))

  -- Changes of the sessions alone

  with_sessions :
      (f : Tables → List SessionRow)
      → ((t : Tables) → Later c t → Grows Becomes c.sessions (f t))
      → (t : Tables) → Later c t
      → Later c (record t { sessions = f t })
  with_sessions f k t h = record {
    sessions = k t h;
    resets = h.resets;
    verifications = h.verifications;
  }

  pub insert_session-Kept : (s : SessionRow) → Kept (insert_session s)
  unfolding insert_session
  insert_session-Kept s =
      KeepsQuery-if _ _ (session_taken s) _ _ (KeepsQuery-err _ _ unique_violation) (
        KeepsQuery-if _ _ (session_dangles s) _ _ (KeepsQuery-err _ _ db_failure) (
          KeepsQuery-ok _ _ _ _ (
            with_sessions (λ t. t.sessions ++ s ∷ [])
              (λ t h. Grows-append Becomes c.sessions t.sessions _ h.sessions))))

  pub select_for_update-Kept : (id : String) → Kept (select_for_update id)
  unfolding select_for_update
  select_for_update-Kept id = record {
    at = λ t e h. elim (Option-cases (find_first (is_active_session id) t.sessions)) [
      | inl x ↦ cc (rw x at e)
      | inr (s, x) ↦ let same : t ≡ _ = cc (rw x at e) in subst (Later c) same h
    ];
  }

  pub set_rotated-Kept :
      (id replacement : String) (at : Instant) → Kept (set_rotated id replacement at)
  unfolding set_rotated
  set_rotated-Kept id replacement at = KeepsQuery-if _ _ _ _ _ (KeepsQuery-err _ _ _) (
      KeepsQuery-ok _ _ _ _ (
        with_sessions _ (λ t h.
          Grows-update Becomes (is_active_session id) (rotated_row replacement at)
            (λ x y s e.
              Becomes-then x y (rotated_row replacement at y) s
                (becomes_rotated id replacement at y e))
            c.sessions t.sessions h.sessions)))

  pub revoke-Kept :
      (p : SessionRow → Bool) (at : Instant) (reason : String) → Kept (revoke_where p at reason)
  revoke-Kept p at reason = KeepsQuery-ok _ _ _ _ (
      with_sessions _ (λ t h.
        Grows-update Becomes _ (revoked_row at reason)
          (λ x y s e. Becomes-then x y (revoked_row at reason y) s (becomes_revoked at reason y))
          c.sessions t.sessions h.sessions))

  pub revoke_session_by_id-Kept :
      (id : String) (at : Instant) (reason : String) → Kept (revoke_session_by_id id at reason)
  unfolding revoke_session_by_id
  revoke_session_by_id-Kept id = revoke-Kept (is_session id)

  pub revoke_sessions_of_family-Kept :
      (family : String) (at : Instant) (reason : String)
      → Kept (revoke_sessions_of_family family at reason)
  unfolding revoke_sessions_of_family
  revoke_sessions_of_family-Kept family = revoke-Kept (in_family family)

  pub revoke_sessions_of_user-Kept :
      (user : String) (at : Instant) (reason : String)
      → Kept (revoke_sessions_of_user user at reason)
  unfolding revoke_sessions_of_user
  revoke_sessions_of_user-Kept user = revoke-Kept (of_user user)

  -- Changes of the tokens alone

  consumed_rows :
      (id : String) (at : Instant) (ks ls : List TokenRow)
      → Grows Ages ks ls
      → Grows Ages ks (update_rows (is_unused id) (consumed at) ls)
  consumed_rows id at = Grows-update Ages (is_unused id) (consumed at) (λ k l s e.
      Ages-then k l (consumed at l) s
        (record { id = refl; user_id = refl; hash = refl; used = λ u. refl }))

  pub set_reset_consumed-Kept : (id : String) (at : Instant) → Kept (set_reset_consumed id at)
  unfolding set_reset_consumed
  set_reset_consumed-Kept id at = KeepsQuery-ok _ _ _ _ (λ t h. record {
    sessions = h.sessions;
    resets = consumed_rows id at c.reset_tokens t.reset_tokens h.resets;
    verifications = h.verifications;
  })

  pub set_verification_consumed-Kept :
      (id : String) (at : Instant) → Kept (set_verification_consumed id at)
  unfolding set_verification_consumed
  set_verification_consumed-Kept id at = KeepsQuery-ok _ _ _ _ (λ t h. record {
    sessions = h.sessions;
    resets = h.resets;
    verifications = consumed_rows id at c.verification_tokens t.verification_tokens h.verifications;
  })

  insert_token-Grows :
      (users : List User) (k : TokenRow) (ks ls ms : List TokenRow)
      → insert_token users k ls ≡ ok ms
      → Grows Ages ks ls
      → Grows Ages ks ms
  insert_token-Grows users k ks ls ms e h =
      elim (Bool-cases
        (is_some (find_first (λ r. is_token k.id r || has_token_hash k.token_hash r) ls))) [
          | inl x ↦ cc (rw x at e)
          | inr x ↦ elim (Bool-cases (is_some (find_first (has_id k.user_id) users))) [
            | inl y ↦
                let same : ls ++ k ∷ [] ≡ ms = cc (rw (x, y) at e) in
                subst (Grows Ages ks) same (Grows-append Ages ks ls (k ∷ []) h)
            | inr y ↦ cc (rw (x, y) at e)
          ]
        ]

  pub insert_reset_token-Kept : (k : TokenRow) → Kept (insert_reset_token k)
  unfolding insert_reset_token
  insert_reset_token-Kept k = record {
    at = λ t e h. go t (insert_token t.users k t.reset_tokens) refl e h;
  }
    where
      go :
          (t : Tables) (r : Result DbError (List TokenRow)) {t' : Tables} {u : Unit {0}}
          → insert_token t.users k t.reset_tokens ≡ r
          → set_reset t r ≡ ok (u, t')
          → Later c t
          → Later c t'
      go t (err x) i e h = cc
      go t (ok ms) {t'} i e h =
          let same : record t { reset_tokens = ms } ≡ t' = cc in
          subst (Later c) same (record {
            sessions = h.sessions;
            resets = insert_token-Grows t.users k c.reset_tokens t.reset_tokens ms i h.resets;
            verifications = h.verifications;
          })

  pub insert_verification_token-Kept : (k : TokenRow) → Kept (insert_verification_token k)
  unfolding insert_verification_token
  insert_verification_token-Kept k = record {
    at = λ t e h. go t (insert_token t.users k t.verification_tokens) refl e h;
  }
    where
      go :
          (t : Tables) (r : Result DbError (List TokenRow)) {t' : Tables} {u : Unit {0}}
          → insert_token t.users k t.verification_tokens ≡ r
          → set_verification t r ≡ ok (u, t')
          → Later c t
          → Later c t'
      go t (err x) i e h = cc
      go t (ok ms) {t'} i e h =
          let same : record t { verification_tokens = ms } ≡ t' = cc in
          subst (Later c) same (record {
            sessions = h.sessions;
            resets = h.resets;
            verifications =
                insert_token-Grows t.users k c.verification_tokens t.verification_tokens ms i
                  h.verifications;
          })

pub ruleset history_rules = (
  insert_user-Kept, set_user_status-Kept, set_password-Kept, set_email_verified-Kept,
  insert_user_role-Kept, delete_user_role-Kept, exists_active_role-Kept, count_administrators-Kept,
  set_principal_used-Kept, insert_security_audit-Kept, insert_outbox_event-Kept,
  insert_session-Kept, select_for_update-Kept, set_rotated-Kept, revoke_session_by_id-Kept,
  revoke_sessions_of_family-Kept, revoke_sessions_of_user-Kept, set_reset_consumed-Kept,
  set_verification_consumed-Kept, insert_reset_token-Kept, insert_verification_token-Kept,
)
