-- ===== src/Identity/Revocation/Reset.antt =====
-- ConfirmPasswordReset (service.go): a token is good for one reset, which ends all sessions.
use stream_weave.Prelude.{
  ◌≡◌, refl, sym, ap, ◌∙◌, subst, String, Bool, true, false, not, ◌==◌, some, List, str_eq, is_some,
  find_first, update_rows, find_first-update_rows, Bool-cases, inl, inr, eq_refl, arith,
}
use stream_weave.Identity.Model.{Instant, already_used, OneTimeToken, AuditRecord}
use stream_weave.Identity.Tables.{TokenRow, OutboxRow, Tables}
use stream_weave.Identity.Monad.{Env, guard}
use stream_weave.Identity.Secrets.{has_token_hash, is_unused, consumed, set_reset_consumed}
use stream_weave.Identity.Store.{update_password, consume_reset_token, revoke_user_sessions}
use stream_weave.Identity.Service.Recovery.{reset_body}
use stream_weave.Identity.Ends.{
  Ends, Ends-pure, Ends-fail, Ends-statement, Ends-after, Ends-bind, Ends-both,
}
use stream_weave.Identity.Ends.Keeps.{keeps_rules}
use stream_weave.Identity.History.{Grows-find, Ages, Later, IsConsiderate, Keeps-closed}
use stream_weave.Identity.History.Calls.{history_rules}
use stream_weave.Identity.Revocation.{
  user_revoked, Keeps-Ends, record_audit-kept, revoke_user_sessions-revoked,
}

-- The row with the hash of a reset token is that of the token.
pub record Held (h : String) (k : OneTimeToken) (rows : List TokenRow) : Type 0 where
  pub row : TokenRow
  pub found : find_first (has_token_hash h) rows ≡ some row
  pub id : row.id ≡ k.id
  pub user_id : row.user_id ≡ k.user_id

-- A reset token was used: it is consumed, and every session of its user is REVOKED.
pub record Done (h : String) (t : Tables) : Type 0 where
  pub row : TokenRow
  pub found : find_first (has_token_hash h) t.reset_tokens ≡ some row
  pub used : is_some row.consumed_at ≡ true
  pub gone : user_revoked row.user_id t.sessions ≡ true

pub record Used (h : String) (rows : List TokenRow) : Type 0 where
  pub row : TokenRow
  pub found : find_first (has_token_hash h) rows ≡ some row
  pub used : is_some row.consumed_at ≡ true

module _ (h : String) (c t : Tables) (later : Later c t) where
  token_later :
      (a : TokenRow)
      → find_first (has_token_hash h) c.reset_tokens ≡ some a
      → (b : TokenRow) × (find_first (has_token_hash h) t.reset_tokens ≡ some b) × Ages a b
  token_later a e =
      Grows-find Ages (has_token_hash h) (λ x y s. ap (λ v. str_eq v h) s.hash) c.reset_tokens
        t.reset_tokens a later.resets e

  pub Held-later : (k : OneTimeToken) → Held h k c.reset_tokens → Held h k t.reset_tokens
  Held-later k x =
      let (b, found, step) = token_later x.row x.found in
      record { row = b; found = found; id = step.id ∙ x.id; user_id = step.user_id ∙ x.user_id }

  pub Used-later : Used h c.reset_tokens → Used h t.reset_tokens
  Used-later x =
      let (b, found, step) = token_later x.row x.found in
      record { row = b; found = found; used = step.used x.used }

consume-used :
    (h id : String) (at : Instant) (rows : List TokenRow) (row : TokenRow)
    → find_first (has_token_hash h) rows ≡ some row
    → row.id ≡ id
    → (new : TokenRow) × (find_first
          (has_token_hash h)
          (update_rows (is_unused id) (consumed at) rows)
        ≡ some new)
      × (is_some new.consumed_at ≡ true)
      × (new.user_id ≡ row.user_id)
consume-used h id at rows row e i =
    let changed =
      find_first-update_rows (has_token_hash h) (is_unused id) (consumed at) (λ x. refl) rows in
    elim (Bool-cases (is_unused id row)) [
      | inl x ↦ (consumed at row, changed ∙ rw (e, x) refl, refl, refl)
      | inr x ↦ (row, changed ∙ rw (e, x) refl, unused_not row x i, refl)
    ]
  where
    unused_not : (r : TokenRow) → is_unused id r ≡ false → r.id ≡ id → is_some r.consumed_at ≡ true
    unused_not r x j = ground (arith, rw (j, eq_refl id) at x)

module _ (env : Env) (others : IsConsiderate env) (h : String) where
  module _ (k : OneTimeToken) where
    abbrev pub Ours : Tables → Type 0
    Ours t = Held h k t.reset_tokens

    pub Ours-closed : (c t : Tables) → Later c t → Ours c → Ours t
    Ours-closed c t later x = Held-later h c t later k x

    abbrev Ended : Tables → Type 0
    Ended t = Ours t × (user_revoked k.user_id t.sessions ≡ true)

    revoked-Ended :
        (at : Instant) (reason : String)
        → Ends env Ours (revoke_user_sessions k.user_id at reason) (λ x. Ended) (λ e t. Unit)
    unfolding revoke_user_sessions
    revoked-Ended at reason =
        Ends-after _ _ _ _ _ _ (λ t x. (x, tt))
          (Ends-both _ _ _ _ _ _ _ _
            (Keeps-Ends env Ours _ (
              Keeps-closed env Ours _ Ours-closed
                (λ c. search (keeps_rules, history_rules) depth 8)))
            (revoke_user_sessions-revoked env k.user_id reason at))

    consume-Done :
        (at : Instant) → Ends env Ended (consume_reset_token k.id at) (λ n. Done h) (λ e t. Unit)
    unfolding consume_reset_token set_reset_consumed
    consume-Done at =
        Ends-statement _ _ _ _ _
          (λ n t t' e x.
            let rows : update_rows (is_unused k.id) (consumed at) t.reset_tokens ≡ t'.reset_tokens =
              cc in
            let same : t.sessions ≡ t'.sessions = cc in
            let (new, found, used, user) =
              consume-used h k.id at t.reset_tokens x.0.row x.0.found x.0.id in
            record {
              row = new;
              found = subst (λ r. find_first (has_token_hash h) r ≡ some new) rows found;
              used = used;
              gone = rw (user, x.0.user_id, sym same) x.1;
            })
          (λ e t x. tt) (λ t x. tt)

    update_password-Ours :
        (hash : String) (at : Instant)
        → Ends env Ours (update_password k.user_id hash at) (λ x. Ours) (λ e t. Unit)
    unfolding update_password
    update_password-Ours hash at =
        Keeps-Ends env Ours _
          (Keeps-closed env Ours _ Ours-closed (λ c. search (keeps_rules, history_rules) depth 8))

    pub reset_body-Done :
        (hash correlation : String) (at : Instant)
        → Ends env Ours (reset_body k hash correlation at) (λ x. Done h) (λ e t. Unit)
    unfolding reset_body
    reset_body-Done hash correlation at =
        Ends-bind _ _ _ _ _ _ _ (update_password-Ours hash at) λ x.
          Ends-bind _ _ _ _ _ _ _ (revoked-Ended at _) λ x.
            Ends-bind _ _ _ _ _ _ _ (consume-Done at) λ n.
              Ends-bind _ _ (λ x. Done h) _ _ _ _ (once (not (n == 1)))
                λ x.
                  Keeps-Ends env (Done h) _
                    (record_audit-kept env (Done h) same_audit same_outbox _)
      where
        once : (b : Bool) → Ends env (Done h) (guard b already_used) (λ x. Done h) (λ e t. Unit)
        once true = Ends-fail _ _ _ _ _ (λ t d. tt)
        once false = Ends-pure _ _ _ _ _ (λ t d. d)

        same_audit :
            (t : Tables) (a : List AuditRecord) → Done h t → Done h (record t { audit = a })
        same_audit t a d = record { row = d.row; found = d.found; used = d.used; gone = d.gone }

        same_outbox :
            (t : Tables) (o : List OutboxRow) → Done h t → Done h (record t { outbox = o })
        same_outbox t o d = record { row = d.row; found = d.found; used = d.used; gone = d.gone }
