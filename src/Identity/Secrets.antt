-- ===== src/Identity/Secrets.antt =====
-- The statements on one-time tokens, service principals, the audit and the outbox
-- (generated/identity.sql.go of the identity service).
use stream_weave.Prelude.{
  ℕ, suc, String, Bool, not, ◌&&◌, ◌||◌, none, some, List, [], ◌∷◌, ◌++◌, str_eq, leb,
  if◌then◌else◌, is_some, find_first, filter_by, update_rows, count_rows, take, Result, ok, err,
}
use stream_weave.Sorting.{sort_by}
use stream_weave.Identity.Model.{Instant, User, AuditRecord}
use stream_weave.Identity.Tables.{TokenRow, PrincipalRow, CredentialRow, OutboxRow, Tables}
use stream_weave.Identity.Monad.{Query, DbError, unique_violation, db_failure}
use stream_weave.Identity.Accounts.{one_row, has_id}

abbrev pub is_token : String → TokenRow → Bool
is_token id k = str_eq k.id id

abbrev pub has_token_hash : String → TokenRow → Bool
has_token_hash hash k = str_eq k.token_hash hash

abbrev pub is_unused : String → TokenRow → Bool
is_unused id k = is_token id k && not (is_some k.consumed_at)

abbrev pub consumed : Instant → TokenRow → TokenRow
consumed at k = record k { consumed_at = some at }

-- INSERT INTO a table of tokens
abbrev pub insert_token : List User → TokenRow → List TokenRow → Result DbError (List TokenRow)
insert_token users k ks =
    if is_some (find_first (λ r. is_token k.id r || has_token_hash k.token_hash r) ks)
    then err unique_violation
    else if not (is_some (find_first (has_id k.user_id) users))
    then err db_failure
    else ok (ks ++ k ∷ [])

abbrev pub set_reset : Tables → Result DbError (List TokenRow) → Result DbError (Unit {0} × Tables)
set_reset t (err e) = err e
set_reset t (ok ks) = ok (tt, record t { reset_tokens = ks })

abbrev pub set_verification :
    Tables → Result DbError (List TokenRow) → Result DbError (Unit {0} × Tables)
set_verification t (err e) = err e
set_verification t (ok ks) = ok (tt, record t { verification_tokens = ks })

unfoldable pub insert_reset_token : TokenRow → Query (Unit {0})
insert_reset_token k t = set_reset t (insert_token t.users k t.reset_tokens)

unfoldable pub insert_verification_token : TokenRow → Query (Unit {0})
insert_verification_token k t = set_verification t (insert_token t.users k t.verification_tokens)

unfoldable pub get_reset_token : String → Tables → Result DbError TokenRow
get_reset_token hash t = one_row (find_first (has_token_hash hash) t.reset_tokens)

unfoldable pub get_verification_token : String → Tables → Result DbError TokenRow
get_verification_token hash t = one_row (find_first (has_token_hash hash) t.verification_tokens)

unfoldable pub set_reset_consumed : String → Instant → Query ℕ
set_reset_consumed id at t = ok (
  count_rows (is_unused id) t.reset_tokens,
  record t { reset_tokens = update_rows (is_unused id) (consumed at) t.reset_tokens },
)

unfoldable pub set_verification_consumed : String → Instant → Query ℕ
set_verification_consumed id at t = ok (
  count_rows (is_unused id) t.verification_tokens,
  record t { verification_tokens = update_rows (is_unused id) (consumed at) t.verification_tokens },
)

unfoldable pub get_service_principal : String → Tables → Result DbError PrincipalRow
get_service_principal client t = one_row (find_first (λ p. str_eq p.client_id client) t.principals)

unfoldable pub set_principal_used : String → Instant → Query (Unit {0})
set_principal_used id at t = ok (
  tt,
  record t {
    principals =
        update_rows (λ p. str_eq p.id id) (λ p. record p { last_used_at = some at }) t.principals;
  },
)

-- The condition of ListActiveServiceCredentials
abbrev pub is_active_credential : String → Instant → CredentialRow → Bool
is_active_credential principal at c =
    str_eq c.service_principal_id principal
    && c.enabled
    && leb c.valid_from at
    && not (is_some c.retired_at)

unfoldable pub list_active_credentials :
    String → Instant → Tables → Result DbError (List CredentialRow)
list_active_credentials principal at t = ok (
    sort_by (λ a b. leb b.valid_from a.valid_from)
      (filter_by (is_active_credential principal at) t.credentials))

unfoldable pub insert_security_audit : AuditRecord → Query (Unit {0})
insert_security_audit a t =
    if is_some (find_first (λ r. str_eq r.id a.id) t.audit)
    then err unique_violation
    else ok (tt, record t { audit = t.audit ++ a ∷ [] })

abbrev pub is_event : String → OutboxRow → Bool
is_event id o = str_eq o.id id

unfoldable pub insert_outbox_event : OutboxRow → Query (Unit {0})
insert_outbox_event o t =
    if is_some (find_first (is_event o.id) t.outbox)
    then err unique_violation
    else ok (tt, record t { outbox = t.outbox ++ o ∷ [] })

abbrev pub is_pending : OutboxRow → Bool
is_pending o = not (is_some o.published_at)

unfoldable pub count_pending_outbox : Tables → Result DbError ℕ
count_pending_outbox t = ok (count_rows is_pending t.outbox)

unfoldable pub list_pending_outbox : ℕ → Tables → Result DbError (List OutboxRow)
list_pending_outbox limit t =
    ok (take limit (sort_by (λ a b. leb a.created_at b.created_at) (filter_by is_pending t.outbox)))

unfoldable pub set_outbox_published : String → Instant → Query (Unit {0})
set_outbox_published id at t = ok (
  tt,
  record t {
    outbox =
        update_rows (is_event id)
          (λ o. record o { published_at = some at; attempts = suc o.attempts; last_error = none })
          t.outbox;
  },
)

unfoldable pub set_outbox_failed : String → String → Query (Unit {0})
set_outbox_failed id reason t = ok (
  tt,
  record t {
    outbox =
        update_rows (is_event id)
          (λ o. record o { attempts = suc o.attempts; last_error = some reason }) t.outbox;
  },
)
