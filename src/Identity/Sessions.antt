-- ===== src/Identity/Sessions.antt =====
-- The statements on sessions (generated/identity.sql.go of the identity service).
use stream_weave.Prelude.{
  ℕ, String, Bool, true, not, ◌&&◌, ◌||◌, Option, none, some, List, [], ◌∷◌, ◌++◌, str_eq, ◌==◌,
  ltb, if◌then◌else◌, is_some, find_first, filter_by, update_rows, count_rows, take, Result, ok,
  err,
}
use stream_weave.Sorting.{str_leb, sort_by}
use stream_weave.Identity.Model.{Instant, rotated, revoked, is_live, is_revoked}
use stream_weave.Identity.Tables.{SessionRow, Tables}
use stream_weave.Identity.Monad.{Query, DbError, no_rows, unique_violation, db_failure}
use stream_weave.Identity.Accounts.{one_row, has_id}

abbrev pub is_session : String → SessionRow → Bool
is_session id s = str_eq s.id id

abbrev pub has_hash : String → SessionRow → Bool
has_hash hash s = str_eq s.refresh_token_hash hash

unfoldable pub get_session_by_id : String → Tables → Result DbError SessionRow
get_session_by_id id t = one_row (find_first (is_session id) t.sessions)

unfoldable pub get_session_by_refresh_hash : String → Tables → Result DbError SessionRow
get_session_by_refresh_hash hash t = one_row (find_first (has_hash hash) t.sessions)

abbrev known_session : List SessionRow → Option String → Bool
known_session sessions none = true
known_session sessions (some id) = is_some (find_first (is_session id) sessions)

-- The id or the hash of a new session is taken.
abbrev pub session_taken : SessionRow → Tables → Bool
session_taken s t =
    is_some (find_first (λ r. is_session s.id r || has_hash s.refresh_token_hash r) t.sessions)

-- The references of a new session are to rows that do not exist.
abbrev pub session_dangles : SessionRow → Tables → Bool
session_dangles s t = not (
    is_some (find_first (has_id s.user_id) t.users)
    && known_session t.sessions s.rotated_from_session_id)

-- CreateSession; `status` is set to ACTIVE and last_used_at to created_at by the statement.
unfoldable pub insert_session : SessionRow → Query (Unit {0})
insert_session s t =
    if session_taken s t
    then err unique_violation
    else if session_dangles s t
    then err db_failure
    else ok (tt, record t { sessions = t.sessions ++ s ∷ [] })

abbrev pub is_active_session : String → SessionRow → Bool
is_active_session id s = is_session id s && is_live s.status

-- LockActiveSession
unfoldable pub select_for_update : String → Query (Unit {0})
select_for_update id t = locked (find_first (is_active_session id) t.sessions) t
  where
    locked : Option SessionRow → Query (Unit {0})
    locked none t = err no_rows
    locked (some s) t = ok (tt, t)

abbrev pub rotated_row : String → Instant → SessionRow → SessionRow
rotated_row replacement at s = record s {
  status = rotated;
  replaced_by_session_id = some replacement;
  last_used_at = some at;
}

-- A row is changed, and its reference is to a session that does not exist.
abbrev pub rotation_dangles : String → String → Tables → Bool
rotation_dangles id replacement t =
    not (count_rows (is_active_session id) t.sessions == 0)
    && not (known_session t.sessions (some replacement))

-- RotateSession
unfoldable pub set_rotated : String → String → Instant → Query ℕ
set_rotated id replacement at t =
    if rotation_dangles id replacement t
    then err db_failure
    else ok (
      count_rows (is_active_session id) t.sessions,
      record t {
        sessions = update_rows (is_active_session id) (rotated_row replacement at) t.sessions;
      },
    )

abbrev pub revoked_row : Instant → String → SessionRow → SessionRow
revoked_row at reason s = record s {
  status = revoked;
  revoked_at = some at;
  revoked_reason = some reason;
}

-- `UPDATE sessions SET status = 'REVOKED', ... WHERE p AND status <> 'REVOKED'`
abbrev pub revoke_where : (SessionRow → Bool) → Instant → String → Query (Unit {0})
revoke_where p at reason t = ok (
  tt,
  record t {
    sessions =
        update_rows (λ s. p s && not (is_revoked s.status)) (revoked_row at reason) t.sessions;
  },
)

abbrev pub in_family : String → SessionRow → Bool
in_family family s = str_eq s.family_id family

abbrev pub of_user : String → SessionRow → Bool
of_user user s = str_eq s.user_id user

unfoldable pub revoke_session_by_id : String → Instant → String → Query (Unit {0})
revoke_session_by_id id = revoke_where (is_session id)

unfoldable pub revoke_sessions_of_family : String → Instant → String → Query (Unit {0})
revoke_sessions_of_family family = revoke_where (in_family family)

unfoldable pub revoke_sessions_of_user : String → Instant → String → Query (Unit {0})
revoke_sessions_of_user user = revoke_where (of_user user)

-- ORDER BY created_at DESC
abbrev newest_first : SessionRow → SessionRow → Bool
newest_first a b = not (ltb a.created_at b.created_at)

unfoldable pub list_user_sessions : String → Tables → Result DbError (List SessionRow)
list_user_sessions user t = ok (sort_by newest_first (filter_by (of_user user) t.sessions))

-- `(created_at, id) < (c, i)`; a uuid is ordered as its text.
abbrev pub before_key : Instant → String → SessionRow → Bool
before_key c i s = ltb s.created_at c || (s.created_at == c && not (str_leb i s.id))

abbrev pub before_cursor : Option Instant → String → SessionRow → Bool
before_cursor none i s = true
before_cursor (some c) i s = before_key c i s

-- ORDER BY created_at DESC, id DESC
abbrev pub page_order : SessionRow → SessionRow → Bool
page_order a b = not (before_key b.created_at b.id a)

unfoldable pub list_user_sessions_page :
    String → Option Instant → String → ℕ → Tables → Result DbError (List SessionRow)
list_user_sessions_page user c i size t = ok (
    take size
      (sort_by page_order (filter_by (λ s. of_user user s && before_cursor c i s) t.sessions)))
