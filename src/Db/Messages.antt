-- ===== src/Db/Messages.antt =====
-- The statements on idempotency records, the outbox and the inbox (generated/orders.sql.go).
use stream_weave.Prelude.{
  ℕ, ◌+◌, String, Bool, true, false, not, ◌&&◌, ◌||◌, Option, none, some, List, [], ◌∷◌, ◌++◌,
  str_eq, ltb, leb, if◌then◌else◌, is_some, find_first, filter_by, update_rows, count_rows, take,
  ok, err,
}
use stream_weave.Orders.Model.{Time}
use stream_weave.App.{unique_violation, db_failure}
use stream_weave.Db.Tables.{Accepted, IdempotencyRow, OutboxRow, InboxRow, processed, retry, dlq}
use stream_weave.Db.Monad.{Query}
use stream_weave.Db.Queries.{one_row}

abbrev pub has_key : String → String → String → IdempotencyRow → Bool
has_key actor operation key r =
    str_eq r.actor_id actor && str_eq r.operation operation && str_eq r.key key

-- InsertIdempotency: 0 rows, and no change, if the key is taken.
unfoldable pub insert_idempotency : IdempotencyRow → Query ℕ
insert_idempotency r db =
    if is_some (find_first (has_key r.actor_id r.operation r.key) db.idempotency)
    then ok (0, db)
    else ok (1, record db { idempotency = db.idempotency ++ r ∷ [] })

unfoldable pub get_idempotency : String → String → String → Query IdempotencyRow
get_idempotency actor operation key db =
    one_row (find_first (has_key actor operation key) db.idempotency) db

unfoldable pub update_idempotency_response :
    String → String → String → Option String → Option Accepted → Query (Unit {0})
update_idempotency_response actor operation key resource body db = ok (
  tt,
  record db {
    idempotency =
        update_rows (has_key actor operation key)
          (λ r. record r { resource_id = resource; response_body = body }) db.idempotency;
  },
)

unfoldable pub insert_outbox_row : OutboxRow → Query (Unit {0})
insert_outbox_row r db =
    if is_some (find_first (λ q. str_eq q.id r.id) db.outbox)
    then err unique_violation
    else ok (tt, record db { outbox = db.outbox ++ r ∷ [] })

abbrev is_before : Time → Time → Bool
is_before a b = ltb a.nanos b.nanos

-- `published_at IS NULL AND next_attempt_at <= now()`
abbrev pub is_due : Time → OutboxRow → Bool
is_due now r = not (is_some r.published_at) && leb r.next_attempt_at.nanos now.nanos

abbrev lease_is_over : Time → Option Time → Bool
lease_is_over now none = true
lease_is_over now (some t) = is_before t now

abbrev pub is_claimable : Time → OutboxRow → Bool
is_claimable now r = is_due now r && lease_is_over now r.lease_until

-- `ORDER BY created_at`: insertion into a sorted list, after its equals.
unfoldable pub insert_by_age : OutboxRow → List OutboxRow → List OutboxRow
insert_by_age r [] = r ∷ []
insert_by_age r (q ∷ rows) =
    if is_before r.created_at q.created_at then r ∷ q ∷ rows else q ∷ insert_by_age r rows

unfoldable pub by_age_onto : List OutboxRow → List OutboxRow → List OutboxRow
unfolding insert_by_age
by_age_onto sorted [] = sorted
by_age_onto sorted (r ∷ rows) = by_age_onto (insert_by_age r sorted) rows

unfoldable pub by_age : List OutboxRow → List OutboxRow
unfolding by_age_onto
by_age rows = by_age_onto [] rows

-- ListPendingOutbox
unfoldable pub list_pending_outbox : Time → ℕ → Query (List OutboxRow)
unfolding by_age
list_pending_outbox now limit db = ok (take limit (by_age (filter_by (is_due now) db.outbox)), db)

abbrev pub lease : String → Time → OutboxRow → OutboxRow
lease owner until r = record r { lease_owner = some owner; lease_until = some until }

abbrev pub has_id : List OutboxRow → OutboxRow → Bool
has_id [] r = false
has_id (q ∷ rows) r = str_eq q.id r.id || has_id rows r

-- ClaimPendingOutbox; RETURNING gives the updated rows in the order of the table.
unfoldable pub claim_pending_outbox_rows : Time → String → Time → ℕ → Query (List OutboxRow)
unfolding by_age
claim_pending_outbox_rows now owner until limit db =
    let chosen = take limit (by_age (filter_by (is_claimable now) db.outbox)) in
    let outbox = update_rows (has_id chosen) (lease owner until) db.outbox in
    ok (filter_by (has_id chosen) outbox, record db { outbox = outbox })

abbrev pub is_unpublished : String → OutboxRow → Bool
is_unpublished id r = str_eq r.id id && not (is_some r.published_at)

-- `attempts` is an integer of 32 bits, and a statement that would count past the greatest fails.
abbrev is_last_attempt : ℕ → Bool
is_last_attempt n = leb 2_147_483_647 n

abbrev any_row : (OutboxRow → Bool) → List OutboxRow → Bool
any_row p l = is_some (find_first p l)

unfoldable pub mark_outbox_published_row : String → Time → Query (Unit {0})
mark_outbox_published_row id at db =
    if any_row (λ r. is_unpublished id r && is_last_attempt r.attempts) db.outbox
    then err db_failure
    else ok (
      tt,
      record db {
        outbox =
            update_rows (is_unpublished id)
              (λ r. record r {
                published_at = some at;
                attempts = r.attempts + 1;
                lease_owner = none;
                lease_until = none;
                last_error = none;
              })
              db.outbox;
      },
    )

unfoldable pub mark_outbox_failed_row : String → String → Time → Query (Unit {0})
mark_outbox_failed_row id reason retry_at db =
    if any_row (λ r. is_unpublished id r && is_last_attempt r.attempts) db.outbox
    then err db_failure
    else ok (
      tt,
      record db {
        outbox =
            update_rows (is_unpublished id)
              (λ r. record r {
                attempts = r.attempts + 1;
                last_error = some reason;
                next_attempt_at = retry_at;
                lease_owner = none;
                lease_until = none;
              })
              db.outbox;
      },
    )

unfoldable pub count_pending_outbox : Query ℕ
count_pending_outbox db = ok (count_rows (λ r. not (is_some r.published_at)) db.outbox, db)

abbrev pub is_message : String → String → InboxRow → Bool
is_message group id r = str_eq r.consumer_group group && str_eq r.message_id id

-- InsertInbox: 0 rows, and no change, if the message is known to the group.
unfoldable pub insert_inbox : InboxRow → Query ℕ
insert_inbox r db =
    if is_some (find_first (is_message r.consumer_group r.message_id) db.inbox)
    then ok (0, db)
    else ok (1, record db { inbox = db.inbox ++ r ∷ [] })

unfoldable pub get_inbox : String → String → Query InboxRow
get_inbox group id db = one_row (find_first (is_message group id) db.inbox) db

abbrev pub retried : InboxRow → InboxRow → InboxRow
retried new r = record r {
  status = retry;
  attempts = r.attempts + 1;
  last_error = new.last_error;
  next_attempt_at = new.next_attempt_at;
}

-- RecordInboxFailure: an insert, or an update of the row that is there. Returns `attempts`.
unfoldable pub record_inbox_failure : InboxRow → Query ℕ
record_inbox_failure new db =
    elim (find_first (is_message new.consumer_group new.message_id) db.inbox) [
      | none ↦ ok (new.attempts, record db { inbox = db.inbox ++ new ∷ [] })
      | some r ↦
          if is_last_attempt r.attempts
          then err db_failure
          else ok (
            r.attempts + 1,
            record db {
              inbox =
                  update_rows (is_message new.consumer_group new.message_id) (retried new) db.inbox;
            },
          )
    ]

unfoldable pub mark_inbox_dead_letter : String → String → String → Query (Unit {0})
mark_inbox_dead_letter group id reason db = ok (
  tt,
  record db {
    inbox =
        update_rows (is_message group id)
          (λ r. record r { status = dlq; last_error = some reason; next_attempt_at = none })
          db.inbox;
  },
)

unfoldable pub mark_inbox_processed : String → String → Time → Query (Unit {0})
mark_inbox_processed group id at db = ok (
  tt,
  record db {
    inbox =
        update_rows (is_message group id)
          (λ r. record r { status = processed; processed_at = some at; last_error = none })
          db.inbox;
  },
)
