-- ===== src/Store/Failure.antt =====
-- What `RecordFactFailure` leaves in the inbox.
use stream_weave.Prelude.{
  ℕ, ◌≡◌, refl, String, Bool, true, Option, none, some, List, arith, find_first,
  find_first-append_none, find_first-update_rows, find_first-eq-some, eq_refl, ok, Option-cases,
  inl, inr,
}
use stream_weave.Orders.Model.{Time}
use stream_weave.Message.{Fact}
use stream_weave.Db.Tables.{InboxRow, InboxStatus, retry, Database}
use stream_weave.Db.Monad.{Env, World}
use stream_weave.Db.Messages.{is_message, record_inbox_failure, retried}
use stream_weave.Db.Keeps.{Keeps-now_utc}
use stream_weave.Db.Moves.{
  Moves, Moves-Keeps, Moves-bind, Moves-statement_bind, Moves-commit, Moves-pure, Moves-transaction,
}
use stream_weave.Store.Outbox.{
  failure_row, has_inbox_identity, record_decoded_failure, record_fact_failure,
}

abbrev row_status : Option InboxRow → Option InboxStatus
row_status none = none
row_status (some r) = some r.status

abbrev pub inbox_status : String → String → List InboxRow → Option InboxStatus
inbox_status group id l = row_status (find_first (is_message group id) l)

recorded-retry :
    (new : InboxRow) (db : Database) (n : ℕ) (db' : Database)
    → new.status ≡ retry
    → record_inbox_failure new db ≡ ok (n, db')
    → inbox_status new.consumer_group new.message_id db'.inbox ≡ some retry
unfolding record_inbox_failure
recorded-retry new db n db' s e =
    elim (Option-cases (find_first (is_message new.consumer_group new.message_id) db.inbox)) [
      | inl x ↦ ground (
        arith,
        find_first-append_none (is_message new.consumer_group new.message_id) db.inbox new x own,
      )
      | inr (q, x) ↦ ground (
        arith,
        find_first-update_rows (is_message new.consumer_group new.message_id)
            (is_message new.consumer_group new.message_id) (retried new) (λ r. refl) db.inbox,
        find_first-eq-some (is_message new.consumer_group new.message_id) db.inbox q,
      )
    ]
  where
    own : is_message new.consumer_group new.message_id new ≡ true
    own = rw (eq_refl new.consumer_group, eq_refl new.message_id)

module _ (group : String) (f : Fact) where
  abbrev Retried : Database → Type 0
  Retried d = inbox_status group f.event_id d.inbox ≡ some retry

  record_decoded_failure-Moves :
      (hash reason : String) (retry_at : Time)
      → has_inbox_identity f ≡ true
      → Moves
          (λ c d. Unit {0})
          (λ c d. Retried c)
          (record_decoded_failure group (some f) hash reason retry_at)
  unfolding record_decoded_failure
  record_decoded_failure-Moves hash reason retry_at i = rw i (
      Moves-transaction (λ c. Unit {0}) Retried (λ c d. Unit {0}) _ (λ c _. tt)
        (Moves-bind (λ c d. Unit {0}) (λ c d. Unit {0}) (λ c d. Retried c) _ _
          (Moves-Keeps _ _ (Keeps-now_utc _))
          λ at.
            Moves-statement_bind (λ c d. Unit {0}) (λ n c d. Retried d) (λ c d. Retried c) _ _
              (λ c db n db' x h.
                recorded-retry (failure_row group f hash reason at retry_at) db n db' refl x)
              λ n.
                Moves-bind (λ c d. Retried d) (λ c d. Retried c) (λ c d. Retried c) _ _
                  (Moves-commit _ _ (λ c d h. h)) λ _. Moves-pure _ _ _ (λ c d h. h)))

-- Where `RecordFactFailure` succeeds for a payload that decodes to a fact with an event id, an
-- event type and a correlation id, the committed inbox row of the message has the status RETRY,
-- whatever its status was before.
pub record_fact_failure-reopens :
    (group payload reason : String) (retry_at : Time) (f : Fact) (env : Env) (w : World) (q : Bool)
    (n : ℕ)
    → env.decode_fact payload ≡ some f
    → has_inbox_identity f ≡ true
    → (record_fact_failure group payload reason retry_at env w).0 ≡ ok (q, n)
    → inbox_status group f.event_id
        (record_fact_failure group payload reason retry_at env w).1.committed.inbox
      ≡ some retry
unfolding record_fact_failure
record_fact_failure-reopens group payload reason retry_at f env w q n d i h = rw d (
    (record_decoded_failure-Moves group f (env.sha256_hex payload) reason retry_at i).at env w
      (q, n) tt (rw d at h))
