-- ===== src/Store/Outbox.antt =====
-- The outbox and inbox methods of store.go that the relay calls.
pub mod Rows
pub mod Lease
pub mod Tests
use stream_weave.Prelude.{
  ℕ, String, Bool, true, not, ◌&&◌, Option, none, some, List, str_eq, ltb, leb, if◌then◌else◌, map,
}
use stream_weave.Text.{byte_len, cut_bytes}
use stream_weave.Orders.Model.{Time}
use stream_weave.Message.{Fact, Message}
use stream_weave.Db.Tables.{OutboxRow, InboxRow, retry}
use stream_weave.Db.Monad.{
  Tx, statement, mapping, auto_commit, transaction, commit, now_utc, pure, ◌>>=◌, ◌>>◌,
}
use stream_weave.Db.Messages.{
  list_pending_outbox, claim_pending_outbox_rows, mark_outbox_published_row, mark_outbox_failed_row,
  count_pending_outbox, record_inbox_failure, mark_inbox_dead_letter,
}
use stream_weave.Store.Workflow.{null_string}

-- What the relay is given of a row
pub record OutboxEvent : Type 0 where
  pub id : String
  pub topic : String
  pub partition_key : String
  pub message_type : String
  pub aggregate_type : String
  pub aggregate_id : String
  pub payload : Message
  pub headers : List (String × String)
  pub attempts : ℕ  -- int32

abbrev pub event_of : OutboxRow → OutboxEvent
event_of r = record {
  id = r.id;
  topic = r.topic;
  partition_key = r.partition_key;
  message_type = r.message_type;
  aggregate_type = r.aggregate_type;
  aggregate_id = r.aggregate_id;
  payload = r.payload;
  headers = r.headers;
  attempts = r.attempts;
}

-- PendingOutbox; `now()` is the clock of the database.
unfoldable pub pending_outbox : ℕ → Tx (List OutboxEvent)
pending_outbox limit = do
  now ← now_utc
  rows ← auto_commit (mapping (statement (list_pending_outbox now limit)))
  pure (map event_of rows)

-- ClaimPendingOutbox
unfoldable pub claim_pending_outbox : String → ℕ → Time → Tx (List OutboxEvent)
claim_pending_outbox owner limit until = do
  now ← now_utc
  rows ← auto_commit (mapping (statement (claim_pending_outbox_rows now owner until limit)))
  pure (map event_of rows)

unfoldable pub mark_outbox_published : String → Time → Tx (Unit {0})
mark_outbox_published id at = auto_commit (mapping (statement (mark_outbox_published_row id at)))

unfoldable pub mark_outbox_failed : String → String → Time → Tx (Unit {0})
mark_outbox_failed id reason retry_at =
    auto_commit (mapping (statement (mark_outbox_failed_row id reason retry_at)))

unfoldable pub pending_outbox_count : Tx ℕ
pending_outbox_count = auto_commit (mapping (statement count_pending_outbox))

-- The attempts after which a message is quarantined.
abbrev pub max_attempts : ℕ
max_attempts = 8

-- `reason[:512]`, cut in front of a character that does not fit
unfoldable pub short_reason : String → String
short_reason reason = if ltb 512 (byte_len reason) then cut_bytes 512 reason else reason

abbrev pub failure_row : String → Fact → String → String → Time → Time → InboxRow
failure_row group f hash reason received_at retry_at = record {
  consumer_group = group;
  message_id = f.event_id;
  message_type = f.event_type;
  payload_hash = hash;
  received_at = received_at;
  processed_at = none;
  status = retry;
  attempts = 1;
  next_attempt_at = some retry_at;
  last_error = some (short_reason reason);
  correlation_id = f.correlation_id;
  causation_id = null_string f.causation_id;
}

unfoldable pub has_inbox_identity : Fact → Bool
has_inbox_identity f =
    not (str_eq f.event_id "") && not (str_eq f.event_type "") && not (str_eq f.correlation_id "")

unfoldable pub record_decoded_failure :
    String → Option Fact → String → String → Time → Tx (Bool × ℕ)
record_decoded_failure group none hash reason retry_at = pure (true, 0)
record_decoded_failure group (some f) hash reason retry_at =
    if not (has_inbox_identity f)
    then pure (true, 0)
    else transaction (do
      at ← now_utc
      attempts ←
          mapping (statement (record_inbox_failure (failure_row group f hash reason at retry_at)))
      commit
      pure (leb max_attempts attempts, attempts))

-- RecordFactFailure: whether the message is to be quarantined, and its attempts.
unfoldable pub record_fact_failure : String → String → String → Time → Tx (Bool × ℕ)
record_fact_failure group payload reason retry_at env =
    record_decoded_failure group (env.decode_fact payload) (env.sha256_hex payload) reason retry_at
      env

-- MarkFactDeadLetter
unfoldable pub mark_fact_dead_letter : String → String → String → Tx (Unit {0})
mark_fact_dead_letter group id reason =
    auto_commit (mapping (statement (mark_inbox_dead_letter group id reason)))
