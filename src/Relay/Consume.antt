-- ===== src/Relay/Consume.antt =====
-- processMessage and consumeMessages: the facts, from Kafka to the store.
use stream_weave.Prelude.{
  ℕ, zero, suc, ◌+◌, String, Bool, true, false, none, some, [], str_eq, Result, ok, err,
  if◌then◌else◌,
}
use stream_weave.Prelude.Int.{pos}
use stream_weave.App.{Error}
use stream_weave.Relay.{Ports, DlqBody, raw_json, base64, dead_letter}
use stream_weave.Relay.Backoff.{second, inbox_backoff}

abbrev pub consumer_group : String
consumer_group = "orders-saga-v1"

module _ {S M : Type 0} (p : Ports S M) where
  unfoldable pub dlq_body : String → DlqBody
  dlq_body payload = if p.json_valid payload then raw_json payload else base64 payload

  -- publishDLQ
  unfoldable pub publish_dlq : String → String → String → S → Result Error (Unit {0}) × S
  publish_dlq topic payload reason s =
      let (now, s') = p.now s in
      p.write_messages
        (record {
          topic = "commerce.dlq.v1";
          key = "orders";
          value = dead_letter (record {
            source_topic = topic;
            consumer_group = consumer_group;
            payload = dlq_body payload;
            reason = reason;
            quarantined_at = record now { utc = true };
          });
          headers = [];
        })
        s'

  -- factEventID
  unfoldable pub fact_event_id : String → String
  fact_event_id payload = elim (p.json_event_id payload) [ none ↦ "" | some id ↦ id ]

  -- A pause before `return false`
  unfoldable pub pause : ℕ → S → Bool × S
  pause delay s = (false, (p.sleep_with_context delay s).1)

  unfoldable pub dead_lettered : Result Error (Unit {0}) × S → Bool × S
  dead_lettered (err e, s) = pause second s
  dead_lettered (ok _, s) = (true, s)

  unfoldable pub mark_dead_letter : String → String → Result Error (Unit {0}) × S → Bool × S
  mark_dead_letter payload reason (err e, s) = pause second s
  mark_dead_letter payload reason (ok _, s) =
      let id = fact_event_id payload in
      if str_eq id ""
      then (true, s)
      else dead_lettered (p.mark_fact_dead_letter consumer_group id reason s)

  unfoldable pub failure_recorded :
      String → String → String → Result Error (Bool × ℕ) × S → Bool × S
  failure_recorded topic payload reason (err e, s) = pause second s
  failure_recorded topic payload reason (ok (dlq, attempts), s) =
      if dlq
      then mark_dead_letter payload reason (publish_dlq topic payload reason s)
      else pause (inbox_backoff (pos attempts)) s

  unfoldable pub fact_processed : String → String → Result Error (Unit {0}) × S → Bool × S
  fact_processed topic payload (ok _, s) = (true, s)
  fact_processed topic payload (err e, s) =
      let (now, s') = p.now s in
      failure_recorded topic payload (p.error_text e) (
        p.record_fact_failure consumer_group payload (p.error_text e)
          (record { nanos = now.nanos + inbox_backoff (pos 1); utc = true }) s')

  -- processMessage
  unfoldable pub process_message : String → M → S → Bool × S
  process_message topic m s =
      fact_processed topic (p.body m) (p.process_fact consumer_group (p.body m) s)

-- Where consumeMessages stands: before a fetch, with a message that is not committed, or returned.
pub data Phase (M : Type 0) : Type 0 where
  fetching : Phase M
  holding : M → Phase M
  stopped : Phase M

module _ {S M : Type 0} (p : Ports S M) (topic : String) where
  -- `if !sleepWithContext(ctx, time.Second) { return }; continue`
  unfoldable pub wait_then : Phase M → S → Phase M × S
  wait_then next s =
      let (awake, s') = p.sleep_with_context second s in (if awake then next else stopped, s')

  unfoldable pub if_alive : Phase M → S → Phase M × S
  if_alive next s = let (over, s') = p.context_done s in (if over then stopped else next, s')

  unfoldable pub after_fetch : Result Error M × S → Phase M × S
  after_fetch (ok m, s) = (holding m, s)
  after_fetch (err e, s) =
      let (over, s') = p.context_done s in if over then (stopped, s') else wait_then fetching s'

  unfoldable pub after_commit : M → Result Error (Unit {0}) × S → Phase M × S
  after_commit m (ok _, s) = if_alive fetching s
  after_commit m (err e, s) = wait_then (holding m) s

  unfoldable pub after_process : M → Bool × S → Phase M × S
  after_process m (false, s) = (holding m, s)
  after_process m (true, s) = after_commit m (p.commit_messages m s)

  -- One turn of a loop of consumeMessages.
  unfoldable pub consume_step : Phase M × S → Phase M × S
  consume_step (fetching, s) = after_fetch (p.fetch_message s)
  consume_step (stopped, s) = (stopped, s)
  consume_step (holding m, s) =
      let (over, s') = p.context_done s in
      if over then (stopped, s') else after_process m (process_message p topic m s')

  -- The first `n` turns of consumeMessages.
  unfoldable pub consume : ℕ → Phase M × S → Phase M × S
  consume zero x = x
  consume (suc n) x = consume n (consume_step x)
