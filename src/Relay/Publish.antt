-- ===== src/Relay/Publish.antt =====
-- publishBatch: the rows of the outbox, to Kafka.
use stream_weave.Prelude.{ℕ, ◌+◌, ◌*◌, ◌≡◌, refl, String, true, List, [], ◌∷◌, Result, ok, err}
use stream_weave.Prelude.Int.{pos}
use stream_weave.Orders.Model.{Time}
use stream_weave.App.{Error}
use stream_weave.Store.Outbox.{OutboxEvent}
use stream_weave.Relay.{Ports, Outgoing, stored}
use stream_weave.Relay.Backoff.{second, outbox_backoff}

abbrev pub outgoing : OutboxEvent → Outgoing
outgoing r = record {
  topic = r.topic;
  key = r.partition_key;
  value = stored r.payload;
  headers = r.headers;
}

module _ {S M : Type 0} (p : Ports S M) (owner : String) where
  -- The branch of a failed write; a failure to note it is only logged.
  unfoldable pub note_failure : OutboxEvent → Error → S → S
  note_failure r e s =
      let (now, s') = p.now s in
      (p.mark_outbox_failed r.id (p.error_text e)
        (record { nanos = now.nanos + outbox_backoff (pos r.attempts); utc = true }) s').1

  unfoldable pub note_published : OutboxEvent → S → Result Error (Unit {0}) × S
  note_published r s =
      let (now, s') = p.now s in p.mark_outbox_published r.id (record now { utc = true }) s'

  unfoldable pub publish_written :
      OutboxEvent → Result Error (Unit {0}) × S → Result Error (Unit {0}) × S
  publish_written r (err e, s) = (ok tt, note_failure r e s)
  publish_written r (ok _, s) = note_published r s

  -- One turn of the loop over the rows: `continue` after a failed write, `return err` on an error of
  -- MarkOutboxPublished.
  unfoldable pub publish_row : OutboxEvent → S → Result Error (Unit {0}) × S
  publish_row r s = publish_written r (p.write_messages (outgoing r) s)

  abbrev continued :
      (S → Result Error (Unit {0}) × S) → Result Error (Unit {0}) × S → Result Error (Unit {0}) × S
  continued rest (err e, s) = (err e, s)
  continued rest (ok _, s) = rest s

  unfoldable pub publish_rows : List OutboxEvent → S → Result Error (Unit {0}) × S
  publish_rows [] s = (ok tt, s)
  publish_rows (r ∷ rows) s = continued (publish_rows rows) (publish_row r s)

  unfoldable pub publish_claimed : Result Error (List OutboxEvent) × S → Result Error (Unit {0}) × S
  publish_claimed (err e, s) = (err e, s)
  publish_claimed (ok rows, s) = publish_rows rows s

  -- publishBatch
  unfoldable pub publish_batch : S → Result Error (Unit {0}) × S
  publish_batch s =
      let (now, s') = p.now s in
      publish_claimed (
        p.claim_pending_outbox owner 100 (record { nanos = now.nanos + 120 * second; utc = true })
          s')

-- `Written r`: the states in which the broker has taken the row `r`.
module _ {S M : Type 0} (p : Ports S M) (owner : String) (P : S → Type 0)
    (Written : OutboxEvent → S → Type 0)
    (write_takes : (r : OutboxEvent) (s : S)
      → P s
      → (p.write_messages (outgoing r) s).0 ≡ ok tt
      → Written r (p.write_messages (outgoing r) s).1)
    (write_keeps : (m : Outgoing) (s : S) → P s → P (p.write_messages m s).1)
    (now_keeps : (s : S) → P s → P (p.now s).1)
    (now_written : (r : OutboxEvent) (s : S) → Written r s → Written r (p.now s).1)
    (claim_keeps : (o : String) (n : ℕ) (t : Time) (s : S)
      → P s
      → P (p.claim_pending_outbox o n t s).1)
    (failed_keeps : (id reason : String) (t : Time) (s : S)
      → P s
      → P (p.mark_outbox_failed id reason t s).1)
    (published_keeps : (r : OutboxEvent) (t : Time) (s : S)
      → P s
      → Written r s
      → P (p.mark_outbox_published r.id t s).1) where
  publish_written-P :
      (r : OutboxEvent) (x : Result Error (Unit {0})) (s : S)
      → P s
      → (x ≡ ok tt → Written r s)
      → P (publish_written p owner r (x, s)).1
  unfolding publish_written note_failure note_published
  publish_written-P r (err e) s h w = failed_keeps _ _ _ _ (now_keeps s h)
  publish_written-P r (ok _) s h w =
      published_keeps r _ _ (now_keeps s h) (now_written r s (w refl))

  continued-P :
      (rest : S → Result Error (Unit {0}) × S)
      → ((s : S) → P s → P (rest s).1)
      → (x : Result Error (Unit {0})) (s : S) → P s
      → P (continued p owner rest (x, s)).1
  continued-P rest k (err e) s h = h
  continued-P rest k (ok _) s h = k s h

  publish_rows-P : (rows : List OutboxEvent) (s : S) → P s → P (publish_rows p owner rows s).1
  unfolding publish_rows publish_row
  publish_rows-P [] s h = h
  publish_rows-P (r ∷ rows) s h =
      continued-P (publish_rows p owner rows) (publish_rows-P rows) _ _ (
        publish_written-P r (p.write_messages (outgoing r) s).0 _ (write_keeps _ s h)
          (write_takes r s h))

  publish_claimed-P :
      (x : Result Error (List OutboxEvent)) (s : S) → P s → P (publish_claimed p owner (x, s)).1
  unfolding publish_claimed
  publish_claimed-P (err e) s h = h
  publish_claimed-P (ok rows) s h = publish_rows-P rows s h

  -- A property of the state is kept by `publishBatch` if MarkOutboxPublished keeps it where a
  -- write of the row has just succeeded (`Written`, which the clock keeps), and the write, the
  -- clock, the claim and MarkOutboxFailed keep it.
  pub publish_batch-written : (s : S) → P s → P (publish_batch p owner s).1
  unfolding publish_batch
  publish_batch-written s h = publish_claimed-P _ _ (claim_keeps owner 100 _ _ (now_keeps s h))
