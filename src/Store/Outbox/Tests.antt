-- ===== src/Store/Outbox/Tests.antt =====
-- Claims of the outbox at a concrete row.
use stream_weave.Prelude.{◌≡◌, refl, true, false, List, [], ◌∷◌, ok, arith, All, filter_by}
use stream_weave.Orders.Model.{Time}
use stream_weave.Db.Tables.{OutboxRow}
use stream_weave.Db.Monad.{World, pure, statement, mapping, auto_commit, now_utc, ◌>>=◌}
use stream_weave.Db.Messages.{by_age, claim_pending_outbox_rows}
use stream_weave.Samples.{noon, pending_row, no_rows_at_all, stocked, reliable}
use stream_weave.Store.Outbox.{OutboxEvent, event_of, claim_pending_outbox}
use stream_weave.Store.Outbox.Rows.{has_event, has_row, IsHeldAt}
use stream_weave.Store.Outbox.Lease.{claim_leases, claims_disjoint}

abbrev two_minutes : Time
two_minutes = record { nanos = 120_000_000_000; utc = true }

abbrev second_row : OutboxRow
second_row = record pending_row { id = "second" }

abbrev two_rows : World
two_rows = record stocked {
  committed = record no_rows_at_all { outbox = pending_row ∷ second_row ∷ [] };
}

abbrev claimed : List OutboxEvent
claimed = event_of pending_row ∷ []

claim_ok : (claim_pending_outbox "relay" 1 two_minutes reliable two_rows).0 ≡ ok claimed
unfolding claim_pending_outbox auto_commit mapping statement claim_pending_outbox_rows ◌>>=◌ now_utc
    by_age pure
claim_ok = refl

abbrev after : World
after = (claim_pending_outbox "relay" 1 two_minutes reliable two_rows).1

claim_leases_example :
    All (IsHeldAt "relay" noon) (filter_by (λ r. has_event claimed r.id) after.committed.outbox)
    × All (λ e. has_row after.committed.outbox e.id ≡ true) claimed
claim_leases_example =
    claim_leases "relay" 1 two_minutes reliable two_rows claimed noon claim_ok (omega arith)

abbrev others : List OutboxEvent
others = event_of second_row ∷ []

others_ok : (claim_pending_outbox "other" 1 two_minutes reliable after).0 ≡ ok others
unfolding claim_pending_outbox auto_commit mapping statement claim_pending_outbox_rows ◌>>=◌ now_utc
    by_age pure
others_ok = refl

claims_disjoint_example : All (λ e. has_event claimed e.id ≡ false) others
unfolding claim_pending_outbox ◌>>=◌ now_utc auto_commit mapping statement claim_pending_outbox_rows
    pure
claims_disjoint_example =
    claims_disjoint "relay" "other" 1 1 two_minutes two_minutes reliable two_rows after claimed
      others claim_ok refl (omega arith) others_ok
