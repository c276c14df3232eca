-- ===== src/Store/Outbox/Lease.antt =====
-- The leases that claims of the outbox take (ClaimPendingOutbox of store.go).
use stream_weave.Prelude.{
  ℕ, ◌≡◌, ◌≤◌, refl, sym, ◌∙◌, subst, String, true, false, List, filter_by, take, All, ok,
  Bool-cases, inl, inr,
}
use stream_weave.Orders.Model.{Time}
use stream_weave.Db.Tables.{OutboxRow}
use stream_weave.Db.Monad.{Env, World, pure, statement, mapping, auto_commit, now_utc, ◌>>=◌}
use stream_weave.Db.Messages.{is_claimable, has_id, by_age, claim_pending_outbox_rows}
use stream_weave.Store.Outbox.{OutboxEvent, claim_pending_outbox}
use stream_weave.Store.Outbox.Rows.{
  has_event, has_row, IsHeldAt, leased, given, All-by_age, All-take, All-filter_by, All-imp,
  All-any, All-event_of, given-chosen, leased-held, given-stored, claimable-other, not_given,
}

module _ (owner : String) (limit : ℕ) (until : Time) (env : Env) (w : World) where
  abbrev claimed_at : Time
  claimed_at = record { nanos = (env.clock w.ticks).nanos; utc = true }

  abbrev chosen_rows : List OutboxRow
  chosen_rows = take limit (by_age (filter_by (is_claimable claimed_at) w.committed.outbox))

  abbrev after_claim : List OutboxRow
  after_claim = leased owner until chosen_rows w.committed.outbox

  claim-result :
      (events : List OutboxEvent)
      → (claim_pending_outbox owner limit until env w).0 ≡ ok events
      → (given owner until chosen_rows after_claim ≡ events)
        × ((claim_pending_outbox owner limit until env w).1.committed.outbox ≡ after_claim)
  unfolding claim_pending_outbox now_utc auto_commit mapping statement claim_pending_outbox_rows
      ◌>>=◌ pure
  claim-result events h = elim (Bool-cases (env.fault w.calls)) [
    | inl f ↦ cc (rw f at h)
    | inr f ↦ (cc (rw f at h), rw f refl)
  ]

  -- Where ClaimPendingOutbox answers: in the committed outbox that it leaves, every row with the id
  -- of a returned event names the owner as its lease holder and cannot be claimed at any time up to
  -- the end of the lease; and each returned event has a row there.
  pub claim_leases :
      (events : List OutboxEvent) (later : Time)
      → (claim_pending_outbox owner limit until env w).0 ≡ ok events
      → later.nanos ≤ until.nanos
      → let outbox = (claim_pending_outbox owner limit until env w).1.committed.outbox in
        All (IsHeldAt owner later) (filter_by (λ r. has_event events r.id) outbox)
        × All (λ e. has_row outbox e.id ≡ true) events
  claim_leases events later h le =
      let (e, after) = claim-result events h in
      rw (after, sym e)
        (
          All-filter_by _ _ after_claim (
              All-imp _ _ after_claim
                (λ r k named. k (given-chosen owner until chosen_rows after_claim r named))
                (leased-held owner until chosen_rows later w.committed.outbox le)),
          given-stored owner until chosen_rows after_claim,
        )

-- Of two claims that answer, the later one, by any owner, returns no event of the earlier one, if the
-- committed outbox is the one that the earlier claim left and the clock has not passed the end of the
-- earlier lease.
pub claims_disjoint :
    (owner other : String) (limit most : ℕ) (until end : Time) (env : Env) (w w' : World)
    (events others : List OutboxEvent)
    → (claim_pending_outbox owner limit until env w).0 ≡ ok events
    → w'.committed.outbox ≡ (claim_pending_outbox owner limit until env w).1.committed.outbox
    → (env.clock w'.ticks).nanos ≤ until.nanos
    → (claim_pending_outbox other most end env w').0 ≡ ok others
    → All (λ e. has_event events e.id ≡ false) others
claims_disjoint owner other limit most until end env w w' events others h same le k =
    let (e, after) = claim-result owner limit until env w events h in
    let chosen = chosen_rows owner limit until env w in
    let left = after_claim owner limit until env w in
    let now = claimed_at other most end env w' in
    let later = chosen_rows other most end env w' in
    let fresh : All (λ r. has_id chosen r ≡ false) later = All-take _ most _ (
      All-by_age _ _ (
        All-filter_by _ (is_claimable now) w'.committed.outbox (
          subst (All (λ r. is_claimable now r ≡ true → has_id chosen r ≡ false))
            (sym (same ∙ after))
            (claimable-other owner until chosen now w.committed.outbox le)))) in
    subst (All (λ e. has_event events e.id ≡ false)) (claim-result other most end env w' others k).0
      (All-event_of _ _ (
        All-filter_by _ _ (after_claim other most end env w') (
          All-any _ _ λ r named.
            subst (λ l. has_event l r.id ≡ false) e
              (not_given owner until chosen left later r fresh named))))
