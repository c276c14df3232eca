-- ===== src/Relay/Offsets.antt =====
-- An offset is committed only for a message that was processed or quarantined.
use stream_weave.Prelude.{
  ℕ, zero, suc, ◌≡◌, refl, String, Bool, true, false, str_eq, Result, ok, err, Bool-cases, inl, inr,
}
use stream_weave.App.{Error}
use stream_weave.Relay.{Ports}
use stream_weave.Relay.Backoff.{second}
use stream_weave.Relay.Consume.{
  consumer_group, fact_event_id, publish_dlq, pause, dead_lettered, mark_dead_letter,
  failure_recorded, fact_processed, process_message, Phase, fetching, holding, stopped, wait_then,
  if_alive, after_fetch, after_commit, after_process, consume_step, consume,
}

-- `Handled m`: the states after the fact of `m` was processed, or its dead letter was written.
module _ {S M : Type 0} (p : Ports S M) (topic : String) (Handled : M → S → Type 0)
    (processed_handles : (m : M) (s : S)
      → (p.process_fact consumer_group (p.body m) s).0 ≡ ok tt
      → Handled m (p.process_fact consumer_group (p.body m) s).1)
    (quarantine_handles : (m : M) (reason : String) (s : S)
      → (publish_dlq p topic (p.body m) reason s).0 ≡ ok tt
      → Handled m (publish_dlq p topic (p.body m) reason s).1)
    (mark_keeps : (m : M) (id reason : String) (s : S)
      → Handled m s
      → Handled m (p.mark_fact_dead_letter consumer_group id reason s).1) where
  dead_lettered-handled :
      (m : M) (x : Result Error (Unit {0})) (s : S)
      → Handled m s
      → (dead_lettered p (x, s)).0 ≡ true
      → Handled m (dead_lettered p (x, s)).1
  unfolding dead_lettered pause
  dead_lettered-handled m (err e) s h t = cc
  dead_lettered-handled m (ok _) s h t = h

  mark_dead_letter-handled :
      (m : M) (reason : String) (x : Result Error (Unit {0})) (s : S)
      → (x ≡ ok tt → Handled m s)
      → (mark_dead_letter p (p.body m) reason (x, s)).0 ≡ true
      → Handled m (mark_dead_letter p (p.body m) reason (x, s)).1
  unfolding mark_dead_letter pause
  mark_dead_letter-handled m reason (err e) s h t = cc
  mark_dead_letter-handled m reason (ok _) s h t =
      elim (Bool-cases (str_eq (fact_event_id p (p.body m)) "")) [
        | inl e ↦ rw e (h refl)
        | inr e ↦ rw e (dead_lettered-handled m _ _ (mark_keeps m _ reason s (h refl)) (rw e at t))
      ]

  failure_recorded-handled :
      (m : M) (reason : String) (x : Result Error (Bool × ℕ)) (s : S)
      → (failure_recorded p topic (p.body m) reason (x, s)).0 ≡ true
      → Handled m (failure_recorded p topic (p.body m) reason (x, s)).1
  unfolding failure_recorded pause
  failure_recorded-handled m reason (err e) s t = cc
  failure_recorded-handled m reason (ok (false, n)) s t = cc
  failure_recorded-handled m reason (ok (true, n)) s t =
      mark_dead_letter-handled m reason _ _ (quarantine_handles m reason s) t

  fact_processed-handled :
      (m : M) (x : Result Error (Unit {0})) (s : S)
      → (x ≡ ok tt → Handled m s)
      → (fact_processed p topic (p.body m) (x, s)).0 ≡ true
      → Handled m (fact_processed p topic (p.body m) (x, s)).1
  unfolding fact_processed
  fact_processed-handled m (ok _) s h t = h refl
  fact_processed-handled m (err e) s h t = failure_recorded-handled m _ _ _ t

  -- Let a message count as handled once ProcessFact accepted it or its dead letter was written,
  -- and stay so over MarkFactDeadLetter. Then `processMessage` returns true only in a state in
  -- which the message is handled.
  pub process_message-handled :
      (m : M) (s : S)
      → (process_message p topic m s).0 ≡ true
      → Handled m (process_message p topic m s).1
  unfolding process_message
  process_message-handled m s t =
      fact_processed-handled m (p.process_fact consumer_group (p.body m) s).0
        (p.process_fact consumer_group (p.body m) s).1 (processed_handles m s) t

  module _ (P : S → Type 0)
      (process_keeps : (m : M) (s : S) → P s → P (process_message p topic m s).1)
      (fetch_keeps : (s : S) → P s → P (p.fetch_message s).1)
      (sleep_keeps : (n : ℕ) (s : S) → P s → P (p.sleep_with_context n s).1)
      (done_keeps : (s : S) → P s → P (p.context_done s).1)
      (commit_keeps : (m : M) (s : S) → P s → Handled m s → P (p.commit_messages m s).1) where
    wait_then-P : (next : Phase M) (s : S) → P s → P (wait_then p topic next s).1
    unfolding wait_then
    wait_then-P next s h = sleep_keeps second s h

    after_fetch-P : (x : Result Error M) (s : S) → P s → P (after_fetch p topic (x, s)).1
    unfolding after_fetch
    after_fetch-P (ok m) s h = h
    after_fetch-P (err e) s h = elim (Bool-cases (p.context_done s).0) [
      | inl d ↦ rw d (done_keeps s h)
      | inr d ↦ rw d (wait_then-P fetching _ (done_keeps s h))
    ]

    after_commit-P :
        (m : M) (x : Result Error (Unit {0})) (s : S) → P s → P (after_commit p topic m (x, s)).1
    unfolding after_commit if_alive
    after_commit-P m (ok _) s h = done_keeps s h
    after_commit-P m (err e) s h = wait_then-P (holding m) s h

    after_process-P :
        (m : M) (b : Bool) (s : S)
        → P s
        → (b ≡ true → Handled m s)
        → P (after_process p topic m (b, s)).1
    unfolding after_process
    after_process-P m false s h w = h
    after_process-P m true s h w = after_commit-P m _ _ (commit_keeps m s h (w refl))

    step-P : (f : Phase M) (s : S) → P s → P (consume_step p topic (f, s)).1
    unfolding consume_step
    step-P fetching s h = after_fetch-P _ _ (fetch_keeps s h)
    step-P stopped s h = h
    step-P (holding m) s h = elim (Bool-cases (p.context_done s).0) [
      | inl d ↦ rw d (done_keeps s h)
      | inr d ↦ rw d (
          after_process-P m _ _ (process_keeps m _ (done_keeps s h))
            (process_message-handled m (p.context_done s).1))
    ]

    -- Let a message count as handled once ProcessFact accepted it or its dead letter was written,
    -- and stay so over MarkFactDeadLetter. A property of the state that CommitMessages keeps
    -- where the message is handled, and that processMessage, the fetch, the pause and the test of
    -- the context keep, holds after any number of turns of `consumeMessages`.
    pub consume-handled : (n : ℕ) (x : Phase M × S) → P x.1 → P (consume p topic n x).1
    unfolding consume
    consume-handled zero x h = h
    consume-handled (suc n) x h = consume-handled n (consume_step p topic x) (step-P x.0 x.1 h)
