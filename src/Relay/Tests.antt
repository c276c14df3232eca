-- ===== src/Relay/Tests.antt =====
-- The theorems on the relay over a small broker.
use stream_weave.Prelude.{
  ◌≡◌, refl, String, Bool, true, false, some, List, [], ◌∷◌, arith, str_eq, eq_refl, Bool-cases,
  inl, inr, if◌then◌else◌, Result, ok, err,
}
use stream_weave.App.{Error, app, conflict}
use stream_weave.Samples.{noon, pending_row}
use stream_weave.Store.Outbox.{event_of}
use stream_weave.Relay.{Ports, Outgoing, Value, stored, dead_letter}
use stream_weave.Relay.Publish.{publish_batch, publish_batch-written}
use stream_weave.Relay.Consume.{
  publish_dlq, mark_dead_letter, dead_lettered, fact_event_id, failure_recorded, fact_processed,
  process_message, fetching, consume,
}
use stream_weave.Relay.Offsets.{process_message-handled, consume-handled}

-- What happened, the latest first.
data Step : Type 0 where
  wrote : String → Step
  published : String → Step
  processed : String → Step
  quarantined : Step
  committed : String → Step

abbrev Log : Type 0
Log = List Step

abbrev just_wrote : Log → Bool
just_wrote (wrote key ∷ rest) = true
just_wrote _ = false

abbrev finished : String → Log → Bool
finished m [] = false
finished m (processed x ∷ rest) = if str_eq x m then true else finished m rest
finished m (quarantined ∷ rest) = true
finished m (_ ∷ rest) = finished m rest

-- A row is published right after a write, an offset is committed after the end of its message.
abbrev InOrder : Log → Type 0
InOrder [] = Unit
InOrder (published id ∷ rest) = (just_wrote rest ≡ true) × InOrder rest
InOrder (committed m ∷ rest) = (finished m rest ≡ true) × InOrder rest
InOrder (_ ∷ rest) = InOrder rest

abbrev IsFinished : String → Log → Type 0
IsFinished m s = finished m s ≡ true

abbrev noted : Value → Step
noted (stored m) = wrote m.id
noted (dead_letter d) = quarantined

-- The fact "bad" is refused each time, and is to be quarantined at once.
abbrev fact_result : String → Log → Result Error (Unit {0}) × Log
fact_result m s = if str_eq m "bad" then (err (app conflict), s) else (ok tt, processed m ∷ s)

abbrev ports : Ports Log String
ports = record {
  claim_pending_outbox = λ owner limit until s. (ok (event_of pending_row ∷ []), s);
  mark_outbox_failed = λ id reason at s. (ok tt, s);
  mark_outbox_published = λ id at s. (ok tt, published id ∷ s);
  process_fact = λ group m s. fact_result m s;
  record_fact_failure = λ group m reason at s. (ok (true, 8), s);
  mark_fact_dead_letter = λ group id reason s. (ok tt, s);
  write_messages = λ m s. (ok tt, noted m.value ∷ s);
  fetch_message = λ s. (ok "bad", s);
  commit_messages = λ m s. (ok tt, committed m ∷ s);
  now = λ s. (noon, s);
  sleep_with_context = λ n s. (true, s);
  context_done = λ s. (false, s);
  body = λ m. m;
  error_text = λ e. "refused";
  json_valid = λ s. true;
  json_event_id = λ s. some "evt_1";
}

publish_batch-written_example : InOrder (publish_batch ports "relay" []).1
publish_batch-written_example =
    publish_batch-written ports "relay" InOrder (λ r s. just_wrote s ≡ true) (λ r s h e. refl)
      write_keeps (λ s h. h) (λ r s h. h) (λ o n t s h. h) (λ id reason t s h. h)
      (λ r t s h w. (w, h)) [] tt
  where
    keeps : (v : Value) (s : Log) → InOrder s → InOrder (noted v ∷ s)
    keeps (stored m) s h = h
    keeps (dead_letter d) s h = h

    write_keeps : (m : Outgoing) (s : Log) → InOrder s → InOrder (noted m.value ∷ s)
    write_keeps m s h = keeps m.value s h

processed_finishes :
    (m : String) (s : Log) → (fact_result m s).0 ≡ ok tt → IsFinished m (fact_result m s).1
processed_finishes m s e = ground (arith, eq_refl m)

bad_handled : (process_message ports "topic" "bad" []).0 ≡ true
unfolding process_message fact_processed failure_recorded publish_dlq mark_dead_letter fact_event_id
    dead_lettered
bad_handled = refl

quarantine_finishes :
    (m reason : String) (s : Log)
    → (publish_dlq ports "topic" m reason s).0 ≡ ok tt
    → IsFinished m (publish_dlq ports "topic" m reason s).1
unfolding publish_dlq
quarantine_finishes m reason s e = refl

process_message-handled_example : IsFinished "bad" (process_message ports "topic" "bad" []).1
process_message-handled_example =
    process_message-handled ports "topic" IsFinished processed_finishes quarantine_finishes
      (λ m id reason s h. h) "bad" [] bad_handled

process_keeps : (m : String) (s : Log) → InOrder s → InOrder (process_message ports "topic" m s).1
unfolding process_message fact_processed failure_recorded publish_dlq mark_dead_letter fact_event_id
    dead_lettered
process_keeps m s h = elim (Bool-cases (str_eq m "bad")) [ inl e ↦ rw e h | inr e ↦ rw e h ]

consume-handled_example : InOrder (consume ports "topic" 4 (fetching, [])).1
consume-handled_example =
    consume-handled ports "topic" IsFinished processed_finishes quarantine_finishes
      (λ m id reason s h. h) InOrder process_keeps (λ s h. h) (λ n s h. h) (λ s h. h)
      (λ m s h f. (f, h)) 4 (fetching, []) tt
