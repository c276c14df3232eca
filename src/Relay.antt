-- ===== src/Relay.antt =====
-- The relay of the orders service (cmd/relay/main.go): outbox to Kafka, and Kafka to the store.
pub mod Backoff
pub mod Publish
pub mod Consume
pub mod Offsets
pub mod Tests
use stream_weave.Prelude.{ℕ, String, Bool, Option, List, Result}
use stream_weave.Orders.Model.{Time}
use stream_weave.App.{Error}
use stream_weave.Message.{Message}
use stream_weave.Store.Outbox.{OutboxEvent}

-- dlqBody: valid JSON as it is, other bytes in base64.
pub data DlqBody : Type 0 where
  raw_json base64 : String → DlqBody

-- The map that publishDLQ marshals.
pub record DeadLetter : Type 0 where
  pub source_topic : String
  pub consumer_group : String
  pub payload : DlqBody
  pub reason : String
  pub quarantined_at : Time

pub data Value : Type 0 where
  stored : Message → Value
  dead_letter : DeadLetter → Value

-- A kafka.Message that the relay writes, with the topic of its writer. The headers stand in the
-- order of the row; Go's map gives them in any order.
pub record Outgoing : Type 0 where
  pub topic : String
  pub key : String
  pub value : Value
  pub headers : List (String × String)

-- What the relay is given, on a state `S`: relayStore, factReader, the Kafka writers, the clock,
-- sleepWithContext and ctx.Err; the text of an error, and two readings of JSON. `M` is a fetched
-- message, `body` its value.
pub record Ports (S M : Type 0) : Type 0 where
  pub claim_pending_outbox : String → ℕ → Time → S → Result Error (List OutboxEvent) × S
  pub mark_outbox_failed : String → String → Time → S → Result Error (Unit {0}) × S
  pub mark_outbox_published : String → Time → S → Result Error (Unit {0}) × S
  pub process_fact : String → String → S → Result Error (Unit {0}) × S
  pub record_fact_failure : String → String → String → Time → S → Result Error (Bool × ℕ) × S
  pub mark_fact_dead_letter : String → String → String → S → Result Error (Unit {0}) × S
  pub write_messages : Outgoing → S → Result Error (Unit {0}) × S
  pub fetch_message : S → Result Error M × S
  pub commit_messages : M → S → Result Error (Unit {0}) × S
  pub now : S → Time × S
  pub sleep_with_context : ℕ → S → Bool × S
  pub context_done : S → Bool × S
  pub body : M → String
  pub error_text : Error → String
  pub json_valid : String → Bool
  pub json_event_id : String → Option String
