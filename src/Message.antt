-- ===== src/Message.antt =====
-- The JSON messages of the saga: what the store writes to the outbox, and the facts it receives.
-- A message is its fields; its text in JSON is not modelled.
use stream_weave.Prelude.{
  ℕ, String, Option, none, some, List, [], ◌∷◌, str_eq, if◌then◌else◌, Result, ok, err,
}
use stream_weave.Prelude.Int.{ℤ, pos}
use stream_weave.Orders.Model.{Time}
use stream_weave.App.{Error, app, conflict}

-- quoteItem of quote.go
pub record QuoteItem : Type 0 where
  pub product_id : String
  pub quantity : ℤ  -- int32
  pub unit_price_minor : ℤ
  pub line_total_minor : ℤ

-- A value under a key of `data`. `other` is any JSON that is none of the shapes that the code reads.
pub data Datum : Type 0 where
  text : String → Datum
  number : ℤ → Datum
  lines : List (String × ℤ) → Datum
  quote_items : List QuoteItem → Datum
  null : Datum
  other : Datum

abbrev pub Data : Type 0
Data = List (String × Datum)

-- `data[key]`; `none` is the empty json.RawMessage of a missing key.
abbrev pub datum : Data → String → Option Datum
datum [] key = none
datum ((k, d) ∷ rest) key = if str_eq k key then some d else datum rest key

-- rawString: a failed json.Unmarshal is ignored, and null leaves the empty string.
abbrev pub raw_string : Option Datum → String
raw_string (some (text s)) = s
raw_string _ = ""

-- rawInt64: null leaves 0.
abbrev pub raw_int64 : Option Datum → Result Error ℤ
raw_int64 (some (number z)) = ok z
raw_int64 (some null) = ok (pos 0)
raw_int64 _ = err (app conflict)

-- json.Unmarshal into []quoteItem
abbrev pub raw_quote_items : Option Datum → Option (List QuoteItem)
raw_quote_items (some (quote_items l)) = some l
raw_quote_items (some null) = some []
raw_quote_items _ = none

-- A command has `command_id`, `command_type` and `issued_at` where an event has `event_id`,
-- `event_type` and `occurred_at`.
pub data Kind : Type 0 where
  command event : Kind

-- eventEnvelope, and the map that commandPayload builds.
pub record Message : Type 0 where
  pub kind : Kind
  pub id : String
  pub type : String
  pub aggregate_type : String
  pub aggregate_id : String
  pub aggregate_version : ℕ
  pub saga_id : String
  pub correlation_id : String
  pub causation_id : String
  pub at : Time
  pub producer : String
  pub schema_version : ℕ
  pub operation_id : String
  pub contents : Data

-- factEnvelope
pub record Fact : Type 0 where
  pub event_id : String
  pub event_type : String
  pub aggregate_id : String
  pub aggregate_type : String
  pub saga_id : String
  pub correlation_id : String
  pub causation_id : String
  pub operation_id : String
  pub producer : String
  pub schema_version : ℤ
  pub contents : Data
