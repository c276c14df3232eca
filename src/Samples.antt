-- ===== src/Samples.antt =====
-- Sample orders, facts and worlds for the tests.
use stream_weave.Prelude.{
  ℕ, zero, suc, ◌+◌, ◌==◌, String, cat, true, false, Option, none, some, List, [], ◌∷◌, str_eq,
  if◌then◌else◌,
}
use stream_weave.Prelude.Int.{pos}
use stream_weave.Orders.Model.{Item, Order, Time}
use stream_weave.Orders.Create.{fresh_order}
use stream_weave.Message.{event, Fact, text}
use stream_weave.Db.Tables.{OutboxRow, Database}
use stream_weave.Db.Monad.{Env, World}

abbrev pub noon : Time
noon = record { nanos = 1000; utc = true }

abbrev pub line : String → Item
line id = record {
  product_id = id;
  quantity = pos 2;
  unit_price_minor = none;
  line_total_minor = none;
  quote_id = none;
  quote_version = none;
}

abbrev pub basket : List Item
basket = line "prd_1" ∷ line "prd_2" ∷ []

abbrev pub sample : Order
sample = fresh_order "ord_1" "usr_1" "EUR" basket noon

abbrev pub names : ℕ → String
names zero = "n"
names (suc n) = cat "i" (names n)

abbrev pub rejection : Fact
rejection = record {
  event_id = "evt_r";
  event_type = "commerce.inventory.rejected.v1";
  aggregate_id = "ord_1";
  aggregate_type = "inventory";
  saga_id = "sag_n";
  correlation_id = "ord_1";
  causation_id = "cmd_1";
  operation_id = "1:reserve";
  producer = "inventory";
  schema_version = pos 1;
  contents = ("order_id", text "ord_1") ∷ ("reason_code", text "OUT_OF_STOCK") ∷ [];
}

abbrev pub decode : String → Option Fact
decode s = if str_eq s "rejected" then some rejection else none

-- The world in which the call `n` of the database fails, and no other; `0` fails none that is made.
abbrev pub failing_at : ℕ → Env
failing_at n = record {
  fault = λ k. k == n;
  uuid = names;
  clock = λ k. record { nanos = 2000 + k; utc = false };
  decode_fact = decode;
  sha256_hex = λ s. s;
}

abbrev pub no_rows_at_all : Database
no_rows_at_all = record {
  orders = [];
  items = [];
  sagas = [];
  idempotency = [];
  outbox = [];
  inbox = [];
}

abbrev pub start : World
start = record {
  committed = no_rows_at_all;
  working = no_rows_at_all;
  calls = 0;
  ids = 0;
  ticks = 0;
}

abbrev pub reliable : Env
reliable = failing_at 1000

abbrev pub pending_row : OutboxRow
pending_row = record {
  id = "row";
  topic = "commerce.order.events.v1";
  partition_key = "ord_1";
  message_type = "commerce.order.created.v1";
  aggregate_type = "order";
  aggregate_id = "ord_1";
  payload = record {
    kind = event;
    id = "evt_1";
    type = "commerce.order.created.v1";
    aggregate_type = "order";
    aggregate_id = "ord_1";
    aggregate_version = 1;
    saga_id = "sag_1";
    correlation_id = "ord_1";
    causation_id = "cmd_1";
    at = noon;
    producer = "orders";
    schema_version = 1;
    operation_id = "1:create";
    contents = [];
  };
  headers = [];
  created_at = noon;
  published_at = none;
  attempts = 0;
  next_attempt_at = noon;
  lease_owner = none;
  lease_until = none;
  last_error = none;
}

-- A world with one message to publish.
abbrev pub stocked : World
stocked = record start { committed = record no_rows_at_all { outbox = pending_row ∷ [] } }
