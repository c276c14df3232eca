-- ===== src/Db/Tables.antt =====
-- The tables of database/orders/migrations, as the structs of generated/models.go read them.
use stream_weave.Prelude.{ℕ, ◌^◌, String, Bool, true, not, ◌&&◌, Option, none, some, List, ltb, leb}
use stream_weave.Prelude.Int.{ℤ, pos, ltb_ℤ}
use stream_weave.Text.{matches_code}
use stream_weave.Orders.Model.{
  Item, Order, Time, Status, max_total_minor, max_quantity, max_items, valid_order_id,
  valid_customer_id, valid_product_id, valid_quote_id, valid_currency,
}
use stream_weave.Message.{Message}

pub record OrderRow : Type 0 where
  pub id : String
  pub customer_id : String
  pub currency : String
  pub total_minor : Option ℤ
  pub status : Status
  pub failure_code : Option String
  pub reservation_id : Option String
  pub payment_id : Option String
  pub shipment_id : Option String
  pub version : ℕ  -- bigint, > 0
  pub created_at : Time
  pub updated_at : Time
  pub inventory_released : Bool
  pub payment_refunded : Bool

pub record ItemRow : Type 0 where
  pub order_id : String
  pub line_number : ℕ
  pub product_id : String
  pub quantity : ℤ
  pub unit_price_minor : Option ℤ
  pub line_total_minor : Option ℤ
  pub quote_id : Option String
  pub quote_version : Option ℤ

pub record SagaRow : Type 0 where
  pub id : String
  pub order_id : String
  pub phase : String
  pub version : ℕ
  pub updated_at : Time

-- acceptedResponse of store.go, the JSON of `response_body`
pub record Accepted : Type 0 where
  pub order_id : String
  pub status : String
  pub created_at : Time

pub record IdempotencyRow : Type 0 where
  pub actor_id : String
  pub operation : String
  pub key : String
  pub request_hash : String
  pub resource_id : Option String
  pub response_body : Option Accepted
  pub created_at : Time
  pub expires_at : Time

pub record OutboxRow : Type 0 where
  pub id : String
  pub topic : String
  pub partition_key : String
  pub message_type : String
  pub aggregate_type : String
  pub aggregate_id : String
  pub payload : Message
  pub headers : List (String × String)
  pub created_at : Time
  pub published_at : Option Time
  pub attempts : ℕ  -- integer, counted up from 0
  pub next_attempt_at : Time
  pub lease_owner : Option String
  pub lease_until : Option Time
  pub last_error : Option String

pub data InboxStatus : Type 0 where
  received processed retry dlq : InboxStatus

pub record InboxRow : Type 0 where
  pub consumer_group : String
  pub message_id : String
  pub message_type : String
  pub payload_hash : String
  pub received_at : Time
  pub processed_at : Option Time
  pub status : InboxStatus
  pub attempts : ℕ  -- integer, counted up from 0
  pub next_attempt_at : Option Time
  pub last_error : Option String
  pub correlation_id : String
  pub causation_id : Option String

pub record Database : Type 0 where
  pub orders : List OrderRow
  pub items : List ItemRow
  pub sagas : List SagaRow
  pub idempotency : List IdempotencyRow
  pub outbox : List OutboxRow
  pub inbox : List InboxRow

-- The CHECK constraints.

-- `value IS NULL OR (value >= 0 AND value <= 1000000000)`
abbrev pub money_check : Option ℤ → Bool
money_check none = true
money_check (some z) = not (ltb_ℤ z (pos 0)) && not (ltb_ℤ (pos max_total_minor) z)

-- `failure_code ~ '^[A-Z][A-Z0-9_]{1,63}$'`
abbrev pub failure_check : Option String → Bool
failure_check none = true
failure_check (some s) = matches_code 63 s

unfoldable pub order_check : OrderRow → Bool
order_check r =
    valid_order_id r.id
    && valid_customer_id r.customer_id
    && valid_currency r.currency
    && money_check r.total_minor
    && failure_check r.failure_code
    && ltb 0 r.version
    && ltb r.version (2 ^ 63)

abbrev quote_id_check : Option String → Bool
quote_id_check none = true
quote_id_check (some s) = valid_quote_id s

abbrev quote_version_check : Option ℤ → Bool
quote_version_check none = true
quote_version_check (some z) = ltb_ℤ (pos 0) z

unfoldable pub item_check : ItemRow → Bool
item_check r =
    ltb 0 r.line_number
    && leb r.line_number max_items
    && valid_product_id r.product_id
    && not (ltb_ℤ r.quantity (pos 1))
    && not (ltb_ℤ (pos max_quantity) r.quantity)
    && money_check r.unit_price_minor
    && money_check r.line_total_minor
    && quote_id_check r.quote_id
    && quote_version_check r.quote_version

-- orderFromFields and loadOrder of store.go: the row of an order and its items, as an order.
abbrev pub item_of_row : ItemRow → Item
item_of_row r = record {
  product_id = r.product_id;
  quantity = r.quantity;
  unit_price_minor = r.unit_price_minor;
  line_total_minor = r.line_total_minor;
  quote_id = r.quote_id;
  quote_version = r.quote_version;
}

abbrev pub order_from_fields : OrderRow → List Item → Order
order_from_fields r items = record {
  id = r.id;
  customer_id = r.customer_id;
  currency = r.currency;
  items = items;
  total_minor = r.total_minor;
  reservation_id = r.reservation_id;
  payment_id = r.payment_id;
  shipment_id = r.shipment_id;
  failure_code = r.failure_code;
  inventory_released = r.inventory_released;
  payment_refunded = r.payment_refunded;
  status = r.status;
  version = r.version;
  created_at = r.created_at;
  updated_at = r.updated_at;
}
