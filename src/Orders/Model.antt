-- ===== src/Orders/Model.antt =====
-- models.go and errors.go of the orders domain: statuses, items, orders, identifiers, errors.
use stream_weave.Prelude.{ℕ, ◌==◌, String, Bool, true, false, not, ◌||◌, Option, List}
use stream_weave.Prelude.Int.{ℤ}
use stream_weave.Text.{matches_id, repeated, is_upper}

abbrev pub max_items : ℕ
max_items = 100

abbrev pub max_quantity : ℕ
max_quantity = 1000

abbrev pub max_total_minor : ℕ
max_total_minor = 1_000_000_000

abbrev pub initial_version : ℕ
initial_version = 1

-- The six values of the `Status` strings.
pub data Status : Type 0 where
  pending confirmed cancel_requested cancelled completed failed : Status

abbrev pub status_text : Status → String
status_text pending = "PENDING"
status_text confirmed = "CONFIRMED"
status_text cancel_requested = "CANCEL_REQUESTED"
status_text cancelled = "CANCELLED"
status_text completed = "COMPLETED"
status_text failed = "FAILED"

abbrev pub eqb_status : Status → Status → Bool
eqb_status pending pending = true
eqb_status confirmed confirmed = true
eqb_status cancel_requested cancel_requested = true
eqb_status cancelled cancelled = true
eqb_status completed completed = true
eqb_status failed failed = true
eqb_status _ _ = false

unfoldable pub is_terminal : Status → Bool
is_terminal s = eqb_status s cancelled || eqb_status s completed || eqb_status s failed

-- time.Time: nanoseconds since Go's zero time, and whether the location is UTC.
pub record Time : Type 0 where
  pub nanos : ℕ
  pub utc : Bool

-- `now.IsZero() || now.Location() != time.UTC`
abbrev pub bad_timestamp : Time → Bool
bad_timestamp t = t.nanos == 0 || not t.utc

pub record Item : Type 0 where
  pub product_id : String
  pub quantity : ℤ  -- int32
  pub unit_price_minor : Option ℤ
  pub line_total_minor : Option ℤ
  pub quote_id : Option String
  pub quote_version : Option ℤ

pub record Order : Type 0 where
  pub id : String
  pub customer_id : String
  pub currency : String
  pub items : List Item
  pub total_minor : Option ℤ
  pub reservation_id : Option String
  pub payment_id : Option String
  pub shipment_id : Option String
  pub failure_code : Option String
  pub inventory_released : Bool
  pub payment_refunded : Bool
  pub status : Status
  pub version : ℕ  -- uint64
  pub created_at : Time
  pub updated_at : Time

unfoldable pub valid_order_id : String → Bool
valid_order_id = matches_id "ord_"

unfoldable pub valid_customer_id : String → Bool
valid_customer_id = matches_id "usr_"

unfoldable pub valid_product_id : String → Bool
valid_product_id = matches_id "prd_"

unfoldable pub valid_quote_id : String → Bool
valid_quote_id = matches_id "qte_"

unfoldable pub valid_reservation_id : String → Bool
valid_reservation_id = matches_id "res_"

unfoldable pub valid_payment_id : String → Bool
valid_payment_id = matches_id "pay_"

unfoldable pub valid_shipment_id : String → Bool
valid_shipment_id = matches_id "shp_"

-- `^[A-Z]{3}$`
unfoldable pub valid_currency : String → Bool
valid_currency = repeated is_upper 3 3

-- The `Err...` values of the domain.
pub data DomainError : Type 0 where
  invalid_order_id invalid_customer_id invalid_product_id invalid_currency : DomainError
  empty_order too_many_items invalid_quantity duplicate_product : DomainError
  invalid_transition terminal_order invalid_timestamp invalid_money : DomainError
  money_overflow prices_already_set missing_prereq stale_version : DomainError
