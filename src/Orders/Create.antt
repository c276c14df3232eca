-- ===== src/Orders/Create.antt =====
-- `NewOrder` of models.go.
pub mod Laws
use mathlib.Core.List.{map}
use stream_weave.Prelude.{
  ℕ, zero, suc, String, Bool, true, false, not, ◌||◌, Option, none, List, [], ◌∷◌, ltb, ◌==◌,
  length, str_eq, if◌then◌else◌, Result, ok, err, and_then,
}
use stream_weave.Prelude.Int.{ℤ, pos, ltb_ℤ}
use stream_weave.Text.{trim_space, to_upper}
use stream_weave.Orders.Model.{
  Item, Order, Time, bad_timestamp, pending, max_items, max_quantity, initial_version,
  valid_order_id, valid_customer_id, valid_product_id, valid_currency, DomainError,
  invalid_order_id, invalid_customer_id, invalid_currency, empty_order, too_many_items,
  invalid_product_id, invalid_quantity, duplicate_product, invalid_timestamp,
}

-- Whether a text is a key of the `seen` map.
abbrev pub contains : List String → String → Bool
contains [] s = false
contains (x ∷ xs) s = str_eq x s || contains xs s

-- The validation loop over the items; `seen` holds the product ids passed so far.
unfoldable pub check_items : List String → List Item → Result DomainError (Unit {0})
check_items seen [] = ok tt
check_items seen (item ∷ rest) =
    if not (valid_product_id item.product_id)
    then err invalid_product_id
    else if ltb_ℤ item.quantity (pos 1) || ltb_ℤ (pos max_quantity) item.quantity
    then err invalid_quantity
    else if contains seen item.product_id
    then err duplicate_product
    else check_items (item.product_id ∷ seen) rest

-- A copy of an item keeps the product and the quantity only.
unfoldable pub copy_item : Item → Item
copy_item item = record {
  product_id = item.product_id;
  quantity = item.quantity;
  unit_price_minor = none;
  line_total_minor = none;
  quote_id = none;
  quote_version = none;
}

abbrev pub copy_items : List Item → List Item
copy_items [] = []
copy_items (x ∷ xs) = copy_item x ∷ copy_items xs

abbrev pub normal_currency : String → String
normal_currency currency = to_upper (trim_space currency)

abbrev pub fresh_order : String → String → String → List Item → Time → Order
fresh_order id customer_id currency items now = record {
  id = id;
  customer_id = customer_id;
  currency = currency;
  items = copy_items items;
  total_minor = none;
  reservation_id = none;
  payment_id = none;
  shipment_id = none;
  failure_code = none;
  inventory_released = false;
  payment_refunded = false;
  status = pending;
  version = initial_version;
  created_at = now;
  updated_at = now;
}

unfoldable pub new_order : String → String → String → List Item → Time → Result DomainError Order
new_order id customer_id currency items now =
    if not (valid_order_id id)
    then err invalid_order_id
    else if not (valid_customer_id customer_id)
    then err invalid_customer_id
    else if not (valid_currency (normal_currency currency))
    then err invalid_currency
    else if length items == 0
    then err empty_order
    else if ltb max_items (length items)
    then err too_many_items
    else and_then (check_items [] items) (λ _.
      if bad_timestamp now
      then err invalid_timestamp
      else ok (fresh_order id customer_id (normal_currency currency) items now))
