-- ===== src/Store/Reserve.antt =====
-- applyInventoryReserved of store.go: a reservation brings a signed quote, which prices the order.
use stream_weave.Prelude.{
  ◌-◌, ◌^◌, String, cat, Bool, true, false, not, ◌&&◌, ◌||◌, Option, none, some, List, [], ◌∷◌,
  str_eq, ◌==◌, if◌then◌else◌, length, is_some, Result, ok, err, and_then,
}
use stream_weave.Prelude.Int.{ℤ, pos, pos_part, ltb_ℤ, eqb_ℤ, ◌*ℤ◌, quot}
use stream_weave.Orders.Model.{
  Item, Order, Time, pending, cancel_requested, eqb_status, is_terminal, valid_reservation_id,
  valid_product_id, DomainError,
}
use stream_weave.Orders.Quote.{Prices, price_of, quote_order}
use stream_weave.App.{Error, app, domain, conflict}
use stream_weave.Message.{
  text, number, datum, raw_string, raw_int64, raw_quote_items, QuoteItem, Fact,
}
use stream_weave.Db.Monad.{Tx, statement, mapping, fail, lift, skip, ◌>>=◌, ◌>>◌}
use stream_weave.Db.Queries.{update_order_item_quote}
use stream_weave.Store.Payload.{cancellation_requested, command_payload, insert_outbox}
use stream_weave.Store.Workflow.{
  Change, no_change, update_workflow, bumped, insert_compensation_commands,
}
use stream_weave.Store.Quotes.{SignedQuote, QuoteVerifier, verify}

abbrev pub reserving : String → Change
reserving id = record no_change { reservation = id }

-- int64(1<<63 - 1)
abbrev pub max_int64 : ℤ
max_int64 = pos (2 ^ 63 - 1)

-- The tests on one line of the quote, in the code's order, all with the error ErrConflict.
unfoldable pub line_ok : Prices → QuoteItem → Bool
line_ok prices line =
    valid_product_id line.product_id
    && not (ltb_ℤ line.quantity (pos 1))
    && not (ltb_ℤ line.unit_price_minor (pos 0))
    && not (ltb_ℤ line.line_total_minor (pos 0))
    && not (is_some (price_of prices line.product_id))
    && (eqb_ℤ line.unit_price_minor (pos 0)
        || not (ltb_ℤ (quot max_int64 (pos_part line.unit_price_minor)) line.quantity))
    && eqb_ℤ line.line_total_minor (line.unit_price_minor *ℤ line.quantity)

-- The loop over the lines: the maps from products to prices and to quantities.
unfoldable pub quote_maps : Prices → Prices → List QuoteItem → Result Error (Prices × Prices)
unfolding line_ok
quote_maps prices quantities [] = ok (prices, quantities)
quote_maps prices quantities (line ∷ rest) =
    if not (line_ok prices line)
    then err (app conflict)
    else quote_maps ((line.product_id, line.unit_price_minor) ∷ prices)
        ((line.product_id, line.quantity) ∷ quantities) rest

abbrev or_zero : Option ℤ → ℤ
or_zero none = pos 0
or_zero (some q) = q

-- `quantities[item.ProductID] != item.Quantity` for no item; a missing key reads 0.
unfoldable pub quantities_match : Prices → List Item → Bool
quantities_match quantities [] = true
quantities_match quantities (item ∷ rest) =
    if eqb_ℤ (or_zero (price_of quantities item.product_id)) item.quantity
    then quantities_match quantities rest
    else false

-- The loop that stores the prices of the items.
unfoldable pub store_prices : String → List Item → Tx (Unit {0})
store_prices order_id [] = skip
store_prices order_id (item ∷ rest) = do
  mapping (statement (update_order_item_quote order_id item))
  store_prices order_id rest

-- `order.ApplyQuote`, its error handed on
abbrev quoted_or_error : Order × Option DomainError → Result Error Order
quoted_or_error (o, none) = ok o
quoted_or_error (o, some e) = err (domain e)

-- The quote that the fact carries, and its lines.
abbrev pub fact_quote : Order → String → Fact → ℤ → List QuoteItem → SignedQuote
fact_quote order reservation fact version items = record {
  order_id = order.id;
  reservation_id = reservation;
  quote_id = raw_string (datum fact.contents "quote_id");
  quote_version = version;
  currency = raw_string (datum fact.contents "currency");
  items = items;
  quote_expires_at = raw_string (datum fact.contents "quote_expires_at");
}

abbrev lines_or_conflict : Option (List QuoteItem) → Order → Result Error (List QuoteItem)
lines_or_conflict none order = err (app conflict)
lines_or_conflict (some l) order =
    if length l == length order.items then ok l else err (app conflict)

-- All that is tested before the first write: the priced order.
unfoldable pub checked_quote :
    Option QuoteVerifier → Order → String → Fact → Time → Result Error Order
checked_quote verifier order reservation fact now =
    if not (str_eq (raw_string (datum fact.contents "currency")) order.currency)
    then err (app conflict)
    else and_then (raw_int64 (datum fact.contents "quote_version")) (λ version.
      and_then (lines_or_conflict (raw_quote_items (datum fact.contents "items")) order) (λ items.
        if not (
          verify verifier (fact_quote order reservation fact version items)
            (raw_string (datum fact.contents "quote_key_id"))
            (raw_string (datum fact.contents "quote_signature")) now)
        then err (app conflict)
        else and_then (quote_maps [] [] items) (λ maps.
          if not (quantities_match maps.1 order.items)
          then err (app conflict)
          else quoted_or_error (
              quote_order order (raw_string (datum fact.contents "quote_id")) version maps.0 now))))

-- The amount of a priced order; `*order.TotalMinor`
abbrev pub amount : Order → ℤ
amount order = elim order.total_minor [ none ↦ pos 0 | some t ↦ t ]

-- The branch for a pending order.
unfoldable pub reserve_pending : Option QuoteVerifier → Order → String → Fact → Time → Tx (Unit {0})
reserve_pending verifier order reservation fact now = do
  quoted ← lift (checked_quote verifier order reservation fact now)
  store_prices order.id quoted.items
  -- `order.Version = expectedVersion`
  let held = record quoted { version = order.version }
  update_workflow held pending (reserving reservation) held.total_minor now
  command ←
      command_payload "commerce.payment.authorize.v1" (bumped held) fact.saga_id fact.event_id
        (cat order.id ":authorize-payment")
        (("order_id", text order.id)
          ∷ ("amount_minor", number (amount held))
          ∷ ("currency", text order.currency)
          ∷ [])
  insert_outbox "commerce.payment.authorize.v1" order.id command now

-- The branch for an order whose cancellation was asked for meanwhile.
unfoldable pub reserve_cancelling : Order → String → Fact → Time → Tx (Unit {0})
reserve_cancelling order reservation fact now = do
  let held = record order { reservation_id = some reservation }
  update_workflow held cancel_requested (reserving reservation) order.total_minor now
  insert_compensation_commands (bumped held) fact.saga_id fact.event_id cancellation_requested now

unfoldable pub apply_inventory_reserved : Option QuoteVerifier → Order → Fact → Time → Tx (Unit {0})
apply_inventory_reserved verifier order fact now =
    let reservation = raw_string (datum fact.contents "reservation_id") in
    if is_terminal order.status
    then skip
    else if not (valid_reservation_id reservation)
    then fail (app conflict)
    else if not (str_eq fact.operation_id (cat order.id ":reserve"))
    then fail (app conflict)
    else if eqb_status order.status cancel_requested
    then reserve_cancelling order reservation fact now
    else if not (eqb_status order.status pending)
    then skip
    else reserve_pending verifier order reservation fact now
