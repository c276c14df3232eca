-- ===== src/Orders/Quote.antt =====
-- `ApplyQuote` of models.go: the prices of a quote are put on a pending order, once.
pub mod Spec
pub mod Laws
pub mod Outcome
use stream_weave.Prelude.{
  ℕ, ◌+◌, String, Bool, true, false, not, ◌&&◌, ◌||◌, Option, none, some, List, [], ◌∷◌, str_eq,
  if◌then◌else◌, is_some, u64, Result, ok, err, and_then,
}
use stream_weave.Prelude.Int.{ℤ, pos, pos_part, ltb_ℤ, eqb_ℤ, ◌+ℤ◌, ◌-ℤ◌, ◌*ℤ◌, quot}
use stream_weave.Orders.Model.{
  Item, Order, Time, bad_timestamp, pending, eqb_status, max_total_minor, valid_quote_id,
  DomainError, invalid_money, money_overflow, prices_already_set, invalid_timestamp,
  invalid_transition,
}

abbrev pub Prices : Type 0
Prices = List (String × ℤ)

-- `prices[id]` with its `ok`
abbrev pub price_of : Prices → String → Option ℤ
price_of [] id = none
price_of ((k, p) ∷ rest) id = if str_eq k id then some p else price_of rest id

pub record QuoteLine : Type 0 where
  pub price : ℤ
  pub line_total : ℤ

-- One round of the pricing loop, for a product with the price `p`.
unfoldable pub price_line : ℤ → ℤ → Item → Result DomainError QuoteLine
price_line p total item =
    if ltb_ℤ p (pos 0) || ltb_ℤ (pos max_total_minor) p
    then err invalid_money
    else if not (eqb_ℤ p (pos 0)) && ltb_ℤ (quot (pos max_total_minor) (pos_part p)) item.quantity
    then err money_overflow
    else let line = item.quantity *ℤ p in
      if ltb_ℤ (pos max_total_minor -ℤ line) total
      then err money_overflow
      else ok (record { price = p; line_total = line })

abbrev pub find_line : Option ℤ → ℤ → Item → Result DomainError QuoteLine
find_line none total item = err invalid_money
find_line (some p) total item = price_line p total item

-- The pricing loop: the total, and a line for each item.
unfoldable pub quote_lines : Prices → ℤ → List Item → Result DomainError (ℤ × List QuoteLine)
quote_lines prices total [] = ok (total, [])
quote_lines prices total (item ∷ rest) =
    and_then (find_line (price_of prices item.product_id) total item)
      (λ l. and_then (quote_lines prices (total +ℤ l.line_total) rest) (λ r. ok (r.0, l ∷ r.1)))

-- The second loop writes the lines and the quote on the items.
unfoldable pub write_lines : String → ℤ → List Item → List QuoteLine → List Item
write_lines id version [] lines = []
write_lines id version (item ∷ items) [] = item ∷ items
write_lines id version (item ∷ items) (l ∷ lines) =
    record item {
      unit_price_minor = some l.price;
      line_total_minor = some l.line_total;
      quote_id = some id;
      quote_version = some version;
    }
    ∷ write_lines id version items lines

-- The state after the loops, with the error of the first loop if it stopped.
unfoldable pub finish_quote :
    Order → String → ℤ → Time → Result DomainError (ℤ × List QuoteLine) → Order × Option DomainError
finish_quote o id version now (err e) = (o, some e)
finish_quote o id version now (ok (total, lines)) = (
  record o {
    items = write_lines id version o.items lines;
    total_minor = some total;
    version = u64 (o.version + 1);
    updated_at = now;
  },
  none,
)

-- `ApplyQuote` behind its nil test
unfoldable pub quote_order : Order → String → ℤ → Prices → Time → Order × Option DomainError
unfolding finish_quote
quote_order o id version prices now =
    if not (eqb_status o.status pending) || is_some o.total_minor
    then (o, some prices_already_set)
    else if not (valid_quote_id id) || ltb_ℤ version (pos 1)
    then (o, some invalid_money)
    else if bad_timestamp now
    then (o, some invalid_timestamp)
    else finish_quote o id version now (quote_lines prices (pos 0) o.items)

unfoldable pub apply_quote :
    Option Order → String → ℤ → Prices → Time → Option Order × Option DomainError
unfolding quote_order
apply_quote none id version prices now = (none, some invalid_transition)
apply_quote (some o) id version prices now =
    let (o', e) = quote_order o id version prices now in (some o', e)
