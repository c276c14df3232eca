-- ===== src/Orders/Quote/Spec.antt =====
-- What a quote is meant to cost, in unbounded numbers, apart from the guarded loop of the code.
use stream_weave.Prelude.{ℕ, String, ◌+◌, ◌*◌, ◌≡◌, ◌≤◌, none, some, List, [], ◌∷◌}
use stream_weave.Prelude.Int.{ℤ, pos, pos_part}
use stream_weave.Orders.Model.{Item, max_total_minor}
use stream_weave.Orders.Quote.{Prices, price_of, QuoteLine}

-- The price of a product, 0 where there is none.
abbrev pub unit_price : Prices → Item → ℕ
unit_price prices item = elim (price_of prices item.product_id) [ none ↦ 0 | some p ↦ pos_part p ]

abbrev pub line_cost : Prices → Item → ℕ
line_cost prices item = pos_part item.quantity * unit_price prices item

abbrev pub exact_total : Prices → List Item → ℕ
exact_total prices [] = 0
exact_total prices (x ∷ xs) = line_cost prices x + exact_total prices xs

-- The product has a price from 0 to `max_total_minor`.
abbrev pub IsPriced : Prices → Item → Type 0
IsPriced prices item =
    (price_of prices item.product_id ≡ some (pos (unit_price prices item)))
    × (unit_price prices item ≤ max_total_minor)

abbrev pub exact_line : Prices → Item → QuoteLine
exact_line prices item = record {
  price = pos (unit_price prices item);
  line_total = pos (line_cost prices item);
}

abbrev pub exact_lines : Prices → List Item → List QuoteLine
exact_lines prices [] = []
exact_lines prices (x ∷ xs) = exact_line prices x ∷ exact_lines prices xs

-- The item with its price, what it costs, and the quote that says so.
abbrev pub quoted_item : String → ℤ → Prices → Item → Item
quoted_item id version prices item = record {
  product_id = item.product_id;
  quantity = item.quantity;
  unit_price_minor = some (pos (unit_price prices item));
  line_total_minor = some (pos (line_cost prices item));
  quote_id = some id;
  quote_version = some version;
}
