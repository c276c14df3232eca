-- ===== src/Orders/Quote/Laws.antt =====
-- The guarded `int64` loop of `ApplyQuote` computes the exact total, without overflow.
use stream_weave.Prelude.{
  ℕ, ◌+◌, ◌*◌, ◌/◌, ◌^◌, ◌≡◌, ◌≤◌, ◌<◌, refl, true, ◌⊎◌, inl, inr, List, [], ◌∷◌, arith, leb,
  if◌then◌else◌, All, ok, err, String, map,
}
use stream_weave.Prelude.Int.{ℤ, pos, negsuc, pos_part, neg_part, quot, +ℤ_pos, -ℤ_pos, *ℤ_pos}
use stream_weave.Orders.Model.{Item, max_total_minor, max_quantity, money_overflow}
use stream_weave.Orders.Create.Laws.{IsValidItem}
use stream_weave.Orders.Quote.{Prices, price_of, price_line, find_line, quote_lines, write_lines}
use stream_weave.Orders.Quote.Spec.{
  unit_price, line_cost, exact_total, IsPriced, exact_line, exact_lines, quoted_item,
}

-- The division test of the code is the exact comparison.
lt_of_quot : (m q p : ℕ) → 0 < p → m / p < q → m < q * p
lt_of_quot m q p h k = grind arith

le_of_quot : (m q p : ℕ) → 0 < p → q ≤ m / p → q * p ≤ m
le_of_quot m q p h k = grind arith

pub le-or-gt : (a b : ℕ) → (a ≤ b) ⊎ (b < a)
le-or-gt a b = omega arith

pub leb_of_le : (a b : ℕ) → a ≤ b → leb a b ≡ true
leb_of_le a b h = ground arith

product-lt : (q p : ℕ) → q ≤ max_quantity → p ≤ max_total_minor → q * p < 2 ^ 63
product-lt q p h k = grind arith

-- One round, at a price and a quantity in range.
price_line-exact :
    (q p t : ℕ) (item : Item)
    → item.quantity ≡ pos q
    → q ≤ max_quantity
    → p ≤ max_total_minor
    → t ≤ max_total_minor
    → price_line (pos p) (pos t) item ≡ (
        if leb (t + q * p) max_total_minor
        then ok (record { price = pos p; line_total = pos (q * p) })
        else err money_overflow)
unfolding price_line quot
price_line-exact q p t item e hq hp ht =
    rw (e, *ℤ_pos q p (product-lt q p hq hp))
      (ground (
        arith,
        lt_of_quot max_total_minor q p,
        le_of_quot max_total_minor q p,
        -ℤ_pos max_total_minor (q * p) (omega arith),
      ))

pos_of_part : (z : ℤ) → neg_part z ≡ 0 → z ≡ pos (pos_part z)
pos_of_part (pos n) h = refl
pos_of_part (negsuc n) h = absurd (omega arith)

-- A valid item that has a price: its round, whatever the total so far.
pub find_line-exact :
    (prices : Prices) (t : ℕ) (item : Item)
    → IsValidItem item
    → IsPriced prices item
    → t ≤ max_total_minor
    → find_line (price_of prices item.product_id) (pos t) item ≡ (
        if leb (t + line_cost prices item) max_total_minor
        then ok (exact_line prices item)
        else err money_overflow)
find_line-exact prices t item v (e, le) ht = rw e (
    price_line-exact (pos_part item.quantity) (unit_price prices item) t item
      (pos_of_part item.quantity v.positive) v.at_most le ht)

-- The loop returns the exact total and lines, or an overflow exactly if the total is too large.
pub quote_lines-exact :
    (prices : Prices) (t : ℕ) (items : List Item)
    → All IsValidItem items
    → All (IsPriced prices) items
    → t ≤ max_total_minor
    → quote_lines prices (pos t) items ≡ (
        if leb (t + exact_total prices items) max_total_minor
        then ok (pos (t + exact_total prices items), exact_lines prices items)
        else err money_overflow)
unfolding quote_lines
quote_lines-exact prices t [] v pr ht = ground arith
quote_lines-exact prices t (x ∷ xs) (v, vs) (pr, prs) ht =
    rw (find_line-exact prices t x v pr ht)
      (elim (le-or-gt (t + line_cost prices x) max_total_minor) [
        | inl le ↦
            rw
              (
                leb_of_le _ _ le,
                +ℤ_pos t (line_cost prices x) (omega arith),
                quote_lines-exact prices (t + line_cost prices x) xs vs prs le,
              )
              (ground (arith))
        | inr gt ↦ ground arith
      ])

-- The second loop writes on each item its own price and cost.
pub write_lines-exact :
    (id : String) (version : ℤ) (prices : Prices) (items : List Item)
    → write_lines id version items (exact_lines prices items)
      ≡ map (quoted_item id version prices) items
unfolding write_lines
write_lines-exact id version prices [] = refl
write_lines-exact id version prices (x ∷ xs) = rw (write_lines-exact id version prices xs) refl
