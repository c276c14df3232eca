-- ===== src/Orders/Quote/Outcome.antt =====
-- What `ApplyQuote` does to a well-formed order, on every branch.
use stream_weave.Prelude.{
  ℕ, ◌+◌, ◌≡◌, ◌≤◌, ◌↔◌, String, true, false, none, some, List, [], ◌∷◌, arith, leb, if◌then◌else◌,
  All, u64, ◌⊎◌, inl, inr, ◌≢◌, Option-cases, err, map,
}
use stream_weave.Prelude.Int.{ℤ, pos, negsuc, ltb_ℤ, +ℤ_pos}
use stream_weave.Orders.Model.{
  Item, Order, Time, bad_timestamp, pending, max_total_minor, valid_quote_id, DomainError,
  invalid_money, money_overflow,
}
use stream_weave.Orders.Create.Laws.{IsValidItem, IsValid}
use stream_weave.Orders.Quote.{Prices, price_of, price_line, find_line, quote_lines, apply_quote}
use stream_weave.Orders.Quote.Spec.{line_cost, exact_total, IsPriced, quoted_item}
use stream_weave.Orders.Quote.Laws.{
  find_line-exact, quote_lines-exact, write_lines-exact, le-or-gt, leb_of_le,
}

-- A product has a price in range, or its round fails.
IsPriced-cases :
    (prices : Prices) (total : ℤ) (item : Item)
    → (find_line (price_of prices item.product_id) total item ≡ err invalid_money)
      ⊎ IsPriced prices item
unfolding price_line
IsPriced-cases prices total item = elim (Option-cases (price_of prices item.product_id)) [
  | inl e ↦ inl (rw e)
  | inr (pos n, e) ↦ elim (le-or-gt n max_total_minor) [
    | inl le ↦ inr (ground arith)
    | inr gt ↦ inl (rw e (ground arith))
  ]
  | inr (negsuc n, e) ↦ inl (rw e (ground arith))
]

quote_lines-IsPriced :
    (prices : Prices) (t : ℕ) (items : List Item)
    → All IsValidItem items
    → t ≤ max_total_minor
    → ((e : DomainError) → quote_lines prices (pos t) items ≢ err e)
    → All (IsPriced prices) items
unfolding quote_lines
quote_lines-IsPriced prices t [] v ht h = tt
quote_lines-IsPriced prices t (x ∷ xs) (v, vs) ht h = elim (IsPriced-cases prices (pos t) x) [
  | inl bad ↦ absurd (h invalid_money (rw bad))
  | inr pr ↦ elim (le-or-gt (t + line_cost prices x) max_total_minor) [
    | inl le ↦ (
      pr,
      quote_lines-IsPriced prices (t + line_cost prices x) xs vs le (λ e bad. h e (
          rw (
            find_line-exact prices t x v pr ht,
            leb_of_le _ _ le,
            +ℤ_pos t (line_cost prices x) (omega arith),
            bad,
          ))),
    )
    | inr gt ↦ absurd (h money_overflow (rw (find_line-exact prices t x v pr ht) (ground arith)))
  ]
]

module _ (o : Order) (id : String) (version : ℤ) (prices : Prices) (now : Time) where
  -- The conditions, other than on the prices, under which a quote is looked at.
  pub record IsOpen : Type 0 where
    pub status : o.status ≡ pending
    pub unpriced : o.total_minor ≡ none
    pub quote : valid_quote_id id ≡ true
    pub first_version : ltb_ℤ version (pos 1) ≡ false
    pub time : bad_timestamp now ≡ false

  abbrev pub quoted : Order
  quoted = record o {
    items = map (quoted_item id version prices) o.items;
    total_minor = some (pos (exact_total prices o.items));
    version = u64 (o.version + 1);
    updated_at = now;
  }

  -- For a well-formed order that is PENDING and has no total, with a valid quote id, a version of at
  -- least 1 and a UTC time, and a price in range for every product: if the exact sum of quantity
  -- times price is at most the largest total, `ApplyQuote` writes on each item its price, quantity
  -- times price and the quote, on the order the exact sum, and counts the version up; otherwise it
  -- returns an overflow and leaves the order as it was.
  pub apply_quote-exact :
      IsValid o
      → IsOpen
      → All (IsPriced prices) o.items
      → apply_quote (some o) id version prices now ≡ (
          if leb (exact_total prices o.items) max_total_minor
          then (some quoted, none)
          else (some o, some money_overflow))
  unfolding apply_quote
  apply_quote-exact v q p = ground (
    arith,
    quote_lines-exact prices 0 o.items v.items p (omega arith),
    write_lines-exact id version prices o.items,
  )

  -- For a well-formed order that is PENDING and has no total, with a valid quote id, a version of at
  -- least 1 and a UTC time, `ApplyQuote` succeeds exactly if every product has a price in range and
  -- the exact sum of the lines is at most the largest total.
  pub apply_quote_iff :
      IsValid o
      → IsOpen
      → ((apply_quote (some o) id version prices now).1 ≡ none)
        ↔ (All (IsPriced prices) o.items × (exact_total prices o.items ≤ max_total_minor))
  unfolding apply_quote
  apply_quote_iff v q = (there, λ p. ground (arith, apply_quote-exact v q p.0))
    where
      there :
          (apply_quote (some o) id version prices now).1 ≡ none
          → All (IsPriced prices) o.items × (exact_total prices o.items ≤ max_total_minor)
      there h =
          let priced : All (IsPriced prices) o.items =
            quote_lines-IsPriced prices 0 o.items v.items (omega arith)
              (λ e bad. ground (arith, bad)) in
          (priced, ground (arith, apply_quote-exact v q priced))

  pub apply_quote-error :
      {e : DomainError}
      → (apply_quote (some o) id version prices now).1 ≡ some e
      → (apply_quote (some o) id version prices now).0 ≡ some o
  unfolding apply_quote
  apply_quote-error h = ground arith
