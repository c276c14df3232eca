-- ===== src/Orders/Tests.antt =====
-- Runs of the orders domain, and its theorems at concrete orders.
use mathlib.Core.Bool.{true, not, ◌||◌}
use stream_weave.Prelude.{
  ◌+◌, ◌≡◌, ◌↔◌, ◌≤◌, refl, none, some, List, [], ◌∷◌, arith, ok, leb, if◌then◌else◌, All, is_some,
  u64,
}
use stream_weave.Prelude.Int.{pos}
use stream_weave.Text.{matches_id, repeated, trim_space, to_upper}
use stream_weave.Orders.Model.{
  pending, cancel_requested, money_overflow, initial_version, max_total_minor, valid_order_id,
  valid_customer_id, valid_product_id, valid_currency, valid_quote_id,
}
use stream_weave.Samples.{noon, basket, sample}
use stream_weave.Orders.Create.{check_items, copy_item, fresh_order, normal_currency, new_order}
use stream_weave.Orders.Create.Laws.{IsValid, IsAccepted, new_order_iff, new_order-IsValid}
use stream_weave.Orders.Quote.{Prices, apply_quote}
use stream_weave.Orders.Quote.Spec.{exact_total, IsPriced}
use stream_weave.Orders.Quote.Outcome.{IsOpen, quoted, apply_quote-exact, apply_quote_iff}
use stream_weave.Orders.Lifecycle.{transition_order}
use stream_weave.Orders.Lifecycle.Graph.{◌⟶*◌, MayMove, transition_iff}
use stream_weave.Orders.Lifecycle.History.{
  Call, transit, quote, confirm_call, is_sold, perform, perform_all, perform-error,
  perform_all-total, history,
}

created : new_order "ord_1" "usr_1" " eur" basket noon ≡ ok sample
unfolding new_order check_items valid_order_id valid_customer_id valid_product_id valid_currency
    matches_id repeated trim_space to_upper
created = refl

accepted : IsAccepted "ord_1" "usr_1" " eur" basket noon
accepted = ((new_order_iff "ord_1" "usr_1" " eur" basket noon _).0 created).0

new_order_iff_example : (new_order "ord_1" "usr_1" " eur" basket noon ≡ ok sample) ↔ (
    IsAccepted "ord_1" "usr_1" " eur" basket noon
    × (sample ≡ fresh_order "ord_1" "usr_1" (normal_currency " eur") basket noon))
new_order_iff_example = new_order_iff "ord_1" "usr_1" " eur" basket noon sample

well_formed : IsValid sample
well_formed = new_order-IsValid "ord_1" "usr_1" " eur" basket noon created

new_order-IsValid_example : IsValid sample
new_order-IsValid_example = new_order-IsValid "ord_1" "usr_1" " eur" basket noon created

abbrev prices : Prices
prices = ("prd_1", pos 500) ∷ ("prd_2", pos 7) ∷ []

open_for_quote : IsOpen sample "qte_1" (pos 1) prices noon
unfolding valid_quote_id matches_id
open_for_quote = record {
  status = refl;
  unpriced = refl;
  quote = refl;
  first_version = refl;
  time = refl;
}

All-IsPriced : All (IsPriced prices) sample.items
unfolding copy_item
All-IsPriced = ((refl, omega arith), ((refl, omega arith), tt))

apply_quote-exact_example : apply_quote (some sample) "qte_1" (pos 1) prices noon ≡ (
    if leb (exact_total prices sample.items) max_total_minor
    then (some (quoted sample "qte_1" (pos 1) prices noon), none)
    else (some sample, some money_overflow))
apply_quote-exact_example =
    apply_quote-exact sample "qte_1" (pos 1) prices noon well_formed open_for_quote All-IsPriced

apply_quote_iff_example :
    ((apply_quote (some sample) "qte_1" (pos 1) prices noon).1 ≡ none)
    ↔ (All (IsPriced prices) sample.items × (exact_total prices sample.items ≤ max_total_minor))
apply_quote_iff_example =
    apply_quote_iff sample "qte_1" (pos 1) prices noon well_formed open_for_quote

transition_iff_example :
    (((transition_order sample 1 cancel_requested noon).1 ≡ none)
      ↔ MayMove sample 1 cancel_requested noon)
    × (MayMove sample 1 cancel_requested noon
        → transition_order sample 1 cancel_requested noon
          ≡ (record sample { status = cancel_requested; version = 2; updated_at = noon }, none))
transition_iff_example = transition_iff sample 1 cancel_requested noon

abbrev calls : List Call
calls =
    quote "qte_1" (pos 1) prices noon
    ∷ confirm_call true true 1 noon
    ∷ confirm_call true true 2 noon
    ∷ transit 3 cancel_requested noon
    ∷ []

history_example :
    let (o', n) = perform_all sample calls in
    (pending ⟶* o'.status)
    × ((not (is_sold o'.status) || is_some o'.total_minor) ≡ true)
    × (o'.version ≡ u64 (initial_version + n))
history_example = history "ord_1" "usr_1" " eur" basket noon calls created

-- A transition at a version that is not the order's.
perform-error_example : (perform sample (transit 7 cancel_requested noon)).0 ≡ sample
unfolding perform transition_order
perform-error_example = perform-error sample (transit 7 cancel_requested noon) refl

perform_all-total_example :
    (perform_all (quoted sample "qte_1" (pos 1) prices noon) calls).0.total_minor ≡ some (pos 1014)
unfolding copy_item
perform_all-total_example = perform_all-total calls (quoted sample "qte_1" (pos 1) prices noon) refl
