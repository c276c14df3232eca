-- ===== src/Orders/Create/Laws.antt =====
-- What `NewOrder` guarantees, and that it refuses nothing else.
use stream_weave.Prelude.{
  ◌≡◌, ◌≤◌, ◌<◌, ◌↔◌, refl, sym, ap, ◌∙◌, String, true, false, List, [], ◌∷◌, arith, length, All,
  ok,
}
use stream_weave.Prelude.Int.{pos_part, neg_part}
use stream_weave.Orders.Model.{
  Item, Order, Time, bad_timestamp, max_items, max_quantity, valid_order_id, valid_customer_id,
  valid_product_id, valid_currency,
}
use stream_weave.Orders.Create.{
  contains, check_items, copy_item, copy_items, normal_currency, fresh_order, new_order,
}

-- 1 ≤ quantity ≤ max_quantity, and a well-formed product id
pub record IsValidItem (item : Item) : Type 0 where
  pub product : valid_product_id item.product_id ≡ true
  pub at_least : 1 ≤ pos_part item.quantity
  pub at_most : pos_part item.quantity ≤ max_quantity
  pub positive : neg_part item.quantity ≡ 0

-- No product id occurs twice, and none of `seen` occurs.
abbrev pub IsDistinct : List String → List Item → Type 0
IsDistinct seen [] = Unit
IsDistinct seen (x ∷ xs) =
    (contains seen x.product_id ≡ false) × IsDistinct (x.product_id ∷ seen) xs

pub record IsValid (o : Order) : Type 0 where
  pub id : valid_order_id o.id ≡ true
  pub customer : valid_customer_id o.customer_id ≡ true
  pub currency : valid_currency o.currency ≡ true
  pub some_item : 0 < length o.items
  pub few_items : length o.items ≤ max_items
  pub items : All IsValidItem o.items
  pub distinct : IsDistinct [] o.items

pub check_items_sound :
    (seen : List String) (xs : List Item)
    → check_items seen xs ≡ ok tt
    → All IsValidItem xs × IsDistinct seen xs
unfolding check_items
check_items_sound seen [] h = (tt, tt)
check_items_sound seen (x ∷ xs) h = ground (arith, check_items_sound (x.product_id ∷ seen) xs)

pub check_items_complete :
    (seen : List String) (xs : List Item)
    → All IsValidItem xs
    → IsDistinct seen xs
    → check_items seen xs ≡ ok tt
unfolding check_items
check_items_complete seen [] v d = refl
check_items_complete seen (x ∷ xs) v d =
    ground (arith, check_items_complete (x.product_id ∷ seen) xs v.1 d.1, v.0, d.0)

copy_items-All : (xs : List Item) → All IsValidItem xs → All IsValidItem (copy_items xs)
unfolding copy_item
copy_items-All [] h = tt
copy_items-All (x ∷ xs) (h, hs) = (
  record { product = h.product; at_least = h.at_least; at_most = h.at_most; positive = h.positive },
  copy_items-All xs hs,
)

copy_items-IsDistinct :
    (seen : List String) (xs : List Item) → IsDistinct seen xs → IsDistinct seen (copy_items xs)
unfolding copy_item
copy_items-IsDistinct seen [] h = tt
copy_items-IsDistinct seen (x ∷ xs) (h, hs) = (h, copy_items-IsDistinct (x.product_id ∷ seen) xs hs)

length-copy_items : (xs : List Item) → length (copy_items xs) ≡ length xs
length-copy_items [] = refl
length-copy_items (x ∷ xs) = omega (arith, length-copy_items xs)

module _ (id customer_id currency : String) (items : List Item) (now : Time) where
  -- The conditions on the arguments under which an order is created.
  pub record IsAccepted : Type 0 where
    pub order_id : valid_order_id id ≡ true
    pub customer : valid_customer_id customer_id ≡ true
    pub code : valid_currency (normal_currency currency) ≡ true
    pub some_item : 0 < length items
    pub few_items : length items ≤ max_items
    pub each : All IsValidItem items
    pub distinct : IsDistinct [] items
    pub time : bad_timestamp now ≡ false

  new_order-inverse :
      {o : Order}
      → new_order id customer_id currency items now ≡ ok o
      → IsAccepted × (o ≡ fresh_order id customer_id (normal_currency currency) items now)
  unfolding new_order
  new_order-inverse h = ground (arith, check_items_sound [] items)

  new_order-forward :
      IsAccepted
      → new_order id customer_id currency items now
        ≡ ok (fresh_order id customer_id (normal_currency currency) items now)
  unfolding new_order
  new_order-forward a = ground (arith, check_items_complete [] items a.each a.distinct)

  -- `NewOrder` returns an order exactly if the ids, the normalized currency and the time are valid,
  -- there are 1 to 100 items, each with a valid product id and a quantity from 1 to the largest, and
  -- no product twice; the order is then the PENDING one with these items, unpriced, at version 1.
  pub new_order_iff :
      (o : Order)
      → (new_order id customer_id currency items now ≡ ok o)
        ↔ (IsAccepted × (o ≡ fresh_order id customer_id (normal_currency currency) items now))
  new_order_iff o = (new_order-inverse, λ p. new_order-forward p.0 ∙ sym (ap ok p.1))

  -- An order that `NewOrder` returns is well formed: valid ids and currency, 1 to 100 items, each
  -- valid, and no product twice.
  pub new_order-IsValid :
      {o : Order} → new_order id customer_id currency items now ≡ ok o → IsValid o
  new_order-IsValid h =
      let (a, e) = new_order-inverse h in
      rw e (record {
        id = a.order_id;
        customer = a.customer;
        currency = a.code;
        some_item = omega (arith, length-copy_items items, a.some_item);
        few_items = omega (arith, length-copy_items items, a.few_items);
        items = copy_items-All items a.each;
        distinct = copy_items-IsDistinct [] items a.distinct;
      })

  pub new_order-customer :
      {o : Order} → new_order id customer_id currency items now ≡ ok o → o.customer_id ≡ customer_id
  new_order-customer h = rw (new_order-inverse h).1 refl
