-- ===== src/Service/Hidden.antt =====
-- An order of somebody else looks like an order that is not there.
use stream_weave.Prelude.{◌≡◌, String, false, str_eq, arith, ok, err}
use stream_weave.Orders.Model.{Order}
use stream_weave.App.{app, not_found, Actor, has_scope}
use stream_weave.Service.{Ports, CancelInput, stranger_denied, show, get, cancel_found, cancel}

module _ {S : Type 0} (p : Ports S) where
  -- For an actor who may not read any order, Get answers the same for an order of another customer
  -- as for an id that the store does not find.
  pub get_hides :
      (a : Actor) (id : String) (s t : S) (o : Order)
      → has_scope a "orders:read:any" ≡ false
      → str_eq o.customer_id a.subject ≡ false
      → (p.find_by_id id s).0 ≡ ok o
      → (p.find_by_id id t).0 ≡ err (app not_found)
      → (get p a id s).0 ≡ (get p a id t).0
  unfolding get show stranger_denied
  get_hides a id s t o any other found missing = ground arith

  -- For an actor who may not cancel any order, Cancel answers the same for an order of another
  -- customer as for an id that the store does not find; if the lookup leaves the state as it was,
  -- so does Cancel.
  pub cancel_hides :
      (i : CancelInput) (s t : S) (o : Order)
      → has_scope i.actor "orders:cancel:any" ≡ false
      → str_eq o.customer_id i.actor.subject ≡ false
      → (p.find_by_id i.order_id s).0 ≡ ok o
      → (p.find_by_id i.order_id t).0 ≡ err (app not_found)
      → (p.find_by_id i.order_id s).1 ≡ s
      → ((cancel p i s).0 ≡ (cancel p i t).0) × ((cancel p i s).1 ≡ s)
  unfolding cancel cancel_found stranger_denied
  cancel_hides i s t o any other found missing reads = ground arith
