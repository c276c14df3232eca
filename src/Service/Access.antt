-- ===== src/Service/Access.antt =====
-- Who may do what: the tests of the service against one rule on scopes.
use stream_weave.Prelude.{
  ◌≡◌, ◌↔◌, String, Bool, true, not, ◌&&◌, ◌||◌, str_eq, arith, Result, ok, err,
}
use stream_weave.Orders.Model.{Order, valid_order_id}
use stream_weave.App.{Error, Actor, has_scope}
use stream_weave.Service.{Ports, authorize_actor, owner_denied, stranger_denied, show, get}

-- The rule: the scope for any order, or the owner's own.
abbrev pub may : Actor → String → String → String → Bool
may a owner self any = has_scope a any || (str_eq owner a.subject && has_scope a self)

pub denied_iff :
    (a : Actor) (owner self any : String)
    → (stranger_denied a owner any || owner_denied a owner self any) ≡ not (may a owner self any)
unfolding stranger_denied owner_denied
denied_iff a owner self any = ground arith

module _ {S : Type 0} (p : Ports S) where
  show_iff :
      (a : Actor) (x : Result Error Order × S) (o : Order)
      → ((show p a x).0 ≡ ok o)
        ↔ ((x.0 ≡ ok o) × (may a o.customer_id "orders:read:self" "orders:read:any" ≡ true))
  unfolding show stranger_denied owner_denied
  show_iff a (err e, s) o = ground arith
  show_iff a (ok q, s) o = ground arith

  -- Get returns an order exactly if the actor is a human user, the id is well formed, the store
  -- finds the order, and the actor may read any order, or is its customer and may read its own.
  pub get_iff :
      (a : Actor) (id : String) (s : S) (o : Order)
      → ((get p a id s).0 ≡ ok o) ↔ (
          (authorize_actor a ≡ true)
          × (valid_order_id id ≡ true)
          × ((p.find_by_id id s).0 ≡ ok o)
          × (may a o.customer_id "orders:read:self" "orders:read:any" ≡ true))
  unfolding get
  get_iff a id s o = ground (arith, show_iff a (p.find_by_id id s) o)
