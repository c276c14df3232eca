-- ===== src/Service/Tests.antt =====
-- The theorems on the service over a small store: one order in it, and the orders that it creates.
use stream_weave.Prelude.{
  ◌≡◌, ◌↔◌, refl, String, true, false, List, [], ◌∷◌, str_eq, Result, ok, err, All, if◌then◌else◌,
}
use stream_weave.Prelude.Int.{pos}
use stream_weave.Text.{matches_key, matches_code, matches_id, trim_space}
use stream_weave.Orders.Model.{Order, valid_order_id}
use stream_weave.Orders.Create.Laws.{IsValid}
use stream_weave.App.{Error, app, not_found, Actor, CreateResult, has_scope}
use stream_weave.Samples.{noon, sample, basket}
use stream_weave.Service.{
  Ports, CreateInput, CancelInput, ListInput, authorize_actor, create, get, list, cancel,
  cancel_found, stranger_denied, owner_denied, cancel_reasoned, or_default, cancel_hashed,
}
use stream_weave.Service.Access.{may, get_iff}
use stream_weave.Service.Hidden.{get_hides, cancel_hides}
use stream_weave.Service.Calls.{create-requests, cancel-requests}

-- The state: the orders that Create was called with. `sample` is found where it is among them.
abbrev Orders : Type 0
Orders = List Order

abbrev look : String → Orders → Result Error Order
look id [] = err (app not_found)
look id (o ∷ rest) = if str_eq o.id id then ok o else look id rest

abbrev accepted : Order → CreateResult
accepted o = record { order = o; replayed = false; response_status = "PENDING"; response_at = noon }

abbrev ports : Ports Orders
ports = record {
  create = λ actor o operation key hash s. (ok (accepted o), o ∷ s);
  find_by_id = λ id s. (look id s, s);
  list = λ customer status cursor limit s. (ok (s, ""), s);
  request_cancellation = λ actor id operation key hash reason version at s. (look id s, s);
  new_order_id = λ s. ("ord_2", s);
  now = λ s. (noon, s);
  create_hash = λ customer currency items. ok "hash";
  cancel_hash = λ id reason. ok "hash";
}

abbrev owner : Actor
owner = record {
  subject = "usr_1";
  type = "human";
  scopes = "orders:read:self" ∷ "orders:write:self" ∷ [];
}

abbrev stranger : Actor
stranger = record { subject = "usr_2"; type = "human"; scopes = "orders:cancel:self" ∷ [] }

abbrev shelf : Orders
shelf = sample ∷ []

get_iff_example : ((get ports owner "ord_1" shelf).0 ≡ ok sample) ↔ (
    (authorize_actor owner ≡ true)
    × (valid_order_id "ord_1" ≡ true)
    × (look "ord_1" shelf ≡ ok sample)
    × (may owner "usr_1" "orders:read:self" "orders:read:any" ≡ true))
get_iff_example = get_iff ports owner "ord_1" shelf sample

abbrev listing : ListInput
listing = record {
  actor = owner;
  customer_id = "";
  status = "PENDING";
  cursor = "";
  limit = pos 20;
}

get_hides_example : (get ports stranger "ord_1" shelf).0 ≡ (get ports stranger "ord_1" []).0
unfolding has_scope
get_hides_example = get_hides ports stranger "ord_1" shelf [] sample refl refl refl refl

abbrev cancelling : CancelInput
cancelling = record {
  actor = stranger;
  order_id = "ord_1";
  reason = "";
  idempotency_key = "0123456789abcdef";
}

cancel_hides_example :
    ((cancel ports cancelling shelf).0 ≡ (cancel ports cancelling []).0)
    × ((cancel ports cancelling shelf).1 ≡ shelf)
unfolding has_scope
cancel_hides_example = cancel_hides ports cancelling shelf [] sample refl refl refl refl refl

abbrev creating : CreateInput
creating = record {
  actor = owner;
  customer_id = "usr_1";
  currency = "EUR";
  items = basket;
  idempotency_key = "0123456789abcdef";
}

-- Every order that reaches the store is well formed.
create-requests_example : All IsValid (create ports creating []).1
create-requests_example =
    create-requests ports (All IsValid) (λ s h. h) (λ s h. h) (λ a o key hash s r h. (r.order, h))
      creating [] tt

-- A store that keeps the actor, the key and the reason of each cancellation, and finds `sample`.
abbrev Requests : Type 0
Requests = List (String × String × String)

abbrev recording : Ports Requests
recording = record {
  create = λ actor o operation key hash s. (ok (accepted o), s);
  find_by_id = λ id s. (ok sample, s);
  list = λ customer status cursor limit s. (ok ([], ""), s);
  request_cancellation =
      λ actor id operation key hash reason version at s. (ok sample, (actor, key, reason) ∷ s);
  new_order_id = λ s. ("ord_2", s);
  now = λ s. (noon, s);
  create_hash = λ customer currency items. ok "hash";
  cancel_hash = λ id reason. ok "hash";
}

abbrev canceller : Actor
canceller = record { subject = "usr_1"; type = "human"; scopes = "orders:cancel:self" ∷ [] }

abbrev own_cancellation : CancelInput
own_cancellation = record {
  actor = canceller;
  order_id = "ord_1";
  reason = "";
  idempotency_key = "0123456789abcdef";
}

abbrev IsWellFormed : String × String × String → Type 0
IsWellFormed r = (matches_key r.1 ≡ true) × (matches_code 31 r.2 ≡ true)

-- The request gets to the store.
own_cancellation_recorded :
    (cancel recording own_cancellation []).1
    ≡ ("usr_1", "0123456789abcdef", "CUSTOMER_REQUESTED") ∷ []
unfolding cancel authorize_actor matches_id matches_key valid_order_id cancel_found stranger_denied
    owner_denied has_scope cancel_reasoned matches_code or_default trim_space cancel_hashed
own_cancellation_recorded = refl

-- Each cancellation that reaches the store has a well-formed key and reason.
cancel-requests_example : All IsWellFormed (cancel recording own_cancellation []).1
cancel-requests_example =
    cancel-requests recording (All IsWellFormed) (λ s h. h) (λ id s h. h)
      (λ a found key hash reason at s c h. ((c.keyed, c.reasoned), h)) own_cancellation [] tt
