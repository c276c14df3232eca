-- ===== src/Service/Calls.antt =====
-- What reaches the store: an invariant of its state that the authorized calls keep is kept by the
-- service.
use stream_weave.Prelude.{◌≡◌, refl, String, true, arith, Result, ok, err, Bool-cases, inl, inr}
use stream_weave.Text.{matches_key, matches_code, trim_space}
use stream_weave.Orders.Model.{Order, Time, DomainError, valid_order_id}
use stream_weave.Orders.Create.{new_order}
use stream_weave.Orders.Create.Laws.{IsValid, new_order-IsValid, new_order-customer}
use stream_weave.App.{Error, Actor}
use stream_weave.Service.{
  Ports, CreateInput, CancelInput, authorize_actor, create_operation, cancel_operation,
  create_hashed, create_order, create_authorized, create, cancel_hashed, or_default,
  cancel_reasoned, cancel_found, cancel,
}
use stream_weave.Service.Access.{may, denied_iff}

-- What the service promises of a call of the store's Create: a well-formed order, for a customer
-- the actor may write for, under a well-formed key.
pub record IsRequest (a : Actor) (o : Order) (key : String) : Type 0 where
  pub human : authorize_actor a ≡ true
  pub order : IsValid o
  pub allowed : may a o.customer_id "orders:write:self" "orders:write:any" ≡ true
  pub keyed : matches_key key ≡ true

-- What it promises of RequestCancellation, `found` being the order the store gave.
pub record IsCancellation (a : Actor) (found : Order) (key reason : String) : Type 0 where
  pub human : authorize_actor a ≡ true
  pub allowed : may a found.customer_id "orders:cancel:self" "orders:cancel:any" ≡ true
  pub keyed : matches_key key ≡ true
  pub reasoned : matches_code 31 reason ≡ true

module _ {S : Type 0} (p : Ports S) (P : S → Type 0)
    (clock_keeps : (s : S) → P s → P (p.now s).1) where
  module _ (ids_keep : (s : S) → P s → P (p.new_order_id s).1)
      (create_keeps : (a : Actor) (o : Order) (key hash : String) (s : S)
        → IsRequest a o key
        → P s
        → P (p.create a.subject o create_operation key hash s).1) where
    create_hashed-P :
        (i : CreateInput) (o : Order) (h : Result Error String) (s : S)
        → IsRequest i.actor o i.idempotency_key
        → P s
        → P (create_hashed p i o h s).1
    unfolding create_hashed
    create_hashed-P i o (err e) s r h = h
    create_hashed-P i o (ok hash) s r h = create_keeps i.actor o i.idempotency_key hash s r h

    create_order-P :
        (i : CreateInput) (x : Result DomainError Order) (s : S)
        → ((o : Order) → x ≡ ok o → IsRequest i.actor o i.idempotency_key)
        → P s
        → P (create_order p i x s).1
    unfolding create_order
    create_order-P i (err e) s r h = h
    create_order-P i (ok o) s r h = create_hashed-P i o _ s (r o refl) h

    module _ (i : CreateInput) (human : authorize_actor i.actor ≡ true)
        (allowed : may i.actor i.customer_id "orders:write:self" "orders:write:any" ≡ true)
        (keyed : matches_key i.idempotency_key ≡ true) where
      is_request :
          (id : String) (now : Time) (o : Order)
          → new_order id i.customer_id i.currency i.items now ≡ ok o
          → IsRequest i.actor o i.idempotency_key
      is_request id now o e = record {
        human = human;
        order = new_order-IsValid id i.customer_id i.currency i.items now e;
        allowed = rw (new_order-customer id i.customer_id i.currency i.items now e) allowed;
        keyed = keyed;
      }

      create_authorized-P : (s : S) → P s → P (create_authorized p i s).1
      unfolding create_authorized
      create_authorized-P s h = create_order-P i _ _ (is_request _ _) (ids_keep _ (clock_keeps s h))

    -- A property of the store's state is kept by the service's Create if the clock and the id
    -- generator keep it, and the store's Create keeps it for every well-formed order that the
    -- actor may write, under a well-formed key.
    pub create-requests : (i : CreateInput) (s : S) → P s → P (create p i s).1
    unfolding create
    create-requests i s h = elim (Bool-cases (authorize_actor i.actor)) [
      | inr human ↦ rw human h
      | inl human ↦ elim (Bool-cases (matches_key i.idempotency_key)) [
        | inr key ↦ rw (human, key) h
        | inl key ↦
            elim (Bool-cases (may i.actor i.customer_id "orders:write:self" "orders:write:any")) [
              | inl can ↦ ground (
                arith,
                denied_iff i.actor i.customer_id "orders:write:self" "orders:write:any",
                create_authorized-P i human can key s h,
              )
              | inr cannot ↦
                  ground
                    (arith, denied_iff i.actor i.customer_id "orders:write:self" "orders:write:any")
            ]
      ]
    ]

  module _ (find_keeps : (id : String) (s : S) → P s → P (p.find_by_id id s).1)
      (cancel_keeps : (a : Actor) (found : Order) (key hash reason : String) (at : Time) (s : S)
        → IsCancellation a found key reason
        → P s
        → P
            (p.request_cancellation a.subject found.id cancel_operation key hash reason
              found.version at s).1) where
    cancel_hashed-P :
        (i : CancelInput) (o : Order) (reason : String) (h : Result Error String) (s : S)
        → IsCancellation i.actor o i.idempotency_key reason
        → P s
        → P (cancel_hashed p i o reason h s).1
    unfolding cancel_hashed
    cancel_hashed-P i o reason (err e) s c h = h
    cancel_hashed-P i o reason (ok hash) s c h =
        cancel_keeps i.actor o i.idempotency_key hash reason _ _ c (clock_keeps s h)

    cancel_reasoned-P :
        (i : CancelInput) (o : Order) (reason : String) (s : S)
        → authorize_actor i.actor ≡ true
        → may i.actor o.customer_id "orders:cancel:self" "orders:cancel:any" ≡ true
        → matches_key i.idempotency_key ≡ true
        → P s
        → P (cancel_reasoned p i o reason s).1
    unfolding cancel_reasoned
    cancel_reasoned-P i o reason s human allowed key h =
        elim (Bool-cases (matches_code 31 reason)) [
          | inr e ↦ rw e h
          | inl e ↦ rw e (
              cancel_hashed-P i o reason _ s
                (record { human = human; allowed = allowed; keyed = key; reasoned = e }) h)
        ]

    cancel_found-P :
        (i : CancelInput) (x : Result Error Order) (s : S)
        → authorize_actor i.actor ≡ true
        → matches_key i.idempotency_key ≡ true
        → P s
        → P (cancel_found p i (x, s)).1
    unfolding cancel_found
    cancel_found-P i (err e) s human key h = h
    cancel_found-P i (ok o) s human key h =
        elim (Bool-cases (may i.actor o.customer_id "orders:cancel:self" "orders:cancel:any")) [
          | inl can ↦ ground (
            arith,
            denied_iff i.actor o.customer_id "orders:cancel:self" "orders:cancel:any",
            cancel_reasoned-P i o (or_default (trim_space i.reason)) s human can key h,
          )
          | inr cannot ↦
              ground
                (arith, denied_iff i.actor o.customer_id "orders:cancel:self" "orders:cancel:any")
        ]

    -- A property of the store's state is kept by the service's Cancel if the clock and the lookup
    -- keep it, and the store's RequestCancellation keeps it for every order that the actor may
    -- cancel, at its version, with a well-formed key and reason.
    pub cancel-requests : (i : CancelInput) (s : S) → P s → P (cancel p i s).1
    unfolding cancel
    cancel-requests i s h = elim (Bool-cases (authorize_actor i.actor)) [
      | inr human ↦ rw human h
      | inl human ↦ elim (Bool-cases (matches_key i.idempotency_key)) [
        | inr key ↦ rw (human, key) h
        | inl key ↦ elim (Bool-cases (valid_order_id i.order_id)) [
          | inr e ↦ rw (human, key, e) h
          | inl e ↦ rw (human, key, e) (cancel_found-P i _ _ human key (find_keeps i.order_id s h))
        ]
      ]
    ]
