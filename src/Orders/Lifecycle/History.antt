-- ===== src/Orders/Lifecycle/History.antt =====
-- Every order that the domain can produce: a created one, and then any calls of its methods, each
-- with any arguments, whether it succeeds or not.
use stream_weave.Prelude.{
  not, ◌||◌, ℕ, suc, ◌+◌, ◌≡◌, ◌<◌, ◌^◌, refl, sym, subst, String, Bool, true, false, Option, none,
  some, List, [], ◌∷◌, ◌⊎◌, inl, inr, arith, u64, is_some, ok,
}
use stream_weave.Prelude.Int.{ℤ}
use stream_weave.Orders.Model.{
  Item, Order, Time, Status, pending, confirmed, completed, DomainError, initial_version,
}
use stream_weave.Orders.Create.{fresh_order, normal_currency, new_order}
use stream_weave.Orders.Create.Laws.{new_order_iff}
use stream_weave.Orders.Quote.{Prices, apply_quote}
use stream_weave.Orders.Lifecycle.{allowed_transition, transition_order, confirm}
use stream_weave.Orders.Lifecycle.Graph.{◌⟶*◌, here, next, allowed_transition_iff}

-- A method call with its arguments.
pub data Call : Type 0 where
  transit : ℕ → Status → Time → Call
  quote : String → ℤ → Prices → Time → Call
  confirm_call : (reserved authorized : Bool) → ℕ → Time → Call

abbrev or_same : Option Order → Order → Order
or_same none o = o
or_same (some o') o = o'

-- The receiver after the call, and the call's error.
unfoldable pub perform : Order → Call → Order × Option DomainError
unfolding transition_order apply_quote confirm
perform o (transit expected to now) = transition_order o expected to now
perform o (quote id version prices now) =
    let (p, e) = apply_quote (some o) id version prices now in (or_same p o, e)
perform o (confirm_call reserved authorized expected now) =
    let (p, e) = confirm (some o) reserved authorized expected now in (or_same p o, e)

abbrev count_ok : Option DomainError → ℕ → ℕ
count_ok none n = suc n
count_ok (some e) n = n

-- The order after a list of calls, errors ignored, and the number of calls that succeeded.
unfoldable pub perform_all : Order → List Call → Order × ℕ
perform_all o [] = (o, 0)
perform_all o (c ∷ cs) =
    let (o', e) = perform o c in let (o'', n) = perform_all o' cs in (o'', count_ok e n)

-- A call of a method of an order, with any arguments, that returns an error leaves the order as it
-- was.
pub perform-error :
    (o : Order) (c : Call) {e : DomainError} → (perform o c).1 ≡ some e → (perform o c).0 ≡ o
unfolding perform
perform-error o (transit expected to now) h = ground arith
perform-error o (quote id version prices now) h = ground arith
perform-error o (confirm_call reserved authorized expected now) h = ground arith

-- The statuses that promise goods.
abbrev pub is_sold : Status → Bool
is_sold confirmed = true
is_sold completed = true
is_sold _ = false

abbrev IsPaidFor : Order → Type 0
IsPaidFor o = is_sold o.status ≡ true → is_some o.total_minor ≡ true

perform-IsPaidFor : (o : Order) (c : Call) → IsPaidFor o → IsPaidFor (perform o c).0
unfolding perform
perform-IsPaidFor o (transit expected to now) h = ground arith
perform-IsPaidFor o (quote id version prices now) h = ground arith
perform-IsPaidFor o (confirm_call reserved authorized expected now) h = ground arith

perform-version :
    (o : Order) (c : Call)
    → o.version < 2 ^ 64
    → (perform o c).0.version ≡ u64 (o.version + count_ok (perform o c).1 0)
unfolding perform
perform-version o (transit expected to now) h = ground arith
perform-version o (quote id version prices now) h = ground arith
perform-version o (confirm_call reserved authorized expected now) h = ground arith

perform-edge :
    (o : Order) (c : Call)
    → ((perform o c).0.status ≡ o.status)
      ⊎ (allowed_transition o.status (perform o c).0.status ≡ true)
unfolding perform
perform-edge o (transit expected to now) = ground arith
perform-edge o (quote id version prices now) = ground arith
perform-edge o (confirm_call reserved authorized expected now) = ground arith

perform-total :
    (o : Order) (c : Call) {t : ℤ} → o.total_minor ≡ some t → (perform o c).0.total_minor ≡ some t
unfolding perform
perform-total o (transit expected to now) h = ground arith
perform-total o (quote id version prices now) h = ground arith
perform-total o (confirm_call reserved authorized expected now) h = ground arith

perform_all-IsPaidFor : (cs : List Call) (o : Order) → IsPaidFor o → IsPaidFor (perform_all o cs).0
unfolding perform_all
perform_all-IsPaidFor [] o h = h
perform_all-IsPaidFor (c ∷ cs) o h =
    perform_all-IsPaidFor cs (perform o c).0 (perform-IsPaidFor o c h)

perform_all-path :
    (cs : List Call) (o : Order) {s : Status} → s ⟶* o.status → s ⟶* (perform_all o cs).0.status
unfolding perform_all
perform_all-path [] o r = r
perform_all-path (c ∷ cs) o {s} r = perform_all-path cs (perform o c).0 (elim (perform-edge o c) [
  | inl same ↦ subst (λ t. s ⟶* t) (sym same) r
  | inr e ↦ next r ((allowed_transition_iff _ _).0 e)
])

-- An order that has a total keeps it over any calls of its methods, with any arguments.
pub perform_all-total :
    (cs : List Call) (o : Order) {t : ℤ}
    → o.total_minor ≡ some t
    → (perform_all o cs).0.total_minor ≡ some t
unfolding perform_all
perform_all-total [] o h = h
perform_all-total (c ∷ cs) o h = perform_all-total cs (perform o c).0 (perform-total o c h)

count_ok-add : (e : Option DomainError) (n : ℕ) → count_ok e n ≡ count_ok e 0 + n
count_ok-add none n = omega arith
count_ok-add (some e) n = omega arith

perform_all-version :
    (cs : List Call) (o : Order)
    → o.version < 2 ^ 64
    → (perform_all o cs).0.version ≡ u64 (o.version + (perform_all o cs).1)
unfolding perform_all
perform_all-version [] o h = omega arith
perform_all-version (c ∷ cs) o h =
    let e = (perform o c).1 in
    let n = (perform_all (perform o c).0 cs).1 in
    omega (
      arith,
      perform-version o c h,
      count_ok-add e n,
      perform_all-version cs (perform o c).0 (omega (arith, perform-version o c h)),
    )

paid-or-unsold : (a b : Bool) → (a ≡ true → b ≡ true) → (not a || b) ≡ true
paid-or-unsold true b h = rw (h refl) refl
paid-or-unsold false b h = refl

-- After any calls of its methods, with any arguments, a created order has moved from PENDING only
-- along the diagram, has a total if it is CONFIRMED or COMPLETED, and has as its version 1 plus the
-- number of calls that succeeded, as a `uint64`.
pub history :
    (id customer_id currency : String) (items : List Item) (now : Time) {o : Order} (cs : List Call)
    → new_order id customer_id currency items now ≡ ok o
    → let (o', n) = perform_all o cs in
      (pending ⟶* o'.status)
      × ((not (is_sold o'.status) || is_some o'.total_minor) ≡ true)
      × (o'.version ≡ u64 (initial_version + n))
history id customer_id currency items now {o} cs h =
    let e = ((new_order_iff id customer_id currency items now o).0 h).1 in
    let start = fresh_order id customer_id (normal_currency currency) items now in
    rw e (
      perform_all-path cs start here,
      paid-or-unsold _ _ (perform_all-IsPaidFor cs start (λ p. cc)),
      perform_all-version cs start (omega arith),
    )
