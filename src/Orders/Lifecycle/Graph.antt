-- ===== src/Orders/Lifecycle/Graph.antt =====
-- The life cycle as a diagram, apart from the code that walks it.
use stream_weave.Prelude.{ℕ, ◌+◌, ◌≡◌, ◌≢◌, ◌↔◌, refl, ap, true, false, none, arith, u64}
use stream_weave.Orders.Model.{
  Order, Time, bad_timestamp, Status, pending, confirmed, cancel_requested, cancelled, completed,
  failed, is_terminal, eqb_status,
}
use stream_weave.Orders.Lifecycle.{allowed_transition, transition_order}

infix 40 ◌⟶◌ ◌⟶*◌
pub data ◌⟶◌ : Status → Status → Type 0 where
  confirms : pending ⟶ confirmed
  asks_early : pending ⟶ cancel_requested
  fails_early : pending ⟶ failed
  asks_late : confirmed ⟶ cancel_requested
  completes : confirmed ⟶ completed
  fails_late : confirmed ⟶ failed
  cancels : cancel_requested ⟶ cancelled
  fails_last : cancel_requested ⟶ failed

pub data ◌⟶*◌ : Status → Status → Type 0 where
  here : {s : Status} → s ⟶* s
  next : {s t u : Status} → s ⟶* t → t ⟶ u → s ⟶* u

ruleset edges =
    (confirms, asks_early, fails_early, asks_late, completes, fails_late, cancels, fails_last)

allowed_sound : (s t : Status) → allowed_transition s t ≡ true → s ⟶ t
unfolding allowed_transition
allowed_sound pending t h = grind (arith, edges)
allowed_sound confirmed t h = grind (arith, edges)
allowed_sound cancel_requested t h = grind (arith, edges)
allowed_sound _ t h = cc

allowed_complete : {s t : Status} → s ⟶ t → allowed_transition s t ≡ true
unfolding allowed_transition
allowed_complete confirms = refl
allowed_complete asks_early = refl
allowed_complete fails_early = refl
allowed_complete asks_late = refl
allowed_complete completes = refl
allowed_complete fails_late = refl
allowed_complete cancels = refl
allowed_complete fails_last = refl

-- The transition table is the diagram.
pub allowed_transition_iff : (s t : Status) → (allowed_transition s t ≡ true) ↔ (s ⟶ t)
allowed_transition_iff s t = (allowed_sound s t, allowed_complete)

source-not-terminal : {s t : Status} → s ⟶ t → is_terminal s ≡ false
unfolding is_terminal
source-not-terminal confirms = refl
source-not-terminal asks_early = refl
source-not-terminal fails_early = refl
source-not-terminal asks_late = refl
source-not-terminal completes = refl
source-not-terminal fails_late = refl
source-not-terminal cancels = refl
source-not-terminal fails_last = refl

ne-confirmed : (t : Status) → t ≢ confirmed → eqb_status t confirmed ≡ false
ne-confirmed confirmed h = absurd (h refl)
ne-confirmed _ h = refl

-- No path leaves a terminal status.
pub terminal_stays : {s t : Status} → is_terminal s ≡ true → s ⟶* t → t ≡ s
terminal_stays h here = refl
terminal_stays h (next r e) = cc (terminal_stays h r, source-not-terminal e, h)

module _ (o : Order) (expected : ℕ) (to : Status) (now : Time) where
  -- The tests that `TransitionIfVersion` makes before it moves the order.
  passed :
      (transition_order o expected to now).1 ≡ none
      → (o.version ≡ expected)
        × (bad_timestamp now ≡ false)
        × (eqb_status to confirmed ≡ false)
        × (allowed_transition o.status to ≡ true)
  unfolding transition_order
  passed h = ground arith

  accepted :
      o.version ≡ expected
      → bad_timestamp now ≡ false
      → eqb_status to confirmed ≡ false
      → is_terminal o.status ≡ false
      → allowed_transition o.status to ≡ true
      → transition_order o expected to now
        ≡ (record o { status = to; version = u64 (o.version + 1); updated_at = now }, none)
  unfolding transition_order
  accepted a b c d e = ground arith

  -- The diagram has an edge other than one to CONFIRMED, the version is the expected one, and the
  -- time is UTC.
  abbrev pub MayMove : Type 0
  MayMove =
      (o.version ≡ expected) × (bad_timestamp now ≡ false) × (to ≢ confirmed) × (o.status ⟶ to)

  -- The order at the new status, one version on, and all else as it was.
  abbrev pub arrived : Order
  arrived = record o { status = to; version = u64 (o.version + 1); updated_at = now }

  -- `TransitionIfVersion` on an order returns no error exactly if the diagram has an edge to the new
  -- status, other than one to CONFIRMED, the version is the expected one and the time is a UTC time
  -- that is set; then it returns the order at the new status and time, with its version one greater,
  -- as a `uint64`, and every other field as it was.
  pub transition_iff :
      (((transition_order o expected to now).1 ≡ none) ↔ MayMove)
      × (MayMove → transition_order o expected to now ≡ (arrived, none))
  transition_iff = (
    (
      λ h. let (a, b, c, d) = passed h in (a, b, confirmed-ne c, allowed_sound o.status to d),
      λ m. rw (moves m) refl,
    ),
    moves,
  )
    where
      confirmed-ne : eqb_status to confirmed ≡ false → to ≢ confirmed
      confirmed-ne c e = cc (ap (λ t. eqb_status t confirmed) e)

      moves : MayMove → transition_order o expected to now ≡ (arrived, none)
      moves (a, b, c, d) =
          accepted a b (ne-confirmed to c) (source-not-terminal d) (allowed_complete d)
