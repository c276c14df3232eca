-- ===== src/Orders/Lifecycle.antt =====
-- The state changes of models.go that carry no price: `Transition`, `TransitionIfVersion`,
-- `Confirm` and the helper they share. A method with a pointer receiver takes an `Option Order`,
-- `none` for nil, and returns the receiver's new value beside the error.
pub mod Graph
pub mod History
use stream_weave.Prelude.{
  ℕ, ◌+◌, Bool, true, false, not, ◌||◌, Option, none, some, ◌==◌, if◌then◌else◌, u64, is_some,
}
use stream_weave.Prelude.Int.{ℤ}
use stream_weave.Orders.Model.{
  Order, Time, bad_timestamp, Status, pending, confirmed, cancel_requested, cancelled, completed,
  failed, eqb_status, is_terminal, DomainError, invalid_transition, stale_version, terminal_order,
  invalid_timestamp, missing_prereq,
}

unfoldable pub allowed_transition : Status → Status → Bool
allowed_transition pending to =
    eqb_status to confirmed || eqb_status to cancel_requested || eqb_status to failed
allowed_transition confirmed to =
    eqb_status to cancel_requested || eqb_status to completed || eqb_status to failed
allowed_transition cancel_requested to = eqb_status to cancelled || eqb_status to failed
allowed_transition _ to = false

abbrev pub moved : Order → Status → Time → Order
moved o to now = record o { status = to; version = u64 (o.version + 1); updated_at = now }

-- `TransitionIfVersion` behind its nil test
unfoldable pub transition_order : Order → ℕ → Status → Time → Order × Option DomainError
unfolding is_terminal allowed_transition
transition_order o expected to now =
    if not (o.version == expected)
    then (o, some stale_version)
    else if is_terminal o.status
    then (o, some terminal_order)
    else if bad_timestamp now
    then (o, some invalid_timestamp)
    else if eqb_status to confirmed
    then (o, some missing_prereq)
    else if not (allowed_transition o.status to)
    then (o, some invalid_transition)
    else (moved o to now, none)

unfoldable pub transition_if_version :
    Option Order → ℕ → Status → Time → Option Order × Option DomainError
unfolding transition_order
transition_if_version none expected to now = (none, some invalid_transition)
transition_if_version (some o) expected to now =
    let (o', e) = transition_order o expected to now in (some o', e)

-- `Transition` reads the version of its receiver, so it has no nil case.
unfoldable pub transition : Order → Status → Time → Order × Option DomainError
unfolding transition_order
transition o to now = transition_order o o.version to now

unfoldable pub transition_without_prerequisite : Order → Status → Time → Order × Option DomainError
unfolding is_terminal allowed_transition
transition_without_prerequisite o to now =
    if is_terminal o.status
    then (o, some terminal_order)
    else if bad_timestamp now
    then (o, some invalid_timestamp)
    else if not (allowed_transition o.status to)
    then (o, some invalid_transition)
    else (moved o to now, none)

-- `Confirm` past its test of the two prerequisites and of nil
unfoldable pub confirm_order : Order → ℕ → Time → Order × Option DomainError
unfolding transition_without_prerequisite
confirm_order o expected now =
    if not (is_some o.total_minor)
    then (o, some missing_prereq)
    else if not (o.version == expected)
    then (o, some stale_version)
    else transition_without_prerequisite o confirmed now

unfoldable pub confirm : Option Order → Bool → Bool → ℕ → Time → Option Order × Option DomainError
unfolding confirm_order
confirm none reserved authorized expected now = (none, some missing_prereq)
confirm (some o) reserved authorized expected now =
    if not reserved || not authorized
    then (some o, some missing_prereq)
    else let (o', e) = confirm_order o expected now in (some o', e)
