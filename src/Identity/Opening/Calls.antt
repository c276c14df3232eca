-- ===== src/Identity/Opening/Calls.antt =====
-- ServiceToken counts its calls of the outside.
use stream_weave.Prelude.{
  ℕ, String, Bool, true, false, Option, none, some, List, [], ◌∷◌, Result, ok, err,
}
use stream_weave.Identity.Model.{Instant, Error, ServicePrincipal}
use stream_weave.Identity.Monad.{Env, LimiterPort, no_limiter, one_key, many_keys}
use stream_weave.Identity.Ends.Counts.{Counts, counts_rules, Counts-bind, Counts-consult}
use stream_weave.Identity.Store.{
  find_service_principal, active_service_credentials, mark_service_principal_used, record_audit_row,
  record_outbox_row,
}
use stream_weave.Identity.Service.{
  AuditInput, record_audit, allowed, allow_each, allow_by, allow_dimensions, or_denied,
}
use stream_weave.Identity.Service.Machine.{issue_machine_token, authorize_at}

module _ (env : Env) where
  allowed-Counts : (o : Option Bool) → Counts env (allowed o)
  unfolding allowed
  allowed-Counts none = search counts_rules depth 8
  allowed-Counts (some true) = search counts_rules depth 8
  allowed-Counts (some false) = search counts_rules depth 8

  allow_each-Counts :
      (f : ℕ → String → Option Bool) (keys : List String) → Counts env (allow_each f keys)
  unfolding allow_each
  allow_each-Counts f [] = search counts_rules depth 8
  allow_each-Counts f (key ∷ keys) =
      Counts-bind _ _ _ (Counts-consult _ _)
        λ o. Counts-bind _ _ _ (allowed-Counts o) (λ x. allow_each-Counts f keys)

  allow_by-Counts : (port : LimiterPort) (keys : List String) → Counts env (allow_by port keys)
  unfolding allow_by
  allow_by-Counts no_limiter keys = search counts_rules depth 8
  allow_by-Counts (one_key f) keys = allow_each-Counts f keys
  allow_by-Counts (many_keys f) keys = search (counts_rules, allowed-Counts) depth 8

  pub allow_dimensions-Counts :
      (kind account source : String) → Counts env (allow_dimensions kind account source)
  unfolding allow_dimensions
  allow_dimensions-Counts kind account source = search (counts_rules, allow_by-Counts) depth 12

  pub or_denied-Counts : {A : Type 0} (r : Result Error A) → Counts env (or_denied r)
  unfolding or_denied
  or_denied-Counts (ok a) = search counts_rules depth 8
  or_denied-Counts (err e) = search counts_rules depth 8

  pub find_service_principal-Counts : (client : String) → Counts env (find_service_principal client)
  unfolding find_service_principal
  find_service_principal-Counts client = search counts_rules depth 12

  record_audit-Counts : (input : AuditInput) → Counts env (record_audit input)
  unfolding record_audit record_audit_row record_outbox_row
  record_audit-Counts input = search counts_rules depth 20

  issue_machine_token-Counts :
      (p : ServicePrincipal) (requested : List String) (correlation : String)
      → Counts env (issue_machine_token p requested correlation)
  unfolding issue_machine_token mark_service_principal_used
  issue_machine_token-Counts p requested correlation =
      search (counts_rules, record_audit-Counts) depth 20

  pub authorize_at-Counts :
      (p : ServicePrincipal) (secret : String) (requested : List String) (correlation : String)
      (at : Instant)
      → Counts env (authorize_at p secret requested correlation at)
  unfolding authorize_at active_service_credentials
  authorize_at-Counts p secret requested correlation at =
      search (counts_rules, or_denied-Counts, issue_machine_token-Counts) depth 20
