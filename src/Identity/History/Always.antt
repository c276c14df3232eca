-- ===== src/Identity/History/Always.antt =====
-- The history of the tables over any run of requests, however they end.
use stream_weave.Prelude.{
  ℕ, String, Bool, true, false, Option, none, some, List, [], ◌∷◌, Result, ok, err,
}
use stream_weave.Identity.Model.{Error}
use stream_weave.Identity.Tables.{Tables}
use stream_weave.Identity.Monad.{Env, Act, LimiterPort, no_limiter, one_key, many_keys}
use stream_weave.Identity.Ends.Keeps.{Keeps, keeps_rules, Keeps-bind, Keeps-consult}
use stream_weave.Identity.History.{Later}
use stream_weave.Identity.History.Calls.{history_rules}
use stream_weave.Identity.Service.{
  AuditInput, record_audit, allowed, allow_each, allow_by, allow_dimensions, validate_email,
  validate_credentials, or_denied,
}
use stream_weave.Identity.Store.{record_audit_row, record_outbox_row}

-- These read no table and change none.
module _ (env : Env) (H : Tables → Type 0) where
  pub allowed-Keeps : (o : Option Bool) → Keeps env H (allowed o)
  unfolding allowed
  allowed-Keeps none = search keeps_rules depth 8
  allowed-Keeps (some true) = search keeps_rules depth 8
  allowed-Keeps (some false) = search keeps_rules depth 8

  pub allow_each-Keeps :
      (f : ℕ → String → Option Bool) (keys : List String) → Keeps env H (allow_each f keys)
  unfolding allow_each
  allow_each-Keeps f [] = search keeps_rules depth 8
  allow_each-Keeps f (key ∷ keys) =
      Keeps-bind _ _ _ _ (Keeps-consult _ _ _)
        λ o. Keeps-bind _ _ _ _ (allowed-Keeps o) (λ x. allow_each-Keeps f keys)

  pub allow_by-Keeps : (port : LimiterPort) (keys : List String) → Keeps env H (allow_by port keys)
  unfolding allow_by
  allow_by-Keeps no_limiter keys = search keeps_rules depth 8
  allow_by-Keeps (one_key f) keys = allow_each-Keeps f keys
  allow_by-Keeps (many_keys f) keys = search (keeps_rules, allowed-Keeps) depth 8

  pub allow_dimensions-Keeps :
      (kind account source : String) → Keeps env H (allow_dimensions kind account source)
  unfolding allow_dimensions
  allow_dimensions-Keeps kind account source = search (keeps_rules, allow_by-Keeps) depth 12

  pub validate_email-Keeps : (email : String) → Keeps env H (validate_email email)
  unfolding validate_email
  validate_email-Keeps email = search keeps_rules depth 12

  pub validate_credentials-Keeps :
      (e : Error) (email password : String) → Keeps env H (validate_credentials e email password)
  unfolding validate_credentials
  validate_credentials-Keeps e email password = search keeps_rules depth 12

  pub or_denied-Keeps : {A : Type 0} (r : Result Error A) → Keeps env H (or_denied r)
  unfolding or_denied
  or_denied-Keeps (ok a) = search keeps_rules depth 8
  or_denied-Keeps (err e) = search keeps_rules depth 8

module _ (env : Env) (c : Tables) where
  abbrev pub Safe : {A : Type 0} → Act A → Type 0
  Safe m = Keeps env (Later c) m

  pub record_audit-Safe : (input : AuditInput) → Safe (record_audit input)
  unfolding record_audit record_audit_row record_outbox_row
  record_audit-Safe input = search (keeps_rules, history_rules) depth 30

pub ruleset helper_rules = (
  record_audit-Safe, allow_dimensions-Keeps, validate_email-Keeps, validate_credentials-Keeps,
  or_denied-Keeps,
)
