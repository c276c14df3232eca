-- ===== src/Identity/Service/Machine.antt =====
-- ServiceToken of service.go: the tokens of machines.
use stream_weave.Prelude.{String, cat, Bool, true, false, not, ◌&&◌, ◌||◌, List, [], ◌∷◌, str_eq}
use stream_weave.Text.{trim_space}
use stream_weave.Sorting.{member}
use stream_weave.Identity.Model.{
  Instant, ServicePrincipal, ServiceCredential, MachineCredentials, invalid_credentials, forbidden,
}
use stream_weave.Identity.Monad.{
  Act, pure, guard, ask, attempt, consult, now, with_transaction, ◌>>=◌, ◌>>◌,
}
use stream_weave.Identity.Store.{
  find_service_principal, active_service_credentials, mark_service_principal_used,
}
use stream_weave.Identity.Service.{machine_token_ttl, record_audit, allow_dimensions, or_denied}

-- The loop that verifies the secret against each credential
unfoldable pub secret_valid : (String → String → Bool) → String → List ServiceCredential → Bool
secret_valid verify secret [] = false
secret_valid verify secret (c ∷ cs) = verify secret c.secret_hash || secret_valid verify secret cs

-- The loop over the requested scopes, with the map `grant`
unfoldable pub all_granted : List String → List String → Bool
all_granted scopes [] = true
all_granted scopes (s ∷ ss) = member s scopes && all_granted scopes ss

abbrev is_empty : List String → Bool
is_empty [] = true
is_empty (x ∷ xs) = false

-- The end of ServiceToken, for a principal that may have the scopes.
unfoldable pub issue_machine_token :
    ServicePrincipal → List String → String → Act MachineCredentials
issue_machine_token principal requested correlation = do
  access ← ask (λ env n. env.sign n (record {
    subject = cat "svc_" principal.client_id;
    audience = principal.audience;
    kind = "service";
    session_id = "";
    roles = [];
    scopes = requested;
    ttl = machine_token_ttl;
  }))
  at ← now
  with_transaction (
      mark_service_principal_used principal.id at
      >> record_audit (record {
        action = "service_token.issued";
        outcome = "success";
        actor_id = cat "svc_" principal.client_id;
        actor_type = "service";
        target_id = "";
        correlation_id = correlation;
        role = "";
        at = at;
      }))
  pure (record { access_token = access; expires_in = 300 })

unfoldable pub missing_input : String → String → List String → Bool
unfolding trim_space
missing_input client secret requested =
    str_eq (trim_space client) "" || str_eq secret "" || is_empty requested

-- ServiceToken from the lookup of the credentials on, `at` being the time it read
unfoldable pub authorize_at :
    ServicePrincipal → String → List String → String → Instant → Act MachineCredentials
unfolding secret_valid all_granted or_denied issue_machine_token
authorize_at principal secret requested correlation at = do
  listed ← attempt (active_service_credentials principal.id at)
  credentials ← or_denied listed
  valid ← consult (λ env n. secret_valid env.verify_password secret credentials)
  guard (not valid) invalid_credentials
  guard (not (all_granted principal.scopes requested)) forbidden
  issue_machine_token principal requested correlation

-- ServiceToken for a principal that was found
unfoldable pub authorize_machine :
    ServicePrincipal → String → List String → String → Act MachineCredentials
unfolding authorize_at
authorize_machine principal secret requested correlation = do
  guard (not principal.enabled) invalid_credentials
  at ← now
  authorize_at principal secret requested correlation at

-- serviceToken; ServiceToken calls it with the source "".
unfoldable pub service_token :
    String → String → List String → String → String → Act MachineCredentials
unfolding missing_input or_denied authorize_machine
service_token client secret requested source correlation = do
  guard (missing_input client secret requested) invalid_credentials
  allow_dimensions "service-token" client source
  found ← attempt (find_service_principal client)
  principal ← or_denied found
  authorize_machine principal secret requested correlation
