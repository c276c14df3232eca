-- ===== src/Identity/Opening/Credentials.antt =====
-- The loops of ServiceToken over the credentials and the scopes (service.go), as tests on rows.
use stream_weave.Prelude.{
  ◌≡◌, refl, String, Bool, true, ◌&&◌, List, [], ◌∷◌, arith, All, map, filter_by, Bool-cases, inl,
  inr,
}
use stream_weave.Identity.Model.{Instant}
use stream_weave.Sorting.{member}
use stream_weave.Identity.Tables.{CredentialRow}
use stream_weave.Identity.Secrets.{is_active_credential}
use stream_weave.Identity.Store.{map_credential}
use stream_weave.Identity.Service.Machine.{secret_valid, all_granted}
use stream_weave.Identity.Opening.{exists_row}

-- An ACTIVE credential of the principal that the secret verifies against
abbrev pub has_secret :
    (String → String → Bool) → String → String → Instant → List CredentialRow → Bool
has_secret verify secret principal at =
    exists_row (λ c. is_active_credential principal at c && verify secret c.secret_hash)

pub secret_valid-exists :
    (verify : String → String → Bool) (secret : String) (rows : List CredentialRow)
    → secret_valid verify secret (map map_credential rows)
      ≡ exists_row (λ c. verify secret c.secret_hash) rows
unfolding secret_valid
secret_valid-exists verify secret [] = refl
secret_valid-exists verify secret (c ∷ rows) =
    ground (arith, secret_valid-exists verify secret rows)

pub all_granted-All :
    (scopes requested : List String)
    → all_granted scopes requested ≡ true
    → All (λ s. member s scopes ≡ true) requested
unfolding all_granted
all_granted-All scopes [] e = tt
all_granted-All scopes (s ∷ rest) e = elim (Bool-cases (member s scopes)) [
  | inl x ↦ (x, all_granted-All scopes rest (rw x at e))
  | inr x ↦ cc (rw x at e)
]

pub exists_row-filter_by :
    {A : Type 0} (p q : A → Bool) (rows : List A)
    → exists_row q (filter_by p rows) ≡ exists_row (λ x. p x && q x) rows
exists_row-filter_by p q [] = refl
exists_row-filter_by p q (x ∷ rows) = ground (arith, exists_row-filter_by p q rows)
