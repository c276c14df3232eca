-- ===== src/Identity/History.antt =====
-- How the rows of the identity service may change over time: none is deleted from sessions or from the
-- tables of tokens, a session does not become ACTIVE again, a token stays consumed.
pub mod Calls
pub mod Always
pub mod Requests
use stream_weave.Prelude.{
  ℕ, ◌≡◌, refl, ◌∙◌, subst, String, Bool, true, false, Option, none, some, List, [], ◌∷◌, ◌++◌,
  arith, if◌then◌else◌, is_some, find_first, update_rows, Bool-cases, inl, inr, Result, ok, err,
}
use stream_weave.Identity.Model.{Error, SessionStatus, live, rotated, revoked, is_live}
use stream_weave.Identity.Monad.{Env, Act}
use stream_weave.Identity.Ends.{IsStable, Post}
use stream_weave.Identity.Ends.Keeps.{Keeps, Keeps-at}
use stream_weave.Identity.Tables.{SessionRow, TokenRow, Tables}

module _ {A : Type 0} (Step : A → A → Type 0) where
  -- Each row changes by `Step` in its place, and rows are added at the end.
  abbrev pub Grows : List A → List A → Type 0
  Grows [] ys = Unit
  Grows (x ∷ xs) [] = ⊥
  Grows (x ∷ xs) (y ∷ ys) = Step x y × Grows xs ys

  pub Grows-same : ((x : A) → Step x x) → (xs : List A) → Grows xs xs
  Grows-same r [] = tt
  Grows-same r (x ∷ xs) = (r x, Grows-same r xs)

  pub Grows-then :
      ((x y z : A) → Step x y → Step y z → Step x z)
      → (xs ys zs : List A) → Grows xs ys
      → Grows ys zs
      → Grows xs zs
  Grows-then s [] ys zs h k = tt
  Grows-then s (x ∷ xs) [] zs h k = elim h [ ]
  Grows-then s (x ∷ xs) (y ∷ ys) [] h k = elim k [ ]
  Grows-then s (x ∷ xs) (y ∷ ys) (z ∷ zs) h k = (s x y z h.0 k.0, Grows-then s xs ys zs h.1 k.1)

  pub Grows-append : (xs ys zs : List A) → Grows xs ys → Grows xs (ys ++ zs)
  Grows-append [] ys zs h = tt
  Grows-append (x ∷ xs) [] zs h = elim h [ ]
  Grows-append (x ∷ xs) (y ∷ ys) zs h = (h.0, Grows-append xs ys zs h.1)

  pub Grows-update :
      (p : A → Bool) (f : A → A)
      → ((x y : A) → Step x y → p y ≡ true → Step x (f y))
      → (xs ys : List A) → Grows xs ys
      → Grows xs (update_rows p f ys)
  Grows-update p f s [] ys h = tt
  Grows-update p f s (x ∷ xs) [] h = elim h [ ]
  Grows-update p f s (x ∷ xs) (y ∷ ys) h = (row (p y) refl, Grows-update p f s xs ys h.1)
    where
      row : (b : Bool) → p y ≡ b → Step x (if b then f y else y)
      row true e = s x y h.0 e
      row false e = h.0

  -- The first row with a key that no change touches is still the first, as it is now.
  pub Grows-find :
      (p : A → Bool)
      → ((x y : A) → Step x y → p y ≡ p x)
      → (xs ys : List A) (a : A) → Grows xs ys
      → find_first p xs ≡ some a
      → (b : A) × (find_first p ys ≡ some b) × Step a b
  Grows-find p k [] ys a h e = cc
  Grows-find p k (x ∷ xs) [] a h e = elim h [ ]
  Grows-find p k (x ∷ xs) (y ∷ ys) a h e = elim (Bool-cases (p x)) [
    | inl z ↦
        let same : x ≡ a = cc (rw z at e) in
        (y, rw (k x y h.0, z) refl, subst (λ q. Step q y) same h.0)
    | inr z ↦
        let (b, found, s) = Grows-find p k xs ys a h.1 (rw z at e) in
        (b, rw (k x y h.0, z) found, s)
  ]

-- The statuses that a session may take after `s`.
abbrev pub may_become : SessionStatus → SessionStatus → Bool
may_become live r = true
may_become rotated live = false
may_become rotated r = true
may_become revoked revoked = true
may_become revoked r = false

pub record Becomes (s r : SessionRow) : Type 0 where
  pub id : r.id ≡ s.id
  pub family_id : r.family_id ≡ s.family_id
  pub user_id : r.user_id ≡ s.user_id
  pub hash : r.refresh_token_hash ≡ s.refresh_token_hash
  pub status : may_become s.status r.status ≡ true

pub record Ages (k l : TokenRow) : Type 0 where
  pub id : l.id ≡ k.id
  pub user_id : l.user_id ≡ k.user_id
  pub hash : l.token_hash ≡ k.token_hash
  pub used : is_some k.consumed_at ≡ true → is_some l.consumed_at ≡ true

pub record Later (c d : Tables) : Type 0 where
  pub sessions : Grows Becomes c.sessions d.sessions
  pub resets : Grows Ages c.reset_tokens d.reset_tokens
  pub verifications : Grows Ages c.verification_tokens d.verification_tokens

may_become_refl : (s : SessionStatus) → may_become s s ≡ true
may_become_refl live = refl
may_become_refl rotated = refl
may_become_refl revoked = refl

may_become_trans :
    (s r q : SessionStatus) → may_become s r ≡ true → may_become r q ≡ true → may_become s q ≡ true
may_become_trans live r q h k = refl
may_become_trans rotated rotated q h k = k
may_become_trans rotated revoked revoked h k = refl
may_become_trans rotated revoked rotated h k = refl
may_become_trans rotated revoked live h k = k
may_become_trans rotated live q h k = cc
may_become_trans revoked revoked q h k = k
may_become_trans revoked live q h k = cc
may_become_trans revoked rotated q h k = cc

pub Becomes-same : (s : SessionRow) → Becomes s s
Becomes-same s = record {
  id = refl;
  family_id = refl;
  user_id = refl;
  hash = refl;
  status = may_become_refl s.status;
}

pub Becomes-then : (s r q : SessionRow) → Becomes s r → Becomes r q → Becomes s q
Becomes-then s r q h k = record {
  id = k.id ∙ h.id;
  family_id = k.family_id ∙ h.family_id;
  user_id = k.user_id ∙ h.user_id;
  hash = k.hash ∙ h.hash;
  status = may_become_trans s.status r.status q.status h.status k.status;
}

pub Ages-same : (k : TokenRow) → Ages k k
Ages-same k = record { id = refl; user_id = refl; hash = refl; used = λ e. e }

pub Ages-then : (k l m : TokenRow) → Ages k l → Ages l m → Ages k m
Ages-then k l m h i = record {
  id = i.id ∙ h.id;
  user_id = i.user_id ∙ h.user_id;
  hash = i.hash ∙ h.hash;
  used = λ e. i.used (h.used e);
}

pub Later-same : (c : Tables) → Later c c
Later-same c = record {
  sessions = Grows-same Becomes Becomes-same c.sessions;
  resets = Grows-same Ages Ages-same c.reset_tokens;
  verifications = Grows-same Ages Ages-same c.verification_tokens;
}

pub Later-then : (c d e : Tables) → Later c d → Later d e → Later c e
Later-then c d e h k = record {
  sessions = Grows-then Becomes Becomes-then c.sessions d.sessions e.sessions h.sessions k.sessions;
  resets = Grows-then Ages Ages-then c.reset_tokens d.reset_tokens e.reset_tokens h.resets k.resets;
  verifications =
      Grows-then Ages Ages-then c.verification_tokens d.verification_tokens e.verification_tokens
        h.verifications k.verifications;
}

-- The other requests change the rows only as they may.
abbrev pub IsConsiderate : Env → Type 0
IsConsiderate env = (n : ℕ) (t : Tables) → Later t (env.others n t)

pub considerate-IsStable : (env : Env) → IsConsiderate env → (c : Tables) → IsStable env (Later c)
considerate-IsStable env others c n t h = Later-then c t (env.others n t) h (others n t)

-- What no allowed change can undo is kept by an action that makes only allowed changes.
pub Keeps-closed :
    (env : Env) (H : Tables → Type 0) {A : Type 0} (m : Act A)
    → ((c t : Tables) → Later c t → H c → H t)
    → ((c : Tables) → Keeps env (Later c) m)
    → Keeps env H m
Keeps-closed env H {A} m closed k = record {
  ends = record {
    at = λ w h. go (m env w).0 (m env w).1.tables (
        closed w.tables (m env w).1.tables
          (Keeps-at env (Later w.tables) m (k w.tables) w (Later-same w.tables)) h);
  };
}
  where
    go : (r : Result Error A) (t : Tables) → H t → Post (λ a. H) (λ e. H) r t
    go (ok a) t x = x
    go (err e) t x = x
