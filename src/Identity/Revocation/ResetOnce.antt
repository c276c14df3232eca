-- ===== src/Identity/Revocation/ResetOnce.antt =====
-- ConfirmPasswordReset (service.go), from the request on: what it leaves, and a second use of its token.
use stream_weave.Prelude.{
  ℕ, ◌≡◌, ◌≢◌, refl, sym, subst, String, Bool, true, false, not, Option, none, some, is_some,
  find_first, Result, ok, err,
}
use stream_weave.Identity.Model.{Instant, Error, invalid_credentials, OneTimeToken, is_token_usable}
use stream_weave.Identity.Tables.{TokenRow, Tables}
use stream_weave.Identity.Monad.{Env, World, fail, guard, consult, ask}
use stream_weave.Identity.Accounts.{one_row}
use stream_weave.Identity.Secrets.{has_token_hash, get_reset_token}
use stream_weave.Identity.Store.{find_reset_token, map_token}
use stream_weave.Identity.Service.Recovery.{usable_token, confirm_with, confirm_password_reset}
use stream_weave.Identity.Requests.{Reaches}
use stream_weave.Identity.Ends.{
  Ends, Post, Ends-pure, Ends-fail, Ends-consult, Ends-answer, Ends-select, Ends-transaction,
  Ends-attempt, Ends-bind,
}
use stream_weave.Identity.History.{IsConsiderate}
use stream_weave.Identity.History.Requests.{requests_kept}
use stream_weave.Identity.Revocation.{Post-ok}
use stream_weave.Identity.Revocation.Reset.{
  Held, Done, Used, Ours, Ours-closed, Used-later, reset_body-Done,
}

module _ (env : Env) (others : IsConsiderate env) where
  -- A step that does not change the tables keeps what holds of them.
  guarded :
      (P : Tables → Type 0) (b : Bool) (e : Error) → Ends env P (guard b e) (λ x. P) (λ e t. Unit)
  guarded P true e = Ends-fail _ _ _ _ _ (λ t d. tt)
  guarded P false e = Ends-pure _ _ _ _ _ (λ t d. d)

  consulted :
      (P : Tables → Type 0) {A : Type 0} (f : Env → ℕ → A)
      → Ends env P (consult f) (λ a. P) (λ e t. Unit)
  consulted P f = Ends-consult _ _ _ _ f (λ n t k. k)

  asked :
      (P : Tables → Type 0) {A : Type 0} (f : Env → ℕ → Option A)
      → Ends env P (ask f) (λ a. P) (λ e t. Unit)
  asked P f =
      Ends-bind _ _ (λ a. P) _ _ _ _ (consulted P f)
        (λ o. Ends-answer _ _ _ _ o (λ a t e k. k) (λ t k. tt))

  found_row :
      (h : String) (t : Tables) (a : TokenRow)
      → one_row (find_first (has_token_hash h) t.reset_tokens) ≡ ok a
      → find_first (has_token_hash h) t.reset_tokens ≡ some a
  found_row h t a e = go (find_first (has_token_hash h) t.reset_tokens) e
    where
      go : (o : Option TokenRow) → one_row o ≡ ok a → o ≡ some a
      go none x = cc
      go (some b) x = cc

  find_reset_token-Held :
      (h : String)
      → Ends env (λ t. Unit) (find_reset_token h) (λ k t. Held h k t.reset_tokens) (λ e t. Unit)
  unfolding find_reset_token get_reset_token
  find_reset_token-Held h =
      Ends-bind _ _ (λ row t. find_first (has_token_hash h) t.reset_tokens ≡ some row) _ _ _ _
        (Ends-select _ _ _ _ _ (λ n t k. tt) (λ a t e k. found_row h t a e) (λ e t k. tt)
          (λ t k. tt))
        λ row.
          Ends-pure _ _ _ _ (map_token row)
            (λ t k. record { row = row; found = k; id = refl; user_id = refl })

  usable_token-Ends :
      (Q : OneTimeToken → Tables → Type 0) (r : Result Error OneTimeToken)
      → Ends env (Post Q (λ e t. Unit) r) (usable_token r) Q (λ e t. Unit)
  unfolding usable_token
  usable_token-Ends Q (err e) = Ends-fail _ _ _ _ _ (λ t k. tt)
  usable_token-Ends Q (ok k) =
      Ends-bind _ _ (λ a. Q k) _ _ _ _ (consulted (Q k) _)
        λ at.
          Ends-bind _ _ (λ a. Q k) _ _ _ _ (guarded (Q k) _ _) λ x. Ends-pure _ _ _ _ k (λ t q. q)

  module _ (h : String) where
    confirm_with-Done :
        (password correlation : String)
        → Ends env (λ t. Unit) (confirm_with h password correlation) (λ x. Done h) (λ e t. Unit)
    unfolding confirm_with
    confirm_with-Done password correlation =
        Ends-bind _ _ _ _ _ _ _ (Ends-attempt _ _ _ _ _ _ (find_reset_token-Held h)) λ r.
          Ends-bind _ _ _ _ _ _ _ (usable_token-Ends (λ k. Ours env others h k) r) λ k.
            Ends-bind _ _ (λ a. Ours env others h k) _ _ _ _ (asked _ _)
              λ hash.
                Ends-bind _ _ (λ a. Ours env others h k) _ _ _ _ (consulted _ _)
                  λ at.
                    Ends-transaction _ _ _ _ (λ e. Unit) _
                      (λ n t x. Ours-closed env others h k t (env.others n t) (others n t) x)
                      (reset_body-Done env others h k hash correlation at) (λ e t x d. tt)
                      (λ t d. tt)

    find_reset_token-Used :
        Ends env
          (λ t. Used h t.reset_tokens)
          (find_reset_token h)
          (λ k t. is_some k.consumed_at ≡ true)
          (λ e t. Unit)
    unfolding find_reset_token get_reset_token
    find_reset_token-Used =
        Ends-bind _ _ (λ row t. is_some row.consumed_at ≡ true) _ _ _ _
          (Ends-select _ _ _ _ _ (λ n t x. Used-later h t (env.others n t) (others n t) x)
            (λ a t e x.
              let same : x.row ≡ a = cc (rw x.found at (found_row h t a e)) in
              subst (λ r. is_some r.consumed_at ≡ true) same x.used)
            (λ e t k. tt) (λ t k. tt))
          λ row. Ends-pure _ _ _ _ (map_token row) (λ t x. x)

    usable_token-none :
        (r : Result Error OneTimeToken)
        → Ends env
            (Post (λ k t. is_some k.consumed_at ≡ true) (λ e t. Unit) r)
            (usable_token r)
            (λ k t. ⊥)
            (λ e t. Unit)
    unfolding usable_token is_token_usable fail
    usable_token-none (err e) = Ends-fail _ _ _ _ _ (λ t k. tt)
    usable_token-none (ok k) =
        Ends-bind _ _ (λ a t. is_some k.consumed_at ≡ true) _ _ _ _ (consulted _ _)
          λ at. Ends-bind _ _ (λ a t. ⊥) _ _ _ _ (used at) λ x. Ends-pure _ _ _ _ k (λ t q. q)
      where
        used :
            (at : Instant)
            → Ends env
                (λ t. is_some k.consumed_at ≡ true)
                (guard (not (is_token_usable k at)) invalid_credentials)
                (λ x t. ⊥)
                (λ e t. Unit)
        used at = record { at = λ w u. rw u tt }

    confirm_with-none :
        (password correlation : String)
        → Ends env
            (λ t. Used h t.reset_tokens)
            (confirm_with h password correlation)
            (λ x t. ⊥)
            (λ e t. Unit)
    unfolding confirm_with
    confirm_with-none password correlation =
        Ends-bind _ _ _ _ _ _ _ (Ends-attempt _ _ _ _ _ _ find_reset_token-Used)
          λ r. Ends-bind _ _ _ _ _ _ _ (usable_token-none r) λ k. record { at = λ w x. elim x [ ] }

  -- The request up to the hash of its token
  prefix-Ends :
      (P : Tables → Type 0) (Q : Tables → Type 0) (token password correlation : String)
      → Ends env P
          (confirm_with (env.hash_opaque token) password correlation)
          (λ x. Q)
          (λ e t. Unit)
      → Ends env P (confirm_password_reset token password correlation) (λ x. Q) (λ e t. Unit)
  unfolding confirm_password_reset
  prefix-Ends P Q token password correlation k =
      Ends-bind _ _ (λ x. P) _ _ _ _ (guarded P _ _)
        λ x.
          Ends-bind _ _ (λ a t. (a ≡ env.hash_opaque token) × P t) _ _ _ _
            (Ends-consult _ _ _ _ _ (λ n t h. (refl, h)))
            λ a. record {
              at = λ w (e, h).
                  subst
                    (λ v.
                      Post (λ x. Q) (λ e t. Unit) (confirm_with v password correlation env w).0
                        (confirm_with v password correlation env w).1.tables)
                    (sym e) (k.at w h);
            }

  -- After a password reset is confirmed, its token is consumed, and every session of its user is
  -- REVOKED, in the committed tables, whatever other requests do that keeps to the allowed changes of
  -- rows.
  pub reset_ends :
      (token password correlation : String) (w : World) (x : Unit {0})
      → (confirm_password_reset token password correlation env w).0 ≡ ok x
      → Done
          (env.hash_opaque token)
          (confirm_password_reset token password correlation env w).1.tables
  reset_ends token password correlation w x e =
      Post-ok env (λ x. Done (env.hash_opaque token)) (λ e t. Unit) _
        (prefix-Ends (λ t. Unit) (Done (env.hash_opaque token)) token password correlation
          (confirm_with-Done (env.hash_opaque token) password correlation))
        w x e

  second_reset :
      (token password correlation : String) (w : World) (x : Unit {0})
      → Used (env.hash_opaque token) w.tables.reset_tokens
      → (confirm_password_reset token password correlation env w).0 ≢ ok x
  second_reset token password correlation w x u e =
      subst
        (λ r.
          Post (λ x t. ⊥) (λ e t. Unit) r
            (confirm_password_reset token password correlation env w).1.tables)
        e
        ((prefix-Ends (λ t. Used (env.hash_opaque token) t.reset_tokens) (λ t. ⊥) token password
            correlation (confirm_with-none (env.hash_opaque token) password correlation)).at
          w u)

-- A reset token is good for one password reset: after one that succeeds, no later one with the same
-- token does, whatever requests are served in between, whatever fails, and whatever other requests do
-- that keeps to the allowed changes of rows.
pub reset_once :
    (env : Env) (token password correlation next cause : String) (w v : World) (x y : Unit {0})
    → IsConsiderate env
    → (confirm_password_reset token password correlation env w).0 ≡ ok x
    → Reaches env (confirm_password_reset token password correlation env w).1 v
    → (confirm_password_reset token next cause env v).0 ≢ ok y
reset_once env token password correlation next cause w v x y others e run =
    let d = reset_ends env others token password correlation w x e in
    second_reset env others token next cause v y (
      Used-later (env.hash_opaque token) _ v.tables (requests_kept env _ v others run)
        (record { row = d.row; found = d.found; used = d.used }))
