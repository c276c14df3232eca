-- ===== src/Identity/Rotation/Statements.antt =====
-- What the statements of Refresh do to the session of the token and to its family.
use stream_weave.Prelude.{
  ℕ, ◌≡◌, refl, ◌∙◌, String, true, false, not, ◌&&◌, some, List, [], ◌∷◌, arith, find_first,
  update_rows, find_first-update_rows, Bool-cases, inl, inr, eq_refl, ok, subst,
}
use stream_weave.Identity.Model.{Instant, is_live, is_revoked}
use stream_weave.Identity.Tables.{SessionRow, Tables}
use stream_weave.Identity.Sessions.{
  has_hash, in_family, is_active_session, rotated_row, revoked_row, rotation_dangles, set_rotated,
}
use stream_weave.Identity.Rotation.{Spent, family_revoked}

-- RevokeSessionFamily leaves no session of the family that is not REVOKED.
pub revoke-family_revoked :
    (family reason : String) (at : Instant) (rows : List SessionRow)
    → family_revoked family (
        update_rows
          (λ s. in_family family s && not (is_revoked s.status))
          (revoked_row at reason)
          rows)
      ≡ true
revoke-family_revoked family reason at [] = refl
revoke-family_revoked family reason at (r ∷ rows) =
    ground (arith, revoke-family_revoked family reason at rows)

-- RotateSession leaves the session not ACTIVE, whether it changed it or not.
pub rotate-over :
    (h id replacement : String) (at : Instant) (rows : List SessionRow) (row : SessionRow)
    → find_first (has_hash h) rows ≡ some row
    → row.id ≡ id
    → (new : SessionRow) × (find_first
          (has_hash h)
          (update_rows (is_active_session id) (rotated_row replacement at) rows)
        ≡ some new)
      × (is_live new.status ≡ false)
rotate-over h id replacement at rows row e i =
    let changed =
      find_first-update_rows (has_hash h) (is_active_session id) (rotated_row replacement at)
        (λ x. refl) rows in
    elim (Bool-cases (is_active_session id row)) [
      | inl x ↦ (rotated_row replacement at row, changed ∙ rw (e, x) refl, refl)
      | inr x ↦ (row, changed ∙ rw (e, x) refl, rw (i, eq_refl id) at x)
    ]

-- The same of the statement, where it succeeds.
pub set_rotated-Spent :
    (h id replacement : String) (at : Instant) (n : ℕ) (t t' : Tables) (row : SessionRow)
    → set_rotated id replacement at t ≡ ok (n, t')
    → find_first (has_hash h) t.sessions ≡ some row
    → row.id ≡ id
    → Spent h t'.sessions
unfolding set_rotated
set_rotated-Spent h id replacement at n t t' row e f i =
    let (new, found, over) = rotate-over h id replacement at t.sessions row f i in
    subst (Spent h) same (record { row = new; found = found; over = over })
  where
    same : update_rows (is_active_session id) (rotated_row replacement at) t.sessions ≡ t'.sessions
    same = elim (Bool-cases (rotation_dangles id replacement t)) [
      | inl x ↦ cc (rw x at e)
      | inr x ↦ cc (rw x at e)
    ]
