-- ===== src/Identity/Rotation.antt =====
-- Refresh: a refresh token is used at most once, and a token that is used again ends its family.
pub mod Statements
pub mod Outcome
pub mod Refresh
pub mod Once
use stream_weave.Prelude.{
  ℕ, ◌≡◌, ◌≢◌, refl, sym, ◌∙◌, subst, ap, String, Bool, true, false, not, ◌||◌, ◌&&◌, Option, none,
  some, List, [], ◌∷◌, arith, str_eq, all_rows, find_first, update_rows, if◌then◌else◌, Result, ok,
  err,
}
use stream_weave.Identity.Model.{
  SessionStatus, live, rotated, revoked, is_live, is_revoked, Session,
}
use stream_weave.Identity.Tables.{SessionRow, Tables}
use stream_weave.Identity.Sessions.{has_hash, in_family}
use stream_weave.Identity.History.{Grows, Grows-find, Becomes, Later, may_become}

-- The row with the hash of a refresh token is that of the session.
pub record Known (h : String) (s : Session) (rows : List SessionRow) : Type 0 where
  pub row : SessionRow
  pub found : find_first (has_hash h) rows ≡ some row
  pub id : row.id ≡ s.id
  pub family : row.family_id ≡ s.family_id

-- The session of a refresh token is not ACTIVE.
pub record Spent (h : String) (rows : List SessionRow) : Type 0 where
  pub row : SessionRow
  pub found : find_first (has_hash h) rows ≡ some row
  pub over : is_live row.status ≡ false

abbrev pub family_revoked : String → List SessionRow → Bool
family_revoked family = all_rows (λ r. not (in_family family r) || is_revoked r.status)

-- The session of a refresh token, and every session of its family, is REVOKED.
pub record Ended (h : String) (rows : List SessionRow) : Type 0 where
  pub row : SessionRow
  pub found : find_first (has_hash h) rows ≡ some row
  pub gone : family_revoked row.family_id rows ≡ true

pub not_live : (s r : SessionStatus) → may_become s r ≡ true → is_live s ≡ false → is_live r ≡ false
not_live live r h e = cc
not_live rotated live h e = cc
not_live rotated rotated h e = refl
not_live rotated revoked h e = refl
not_live revoked live h e = cc
not_live revoked rotated h e = cc
not_live revoked revoked h e = refl

module _ (h : String) (c t : Tables) (later : Later c t) where
  pub row_later :
      (a : SessionRow)
      → find_first (has_hash h) c.sessions ≡ some a
      → (b : SessionRow) × (find_first (has_hash h) t.sessions ≡ some b) × Becomes a b
  row_later a e =
      Grows-find Becomes (has_hash h) (λ x y s. ap (λ v. str_eq v h) s.hash) c.sessions t.sessions a
        later.sessions e

  pub Known-later : (s : Session) → Known h s c.sessions → Known h s t.sessions
  Known-later s k =
      let (b, found, step) = row_later k.row k.found in
      record { row = b; found = found; id = step.id ∙ k.id; family = step.family_id ∙ k.family }

  pub Spent-later : Spent h c.sessions → Spent h t.sessions
  Spent-later k =
      let (b, found, step) = row_later k.row k.found in
      record { row = b; found = found; over = not_live k.row.status b.status step.status k.over }
