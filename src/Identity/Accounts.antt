-- ===== src/Identity/Accounts.antt =====
-- The statements on users and roles (generated/identity.sql.go of the identity service).
use stream_weave.Prelude.{
  ℕ, String, Bool, true, not, ◌&&◌, ◌||◌, Option, none, some, List, [], ◌∷◌, ◌++◌, str_eq,
  if◌then◌else◌, is_some, find_first, filter_by, update_rows, count_rows, Result, ok, err, map,
}
use stream_weave.Sorting.{str_leb, sort_by}
use stream_weave.Identity.Model.{
  Instant, User, UserStatus, active, pending_verification, eqb_user_status, RolePermission,
}
use stream_weave.Identity.Tables.{RoleRow, PermissionRow, RolePermissionRow, UserRoleRow, Tables}
use stream_weave.Identity.Monad.{Query, DbError, no_rows, unique_violation, db_failure}

-- A statement marked :one
abbrev pub one_row : {A : Type 0} → Option A → Result DbError A
one_row none = err no_rows
one_row (some a) = ok a

abbrev pub has_id : String → User → Bool
has_id id u = str_eq u.id id

abbrev pub has_email : String → User → Bool
has_email email u = str_eq u.email_normalized email

unfoldable pub get_user_by_email : String → Tables → Result DbError User
get_user_by_email email t = one_row (find_first (has_email email) t.users)

unfoldable pub get_user_by_id : String → Tables → Result DbError User
get_user_by_id id t = one_row (find_first (has_id id) t.users)

-- The row that CreateUser inserts
abbrev user_row : User → User
user_row u = record u { email_verified_at = none; updated_at = u.created_at }

unfoldable pub insert_user : User → Query User
insert_user u t =
    if is_some (find_first (λ r. has_id u.id r || has_email u.email_normalized r) t.users)
    then err unique_violation
    else ok (user_row u, record t { users = t.users ++ user_row u ∷ [] })

unfoldable pub set_user_status : String → UserStatus → Instant → Query ℕ
set_user_status id status at t = ok (
  count_rows (has_id id) t.users,
  record t {
    users = update_rows (has_id id) (λ u. record u { status = status; updated_at = at }) t.users;
  },
)

unfoldable pub set_password : String → String → Instant → Query (Unit {0})
set_password id hash at t = ok (
  tt,
  record t {
    users =
        update_rows (has_id id) (λ u. record u { password_hash = hash; updated_at = at }) t.users;
  },
)

abbrev pub awaits_verification : String → User → Bool
awaits_verification id u = has_id id u && eqb_user_status u.status pending_verification

unfoldable pub set_email_verified : String → Instant → Query ℕ
set_email_verified id at t = ok (
  count_rows (awaits_verification id) t.users,
  record t {
    users =
        update_rows (awaits_verification id)
          (λ u. record u { email_verified_at = some at; status = active; updated_at = at }) t.users;
  },
)

-- `name = $1 AND status = 'ACTIVE'` on roles
abbrev pub active_role : String → RoleRow → Bool
active_role name r = str_eq r.name name && r.enabled

unfoldable pub get_role_by_name : String → Tables → Result DbError RoleRow
get_role_by_name name t = one_row (find_first (active_role name) t.roles)

-- user_roles joined with the roles that pass the test
abbrev pub joins : List RoleRow → (RoleRow → Bool) → UserRoleRow → Bool
joins roles p ur = is_some (find_first (λ r. str_eq r.id ur.role_id && p r) roles)

abbrev pub is_grant : String → String → UserRoleRow → Bool
is_grant user role ur = str_eq ur.user_id user && str_eq ur.role_id role

abbrev known_user : List User → String → Bool
known_user users id = is_some (find_first (has_id id) users)

abbrev known_assigner : List User → Option String → Bool
known_assigner users none = true
known_assigner users (some id) = known_user users id

abbrev pub assign : String → Instant → Option String → Option RoleRow → Query ℕ
assign user at by none t = ok (0, t)
assign user at by (some r) t =
    if is_some (find_first (is_grant user r.id) t.user_roles)
    then ok (0, t)
    else if not (known_user t.users user && known_assigner t.users by)
    then err db_failure
    else ok (
      1,
      record t {
        user_roles =
            t.user_roles
            ++ (record { user_id = user; role_id = r.id; assigned_at = at; assigned_by = by }) ∷ [];
      },
    )

-- AssignRole
unfoldable pub insert_user_role : String → String → Instant → Option String → Query ℕ
insert_user_role user role at by t = assign user at by (find_first (active_role role) t.roles) t

abbrev pub removed_by : List RoleRow → String → String → UserRoleRow → Bool
removed_by roles user role ur = str_eq ur.user_id user && joins roles (λ r. str_eq r.name role) ur

-- RemoveRole
unfoldable pub delete_user_role : String → String → Query ℕ
delete_user_role user role t = ok (
  count_rows (removed_by t.roles user role) t.user_roles,
  record t { user_roles = filter_by (λ ur. not (removed_by t.roles user role ur)) t.user_roles },
)

abbrev pub holds_role : List RoleRow → String → String → UserRoleRow → Bool
holds_role roles user role ur = str_eq ur.user_id user && joins roles (active_role role) ur

-- HasActiveRole
unfoldable pub exists_active_role : String → String → Query Bool
exists_active_role user role t =
    ok (is_some (find_first (holds_role t.roles user role) t.user_roles), t)

abbrev pub admin_rows : Tables → ℕ
admin_rows t = count_rows (joins t.roles (active_role "admin")) t.user_roles

-- CountActiveAdministrators
unfoldable pub count_administrators : Query ℕ
count_administrators t = ok (admin_rows t, t)

-- ListUserRoles. A join with no partner drops the row; ORDER BY compares the names by their characters.
abbrev name_of : List PermissionRow → String → List String
name_of [] id = []
name_of (p ∷ ps) id = if str_eq p.id id then p.name ∷ [] else name_of ps id

abbrev permission_names : List PermissionRow → String → List RolePermissionRow → List String
permission_names ps role [] = []
permission_names ps role (rp ∷ rps) =
    let rest = permission_names ps role rps in
    if str_eq rp.role_id role then name_of ps rp.permission_id ++ rest else rest

abbrev role_pairs : Tables → Option RoleRow → List RolePermission
role_pairs t none = []
role_pairs t (some r) =
    map (λ p. record { role = r.name; scope = p })
      (permission_names t.permissions r.id t.role_permissions)

abbrev user_pairs : Tables → String → List UserRoleRow → List RolePermission
user_pairs t user [] = []
user_pairs t user (ur ∷ urs) =
    let rest = user_pairs t user urs in
    if str_eq ur.user_id user
    then role_pairs t (find_first (λ r. str_eq r.id ur.role_id && r.enabled) t.roles) ++ rest
    else rest

abbrev pair_leb : RolePermission → RolePermission → Bool
pair_leb a b = if str_eq a.role b.role then str_leb a.scope b.scope else str_leb a.role b.role

unfoldable pub list_user_roles : String → Tables → Result DbError (List RolePermission)
list_user_roles user t = ok (sort_by pair_leb (user_pairs t user t.user_roles))
