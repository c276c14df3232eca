-- ===== src/Identity/Service/Admin.antt =====
-- ChangeUserStatus, AssignRole and RemoveRole of service.go.
use stream_weave.Prelude.{String, not, ◌&&◌, ◌==◌, leb, some, str_eq, if◌then◌else◌}
use stream_weave.Identity.Model.{
  Instant, UserStatus, active, disabled, eqb_user_status, conflict, not_found,
}
use stream_weave.Identity.Monad.{Act, skip, guard, now, with_transaction, ◌>>=◌, ◌>>◌}
use stream_weave.Identity.Store.{
  find_role, revoke_user_sessions, update_user_status, assign_role, remove_role, has_active_role,
  count_active_administrators,
}
use stream_weave.Identity.Service.{user_ref, record_audit}

-- The test that an administrator is not the last one.
unfoldable pub keep_administrator : String → Act (Unit {0})
keep_administrator target = do
  is_admin ← has_active_role target "admin"
  if is_admin then (count_active_administrators >>= λ n. guard (leb n 1) conflict) else skip

abbrev pub admin_audit : String → String → String → String → String → Instant → Act (Unit {0})
admin_audit action actor target correlation role at = record_audit (record {
  action = action;
  outcome = "success";
  actor_id = user_ref actor;
  actor_type = "user";
  target_id = user_ref target;
  correlation_id = correlation;
  role = role;
  at = at;
})

unfoldable pub status_body : String → UserStatus → String → String → Instant → Act (Unit {0})
unfolding keep_administrator user_ref
status_body target status actor correlation at = do
  (if eqb_user_status status disabled then keep_administrator target else skip)
  updated ← update_user_status target status at
  guard (updated == 0) not_found
  (if eqb_user_status status disabled then revoke_user_sessions target at "user_disabled" else skip)
  admin_audit (if eqb_user_status status disabled then "user.disabled" else "user.enabled") actor
      target correlation "" at

unfoldable pub change_user_status : String → UserStatus → String → String → Act (Unit {0})
unfolding status_body
change_user_status target status actor correlation = do
  guard (not (eqb_user_status status active) && not (eqb_user_status status disabled)) conflict
  at ← now
  with_transaction (status_body target status actor correlation at)

unfoldable pub grant_body : String → String → String → String → Instant → Act (Unit {0})
unfolding user_ref
grant_body target actor role correlation at = do
  assigned ← assign_role target role at (some actor)
  guard (assigned == 0) not_found
  admin_audit "role.assigned" actor target correlation role at

-- Service.AssignRole
unfoldable pub grant_role : String → String → String → String → Act (Unit {0})
unfolding grant_body
grant_role target actor role correlation = do
  find_role role
  at ← now
  with_transaction (grant_body target actor role correlation at)

unfoldable pub withdraw_body : String → String → String → String → Instant → Act (Unit {0})
unfolding keep_administrator user_ref
withdraw_body target actor role correlation at = do
  (if str_eq role "admin" then keep_administrator target else skip)
  removed ← remove_role target role
  guard (removed == 0) not_found
  admin_audit "role.removed" actor target correlation role at

-- Service.RemoveRole
unfoldable pub withdraw_role : String → String → String → String → Act (Unit {0})
unfolding withdraw_body
withdraw_role target actor role correlation = do
  at ← now
  with_transaction (withdraw_body target actor role correlation at)
