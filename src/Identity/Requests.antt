-- ===== src/Identity/Requests.antt =====
-- The operations of the identity service that may change its tables, and runs of them.
use stream_weave.Prelude.{String, List}
use stream_weave.Identity.Model.{UserStatus, RegisterInput, LoginInput, RefreshInput}
use stream_weave.Identity.Monad.{Env, World, Act, ◌>>◌, skip}
use stream_weave.Identity.Service.Signin.{register, login, logout, logout_all}
use stream_weave.Identity.Service.Refresh.{refresh}
use stream_weave.Identity.Service.Admin.{change_user_status, grant_role, withdraw_role}
use stream_weave.Identity.Service.Recovery.{
  request_password_reset, confirm_password_reset, confirm_email,
}
use stream_weave.Identity.Service.Machine.{service_token}

pub data Request : Type 0 where
  to_register : RegisterInput → Request
  to_log_in : LoginInput → Request
  to_refresh : RefreshInput → Request
  to_log_out : String → String → String → Request
  to_log_out_all : String → String → Request
  to_change_status : String → UserStatus → String → String → Request
  to_grant : String → String → String → String → Request
  to_withdraw : String → String → String → String → Request
  to_request_reset : String → String → String → Request
  to_confirm_reset : String → String → String → Request
  to_confirm_email : String → String → Request
  to_get_token : String → String → List String → String → String → Request

-- A request, its answer dropped.
unfoldable pub serve : Request → Act (Unit {0})
serve (to_register i) = register i >> skip
serve (to_log_in i) = login i >> skip
serve (to_refresh i) = refresh i >> skip
serve (to_log_out user session correlation) = logout user session correlation
serve (to_log_out_all user correlation) = logout_all user correlation
serve (to_change_status target status actor correlation) =
    change_user_status target status actor correlation
serve (to_grant target actor role correlation) = grant_role target actor role correlation
serve (to_withdraw target actor role correlation) = withdraw_role target actor role correlation
serve (to_request_reset email source correlation) = request_password_reset email source correlation
serve (to_confirm_reset token password correlation) =
    confirm_password_reset token password correlation
serve (to_confirm_email token correlation) = confirm_email token correlation
serve (to_get_token client secret scopes source correlation) =
    service_token client secret scopes source correlation >> skip

-- The worlds that requests, whether they are answered or refused, lead to one after another.
pub data Reaches (env : Env) (w : World) : World → Type 0 where
  here : Reaches env w w
  served : {v : World} (r : Request) → Reaches env w v → Reaches env w (serve r env v).1
