-- ===== src/Auth.antt =====
-- Registration, login and recovery: redux/auth/authThunk.ts and pages/authentication.
pub mod Thunk
pub mod Entrance
pub mod Screen
pub mod Codes
pub mod Recover
pub mod Arrive
use mpc_main.Prelude.{Option, List, Text}
use mpc_main.Store.{AuthAction}
use mpc_main.Ui.{Effect}

-- The fields of the two forms.
pub record Credentials : Type 0 where
  pub email : Text
  pub password : Text

-- The requests of these pages (services/api/auth.api.ts).
pub data Request : Type 0 where
  login signup resend_otp : Credentials → Request
  verify_login verify_register : Text → Text → Request
  security_code : Text → Request
  forgot_password : Text → Request
  reset_password : Option Text → Text → Text → Request

abbrev pub Effects : Type 0
Effects = List (Effect Request)
