-- ===== src/Auth/Codes.antt =====
-- The pages with a code of six characters: verify_login.tsx, verify_register.tsx and
-- setup_security_code.tsx, each up to its request and from its answer on.
pub mod Guarded
pub mod Resend
use mpc_main.Prelude.{
  ℕ, ◌+◌, ◌-◌, ◌/◌, String, Bool, true, false, Option, none, some, [], ◌∷◌, ltb, ◌==◌,
  if◌then◌else◌, truthy, or_text, length, Text, is_empty,
}
use mpc_main.Store.{AuthState, add_access_token, clear_message, Form}
use mpc_main.Ui.{
  Effect, success, failure, notice, navigate_after, dispatch, send, raised, Reply, answered, threw,
  Failure, network, refused, message_or, Body,
}
use mpc_main.Auth.{
  Request, verify_login, verify_register, security_code, Effects, Credentials, resend_otp,
}

-- verify_login.tsx
pub record LoginCode : Type 0 where
  pub otp : Text
  pub is_loading : Bool

unfoldable pub change_login : Text → LoginCode → Text → LoginCode × Effects
change_login email s value =
    if length value == 6
    then (record { otp = value; is_loading = true }, send (verify_login email value) ∷ [])
    else (record s { otp = value }, [])

-- The `catch` reads `response.data` with no test, so that without a response it raises an error of
-- its own; `finally` runs all the same.
unfoldable pub finish_login : LoginCode → Reply (Body String) → LoginCode × Effects
finish_login s (answered status body) = (
  record s { is_loading = false },
  if status == 200
      then success (some "Đăng nhập thành công!")
        ∷ dispatch (add_access_token body.content)
        ∷ navigate_after 2000 "/"
        ∷ []
      else [],
)
finish_login s (threw network) = (record s { is_loading = false }, raised ∷ [])
finish_login s (threw (refused m)) = (record s { is_loading = false }, failure m ∷ [])

-- The page is there only for a user who has sent the login form.
pub data LoginView : Type 0 where
  not_found : LoginView
  boxes : Text → Bool → LoginView

pub view_login : AuthState → LoginCode → LoginView
view_login auth s =
    if is_empty auth.login.login_user.email
    then not_found
    else boxes auth.login.login_user.email s.is_loading

-- verify_register.tsx: `count` is the number of codes that were asked for again.
pub record RegisterCode : Type 0 where
  pub otp : Text
  pub count : ℕ
  pub is_loading : Bool
  pub error : String

unfoldable pub change_register : Text → RegisterCode → Text → RegisterCode × Effects
change_register email s value =
    if length value == 6
    then (record s { otp = value; is_loading = true }, send (verify_register email value) ∷ [])
    else (record s { otp = value }, [])

-- `toast.error(m); setError(m)`; a missing message is an empty one.
abbrev failed_with : RegisterCode → Option String → RegisterCode × Effects
failed_with s m = (record s { is_loading = false; error = or_text m "" }, failure m ∷ [])

unfoldable pub finish_register : RegisterCode → Reply (Body String) → RegisterCode × Effects
finish_register s (answered status body) =
    if status == 200
    then (
      record s { is_loading = false },
      success body.message
          ∷ dispatch (add_access_token body.content)
          ∷ navigate_after 2000 "/auth/register/security-code"
          ∷ [],
    )
    else failed_with s body.message
finish_register s (threw f) = failed_with s (some (message_or f "Đã xảy ra lỗi"))

-- `handleResendOTP`, and what follows the answer in `resend`.
unfoldable pub resend : Credentials → RegisterCode → RegisterCode × Effects
resend user s =
    if ltb 2 s.count
    then (s, failure (some "Bạn đã đạt tới số lần gửi lại OTP tối đa.") ∷ [])
    else (record s { count = s.count + 1; is_loading = true }, send (resend_otp user) ∷ [])

unfoldable pub finish_resend : RegisterCode → Reply (Option String) → RegisterCode × Effects
finish_resend s (answered status message) =
    if status == 200
    then (record s { is_loading = false }, success message ∷ [])
    else failed_with s message
finish_resend s (threw f) = failed_with s (some (message_or f "Đã xảy ra lỗi!"))

-- setup_security_code.tsx, whose request is sent by a button.
pub record SecurityCode : Type 0 where
  pub security : Text
  pub is_loading : Bool
  pub error : Bool

unfoldable pub submit_security : SecurityCode → SecurityCode × Effects
submit_security s =
    if length s.security == 6
    then (record s { is_loading = true }, send (security_code s.security) ∷ [])
    else (record s { error = true }, failure (some "Mã bảo mật phải có 6 ký tự.") ∷ [])

unfoldable pub finish_security : SecurityCode → Reply (Option String) → SecurityCode × Effects
finish_security s (answered status message) =
    if status == 200
    then (
      record s { is_loading = false; error = false },
      success message ∷ navigate_after 1000 "/" ∷ [],
    )
    else (
      record s { is_loading = false; error = true },
      if status == 401
          then failure (some "Phiên của bạn đã hết hạn!")
            ∷ navigate_after 1000 "/auth/register"
            ∷ []
          else failure message ∷ [],
    )
finish_security s (threw f) = (
  record s { is_loading = false; error = true },
  failure (some (message_or f "Đã xảy ra lỗi")) ∷ [],
)

-- The notice on arrival: `location.state?.message`.
pub arrive_security : Option String → Effects
arrive_security none = []
arrive_security (some m) = if truthy m then notice (some m) ∷ [] else []
