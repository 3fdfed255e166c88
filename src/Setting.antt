-- ===== src/Setting.antt =====
-- The settings: components/setting/change_password.tsx, change_security_code.tsx, and the logout of
-- profile_tab.tsx.
pub mod Laws
pub mod Profile
use mpc_main.Prelude.{
  String, Bool, false, ◌||◌, Option, some, List, [], ◌∷◌, str_eq, ◌==◌, if◌then◌else◌, truthy, Text,
  text_eq, is_empty,
}
use mpc_main.Store.{remove_access_token}
use mpc_main.Ui.{
  Effect, success, failure, dispatch_after, send, close, raised, Reply, answered, threw, network,
  refused,
}

pub record FormData : Type 0 where
  pub old : Text
  pub new : Text
  pub confirm : Text

pub data Request : Type 0 where
  change_password change_security_code : FormData → Request
  log_out : Request

abbrev pub Effects : Type 0
Effects = List (Effect Request)

-- A form with the error that it shows; `names` are the fields of the form by their keys.
pub record Form : Type 0 where
  pub values : FormData
  pub error : String

pub record Names : Type 0 where
  pub old : String
  pub new : String
  pub confirm : String

abbrev pub password_names : Names
password_names = record {
  old = "old_password";
  new = "new_password";
  confirm = "confirmNewPassword";
}

abbrev pub code_names : Names
code_names = record { old = "old_code"; new = "new_code"; confirm = "confirm_code" }

-- `{ ...prevData, [field]: value }`
abbrev set_field : Names → String → Text → FormData → FormData
set_field names field value d =
    if str_eq field names.old
    then record d { old = value }
    else if str_eq field names.new
    then record d { new = value }
    else if str_eq field names.confirm
    then record d { confirm = value }
    else d

-- `handleInputChange`: both files test for the field "confirmNewPassword".
unfoldable pub input_change : Names → Form → String → Text → Form
input_change names s field value = record {
  values = set_field names field value s.values;
  error =
      if str_eq field "confirmNewPassword"
      then (if text_eq s.values.new value then "" else "Mật khẩu mới không khớp")
      else s.error;
}

abbrev incomplete : FormData → Bool
incomplete d = is_empty d.new || is_empty d.old || is_empty d.confirm

-- `handleSubmit` of the two files. The second has the test for an empty field twice.
unfoldable pub submit_password : Form → Effects
submit_password s =
    if incomplete s.values
    then failure (some "Vui lòng nhập mật khẩu") ∷ []
    else if truthy s.error
    then failure (some "Mật khẩu không khớp vui lòng nhập lại") ∷ []
    else send (change_password s.values) ∷ []

unfoldable pub submit_code : Form → Effects
submit_code s =
    if incomplete s.values
    then failure (some "Vui lòng nhập mật khẩu.") ∷ []
    else if incomplete s.values
    then failure (some "Mã bảo mật phải có 6 ký tự là chữ số.") ∷ []
    else if truthy s.error
    then failure (some "Mật khẩu không khớp vui lòng nhập lại.") ∷ []
    else send (change_security_code s.values) ∷ []

-- `onSuccess` and `onError` of change_password.tsx: the form is closed and emptied, or stays.
unfoldable pub finish_password : Form → Reply (Option String) → Form × Effects
finish_password s (answered status m) = (
  record s { values = record { old = []; new = []; confirm = [] } },
  success (some "Đổi mật khẩu thành công") ∷ close ∷ [],
)
finish_password s (threw network) = (s, raised ∷ [])
finish_password s (threw (refused m)) = (s, failure m ∷ [])

-- The same of change_security_code.tsx: the form is closed as it stands.
unfoldable pub finish_code : Form → Reply (Option String) → Form × Effects
finish_code s (answered status m) = (s, success (some "Đổi mật khẩu thành công") ∷ close ∷ [])
finish_code s (threw network) = (s, raised ∷ [])
finish_code s (threw (refused m)) = (s, failure m ∷ [])

-- `handleLogOut`: the token is removed a second after the server has agreed.
unfoldable pub finish_log_out : Bool → Reply (Option String) → Bool × Effects
finish_log_out is_open (answered status m) =
    if status == 200
    then (false, success m ∷ dispatch_after 1000 remove_access_token ∷ [])
    else (is_open, [])
finish_log_out is_open (threw f) = (is_open, raised ∷ [])
