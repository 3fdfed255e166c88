-- ===== src/Auth/Entrance.antt =====
-- The forms of login.tsx and register.tsx, up to the request.
use mpc_main.Prelude.{
  String, ◌≡◌, ◌↔◌, ◌⊎◌, true, not, some, [], ◌∷◌, arith, if◌then◌else◌, truthy, Text, text_eq,
  text_eq_sound, text_eq_refl,
}
use mpc_main.Ui.{failure, field_error, dispatch, sends}
use mpc_main.Store.{clear_error, Form}
use mpc_main.Validation.Email.{email_valid, IsEmail, email_valid_iff}
use mpc_main.Validation.Password.{validate_password}
use mpc_main.Auth.{Credentials, login, signup, Effects}
use mpc_main.Auth.Thunk.{login_begin, register_begin}

-- `handleLogin`
unfoldable pub handle_login : Credentials → Effects
handle_login user =
    if not (email_valid user.email)
    then failure (some "Email không hợp lệ.") ∷ []
    else login_begin user

-- The fields of the registration.
pub record Fields : Type 0 where
  pub email : Text
  pub password : Text
  pub confirm_password : Text

abbrev refuse : String → String → Effects
refuse field message = field_error field message ∷ failure (some message) ∷ []

abbrev weak_password : String
weak_password =
    "Mật khẩu phải chứa ít nhất 8 ký tự, bao gồm chữ hoa, chữ thường, chữ số và ký tự đặc biệt."

-- `onSubmit`, with `handleRegistration`
unfoldable pub register_submit : Fields → Effects
register_submit f =
    if not (text_eq f.password f.confirm_password)
    then refuse "confirmPassword" "Mật khẩu không khớp. Vui lòng thử lại!"
    else if not (validate_password f.password)
    then refuse "password" weak_password
    else if not (email_valid f.email)
    then refuse "email" "Email không hợp lệ."
    else register_begin (record { email = f.email; password = f.password })

-- The two effects of login.tsx and register.tsx that show an error once and clear it.
pub show_error : String → Form → Effects
show_error message form =
    if truthy message then failure (some message) ∷ dispatch (clear_error form) ∷ [] else []

-- The login form sends its request exactly when the email is of the form of an email, and then with
-- the fields as they stand. So a user name, which the field's hint offers, is never sent.
pub handle_login-sends :
    (user : Credentials) → (sends (handle_login user) ≡ login user ∷ []) ↔ IsEmail user.email
unfolding handle_login login_begin
handle_login-sends user = (
  λ h. (email_valid_iff user.email).0 (ground arith),
  λ h. let ok = (email_valid_iff user.email).1 h in ground arith,
)

-- The registration form sends its request exactly when both passwords are the same, the password
-- meets the rules and the email is of the form of an email; in every other case it sends none.
pub register_submit-sends :
    (f : Fields)
    → ((sends (register_submit f) ≡ signup (record { email = f.email; password = f.password }) ∷ [])
        ↔ ((f.password ≡ f.confirm_password)
            × (validate_password f.password ≡ true)
            × IsEmail f.email))
      × ((sends (register_submit f) ≡ [])
          ⊎ (sends (register_submit f)
              ≡ signup (record { email = f.email; password = f.password }) ∷ []))
unfolding register_submit register_begin
register_submit-sends f = (
  (
    λ h. (
      text_eq_sound f.password f.confirm_password (ground arith),
      ground arith,
      (email_valid_iff f.email).0 (ground arith),
    ),
    λ h.
        let same : text_eq f.password f.confirm_password ≡ true =
          rw (h.0) (text_eq_refl f.confirm_password) in
        let valid = h.1 in let ok = (email_valid_iff f.email).1 h.2 in ground arith,
  ),
  ground arith,
)
