-- ===== src/Auth/Screen.antt =====
-- What pages/authentication/login.tsx and register.tsx show, with
-- components/authentication/input_text.tsx and button_submit.tsx, and the two pages at work: the store,
-- and the requests that are on their way.
pub mod Single
use mpc_main.Prelude.{
  ℕ, zero, suc, ◌+◌, ◌-◌, ◌*◌, ◌/◌, ◌%◌, ◌^◌, ◌≤◌, ◌<◌, String, ◌≡◌, refl, sym, ap, ◌∙◌, ◌≢◌, ◌↔◌,
  ◌⊎◌, inl, inr, Bool, true, false, not, ◌&&◌, ◌||◌, Option, none, some, List, [], ◌∷◌, ◌++◌, map,
  arith, str_eq, eq_iff, eq_refl, ltb, leb, ◌==◌, if◌then◌else◌, Bool-cases, Option-cases,
  and-eq-true, truthy, or_text, length, take, drop, keep, find, any, all, length-take, length-drop,
  length-snoc, take-add, take_all, flat, flat-snoc, keep-append, keep_of_all, all-keep, all-take,
  all-drop, keep-keep, All, All-append, All-keep, Text, units, text_eq, text_eq_sound, text_eq_refl,
  is_empty, append_injective, String-cases,
}
use mpc_main.Views.{Item, label, icon, button, input, link}
use mpc_main.Store.{
  AuthState, AuthAction, Form, login, register, initial_auth, clear_error, clear_message, reduce,
}
use mpc_main.Ui.{Reply, sends}
use mpc_main.Auth.{Credentials, Request, Effects}
use mpc_main.Auth as Auth
use mpc_main.Auth.Thunk.{LoginBody, SignupBody, login_end, register_end, settle}
use mpc_main.Auth.Entrance.{Fields, handle_login, register_submit}

-- The form is sent by its button, or by a key in one of its inputs while that button is enabled. `eye`
-- shows or hides the password of an input.
pub data Press : Type 0 where
  submit : Press
  eye : String → Press

-- `InputText`: whether the password is shown is a state of its own, which is kept while the form is
-- being sent.
unfoldable pub toggle_password : Bool → Bool → Bool
toggle_password is_fetching visible = if is_fetching then visible else not visible

abbrev pub eye_icon : Bool → String
eye_icon true = "FaRegEye"
eye_icon false = "FaRegEyeSlash"

abbrev pub input_text : String → String → String → Bool → Bool → Text → List (Item Press)
input_text title name placeholder is_password visible value =
    label title
    ∷ input placeholder value
    ∷ (if is_password then icon (eye_icon visible) ∷ button name (some (eye name)) ∷ [] else [])

-- `ButtonSubmit`, which is disabled while it is loading.
abbrev pub button_submit : String → Bool → List (Item Press)
button_submit title true = button "LoadingIcon" none ∷ []
button_submit title false = button title (some submit) ∷ []

unfoldable pub login_view : Bool → Bool → Credentials → List (Item Press)
login_view is_fetching visible user =
    label "Thông tin đăng nhập"
      ∷ label "Chào mừng bạn trở lại!"
      ∷ (input_text "Email" "email" "Nhập email hoặc username" false false user.email
          ++ (input_text "Mật khẩu" "password" "Nhập mật khẩu" true visible user.password
              ++ (link "Quên mật khẩu?" "/auth/login/forgot-password"
                  ∷ button_submit "Đăng nhập" is_fetching)))
    ++ (label "Bạn chưa có tài khoản?"
        ∷ (if is_fetching then label "Đăng ký" else link "Đăng ký" "/auth/register")
        ∷ [])

unfoldable pub register_view : Bool → Bool → Bool → Fields → List (Item Press)
register_view is_fetching visible confirm_visible f =
    label "Đăng ký tài khoản"
    ∷ (input_text "Email" "email" "Nhập địa chỉ Email" false false f.email
        ++ (input_text "Mật khẩu" "password" "Nhập mật khẩu" true visible f.password
            ++ (input_text "Nhập lại mật khẩu" "confirmPassword" "Nhập lại mật khẩu" true
                  confirm_visible f.confirm_password
                ++ (button_submit "Đăng ký" is_fetching
                    ++ (label "Bạn đã có tài khoản?" ∷ link "Đăng nhập" "/auth/login" ∷ [])))))

-- Both pages: what is typed, the store, and the requests that have no answer yet.
pub record Entrance : Type 0 where
  pub store : AuthState
  pub user : Credentials
  pub fields : Fields
  pub logins : List Credentials
  pub signups : List Credentials

-- The credentials of the requests of a page.
abbrev pub logins_of : List Request → List Credentials
logins_of [] = []
logins_of (Request.login u ∷ rest) = u ∷ logins_of rest
logins_of (_ ∷ rest) = logins_of rest

abbrev pub signups_of : List Request → List Credentials
signups_of [] = []
signups_of (Request.signup u ∷ rest) = u ∷ signups_of rest
signups_of (_ ∷ rest) = signups_of rest

-- What the submission of a form does, and what follows its answer.
unfoldable pub login_sent : Entrance → Entrance
login_sent s =
    let effects = handle_login s.user in
    record s { store = settle s.store effects; logins = s.logins ++ logins_of (sends effects) }

unfoldable pub signup_sent : Entrance → Entrance
signup_sent s =
    let effects = register_submit s.fields in
    record s { store = settle s.store effects; signups = s.signups ++ signups_of (sends effects) }

unfoldable pub login_answered :
    Entrance → Credentials → List Credentials → Reply LoginBody → Entrance
login_answered s u rest r = record s { store = settle s.store (login_end u r); logins = rest }

unfoldable pub signup_answered :
    Entrance → Credentials → List Credentials → Reply SignupBody → Entrance
signup_answered s u rest r = record s { store = settle s.store (register_end u r); signups = rest }

-- The effects that show an error or a message clear it, whenever they run.
unfoldable pub cleared : Entrance → AuthAction → Entrance
cleared s a = record s { store = reduce s.store a }
