-- ===== src/Tests/Auth.antt =====
-- Runs of the forms, the codes and the settings.
use mpc_main.Prelude.{
  ◌≡◌, ◌↔◌, ◌⊎◌, true, false, ◌&&◌, none, some, [], ◌∷◌, arith, all, Text, units, text_eq,
}
use mpc_main.Ui.{Reply, answered, threw, network, sends}
use mpc_main.Store.{initial_auth}
use mpc_main.Validation.Email.{email_valid, IsEmail, email_valid_iff}
use mpc_main.Validation.Password.{
  validate_password, reset_pattern, in_alphabet, reset_pattern-validate_password,
}
use mpc_main.Otp.{typed, replied, Entry, run}
use mpc_main.Otp.Laws.{IsGuarded}
use mpc_main.Auth.{Credentials, signup}
use mpc_main.Auth.Thunk.{LoginBody, login_end, register_end, settle, share_key, get_item, set_items}
use mpc_main.Auth.Thunk.Laws.{Concluded, login_end_lem, get_item-register_end}
use mpc_main.Auth.Entrance.{Fields, register_submit, register_submit-sends}
use mpc_main.Auth.Codes.{LoginCode, RegisterCode}
use mpc_main.Auth.Codes.Guarded.{login_entry, login_entry-IsGuarded}
use mpc_main.Auth.Recover.{Values}

abbrev user : Credentials
user = record { email = units "an@mpc.vn"; password = units "Abcdef1!" }

email_valid_iff_example : (email_valid (units "an@mpc.vn") ≡ true) ↔ IsEmail (units "an@mpc.vn")
email_valid_iff_example = email_valid_iff (units "an@mpc.vn")

reset_pattern-validate_password_example :
    reset_pattern (units "Abcdef1#")
    ≡ (validate_password (units "Abcdef1#") && all in_alphabet (units "Abcdef1#"))
reset_pattern-validate_password_example = reset_pattern-validate_password (units "Abcdef1#")

abbrev fields : Fields
fields = record {
  email = units "an@mpc.vn";
  password = units "Abcdef1!";
  confirm_password = units "Abcdef1!";
}

register_submit-sends_example :
    ((sends (register_submit fields) ≡ signup user ∷ []) ↔ (
      (fields.password ≡ fields.confirm_password)
      × (validate_password fields.password ≡ true)
      × IsEmail fields.email))
    × ((sends (register_submit fields) ≡ []) ⊎ (sends (register_submit fields) ≡ signup user ∷ []))
register_submit-sends_example = register_submit-sends fields

abbrev with_token : Reply LoginBody
with_token = answered 200 (record { message = none; payload = some (some "abc") })

login_end_lem_example :
    ((settle initial_auth (login_end user with_token)).login.is_fetching ≡ false)
    × Concluded (some "abc") user initial_auth (settle initial_auth (login_end user with_token))
login_end_lem_example = login_end_lem user with_token initial_auth

get_item-register_end_example :
    get_item (share_key (units "7")) (
      set_items
        (register_end user
          (answered 200 (record { message = none; payload = some (units "7", "share") })))
        [])
    ≡ some "share"
unfolding text_eq
get_item-register_end_example = get_item-register_end user (units "7") (units "7") none "share" []

abbrev code : Text
code = units "123456"

abbrev login_page : Entry LoginCode
login_page = record { page = record { otp = []; is_loading = false }; pending = 0; sent = 0 }

login_page-IsGuarded : IsGuarded (login_entry user.email) login_page
login_page-IsGuarded = record { one = omega arith; shown = λ p. absurd (omega arith) }

login_entry-IsGuarded_example : IsGuarded (login_entry user.email) (
    run
      (login_entry user.email)
      login_page
      (typed code ∷ typed code ∷ replied (threw network) ∷ []))
login_entry-IsGuarded_example =
    login_entry-IsGuarded user.email (typed code ∷ typed code ∷ replied (threw network) ∷ [])
      login_page login_page-IsGuarded

abbrev register_code : RegisterCode
register_code = record { otp = []; count = 0; is_loading = false; error = "" }

abbrev values : Values
values = record {
  otp = units "123456";
  password = units "Abcdef1!";
  confirm_password = units "Abcdef1!";
}
