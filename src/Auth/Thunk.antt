-- ===== src/Auth/Thunk.antt =====
-- redux/auth/authThunk.ts: what follows the answer of the server, with the actions that
-- `createAsyncThunk` dispatches: `pending` before the request, and in the end `fulfilled`, or
-- `rejected` with the payload of `rejectWithValue` and the error message "Rejected".
pub mod Laws
use mpc_main.Prelude.{
  ℕ, zero, suc, ◌+◌, ◌-◌, ◌*◌, ◌/◌, ◌%◌, ◌^◌, ◌≤◌, ◌<◌, String, ◌≡◌, refl, sym, ap, ◌∙◌, ◌≢◌, ◌↔◌,
  ◌⊎◌, inl, inr, Bool, true, false, not, ◌&&◌, ◌||◌, Option, none, some, List, [], ◌∷◌, ◌++◌, map,
  arith, str_eq, eq_iff, eq_refl, ltb, leb, ◌==◌, if◌then◌else◌, Bool-cases, Option-cases,
  and-eq-true, truthy, or_text, length, take, drop, keep, find, any, all, length-take, length-drop,
  length-snoc, take-add, take_all, flat, flat-snoc, keep-append, keep_of_all, all-keep, all-take,
  all-drop, keep-keep, All, All-append, All-keep, Text, units, text_eq, text_eq_sound, text_eq_refl,
  is_empty, append_injective, String-cases,
}
use mpc_main.Store.{
  AuthState, AuthAction, clear_message, add_access_token, Form, login_pending, login_fulfilled,
  login_rejected, register_pending, register_fulfilled, register_rejected, reduce_all,
}
use mpc_main.Ui.{
  Effect, dispatch, navigate, save, send, Reply, answered, threw, Failure, message_or, dispatches,
}
use mpc_main.Auth.{Credentials, Request, login, signup, Effects}

-- `res.data` of a login: the message, and the payload with its `access_token`, each of which may be
-- missing.
pub record LoginBody : Type 0 where
  pub message : Option String
  pub payload : Option (Option String)

-- `res.data` of a registration: the message, and `user.id` and `share_data` of the payload.
pub record SignupBody : Type 0 where
  pub message : Option String
  pub payload : Option (Text × String)

-- A message that is missing is as good as an empty one to the pages that read it, and so is a token.
abbrev pub shown : Option String → String
shown none = ""
shown (some m) = m

unfoldable pub share_key : Text → Text
share_key id = units "share_data_" ++ id

abbrev rejected_login : String → AuthAction
rejected_login m = login_rejected (some m) (some "Rejected")

abbrev rejected_register : String → AuthAction
rejected_register m = register_rejected (some m) (some "Rejected")

unfoldable pub login_begin : Credentials → Effects
login_begin user = dispatch login_pending ∷ send (login user) ∷ []

unfoldable pub login_end : Credentials → Reply LoginBody → Effects
login_end user (answered status body) =
    if status == 200
    then (navigate "/" ∷ dispatch (clear_message Form.login) ∷ elim body.payload [
      | none ↦ dispatch (rejected_login "Đăng nhập thất bại!") ∷ []
      | some token ↦
          dispatch (add_access_token (shown token))
          ∷ dispatch (login_fulfilled (record { email = user.email; message = shown body.message }))
          ∷ []
    ])
    else dispatch (login_rejected body.message (some "Rejected")) ∷ []
login_end user (threw failure) =
    dispatch (rejected_login (message_or failure "Đăng nhập thất bại!")) ∷ []

unfoldable pub register_begin : Credentials → Effects
register_begin user = dispatch register_pending ∷ send (signup user) ∷ []

unfoldable pub register_end : Credentials → Reply SignupBody → Effects
register_end user (answered status body) =
    if status == 200
    then elim body.payload [
      | none ↦ dispatch (rejected_register "Đăng ký thất bại") ∷ []
      | some (id, share) ↦
          save (share_key id) share
          ∷ dispatch (
              register_fulfilled (record {
                email = user.email;
                password = user.password;
                message = shown body.message;
              }))
          ∷ []
    ]
    else dispatch (register_rejected body.message (some "Rejected")) ∷ []
register_end user (threw failure) =
    dispatch (rejected_register (message_or failure "Đăng ký thất bại")) ∷ []

-- The store after the effects of a handler.
unfoldable pub settle : AuthState → Effects → AuthState
settle s effects = reduce_all s (dispatches effects)

-- The local storage, and the `save` effects in it.

unfoldable pub get_item : Text → List (Text × String) → Option String
get_item k [] = none
get_item k ((j, v) ∷ rest) = if text_eq j k then some v else get_item k rest

unfoldable pub set_items : Effects → List (Text × String) → List (Text × String)
set_items [] m = m
set_items (save k v ∷ rest) m = set_items rest ((k, v) ∷ m)
set_items (_ ∷ rest) m = set_items rest m
