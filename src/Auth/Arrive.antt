-- ===== src/Auth/Arrive.antt =====
-- The effects of register.tsx, verify_login.tsx and verify_register.tsx that show the message of the
-- store, and what register.tsx does once its request is settled.
use mpc_main.Prelude.{
  String, ◌≡◌, refl, inl, inr, true, false, some, [], ◌∷◌, if◌then◌else◌, Bool-cases, truthy,
}
use mpc_main.Store.{AuthState, clear_message, Form, login, register, reduce, reduce_all}
use mpc_main.Ui.{success, dispatch, dispatches}
use mpc_main.Auth.{Effects}
use mpc_main.Auth.Entrance.{Fields}

-- The message of register.tsx and of verify_login.tsx is cleared when it is shown.
unfoldable pub show_message : String → Form → Effects
show_message message form =
    if truthy message then success (some message) ∷ dispatch (clear_message form) ∷ [] else []

-- The one of verify_register.tsx is not.
unfoldable pub show_register_message : String → Effects
show_register_message message = if truthy message then success (some message) ∷ [] else []

abbrev pub message_of : AuthState → Form → String
message_of s login = s.login.login_user.message
message_of s register = s.register.register_user.message

-- `reset()` of the form, which follows the dispatch: a dispatched thunk resolves also where the
-- request was rejected, so that the form is emptied in both cases.
unfoldable pub registered : Fields → Fields
registered f = record { email = []; password = []; confirm_password = [] }

shown-dispatches :
    (m : String) (form : Form)
    → truthy m ≡ true
    → dispatches (show_message m form) ≡ clear_message form ∷ []
unfolding show_message
shown-dispatches m form full = rw full refl

empty-show_message : (m : String) (form : Form) → truthy m ≡ false → show_message m form ≡ []
unfolding show_message
empty-show_message m form empty = rw empty refl

cleared :
    (s : AuthState) (form : Form)
    → (show_message (message_of (reduce s (clear_message form)) form) form ≡ [])
      × ((reduce s (clear_message form)).access_token ≡ s.access_token)
unfolding show_message reduce
cleared s login = (refl, refl)
cleared s register = (refl, refl)

-- A message is shown once: after the actions of the effect the store holds none, so that the effect
-- shows nothing when it runs again, and the token is as it was.
pub show_message-once :
    (s : AuthState) (form : Form)
    → (let t = reduce_all s (dispatches (show_message (message_of s form) form)) in
        (show_message (message_of t form) form ≡ []) × (t.access_token ≡ s.access_token))
unfolding show_message reduce_all reduce
show_message-once s form = elim (Bool-cases (truthy (message_of s form))) [
  | inl full ↦ rw (shown-dispatches (message_of s form) form full) (cleared s form)
  | inr empty ↦
      let none_shown = empty-show_message (message_of s form) form empty in
      rw none_shown (none_shown, refl)
]
