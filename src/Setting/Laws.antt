-- ===== src/Setting/Laws.antt =====
-- When a new password or code is sent with a repetition that differs.
use mpc_main.Prelude.{
  String, ◌≡◌, refl, ◌≢◌, inl, inr, false, ◌||◌, List, [], ◌∷◌, Bool-cases, Text, text_eq,
  text_eq_sound, text_eq_refl, is_empty,
}
use mpc_main.Ui.{sends}
use mpc_main.Setting.{
  Form, change_password, change_security_code, password_names, code_names, input_change,
  submit_password, submit_code,
}

-- Where the repetition was typed last, a new password is sent only if the two are the same.
pub submit_password-same :
    (s : Form) (v : Text)
    → sends (submit_password (input_change password_names s "confirmNewPassword" v)) ≢ []
    → s.values.new ≡ v
unfolding submit_password input_change
submit_password-same s v h = elim (Bool-cases (text_eq s.values.new v)) [
  | inl same ↦ text_eq_sound s.values.new v same
  | inr differ ↦ absurd (
      h (elim (Bool-cases (is_empty s.values.new || is_empty s.values.old || is_empty v)) [
        | inl blank ↦ simp (differ, blank) refl
        | inr full ↦ simp (differ, full) refl
      ]))
]

-- Where the new password is changed after its repetition, the form still sends: any other new
-- password that is not empty goes out with the repetition of the one before.
pub submit_password-stale :
    (s : Form) (w : Text)
    → is_empty s.values.old ≡ false
    → is_empty s.values.new ≡ false
    → is_empty w ≡ false
    → sends (
        submit_password (
          input_change password_names
            (input_change password_names s "confirmNewPassword" s.values.new)
            "new_password"
            w))
      ≡ change_password (record { old = s.values.old; new = w; confirm = s.values.new }) ∷ []
unfolding submit_password input_change
submit_password-stale s w old new full = simp (text_eq_refl, full, old, new) refl

-- The inputs of the form for the security code.
pub data Key : Type 0 where
  old new confirm : Key

abbrev pub key_name : Key → String
key_name old = "old_code"
key_name new = "new_code"
key_name confirm = "confirm_code"

unfoldable pub type_codes : Form → List (Key × Text) → Form
type_codes s [] = s
type_codes s ((k, v) ∷ rest) = type_codes (input_change code_names s (key_name k) v) rest

error-type_codes : (edits : List (Key × Text)) (s : Form) → (type_codes s edits).error ≡ s.error
unfolding type_codes input_change
error-type_codes [] s = refl
error-type_codes ((old, v) ∷ rest) s = error-type_codes rest _
error-type_codes ((new, v) ∷ rest) s = error-type_codes rest _
error-type_codes ((confirm, v) ∷ rest) s = error-type_codes rest _

-- The form for the security code never compares the new code with its repetition: from a form with no
-- error, whatever is typed into its three fields, it sends if none of them is empty.
pub submit_code-sends :
    (edits : List (Key × Text)) (s : Form)
    → s.error ≡ ""
    → is_empty (type_codes s edits).values.old ≡ false
    → is_empty (type_codes s edits).values.new ≡ false
    → is_empty (type_codes s edits).values.confirm ≡ false
    → sends (submit_code (type_codes s edits))
      ≡ change_security_code (type_codes s edits).values ∷ []
unfolding submit_code
submit_code-sends edits s e o n c = rw (o, n, c, error-type_codes edits s, e) refl
