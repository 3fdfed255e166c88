-- ===== src/Auth/Recover.antt =====
-- forgot-password.tsx and reset-password.tsx. The form of antd calls `onFinish` only where its rules
-- hold; the rule `type: "email"` is that library's, and a parameter. Of the error of a request both
-- pages read `data.message`; an error of axios has no `data`, so that reading it raises an error.
use mpc_main.Prelude.{
  ◌≤◌, String, ◌≡◌, refl, ◌↔◌, inl, inr, Bool, true, false, not, ◌&&◌, ◌||◌, Option, List, [], ◌∷◌,
  ◌++◌, arith, leb, ◌==◌, if◌then◌else◌, Bool-cases, length, all, Text, text_eq, text_eq_sound,
  text_eq_refl, is_empty,
}
use mpc_main.Ui.{success, navigate, send, raised, Reply, answered, threw, sends}
use mpc_main.Validation.Password.{
  reset_pattern, validate_password, in_alphabet, reset_pattern-validate_password,
}
use mpc_main.Auth.{Request, forgot_password, reset_password, Effects}

-- Both pages have one state, `isLoading`, which disables the inputs and the button.
abbrev pub Page : Type 0
Page = Bool

-- What follows the answer, on either page.
unfoldable pub forgot_finish : Page → Reply (Option String) → Page × Effects
forgot_finish s (answered status message) =
    (s, if status == 200 then success message ∷ navigate "/auth/login/reset-password" ∷ [] else [])
forgot_finish s (threw f) = (s, raised ∷ [])

unfoldable pub reset_finish : Page → Reply (Option String) → Page × Effects
reset_finish s (answered status message) =
    (s, if status == 200 then success message ∷ navigate "/auth/login" ∷ [] else [])
reset_finish s (threw f) = (s, raised ∷ [])

module _ (email_rule : Text → Bool) where
  pub forgot_submit : Page → Text → Page × Effects
  forgot_submit s email =
      if not (is_empty email) && email_rule email
      then (true, send (forgot_password email) ∷ [])
      else (s, [])

pub record Values : Type 0 where
  pub otp : Text
  pub password : Text
  pub confirm_password : Text

-- The rules of the three fields.
reset_rules : Values → Bool
reset_rules v =
    (not (is_empty v.otp) && length v.otp == 6)
    && (not (is_empty v.password) && leb 8 (length v.password) && reset_pattern v.password)
    && (not (is_empty v.confirm_password)
        && (is_empty v.confirm_password || text_eq v.password v.confirm_password))

-- The email comes from the page before, if the user was there.
pub reset_submit : Option Text → Page → Values → Page × Effects
reset_submit email s v =
    if reset_rules v then (true, send (reset_password email v.password v.otp) ∷ []) else (s, [])

length-reset_pattern : (t : Text) → reset_pattern t ≡ true → leb 8 (length t) ≡ true
unfolding reset_pattern
length-reset_pattern t h = ground arith

-- A new password is sent exactly when the code has six characters, the password is one that
-- registration accepts, with no character outside the alphabet of the pattern, and the repetition is
-- the same.
pub reset_submit-sends :
    (email : Option Text) (s : Page) (v : Values)
    → (sends (reset_submit email s v).1 ≡ reset_password email v.password v.otp ∷ []) ↔ (
        (length v.otp ≡ 6)
        × (validate_password v.password ≡ true)
        × (all in_alphabet v.password ≡ true)
        × (v.password ≡ v.confirm_password))
unfolding reset_submit reset_rules
reset_submit-sends email s v = (forth, back)
  where
    exact : reset_pattern v.password ≡ (validate_password v.password && all in_alphabet v.password)
    exact = reset_pattern-validate_password v.password

    forth :
        sends (reset_submit email s v).1 ≡ reset_password email v.password v.otp ∷ []
        → (length v.otp ≡ 6)
          × (validate_password v.password ≡ true)
          × (all in_alphabet v.password ≡ true)
          × (v.password ≡ v.confirm_password)
    forth h = (
      ground arith,
      ground (arith, exact),
      ground (arith, exact),
      text_eq_sound v.password v.confirm_password (ground arith),
    )

    back :
        (length v.otp ≡ 6)
          × (validate_password v.password ≡ true)
          × (all in_alphabet v.password ≡ true)
          × (v.password ≡ v.confirm_password)
        → sends (reset_submit email s v).1 ≡ reset_password email v.password v.otp ∷ []
    back h =
        let fits : reset_pattern v.password ≡ true = ground (arith, exact) in
        let long = length-reset_pattern v.password fits in
        let same : text_eq v.password v.confirm_password ≡ true =
          rw (h.3) (text_eq_refl v.confirm_password) in
        ground arith

-- A visit to either page.
pub data Event (V : Type 0) : Type 0 where
  submitted : V → Event V
  replied : Reply (Option String) → Event V

-- A handler of answers that sends nothing and does not change the state.
abbrev IsQuiet : (Page → Reply (Option String) → Page × Effects) → Type 0
IsQuiet finish =
    (s : Page) (r : Reply (Option String)) → ((finish s r).0 ≡ s) × (sends (finish s r).1 ≡ [])

forgot_finish-IsQuiet : IsQuiet forgot_finish
unfolding forgot_finish
forgot_finish-IsQuiet s (answered status message) = (refl, ground arith)
forgot_finish-IsQuiet s (threw f) = (refl, refl)

module _ {V : Type 0} (submit : Page → V → Page × Effects)
    (finish : Page → Reply (Option String) → Page × Effects) where
  step : Page → Event V → Page × Effects
  step s (submitted v) = if s then (s, []) else submit s v
  step s (replied r) = finish s r

  -- The requests of a visit.
  pub requests : Page → List (Event V) → List Request
  requests s [] = []
  requests s (ev ∷ rest) = sends (step s ev).1 ++ requests (step s ev).0 rest

  -- Once the form is disabled nothing enables it again, whatever the server answers: an error too
  -- leaves the page without a way to try again.
  pub requests-locked : IsQuiet finish → (events : List (Event V)) → requests true events ≡ []
  unfolding requests step
  requests-locked quiet [] = refl
  requests-locked quiet (submitted v ∷ rest) = requests-locked quiet rest
  requests-locked quiet (replied r ∷ rest) =
      let (same, silent) = quiet true r in rw (silent, same) (requests-locked quiet rest)

module _ (email_rule : Text → Bool) where
  -- On one visit to the page for a forgotten password at most one request is sent, whatever the
  -- user submits and the server answers.
  pub forgot-once :
      (events : List (Event Text))
      → length (requests (forgot_submit email_rule) forgot_finish false events) ≤ 1
  unfolding requests step forgot_submit
  forgot-once [] = omega arith
  forgot-once (submitted v ∷ rest) = elim (Bool-cases (not (is_empty v) && email_rule v)) [
    | inl ok ↦
        rw (ok, requests-locked (forgot_submit email_rule) forgot_finish forgot_finish-IsQuiet rest)
          (omega arith)
    | inr stop ↦ rw stop (forgot-once rest)
  ]
  forgot-once (replied r ∷ rest) =
      let (same, silent) = forgot_finish-IsQuiet false r in rw (silent, same) (forgot-once rest)
