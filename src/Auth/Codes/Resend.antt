-- ===== src/Auth/Codes/Resend.antt =====
-- How often a code is asked for again.
use mpc_main.Prelude.{
  ℕ, suc, ◌+◌, ◌≤◌, String, ◌≡◌, Option, List, [], ◌∷◌, arith, if◌then◌else◌, Text,
}
use mpc_main.Ui.{Reply, sends, Body}
use mpc_main.Auth.{Request, Credentials, resend_otp, Effects}
use mpc_main.Auth.Codes.{RegisterCode, change_register, finish_register, resend, finish_resend}

-- What happens on the page of verify_register.tsx; a click counts while the button is enabled.
pub data Event : Type 0 where
  typed : Text → Event
  replied : Reply (Body String) → Event
  asked : Event
  resent : Reply (Option String) → Event

module _ (user : Credentials) where
  abbrev pub step : RegisterCode → Event → RegisterCode × Effects
  step s (typed v) = change_register user.email s v
  step s (replied r) = finish_register s r
  step s asked = if s.is_loading then (s, []) else resend user s
  step s (resent r) = finish_resend s r

  -- The codes that are asked for again in the course of the events.
  abbrev resends : List Request → ℕ
  resends [] = 0
  resends (resend_otp u ∷ rest) = suc (resends rest)
  resends (_ ∷ rest) = resends rest

  pub asked_again : RegisterCode → List Event → ℕ
  asked_again s [] = 0
  asked_again s (ev ∷ rest) = resends (sends (step s ev).1) + asked_again (step s ev).0 rest

  step-count :
      (s : RegisterCode) (ev : Event)
      → s.count ≤ 3
      → ((step s ev).0.count ≡ s.count + resends (sends (step s ev).1)) × ((step s ev).0.count ≤ 3)
  unfolding change_register finish_register resend finish_resend
  step-count s (typed v) h = ground arith
  step-count s (replied (Reply.answered status body)) h = ground arith
  step-count s (replied (Reply.threw f)) h = ground arith
  step-count s asked h = ground arith
  step-count s (resent (Reply.answered status m)) h = ground arith
  step-count s (resent (Reply.threw f)) h = ground arith

  -- Whatever is typed, clicked and answered, the page asks for a new code three times at most, less
  -- the times that it has asked already.
  pub asked_again-le :
      (events : List Event) (s : RegisterCode) → s.count ≤ 3 → s.count + asked_again s events ≤ 3
  unfolding asked_again
  asked_again-le [] s h = omega arith
  asked_again-le (ev ∷ rest) s h =
      let (counted, bound) = step-count s ev h in
      omega (arith, counted, asked_again-le rest (step s ev).0 bound)
