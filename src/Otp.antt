-- ===== src/Otp.antt =====
-- The six boxes of a one-time or security code: what the pages that have them share. A page sends
-- its request as soon as the sixth character stands, and the answer comes later.
pub mod Laws
use mpc_main.Prelude.{
  ℕ, ◌+◌, ◌-◌, ◌≡◌, Bool, true, List, [], ◌∷◌, ◌==◌, if◌then◌else◌, length, Text,
}
use mpc_main.Ui.{Effect, Reply, sends}

-- `change` is `handleChangeOTP` up to its request, `finish` what follows the answer. `disabled` is
-- what the page writes at its inputs.
pub record CodeEntry (S R B : Type 0) : Type 0 where
  pub change : S → Text → S × List (Effect R)
  pub finish : S → Reply B → S × List (Effect R)
  pub loading : S → Bool
  pub disabled : S → Bool
  pub sends-change :
      (s : S) (v : Text) → length (sends (change s v).1) ≡ (if length v == 6 then 1 else 0)
  pub sends-finish : (s : S) (r : Reply B) → sends (finish s r).1 ≡ []
  pub loading-change :
      (s : S) (v : Text) → loading (change s v).0 ≡ (if length v == 6 then true else loading s)

pub data Event (B : Type 0) : Type 0 where
  typed : Text → Event B
  replied : Reply B → Event B

-- The page, the requests that wait for an answer, and all that were sent.
pub record Entry (S : Type 0) : Type 0 where
  pub page : S
  pub pending : ℕ
  pub sent : ℕ

module _ {S R B : Type 0} (c : CodeEntry S R B) where
  -- A disabled input takes no text, and no answer comes where no request waits.
  unfoldable pub step : Entry S → Event B → Entry S
  step e (typed v) =
      let (s, effects) = c.change e.page v in
      let n = length (sends effects) in
      if c.disabled e.page
      then e
      else record { page = s; pending = e.pending + n; sent = e.sent + n }
  step e (replied r) =
      if e.pending == 0
      then e
      else record { page = (c.finish e.page r).0; pending = e.pending - 1; sent = e.sent }

  unfoldable pub run : Entry S → List (Event B) → Entry S
  unfolding step
  run e [] = e
  run e (ev ∷ rest) = run (step e ev) rest
