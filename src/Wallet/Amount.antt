-- ===== src/Wallet/Amount.antt =====
-- deposit.tsx and withdraw.tsx: the amount, its limits, and when the drawer for the code opens.
pub mod Limits
use mpc_main.Prelude.{
  ℕ, ◌+◌, ◌-◌, String, Bool, true, false, not, ◌&&◌, ◌||◌, Option, none, some, List, [], ◌∷◌, ◌++◌,
  str_eq, ◌==◌, if◌then◌else◌, keep, find, Text, is_empty,
}
use Prim.Native.String
use mpc_main.Ui.{Effect, failure}
use mpc_main.Validation.{is_digit}
use mpc_main.Numbers.{Numbers}
use mpc_main.Cards.List.{Card}

pub record Page : Type 0 where
  pub amount : Text
  pub drawer_open : Bool

abbrev pub Effects : Type 0
Effects = List (Effect (Unit {0}))

-- `MIN_DEPOSIT`, `MAX_DEPOSIT`, and the same of the withdrawal.
abbrev pub lowest : String → ℕ
lowest currency = if str_eq currency "USD" then 10 else 10000

abbrev pub highest : String → ℕ
highest currency = if str_eq currency "USD" then 1000 else 10000000

-- `value.replace(/[^0-9.-]+/g, "")`
abbrev pub numeric_part : Text → Text
numeric_part = keep (λ c. is_digit c || c == b'.' || c == b'-')

-- `cards?.data.find((card) => card._id === cardId)`
abbrev pub selected : List Card → String → Option Card
selected cards id = find (λ c. str_eq c.id id) cards

abbrev pub is_some : Option Card → Bool
is_some none = false
is_some (some c) = true

module _ (numbers : Numbers) where
  open numbers use {Num, of_nat, parse_float, lt, is_whole, to_locale}

  abbrev typed_number : Option Text → Num
  typed_number none = of_nat 0
  typed_number (some t) = if is_empty t then of_nat 0 else parse_float (numeric_part t)

  abbrev text_of : Option Text → Text
  text_of none = []
  text_of (some t) = t

  -- `handleAmountChange`, with the message of the page.
  unfoldable pub amount_change : String → String → Page → Option Text → Page × Effects
  amount_change message currency s value =
      if str_eq currency "VND" && not (is_whole (typed_number value))
      then (s, failure (some message) ∷ [])
      else (record s { amount = text_of value }, [])

  abbrev limit_text : String → ℕ → String
  limit_text start limit = String.◌++◌ start (String.◌++◌ (to_locale limit) "!")

  -- `handleConfirmDeposit`
  unfoldable pub confirm_deposit : String → Option Card → Page → Page × Effects
  confirm_deposit currency card s =
      let numeric = parse_float (numeric_part s.amount) in
      if lt numeric (of_nat (lowest currency))
      then (s, failure (some (limit_text "Số tiền nạp tối thiểu là " (lowest currency))) ∷ [])
      else if lt (of_nat (highest currency)) numeric
      then (s, failure (some (limit_text "Số tiền nạp tối đa là " (highest currency))) ∷ [])
      else if not (str_eq currency "ETH") && is_some card
      then (record s { drawer_open = true }, [])
      else (s, [])

  -- `handleConfirmWithdraw`
  unfoldable pub confirm_withdraw : String → Option Card → Page → Page × Effects
  confirm_withdraw currency card s =
      let numeric = parse_float (numeric_part s.amount) in
      if lt numeric (of_nat (lowest currency))
      then (s, failure (some (limit_text "Số tiền rút tối thiểu là " (lowest currency))) ∷ [])
      else if lt (of_nat (highest currency)) numeric
      then (s, failure (some (limit_text "Số tiền rút tối đa là " (highest currency))) ∷ [])
      else if is_some card
      then (record s { drawer_open = true }, [])
      else (s, failure (some "Không tìm thấy thẻ!") ∷ [])
