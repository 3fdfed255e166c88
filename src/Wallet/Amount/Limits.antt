-- ===== src/Wallet/Amount/Limits.antt =====
-- Which amounts open the drawer.
use mpc_main.Prelude.{
  ℕ, ◌^◌, ◌≤◌, ◌<◌, String, ◌≡◌, refl, ◌↔◌, true, false, Option, [], ◌∷◌, arith, str_eq, ltb, all,
  Text,
}
use mpc_main.Validation.{is_digit}
use mpc_main.Numbers.{Numbers, IsPlain, value, value-lt}
use mpc_main.Cards.List.{Card}
use mpc_main.Wallet.Amount.{
  Page, lowest, highest, numeric_part, is_some, confirm_deposit, confirm_withdraw,
}

numeric-plain : (t : Text) → all is_digit t ≡ true → numeric_part t ≡ t
numeric-plain [] h = refl
numeric-plain (c ∷ t) h = ground (arith, numeric-plain t)

module _ (numbers : Numbers) where
  open numbers use {of_nat, parse_float, lt, lt-of_nat, parse_float-plain}

  small : (n : ℕ) → n ≤ 10000000 → n < 10 ^ 15
  small n h = omega arith

  below :
      (t : Text) (n : ℕ)
      → IsPlain t
      → n ≤ 10000000
      → lt (parse_float (numeric_part t)) (of_nat n) ≡ ltb (value t) n
  below t n h s =
      rw (numeric-plain t h.digits, parse_float-plain t h)
        (lt-of_nat (value t) n (value-lt t h) (small n s))

  above :
      (t : Text) (n : ℕ)
      → IsPlain t
      → n ≤ 10000000
      → lt (of_nat n) (parse_float (numeric_part t)) ≡ ltb n (value t)
  above t n h s =
      rw (numeric-plain t h.digits, parse_float-plain t h)
        (lt-of_nat n (value t) (small n s) (value-lt t h))

  limits : (currency : String) → (lowest currency ≤ 10000000) × (highest currency ≤ 10000000)
  limits currency = ground arith

  -- For an amount of one to fifteen digits the confirmation of a deposit opens the shut drawer exactly
  -- if the amount lies within the limits of the currency, both included, the currency is not ETH and
  -- a card is chosen.
  pub confirm_deposit_iff :
      (currency : String) (card : Option Card) (s : Page)
      → IsPlain s.amount
      → s.drawer_open ≡ false
      → ((confirm_deposit numbers currency card s).0.drawer_open ≡ true) ↔ (
          (lowest currency ≤ value s.amount)
          × (value s.amount ≤ highest currency)
          × (str_eq currency "ETH" ≡ false)
          × (is_some card ≡ true))
  unfolding confirm_deposit
  confirm_deposit_iff currency card s plain shut =
      let bounds = limits currency in
      rw
        (
          below s.amount (lowest currency) plain bounds.0,
          above s.amount (highest currency) plain bounds.1,
        )
        (λ h. ground arith, λ h. ground arith)

  -- For an amount of one to fifteen digits the confirmation of a withdrawal opens the shut drawer
  -- exactly if the amount lies within the limits of the currency, both included, and a card is chosen,
  -- and otherwise tells a fault. The balance plays no part.
  pub confirm_withdraw_iff :
      (currency : String) (card : Option Card) (s : Page)
      → IsPlain s.amount
      → s.drawer_open ≡ false
      → (((confirm_withdraw numbers currency card s).0.drawer_open ≡ true) ↔ (
          (lowest currency ≤ value s.amount)
          × (value s.amount ≤ highest currency)
          × (is_some card ≡ true)))
        × (((confirm_withdraw numbers currency card s).0.drawer_open ≡ true)
            ↔ ((confirm_withdraw numbers currency card s).1 ≡ []))
  unfolding confirm_withdraw
  confirm_withdraw_iff currency card s plain shut =
      let bounds = limits currency in
      rw
        (
          below s.amount (lowest currency) plain bounds.0,
          above s.amount (highest currency) plain bounds.1,
        )
        ((λ h. ground arith, λ h. ground arith), (λ h. ground arith, λ h. ground arith))
