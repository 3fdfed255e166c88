-- ===== src/Wallet/Choice.antt =====
-- pages/deposit-withdraw/index.tsx: the choice of a currency and of a card, and what the two dialogs
-- are given; the list of currencies is that of components/button/wallet.tsx.
use mpc_main.Prelude.{
  ℕ, zero, suc, ◌≤◌, String, ◌≡◌, refl, ◌↔◌, Bool, true, false, ◌||◌, Option, none, some, List, [],
  ◌∷◌, arith, str_eq, keep, any, all,
}
use mpc_main.Cards.List.{Card}
use mpc_main.Numbers.{Numbers, IsPlain, value}
use mpc_main.Wallet.Amount.{Page, selected, is_some, lowest, highest, confirm_deposit}
use mpc_main.Wallet.Amount.Limits.{confirm_deposit_iff}

-- `wallet`
abbrev pub wallet : List String
wallet = "VND" ∷ "USD" ∷ "ETH" ∷ []

-- `filterCards`
unfoldable pub filter_cards : List Card → List Card
filter_cards = keep (λ c. str_eq c.type "visa" || str_eq c.type "mastercard")

-- The properties of `Deposit` and of `Withdraw`.
pub record Given (B : Type 0) : Type 0 where
  pub card_id : String
  pub currency : String
  pub balance : B

-- A balance is what the wallet holds of a currency; `zero` is 0.
module _ {B : Type 0} (nothing : B) where
  -- `walletData?.currencies?.[index]?.balance || 0`
  abbrev pub balance_at : List B → ℕ → B
  balance_at [] index = nothing
  balance_at (b ∷ rest) zero = b
  balance_at (b ∷ rest) (suc index) = balance_at rest index

pub record Choice (B : Type 0) : Type 0 where
  pub card : Option String
  pub currency : String
  pub balance : B
  pub deposit_open : Bool
  pub withdraw_open : Bool

-- What the user does: a currency is clicked with its balance as it is shown at that moment, a card,
-- or one of the dialogs is opened or shut.
pub data Event (B : Type 0) : Type 0 where
  chose_currency : String → B → Event B
  chose_card : String → Event B
  deposit_shown withdraw_shown : Bool → Event B

-- `isSelectedCard ?? ""`
abbrev pub id_or_empty : Option String → String
id_or_empty none = ""
id_or_empty (some id) = id

module _ {B : Type 0} where
  -- The state when the page is shown with these balances, none while they are loading.
  unfoldable pub initial : B → List B → Choice B
  initial nothing balances = record {
    card = none;
    currency = "VND";
    balance = balance_at nothing balances 0;
    deposit_open = false;
    withdraw_open = false;
  }

  -- `handleCurrencySelect`, `handleCardSelect` and the setters of the dialogs.
  unfoldable pub step : Choice B → Event B → Choice B
  step s (chose_currency currency balance) = record s { currency = currency; balance = balance }
  step s (chose_card id) = record s { card = some id }
  step s (deposit_shown shown) = record s { deposit_open = shown }
  step s (withdraw_shown shown) = record s { withdraw_open = shown }

  unfoldable pub run : Choice B → List (Event B) → Choice B
  unfolding step
  run s [] = s
  run s (e ∷ rest) = run (step s e) rest

  -- What both dialogs are given.
  unfoldable pub given : Choice B → Given B
  given s = record { card_id = id_or_empty s.card; currency = s.currency; balance = s.balance }

  -- Events after which the choice of the card stands.
  abbrev keeps_card : Event B → Bool
  keeps_card (chose_card _) = false
  keeps_card _ = true

  abbrev keeps_currency : Event B → Bool
  keeps_currency (chose_currency _ _) = false
  keeps_currency _ = true

  run-card :
      (s : Choice B) (events : List (Event B))
      → all keeps_card events ≡ true
      → (run s events).card ≡ s.card
  unfolding run step
  run-card s [] h = refl
  run-card s (chose_currency c b ∷ rest) h = run-card (step s (chose_currency c b)) rest h
  run-card s (chose_card id ∷ rest) h = cc
  run-card s (deposit_shown o ∷ rest) h = run-card (step s (deposit_shown o)) rest h
  run-card s (withdraw_shown o ∷ rest) h = run-card (step s (withdraw_shown o)) rest h

  run-currency :
      (s : Choice B) (events : List (Event B))
      → all keeps_currency events ≡ true
      → ((run s events).currency ≡ s.currency) × ((run s events).balance ≡ s.balance)
  unfolding run step
  run-currency s [] h = (refl, refl)
  run-currency s (chose_currency c b ∷ rest) h = cc
  run-currency s (chose_card id ∷ rest) h = run-currency (step s (chose_card id)) rest h
  run-currency s (deposit_shown o ∷ rest) h = run-currency (step s (deposit_shown o)) rest h
  run-currency s (withdraw_shown o ∷ rest) h = run-currency (step s (withdraw_shown o)) rest h

-- A card that the page shows is found again by the dialogs.
selected-keep :
    (p : Card → Bool) (cards : List Card) (id : String)
    → any (λ c. str_eq c.id id) (keep p cards) ≡ true
    → is_some (selected cards id) ≡ true
selected-keep p [] id h = cc
selected-keep p (c ∷ rest) id h = ground (arith, selected-keep p rest id)

module _ {B : Type 0} (numbers : Numbers) where
  -- After a click on a card that the page shows, and whatever the user does then besides clicking
  -- another card, the dialog for deposits finds the card: it opens its shut drawer exactly if the
  -- amount, of one to fifteen digits, lies within the limits of the currency that is chosen by then,
  -- which must not be ETH.
  pub chosen_card-opens :
      (s : Choice B) (events : List (Event B)) (cards : List Card) (id : String) (page : Page)
      → any (λ c. str_eq c.id id) (filter_cards cards) ≡ true
      → all keeps_card events ≡ true
      → IsPlain page.amount
      → page.drawer_open ≡ false
      → (let g = given (run (step s (chose_card id)) events) in
          ((confirm_deposit numbers g.currency (selected cards g.card_id) page).0.drawer_open
            ≡ true)
          ↔ ((lowest g.currency ≤ value page.amount)
              × (value page.amount ≤ highest g.currency)
              × (str_eq g.currency "ETH" ≡ false)))
  unfolding given filter_cards step
  chosen_card-opens s events cards id page shown kept plain shut =
      let later = run (step s (chose_card id)) events in
      let found : is_some (selected cards id) ≡ true = selected-keep _ cards id shown in
      let opens = confirm_deposit_iff numbers later.currency (selected cards id) page plain shut in
      rw (run-card (step s (chose_card id)) events kept)
        (λ h. let (a, b, c, _) = opens.0 h in (a, b, c), λ (a, b, c). opens.1 (a, b, c, found))

  -- After a click on a currency, and whatever the user does then besides clicking another one, both
  -- dialogs are given that currency and its balance as it was shown at the click.
  pub chosen_currency-given :
      (s : Choice B) (events : List (Event B)) (currency : String) (balance : B)
      → all keeps_currency events ≡ true
      → (let g = given (run (step s (chose_currency currency balance)) events) in
          (g.currency ≡ currency) × (g.balance ≡ balance))
  unfolding given step
  chosen_currency-given s events currency balance kept =
      run-currency (step s (chose_currency currency balance)) events kept
