-- ===== src/Wallet/Screen.antt =====
-- What pages/deposit-withdraw/index.tsx shows, and what its dialogs are given after clicks on it; a
-- currency is the component of components/button/wallet.tsx.
use mpc_main.Prelude.{
  ℕ, suc, String, ◌≡◌, refl, sym, ◌⊎◌, inl, inr, true, false, Option, none, some, List, [], ◌∷◌,
  ◌++◌, arith, str_eq, eq_refl, any,
}
use mathlib.Core.Path.{subst}
use mpc_main.Views.{Item, label, shown, icon, button, area, link, rows, offers, IsIn, offers-cases}
use mpc_main.Cards.List.{Card}
use mpc_main.Wallet.Choice.{
  wallet, filter_cards, balance_at, Choice, Event, chose_currency, chose_card, deposit_shown,
  withdraw_shown, id_or_empty, initial, step, given,
}

pub data Tab : Type 0 where
  deposit withdraw : Tab

module _ {B : Type 0} (nothing : B) where
  -- The currency is one of the list, and the balance is that of its place.
  abbrev pub HasBalance : List B → String → B → Type 0
  HasBalance balances currency balance =
      ((currency ≡ "VND") × (balance ≡ balance_at nothing balances 0))
      ⊎ (((currency ≡ "USD") × (balance ≡ balance_at nothing balances 1))
          ⊎ ((currency ≡ "ETH") × (balance ≡ balance_at nothing balances 2)))

-- No card, or one that the page shows.
abbrev pub HasCard : List Card → Option String → Type 0
HasCard cards none = Unit
HasCard cards (some id) = any (λ c. str_eq c.id id) (filter_cards cards) ≡ true

-- `format` is `formatCurrency`; `nothing` is 0.
module _ {B : Type 0} (nothing : B) (format : B → String → String) where
  -- `Wallet`, with its balance, while the profile is there.
  abbrev pub currency_item : B → String → List (Item (Event B))
  currency_item balance currency =
      area (chose_currency currency balance)
      ∷ icon currency
      ∷ label currency
      ∷ label (format balance currency)
      ∷ []

  -- `wallet.map`, from an index on.
  abbrev pub currency_items : List B → ℕ → List String → List (Item (Event B))
  currency_items balances index [] = []
  currency_items balances index (c ∷ rest) =
      currency_item (balance_at nothing balances index) c
      ++ currency_items balances (suc index) rest

  abbrev pub card_item : Card → List (Item (Event B))
  card_item c = area (chose_card c.id) ∷ shown c.number ∷ label c.name ∷ label c.type ∷ []

  abbrev pub open_button : Tab → Item (Event B)
  open_button deposit = button "Nạp tiền" (some (deposit_shown true))
  open_button withdraw = button "Rút tiền" (some (withdraw_shown true))

  abbrev pub tab_items : Tab → List B → List Card → List (Item (Event B))
  tab_items tab balances cards =
      currency_items balances 0 wallet
      ++ (rows card_item (filter_cards cards) ++ (open_button tab ∷ []))

  -- The page once the profile and the cards are there.
  unfoldable pub view : Tab → List B → List Card → List (Item (Event B))
  view tab balances [] =
      label "Bạn chưa liên kết với bất kỳ thẻ nào!" ∷ link "Liên kết thẻ" "/credit-card" ∷ []
  view tab balances (c ∷ rest) = tab_items tab balances (c ∷ rest)

  -- Runs in which the user clicks what the page shows, under either tab, or shuts a dialog.
  pub data Reach (balances : List B) (cards : List Card) (s : Choice B) : Choice B → Type 0 where
    here : Reach balances cards s s
    clicks :
        {t : Choice B} (tab : Tab) (e : Event B)
        → Reach balances cards s t
        → IsIn e (offers (view tab balances cards))
        → Reach balances cards s (step t e)
    shuts :
        {t : Choice B}
        → Reach balances cards s t
        → Reach balances cards s (step (step t (deposit_shown false)) (withdraw_shown false))

  record IsRight (balances : List B) (cards : List Card) (s : Choice B) : Type 0 where
    pub of_balance : HasBalance nothing balances s.currency s.balance
    pub of_card : HasCard cards s.card

  rows-card :
      (cards : List Card) (e : Event B)
      → IsIn e (offers (rows card_item cards))
      → (id : String) × (e ≡ chose_card id) × (any (λ c. str_eq c.id id) cards ≡ true)
  rows-card [] e h = elim h [ ]
  rows-card (c ∷ rest) e (inl first) = (c.id, first, ground (arith, eq_refl c.id))
  rows-card (c ∷ rest) e (inr later) =
      let (id, same, found) = rows-card rest e later in (id, same, ground arith)

  open_button-IsRight :
      (tab : Tab) (balances : List B) (cards : List Card) (s : Choice B) (e : Event B)
      → IsRight balances cards s
      → IsIn e (offers (open_button tab ∷ []))
      → IsRight balances cards (step s e)
  unfolding step
  open_button-IsRight deposit balances cards s e h (inl opens) =
      subst (λ x. IsRight balances cards (step s x)) (sym opens)
        (record { of_balance = h.of_balance; of_card = h.of_card })
  open_button-IsRight withdraw balances cards s e h (inl opens) =
      subst (λ x. IsRight balances cards (step s x)) (sym opens)
        (record { of_balance = h.of_balance; of_card = h.of_card })
  open_button-IsRight deposit balances cards s e h (inr over) = elim over [ ]
  open_button-IsRight withdraw balances cards s e h (inr over) = elim over [ ]

  card_given :
      (cards : List Card) (o : Option String)
      → HasCard cards o
      → (id_or_empty o ≡ "") ⊎ (any (λ c. str_eq c.id (id_or_empty o)) (filter_cards cards) ≡ true)
  card_given cards none h = inl refl
  card_given cards (some id) h = inr h

  offered-IsRight :
      (tab : Tab) (balances : List B) (cards : List Card) (s : Choice B) (e : Event B)
      → IsRight balances cards s
      → IsIn e (offers (tab_items tab balances cards))
      → IsRight balances cards (step s e)
  unfolding step
  offered-IsRight tab balances cards s e h (inl vnd) =
      subst (λ x. IsRight balances cards (step s x)) (sym vnd)
        (record { of_balance = inl (refl, refl); of_card = h.of_card })
  offered-IsRight tab balances cards s e h (inr (inl usd)) =
      subst (λ x. IsRight balances cards (step s x)) (sym usd)
        (record { of_balance = inr (inl (refl, refl)); of_card = h.of_card })
  offered-IsRight tab balances cards s e h (inr (inr (inl eth))) =
      subst (λ x. IsRight balances cards (step s x)) (sym eth)
        (record { of_balance = inr (inr (refl, refl)); of_card = h.of_card })
  offered-IsRight tab balances cards s e h (inr (inr (inr below))) =
      elim (offers-cases e (rows card_item (filter_cards cards)) (open_button tab ∷ []) below) [
        | inl card ↦
            let (id, chosen, found) = rows-card (filter_cards cards) e card in
            subst (λ x. IsRight balances cards (step s x)) (sym chosen)
              (record { of_balance = h.of_balance; of_card = found })
        | inr opens ↦ open_button-IsRight tab balances cards s e h opens
      ]

  view-IsRight :
      (tab : Tab) (balances : List B) (cards : List Card) (s : Choice B) (e : Event B)
      → IsRight balances cards s
      → IsIn e (offers (view tab balances cards))
      → IsRight balances cards (step s e)
  unfolding view
  view-IsRight tab balances [] s e h offered = elim offered [ ]
  view-IsRight tab balances (c ∷ rest) s e h offered =
      offered-IsRight tab balances (c ∷ rest) s e h offered

  Reach-IsRight :
      (balances : List B) (cards : List Card) {s t : Choice B}
      → IsRight balances cards s
      → Reach balances cards s t
      → IsRight balances cards t
  unfolding step
  Reach-IsRight balances cards h here = h
  Reach-IsRight balances cards h (clicks {t} tab e r offered) =
      view-IsRight tab balances cards t e (Reach-IsRight balances cards h r) offered
  Reach-IsRight balances cards h (shuts {t} r) =
      let k = Reach-IsRight balances cards h r in
      record { of_balance = k.of_balance; of_card = k.of_card }

  -- For someone who only clicks what the page shows, under either tab: if the page was opened with the
  -- balances that it shows, then both dialogs are at any time given a currency with its own balance,
  -- and no card or one of those that the page shows, which are the Visa cards and Mastercards.
  pub Reach-given :
      (balances : List B) (cards : List Card) {t : Choice B}
      → Reach balances cards (initial nothing balances) t
      → let g = given t in
        HasBalance nothing balances g.currency g.balance
        × ((g.card_id ≡ "") ⊎ (any (λ c. str_eq c.id g.card_id) (filter_cards cards) ≡ true))
  unfolding given initial
  Reach-given balances cards {t} run =
      let h =
        Reach-IsRight balances cards (record { of_balance = inl (refl, refl); of_card = tt }) run in
      (h.of_balance, card_given cards t.card h.of_card)
