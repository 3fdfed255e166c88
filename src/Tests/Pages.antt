-- ===== src/Tests/Pages.antt =====
-- Runs of the pages: the transactions, the routes, the choice on the page for deposits, the page of a
-- code and the home page.
use mpc_main.Prelude.{
  ℕ, ◌+◌, ◌*◌, ◌≤◌, String, ◌≡◌, refl, ◌↔◌, true, false, not, Option, none, some, List, [], ◌∷◌,
  map, arith, str_eq, ltb, if◌then◌else◌, any, Text, units,
}
use mpc_main.Ui.{answered, threw, network, dispatches, visits}
use mpc_main.Cards.List.{Card}
use mpc_main.Numbers.{IsPlain, value}
use mpc_main.Wallet.Amount.{selected, lowest, highest, confirm_deposit}
use mpc_main.Wallet.Amount as Amount
use mpc_main.Wallet.Choice as Choice
use mpc_main.Wallet.Choice.{
  Event, given, chose_card, chose_currency, deposit_shown, chosen_card-opens,
}
use mpc_main.Receive.Transfer as Transfer
use mpc_main.Receive.Transfer.{
  within, handle_submit, value_change, has_error, rate, typed-handle_submit,
}
use mpc_main.Home.{Move, by_card}
use mpc_main.Store.{initial_auth, reduce_all}
use mpc_main.Auth.{Credentials}
use mpc_main.Auth.Thunk.{LoginBody, login_end}
use mpc_main.Setting.{finish_log_out}
use mpc_main.Routes.Journey.{delayed, login-opens, log_out-closes}
use mpc_main.Wallet.Drawer as Drawer
use mpc_main.Routes.{routes, view, by_session}
use mpc_main.Routes.Menu.{Item, last_tab, is_active, menu_items, run-selected, is_active-single}
use mpc_main.Routes.Menu as Menu
use mpc_main.Transaction.Label.{Party, Item as Transaction}
use mpc_main.Api.{card, delete_card, http_of}
use mpc_main.Api.Served.{handler_of, is_found, is_served, is_entitled, handler_of-http_of}
use mpc_main.Tests.Money.{naturals}

abbrev an : Party
an = record { id = some "u1"; full_name = some "An"; email = some "an@mpc.vn" }

abbrev binh : Party
binh = record { id = some "u2"; full_name = none; email = some "binh@mpc.vn" }

abbrev sent : Transaction
sent = record {
  id = some "1";
  mongo_id = none;
  type = "transfer";
  title = none;
  amount = 500;
  symbol = none;
  sender = some an;
  receiver = some binh;
  message = none;
  created_at = "2025-01-01";
}

-- A decoder that reads one token.
abbrev decode : String → Option ℕ
decode token = if str_eq token "abc" then some 2 else none

-- By the entry of the sidebar to the transfer, from there to its result, and back to the start.
abbrev transfer_tab : Item
transfer_tab = record { name = "Chuyển tiền"; link = "/transfer" }

abbrev walk : List Menu.Event
walk = Menu.clicked transfer_tab ∷ Menu.moved "/transfer/result" ∷ []

transfer_tab-IsListed : Menu.IsListed (Menu.clicked transfer_tab)
unfolding Menu.tab_at
transfer_tab-IsListed = refl

run-selected_example :
    ((Menu.run (Menu.initial none "Trang chủ") walk).selected ≡ last_tab "Trang chủ" walk)
    × ((Menu.initial (Menu.run (Menu.initial none "Trang chủ") walk).stored "Trang chủ").selected
        ≡ (Menu.run (Menu.initial none "Trang chủ") walk).selected)
run-selected_example = run-selected none "Trang chủ" walk (transfer_tab-IsListed, (tt, tt))

handler_of-http_of_example :
    (is_found (handler_of (http_of (card (delete_card "c1"))))
      ≡ is_served (card (delete_card "c1")))
    × (is_entitled
          (handler_of (http_of (card (delete_card "c1"))))
          (http_of (card (delete_card "c1"))).client
        ≡ true)
handler_of-http_of_example = handler_of-http_of (card (delete_card "c1"))

abbrev amount : Text
amount = units "500"

amount-IsPlain : IsPlain amount
amount-IsPlain = record { digits = refl; full = refl; short = omega arith }

abbrev visa : Card
visa = record { id = "c1"; number = units "4242"; name = "An"; type = "visa" }

abbrev choice : Choice.Choice ℕ
choice = record {
  card = none;
  currency = "VND";
  balance = 0;
  deposit_open = false;
  withdraw_open = false;
}

abbrev choices : List (Event ℕ)
choices = chose_currency "USD" 900 ∷ deposit_shown true ∷ []

abbrev deposit : Amount.Page
deposit = record { amount = amount; drawer_open = false }

visa_shown : any (λ c. str_eq c.id "c1") (Choice.filter_cards (visa ∷ [])) ≡ true
unfolding Choice.filter_cards
visa_shown = refl

chosen_card-opens_example :
    (let g = given (Choice.run (Choice.step choice (chose_card "c1")) choices) in
      ((confirm_deposit naturals g.currency (selected (visa ∷ []) g.card_id) deposit).0.drawer_open
        ≡ true)
      ↔ ((lowest g.currency ≤ value amount)
          × (value amount ≤ highest g.currency)
          × (str_eq g.currency "ETH" ≡ false)))
chosen_card-opens_example =
    chosen_card-opens naturals choice choices (visa ∷ []) "c1" deposit visa_shown refl
      amount-IsPlain refl

abbrev plain_text : Option ℕ → String → String
plain_text _ symbol = symbol

abbrev to_friend : Transfer.Page ℕ
to_friend = record { amount = 0; message = []; error = none; is_open = false }

typed-handle_submit_example :
    (let t =
        handle_submit naturals plain_text "USD"
          (some 900)
          (value_change naturals plain_text to_friend (some amount)) in
      (t.is_open ≡ (if within "USD" (value amount) 900 then true else false))
      × (has_error t.error ≡ not (within "USD" (value amount) 900)))
typed-handle_submit_example =
    typed-handle_submit naturals plain_text "USD" amount 900 to_friend refl amount-IsPlain
      (omega arith) (omega arith)

abbrev order : Drawer.Order
order = record { currency = "VND"; card_id = "c1"; security_code = []; amount = amount }

abbrev drawer : Drawer.Drawer
drawer = record { otp = []; error = none; is_loading = true }

abbrev moves : List Move
moves =
    by_card true order drawer (threw network) ∷ by_card true order drawer (answered 200 none) ∷ []

abbrev user : Credentials
user = record { email = units "an@mpc.vn"; password = units "Abc1" }

abbrev login_body : LoginBody
login_body = record { message = none; payload = some (some "abc") }

login-opens_example :
    (let effects = login_end user (answered 200 login_body) in
      (visits effects ≡ "/" ∷ [])
      × (map (view decode (reduce_all initial_auth (dispatches effects)).access_token 1500) routes
          ≡ map (by_session (ltb 1500 ((2 + 1) * 1000))) routes))
login-opens_example = login-opens decode initial_auth user login_body "abc" 1500 2 refl refl refl

log_out-closes_example :
    map
      (view decode
        (reduce_all initial_auth (delayed (finish_log_out true (answered 200 none)).1)).access_token
        1500)
      routes
    ≡ map (by_session false) routes
log_out-closes_example = log_out-closes decode initial_auth true none 1500
