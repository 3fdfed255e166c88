-- ===== src/Tests/Money.antt =====
-- Runs of deposits, withdrawals, transfers and payments.
use mpc_main.Prelude.{
  ℕ, ◌+◌, ◌*◌, ◌≤◌, ◌≡◌, refl, ◌≢◌, ◌↔◌, true, false, not, none, some, List, [], ◌∷◌, arith, str_eq,
  ltb, ◌==◌, if◌then◌else◌, Text, units, text_eq,
}
use mpc_main.Ui.{answered}
use mpc_main.Otp.{Entry}
use mpc_main.Cards.List.{Card}
use mpc_main.Numbers.{Numbers, IsPlain, value}
use mpc_main.Wallet.Amount.{Page, lowest, highest, is_some, confirm_deposit}
use mpc_main.Wallet.Amount.Limits.{confirm_deposit_iff}
use mpc_main.Transfer.Amount
use mpc_main.Transfer.Amount.{
  DataSend, Wallet, handle_submit, value_change, handle_submit_iff, cleared_amount_opens,
  initial-share_data,
}
use mpc_main.Transfer.Drawer
use mpc_main.Transfer.Drawer.{entry, entry-double}
use mpc_main.Transfer.Search as Search
use mpc_main.Cards.Format.{trim_start, trim_end}
use mpc_main.Transfer.Wizard
use mpc_main.Transfer.Wizard.{
  Chosen, pick_currency, pick_user, pick, receiver, click, change_step, Reach, start, types, next,
  Reach-view,
}
use mpc_main.Payment.{Bill}
use mpc_main.Payment
use mpc_main.Payment.Confirm
use mpc_main.Payment.Laws
use mpc_main.Validation.{is_upper}

-- Whole numbers with their digits read as a number; the text of a number is not needed.
abbrev pub naturals : Numbers
naturals = record {
  Num = ℕ;
  of_nat = λ n. n;
  parse_float = value;
  number_of = value;
  lt = ltb;
  is_whole = λ n. true;
  mul = λ a b. a * b;
  nan = 0;
  is_truthy = λ n. not (n == 0);
  to_locale = λ n. "10,000";
  lt-of_nat = λ a b ha hb. refl;
  parse_float-plain = λ t h. refl;
  number_of-plain = λ t h. refl;
  is_whole-of_nat = λ a. refl;
  mul-of_nat = λ a b h. refl;
  is_truthy-of_nat = λ a. refl;
}

abbrev amount : Text
amount = units "500"

amount-IsPlain : IsPlain amount
amount-IsPlain = record { digits = refl; full = refl; short = omega arith }

abbrev card : Card
card = record { id = "c1"; number = units "4242"; name = "An"; type = "debit" }

abbrev page : Page
page = record { amount = amount; drawer_open = false }

confirm_deposit_iff_example :
    ((confirm_deposit naturals "USD" (some card) page).0.drawer_open ≡ true) ↔ (
      (lowest "USD" ≤ value amount)
      × (value amount ≤ highest "USD")
      × (str_eq "USD" "ETH" ≡ false)
      × (is_some (some card) ≡ true))
confirm_deposit_iff_example =
    confirm_deposit_iff naturals "USD" (some card) page amount-IsPlain refl

-- The lower case of a letter of ASCII.
abbrev lower : ℕ → ℕ
lower c = if is_upper c then c + 32 else c

abbrev order : DataSend
order = record {
  from_address = units "0xab";
  to_address = units "0xcd";
  amount = amount;
  symbol = "ETH";
  share_data = "share";
  chain_id = 11155111;
  security_code = [];
  message = none;
}

abbrev amount_page : Amount.Page
amount_page = record { balance = amount; order = order; error = none; is_open = false }

handle_submit_iff_example :
    (((handle_submit naturals amount_page).is_open ≡ true) ↔ (value amount ≤ value amount))
    × (((handle_submit naturals amount_page).error ≡ none) ↔ (value amount ≤ value amount))
handle_submit_iff_example =
    handle_submit_iff naturals amount_page amount-IsPlain amount-IsPlain refl refl

abbrev drawer : Entry Drawer.Drawer
drawer = record {
  page = record { otp = []; error = none; is_loading = false };
  pending = 0;
  sent = 0;
}

abbrev code : Text
code = units "123456"

abbrev ether : Chosen
ether = record { currency = "ETH"; image = "eth.png" }

abbrev at_first : Wizard.Wizard
at_first = Wizard.initial (Wizard.loaded (units "0xab"))

abbrev chosen : Wizard.Wizard
chosen = click at_first (pick_currency ether)

abbrev searched : Wizard.Wizard
searched = record chosen {
  search = (Search.input (λ t. t) (some (units "0xab")) chosen.search (units "0xcd")).0;
}

shows_first : Wizard.view at_first ≡ Wizard.currencies
unfolding Wizard.view
shows_first = refl

shows_second : Wizard.view chosen ≡ Wizard.search_user Search.blank
unfolding Wizard.view click change_step Search.view
shows_second = refl

shows_row : Wizard.view searched ≡ Wizard.search_user (Search.row (units "0xcd"))
unfolding Wizard.view click change_step Search.view Search.input Search.search trim_end trim_start
    text_eq
shows_row = refl

searched-Reach : Reach (λ t. t) searched
unfolding click change_step
searched-Reach =
    types Search.blank (units "0xcd")
      (next (start (Wizard.loaded (units "0xab"))) (pick ether shows_first)) shows_second

Reach-view_example :
    let s = click searched (pick_user (some (units "0xcd"))) in
    (Wizard.view s ≢ Wizard.invalid) × ((Wizard.view s ≡ Wizard.crash) ↔ Wizard.IsCrashed s)
Reach-view_example =
    Reach-view (λ t. t) {s = click searched (pick_user (some (units "0xcd")))}
      (next searched-Reach (receiver (units "0xcd") shows_row))

abbrev bill : Bill
bill = record { id = "b1"; amount = 100; partner_id = "p1" }

abbrev events : List Laws.Event
events =
    Laws.pressed_voucher
    ∷ Laws.voucher_answered "TET" (answered 200 90)
    ∷ Laws.voucher_answered "OLD" (answered 404 0)
    ∷ Laws.pressed_pay
    ∷ Laws.refetched bill
    ∷ []

abbrev pay_drawer : Confirm.Drawer
pay_drawer = record { otp = []; error = none; is_loading = false }
