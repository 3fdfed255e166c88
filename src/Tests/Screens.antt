-- ===== src/Tests/Screens.antt =====
-- Runs of pages by what they show.
use mpc_main.Prelude.{
  ℕ, ◌+◌, ◌<◌, String, ◌≡◌, refl, ◌↔◌, ◌⊎◌, inl, inr, true, false, ◌&&◌, List, [], ◌∷◌, map, str_eq,
  leb, if◌then◌else◌, length, any, Text, units,
}
use mpc_main.Store.{initial_auth}
use mpc_main.Cards.List.{Card}
use mpc_main.Auth.{Credentials}
use mpc_main.Auth.Screen.{Entrance, login_view, login_sent}
use mpc_main.Auth.Screen.Single
use mpc_main.Auth.Screen.Single.{IsCalm, Reach-IsCalm}
use mpc_main.Business.Keys.{handle_delete_key}
use mpc_main.Business.Keys.Screen.{initial, Screen, press, delete, confirm, view}
use mpc_main.Business.Keys.Offered
use mpc_main.Business.Keys.Offered.{is_listed, Reach-confirm}
use mpc_main.Business.Users
use mpc_main.Business.Users.Laws.{
  Event, loaded, searched, email_typed, invited, deleted, role_chosen, run, meets, IsShown,
}
use mpc_main.Business.Users.Screen
use mpc_main.Business.Users.Screen.{run-view}
use mpc_main.Views.{offers, IsIn}
use mpc_main.Wallet.Choice
use mpc_main.Wallet.Choice.{chose_card, chose_currency, step, given, filter_cards}
use mpc_main.Wallet.Screen as Page
use mpc_main.Wallet.Screen.{HasBalance, Reach-given}

-- A login is sent, and gets no answer.
abbrev user : Credentials
user = record { email = units "an@mpc.vn"; password = units "Abcdef1!" }

abbrev start : Entrance
start = record {
  store = initial_auth;
  user = user;
  fields = record { email = []; password = []; confirm_password = [] };
  logins = [];
  signups = [];
}

start-IsCalm : IsCalm start
start-IsCalm = record { one_login = inl (refl, refl); one_signup = inl (refl, refl) }

sent-Reach : Single.Reach start (login_sent start)
unfolding login_view
sent-Reach = Single.logs_in false Single.here (inr (inl refl))

Reach-IsCalm_example : IsCalm (login_sent start)
Reach-IsCalm_example = Reach-IsCalm start-IsCalm sent-Reach

-- The bin of the first key is pressed.
abbrev upper : String → String
upper s = s

abbrev locale : ℕ → String
locale n = "15.420"

abbrev asking : Screen
asking = (press initial (delete "1")).0

asking-Reach : Offered.Reach upper locale initial asking
unfolding view
asking-Reach = Offered.presses (delete "1") Offered.here (inr (inr (inr (inr (inl refl)))))

Reach-confirm_example :
    let keys = (press asking confirm).0.keys.api_keys in
    (is_listed "1" asking.keys.api_keys ≡ true)
    × (is_listed "1" keys ≡ false)
    × (length keys < length asking.keys.api_keys)
unfolding press handle_delete_key
Reach-confirm_example = Reach-confirm upper locale "1" refl asking-Reach refl refl

abbrev lower : Text → Text
lower = map (λ c. if leb b'A' c && leb c b'Z' then c + 32 else c)

initial-IsShown : IsShown lower Users.initial
initial-IsShown = record { entitled = tt; exact = refl }

abbrev events : List Event
events =
    loaded
    ∷ searched (units "COMPANY")
    ∷ email_typed (units "an@mpc.vn")
    ∷ invited "17" "2024-02-01"
    ∷ deleted true "1"
    ∷ role_chosen "member"
    ∷ []

run-view_example :
    let t = run lower Users.initial events in
    IsIn (Users.Screen.delete "2") (offers (Users.Screen.view (λ d. d) (λ n. "2") t))
    ↔ (any (λ u. meets lower t u && str_eq u.id "2") t.users ≡ true)
unfolding run Users.fetched Users.handle_invite_user Users.handle_delete_user
run-view_example = run-view lower (λ d. d) (λ n. "2") Users.initial events "2" initial-IsShown refl

-- A card of each kind, then a click on the dollars and on the card that is shown.
abbrev cards : List Card
cards =
    record { id = "c1"; number = units "4111111111111111"; name = "AN"; type = "visa" }
    ∷ record { id = "c2"; number = units "378282246310005"; name = "AN"; type = "amex" }
    ∷ []

abbrev balances : List ℕ
balances = 500000 ∷ 20 ∷ 3 ∷ []

abbrev clicked : Choice.Choice ℕ
clicked = step (step (Choice.initial 0 balances) (chose_currency "USD" 20)) (chose_card "c1")

clicked-Reach : Page.Reach 0 (λ b c. c) balances cards (Choice.initial 0 balances) clicked
unfolding Page.view filter_cards
clicked-Reach =
    Page.clicks Page.deposit (chose_card "c1")
      (Page.clicks Page.deposit (chose_currency "USD" 20) Page.here (inr (inl refl)))
      (inr (inr (inr (inl refl))))

Reach-given_example :
    HasBalance 0 balances (given clicked).currency (given clicked).balance
    × (((given clicked).card_id ≡ "")
        ⊎ (any (λ c. str_eq c.id (given clicked).card_id) (filter_cards cards) ≡ true))
Reach-given_example = Reach-given 0 (λ b c. c) balances cards clicked-Reach
