-- ===== src/Receive.antt =====
-- Receiving money: pages/receive/receive.tsx shows a code with a link, and the page of that link,
-- pages/receive/transfer.tsx, sends money to the user of the code. utils/convert_currency.ts and
-- utils/symbol_currency.ts serve both.
pub mod Transfer
use mpc_main.Prelude.{
  ◌+◌, ◌-◌, ◌/◌, String, ◌≡◌, refl, ap, Option, List, [], ◌∷◌, ◌++◌, str_eq, if◌then◌else◌, or_text,
}
use Prim.Native.String

-- `symbolCurrency`
abbrev pub symbol_currency : String → String
symbol_currency currency =
    if str_eq currency "VND"
    then "đ"
    else if str_eq currency "USD"
    then "$"
    else if str_eq currency "ETH"
    then "ETH"
    else " "

-- The state of the page with the code: `data.userID` is the email of the user.
pub record Code : Type 0 where
  pub selected : String
  pub user_id : String
  pub currency : String
  pub url : String

abbrev pub link_of : String → String → String
link_of user_id currency =
    String.◌++◌ "https://wallet.pointer.io.vn/transfer/info?email="
      (String.◌++◌ user_id (String.◌++◌ "&currency=" currency))

unfoldable pub initial : Option String → Code
initial email =
    let user_id = or_text email " " in
    record { selected = "VND"; user_id = user_id; currency = "VND"; url = link_of user_id "VND" }

-- `handleSelect`
unfoldable pub handle_select : Code → String → Code
handle_select s select = record s {
  selected = select;
  currency = select;
  url = link_of s.user_id select;
}

unfoldable pub run : Code → List String → Code
run s [] = s
run s (select ∷ rest) = run (handle_select s select) rest

-- The code is the link for this user and the currency that is marked.
pub record IsShown (email : Option String) (s : Code) : Type 0 where
  pub user : s.user_id ≡ or_text email " "
  pub marked : s.currency ≡ s.selected
  pub link : s.url ≡ link_of (or_text email " ") s.selected

run-IsShown :
    (email : Option String) (s : Code) (selects : List String)
    → IsShown email s
    → IsShown email (run s selects)
unfolding run handle_select
run-IsShown email s [] h = h
run-IsShown email s (select ∷ rest) h =
    run-IsShown email (handle_select s select) rest
      (record { user = h.user; marked = refl; link = ap (λ u. link_of u select) (h.user) })

-- Whichever currencies are chosen one after the other, the code that is shown is the link for the
-- user's email, or for a space where there is none, and for the currency that is marked.
pub code-IsShown :
    (email : Option String) (selects : List String) → IsShown email (run (initial email) selects)
unfolding initial
code-IsShown email selects =
    run-IsShown email (initial email) selects (record { user = refl; marked = refl; link = refl })
