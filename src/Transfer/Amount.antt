-- ===== src/Transfer/Amount.antt =====
-- pages/transfer/input_amount.tsx.
use mpc_main.Prelude.{
  ℕ, ◌≤◌, String, ◌≡◌, refl, ap, ◌≢◌, ◌↔◌, inl, inr, Bool, true, false, not, Option, none, some,
  List, [], arith, str_eq, ltb, if◌then◌else◌, Bool-cases, Text, units, text_eq_refl, is_empty,
}
use mathlib.Core.Option.{some-injective}
use mpc_main.Numbers.{Numbers, IsPlain, value, value-lt}
use mpc_main.Auth.Thunk.{share_key, get_item, set_items, register_end}
use mpc_main.Auth.Thunk.Laws.{get_item-register_end}
use mpc_main.Auth.{Credentials}
use mpc_main.Ui.{answered}

-- `DataSendETH`; `chain_id` is the one of Sepolia throughout.
pub record DataSend : Type 0 where
  pub from_address : Text
  pub to_address : Text
  pub amount : Text
  pub symbol : String
  pub share_data : String
  pub chain_id : ℕ
  pub security_code : Text
  -- `handleChange` adds the text of the message under its name.
  pub message : Option String

pub record Page : Type 0 where
  pub balance : Text
  pub order : DataSend
  pub error : Option String
  pub is_open : Bool

pub record Wallet : Type 0 where
  pub address : Text
  pub user_id : Text

abbrev or_empty : Option String → String
or_empty none = ""
or_empty (some s) = s

-- The state at first: the share is read from the local storage under the number of the user.
unfoldable pub initial : Wallet → Text → String → List (Text × String) → Page
initial wallet receiver currency storage = record {
  balance = units "0";
  order = record {
    from_address = wallet.address;
    to_address = receiver;
    amount = [];
    symbol = currency;
    share_data = or_empty (get_item (share_key wallet.user_id) storage);
    chain_id = 11155111;
    security_code = [];
    message = none;
  };
  error = none;
  is_open = false;
}

-- `fetchBalance`: the balance of the answer, or 0; an error leaves the balance.
unfoldable pub balance_fetched : Page → Option Text → Page
balance_fetched s none = record s { balance = units "0" }
balance_fetched s (some b) = record s { balance = b }

-- `handleChange`, of the field for the message.
unfoldable pub message_change : Page → String → Page
message_change s text = record s { error = none; order = record (s.order) { message = some text } }

-- `onValueChange` of the amount: `value || "0"`.
unfoldable pub value_change : Page → Option Text → Page
value_change s none = record s { error = none; order = record (s.order) { amount = units "0" } }
value_change s (some v) = record s {
  error = none;
  order = record (s.order) { amount = if is_empty v then units "0" else v };
}

module _ (numbers : Numbers) where
  open numbers use {number_of, lt}

  -- `handleSubmit`, which is also called when the drawer is closed.
  unfoldable pub handle_submit : Page → Page
  handle_submit s =
      if is_empty s.order.amount
      then record s { error = some "Vui lòng nhập số tiền" }
      else if lt (number_of s.balance) (number_of s.order.amount)
      then record s { error = some "Số dư không đủ" }
      else record s { is_open = not s.is_open }

  open numbers use {lt-of_nat, number_of-plain}

  compare-plain :
      (a b : Text)
      → IsPlain a
      → IsPlain b
      → lt (number_of a) (number_of b) ≡ ltb (value a) (value b)
  compare-plain a b ha hb =
      rw (number_of-plain a ha, number_of-plain b hb)
        (lt-of_nat (value a) (value b) (value-lt a ha) (value-lt b hb))

  -- For a balance and an amount of one to fifteen digits, with the drawer shut and no error shown, the
  -- button opens the drawer exactly if the amount is not above the balance, and otherwise shows an
  -- error; an amount of zero opens it too.
  pub handle_submit_iff :
      (s : Page)
      → IsPlain s.balance
      → IsPlain s.order.amount
      → s.is_open ≡ false
      → s.error ≡ none
      → (((handle_submit s).is_open ≡ true) ↔ (value s.order.amount ≤ value s.balance))
        × (((handle_submit s).error ≡ none) ↔ (value s.order.amount ≤ value s.balance))
  unfolding handle_submit
  handle_submit_iff s balance amount shut clear =
      let full = amount.full in
      rw (full, compare-plain s.balance s.order.amount balance amount)
        ((λ h. ground arith, λ h. ground arith), (λ h. ground arith, λ h. ground arith))

  texts_differ : ◌≢◌ {A = String} "Số dư không đủ" "Vui lòng nhập số tiền"
  texts_differ e = cc (ap (λ t. str_eq t "Vui lòng nhập số tiền") e)

  present_amount :
      (s : Page)
      → is_empty s.order.amount ≡ false
      → s.error ≡ none
      → (handle_submit s).error ≢ some "Vui lòng nhập số tiền"
  unfolding handle_submit
  present_amount s full clear =
      elim (Bool-cases (lt (number_of s.balance) (number_of s.order.amount))) [
        | inl poor ↦ simp (full, poor) (λ e. texts_differ (some-injective _ _ e))
        | inr rich ↦ simp (full, rich) (λ e. cc)
      ]

  -- A cleared amount is no missing one: with the drawer shut and a balance of one to fifteen digits the
  -- button opens the drawer for an amount of "0", and after any change of the field the error for a
  -- missing amount is not shown.
  pub cleared_amount_opens :
      (s : Page)
      → IsPlain s.balance
      → s.is_open ≡ false
      → ((handle_submit (value_change s none)).is_open ≡ true)
        × ((handle_submit (value_change s none)).order.amount ≡ units "0")
        × ((v : Option Text)
            → (handle_submit (value_change s v)).error ≢ some "Vui lòng nhập số tiền")
  unfolding handle_submit value_change
  cleared_amount_opens s balance shut =
      let zero_plain : IsPlain (units "0") = record {
        digits = refl;
        full = refl;
        short = omega arith;
      } in
      (
        rw (compare-plain s.balance (units "0") balance zero_plain) (ground arith),
        ground arith,
        never,
      )
    where
      never :
          (v : Option Text)
          → (handle_submit (value_change s v)).error ≢ some "Vui lòng nhập số tiền"
      never none = present_amount (value_change s none) refl refl
      never (some v) = present_amount (value_change s (some v)) (ground arith) refl

-- The share that a registration stored is the one that the transfers of the same user carry.
pub initial-share_data :
    (user : Credentials) (wallet : Wallet) (message : Option String) (share currency : String)
    (receiver : Text) (storage : List (Text × String))
    → (initial wallet receiver currency (
        set_items
          (register_end user
            (answered 200 (record { message = message; payload = some (wallet.user_id, share) })))
          storage)).order.share_data
      ≡ share
unfolding initial
initial-share_data user wallet message share currency receiver storage =
    rw
      (
        get_item-register_end user wallet.user_id wallet.user_id message share storage,
        text_eq_refl wallet.user_id,
      )
      refl
