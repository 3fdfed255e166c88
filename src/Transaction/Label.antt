-- ===== src/Transaction/Label.antt =====
-- components/transaction: format_title.tsx, format_type.tsx, format_icon.tsx, user_info.tsx,
-- info_details.tsx and item_transaction.tsx. A number is given on as the text that the formatter of
-- the currency makes of it, which is a parameter.
use mpc_main.Prelude.{
  ℕ, String, ◌≡◌, refl, Bool, true, false, not, ◌&&◌, ◌||◌, Option, none, some, str_eq, eq_refl,
  if◌then◌else◌, truthy, or_text,
}
use Prim.Native.String

pub record Party : Type 0 where
  pub id : Option String
  pub full_name : Option String
  pub email : Option String

-- A transaction as the lists read it: `id` and `_id` are two fields.
pub record Item : Type 0 where
  pub id : Option String
  pub mongo_id : Option String
  pub type : String
  pub title : Option String
  pub amount : ℕ
  pub symbol : Option String
  pub sender : Option Party
  pub receiver : Option Party
  pub message : Option String
  pub created_at : String

-- `a === b` where both may be undefined.
abbrev pub same_id : Option String → Option String → Bool
same_id none none = true
same_id (some a) (some b) = str_eq a b
same_id _ _ = false

-- `party?._id`, `party?.full_name`
abbrev pub id_of : Option Party → Option String
id_of none = none
id_of (some p) = p.id

abbrev pub name_of : Option Party → Option String
name_of none = none
name_of (some p) = p.full_name

abbrev pub email_of : Option Party → Option String
email_of none = none
email_of (some p) = p.email

-- `FormatTitle`, at the user that the list gives on.
unfoldable pub format_title : Item → Option String → String
format_title item user_id =
    if str_eq item.type "transfer" && same_id (id_of item.sender) user_id
    then String.◌++◌ "Chuyển tiền đến "
        (or_text (name_of item.receiver) "người dùng không xác định")
    else if str_eq item.type "transfer" && not (same_id (id_of item.sender) user_id)
    then String.◌++◌ "Nhận tiền từ " (or_text (name_of item.sender) "người dùng không xác định")
    else if str_eq item.type "payment"
    then or_text item.title "Giao dịch thanh toán"
    else if str_eq item.type "refund"
    then or_text item.title "Hoàn tiền"
    else if str_eq item.type "deposit"
    then or_text item.title "Nạp tiền"
    else if str_eq item.type "withdraw"
    then or_text item.title "Rút tiền"
    else if str_eq item.type "withdraw-partner"
    then or_text item.title "Rút tiền đối tác"
    else "Không có tiêu đề"

-- The sign before an amount: red and minus, green and plus, or grey and none.
pub data Sign : Type 0 where
  minus plus unsigned : Sign

-- `FormatTypeCurrency`
unfoldable pub format_sign : Item → Option String → Sign
format_sign item user_id =
    if str_eq item.type "payment"
    then minus
    else if str_eq item.type "transfer" && same_id (id_of item.sender) user_id
    then minus
    else if str_eq item.type "transfer" && not (same_id (id_of item.sender) user_id)
    then plus
    else if str_eq item.type "refund" || str_eq item.type "deposit"
    then plus
    else if str_eq item.type "withdraw"
    then minus
    else if str_eq item.type "withdraw-partner"
    then plus
    else unsigned

unfoldable pub currency_of : Item → String
currency_of item = or_text item.symbol "VND"

pub data Icon : Type 0 where
  send_money vnd : Icon

-- `FormatIcon`
unfoldable pub format_icon : String → Icon
format_icon type =
    if str_eq type "transfer" then send_money else if str_eq type "payment" then vnd else send_money

-- A row of a list. The link holds `_id`, and the word undefined where that is missing.
pub record Row : Type 0 where
  pub link : String
  pub icon : Icon
  pub title : String
  pub sign : Sign
  pub amount : ℕ
  pub currency : String
  pub created_at : String

abbrev text_or_undefined : Option String → String
text_or_undefined none = "undefined"
text_or_undefined (some t) = t

abbrev pub is_full : Option String → Bool
is_full none = false
is_full (some t) = truthy t

abbrev row_of : Item → Option String → Row
row_of item user_id = record {
  link = String.◌++◌ "/transaction/details?id=" (text_or_undefined item.mongo_id);
  icon = format_icon item.type;
  title = format_title item user_id;
  sign = format_sign item user_id;
  amount = item.amount;
  currency = currency_of item;
  created_at = item.created_at;
}

-- `ItemTransaction`; null for no item, and for one without `id`.
unfoldable pub item_transaction : Option Item → Option String → Option Row
item_transaction none user_id = none
item_transaction (some item) user_id = if is_full item.id then some (row_of item user_id) else none

-- `UserInfo` reads `_id` of both parties with no test, so that they are there.
pub record Details : Type 0 where
  pub message : String
  pub partner_label : String
  pub partner_name : Option String
  pub partner_email : Option String

unfoldable pub user_info : Item → Party → Party → Option String → Details
user_info item sender receiver user_id =
    let sent = same_id sender.id user_id in
    record {
      message = or_text item.message "Không có nội dung";
      partner_label = if sent then "Người nhận" else "Người gửi";
      partner_name = if not sent then sender.full_name else receiver.full_name;
      partner_email = if not sent then sender.email else receiver.email;
    }

-- `InfoDetails`
unfoldable pub info_details : Item → Party → Party → Option String → Option Details
unfolding user_info
info_details item sender receiver user_id =
    if str_eq item.type "transfer"
    then some (user_info item sender receiver user_id)
    else if str_eq item.type "payment"
    then some (user_info item sender receiver user_id)
    else none

module _ (item : Item) (sender receiver : Party) (a b : String) (transfer : item.type ≡ "transfer")
    (from : item.sender ≡ some sender) (to : item.receiver ≡ some receiver)
    (sender_id : sender.id ≡ some a) (receiver_id : receiver.id ≡ some b)
    (apart : str_eq a b ≡ false) where
  -- A transfer between two different users is shown to the one who sent it with a minus and the name
  -- of the receiver, and to the one who received it with a plus and the name of the sender; the page
  -- of its details names to either the other one, too.
  pub transfer_both_sides :
      (format_sign item (some a) ≡ minus)
      × (format_title item (some a)
          ≡ String.◌++◌ "Chuyển tiền đến " (or_text receiver.full_name "người dùng không xác định"))
      × (format_sign item (some b) ≡ plus)
      × (format_title item (some b)
          ≡ String.◌++◌ "Nhận tiền từ " (or_text sender.full_name "người dùng không xác định"))
      × ((user_info item sender receiver (some a)).partner_name ≡ receiver.full_name)
      × ((user_info item sender receiver (some b)).partner_name ≡ sender.full_name)
  unfolding format_sign format_title user_info
  transfer_both_sides =
      let own : str_eq a a ≡ true = eq_refl a in
      rw (transfer, from, to, sender_id, own, apart) (refl, refl, refl, refl, refl, refl)

-- A list that gives no user on, as the one of the home page does, shows every transfer whose sender
-- has an identifier as one that was received, also to the user who sent it.
pub transfer_unknown_user :
    (item : Item) (sender : Party) (a : String)
    → item.type ≡ "transfer"
    → item.sender ≡ some sender
    → sender.id ≡ some a
    → (format_sign item none ≡ plus)
      × (format_title item none
          ≡ String.◌++◌ "Nhận tiền từ " (or_text sender.full_name "người dùng không xác định"))
unfolding format_sign format_title
transfer_unknown_user item sender a transfer from sender_id =
    rw (transfer, from, sender_id) (refl, refl)
