-- ===== src/Payment.antt =====
-- A payment: pages/payment/payment.tsx with components/payment: the bill, its voucher, and the
-- security code that confirms it.
pub mod Confirm
pub mod Laws
use mpc_main.Prelude.{
  ℕ, String, Bool, true, false, not, Option, none, some, List, [], ◌∷◌, ltb, ◌==◌, if◌then◌else◌,
  Text,
}
use mpc_main.Ui.{Effect, success, failure, send, raised, Reply, answered, threw, network, refused}

-- `data` of the bill that is paid; amounts are whole numbers here.
pub record Bill : Type 0 where
  pub id : String
  pub amount : ℕ
  pub partner_id : String

pub record Voucher : Type 0 where
  pub code : String
  pub title : String
  pub quantity : ℕ
  pub min_condition : ℕ

-- The state of the page, and that of the drawer with the vouchers in it.
pub record Gateway : Type 0 where
  pub new_amount : Option ℕ
  pub voucher_code : Option String
  pub is_open : Bool
  pub is_open_voucher : Bool
  pub vouchers : Option (List Voucher)
  pub is_loading : Bool

abbrev pub initial : Gateway
initial = record {
  new_amount = none;
  voucher_code = none;
  is_open = false;
  is_open_voucher = false;
  vouchers = none;
  is_loading = true;
}

pub data Request : Type 0 where
  apply_voucher : String → String → Request
  confirm_payment : String → Text → Option String → Request

abbrev pub Effects : Type 0
Effects = List (Effect Request)

-- `queryFn`: the amount of the bill is the amount to pay.
unfoldable pub bill_fetched : Bill → Gateway → Gateway
bill_fetched b s = record s { new_amount = some b.amount }

-- `handleClose`, `handleOpenVoucher`, `handleApplyVoucher`
unfoldable pub handle_close : Gateway → Gateway
handle_close s = record s { is_open = not s.is_open }

unfoldable pub handle_open_voucher : Gateway → Gateway
handle_open_voucher s = record s { is_open_voucher = not s.is_open_voucher }

unfoldable pub handle_data_voucher : Gateway → String → ℕ → Gateway
handle_data_voucher s code amount = record s {
  new_amount = some amount;
  voucher_code = some code;
  is_open_voucher = false;
}

-- `fetchVoucher`, after the answer.
unfoldable pub vouchers_fetched : Gateway → Reply (List Voucher) → Gateway
vouchers_fetched s (answered status vouchers) =
    if status == 200 then record s { vouchers = some vouchers; is_loading = false } else s
vouchers_fetched s (threw f) = record s { is_loading = false }

-- `handleApplyVoucher` and `handleAvailableApplyVoucher` of the drawer, for the code that is typed
-- and for one of the list: the request, and what follows the answer, the amount that is left.
unfoldable pub voucher_begin : Bill → String → Effects
voucher_begin b code = send (apply_voucher b.id code) ∷ []

unfoldable pub voucher_end : String → Gateway → Reply ℕ → Gateway × Effects
unfolding handle_data_voucher
voucher_end code s (answered status amount) =
    if status == 200
    then (
      record (handle_data_voucher s code amount) { is_loading = false },
      success (some "Áp dụng voucher thành công") ∷ [],
    )
    else (s, [])
voucher_end code s (threw network) = (s, raised ∷ [])
voucher_end code s (threw (refused m)) = (s, failure m ∷ [])

-- voucher_item.tsx: the button that uses a voucher, or one that is disabled.
pub data Item : Type 0 where
  usable : String → Item
  not_enough : Item

unfoldable pub voucher_item : ℕ → Voucher → Item
voucher_item amount v = if ltb v.min_condition amount then usable v.code else not_enough
