-- ===== src/Payment/Laws.antt =====
-- The amount that is shown belongs to the voucher that is sent.
use mpc_main.Prelude.{
  ℕ, ◌≤◌, ◌<◌, String, ◌≡◌, ◌↔◌, Option, some, List, [], ◌∷◌, arith, ◌==◌, if◌then◌else◌,
}
use mpc_main.Ui.{Reply, answered}
use mpc_main.Payment.{
  Bill, Voucher, Gateway, bill_fetched, handle_close, handle_open_voucher, vouchers_fetched,
  voucher_end, voucher_item, usable, not_enough,
}
use mpc_main.Payment.Confirm

-- What happens to the page once the bill is there; @tanstack/react-query fetches it again when the
-- window is focused or the network is back, and its `queryFn` is run again then.
pub data Event : Type 0 where
  pressed_pay pressed_voucher : Event
  refetched : Bill → Event
  listed : Reply (List Voucher) → Event
  voucher_answered : String → Reply ℕ → Event

unfoldable pub step : Gateway → Event → Gateway
step s pressed_pay = handle_close s
step s pressed_voucher = handle_open_voucher s
step s (refetched b) = bill_fetched b s
step s (listed r) = vouchers_fetched s r
step s (voucher_answered code r) = (voucher_end code s r).0

unfoldable pub run : Gateway → List Event → Gateway
run s [] = s
run s (ev ∷ rest) = run (step s ev) rest

-- The amount that the server named last, in a bill or for a voucher that it accepted.
abbrev pub total_after : ℕ → Event → ℕ
total_after last (refetched b) = b.amount
total_after last (voucher_answered code (answered status amount)) =
    if status == 200 then amount else last
total_after last _ = last

abbrev pub last_total : ℕ → List Event → ℕ
last_total last [] = last
last_total last (ev ∷ rest) = last_total (total_after last ev) rest

-- The bill as it was fetched last.
abbrev pub last_bill : Bill → List Event → Bill
last_bill b [] = b
last_bill b (refetched new ∷ rest) = last_bill new rest
last_bill b (_ ∷ rest) = last_bill b rest

-- The voucher that the server accepted last.
abbrev pub voucher_after : Option String → Event → Option String
voucher_after last (voucher_answered code (answered status amount)) =
    if status == 200 then some code else last
voucher_after last _ = last

abbrev pub last_voucher : Option String → List Event → Option String
last_voucher last [] = last
last_voucher last (ev ∷ rest) = last_voucher (voucher_after last ev) rest

-- A voucher of the list can be used exactly if the bill is above its least amount.
pub voucher_item_iff :
    (amount : ℕ) (v : Voucher)
    → ((voucher_item amount v ≡ usable v.code) ↔ (v.min_condition < amount))
      × ((voucher_item amount v ≡ not_enough) ↔ (amount ≤ v.min_condition))
unfolding voucher_item
voucher_item_iff amount v =
    ((λ h. ground arith, λ h. ground arith), (λ h. ground arith, λ h. ground arith))
