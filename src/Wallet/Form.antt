-- ===== src/Wallet/Form.antt =====
-- What pages/deposit-withdraw/deposit.tsx and withdraw.tsx show, and when they offer to go on.
use mpc_main.Prelude.{
  String, ◌≡◌, refl, ◌↔◌, inl, inr, Bool, true, false, Option, none, some, List, [], ◌∷◌, ◌++◌,
  str_eq, if◌then◌else◌, Text, is_empty,
}
use mpc_main.Views.{Item, label, shown, button, area, input, offers, IsIn}
use mpc_main.Cards.List.{Card}
use mpc_main.Wallet.Amount.{is_some}

-- `handleCopyAddress`, and the confirmation of the page.
pub data Press : Type 0 where
  copy_address confirm : Press

abbrev pub card_picture : Option Card → List (Item Press)
card_picture none = []
card_picture (some c) = shown c.number ∷ label c.name ∷ []

-- The button is disabled without an amount.
abbrev pub confirm_button : String → Text → Item Press
confirm_button title amount = button title (if is_empty amount then none else some confirm)

abbrev pub money : String → String → List (Item Press)
money currency balance = label "Tiền tệ: " ∷ label currency ∷ label "Số dư: " ∷ label balance ∷ []

-- `balance` is the balance as it is formatted.
abbrev pub address_part : Text → List (Item Press)
address_part address =
    label "Địa chỉ ví: "
    ∷ input "" address
    ∷ area copy_address
    ∷ button "Sao chép" (some copy_address)
    ∷ []

abbrev pub amount_part : String → Text → List (Item Press)
amount_part title amount =
    label "Số tiền:" ∷ input "Nhập số tiền" amount ∷ confirm_button title amount ∷ []

-- By whether the currency is ETH, whose deposit is the address of the wallet. Where no card is found,
-- rendering the page shows a toast.
abbrev pub deposit_items : Bool → String → Option Card → String → Text → Text → List (Item Press)
deposit_items true currency card balance address amount = address_part address
deposit_items false currency card balance address amount =
    card_picture card ++ (money currency balance ++ amount_part "Xác nhận nạp tiền" amount)

unfoldable pub deposit_view : String → Option Card → String → Text → Text → List (Item Press)
deposit_view currency card balance address amount =
    deposit_items (str_eq currency "ETH") currency card balance address amount

unfoldable pub withdraw_view : String → Option Card → String → Text → List (Item Press)
withdraw_view currency card balance amount =
    (if is_some card then card_picture card else label "Không tìm thấy thẻ!" ∷ [])
    ++ (money currency balance ++ amount_part "Xác nhận rút tiền" amount)

deposit_items-confirm :
    (b : Bool) (currency : String) (card : Option Card) (balance : String) (address amount : Text)
    → IsIn confirm (offers (deposit_items b currency card balance address amount))
      ↔ ((b ≡ false) × (is_empty amount ≡ false))
deposit_items-confirm true currency card balance address amount =
    (λ h. elim h [ inl e ↦ cc | inr (inl e) ↦ cc | inr (inr over) ↦ absurd over ], λ h. cc)
deposit_items-confirm false currency none balance address [] = (λ h. absurd h, λ h. cc)
deposit_items-confirm false currency none balance address (c ∷ t) =
    (λ h. (refl, refl), λ h. inl refl)
deposit_items-confirm false currency (some card) balance address [] = (λ h. absurd h, λ h. cc)
deposit_items-confirm false currency (some card) balance address (c ∷ t) =
    (λ h. (refl, refl), λ h. inl refl)

-- The page for deposits offers to confirm exactly if the currency is not ETH and an amount is typed,
-- whether there is a card or not.
pub deposit_view-confirm :
    (currency : String) (card : Option Card) (balance : String) (address amount : Text)
    → IsIn confirm (offers (deposit_view currency card balance address amount))
      ↔ ((str_eq currency "ETH" ≡ false) × (is_empty amount ≡ false))
unfolding deposit_view
deposit_view-confirm currency card balance address amount =
    deposit_items-confirm (str_eq currency "ETH") currency card balance address amount
