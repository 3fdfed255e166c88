-- ===== src/Home.antt =====
-- pages/home.tsx and components/home/assets.tsx: when the home page reads the profile again, and what
-- it shows of the user.
pub mod Screen
use mpc_main.Prelude.{
  ℕ, zero, suc, ◌+◌, ◌-◌, ◌*◌, ◌/◌, ◌%◌, ◌^◌, ◌≤◌, ◌<◌, String, ◌≡◌, refl, sym, ap, ◌∙◌, ◌≢◌, ◌↔◌,
  ◌⊎◌, inl, inr, Bool, true, false, not, ◌&&◌, ◌||◌, Option, none, some, List, [], ◌∷◌, ◌++◌, map,
  arith, str_eq, eq_iff, eq_refl, ltb, leb, ◌==◌, if◌then◌else◌, Bool-cases, Option-cases,
  and-eq-true, truthy, or_text, length, take, drop, keep, find, any, all, length-take, length-drop,
  length-snoc, take-add, take_all, flat, flat-snoc, keep-append, keep_of_all, all-keep, all-take,
  all-drop, keep-keep, All, All-append, All-keep, Text, units, text_eq, text_eq_sound, text_eq_refl,
  is_empty, append_injective, String-cases,
}
use mpc_main.Store.{WalletState, initial_wallet, set_wallet_updated}
use mpc_main.Ui.{Effect, Reply, answered, threw, network, refused, wallet_updated}
use mpc_main.Transfer.Amount.{DataSend}
use mpc_main.Transfer.Drawer as ByTransfer
use mpc_main.Payment.Confirm as ByPayment
use mpc_main.Wallet.Drawer as ByCard

-- `getGreetingByTime`, at the hour of the day.
unfoldable pub greeting : ℕ → String
greeting hour =
    if ltb hour 12
    then "Chào buổi sáng"
    else if ltb hour 18
    then "Chào buổi chiều"
    else "Chào buổi tối"

-- `userData?.full_name || userData?.email || "Người dùng"`
unfoldable pub name_of : Option String → Option String → String
name_of full_name email = or_text full_name (or_text email "Người dùng")

-- `setWalletUpdated` among the effects of a handler, one after the other.
abbrev pub apply : {R : Type 0} → WalletState → List (Effect R) → WalletState
apply w [] = w
apply w (wallet_updated b ∷ rest) = apply (set_wallet_updated w b) rest
apply w (_ ∷ rest) = apply w rest

-- The effect of the home page: whether it reads the profile again, and the state that it leaves.
unfoldable pub arrive : WalletState → Bool × WalletState
arrive w = if w.is_updated then (true, set_wallet_updated w false) else (false, w)

-- An answer to one of the drawers that move money.
pub data Move : Type 0 where
  transfer : DataSend → ByTransfer.Drawer → Reply (Option String) → Move
  payment : String → Option String → ByPayment.Drawer → Reply (Unit {0}) → Move
  by_card : Bool → ByCard.Order → ByCard.Drawer → Reply (Option String) → Move

unfoldable pub move : WalletState → Move → WalletState
move w (transfer order s r) = apply w (ByTransfer.finish order s r).1
move w (payment id voucher s r) = apply w (ByPayment.finish id voucher s r).1
move w (by_card is_deposit order s r) = apply w (ByCard.finish is_deposit order s r).1

unfoldable pub run : WalletState → List Move → WalletState
unfolding move
run w [] = w
run w (m ∷ rest) = run (move w m) rest

abbrev pub is_ok : {B : Type 0} → Reply B → Bool
is_ok (answered status body) = status == 200
is_ok (threw f) = false

-- An answer of a transfer that is read without an exception.
abbrev has_data : Reply (Option String) → Bool
has_data (answered status (some id)) = status == 200
has_data _ = false

abbrev pub succeeded : Move → Bool
succeeded (transfer _ _ r) = has_data r
succeeded (payment _ _ _ r) = is_ok r
succeeded (by_card _ _ _ r) = is_ok r

move-is_updated :
    (w : WalletState) (m : Move) → (move w m).is_updated ≡ (succeeded m || w.is_updated)
unfolding move ByTransfer.finish ByPayment.finish ByCard.finish set_wallet_updated
move-is_updated w (transfer order s (answered status none)) = ground arith
move-is_updated w (transfer order s (answered status (some id))) = ground arith
move-is_updated w (transfer order s (threw network)) = refl
move-is_updated w (transfer order s (threw (refused m))) = refl
move-is_updated w (payment id voucher s (answered status body)) = ground arith
move-is_updated w (payment id voucher s (threw network)) = refl
move-is_updated w (payment id voucher s (threw (refused m))) = refl
move-is_updated w (by_card is_deposit order s (answered status m)) = ground arith
move-is_updated w (by_card is_deposit order s (threw f)) = refl

run-is_updated :
    (w : WalletState) (moves : List Move)
    → (run w moves).is_updated ≡ (any succeeded moves || w.is_updated)
unfolding run
run-is_updated w [] = refl
run-is_updated w (m ∷ rest) = ground (arith, run-is_updated (move w m) rest, move-is_updated w m)

-- After any transfers, payments, deposits and withdrawals the home page reads the profile again
-- exactly if one of them was answered with 200, a transfer with `data` in the answer, and it does so once: it leaves a state at which it
-- would not.
pub arrive-run :
    (moves : List Move)
    → ((arrive (run initial_wallet moves)).0 ≡ any succeeded moves)
      × ((arrive (arrive (run initial_wallet moves)).1).0 ≡ false)
unfolding arrive set_wallet_updated
arrive-run moves = ground (arith, run-is_updated initial_wallet moves)
