-- ===== src/Wallet/Drawer.antt =====
-- pages/deposit-withdraw/drawer_security.tsx: the security code of a deposit or a withdrawal.
use mpc_main.Prelude.{
  String, ◌≡◌, refl, Bool, true, false, Option, none, some, List, [], ◌∷◌, ◌++◌, arith, ◌==◌,
  if◌then◌else◌, length, Text,
}
use mpc_main.Ui.{
  Effect, success, failure, navigate_after, wallet_updated, send, close, Reply, answered, threw,
  message_or, sends,
}
use mpc_main.Otp.{CodeEntry}

pub record Order : Type 0 where
  pub currency : String
  pub card_id : String
  pub security_code : Text
  pub amount : Text

pub data Request : Type 0 where
  deposit_money withdraw_money : Order → Request

pub record Drawer : Type 0 where
  pub otp : Text
  pub error : Option String
  pub is_loading : Bool

abbrev pub Effects : Type 0
Effects = List (Effect Request)

abbrev request_of : Bool → Order → Request
request_of true o = deposit_money o
request_of false o = withdraw_money o

module _ (is_deposit : Bool) (order : Order) where
  -- `handleChangeOTP` up to the request. An incomplete code clears the error and no more.
  unfoldable pub change : Drawer → Text → Drawer × Effects
  change s value =
      if length value == 6
      then (
        record { otp = value; error = none; is_loading = true },
        send (request_of is_deposit (record order { security_code = value })) ∷ [],
      )
      else (record s { otp = value; error = none }, [])

  -- What follows the answer.
  unfoldable pub finish : Drawer → Reply (Option String) → Drawer × Effects
  finish s (answered status message) = (
    record s { is_loading = false },
    (if status == 200
          then success
              (some (if is_deposit then "Nạp tiền thành công!" else "Rút tiền thành công!"))
            ∷ wallet_updated true
            ∷ navigate_after (if is_deposit then 1000 else 2000) "/deposit-withdraw/result"
            ∷ []
          else failure message ∷ [])
        ++ close ∷ [],
  )
  finish s (threw f) =
      (record s { is_loading = false; error = some (message_or f "Đã xảy ra lỗi.") }, [])

  pub sends-change :
      (s : Drawer) (v : Text) → length (sends (change s v).1) ≡ (if length v == 6 then 1 else 0)
  unfolding change
  sends-change s v = ground arith

  pub sends-finish : (s : Drawer) (r : Reply (Option String)) → sends (finish s r).1 ≡ []
  unfolding finish
  sends-finish s (answered status m) = ground arith
  sends-finish s (threw f) = refl

  pub loading-change :
      (s : Drawer) (v : Text)
      → (change s v).0.is_loading ≡ (if length v == 6 then true else s.is_loading)
  unfolding change
  loading-change s v = ground arith

  -- The boxes of the drawer are never disabled.
  abbrev pub entry : CodeEntry Drawer Request (Option String)
  entry = record {
    change = change;
    finish = finish;
    loading = λ s. s.is_loading;
    disabled = λ s. false;
    sends-change = sends-change;
    sends-finish = sends-finish;
    loading-change = loading-change;
  }
