-- ===== src/Payment/Confirm.antt =====
-- components/payment/drawer_bottom.tsx: the security code of a payment.
use mpc_main.Prelude.{
  String, ◌≡◌, refl, Bool, true, false, Option, [], ◌∷◌, arith, ◌==◌, if◌then◌else◌, length, Text,
}
use mpc_main.Ui.{
  navigate, wallet_updated, send, raised, Reply, answered, threw, network, refused, sends,
}
use mpc_main.Otp.{CodeEntry}
use mpc_main.Payment.{Request, confirm_payment, Effects}

pub record Drawer : Type 0 where
  pub otp : Text
  pub error : Option String
  pub is_loading : Bool

module _ (transaction_id : String) (voucher_code : Option String) where
  -- `handleChangeOTP` up to the request; an error of before stays.
  unfoldable pub change : Drawer → Text → Drawer × Effects
  change s value =
      if length value == 6
      then (
        record s { otp = value; is_loading = true },
        send (confirm_payment transaction_id value voucher_code) ∷ [],
      )
      else (record s { otp = value }, [])

  unfoldable pub finish : Drawer → Reply (Unit {0}) → Drawer × Effects
  finish s (answered status _) =
      if status == 200
      then (record s { is_loading = false }, navigate "/payment/results" ∷ wallet_updated true ∷ [])
      else (s, [])
  finish s (threw network) = (record s { is_loading = false }, raised ∷ [])
  finish s (threw (refused m)) = (record s { is_loading = false; error = m }, [])

  pub sends-change :
      (s : Drawer) (v : Text) → length (sends (change s v).1) ≡ (if length v == 6 then 1 else 0)
  unfolding change
  sends-change s v = ground arith

  pub sends-finish : (s : Drawer) (r : Reply (Unit {0})) → sends (finish s r).1 ≡ []
  unfolding finish
  sends-finish s (answered status m) = ground arith
  sends-finish s (threw network) = refl
  sends-finish s (threw (refused m)) = refl

  pub loading-change :
      (s : Drawer) (v : Text)
      → (change s v).0.is_loading ≡ (if length v == 6 then true else s.is_loading)
  unfolding change
  loading-change s v = ground arith

  -- The boxes of the drawer are never disabled.
  abbrev pub entry : CodeEntry Drawer Request (Unit {0})
  entry = record {
    change = change;
    finish = finish;
    loading = λ s. s.is_loading;
    disabled = λ s. false;
    sends-change = sends-change;
    sends-finish = sends-finish;
    loading-change = loading-change;
  }
