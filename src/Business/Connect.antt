-- ===== src/Business/Connect.antt =====
-- pages/connect-app/drawer_security.tsx: the security code that connects a wallet with a partner.
use mpc_main.Prelude.{
  ◌+◌, String, ◌≡◌, refl, Bool, true, false, Option, none, some, List, [], ◌∷◌, arith, ◌==◌,
  if◌then◌else◌, length, Text,
}
use mpc_main.Ui.{Effect, success, navigate, send, close, Reply, answered, threw, message_or, sends}
use mpc_main.Otp.{CodeEntry, Entry, typed, run}
use mpc_main.Otp.Laws.{run-double}

pub record Data : Type 0 where
  pub partner_id : String
  pub user_id : String
  pub security_code : Text
  pub return_url : String

pub data Request : Type 0 where
  connect_wallet : Data → Request

pub record Drawer : Type 0 where
  pub otp : Text
  pub error : Option String
  pub is_loading : Bool

abbrev pub Effects : Type 0
Effects = List (Effect Request)

-- What `connectWallet` posts: the address to return to is left out.
pub record Body : Type 0 where
  pub partner_id : String
  pub security_code : Text
  pub user_id : String

unfoldable pub body_of : Data → Body
body_of d = record {
  partner_id = d.partner_id;
  security_code = d.security_code;
  user_id = d.user_id;
}

module _ (order : Data) where
  -- `handleChangeOTP` up to the request.
  unfoldable pub change : Drawer → Text → Drawer × Effects
  change s value =
      if length value == 6
      then (
        record { otp = value; error = none; is_loading = true },
        send (connect_wallet (record order { security_code = value })) ∷ [],
      )
      else (record s { otp = value; error = none }, [])

  -- What follows the answer, with `onSuccess` first: the browser leaves for the address.
  unfoldable pub finish : Drawer → Reply (Unit {0}) → Drawer × Effects
  finish s (answered status body) = (
    record s { is_loading = false },
    success (some "Kết nối ví thành công!") ∷ navigate order.return_url ∷ close ∷ [],
  )
  finish s (threw f) =
      (record s { is_loading = false; error = some (message_or f "Đã xảy ra lỗi.") }, [])

  pub sends-change :
      (s : Drawer) (v : Text) → length (sends (change s v).1) ≡ (if length v == 6 then 1 else 0)
  unfolding change
  sends-change s v = ground arith

  pub sends-finish : (s : Drawer) (r : Reply (Unit {0})) → sends (finish s r).1 ≡ []
  unfolding finish
  sends-finish s (answered status body) = refl
  sends-finish s (threw f) = refl

  pub loading-change :
      (s : Drawer) (v : Text)
      → (change s v).0.is_loading ≡ (if length v == 6 then true else s.is_loading)
  unfolding change
  loading-change s v = ground arith

  -- The boxes of the drawer are never disabled.
  abbrev pub entry : CodeEntry Drawer Request (Unit {0})
  entry = record {
    change = change;
    finish = finish;
    loading = λ s. s.is_loading;
    disabled = λ s. false;
    sends-change = sends-change;
    sends-finish = sends-finish;
    loading-change = loading-change;
  }

  -- Two complete codes that are typed one after the other, the second before the first is answered,
  -- each ask for the connection: two requests more were sent, and two more are under way.
  pub connect-double :
      (e : Entry Drawer) (v w : Text)
      → length v ≡ 6
      → length w ≡ 6
      → ((run entry e (typed v ∷ typed w ∷ [])).sent ≡ e.sent + 2)
        × ((run entry e (typed v ∷ typed w ∷ [])).pending ≡ e.pending + 2)
  connect-double = run-double entry (λ s. refl)
