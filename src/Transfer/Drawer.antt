-- ===== src/Transfer/Drawer.antt =====
-- components/transfer/drawer_security.tsx: the security code of a transfer.
use mpc_main.Prelude.{
  ◌+◌, String, ◌≡◌, refl, Bool, true, false, Option, none, some, List, [], ◌∷◌, arith, ◌==◌,
  if◌then◌else◌, length, Text,
}
use mpc_main.Ui.{
  Effect, navigate, wallet_updated, send, raised, Reply, answered, threw, network, refused, sends,
}
use mpc_main.Otp.{CodeEntry, Entry, typed, run}
use mpc_main.Otp.Laws.{run-double}
use mpc_main.Transfer.Amount.{DataSend}

pub data Request : Type 0 where
  send_money : DataSend → Request

pub record Drawer : Type 0 where
  pub otp : Text
  pub error : Option String
  pub is_loading : Bool

abbrev pub Effects : Type 0
Effects = List (Effect Request)

module _ (order : DataSend) where
  -- `handleChangeOTP` up to the request.
  unfoldable pub change : Drawer → Text → Drawer × Effects
  change s value =
      if length value == 6
      then (
        record { otp = value; error = none; is_loading = true },
        send (send_money (record order { security_code = value })) ∷ [],
      )
      else (record s { otp = value; error = none }, [])

  -- What follows the answer, of which `data` is read, with the number of the transaction; where it
  -- has no `data`, reading that raises an exception, and so does the `catch`, as that has no response.
  -- An answer that is no error and not 200 changes nothing; an error without a response raises another
  -- one.
  unfoldable pub finish : Drawer → Reply (Option String) → Drawer × Effects
  finish s (answered status data_id) =
      if status == 200
      then elim data_id [
        | none ↦ (record s { is_loading = false }, raised ∷ [])
        | some id ↦ (
          record s { is_loading = false },
          navigate "/transfer/result" ∷ wallet_updated true ∷ [],
        )
      ]
      else (s, [])
  finish s (threw network) = (record s { is_loading = false }, raised ∷ [])
  finish s (threw (refused m)) = (record s { is_loading = false; error = m }, [])

  pub sends-change :
      (s : Drawer) (v : Text) → length (sends (change s v).1) ≡ (if length v == 6 then 1 else 0)
  unfolding change
  sends-change s v = ground arith

  pub sends-finish : (s : Drawer) (r : Reply (Option String)) → sends (finish s r).1 ≡ []
  unfolding finish
  sends-finish s (answered status none) = ground arith
  sends-finish s (answered status (some id)) = ground arith
  sends-finish s (threw network) = refl
  sends-finish s (threw (refused m)) = refl

  pub loading-change :
      (s : Drawer) (v : Text)
      → (change s v).0.is_loading ≡ (if length v == 6 then true else s.is_loading)
  unfolding change
  loading-change s v = ground arith

  -- The boxes of the drawer are never disabled.
  abbrev pub entry : CodeEntry Drawer Request (Option String)
  entry = record {
    change = change;
    finish = finish;
    loading = λ s. s.is_loading;
    disabled = λ s. false;
    sends-change = sends-change;
    sends-finish = sends-finish;
    loading-change = loading-change;
  }

  -- Two complete codes that are typed one after the other, the second before the first is answered,
  -- each send the transfer: two requests more were sent, and two more are under way.
  pub entry-double :
      (e : Entry Drawer) (v w : Text)
      → length v ≡ 6
      → length w ≡ 6
      → ((run entry e (typed v ∷ typed w ∷ [])).sent ≡ e.sent + 2)
        × ((run entry e (typed v ∷ typed w ∷ [])).pending ≡ e.pending + 2)
  entry-double = run-double entry (λ s. refl)
