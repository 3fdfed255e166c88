-- ===== src/Transfer/Results.antt =====
-- pages/transfer/transfer_results.tsx: the page that a transfer leads to.
use mpc_main.Prelude.{◌≡◌, refl, Bool, true, false, Option, none, some, arith, ◌==◌, if◌then◌else◌}
use mpc_main.Ui.{Reply, answered, threw}

pub record Page (A : Type 0) : Type 0 where
  pub transaction : Option A
  pub is_loading : Bool

-- What is shown: it is loading, the transaction that was read, or the message of a transfer that went
-- well with nothing of it.
pub data View (A : Type 0) : Type 0 where
  loading : View A
  shown : A → View A
  blank : View A

module _ {A : Type 0} where
  abbrev pub initial : Page A
  initial = record { transaction = none; is_loading = true }

  -- `fetchTransaction`, from the answer on.
  unfoldable pub finish : Page A → Reply A → Page A
  finish s (answered status found) =
      if status == 200 then record { transaction = some found; is_loading = false } else s
  finish s (threw f) = record s { is_loading = false }

  unfoldable pub view : Page A → View A
  view s =
      if s.is_loading then loading else elim (s.transaction) [ none ↦ blank | some a ↦ shown a ]

  abbrev pub expected : Reply A → View A
  expected (answered status a) = if status == 200 then shown a else loading
  expected (threw f) = blank

  -- The page shows the transaction exactly if it was answered with 200. After another answer that is
  -- no error it is loading for good, and after an error it shows no transaction, but says all the same
  -- that the transfer went well.
  pub view-finish : (r : Reply A) → view (finish initial r) ≡ expected r
  unfolding view finish
  view-finish (answered status a) = ground arith
  view-finish (threw f) = refl
