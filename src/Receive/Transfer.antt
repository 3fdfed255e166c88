-- ===== src/Receive/Transfer.antt =====
-- pages/receive/transfer.tsx: the amount for the user of a code. `format_currency` is the formatter
-- of the browser, which is a parameter.
use mpc_main.Prelude.{
  ℕ, ◌*◌, ◌^◌, ◌<◌, String, ◌≡◌, refl, ap, ◌⊎◌, inl, inr, Bool, true, false, not, ◌&&◌, ◌||◌,
  Option, none, some, arith, str_eq, eq_iff, leb, ◌==◌, if◌then◌else◌, Bool-cases, Text,
}
use Prim.Native.String
use mpc_main.Numbers.{Numbers, IsPlain, value}

-- `amount` of the data to send and the message of the user, with the error that is shown.
pub record Page (Num : Type 0) : Type 0 where
  pub amount : Num
  pub message : Text
  pub error : Option String
  pub is_open : Bool

-- đồng for one unit, in which the limits are counted.
abbrev pub rate : String → ℕ
rate currency = if str_eq currency "USD" then 25200 else 1

abbrev pub is_known : String → Bool
is_known currency = str_eq currency "VND" || str_eq currency "USD" || str_eq currency "ETH"

abbrev pub has_error : Option String → Bool
has_error none = false
has_error (some e) = true

-- What an amount of `n` units must be, at a balance of `b` of them.
abbrev pub within : String → ℕ → ℕ → Bool
within currency n b = leb 100 (n * rate currency) && leb (n * rate currency) 100000000 && leb n b

module _ (numbers : Numbers) (format_currency : Option numbers.Num → String → String) where
  open numbers use {
    Num, of_nat, number_of, mul, nan, lt, is_truthy, lt-of_nat, mul-of_nat, is_truthy-of_nat,
    number_of-plain,
  }

  -- `convertCurrency`
  unfoldable pub convert_currency : Num → String → Option Num
  convert_currency amount currency =
      if str_eq currency "VND"
      then some amount
      else if str_eq currency "USD"
      then some (mul amount (of_nat 25200))
      else if str_eq currency "ETH"
      then some amount
      else none

  abbrev or_zero : Option Num → Num
  or_zero none = of_nat 0
  or_zero (some a) = if is_truthy a then a else of_nat 0

  abbrev read_number : Option Text → Num
  read_number none = nan
  read_number (some t) = number_of t

  -- `onValueChange`
  unfoldable pub value_change : Page Num → Option Text → Page Num
  value_change s value = record s { amount = read_number value; error = none }

  -- `handleChange` of the field for the message.
  unfoldable pub handle_change : Page Num → Text → Page Num
  handle_change s message = record s { message = message; error = none }

  -- `wallet?.balance ?? 0`
  abbrev balance_or_zero : Option Num → Num
  balance_or_zero none = of_nat 0
  balance_or_zero (some b) = b

  checked : String → Num → Num → Page Num → Page Num
  checked currency amount balance s =
      if lt balance amount
      then record s { error = some "Số dư không đủ" }
      else if lt amount (of_nat 100)
      then record s {
        error = some (
            String.◌++◌ "Số tiền chuyển tối thiểu là "
              (format_currency (convert_currency (of_nat 100) currency) currency));
      }
      else if lt (of_nat 100000000) amount
      then record s {
        error = some (
            String.◌++◌ "Số tiền chuyển tối đa là "
              (format_currency (some (of_nat 100000000)) "VND"));
      }
      else record s { is_open = not s.is_open }

  -- `handleSubmit`, which also is what the drawer calls to be shut.
  unfoldable pub handle_submit : String → Option Num → Page Num → Page Num
  unfolding checked
  handle_submit currency wallet_balance s =
      let balance = or_zero (convert_currency (balance_or_zero wallet_balance) currency) in
      let missing = record s { error = some "Vui lòng nhập số tiền" } in
      elim (convert_currency s.amount currency) [
        | none ↦ missing
        | some amount ↦ if is_truthy amount then checked currency amount balance s else missing
      ]

  convert-known :
      (n : ℕ) (currency : String)
      → is_known currency ≡ true
      → n * rate currency < 10 ^ 15
      → convert_currency (of_nat n) currency ≡ some (of_nat (n * rate currency))
  unfolding convert_currency
  convert-known n currency known small = elim (Bool-cases (str_eq currency "USD")) [
    | inl usd ↦
        let exact = mul-of_nat n 25200 (ground (arith, small, usd)) in
        rw ((eq_iff currency "USD").0 usd) (ap some exact)
    | inr other ↦
        let whole : n * 1 ≡ n = omega arith in rw other (rw whole (ground (arith, known, other)))
  ]

  or_zero-of_nat : (n : ℕ) → or_zero (some (of_nat n)) ≡ of_nat n
  or_zero-of_nat n = elim (Bool-cases (n == 0)) [
    | inl none_left ↦ let empty : n ≡ 0 = ground (arith, none_left) in rw empty (ground arith)
    | inr some_left ↦ rw (is_truthy-of_nat, some_left) refl
  ]

  rate-cases : (currency : String) → (rate currency ≡ 1) ⊎ (rate currency ≡ 25200)
  rate-cases currency = ground arith

  checked-within :
      (currency : String) (n b : ℕ) (s : Page Num)
      → n * rate currency < 10 ^ 15
      → b * rate currency < 10 ^ 15
      → (let t = checked currency (of_nat (n * rate currency)) (of_nat (b * rate currency)) s in
          (t.is_open ≡ (if within currency n b then not s.is_open else s.is_open))
          × (has_error t.error ≡ (not (within currency n b) || has_error s.error)))
  unfolding checked
  checked-within currency n b s small_n small_b =
      rw
        (
          lt-of_nat (b * rate currency) (n * rate currency) small_b small_n,
          lt-of_nat (n * rate currency) 100 small_n (omega arith),
          lt-of_nat 100000000 (n * rate currency) (omega arith) small_n,
        )
        (elim (rate-cases currency) [
          | inl one ↦ rw one (ground arith)
          | inr many ↦ rw many (ground arith)
        ])

  submit-within :
      (currency : String) (n b : ℕ) (s : Page Num)
      → is_known currency ≡ true
      → s.amount ≡ of_nat n
      → n * rate currency < 10 ^ 15
      → b * rate currency < 10 ^ 15
      → (let t = handle_submit currency (some (of_nat b)) s in
          (t.is_open ≡ (if within currency n b then not s.is_open else s.is_open))
          × (has_error t.error ≡ (not (within currency n b) || has_error s.error)))
  unfolding handle_submit
  submit-within currency n b s known typed small_n small_b =
      rw
        (
          handle_submit,
          typed,
          convert-known n currency known small_n,
          convert-known b currency known small_b,
          or_zero-of_nat (b * rate currency),
          is_truthy-of_nat (n * rate currency),
        )
        (elim (Bool-cases (n * rate currency == 0)) [
          | inl empty ↦ rw empty (ground (arith, empty))
          | inr full ↦ rw full (checked-within currency n b s small_n small_b)
        ])

  -- A whole amount in VND, USD or ETH that is typed and submitted switches the drawer exactly if it is
  -- worth at least 100 and at most 100000000 đồng, ETH counted as đồng, and is no more than the
  -- balance; otherwise the drawer stays as it was and a fault is shown. The drawer is opened and shut
  -- by this same function. Both sums stay below 10 ^ 15 đồng.
  pub typed-handle_submit :
      (currency : String) (typed : Text) (b : ℕ) (s : Page Num)
      → is_known currency ≡ true
      → IsPlain typed
      → value typed * rate currency < 10 ^ 15
      → b * rate currency < 10 ^ 15
      → (let t = handle_submit currency (some (of_nat b)) (value_change s (some typed)) in
          (t.is_open ≡ (if within currency (value typed) b then not s.is_open else s.is_open))
          × (has_error t.error ≡ not (within currency (value typed) b)))
  unfolding value_change
  typed-handle_submit currency typed b s known plain small_n small_b =
      let (opened, told) =
        submit-within currency (value typed) b (value_change s (some typed)) known
          (number_of-plain typed plain) small_n small_b in
      (opened, ground (arith, told))

  -- In a currency other than VND, USD and ETH nothing can be sent: submitting shows a fault and leaves
  -- the drawer as it was, whatever was typed and whatever the balance is.
  pub handle_submit-unknown :
      (currency : String) (balance : Option Num) (s : Page Num)
      → is_known currency ≡ false
      → ((handle_submit currency balance s).is_open ≡ s.is_open)
        × (has_error (handle_submit currency balance s).error ≡ true)
  unfolding handle_submit convert_currency
  handle_submit-unknown currency balance s unknown = ground arith
