-- ===== src/Cards/Form.antt =====
-- The form of add-credit-card.tsx. Where the brand is found by the package payment, it is the
-- parameter `card_type`. The two select fields give the digits of their options, so `parseInt` reads
-- a text without sign or space.
pub mod Laws
pub mod Screen
use mpc_main.Prelude.{
  ℕ, zero, suc, ◌+◌, ◌-◌, ◌*◌, ◌/◌, ◌%◌, ◌^◌, ◌≤◌, ◌<◌, String, ◌≡◌, refl, sym, ap, ◌∙◌, ◌≢◌, ◌↔◌,
  ◌⊎◌, inl, inr, Bool, true, false, not, ◌&&◌, ◌||◌, Option, none, some, List, [], ◌∷◌, ◌++◌, map,
  arith, str_eq, eq_iff, eq_refl, ltb, leb, ◌==◌, if◌then◌else◌, Bool-cases, Option-cases,
  and-eq-true, truthy, or_text, length, take, drop, keep, find, any, all, length-take, length-drop,
  length-snoc, take-add, take_all, flat, flat-snoc, keep-append, keep_of_all, all-keep, all-take,
  all-drop, keep-keep, All, All-append, All-keep, Text, units, text_eq, text_eq_sound, text_eq_refl,
  is_empty, append_injective, String-cases,
}
use mpc_main.Ui.{Effect, success, failure, send, raised, Reply, answered, threw, Failure}
use mpc_main.Validation.{is_digit}
use mpc_main.Cards.Format.{format_number, format_cvc, is_brand}

pub record FormData : Type 0 where
  pub number : Text
  pub name : Text
  pub expiry_month : Text
  pub expiry_year : Text
  pub cvc : Text
  pub card_type : String
  -- The key "cvv", which `handleChange` would set, is none of the fields of the form.
  pub cvv : Option Text

pub record Validity : Type 0 where
  pub number : Bool
  pub expiry_month : Bool
  pub expiry_year : Bool
  pub cvc : Bool

pub record Page : Type 0 where
  pub form : FormData
  pub cvv_length : ℕ
  pub validity : Validity

abbrev pub empty_form : FormData
empty_form = record {
  number = [];
  name = [];
  expiry_month = [];
  expiry_year = [];
  cvc = [];
  card_type = "credit";
  cvv = none;
}

abbrev pub initial : Page
initial = record {
  form = empty_form;
  cvv_length = 3;
  validity = record { number = true; expiry_month = true; expiry_year = true; cvc = true };
}

pub data Request : Type 0 where
  -- The form, and the field `type`.
  add_card : FormData → String → Request

abbrev pub Effects : Type 0
Effects = List (Effect Request)

-- `setFormData((prev) => ({ ...prev, [name]: value }))`
abbrev set_field : String → Text → FormData → FormData
set_field name value f =
    if str_eq name "number"
    then record f { number = value }
    else if str_eq name "name"
    then record f { name = value }
    else if str_eq name "expiryMonth"
    then record f { expiry_month = value }
    else if str_eq name "expiryYear"
    then record f { expiry_year = value }
    else if str_eq name "cvc"
    then record f { cvc = value }
    else if str_eq name "cvv"
    then record f { cvv = some value }
    else f

-- `Boolean(cardType)`
abbrev pub has_brand : Option String → Bool
has_brand none = false
has_brand (some b) = truthy b

abbrev brand_or : Option String → String → String
brand_or none other = other
brand_or (some b) other = if truthy b then b else other

-- `resetForm`: the length of the code and the marks stay.
unfoldable pub reset_form : Page → Page
reset_form s = record s { form = empty_form }

-- `parseInt`: the digits at the start; no number without one.
parse_from : ℕ → Text → ℕ
parse_from n [] = n
parse_from n (c ∷ rest) =
    let longer = parse_from (10 * n + (c - b'0')) rest in if is_digit c then longer else n

unfoldable pub parse_int : Text → Option ℕ
unfolding parse_from
parse_int [] = none
parse_int (c ∷ rest) = if is_digit c then some (parse_from 0 (c ∷ rest)) else none

-- `parseInt(a) > b` and so on: false where there is no number.
abbrev pub holds_at : (ℕ → Bool) → Option ℕ → Bool
holds_at p none = false
holds_at p (some n) = p n

-- `isValidExpiry`, at the year and the month (from 1) of the clock.
unfoldable pub valid_expiry : ℕ → ℕ → FormData → Bool
valid_expiry year month f =
    holds_at (λ y. ltb year y) (parse_int f.expiry_year)
    || (holds_at (λ y. y == year) (parse_int f.expiry_year)
        && holds_at (λ m. leb month m) (parse_int f.expiry_month))

abbrev all_valid : Validity → Bool
all_valid v = v.number && v.expiry_month && v.expiry_year && v.cvc

-- The first fault is told.
abbrev told : Validity → Effects
told v =
    if not v.number
    then failure (some "Số thẻ không hợp lệ.") ∷ []
    else if not v.expiry_month || not v.expiry_year
    then failure (some "Ngày hết hạn không hợp lệ.") ∷ []
    else if not v.cvc
    then failure (some "CVC không hợp lệ.") ∷ []
    else []

module _ (card_type : Text → Option String) where
  -- `handleChange`
  unfoldable pub handle_change : Page → String → Text → Page
  handle_change s name value =
      if str_eq name "number"
      then (let formatted = format_number card_type value in
          let brand = card_type formatted in
          record s {
            cvv_length = if is_brand "amex" brand then 4 else 3;
            form =
                set_field name formatted
                  (record (s.form) { number = formatted; card_type = brand_or brand "debit" });
          })
      else if str_eq name "cvv"
      then record s { form = set_field name (format_cvc card_type value s.form.number) s.form }
      else record s { form = set_field name value s.form }

  -- `newValidity` of `validateCardData`
  unfoldable pub validity_of : ℕ → ℕ → Page → Validity
  validity_of year month s =
      let expiry = valid_expiry year month s.form in
      record {
        number = has_brand (card_type s.form.number);
        expiry_month = not (is_empty s.form.expiry_month) && expiry;
        expiry_year = not (is_empty s.form.expiry_year) && expiry;
        cvc = length s.form.cvc == s.cvv_length;
      }

  -- `handleSubmit` up to the request, with `validateCardData`.
  unfoldable pub handle_submit : ℕ → ℕ → Page → Page × Effects
  unfolding validity_of
  handle_submit year month s =
      let v = validity_of year month s in
      let s' = record s { validity = v } in
      (s', told v ++ (if all_valid v then send (add_card s.form s.form.card_type) ∷ [] else []))

-- What follows the answer of `addCreditCard(...).unwrap()`; of an error `data.message` is read.
pub data Added : Type 0 where
  added : Option String → Added
  error_data : Option String → Added
  no_error_data : Added

unfoldable pub finish_add : Page → Added → Page × Effects
unfolding reset_form
finish_add s (added message) = (
  reset_form s,
  elim message [ none ↦ [] | some m ↦ if truthy m then success (some m) ∷ [] else [] ],
)
finish_add s (error_data message) = (s, failure message ∷ [])
finish_add s no_error_data = (s, raised ∷ [])
