-- ===== src/Tests/Cards.antt =====
-- Runs of the formatting of a card, of its form and of the list.
use mpc_main.Prelude.{
  ◌≤◌, String, ◌≡◌, refl, ◌↔◌, ◌⊎◌, inl, true, false, Option, none, some, List, [], ◌∷◌, arith,
  ◌==◌, if◌then◌else◌, length, take, Text, units, is_empty,
}
use mpc_main.Ui.{send, failure}
use mpc_main.Cards.Format.{clear_number, format_number, trim_start, trim_end, groups, amex_groups}
use mpc_main.Cards.Format.Laws.{digits_of, clear-format_number}
use mpc_main.Cards.Format.Stable.{format_number_idempotent}
use mpc_main.Cards.Form
use mpc_main.Cards.Form.{FormData, Page, empty_form, initial, has_brand, handle_submit, parse_int}
use mpc_main.Cards.Form.Laws.{IsNotPast, handle_submit-sends}
use mpc_main.Cards.Form.Screen
use mpc_main.Cards.Form.Screen.{Adding, submitted, view, Reach-sent}
use mpc_main.Cards.List.{Card}

-- A number that starts with 3 is one of amex, any other that is not empty one of visa.
abbrev brand_of : Text → Option String
brand_of [] = none
brand_of (c ∷ rest) = if c == b'3' then some "amex" else some "visa"

abbrev typed : Text
typed = units "3714-496353 98431 9"

clear-format_number_example :
    clear_number (format_number brand_of typed)
    ≡ take (digits_of (brand_of typed)) (clear_number typed)
clear-format_number_example = clear-format_number brand_of typed

formatted_brand : brand_of (format_number brand_of typed) ≡ brand_of typed
unfolding format_number trim_start trim_end groups amex_groups
formatted_brand = refl

format_number_idempotent_example :
    format_number brand_of (format_number brand_of typed) ≡ format_number brand_of typed
format_number_idempotent_example = format_number_idempotent brand_of typed formatted_brand

abbrev form : FormData
form = record empty_form {
  number = units "4242";
  expiry_month = units "02";
  expiry_year = units "2026";
  cvc = units "123";
}

abbrev page : Page
page = record initial { form = form }

handle_submit-sends_example :
    (((handle_submit brand_of 2025 11 page).1
        ≡ send (Form.add_card page.form page.form.card_type) ∷ [])
      ↔ ((has_brand (brand_of page.form.number) ≡ true)
          × (is_empty page.form.expiry_month ≡ false)
          × (is_empty page.form.expiry_year ≡ false)
          × IsNotPast 2025 11 page.form
          × (length page.form.cvc ≡ page.cvv_length)))
    × (((handle_submit brand_of 2025 11 page).1
          ≡ send (Form.add_card page.form page.form.card_type) ∷ [])
        ⊎ ((message : String) × ((handle_submit brand_of 2025 11 page).1
              ≡ failure (some message) ∷ [])))
handle_submit-sends_example = handle_submit-sends brand_of 2025 11 page

abbrev months : List String
months = "11" ∷ "12" ∷ []

abbrev years : List String
years = "2025" ∷ "2026" ∷ []

abbrev filled_in : Adding
filled_in = record { page = page; sent = [] }

sent-Reach :
    Screen.Reach brand_of months years filled_in (submitted brand_of months years 2025 11 filled_in)
unfolding view
sent-Reach = Screen.submits 2025 11 Screen.here (inl refl)

Reach-sent_example : length (submitted brand_of months years 2025 11 filled_in).sent ≤ 1
Reach-sent_example = Reach-sent brand_of months years (omega arith) sent-Reach

abbrev card : Card
card = record { id = "c1"; number = units "4242"; name = "An"; type = "debit" }
