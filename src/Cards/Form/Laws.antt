-- ===== src/Cards/Form/Laws.antt =====
-- When a card is sent.
use mpc_main.Prelude.{
  ℕ, ◌+◌, ◌*◌, ◌≤◌, ◌<◌, String, ◌≡◌, refl, sym, ap, ◌∙◌, ◌≢◌, ◌↔◌, ◌⊎◌, inl, inr, true, false, not,
  ◌&&◌, Option, none, some, [], ◌∷◌, arith, ltb, ◌==◌, if◌then◌else◌, Bool-cases, Option-cases,
  length, Text, is_empty,
}
use mpc_main.Ui.{failure, send}
use mpc_main.Cards.Format.{format_number, is_brand}
use mpc_main.Cards.Form.{
  FormData, Validity, Page, add_card, parse_int, valid_expiry, has_brand, handle_change,
  validity_of, handle_submit, all_valid, told,
}

-- For a year and a month that can be read, with both months from 1 to 12, the test of the form accepts
-- the date of a card exactly if its month, counted from year 0, is not before that of the clock.
pub valid_expiry_iff :
    (year month y m : ℕ) (f : FormData)
    → parse_int f.expiry_year ≡ some y
    → parse_int f.expiry_month ≡ some m
    → (1 ≤ month) × (month ≤ 12) × (1 ≤ m) × (m ≤ 12)
    → (valid_expiry year month f ≡ true) ↔ (12 * year + month ≤ 12 * y + m)
unfolding valid_expiry
valid_expiry_iff year month y m f ey em range = rw (ey, em) (λ h. ground arith, λ h. ground arith)

-- The date of a card is not before that of the clock: its year is a later one, or the same with a month
-- that is no earlier.
abbrev pub IsNotPast : ℕ → ℕ → FormData → Type 0
IsNotPast year month f =
    (y : ℕ) × (parse_int f.expiry_year ≡ some y)
    × ((year < y) ⊎ ((year ≡ y) × (m : ℕ) × (parse_int f.expiry_month ≡ some m) × (month ≤ m)))

valid_expiry-later :
    (year month y : ℕ) (f : FormData)
    → parse_int f.expiry_year ≡ some y
    → year < y
    → valid_expiry year month f ≡ true
unfolding valid_expiry
valid_expiry-later year month y f ey later = rw ey (ground arith)

valid_expiry-same :
    (year month m : ℕ) (f : FormData)
    → parse_int f.expiry_year ≡ some year
    → parse_int f.expiry_month ≡ some m
    → month ≤ m
    → valid_expiry year month f ≡ true
unfolding valid_expiry
valid_expiry-same year month m f ey em le = rw (ey, em) (ground arith)

valid_expiry-year :
    (year month : ℕ) (f : FormData)
    → valid_expiry year month f ≡ true
    → parse_int f.expiry_year ≢ none
unfolding valid_expiry
valid_expiry-year year month f h e = let h' = rw e at h in cc

valid_expiry-month :
    (year month y : ℕ) (f : FormData)
    → valid_expiry year month f ≡ true
    → parse_int f.expiry_year ≡ some y
    → ((year < y) ⊎ ((year ≡ y) × (m : ℕ) × (parse_int f.expiry_month ≡ some m) × (month ≤ m)))
unfolding valid_expiry
valid_expiry-month year month y f h ey = elim (Option-cases (parse_int f.expiry_month)) [
  | inl missing ↦ let h' = rw (ey, missing) at h in inl (ground arith)
  | inr (m, em) ↦
      let h' = rw (ey, em) at h in
      elim (Bool-cases (ltb year y)) [
        | inl later ↦ inl (ground arith)
        | inr other ↦ inr (ground arith, m, em, ground arith)
      ]
]

valid_expiry-IsNotPast :
    (year month : ℕ) (f : FormData) → (valid_expiry year month f ≡ true) ↔ IsNotPast year month f
valid_expiry-IsNotPast year month f = (forth, back)
  where
    forth : valid_expiry year month f ≡ true → IsNotPast year month f
    forth h = elim (Option-cases (parse_int f.expiry_year)) [
      | inl missing ↦ absurd (valid_expiry-year year month f h missing)
      | inr (y, ey) ↦ (y, ey, valid_expiry-month year month y f h ey)
    ]

    back : IsNotPast year month f → valid_expiry year month f ≡ true
    back (y, ey, inl later) = valid_expiry-later year month y f ey later
    back (y, ey, inr (same, m, em, le)) =
        valid_expiry-same year month m f (ey ∙ ap some (sym same)) em le

-- A fault is told, and one only, exactly where some mark is false.
told-cases :
    (v : Validity)
    → ((all_valid v ≡ true) × (told v ≡ []))
      ⊎ ((message : String) × (all_valid v ≡ false) × (told v ≡ failure (some message) ∷ []))
told-cases v = elim (Bool-cases v.number) [
  | inr bad ↦ inr ("Số thẻ không hợp lệ.", ground arith, ground arith)
  | inl number ↦ elim (Bool-cases (v.expiry_month && v.expiry_year)) [
    | inr bad ↦ inr ("Ngày hết hạn không hợp lệ.", ground arith, ground arith)
    | inl expiry ↦ elim (Bool-cases v.cvc) [
      | inr bad ↦ inr ("CVC không hợp lệ.", ground arith, ground arith)
      | inl cvc ↦ inl (ground arith, ground arith)
    ]
  ]
]

valid_parts :
    (card_type : Text → Option String) (year month : ℕ) (s : Page)
    → all_valid (validity_of card_type year month s) ≡ true
    → (has_brand (card_type s.form.number) ≡ true)
      × ((not (is_empty s.form.expiry_month) && valid_expiry year month s.form) ≡ true)
      × ((not (is_empty s.form.expiry_year) && valid_expiry year month s.form) ≡ true)
      × (length s.form.cvc == s.cvv_length ≡ true)
unfolding validity_of
valid_parts card_type year month s h = (ground arith, ground arith, ground arith, ground arith)

all_parts :
    (card_type : Text → Option String) (year month : ℕ) (s : Page)
    → (has_brand (card_type s.form.number) ≡ true)
      × (is_empty s.form.expiry_month ≡ false)
      × (is_empty s.form.expiry_year ≡ false)
      × (valid_expiry year month s.form ≡ true)
      × (length s.form.cvc ≡ s.cvv_length)
    → all_valid (validity_of card_type year month s) ≡ true
unfolding validity_of
all_parts card_type year month s h = ground arith

-- What is sent and told, by the marks.
sent_or_told :
    (card_type : Text → Option String) (year month : ℕ) (s : Page)
    → ((all_valid (validity_of card_type year month s) ≡ true)
        × ((handle_submit card_type year month s).1 ≡ send (add_card s.form s.form.card_type) ∷ []))
      ⊎ ((message : String) × (all_valid (validity_of card_type year month s) ≡ false)
          × ((handle_submit card_type year month s).1 ≡ failure (some message) ∷ []))
unfolding handle_submit
sent_or_told card_type year month s = elim (told-cases (validity_of card_type year month s)) [
  | inl (valid, silent) ↦ inl (valid, rw (silent, valid) refl)
  | inr (message, invalid, said) ↦ inr (message, invalid, rw (said, invalid) refl)
]

-- A submitted card is sent exactly when the package knows its brand, both parts of its date are
-- chosen and the date is not past, with a year that is later than that of the clock or the same and
-- a month that is no earlier, and its code has the length that the form asks for. What is sent is
-- the form as it stands, with its kind of card once more as `type`; in every other case nothing is sent
-- and one fault is told.
pub handle_submit-sends :
    (card_type : Text → Option String) (year month : ℕ) (s : Page)
    → (((handle_submit card_type year month s).1 ≡ send (add_card s.form s.form.card_type) ∷ []) ↔ (
        (has_brand (card_type s.form.number) ≡ true)
        × (is_empty s.form.expiry_month ≡ false)
        × (is_empty s.form.expiry_year ≡ false)
        × IsNotPast year month s.form
        × (length s.form.cvc ≡ s.cvv_length)))
      × (((handle_submit card_type year month s).1 ≡ send (add_card s.form s.form.card_type) ∷ [])
          ⊎ ((message : String) × ((handle_submit card_type year month s).1
                ≡ failure (some message) ∷ [])))
handle_submit-sends card_type year month s =
    let (forth, back) = valid_expiry-IsNotPast year month s.form in
    elim (sent_or_told card_type year month s) [
      | inl (valid, sent) ↦
          let (number, month_ok, year_ok, code) = valid_parts card_type year month s valid in
          (
            (
              λ e. (number, ground arith, ground arith, forth (ground arith), ground arith),
              λ h. sent,
            ),
            inl sent,
          )
      | inr (message, invalid, said) ↦ (
        (λ e. cc, λ h. cc (all_parts card_type year month s (h.0, h.1, h.2, back h.3, h.4))),
        inr (message, said),
      )
    ]

-- Whatever is typed, the number of the form is formatted and the length of the code follows its
-- brand; but the code is taken as it is typed, and no input has the key for which it is formatted.
pub handle_change-cvc :
    (card_type : Text → Option String) (s : Page) (v : Text)
    → ((handle_change card_type s "cvc" v).form.cvc ≡ v)
      × ((handle_change card_type s "number" v).form.number ≡ format_number card_type v)
      × ((handle_change card_type s "number" v).cvv_length
          ≡ (if is_brand "amex" (card_type (format_number card_type v)) then 4 else 3))
      × ((handle_change card_type s "number" v).form.cvc ≡ s.form.cvc)
unfolding handle_change
handle_change-cvc card_type s v = (refl, refl, refl, refl)
