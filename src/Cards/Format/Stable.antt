-- ===== src/Cards/Format/Stable.antt =====
-- Formatting once more changes nothing; the verification code and the date keep their digits.
use mpc_main.Prelude.{
  ℕ, zero, suc, ◌-◌, ◌≤◌, String, ◌≡◌, refl, sym, ap, ◌∙◌, inl, inr, true, false, not, ◌&&◌, Option,
  [], ◌∷◌, arith, leb, if◌then◌else◌, Bool-cases, length, take, drop, length-take, keep-append,
  keep_of_all, all-keep, all-take, Text, is_empty,
}
use mpc_main.Validation.{is_digit}
use mpc_main.Cards.Format.{
  clear_number, slice, trim, amex_groups, diners_groups, default_groups, is_brand, groups,
  format_number, format_cvc, format_expiration,
}
use mpc_main.Cards.Format.Laws.{
  Digits, digits_of, clear-format_number, take-nil, slice-append, clear-slice,
}

drop-take : (i n : ℕ) (t : Text) → drop i (take n t) ≡ take (n - i) (drop i t)
drop-take zero n t = let e : n ≡ n - 0 = omega arith in ap (λ k. take k t) e
drop-take (suc i) zero t = let e : 0 - suc i ≡ 0 = omega arith in rw e refl
drop-take (suc i) (suc n) [] = sym (take-nil _)
drop-take (suc i) (suc n) (c ∷ t) =
    let e : suc n - suc i ≡ n - i = omega arith in rw e (drop-take i n t)

take-take : (k n : ℕ) (t : Text) → k ≤ n → take k (take n t) ≡ take k t
take-take zero n t h = refl
take-take (suc k) zero t h = absurd (omega arith)
take-take (suc k) (suc n) [] h = refl
take-take (suc k) (suc n) (c ∷ t) h = ap (c ∷◌) (take-take k n t (omega arith))

slice-take : (i j n : ℕ) (t : Text) → j ≤ n → slice i j (take n t) ≡ slice i j t
slice-take i j n t h = rw drop-take (take-take (j - i) (n - i) (drop i t) (omega arith))

groups-take :
    (issuer : Option String) (d : Text)
    → groups issuer (take (digits_of issuer) d) ≡ groups issuer d
unfolding groups amex_groups diners_groups default_groups
groups-take issuer d = elim (Bool-cases (is_brand "amex" issuer)) [
  | inl amex ↦
      rw
        (
          amex,
          slice-take 0 4 15 d (omega arith),
          slice-take 4 10 15 d (omega arith),
          slice-take 10 15 15 d (omega arith),
        )
        refl
  | inr other ↦ rw other (elim (Bool-cases (is_brand "dinersclub" issuer)) [
    | inl diners ↦
        rw
          (
            diners,
            slice-take 0 4 14 d (omega arith),
            slice-take 4 10 14 d (omega arith),
            slice-take 10 14 14 d (omega arith),
          )
          refl
    | inr rest ↦
        rw
          (
            rest,
            slice-take 0 4 19 d (omega arith),
            slice-take 4 8 19 d (omega arith),
            slice-take 8 12 19 d (omega arith),
            slice-take 12 19 19 d (omega arith),
          )
          refl
  ])
]

full-format_number :
    (card_type : Text → Option String) (t : Text)
    → is_empty t ≡ false
    → format_number card_type t ≡ trim (groups (card_type t) (clear_number t))
unfolding format_number
full-format_number card_type t h = rw h refl

empty-format_number :
    (card_type : Text → Option String) (t : Text)
    → is_empty t ≡ true
    → format_number card_type t ≡ t
unfolding format_number
empty-format_number card_type t h = rw h refl

-- Where the brand that is found does not change by the formatting, which only sets spaces and cuts
-- what is too long, a formatted number is left as it is by a second formatting.
pub format_number_idempotent :
    (card_type : Text → Option String) (value : Text)
    → card_type (format_number card_type value) ≡ card_type value
    → format_number card_type (format_number card_type value) ≡ format_number card_type value
format_number_idempotent card_type value same =
    let once = format_number card_type value in
    elim (Bool-cases (is_empty once)) [
      | inl blank ↦ empty-format_number card_type once blank
      | inr full ↦ elim (Bool-cases (is_empty value)) [
        | inl none_given ↦
            ap (format_number card_type) (empty-format_number card_type value none_given)
        | inr given ↦
            full-format_number card_type once full
            ∙ ap (λ i. trim (groups i (clear_number once))) same
            ∙ ap (λ d. trim (groups (card_type value) d)) (clear-format_number card_type value)
            ∙ ap trim (groups-take (card_type value) (clear_number value))
            ∙ sym (full-format_number card_type value given)
      ]
    ]

-- The verification code that is kept consists of digits, those of the input from the left: three of
-- them at most, or four where the card number is one of amex.
pub format_cvc_lem :
    (card_type : Text → Option String) (value card_number : Text)
    → Digits (format_cvc card_type value card_number)
      × (length (format_cvc card_type value card_number) ≤ 4)
      × (is_brand "amex" (card_type card_number) ≡ false
          → format_cvc card_type value card_number ≡ take 3 (clear_number value))
unfolding format_cvc
format_cvc_lem card_type value card_number =
    let amex = not (is_empty card_number) && is_brand "amex" (card_type card_number) in
    (
      all-take is_digit (if amex then 4 else 3) (clear_number value) (all-keep is_digit value),
      ground (arith, length-take 4 (clear_number value), length-take 3 (clear_number value)),
      λ h. ground arith,
    )

take-short : (n : ℕ) (t : Text) → length t ≤ n → take n t ≡ t
take-short zero [] h = refl
take-short zero (c ∷ t) h = absurd (omega arith)
take-short (suc n) [] h = refl
take-short (suc n) (c ∷ t) h = ap (c ∷◌) (take-short n t (omega arith))

-- Formatting an expiry date keeps its digits in their order, the first four of them.
pub clear-format_expiration :
    (value : Text) → clear_number (format_expiration value) ≡ take 4 (clear_number value)
unfolding format_expiration
clear-format_expiration value =
    let d = clear_number value in
    let digits = all-keep is_digit value in
    elim (Bool-cases (leb 3 (length d))) [
      | inl long ↦ rw long (
          simp (keep-append, clear-slice 0 2 d digits, clear-slice 2 4 d digits)
            (slice-append 0 2 2 d))
      | inr short ↦ rw short (keep_of_all is_digit d digits ∙ sym (take-short 4 d (ground arith)))
    ]
