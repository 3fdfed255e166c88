-- ===== src/Cards/Format.antt =====
-- utils/format-credit-card.ts. The brand of a card is found by the package payment, a parameter
-- here; it is `none` where that finds no brand.
pub mod Laws
pub mod Stable
use mpc_main.Prelude.{
  ℕ, zero, suc, ◌+◌, ◌-◌, ◌*◌, ◌/◌, ◌^◌, ◌≤◌, ◌<◌, String, ◌≡◌, refl, sym, ap, ◌∙◌, ◌≢◌, ◌↔◌, ◌⊎◌,
  inl, inr, Bool, true, false, not, ◌&&◌, ◌||◌, Option, none, some, List, [], ◌∷◌, ◌++◌, map, arith,
  str_eq, eq_iff, eq_refl, ltb, leb, ◌==◌, if◌then◌else◌, Bool-cases, Option-cases, and-eq-true,
  truthy, or_text, length, take, drop, keep, find, any, all, length-take, length-drop, length-snoc,
  take-add, take_all, flat, flat-snoc, keep-append, keep_of_all, all-keep, all-take, all-drop,
  keep-keep, All, All-append, All-keep, Text, units, text_eq, text_eq_sound, text_eq_refl, is_empty,
}
use Prim.Native.String
use mpc_main.Validation.{is_digit, is_space}

-- `value.replace(/\D+/g, "")`
abbrev pub clear_number : Text → Text
clear_number = keep is_digit

-- `text.slice(i, j)`
abbrev pub slice : ℕ → ℕ → Text → Text
slice i j t = take (j - i) (drop i t)

unfoldable pub trim_start : Text → Text
trim_start [] = []
trim_start (c ∷ rest) = let shorter = trim_start rest in if is_space c then shorter else c ∷ rest

unfoldable pub trim_end : Text → Text
trim_end [] = []
trim_end (c ∷ rest) = let end = trim_end rest in if is_empty end && is_space c then [] else c ∷ end

abbrev pub trim : Text → Text
trim t = trim_end (trim_start t)

abbrev space : ℕ
space = 0x20

-- The digits in groups, by brand.
unfoldable pub amex_groups : Text → Text
amex_groups d = slice 0 4 d ++ space ∷ (slice 4 10 d ++ space ∷ slice 10 15 d)

unfoldable pub diners_groups : Text → Text
diners_groups d = slice 0 4 d ++ space ∷ (slice 4 10 d ++ space ∷ slice 10 14 d)

unfoldable pub default_groups : Text → Text
default_groups d =
    slice 0 4 d ++ space ∷ (slice 4 8 d ++ space ∷ (slice 8 12 d ++ space ∷ slice 12 19 d))

abbrev pub is_brand : String → Option String → Bool
is_brand brand none = false
is_brand brand (some b) = str_eq b brand

unfoldable pub groups : Option String → Text → Text
groups issuer d =
    if is_brand "amex" issuer
    then amex_groups d
    else if is_brand "dinersclub" issuer
    then diners_groups d
    else default_groups d

module _ (card_type : Text → Option String) where
  unfoldable pub format_number : Text → Text
  format_number value =
      if is_empty value then value else trim (groups (card_type value) (clear_number value))

  unfoldable pub format_cvc : Text → Text → Text
  format_cvc value card_number =
      take (if not (is_empty card_number) && is_brand "amex" (card_type card_number) then 4 else 3)
        (clear_number value)

unfoldable pub format_expiration : Text → Text
format_expiration value =
    let digits = clear_number value in
    if leb 3 (length digits) then slice 0 2 digits ++ b'/' ∷ slice 2 4 digits else digits

-- `formatFormData`, at the entries of the object in their order.
unfoldable pub format_form_data : List (String × String) → List String
format_form_data = map (λ (key, value). String.◌++◌ key (String.◌++◌ ": " value))
