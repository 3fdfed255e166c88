-- ===== src/Cards/Format/Laws.antt =====
-- Formatting changes no digit, cuts the number at the length of its brand, and is stable.
use mpc_main.Prelude.{
  ℕ, zero, suc, ◌+◌, ◌-◌, String, ◌≡◌, refl, sym, ap, ◌∙◌, inl, inr, true, false, ◌&&◌, Option, [],
  ◌∷◌, ◌++◌, arith, if◌then◌else◌, Bool-cases, and-eq-true, take, drop, all, keep-append,
  keep_of_all, all-keep, all-take, all-drop, Text, is_empty,
}
use mathlib.Core.List.{append_assoc}
use mpc_main.Validation.{is_digit, is_space}
use mpc_main.Cards.Format.{
  clear_number, slice, trim_start, trim_end, trim, amex_groups, diners_groups, default_groups,
  is_brand, groups, format_number,
}

space-digit : (c : ℕ) → is_space c ≡ true → is_digit c ≡ false
space-digit c h = ground arith

clear-trim_start : (t : Text) → clear_number (trim_start t) ≡ clear_number t
unfolding trim_start
clear-trim_start [] = refl
clear-trim_start (c ∷ rest) = elim (Bool-cases (is_space c)) [
  | inl blank ↦ rw (blank, space-digit c blank) (clear-trim_start rest)
  | inr other ↦ rw other refl
]

empty-eq : (t : Text) → is_empty t ≡ true → t ≡ []
empty-eq [] h = refl
empty-eq (c ∷ t) h = cc

clear-trim_end : (t : Text) → clear_number (trim_end t) ≡ clear_number t
unfolding trim_end
clear-trim_end [] = refl
clear-trim_end (c ∷ rest) = elim (Bool-cases (is_empty (trim_end rest) && is_space c)) [
  | inl gone ↦
      let (nothing, blank) = (and-eq-true (is_empty (trim_end rest)) (is_space c)).0 gone in
      let left = ap clear_number (empty-eq (trim_end rest) nothing) in
      rw (gone, space-digit c blank) (sym left ∙ clear-trim_end rest)
  | inr kept ↦ rw (kept, clear-trim_end rest) refl
]

clear-trim : (t : Text) → clear_number (trim t) ≡ clear_number t
clear-trim t = clear-trim_end (trim_start t) ∙ clear-trim_start t

-- Digits only.
abbrev pub Digits : Text → Type 0
Digits t = all is_digit t ≡ true

slice-Digits : (i j : ℕ) (t : Text) → Digits t → Digits (slice i j t)
slice-Digits i j t h = all-take is_digit (j - i) (drop i t) (all-drop is_digit i t h)

pub clear-slice : (i j : ℕ) (t : Text) → Digits t → clear_number (slice i j t) ≡ slice i j t
clear-slice i j t h = keep_of_all is_digit (slice i j t) (slice-Digits i j t h)

pub take-nil : (m : ℕ) → take {A = ℕ} m [] ≡ []
take-nil zero = refl
take-nil (suc m) = refl

take-drop : (n m : ℕ) (t : Text) → take n t ++ take m (drop n t) ≡ take (n + m) t
take-drop zero m t = let e : m ≡ 0 + m = omega arith in ap (λ k. take k t) e
take-drop (suc n) m [] = take-nil m ∙ sym (take-nil (suc n + m))
take-drop (suc n) m (c ∷ t) =
    let e : suc n + m ≡ suc (n + m) = omega arith in rw e (ap (c ∷◌) (take-drop n m t))

drop-drop : (n m : ℕ) (t : Text) → drop m (drop n t) ≡ drop (n + m) t
drop-drop zero m t = let e : m ≡ 0 + m = omega arith in ap (λ k. drop k t) e
drop-drop (suc n) zero [] = let e : suc n + 0 ≡ suc (n + 0) = omega arith in rw e refl
drop-drop (suc n) (suc m) [] = let e : suc n + suc m ≡ suc (n + suc m) = omega arith in rw e refl
drop-drop (suc n) m (c ∷ t) =
    let e : suc n + m ≡ suc (n + m) = omega arith in rw e (drop-drop n m t)

-- Neighbouring slices join.
pub slice-append :
    (i n m : ℕ) (t : Text) → take n (drop i t) ++ take m (drop (i + n) t) ≡ take (n + m) (drop i t)
slice-append i n m t = rw (← drop-drop i n t) (take-drop n m (drop i t))

ruleset clear_laws = (keep-append, append_assoc)

-- What the groups of a brand hold, without the spaces between them.
clear-amex : (d : Text) → Digits d → clear_number (amex_groups d) ≡ take 15 d
unfolding amex_groups
clear-amex d h =
    simp (keep-append, clear-slice 0 4 d h, clear-slice 4 10 d h, clear-slice 10 15 d h)
      (ap (take 4 d ++◌) (slice-append 4 6 5 d) ∙ slice-append 0 4 11 d)

clear-diners : (d : Text) → Digits d → clear_number (diners_groups d) ≡ take 14 d
unfolding diners_groups
clear-diners d h =
    simp (keep-append, clear-slice 0 4 d h, clear-slice 4 10 d h, clear-slice 10 14 d h)
      (ap (take 4 d ++◌) (slice-append 4 6 4 d) ∙ slice-append 0 4 10 d)

clear-default : (d : Text) → Digits d → clear_number (default_groups d) ≡ take 19 d
unfolding default_groups
clear-default d h =
    simp
      (
        keep-append,
        clear-slice 0 4 d h,
        clear-slice 4 8 d h,
        clear-slice 8 12 d h,
        clear-slice 12 19 d h,
      )
      (ap (λ r. take 4 d ++ (take 4 (drop 4 d) ++ r)) (slice-append 8 4 7 d)
        ∙ ap (take 4 d ++◌) (slice-append 4 4 11 d)
        ∙ slice-append 0 4 15 d)

-- How many digits a brand has at most.
abbrev pub digits_of : Option String → ℕ
digits_of issuer =
    if is_brand "amex" issuer then 15 else if is_brand "dinersclub" issuer then 14 else 19

clear-groups :
    (issuer : Option String) (d : Text)
    → Digits d
    → clear_number (groups issuer d) ≡ take (digits_of issuer) d
unfolding groups
clear-groups issuer d h = elim (Bool-cases (is_brand "amex" issuer)) [
  | inl amex ↦ rw amex (clear-amex d h)
  | inr other ↦ rw other (elim (Bool-cases (is_brand "dinersclub" issuer)) [
    | inl diners ↦ rw diners (clear-diners d h)
    | inr rest ↦ rw rest (clear-default d h)
  ])
]

module _ (card_type : Text → Option String) where
  -- Formatting a card number keeps its digits in their order: the digits of the result are those of
  -- the input, cut at 15 for amex, at 14 for dinersclub and at 19 for all others.
  pub clear-format_number :
      (value : Text)
      → clear_number (format_number card_type value)
        ≡ take (digits_of (card_type value)) (clear_number value)
  unfolding format_number
  clear-format_number [] = sym (take-nil _)
  clear-format_number (c ∷ rest) =
      clear-trim (groups (card_type (c ∷ rest)) (clear_number (c ∷ rest)))
      ∙ clear-groups (card_type (c ∷ rest)) (clear_number (c ∷ rest)) (all-keep is_digit (c ∷ rest))
