-- ===== src/Server/Password.antt =====
-- `validatePassword` of backend/pkg/utils/validation.go, beside the rules of the registration form
-- (utils/validate-password.ts). A text of the form, a list of UTF-16 units, reaches the server as
-- UTF-8; the classes of the package unicode are an interface, whose laws are what they are on ASCII.
pub mod Laws
use mpc_main.Prelude.{
  ℕ, zero, suc, ◌+◌, ◌-◌, ◌*◌, ◌/◌, ◌%◌, ◌^◌, ◌≤◌, ◌<◌, String, ◌≡◌, refl, sym, ap, ◌∙◌, ◌≢◌, ◌↔◌,
  ◌⊎◌, inl, inr, Bool, true, false, not, ◌&&◌, ◌||◌, Option, none, some, List, [], ◌∷◌, ◌++◌, map,
  arith, str_eq, eq_iff, eq_refl, ltb, leb, ◌==◌, if◌then◌else◌, Bool-cases, Option-cases,
  and-eq-true, truthy, or_text, length, take, drop, keep, find, any, all, length-take, length-drop,
  length-snoc, take-add, take_all, flat, flat-snoc, keep-append, keep_of_all, all-keep, all-take,
  all-drop, keep-keep, All, All-append, All-keep, Text, units, text_eq, text_eq_sound, text_eq_refl,
  is_empty, append_injective, String-cases,
}
use mpc_main.Validation.{is_upper, is_lower, is_digit}
use mpc_main.Validation.Password.{is_special}

pub record Unicode : Type 0 where
  pub upper : ℕ → Bool
  pub lower : ℕ → Bool
  pub number : ℕ → Bool
  pub upper_ascii : (c : ℕ) → c < 128 → upper c ≡ is_upper c
  pub lower_ascii : (c : ℕ) → c < 128 → lower c ≡ is_lower c
  pub number_ascii : (c : ℕ) → c < 128 → number c ≡ is_digit c

abbrev is_high : ℕ → Bool
is_high c = leb 0xd800 c && ltb c 0xdc00

abbrev is_low : ℕ → Bool
is_low c = leb 0xdc00 c && ltb c 0xe000

-- The runes of a text: a pair of surrogates is one, a surrogate that stands alone is the replacement
-- character. The first argument is a high surrogate that waits for its low one.
unfoldable pub runes_after : Option ℕ → Text → List ℕ
runes_after none [] = []
runes_after (some high) [] = 0xfffd ∷ []
runes_after none (c ∷ rest) =
    let waits = runes_after (some c) rest in
    let goes = runes_after none rest in
    if is_high c then waits else (if is_low c then 0xfffd ∷ goes else c ∷ goes)
runes_after (some high) (c ∷ rest) =
    let waits = runes_after (some c) rest in
    let goes = runes_after none rest in
    if is_high c
    then 0xfffd ∷ waits
    else (if is_low c
        then (0x10000 + (high - 0xd800) * 0x400 + (c - 0xdc00)) ∷ goes
        else 0xfffd ∷ c ∷ goes)

abbrev pub runes : Text → List ℕ
runes t = runes_after none t

-- How many bytes a rune has in UTF-8.
unfoldable pub rune_length : ℕ → ℕ
rune_length c =
    if ltb c 0x80 then 1 else (if ltb c 0x800 then 2 else (if ltb c 0x10000 then 3 else 4))

abbrev pub byte_length : List ℕ → ℕ
byte_length [] = 0
byte_length (c ∷ rest) = rune_length c + byte_length rest

-- `hasUpper`, `hasLower` and `hasNumber`, which a loop over the runes sets.
pub record Seen : Type 0 where
  pub has_upper : Bool
  pub has_lower : Bool
  pub has_number : Bool

module _ (u : Unicode) where
  abbrev pub see : Seen → ℕ → Seen
  see s c =
      if u.upper c
      then record s { has_upper = true }
      else (if u.lower c
          then record s { has_lower = true }
          else (if u.number c then record s { has_number = true } else s))

  unfoldable pub seen_of : Seen → List ℕ → Seen
  seen_of s [] = s
  seen_of s (c ∷ rest) = seen_of (see s c) rest

  unfoldable pub server_password : List ℕ → Bool
  unfolding seen_of
  server_password password =
      let s =
        seen_of (record { has_upper = false; has_lower = false; has_number = false }) password in
      if ltb (byte_length password) 8 || ltb 72 (byte_length password)
      then false
      else s.has_upper && s.has_lower && s.has_number && any is_special password
