-- ===== src/Server/Password/Laws.antt =====
-- Which passwords of the registration form the server accepts.
use mpc_main.Prelude.{
  ℕ, ◌+◌, ◌-◌, ◌*◌, ◌≤◌, ◌≡◌, refl, ◌∙◌, Bool, true, false, ◌||◌, Option, none, some, List, [], ◌∷◌,
  arith, leb, length, any, Text,
}
use mpc_main.Validation.{is_upper, is_lower, is_digit}
use mpc_main.Validation.Password.{is_special, run_of_eight, validate_password}
use mpc_main.Server.Password.{
  Unicode, runes_after, runes, rune_length, byte_length, Seen, see, seen_of, server_password,
}

-- A class of ASCII characters that is met by a unit of a text is met by a rune of it.
any-runes :
    (p : ℕ → Bool) (t : Text)
    → ((c : ℕ) → 128 ≤ c → p c ≡ false)
    → (o : Option ℕ) → any p (runes_after o t) ≡ any p t
unfolding runes_after
any-runes p [] ascii none = refl
any-runes p [] ascii (some high) = ground (arith, ascii 0xfffd)
any-runes p (c ∷ rest) ascii none =
    ground
      (arith, ascii 0xfffd, ascii c, any-runes p rest ascii none, any-runes p rest ascii (some c))
any-runes p (c ∷ rest) ascii (some high) = ground (
  arith,
  ascii 0xfffd,
  ascii c,
  ascii (0x10000 + (high - 0xd800) * 0x400 + (c - 0xdc00)),
  any-runes p rest ascii none,
  any-runes p rest ascii (some c),
)

rune_length-pos : (c : ℕ) → 1 ≤ rune_length c
unfolding rune_length
rune_length-pos c = ground arith

rune_length-pair : (a b : ℕ) → rune_length (0x10000 + a + b) ≡ 4
unfolding rune_length
rune_length-pair a b = ground arith

abbrev waiting : Option ℕ → ℕ
waiting none = 0
waiting (some high) = 1

length-le-runes : (o : Option ℕ) (t : Text) → waiting o + length t ≤ byte_length (runes_after o t)
unfolding runes_after
length-le-runes none [] = omega arith
length-le-runes (some high) [] = omega (arith, rune_length-pos 0xfffd)
length-le-runes none (c ∷ rest) = ground (
  arith,
  rune_length-pos c,
  rune_length-pos 0xfffd,
  length-le-runes none rest,
  length-le-runes (some c) rest,
)
length-le-runes (some high) (c ∷ rest) = ground (
  arith,
  rune_length-pos c,
  rune_length-pos 0xfffd,
  rune_length-pair ((high - 0xd800) * 0x400) (c - 0xdc00),
  length-le-runes none rest,
  length-le-runes (some c) rest,
)

run_of_eight-le : (n : ℕ) (t : Text) → run_of_eight n t ≡ true → 8 ≤ n + length t
unfolding run_of_eight
run_of_eight-le n [] h = ground arith
run_of_eight-le n (c ∷ rest) h =
    ground (arith, run_of_eight-le 0 rest, run_of_eight-le (n + 1) rest)

is_special-ascii : (c : ℕ) → 128 ≤ c → is_special c ≡ false
unfolding is_special
is_special-ascii c h = ground arith

module _ (u : Unicode) where
  seen_of-upper :
      (s : Seen) (cs : List ℕ)
      → (s.has_upper || any is_upper cs) ≡ true
      → (seen_of u s cs).has_upper ≡ true
  unfolding seen_of
  seen_of-upper s [] h = ground arith
  seen_of-upper s (c ∷ rest) h = ground (arith, u.upper_ascii c, seen_of-upper (see u s c) rest)

  seen_of-lower :
      (s : Seen) (cs : List ℕ)
      → (s.has_lower || any is_lower cs) ≡ true
      → (seen_of u s cs).has_lower ≡ true
  unfolding seen_of
  seen_of-lower s [] h = ground arith
  seen_of-lower s (c ∷ rest) h =
      ground (arith, u.lower_ascii c, u.upper_ascii c, seen_of-lower (see u s c) rest)

  seen_of-number :
      (s : Seen) (cs : List ℕ)
      → (s.has_number || any is_digit cs) ≡ true
      → (seen_of u s cs).has_number ≡ true
  unfolding seen_of
  seen_of-number s [] h = ground arith
  seen_of-number s (c ∷ rest) h =
      ground
        (arith, u.number_ascii c, u.upper_ascii c, u.lower_ascii c, seen_of-number (see u s c) rest)

  -- Of a password that the form accepts, the server asks for one thing more: it accepts it exactly if
  -- it takes no more than 72 bytes, so that a longer one is sent and refused.
  pub server_password-validate_password :
      (t : Text)
      → validate_password t ≡ true
      → server_password u (runes t) ≡ leb (byte_length (runes t)) 72
  unfolding server_password validate_password
  server_password-validate_password t h =
      let start : Seen = record { has_upper = false; has_lower = false; has_number = false } in
      let upper : any is_upper t ≡ true = ground arith in
      let lower : any is_lower t ≡ true = ground arith in
      let digit : any is_digit t ≡ true = ground arith in
      let special : any is_special t ≡ true = ground arith in
      let long : 8 ≤ length t = omega (arith, run_of_eight-le 0 t (ground arith)) in
      let in_runes =
        λ (p : ℕ → Bool). λ (ascii : (c : ℕ) → 128 ≤ c → p c ≡ false). any-runes p t ascii none in
      ground (
        arith,
        long,
        length-le-runes none t,
        seen_of-upper start (runes t) (in_runes is_upper (λ c h. ground arith) ∙ upper),
        seen_of-lower start (runes t) (in_runes is_lower (λ c h. ground arith) ∙ lower),
        seen_of-number start (runes t) (in_runes is_digit (λ c h. ground arith) ∙ digit),
        in_runes is_special is_special-ascii ∙ special,
      )
