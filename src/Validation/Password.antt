-- ===== src/Validation/Password.antt =====
-- utils/validate-password.ts, and the pattern of the new password in reset-password.tsx.
use mpc_main.Prelude.{
  ℕ, ◌+◌, ◌≡◌, refl, inl, inr, Bool, true, false, not, ◌&&◌, ◌||◌, [], ◌∷◌, arith, leb, ◌==◌,
  if◌then◌else◌, Bool-cases, length, any, all, Text,
}
use mpc_main.Validation.{is_newline, is_upper, is_lower, is_digit}

-- `/.{8,}/`: eight characters in a row, none of them a line end; `n` counts those just read.
unfoldable pub run_of_eight : ℕ → Text → Bool
run_of_eight n [] = leb 8 n
run_of_eight n (c ∷ rest) = leb 8 n || run_of_eight (if is_newline c then 0 else n + 1) rest

-- `[!@#$%^&*(),.?":{}|<>]`
unfoldable pub is_special : ℕ → Bool
is_special c =
    c == b'!'
    || c == b'@'
    || c == b'#'
    || c == b'$'
    || c == b'%'
    || c == b'^'
    || c == b'&'
    || c == b'*'
    || c == b'('
    || c == b')'
    || c == b','
    || c == b'.'
    || c == b'?'
    || c == 34
    || c == b':'
    || c == b'{'
    || c == b'}'
    || c == b'|'
    || c == b'<'
    || c == b'>'

unfoldable pub validate_password : Text → Bool
unfolding run_of_eight is_special
validate_password t =
    run_of_eight 0 t && any is_upper t && any is_lower t && any is_digit t && any is_special t

-- `[@$!%*?&]`
unfoldable pub is_reset_special : ℕ → Bool
is_reset_special c =
    c == b'@' || c == b'$' || c == b'!' || c == b'%' || c == b'*' || c == b'?' || c == b'&'

-- `[A-Za-z\d@$!%*?&]`
unfoldable pub in_alphabet : ℕ → Bool
unfolding is_reset_special
in_alphabet c = is_upper c || is_lower c || is_digit c || is_reset_special c

-- `(?=.*[...])` at the start of the text.
look : (ℕ → Bool) → Text → Bool
look p [] = false
look p (c ∷ rest) = p c || (not (is_newline c) && look p rest)

unfoldable pub reset_pattern : Text → Bool
unfolding look in_alphabet
reset_pattern t =
    look is_lower t
    && look is_upper t
    && look is_digit t
    && look is_reset_special t
    && all in_alphabet t
    && leb 8 (length t)

in_alphabet-newline : (c : ℕ) → in_alphabet c ≡ true → is_newline c ≡ false
unfolding in_alphabet is_reset_special
in_alphabet-newline c h = ground arith

in_alphabet-special : (c : ℕ) → in_alphabet c ≡ true → is_special c ≡ is_reset_special c
unfolding in_alphabet is_reset_special is_special
in_alphabet-special c h = ground arith

look-eq-any : (p : ℕ → Bool) (t : Text) → all in_alphabet t ≡ true → look p t ≡ any p t
unfolding look
look-eq-any p [] h = refl
look-eq-any p (c ∷ rest) h = ground (arith, in_alphabet-newline c, look-eq-any p rest)

any-special : (t : Text) → all in_alphabet t ≡ true → any is_special t ≡ any is_reset_special t
any-special [] h = refl
any-special (c ∷ rest) h = ground (arith, in_alphabet-special c, any-special rest)

run_of_eight-eq :
    (n : ℕ) (t : Text) → all in_alphabet t ≡ true → run_of_eight n t ≡ leb 8 (n + length t)
unfolding run_of_eight
run_of_eight-eq n [] h = ground arith
run_of_eight-eq n (c ∷ rest) h = ground (arith, in_alphabet-newline c, run_of_eight-eq (n + 1) rest)

-- The pattern for a new password accepts exactly those passwords that registration accepts and that
-- have no character outside its alphabet.
pub reset_pattern-validate_password :
    (t : Text) → reset_pattern t ≡ (validate_password t && all in_alphabet t)
unfolding reset_pattern validate_password
reset_pattern-validate_password t = elim (Bool-cases (all in_alphabet t)) [
  | inl fits ↦
      rw
        (
          fits,
          look-eq-any is_lower t fits,
          look-eq-any is_upper t fits,
          look-eq-any is_digit t fits,
          look-eq-any is_reset_special t fits,
          any-special t fits,
          run_of_eight-eq 0 t fits,
        )
        (ground arith)
  | inr unfit ↦ rw unfit (ground arith)
]
