-- ===== src/Session/Expiry.antt =====
-- utils/expired-token.ts and utils/protect_routes.tsx. The decoder of the package jwt-decode is a
-- parameter; it throws at a text that is no token, which is `none`.
use mpc_main.Prelude.{
  ℕ, ◌+◌, ◌*◌, ◌/◌, ◌≤◌, ◌<◌, String, ◌≡◌, ◌↔◌, Bool, true, false, Option, none, some, arith, ltb,
  if◌then◌else◌, truthy,
}

-- What a guarded route shows; `crash` is an exception in the hook.
pub data Guarded : Type 0 where
  to_login outlet crash : Guarded

module _ (jwt_decode : String → Option ℕ) where
  -- `now` is `Date.now()`, in milliseconds; `exp` of the token is in seconds.
  unfoldable pub token_expired : String → ℕ → Option Bool
  token_expired token now =
      if truthy token
      then elim (jwt_decode token) [ none ↦ none | some exp ↦ some (ltb exp (now / 1000)) ]
      else some true

  unfoldable pub protect : String → ℕ → Guarded
  unfolding token_expired
  protect token now = elim (token_expired token now) [
    | none ↦ crash
    | some true ↦ to_login
    | some false ↦ outlet
  ]

  -- A guarded route is shown exactly while a token that can be read is stored and the second in
  -- which it expires is not over: until `(exp + 1) * 1000` milliseconds.
  pub protect-outlet :
      (token : String) (now exp : ℕ)
      → truthy token ≡ true
      → jwt_decode token ≡ some exp
      → (protect token now ≡ outlet) ↔ (now < (exp + 1) * 1000)
  unfolding protect
  protect-outlet token now exp full read = (λ h. ground arith, λ h. ground arith)

  -- Without a stored token every guarded route leads to the login page, at any time.
  pub protect-no_token :
      (token : String) (now : ℕ) → truthy token ≡ false → protect token now ≡ to_login
  unfolding protect
  protect-no_token token now h = ground arith

  pub protect-expired :
      (token : String) (now exp : ℕ)
      → truthy token ≡ true
      → jwt_decode token ≡ some exp
      → (exp + 1) * 1000 ≤ now
      → protect token now ≡ to_login
  unfolding protect
  protect-expired token now exp full read h = ground arith
