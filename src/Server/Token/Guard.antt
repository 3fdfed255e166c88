-- ===== src/Server/Token/Guard.antt =====
-- The guard of the client (utils/protect_routes.tsx) beside the middleware of the server
-- (backend/internal/api/middleware/auth.go), at the token that a login gave.
use mpc_main.Prelude.{
  ℕ, ◌+◌, ◌/◌, String, ◌≡◌, ◌≢◌, ◌↔◌, true, Option, none, some, arith, ltb, if◌then◌else◌, truthy,
}
use mpc_main.Session.Expiry.{outlet, token_expired, protect}
use mpc_main.Server.Token.{
  Claims, Jwt, Redis, access, claims_at, check_stored, verify_token, authorize,
}

module _ (jwt : Jwt) (redis : Redis) (jwt_decode : String → Option ℕ)
    (reads : (c : Claims) → jwt_decode (jwt.signed_string c) ≡ some c.expires_at) where
  open jwt use {signed_string, parse, parse-signed_string}
  open redis use {Db}

  authorize-access :
      (user_id : String) (s now : ℕ) (db : Db)
      → truthy (signed_string (claims_at s user_id access)) ≡ true
      → authorize jwt redis now (signed_string (claims_at s user_id access)) db
        ≡ (if ltb now (s + 43200) then some user_id else none)
  unfolding authorize verify_token check_stored
  authorize-access user_id s now db full =
      ground (arith, parse-signed_string now (claims_at s user_id access))

  -- Of an access token that was issued in second `s`, the server takes its user for known exactly
  -- as long as the client shows its guarded pages, except in one second: the one in which the token
  -- expires, where the client shows them still and the server refuses. Nobody whose token the server
  -- accepts is sent to the login page. `now` is in milliseconds.
  pub authorize-protect :
      (user_id : String) (s now : ℕ) (db : Db)
      → truthy (signed_string (claims_at s user_id access)) ≡ true
      → let token = signed_string (claims_at s user_id access) in
        (authorize jwt redis (now / 1000) token db ≡ some user_id)
        ↔ ((protect jwt_decode token now ≡ outlet) × (now / 1000 ≢ s + 43200))
  unfolding protect token_expired
  authorize-protect user_id s now db full = (
    λ h. ground (
      arith,
      authorize-access user_id s (now / 1000) db full,
      reads (claims_at s user_id access),
    ),
    λ h. ground (
      arith,
      authorize-access user_id s (now / 1000) db full,
      reads (claims_at s user_id access),
    ),
  )
