-- ===== src/Server/Token/Rotation.antt =====
-- A refresh token is good for one refresh (backend/pkg/token/token.go).
use mpc_main.Prelude.{
  ℕ, ◌+◌, ◌≤◌, ◌<◌, String, ◌≡◌, refl, sym, ap, ◌∙◌, inl, inr, true, none, some, List, arith,
  str_eq, eq_iff, ltb, if◌then◌else◌, Bool-cases, Option-cases, truthy, All,
}
use mpc_main.Server.Token.{
  Jwt, Redis, TokenType, access, refresh, duration, key, claims_at, Pair, revoke_token,
  generate_token, check_stored, verify_token, generate_token_pair, refresh_service, authorize,
  Request, serve_all,
}
use mpc_main.Server.Token.Stored.{IsRecent, generate_token_pair-eq, serve_all-IsRecent}

module _ (jwt : Jwt) (redis : Redis) where
  open jwt use {signed_string, parse, parse-signed_string}
  open redis use {Db, get, put, del, put_other, del_other, put_self, del_self}

  generate_token-some :
      (u t : String) (now : ℕ) (db : Db)
      → (generate_token jwt redis now u refresh db).0 ≡ some t
      → let token = signed_string (claims_at now u refresh) in
        let stored = put (key u) token (duration refresh) now (del (key u) db).1 in
        (stored.0 ≡ true) × ((generate_token jwt redis now u refresh db).1 ≡ stored.1)
  unfolding generate_token revoke_token
  generate_token-some u t now db given =
      let token = signed_string (claims_at now u refresh) in
      ground (
        arith,
        Bool-cases (del (key u) db).0,
        Bool-cases (put (key u) token (duration refresh) now (del (key u) db).1).0,
      )

  generated-IsRecent :
      (u t : String) (now : ℕ) (db : Db)
      → (generate_token jwt redis now u refresh db).0 ≡ some t
      → IsRecent jwt redis u now (generate_token jwt redis now u refresh db).1
  generated-IsRecent u t now db given =
      let token = signed_string (claims_at now u refresh) in
      let (stored, e) = generate_token-some u t now db given in
      rw e (λ later t' found.
        elim (put_self (key u) token t' (duration refresh) now later (del (key u) db).1 found) [
          | inl new ↦ (now, omega arith, new)
          | inr (failed, _) ↦ cc
        ])

  claims_at-injective :
      (u : String) (s s' : ℕ)
      → signed_string (claims_at s u refresh) ≡ signed_string (claims_at s' u refresh)
      → s ≡ s'
  claims_at-injective u s s' e = ground (
    arith,
    parse-signed_string 0 (claims_at s u refresh),
    parse-signed_string 0 (claims_at s' u refresh),
    ap (parse 0) e,
  )

  read-eq :
      (now s : ℕ) (u : String) (t : TokenType) (db : Db)
      → verify_token jwt redis now (signed_string (claims_at s u refresh)) t db ≡ (
          if ltb now (s + duration refresh)
          then check_stored jwt redis now (signed_string (claims_at s u refresh)) t u db
          else none)
  unfolding verify_token
  read-eq now s u t db = elim (Bool-cases (ltb now (s + duration refresh))) [
    | inl valid ↦ rw (verify_token, parse-signed_string, valid) refl
    | inr over ↦ rw (verify_token, parse-signed_string, over) refl
  ]

  recent-refuses :
      (u : String) (s n later : ℕ) (db : Db)
      → s < n
      → IsRecent jwt redis u n db
      → verify_token jwt redis later (signed_string (claims_at s u refresh)) refresh db ≡ none
  unfolding check_stored
  recent-refuses u s n later db before h =
      let token = signed_string (claims_at s u refresh) in
      rw (read-eq later s u refresh db) (elim (Bool-cases (ltb later (s + duration refresh))) [
        | inr over ↦ rw over refl
        | inl valid ↦ rw valid (elim (Option-cases (get (key u) later db)) [
          | inl empty ↦ rw (check_stored, empty) refl
          | inr (t, found) ↦
              let (s', from, issued) = h later t found in
              elim (Bool-cases (str_eq t token)) [
                | inr other ↦ rw (check_stored, found, other) refl
                | inl same ↦
                    let e = claims_at-injective u s' s (sym issued ∙ (eq_iff t token).0 same) in
                    absurd (omega (arith, e))
              ]
        ])
      ])

  verified-user :
      (u v : String) (s now : ℕ) (t : TokenType) (db : Db)
      → verify_token jwt redis now (signed_string (claims_at s u refresh)) t db ≡ some v
      → v ≡ u
  unfolding check_stored
  verified-user u v s now access db e = ground (arith, read-eq now s u access db)
  verified-user u v s now refresh db e = ground (arith, read-eq now s u refresh db)

  pair_given-IsRecent :
      (u : String) (now : ℕ) (pair : Pair) (db : Db)
      → (generate_token_pair jwt redis now u db).0 ≡ some pair
      → IsRecent jwt redis u now (generate_token_pair jwt redis now u db).1
  unfolding generate_token_pair
  pair_given-IsRecent u now pair db given =
      elim (Option-cases (generate_token jwt redis now u refresh db).0) [
        | inl e ↦ absurd (ground (arith, e))
        | inr (t, e) ↦
            rw (generate_token_pair-eq jwt redis now u db) (generated-IsRecent u t now db e)
      ]

  renewed-IsRecent :
      (u : String) (s n : ℕ) (pair : Pair) (db : Db)
      → (refresh_service jwt redis n (signed_string (claims_at s u refresh)) db).0 ≡ some pair
      → IsRecent jwt redis u n
          (refresh_service jwt redis n (signed_string (claims_at s u refresh)) db).1
  unfolding refresh_service
  renewed-IsRecent u s n pair db given =
      let token = signed_string (claims_at s u refresh) in
      elim (Option-cases (verify_token jwt redis n token refresh db)) [
        | inl e ↦ absurd (ground (arith, e))
        | inr (v, e) ↦
            let user : v ≡ u = verified-user u v s n refresh db e in
            let e' : verify_token jwt redis n token refresh db ≡ some u = e ∙ ap some user in
            rw (refresh_service, e') (pair_given-IsRecent u n pair db (ground (arith, e')))
      ]

  -- A refresh token is good for one refresh: once a refresh token that was issued in an earlier
  -- second has been exchanged for a new pair, it is never again accepted as a refresh token, at any
  -- time and after any sequence of later logins and refreshes, of this user or others, also where
  -- the database fails at some of them.
  pub exchanged-verify_token :
      (u : String) (s n later : ℕ) (pair : Pair) (requests : List (ℕ × Request)) (db : Db)
      → s < n
      → (refresh_service jwt redis n (signed_string (claims_at s u refresh)) db).0 ≡ some pair
      → All (λ q. n ≤ q.0) requests
      → let token = signed_string (claims_at s u refresh) in
        let db' = serve_all jwt redis requests (refresh_service jwt redis n token db).1 in
        verify_token jwt redis later token refresh db' ≡ none
  exchanged-verify_token u s n later pair requests db before given after =
      let token = signed_string (claims_at s u refresh) in
      let db' = (refresh_service jwt redis n token db).1 in
      recent-refuses u s n later (serve_all jwt redis requests db') before
        (serve_all-IsRecent jwt redis u n requests db' after (renewed-IsRecent u s n pair db given))

  -- The type of a token stands nowhere in its claims, and only refresh tokens are looked up: every
  -- refresh token of a user, exchanged or not and whatever is stored, lets its bearer through the
  -- middleware as that user until it expires, seven days after it was issued.
  pub authorize-refresh :
      (u : String) (s now : ℕ) (db : Db)
      → truthy (signed_string (claims_at s u refresh)) ≡ true
      → now < s + 604800
      → authorize jwt redis now (signed_string (claims_at s u refresh)) db ≡ some u
  unfolding authorize check_stored
  authorize-refresh u s now db full valid = ground (arith, read-eq now s u access db)
