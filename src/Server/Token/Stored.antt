-- ===== src/Server/Token/Stored.antt =====
-- What is stored for a user, over any sequence of requests (backend/pkg/token/token.go).
use mpc_main.Prelude.{
  ℕ, ◌≤◌, String, ◌≡◌, refl, sym, ap, ◌∙◌, ◌≢◌, ◌⊎◌, inl, inr, some, List, [], ◌∷◌, Bool-cases,
  Option-cases, All, append_injective, String-cases,
}
use mpc_main.Server.Token.{
  Jwt, Redis, refresh, duration, key, claims_at, revoke_token, generate_token, verify_token,
  generate_token_pair, refresh_service, Request, enter, renew, serve, serve_all,
}

key_injective : (u v : String) → u ≢ v → key u ≢ key v
key_injective u v h = λ e. h (append_injective "token:refresh:" u v e)

module _ (jwt : Jwt) (redis : Redis) where
  open jwt use {signed_string, parse, parse-signed_string}
  open redis use {Db, get, put, del, put_other, del_other, put_self, del_self}

  -- What is stored for a user, if anything, is a refresh token of that user issued at `n` or later.
  abbrev pub IsRecent : String → ℕ → Db → Type 0
  IsRecent u n db =
      (later : ℕ) (t : String)
      → get (key u) later db ≡ some t
      → (s : ℕ) × (n ≤ s) × (t ≡ signed_string (claims_at s u refresh))

  del-kept :
      (j k t : String) (later : ℕ) (db : Db)
      → get j later (del k db).1 ≡ some t
      → get j later db ≡ some t
  del-kept j k t later db e = elim (String-cases j k) [
    | inl same ↦
        rw same (del_self k t later db (ap (λ x. get x later (del k db).1) (sym same) ∙ e)).1
    | inr other ↦ sym (del_other j k later db other) ∙ e
  ]

  put-kept :
      (j k v t : String) (d now later : ℕ) (db : Db)
      → get j later (put k v d now db).1 ≡ some t
      → ((j ≡ k) × (t ≡ v)) ⊎ (get j later db ≡ some t)
  put-kept j k v t d now later db e = elim (String-cases j k) [
    | inl same ↦
        elim (put_self k v t d now later db
          (ap (λ x. get x later (put k v d now db).1) (sym same) ∙ e)) [
            | inl new ↦ inl (same, new)
            | inr (_, old) ↦ inr (rw same old)
          ]
    | inr other ↦ inr (sym (put_other j k v d now later db other) ∙ e)
  ]

  del-IsRecent : (u k : String) (n : ℕ) (db : Db) → IsRecent u n db → IsRecent u n (del k db).1
  del-IsRecent u k n db h later t e = h later t (del-kept (key u) k t later db e)

  put-IsRecent :
      (u v : String) (n now : ℕ) (db : Db)
      → n ≤ now
      → IsRecent u n db
      → IsRecent u n
          (put (key v) (signed_string (claims_at now v refresh)) (duration refresh) now db).1
  put-IsRecent u v n now db from h later t e =
      elim (put-kept (key u) (key v) (signed_string (claims_at now v refresh)) t (duration refresh)
        now later db e) [
          | inl (same, new) ↦
              let user : u ≡ v = append_injective "token:refresh:" u v same in
              (now, from, new ∙ ap (λ x. signed_string (claims_at now x refresh)) (sym user))
          | inr old ↦ h later t old
        ]

  pub generate_token-IsRecent :
      (u v : String) (n now : ℕ) (db : Db)
      → n ≤ now
      → IsRecent u n db
      → IsRecent u n (generate_token jwt redis now v refresh db).1
  unfolding generate_token revoke_token
  generate_token-IsRecent u v n now db from h =
      let gone = del-IsRecent u (key v) n db h in
      let kept = put-IsRecent u v n now (del (key v) db).1 from gone in
      let token = signed_string (claims_at now v refresh) in
      elim (Bool-cases (del (key v) db).0) [
        | inl revoked ↦
            elim (Bool-cases (put (key v) token (duration refresh) now (del (key v) db).1).0) [
              | inl stored ↦ rw (generate_token, revoke_token, revoked, stored) kept
              | inr failed ↦ rw (generate_token, revoke_token, revoked, failed) kept
            ]
        | inr failed ↦ rw (generate_token, revoke_token, failed) gone
      ]

  pub generate_token_pair-eq :
      (now : ℕ) (v : String) (db : Db)
      → (generate_token_pair jwt redis now v db).1 ≡ (generate_token jwt redis now v refresh db).1
  unfolding generate_token_pair
  generate_token_pair-eq now v db =
      elim (Option-cases (generate_token jwt redis now v refresh db).0) [
        | inl e ↦ rw (generate_token_pair, e) refl
        | inr (t, e) ↦ rw (generate_token_pair, e) refl
      ]

  pub pair-IsRecent :
      (u v : String) (n now : ℕ) (db : Db)
      → n ≤ now
      → IsRecent u n db
      → IsRecent u n (generate_token_pair jwt redis now v db).1
  pair-IsRecent u v n now db from h =
      rw (generate_token_pair-eq now v db) (generate_token-IsRecent u v n now db from h)

  pub serve-IsRecent :
      (u : String) (n now : ℕ) (r : Request) (db : Db)
      → n ≤ now
      → IsRecent u n db
      → IsRecent u n (serve jwt redis now r db)
  unfolding serve refresh_service
  serve-IsRecent u n now (enter v) db from h = pair-IsRecent u v n now db from h
  serve-IsRecent u n now (renew t) db from h =
      elim (Option-cases (verify_token jwt redis now t refresh db)) [
        | inl e ↦ rw (serve, refresh_service, e) h
        | inr (v, e) ↦ rw (serve, refresh_service, e) (pair-IsRecent u v n now db from h)
      ]

  pub serve_all-IsRecent :
      (u : String) (n : ℕ) (requests : List (ℕ × Request)) (db : Db)
      → All (λ q. n ≤ q.0) requests
      → IsRecent u n db
      → IsRecent u n (serve_all jwt redis requests db)
  unfolding serve_all
  serve_all-IsRecent u n [] db later h = h
  serve_all-IsRecent u n ((now, r) ∷ rest) db (from, later) h =
      serve_all-IsRecent u n rest (serve jwt redis now r db) later
        (serve-IsRecent u n now r db from h)
