-- ===== src/Server/Token.antt =====
-- backend/pkg/token/token.go, AuthService.Refresh of backend/internal/service/auth.go and
-- backend/internal/api/middleware/auth.go. The package golang-jwt and the database Redis are
-- interfaces, whose laws are what they document. Times are in seconds, as in the claims of a token.
pub mod Stored
pub mod Rotation
pub mod Guard
use mpc_main.Prelude.{
  ℕ, zero, suc, ◌+◌, ◌-◌, ◌*◌, ◌/◌, ◌^◌, ◌≤◌, ◌<◌, String, ◌≡◌, refl, sym, ap, ◌∙◌, ◌≢◌, ◌↔◌, ◌⊎◌,
  inl, inr, Bool, true, false, not, ◌&&◌, ◌||◌, Option, none, some, List, [], ◌∷◌, ◌++◌, map, arith,
  str_eq, eq_iff, eq_refl, ltb, leb, ◌==◌, if◌then◌else◌, Bool-cases, Option-cases, and-eq-true,
  truthy, or_text, length, take, drop, keep, find, any, all, length-take, length-drop, length-snoc,
  take-add, take_all, flat, flat-snoc, keep-append, keep_of_all, all-keep, all-take, all-drop,
  keep-keep, All, All-append, All-keep, Text, units, text_eq, text_eq_sound, text_eq_refl, is_empty,
}
use Prim.Native.String

pub record Claims : Type 0 where
  pub user_id : String
  pub expires_at : ℕ
  pub issued_at : ℕ

-- `SignedString` and `ParseWithClaims` with the one key: a token that was signed is read until the
-- second in which it expires, and no more from then on.
pub record Jwt : Type 0 where
  pub signed_string : Claims → String
  pub parse : ℕ → String → Option Claims
  pub parse-signed_string :
      (now : ℕ) (c : Claims)
      → parse now (signed_string c) ≡ (if ltb now c.expires_at then some c else none)

-- `Get`, `Set` with a duration, and `Del`, each with whether it went well. A call that fails has
-- changed the key or not; no call changes another key.
pub record Redis : Type 1 where
  pub Db : Type 0
  pub get : String → ℕ → Db → Option String
  pub put : String → String → ℕ → ℕ → Db → Bool × Db
  pub del : String → Db → Bool × Db
  pub put_other :
      (j k v : String) (d now later : ℕ) (db : Db)
      → j ≢ k
      → get j later (put k v d now db).1 ≡ get j later db
  pub del_other :
      (j k : String) (later : ℕ) (db : Db) → j ≢ k → get j later (del k db).1 ≡ get j later db
  pub put_self :
      (k v w : String) (d now later : ℕ) (db : Db)
      → get k later (put k v d now db).1 ≡ some w
      → (w ≡ v) ⊎ (((put k v d now db).0 ≡ false) × (get k later db ≡ some w))
  pub put_kept :
      (k v : String) (d now later : ℕ) (db : Db)
      → (put k v d now db).0 ≡ true
      → later < now + d
      → get k later (put k v d now db).1 ≡ some v
  pub del_self :
      (k w : String) (later : ℕ) (db : Db)
      → get k later (del k db).1 ≡ some w
      → ((del k db).0 ≡ false) × (get k later db ≡ some w)

pub data TokenType : Type 0 where
  access refresh : TokenType

abbrev pub duration : TokenType → ℕ
duration access = 12 * 3600
duration refresh = 7 * 24 * 3600

-- `token:refresh:` and the identifier; tokens of the other type have no key.
abbrev pub key : String → String
key user_id = String.◌++◌ "token:refresh:" user_id

abbrev pub claims_at : ℕ → String → TokenType → Claims
claims_at now user_id t = record {
  user_id = user_id;
  expires_at = now + duration t;
  issued_at = now;
}

pub record Pair : Type 0 where
  pub access_token : String
  pub refresh_token : String

-- What changes the stored tokens: a user who has logged in or signed up is given a pair, and a
-- refresh.
pub data Request : Type 0 where
  enter : String → Request
  renew : String → Request

module _ (jwt : Jwt) (redis : Redis) where
  open jwt use {signed_string, parse}
  open redis use {Db, get, put, del}

  unfoldable pub revoke_token : String → TokenType → Db → Bool × Db
  revoke_token user_id access db = (true, db)
  revoke_token user_id refresh db = del (key user_id) db

  unfoldable pub generate_token : ℕ → String → TokenType → Db → Option String × Db
  unfolding revoke_token
  generate_token now user_id access db = (some (signed_string (claims_at now user_id access)), db)
  generate_token now user_id refresh db =
      let (revoked, db') = revoke_token user_id refresh db in
      let token = signed_string (claims_at now user_id refresh) in
      let (stored, db'') = put (key user_id) token (duration refresh) now db' in
      if revoked then (if stored then (some token, db'') else (none, db'')) else (none, db')

  -- Whether the token is the one that is stored, where it must be stored.
  unfoldable pub check_stored : ℕ → String → TokenType → String → Db → Option String
  check_stored now token access user_id db = some user_id
  check_stored now token refresh user_id db = elim (get (key user_id) now db) [
    | none ↦ none
    | some stored ↦ if str_eq stored token then some user_id else none
  ]

  unfoldable pub verify_token : ℕ → String → TokenType → Db → Option String
  unfolding check_stored
  verify_token now token t db = elim (parse now token) [
    | none ↦ none
    | some claims ↦ check_stored now token t claims.user_id db
  ]

  unfoldable pub generate_token_pair : ℕ → String → Db → Option Pair × Db
  unfolding generate_token
  generate_token_pair now user_id db =
      let access_token = signed_string (claims_at now user_id access) in
      let (generated, db') = generate_token now user_id refresh db in
      elim generated [
        | none ↦ (none, db')
        | some token ↦ (some (record { access_token = access_token; refresh_token = token }), db')
      ]

  -- AuthService.Refresh
  unfoldable pub refresh_service : ℕ → String → Db → Option Pair × Db
  unfolding verify_token generate_token_pair
  refresh_service now token db = elim (verify_token now token refresh db) [
    | none ↦ (none, db)
    | some user_id ↦ generate_token_pair now user_id db
  ]

  -- AuthMiddleware, from the header to the user; `none` is the answer 401. The second argument is
  -- the header without the word "Bearer " that it may start with.
  unfoldable pub authorize : ℕ → String → Db → Option String
  unfolding verify_token
  authorize now jwt_token db =
      if truthy jwt_token then verify_token now jwt_token access db else none

  unfoldable pub serve : ℕ → Request → Db → Db
  unfolding generate_token_pair refresh_service
  serve now (enter user_id) db = (generate_token_pair now user_id db).1
  serve now (renew token) db = (refresh_service now token db).1

  unfoldable pub serve_all : List (ℕ × Request) → Db → Db
  unfolding serve
  serve_all [] db = db
  serve_all ((now, r) ∷ rest) db = serve_all rest (serve now r db)
