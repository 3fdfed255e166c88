-- ===== src/Server/Refresh.antt =====
-- The refresh from both ends: AuthHandler.Refresh of backend/internal/api/handler/auth.go, with the
-- check of its body and the answer to an error, and the two clients, whose requests hold no token.
pub mod Ends
pub mod Keeps
use mpc_main.Prelude.{
  ℕ, zero, suc, ◌+◌, ◌-◌, ◌*◌, ◌/◌, ◌^◌, ◌≤◌, ◌<◌, String, ◌≡◌, refl, sym, ap, ◌∙◌, ◌≢◌, ◌↔◌, ◌⊎◌,
  inl, inr, Bool, true, false, not, ◌&&◌, ◌||◌, Option, none, some, List, [], ◌∷◌, ◌++◌, map, arith,
  str_eq, eq_iff, eq_refl, ltb, leb, ◌==◌, if◌then◌else◌, Bool-cases, Option-cases, and-eq-true,
  truthy, or_text, length, take, drop, keep, find, any, all, length-take, length-drop, length-snoc,
  take-add, take_all, flat, flat-snoc, keep-append, keep_of_all, all-keep, all-take, all-drop,
  keep-keep, All, All-append, All-keep, Text, units, text_eq, text_eq_sound, text_eq_refl, is_empty,
  append_injective, String-cases,
}
use mpc_main.Session.Query.{Answer, no_data, error}
use mpc_main.Session.Refresh.{Response, arrived, failed}
use mpc_main.Server.Token.{Jwt, Redis, Pair, refresh_service}

-- The body of the request: none, one that does not bind to `model.Refresh`, or one that binds, whose
-- field `refresh_token` is missing or a text.
pub data RefreshBody : Type 0 where
  no_body not_bound : RefreshBody
  bound : Option String → RefreshBody

-- `ValidateBody`: the token must be there, and not be empty.
unfoldable pub validate_body : RefreshBody → Option String
validate_body (bound (some token)) = if truthy token then some token else none
validate_body _ = none

-- A status, and the payload of a success.
pub record Served : Type 0 where
  pub status : ℕ
  pub payload : Option Pair

abbrev pub served_error : ℕ → Served
served_error status = record { status = status; payload = none }

module _ (jwt : Jwt) (redis : Redis) where
  open redis use {Db}

  -- The error of a token that is refused is no `AppError`, so that it is answered with 500.
  unfoldable pub refresh_handler : ℕ → RefreshBody → Db → Served × Db
  unfolding validate_body
  refresh_handler now body db = elim (validate_body body) [
    | none ↦ (served_error 400, db)
    | some token ↦
        let (pair, db') = refresh_service jwt redis now token db in
        elim pair [
          | none ↦ (served_error 500, db')
          | some p ↦ (record { status = 200; payload = some p }, db')
        ]
  ]

-- `post("/api/v1/auth/refresh", { withCredentials: true })` of config/axios.config.ts: the options
-- stand in the place of the body.
abbrev pub axios_body : RefreshBody
axios_body = bound none

-- The request of redux/features/api/apiSlice.ts has no body.
abbrev pub query_body : RefreshBody
query_body = no_body

-- An answer as axios gives it: a status below 200 or above 299 is an error. Its `data.data` is
-- undefined, which is stored as no token.
unfoldable pub axios_response : Served → Response
axios_response s =
    if leb 200 s.status && ltb s.status 300 then arrived s.status "" else failed (some s.status)

-- The same as `fetchBaseQuery` gives it; `read` is what the answer of a success is read as.
unfoldable pub query_answer : {D : Type 0} → (Pair → D) → Served → Answer D
query_answer read s = elim (s.payload) [ none ↦ error s.status | some p ↦ Answer.found (read p) ]
