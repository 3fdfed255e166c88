-- ===== src/Server/Refresh/Ends.antt =====
-- A 401 ends the session: the refresh of redux/features/api/apiSlice.ts never renews it.
use mpc_main.Prelude.{ℕ, String, ◌≡◌, refl, true, Option, length}
use mpc_main.Store.{AuthState, reduce}
use mpc_main.Session.Expiry.{to_login, protect, protect-no_token}
use mpc_main.Session.Query.{
  Args, Call, Answer, error, refresh_args, call_with, is_unauthorized, query_with_reauth,
  after_refresh,
}
use mpc_main.Session.Query.Laws.{unauthorized-eq}
use mpc_main.Server.Token.{Jwt, Redis, Pair}
use mpc_main.Server.Refresh.{refresh_handler, query_body, query_answer}

module _ {D W : Type 0} (jwt : Jwt) (redis : Redis) (token_of : D → String) (read : Pair → D)
    (fetch : Call → W → Answer D × W) (now : W → ℕ) (db : W → redis.Db)
    (jwt_decode : String → Option ℕ) where
  -- If the refresh is answered by the server's handler, then every query that comes back with 401
  -- ends the session: the 401 is given on after the refresh, the query is not sent again, and every
  -- guarded page leads to the login page, at any time.
  pub query_with_reauth-ends :
      (args : Args) (s : AuthState) (w : W) (time : ℕ)
      → ((call : Call) (v : W)
          → call.args ≡ refresh_args
          → (fetch call v).0
            ≡ query_answer read (refresh_handler jwt redis (now v) query_body (db v)).0)
      → is_unauthorized (fetch (call_with args s.access_token) w).0 ≡ true
      → let done = query_with_reauth token_of fetch args s w in
        (done.answer ≡ error 401)
        × (length done.calls ≡ 2)
        × (protect jwt_decode done.auth.access_token time ≡ to_login)
  unfolding query_with_reauth after_refresh reduce query_answer refresh_handler
  query_with_reauth-ends args s w time serves refused =
      let call = call_with args s.access_token in
      let again = call_with refresh_args s.access_token in
      let answered : (fetch again (fetch call w).1).0 ≡ error 400 =
        serves again (fetch call w).1 refl in
      rw (query_with_reauth, refused, answered)
        (unauthorized-eq (fetch call w).0 refused, refl, protect-no_token jwt_decode "" time refl)
