-- ===== src/Routes/Journey.antt =====
-- What a login and a logout do to the routes: redux/auth/authThunk.ts and the logout of
-- components/setting/profile_tab.tsx, with the store between them and app.tsx.
use mpc_main.Prelude.{
  ℕ, ◌+◌, ◌*◌, String, ◌≡◌, refl, Bool, true, false, Option, some, List, [], ◌∷◌, map, ltb, truthy,
}
use mpc_main.Store.{AuthState, AuthAction, reduce, reduce_all}
use mpc_main.Ui.{Effect, answered, dispatches, dispatch_after, visits}
use mpc_main.Auth.{Credentials}
use mpc_main.Auth.Thunk.{LoginBody, login_end}
use mpc_main.Setting.{finish_log_out}
use mpc_main.Routes.{routes, view, by_session, view-session, view-no_token}

-- The actions that are dispatched after a while, once that is over.
abbrev pub delayed : {R : Type 0} → List (Effect R) → List AuthAction
delayed [] = []
delayed (dispatch_after ms a ∷ rest) = a ∷ delayed rest
delayed (_ ∷ rest) = delayed rest

module _ (jwt_decode : String → Option ℕ) where
  -- A login that is answered with 200 and a token leads to the start page, and the store that it leaves
  -- opens every entry of the table of routes until the token expires, if the token can be read.
  pub login-opens :
      (s : AuthState) (user : Credentials) (body : LoginBody) (token : String) (now exp : ℕ)
      → body.payload ≡ some (some token)
      → truthy token ≡ true
      → jwt_decode token ≡ some exp
      → (let effects = login_end user (answered 200 body) in
          (visits effects ≡ "/" ∷ [])
          × (map (view jwt_decode (reduce_all s (dispatches effects)).access_token now) routes
              ≡ map (by_session (ltb now ((exp + 1) * 1000))) routes))
  unfolding login_end reduce_all reduce
  login-opens s user body token now exp given full read =
      rw given (refl, view-session jwt_decode token now exp full read)

  -- A logout that is answered with 200 closes them all: once its delay is over, every entry of the
  -- table leads to the login page again, save the public ones, whatever token was stored.
  pub log_out-closes :
      (s : AuthState) (is_open : Bool) (message : Option String) (now : ℕ)
      → map
          (view jwt_decode
            (reduce_all s (delayed (finish_log_out is_open (answered 200 message)).1)).access_token
            now)
          routes
        ≡ map (by_session false) routes
  unfolding finish_log_out reduce_all reduce
  log_out-closes s is_open message now = view-no_token jwt_decode "" now refl
