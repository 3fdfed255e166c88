-- ===== src/Routes.antt =====
-- app.tsx: which page is shown at which path, and behind which guard. Menu holds the links of the
-- menus, Reached that what the pages lead to is there.
pub mod Menu
pub mod Reached
pub mod Journey
use mpc_main.Prelude.{
  ℕ, ◌+◌, ◌-◌, ◌*◌, ◌/◌, String, ◌≡◌, sym, ap, ◌∙◌, inl, inr, Bool, true, false, ◌&&◌, ◌||◌, Option,
  none, some, List, [], ◌∷◌, map, arith, ltb, ◌==◌, if◌then◌else◌, Bool-cases, truthy,
}
use Prim.Native.Char.{code}
use Prim.Native.String
use mpc_main.Session.Expiry.{
  Guarded, to_login, outlet, crash, protect, protect-outlet, protect-expired, protect-no_token,
}

-- The route without a path that stands around an entry: `ProtectRoutes`, `RegisteredRoute`, which is
-- an outlet and no more, or none.
pub data Guard : Type 0 where
  protected registered unguarded : Guard

pub data Layout : Type 0 where
  authenticated business transfer non_authenticated bare : Layout

-- A path of the table; `none` is `*`, which stands for every path that has no entry.
pub record Route : Type 0 where
  pub guard : Guard
  pub layout : Layout
  pub path : Option String
  pub screen : String

abbrev signed_in : String → String → Route
signed_in path screen = record {
  guard = protected;
  layout = authenticated;
  path = some path;
  screen = screen;
}

abbrev in_transfer : String → String → Route
in_transfer path screen = record {
  guard = protected;
  layout = transfer;
  path = some path;
  screen = screen;
}

abbrev in_business : String → String → Route
in_business path screen = record {
  guard = protected;
  layout = business;
  path = some path;
  screen = screen;
}

abbrev open_page : String → String → Route
open_page path screen = record {
  guard = registered;
  layout = non_authenticated;
  path = some path;
  screen = screen;
}

abbrev not_found : Guard → Route
not_found guard = record { guard = guard; layout = bare; path = none; screen = "PageNotFound" }

-- The table in the order of the source; the entry for cards has its child below it.
abbrev pub routes : List Route
routes =
    signed_in "/" "Home"
    ∷ signed_in "/setting" "Setting"
    ∷ signed_in "/connect-app" "B2BAPIManagement"
    ∷ signed_in "/scan-qrcode" "ScanQR"
    ∷ signed_in "/payment" "PaymentGateway"
    ∷ signed_in "/payment/results" "PaymentResults"
    ∷ signed_in "/option-payment" "SelectOptions"
    ∷ signed_in "/transfer" "Transfer"
    ∷ signed_in "/transfer/result" "TransferResults"
    ∷ signed_in "/transfer/info" "TransferByQrCode"
    ∷ in_transfer "/transfer" "Transfer"
    ∷ in_transfer "/transfer/result" "TransferResults"
    ∷ in_transfer "/transfer/info" "TransferByQrCode"
    ∷ signed_in "/transaction/history" "History"
    ∷ signed_in "/transaction/details" "TransactionDetails"
    ∷ signed_in "/deposit-withdraw" "DepositWithdraw"
    ∷ signed_in "/deposit-withdraw/result" "Result"
    ∷ signed_in "/credit-card" "CreditCard"
    ∷ signed_in "/credit-card/add-card" "AddCreditCard"
    ∷ signed_in "/receive-page" "ReceivePage"
    ∷ in_business "/b2b" "B2BDashboard"
    ∷ in_business "/b2b/dashboard" "B2BDashboard"
    ∷ in_business "/b2b/users" "B2BUsers"
    ∷ in_business "/b2b/api-keys" "B2BAPIManagement"
    ∷ in_business "/b2b/analytics" "Analytics Page (Coming Soon)"
    ∷ in_business "/b2b/settings" "B2B Settings (Coming Soon)"
    ∷ not_found protected
    ∷ open_page "/auth/login" "Login"
    ∷ open_page "/auth/login/verify-login" "VerifyLogin"
    ∷ open_page "/auth/register" "Register"
    ∷ open_page "/auth/register/verify-register" "VerifyRegister"
    ∷ open_page "/auth/register/security-code" "SecurityCode"
    ∷ open_page "/auth/login/forgot-password" "ForgotPasswordForm"
    ∷ open_page "/auth/login/reset-password" "ResetPasswordForm"
    ∷ not_found unguarded
    ∷ []

-- What is shown; `failed` is an exception in the guard.
pub data View : Type 0 where
  screen : String → View
  redirected : String → View
  failed : View

-- What an entry shows where `ProtectRoutes` decides so.
unfoldable pub behind : Guarded → Route → View
behind decision route = elim (route.guard) [
  | protected ↦ elim decision [
    | to_login ↦ redirected "/auth/login"
    | outlet ↦ screen route.screen
    | crash ↦ failed
  ]
  | registered ↦ screen route.screen
  | unguarded ↦ screen route.screen
]

-- `text.startsWith(prefix)`
abbrev pub starts_with : String → String → Bool
starts_with s String.[] = true
starts_with String.[] (String.◌∷◌ d p) = false
starts_with (String.◌∷◌ c s) (String.◌∷◌ d p) = code c == code d && starts_with s p

-- A page that is there without a session, by its path.
abbrev pub is_public : Route → Bool
is_public route = elim (route.path) [
  | none ↦ elim (route.guard) [ unguarded ↦ true | _ ↦ false ]
  | some path ↦ starts_with path "/auth/"
]

-- The page of an entry if it is public or there is a session, and the login page otherwise.
abbrev pub by_session : Bool → Route → View
by_session session r = if is_public r || session then screen r.screen else redirected "/auth/login"

module _ (jwt_decode : String → Option ℕ) where
  unfoldable pub view : String → ℕ → Route → View
  unfolding behind
  view token now = behind (protect jwt_decode token now)

  -- Without a stored token every entry of the table leads to the login page, save those whose path
  -- starts with /auth/, which show their page, and the last `*`.
  pub view-no_token :
      (token : String) (now : ℕ)
      → truthy token ≡ false
      → map (view token now) routes ≡ map (by_session false) routes
  unfolding view behind
  view-no_token token now missing =
      ap (λ g. map (behind g) routes) (protect-no_token jwt_decode token now missing)

  -- With a stored token that can be read, every entry of the table shows its page until the second
  -- in which the token expires is over; from then on only those whose path starts with /auth/ and the
  -- last `*` do, and all others lead to the login page.
  pub view-session :
      (token : String) (now exp : ℕ)
      → truthy token ≡ true
      → jwt_decode token ≡ some exp
      → map (view token now) routes ≡ map (by_session (ltb now ((exp + 1) * 1000))) routes
  unfolding view behind
  view-session token now exp full read = elim (Bool-cases (ltb now ((exp + 1) * 1000))) [
    | inl before ↦
        let shown =
          (protect-outlet jwt_decode token now exp full read).1 (ground (arith, before)) in
        ap (λ g. map (behind g) routes) shown ∙ ap (λ b. map (by_session b) routes) (sym before)
    | inr after ↦
        let closed = protect-expired jwt_decode token now exp full read (ground (arith, after)) in
        ap (λ g. map (behind g) routes) closed ∙ ap (λ b. map (by_session b) routes) (sym after)
  ]
