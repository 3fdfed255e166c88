-- ===== src/Api/Served.antt =====
-- The routes of the server, backend/internal/api/router.go, and the requests of the client.
use mpc_main.Prelude.{
  String, ◌≡◌, refl, Bool, true, false, not, ◌&&◌, Option, none, some, List, [], ◌∷◌, ◌==◌, find,
}
use Prim.Native.Char.{code}
use mpc_main.Api.{
  Method, get, post, put, patch, delete, Client, session, plain, Http, login_api, register_api,
  send_money_api, payment_api, add_card, get_credit_cards, edit_profile, get_partner_wallet,
  get_transaction_paginate, create_organization, Call, auth, money, payment, card, cached_card,
  setting, app, transaction, organization, refresh_token, get_profile, get_balance, ◌+++◌,
  auth_http, money_http, payment_http, card_http, cached_card_http, setting_http, app_http,
  transaction_http, organization_http, http_of,
}

-- A route of the group /api/v1, and whether `AuthMiddleware` stands before it.
pub record Endpoint : Type 0 where
  pub method : Method
  pub path : String
  pub authenticated : Bool

abbrev open_at : Method → String → Endpoint
open_at method path = record { method = method; path = path; authenticated = false }

abbrev guarded_at : Method → String → Endpoint
guarded_at method path = record { method = method; path = path; authenticated = true }

-- The routes without a wildcard and those of /assets, whose first one is such a route, too.
abbrev pub endpoints : List Endpoint
endpoints =
    open_at get "/api/v1/health"
    ∷ open_at post "/api/v1/auth/login"
    ∷ open_at post "/api/v1/auth/signup"
    ∷ open_at post "/api/v1/auth/refresh"
    ∷ open_at get "/api/v1/assets/chains"
    ∷ open_at get "/api/v1/assets/chains/:chain_id/tokens"
    ∷ open_at get "/api/v1/assets/chains/:chain_id/tokens/:symbol"
    ∷ guarded_at get "/api/v1/users/me"
    ∷ guarded_at get "/api/v1/transactions"
    ∷ guarded_at post "/api/v1/transactions/"
    ∷ guarded_at get "/api/v1/wallets/balance"
    ∷ []

abbrev same_method : Method → Method → Bool
same_method get get = true
same_method post post = true
same_method put put = true
same_method patch patch = true
same_method delete delete = true
same_method _ _ = false

-- The path of an address, up to the question mark, is that of a route; a segment `:name` stands for
-- itself, since no request of the client begins like a path that has one.
abbrev matches : String → String → Bool
matches String.[] String.[] = true
matches String.[] (String.◌∷◌ c u) = code c == b'?'
matches (String.◌∷◌ d r) String.[] = false
matches (String.◌∷◌ d r) (String.◌∷◌ c u) = code d == code c && matches r u

unfoldable pub handler_of : Http → Option Endpoint
handler_of h = find (λ e. same_method e.method h.method && matches e.path h.path) endpoints

-- The requests that the server has a handler for.
abbrev pub is_served : Call → Bool
is_served (auth login_api) = true
is_served (auth register_api) = true
is_served refresh_token = true
is_served get_profile = true
is_served (money send_money_api) = true
is_served (transaction (get_transaction_paginate _ _ _)) = true
is_served get_balance = true
is_served _ = false

abbrev pub is_found : Option Endpoint → Bool
is_found none = false
is_found (some e) = true

-- A handler behind the check of the token is asked by a client that sends the token.
abbrev pub is_entitled : Option Endpoint → Client → Bool
is_entitled none client = true
is_entitled (some e) session = true
is_entitled (some e) plain = not e.authenticated

-- If every base address is that of this server: of all the requests of the client, whatever their
-- arguments are, the server has a handler for seven: the login, the registration, a new token, the
-- profile, sending money, the list of transactions and the balance; and each one whose handler checks
-- the token is sent by a client that adds it.
pub handler_of-http_of :
    (c : Call)
    → (is_found (handler_of (http_of c)) ≡ is_served c)
      × (is_entitled (handler_of (http_of c)) (http_of c).client ≡ true)
unfolding handler_of auth_http money_http payment_http card_http cached_card_http setting_http
    app_http transaction_http organization_http ◌+++◌
handler_of-http_of (auth login_api) = (refl, refl)
handler_of-http_of (money send_money_api) = (refl, refl)
handler_of-http_of (payment (payment_api token)) = (refl, refl)
handler_of-http_of (card add_card) = (refl, refl)
handler_of-http_of (cached_card get_credit_cards) = (refl, refl)
handler_of-http_of (setting edit_profile) = (refl, refl)
handler_of-http_of (app (get_partner_wallet id)) = (refl, refl)
handler_of-http_of (transaction (get_transaction_paginate w p l)) = (refl, refl)
handler_of-http_of (organization create_organization) = (refl, refl)
handler_of-http_of _ = (refl, refl)
